-- ===== src/Cron/Field.antt =====
-- parseCronField of src/utils.ts: one field of a pattern, with the values that it allows.
use glide_mq.Common.{
  ℕ, zero, suc, ◌+◌, ◌-◌, Bool, true, false, ◌&&◌, ◌||◌, not, List, [], ◌∷◌, ◌++◌, Option, none,
  some, map, ltb, leb, ◌==◌, if◌then◌else◌, Result, ok, err, ◌>>=◌,
}
use glide_mq.Cron.Search.{CronField, has}
use glide_mq.Cron.Text.{Text, same_text, trim, split, to_upper, is_number, parse_int}

pub data CronError : Type 0 where
  range_out_of_bounds : (from to : ℕ) → CronError
  range_reversed : (from to : ℕ) → CronError
  invalid_token : Text → CronError
  invalid_step : ℕ → CronError
  value_out_of_bounds : ℕ → CronError
  wrong_field_count : ℕ → CronError

pub record CronFieldSpec : Type 0 where
  pub min : ℕ
  pub max : ℕ
  pub names : List (Text × ℕ)
  pub allow_question : Bool

unfoldable pub name_value : Text → List (Text × ℕ) → Option ℕ
unfolding same_text
name_value s [] = none
name_value s ((name, n) ∷ names) = if same_text name s then some n else name_value s names

unfoldable pub parse_cron_value : Text → CronFieldSpec → Option ℕ
unfolding name_value is_number parse_int to_upper
parse_cron_value token spec =
    if is_number token then some (parse_int token) else name_value (map to_upper token) spec.names

-- `values.add(v)`
unfoldable pub add : ℕ → List ℕ → List ℕ
unfolding has
add v set = if has v set then set else set ++ v ∷ []

-- `for (let i = from; i <= to; i += step) values.add(i)`, on fuel.
unfoldable pub add_steps : ℕ → ℕ → ℕ → ℕ → List ℕ → List ℕ
unfolding add
add_steps zero from to step set = set
add_steps (suc fuel) from to step set =
    let rest = add_steps fuel (from + step) to step (add from set) in
    if leb from to then rest else set

-- The step is at least 1, so that the fuel is enough.
unfoldable pub add_range : CronFieldSpec → ℕ → ℕ → ℕ → List ℕ → Result CronError (List ℕ)
unfolding add_steps
add_range spec from to step set =
    if ltb from spec.min || ltb spec.max to
    then err (range_out_of_bounds from to)
    else if ltb to from
    then err (range_reversed from to)
    else ok (add_steps (to + 1 - from) from to step set)

unfoldable pub has_empty : List Text → Bool
has_empty [] = false
has_empty ([] ∷ ws) = true
has_empty ((c ∷ w) ∷ ws) = has_empty ws

-- The text behind the slash: a step of at least 1, and 1 where there is none.
unfoldable pub parse_step : Text → Option Text → Result CronError ℕ
unfolding is_number parse_int
parse_step token none = ok 1
parse_step token (some s) =
    if not (is_number s)
    then err (invalid_token token)
    else if parse_int s == 0
    then err (invalid_step 0)
    else ok (parse_int s)

unfoldable pub value_or_invalid : Text → Option ℕ → Result CronError ℕ
value_or_invalid token none = err (invalid_token token)
value_or_invalid token (some n) = ok n

-- `from-to`, `from/step` or `from`.
unfoldable pub parse_dash :
    CronFieldSpec → Text → Option Text → ℕ → List Text → List ℕ → Result CronError (List ℕ)
unfolding value_or_invalid parse_cron_value add_range
parse_dash spec token step_text step (a ∷ b ∷ []) set = do
  from ← value_or_invalid token (parse_cron_value a spec)
  to ← value_or_invalid token (parse_cron_value b spec)
  add_range spec from to step set
parse_dash spec token (some _) step (a ∷ []) set = do
  from ← value_or_invalid token (parse_cron_value a spec)
  add_range spec from spec.max step set
parse_dash spec token none step (a ∷ []) set = do
  from ← value_or_invalid token (parse_cron_value a spec)
  if ltb from spec.min || ltb spec.max from
      then err (value_out_of_bounds from)
      else ok (add from set)
parse_dash spec token step_text step parts set = err (invalid_token token)

unfoldable pub parse_range :
    CronFieldSpec → Text → Text → Option Text → List ℕ → Result CronError (List ℕ)
unfolding parse_step parse_dash has_empty same_text split
parse_range spec token range_text step_text set = do
  step ← parse_step token step_text
  if same_text range_text (b'*' ∷ [])
      then add_range spec spec.min spec.max step set
      else if has_empty (split b'-' range_text)
      then err (invalid_token token)
      else parse_dash spec token step_text step (split b'-' range_text) set

unfoldable pub parse_slash : CronFieldSpec → Text → List Text → List ℕ → Result CronError (List ℕ)
unfolding parse_range has_empty
parse_slash spec token (range_text ∷ []) set =
    if has_empty (range_text ∷ [])
    then err (invalid_token token)
    else parse_range spec token range_text none set
parse_slash spec token (range_text ∷ step_text ∷ []) set =
    if has_empty (range_text ∷ step_text ∷ [])
    then err (invalid_token token)
    else parse_range spec token range_text (some step_text) set
parse_slash spec token parts set = err (invalid_token token)

unfoldable pub is_wildcard : CronFieldSpec → Text → Bool
unfolding same_text
is_wildcard spec token =
    same_text token (b'*' ∷ []) || (spec.allow_question && same_text token (b'?' ∷ []))

unfoldable pub insert : ℕ → List ℕ → List ℕ
insert x [] = x ∷ []
insert x (y ∷ ys) = let rest = insert x ys in if leb x y then x ∷ y ∷ ys else y ∷ rest

-- `[...set].sort((a, b) => a - b)`
unfoldable pub sort : List ℕ → List ℕ
unfolding insert
sort [] = []
sort (x ∷ xs) = insert x (sort xs)

-- `special` consumes a token and changes its own state `M`, or leaves the token.
module _ {M : Type 0} (spec : CronFieldSpec)
    (special : Text → M → Result CronError (Bool × M)) where
  unfoldable pub parse_special : Text → List ℕ → Bool × M → Result CronError (List ℕ × M)
  unfolding parse_slash split
  parse_special token set (true, mods) = ok (set, mods)
  parse_special token set (false, mods) = do
    set' ← parse_slash spec token (split b'/' token) set
    ok (set', mods)

  unfoldable pub parse_part : Text → List ℕ → M → Result CronError (List ℕ × M)
  unfolding is_wildcard trim parse_special
  parse_part part set mods =
      if is_wildcard spec (trim part)
      then (do set' ← add_range spec spec.min spec.max 1 set; ok (set', mods))
      else (do r ← special (trim part) mods; parse_special (trim part) set r)

  unfoldable pub parse_parts : List Text → List ℕ → M → Result CronError (List ℕ × M)
  unfolding parse_part
  parse_parts [] set mods = ok (set, mods)
  parse_parts (part ∷ parts) set mods = do
    (set', mods') ← parse_part part set mods
    parse_parts parts set' mods'

  unfoldable pub parse_cron_field : Text → M → Result CronError (CronField × M)
  unfolding parse_parts sort split
  parse_cron_field field mods = do
    (set, mods') ← parse_parts (split b',' field) [] mods
    ok (record { set = set; sorted = sort set }, mods')
