-- ===== src/Cron/Pattern.antt =====
-- parseDomModifier, parseDowModifier, parseCronPattern and nextCronOccurrenceUtc of src/utils.ts.
use glide_mq.Common.{
  ℕ, ◌+◌, ◌/◌, ◌%◌, ◌*◌, Bool, true, false, ◌&&◌, ◌||◌, List, [], ◌∷◌, ◌++◌, Option, none, some,
  map, ltb, ◌==◌, if◌then◌else◌, Result, ok, err, ◌>>=◌, length,
}
use glide_mq.Cron.Calendar.{wall_to_naive_utc, utc_to_wall}
use glide_mq.Cron.Search.{CronField, CronPattern, has, search_cron_wall}
use glide_mq.Cron.Text.{
  Text, same_text, trim, split_spaces, to_upper, is_number, parse_int, contains, split_last,
  split_hash,
}
use glide_mq.Cron.Field.{
  CronError, CronFieldSpec, value_out_of_bounds, wrong_field_count, parse_cron_value,
  parse_cron_field, add, sort,
}

abbrev pub month_names : List (Text × ℕ)
month_names =
    (b'J' ∷ b'A' ∷ b'N' ∷ [], 1)
    ∷ (b'F' ∷ b'E' ∷ b'B' ∷ [], 2)
    ∷ (b'M' ∷ b'A' ∷ b'R' ∷ [], 3)
    ∷ (b'A' ∷ b'P' ∷ b'R' ∷ [], 4)
    ∷ (b'M' ∷ b'A' ∷ b'Y' ∷ [], 5)
    ∷ (b'J' ∷ b'U' ∷ b'N' ∷ [], 6)
    ∷ (b'J' ∷ b'U' ∷ b'L' ∷ [], 7)
    ∷ (b'A' ∷ b'U' ∷ b'G' ∷ [], 8)
    ∷ (b'S' ∷ b'E' ∷ b'P' ∷ [], 9)
    ∷ (b'O' ∷ b'C' ∷ b'T' ∷ [], 10)
    ∷ (b'N' ∷ b'O' ∷ b'V' ∷ [], 11)
    ∷ (b'D' ∷ b'E' ∷ b'C' ∷ [], 12)
    ∷ []

abbrev pub dow_names : List (Text × ℕ)
dow_names =
    (b'S' ∷ b'U' ∷ b'N' ∷ [], 0)
    ∷ (b'M' ∷ b'O' ∷ b'N' ∷ [], 1)
    ∷ (b'T' ∷ b'U' ∷ b'E' ∷ [], 2)
    ∷ (b'W' ∷ b'E' ∷ b'D' ∷ [], 3)
    ∷ (b'T' ∷ b'H' ∷ b'U' ∷ [], 4)
    ∷ (b'F' ∷ b'R' ∷ b'I' ∷ [], 5)
    ∷ (b'S' ∷ b'A' ∷ b'T' ∷ [], 6)
    ∷ []

abbrev pub cron_second : CronFieldSpec
cron_second = record { min = 0; max = 59; names = []; allow_question = false }

abbrev pub cron_minute : CronFieldSpec
cron_minute = record { min = 0; max = 59; names = []; allow_question = false }

abbrev pub cron_hour : CronFieldSpec
cron_hour = record { min = 0; max = 23; names = []; allow_question = false }

abbrev pub cron_dom : CronFieldSpec
cron_dom = record { min = 1; max = 31; names = []; allow_question = true }

abbrev pub cron_month : CronFieldSpec
cron_month = record { min = 1; max = 12; names = month_names; allow_question = false }

abbrev pub cron_dow : CronFieldSpec
cron_dow = record { min = 0; max = 7; names = dow_names; allow_question = true }

pub record CronDayModifiers : Type 0 where
  pub dom_last : Bool
  pub dom_last_weekday : Bool
  pub dom_nearest_weekday : List ℕ
  pub dow_last : List ℕ
  pub dow_nth : List (ℕ × ℕ)

unfoldable pub check_cron_bound : ℕ → ℕ → ℕ → Result CronError ℕ
check_cron_bound value min max =
    if ltb value min || ltb max value then err (value_out_of_bounds value) else ok value

-- `<n>W`, of a token in capitals that is neither `L` nor `LW`.
unfoldable pub parse_nearest :
    CronDayModifiers → Option (Text × ℕ) → Result CronError (Bool × CronDayModifiers)
unfolding is_number parse_int check_cron_bound
parse_nearest mods none = ok (false, mods)
parse_nearest mods (some (digits, last)) =
    if is_number digits && (last == b'W')
    then (do
      n ← check_cron_bound (parse_int digits) cron_dom.min cron_dom.max
      ok (true, record mods { dom_nearest_weekday = mods.dom_nearest_weekday ++ n ∷ [] }))
    else ok (false, mods)

unfoldable pub parse_dom_modifier :
    Text → CronDayModifiers → Result CronError (Bool × CronDayModifiers)
unfolding same_text to_upper split_last parse_nearest
parse_dom_modifier token mods =
    let upper = map to_upper token in
    if same_text upper (b'L' ∷ [])
    then ok (true, record mods { dom_last = true })
    else if same_text upper (b'L' ∷ b'W' ∷ [])
    then ok (true, record mods { dom_last_weekday = true })
    else parse_nearest mods (split_last upper)

unfoldable pub add_dow_last :
    CronDayModifiers → Option ℕ → Result CronError (Bool × CronDayModifiers)
unfolding check_cron_bound add
add_dow_last mods none = ok (false, mods)
add_dow_last mods (some dow) = do
  d ← check_cron_bound dow cron_dow.min cron_dow.max
  ok (true, record mods { dow_last = add (d % 7) mods.dow_last })

unfoldable pub add_dow_nth :
    CronDayModifiers → Option ℕ → Text → Result CronError (Bool × CronDayModifiers)
unfolding check_cron_bound parse_int
add_dow_nth mods none digits = ok (false, mods)
add_dow_nth mods (some dow) digits = do
  d ← check_cron_bound dow cron_dow.min cron_dow.max
  n ← check_cron_bound (parse_int digits) 1 5
  ok (true, record mods { dow_nth = mods.dow_nth ++ (d % 7, n) ∷ [] })

-- `/^(.+)#(\d+)$/`
unfoldable pub parse_nth :
    CronDayModifiers → Option (Text × Text) → Result CronError (Bool × CronDayModifiers)
unfolding add_dow_nth is_number parse_cron_value
parse_nth mods none = ok (false, mods)
parse_nth mods (some ([], digits)) = ok (false, mods)
parse_nth mods (some (c ∷ s, digits)) =
    if is_number digits
    then add_dow_nth mods (parse_cron_value (c ∷ s) cron_dow) digits
    else ok (false, mods)

-- `/^(.+)L$/i` comes first: a token that it fits is no `#` token.
unfoldable pub parse_last :
    Text → CronDayModifiers → Option (Text × ℕ) → Result CronError (Bool × CronDayModifiers)
unfolding add_dow_last parse_nth split_hash parse_cron_value
parse_last token mods none = parse_nth mods (split_hash token)
parse_last token mods (some ([], last)) = parse_nth mods (split_hash token)
parse_last token mods (some (c ∷ s, last)) =
    if (last == b'L') || (last == b'l')
    then add_dow_last mods (parse_cron_value (c ∷ s) cron_dow)
    else parse_nth mods (split_hash token)

unfoldable pub parse_dow_modifier :
    Text → CronDayModifiers → Result CronError (Bool × CronDayModifiers)
unfolding parse_last split_last
parse_dow_modifier token mods = parse_last token mods (split_last token)

unfoldable pub delete : ℕ → List ℕ → List ℕ
delete x [] = []
delete x (y ∷ ys) = let rest = delete x ys in if y == x then rest else y ∷ rest

-- 7 is a second Sunday.
unfoldable pub fold_sunday : CronField → CronField
unfolding has delete add sort
fold_sunday f =
    if has 7 f.set
    then (let set = add 0 (delete 7 f.set) in record { set = set; sorted = sort set })
    else f

unfoldable pub no_special : Text → Unit {0} → Result CronError (Bool × Unit {0})
no_special token mods = ok (false, mods)

-- A field without day modifiers.
unfoldable pub parse_plain_field : CronFieldSpec → Text → Result CronError CronField
unfolding parse_cron_field no_special
parse_plain_field spec field = do (f, _) ← parse_cron_field spec no_special field tt; ok f

abbrev pub no_modifiers : CronDayModifiers
no_modifiers = record {
  dom_last = false;
  dom_last_weekday = false;
  dom_nearest_weekday = [];
  dow_last = [];
  dow_nth = [];
}

unfoldable pub parse_fields :
    Bool → Text → Text → Text → Text → Text → Text → Result CronError CronPattern
unfolding parse_cron_field parse_plain_field parse_dom_modifier parse_dow_modifier fold_sunday
    contains
parse_fields has_seconds second_text minute_text hour_text dom_text month_text dow_text = do
  (dom, mods) ← parse_cron_field cron_dom parse_dom_modifier dom_text no_modifiers
  (parsed_dow, mods') ← parse_cron_field cron_dow parse_dow_modifier dow_text mods
  let dow = fold_sunday parsed_dow
  second ← parse_plain_field cron_second second_text
  minute ← parse_plain_field cron_minute minute_text
  hour ← parse_plain_field cron_hour hour_text
  month ← parse_plain_field cron_month month_text
  ok (record {
    dom_last = mods'.dom_last;
    dom_last_weekday = mods'.dom_last_weekday;
    dom_nearest_weekday = mods'.dom_nearest_weekday;
    dow_last = mods'.dow_last;
    dow_nth = mods'.dow_nth;
    second = second;
    minute = minute;
    hour = hour;
    dom = dom;
    month = month;
    dow = dow;
    has_seconds = has_seconds;
    wildcard_time = contains (λ c. c == b'*') minute_text || contains (λ c. c == b'*') hour_text;
    dom_unrestricted = length dom.set == 31;
    dow_unrestricted = (length dow.set == 7) && contains (λ c. (c == b'*') || (c == b'?')) dow_text;
  })

unfoldable pub parse_split : List Text → Result CronError CronPattern
unfolding parse_fields
parse_split (a ∷ b ∷ c ∷ d ∷ e ∷ []) = parse_fields false (b'0' ∷ []) a b c d e
parse_split (a ∷ b ∷ c ∷ d ∷ e ∷ f ∷ []) = parse_fields true a b c d e f
parse_split fields = err (wrong_field_count (length fields))

unfoldable pub parse_cron_pattern : Text → Result CronError CronPattern
unfolding parse_split split_spaces trim
parse_cron_pattern pattern = parse_split (split_spaces (trim pattern))

-- The error case is a malformed pattern; `none` is that nothing matches within the horizon.
unfoldable pub next_cron_occurrence_utc : Text → ℕ → Result CronError (Option ℕ)
unfolding parse_cron_pattern search_cron_wall wall_to_naive_utc utc_to_wall
next_cron_occurrence_utc pattern after_ms = do
  cron ← parse_cron_pattern pattern
  let start = utc_to_wall (after_ms / 1000 * 1000 + 1000)
  ok (search_cron_wall cron start (λ w. some (wall_to_naive_utc w)))
