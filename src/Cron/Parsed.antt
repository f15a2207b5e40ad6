-- ===== src/Cron/Parsed.antt =====
-- The fields that parseCronField of src/utils.ts returns.
use glide_mq.Common.{
  ℕ, ◌<◌, ◌≡◌, refl, sym, ◌∙◌, inl, inr, Bool, true, false, ◌||◌, List, [], ◌∷◌, ◌++◌, Option, none,
  some, arith, length, Result, ok, err, ◌==◌, Bool-cases, ◌>>=◌, >>=-eq-ok, leb, subst,
}
use glide_mq.Cron.Search.{CronField, has, first}
use glide_mq.Cron.Text.{Text, split_with, split, trim}
use glide_mq.Cron.Field.{
  CronError, CronFieldSpec, add_range, parse_step, value_or_invalid, parse_dash, parse_range,
  parse_slash, parse_special, parse_part, parse_parts, parse_cron_field, insert, sort,
  parse_cron_value, is_wildcard,
}
use glide_mq.Cron.Pattern.{no_special, parse_plain_field}
use glide_mq.Cron.Order.{IsAscending, IsField}
use glide_mq.Cron.Values.{IsDistinctSet, IsSetOf, Kept, add-IsSetOf, add_range-Kept, length-add}

module _ (spec : CronFieldSpec) (set : List ℕ) (i : IsSetOf spec set) where
  parse_dash-Kept :
      (token : Text) (step_text : Option Text) (step : ℕ) (parts : List Text) (set' : List ℕ)
      → parse_dash spec token step_text step parts set ≡ ok set'
      → Kept spec set'
  unfolding parse_dash value_or_invalid
  parse_dash-Kept token o step [] set' h = absurd (ground arith)
  parse_dash-Kept token (some _) step (a ∷ []) set' h =
      let (from, e, k) = >>=-eq-ok (value_or_invalid token (parse_cron_value a spec)) _ h in
      add_range-Kept spec from spec.max step set set' i k
  parse_dash-Kept token none step (a ∷ []) set' h =
      let (from, e, k) = >>=-eq-ok (value_or_invalid token (parse_cron_value a spec)) _ h in
      ground (arith, add-IsSetOf spec from set, length-add from set)
  parse_dash-Kept token o step (a ∷ b ∷ []) set' h =
      let (from, e, k) = >>=-eq-ok (value_or_invalid token (parse_cron_value a spec)) _ h in
      let (to, e', k') = >>=-eq-ok (value_or_invalid token (parse_cron_value b spec)) _ k in
      add_range-Kept spec from to step set set' i k'
  parse_dash-Kept token o step (a ∷ b ∷ c ∷ ps) set' h = absurd (ground arith)

  parse_range-Kept :
      (token range_text : Text) (step_text : Option Text) (set' : List ℕ)
      → parse_range spec token range_text step_text set ≡ ok set'
      → Kept spec set'
  unfolding parse_range
  parse_range-Kept token range_text step_text set' h =
      let (step, e, k) = >>=-eq-ok (parse_step token step_text) _ h in
      ground (
        arith,
        add_range-Kept spec spec.min spec.max step set set' i,
        parse_dash-Kept token step_text step (split b'-' range_text) set',
      )

  parse_slash-Kept :
      (token : Text) (parts : List Text) (set' : List ℕ)
      → parse_slash spec token parts set ≡ ok set'
      → Kept spec set'
  unfolding parse_slash
  parse_slash-Kept token [] set' h = absurd (ground arith)
  parse_slash-Kept token (a ∷ []) set' h = ground (arith, parse_range-Kept token a none set')
  parse_slash-Kept token (a ∷ b ∷ []) set' h =
      ground (arith, parse_range-Kept token a (some b) set')
  parse_slash-Kept token (a ∷ b ∷ c ∷ ps) set' h = absurd (ground arith)

  parse_part_wildcard :
      (part : Text)
      → is_wildcard spec (trim part) ≡ true
      → parse_part spec no_special part set tt
        ≡ (add_range spec spec.min spec.max 1 set >>= λ values. ok (values, tt))
  unfolding parse_part
  parse_part_wildcard part e = ground arith

  parse_part_other :
      (part : Text)
      → is_wildcard spec (trim part) ≡ false
      → parse_part spec no_special part set tt
        ≡ (parse_slash spec (trim part) (split b'/' (trim part)) set >>= λ values. ok (values, tt))
  unfolding parse_part no_special parse_special
  parse_part_other part e = ground arith

  values_of :
      (r : Result CronError (List ℕ)) (set' : List ℕ)
      → ◌>>=◌ {U = List ℕ × Unit {0}} r (λ values. ok (values, tt)) ≡ ok (set', tt)
      → r ≡ ok set'
  values_of (ok s) set' h = ground arith
  values_of (err e) set' h = cc

  parse_part-Kept :
      (part : Text) (set' : List ℕ)
      → parse_part spec no_special part set tt ≡ ok (set', tt)
      → Kept spec set'
  parse_part-Kept part set' h = elim (Bool-cases (is_wildcard spec (trim part))) [
    | inl e ↦
        add_range-Kept spec spec.min spec.max 1 set set' i
          (values_of _ set' (sym (parse_part_wildcard part e) ∙ h))
    | inr e ↦
        parse_slash-Kept (trim part) (split b'/' (trim part)) set'
          (values_of _ set' (sym (parse_part_other part e) ∙ h))
  ]

split_with-cons :
    (sep : ℕ → Bool) (word s : Text)
    → (w : Text) × (ws : List Text) × (split_with sep word s ≡ w ∷ ws)
unfolding split_with
split_with-cons sep word [] = (word, [], refl)
split_with-cons sep word (c ∷ s) = elim (Bool-cases (sep c)) [
  | inl e ↦ (word, split_with sep [] s, ground arith)
  | inr e ↦ let (w, ws, q) = split_with-cons sep (word ++ c ∷ []) s in (w, ws, ground arith)
]

parse_parts-Kept :
    (spec : CronFieldSpec) (parts : List Text) (set set' : List ℕ)
    → Kept spec set
    → parse_parts spec no_special parts set tt ≡ ok (set', tt)
    → Kept spec set'
unfolding parse_parts
parse_parts-Kept spec [] set set' k h = subst (Kept spec) (ground arith) k
parse_parts-Kept spec (part ∷ parts) set set' k h =
    let ((next, _), e, rest) = >>=-eq-ok (parse_part spec no_special part set tt) _ h in
    parse_parts-Kept spec parts next set' (parse_part-Kept spec set k.values part next e) rest

-- Sorting.
has-insert : (x y : ℕ) (ys : List ℕ) → has x (insert y ys) ≡ (y == x || has x ys)
unfolding has insert
has-insert x y [] = ground arith
has-insert x y (z ∷ zs) = ground (arith, has-insert x y zs)

insert_here : (x y : ℕ) (ys : List ℕ) → leb x y ≡ true → insert x (y ∷ ys) ≡ x ∷ y ∷ ys
unfolding insert
insert_here x y ys e = ground arith

insert_on : (x y : ℕ) (ys : List ℕ) → leb x y ≡ false → insert x (y ∷ ys) ≡ y ∷ insert x ys
unfolding insert
insert_on x y ys e = ground arith

insert-IsAscending :
    (x : ℕ) (ys : List ℕ) → has x ys ≡ false → IsAscending ys → IsAscending (insert x ys)
unfolding has insert
insert-IsAscending x [] h a = (λ y k. absurd (ground arith), tt)
insert-IsAscending x (y ∷ ys) h a = elim (Bool-cases (leb x y)) [
  | inl e ↦ subst IsAscending (sym (insert_here x y ys e)) (λ z k. ground (arith, a.0 z), a)
  | inr e ↦
      subst IsAscending (sym (insert_on x y ys e)) (
        λ z k. ground (arith, a.0 z, has-insert z x ys),
        insert-IsAscending x ys (ground arith) a.1,
      )
]

has-sort : (x : ℕ) (set : List ℕ) → has x (sort set) ≡ has x set
unfolding has sort
has-sort x [] = refl
has-sort x (y ∷ ys) = ground (arith, has-insert x y (sort ys), has-sort x ys)

sort-IsAscending : (set : List ℕ) → IsDistinctSet set → IsAscending (sort set)
unfolding sort
sort-IsAscending [] d = tt
sort-IsAscending (x ∷ xs) d =
    insert-IsAscending x (sort xs) (has-sort x xs ∙ d.0) (sort-IsAscending xs d.1)

first-has : (x : ℕ) (xs : List ℕ) → has x xs ≡ true → has (first xs) xs ≡ true
unfolding first has
first-has x [] h = absurd (ground arith)
first-has x (y ∷ ys) h = ground arith

has_some : (xs : List ℕ) → 0 < length xs → (x : ℕ) × (has x xs ≡ true)
unfolding has
has_some [] h = absurd (omega arith)
has_some (x ∷ xs) h = (x, ground arith)

sorted-IsField :
    (spec : CronFieldSpec) (set : List ℕ)
    → Kept spec set
    → IsField spec.min spec.max (record { set = set; sorted = sort set })
sorted-IsField spec set k = record {
  ascending = sort-IsAscending set k.values.distinct;
  same = λ x. sym (has-sort x set);
  least = let (x, h) = has_some set k.some_value in first-has x (sort set) (has-sort x set ∙ h);
  bounds = λ x h. k.values.range x (sym (has-sort x set) ∙ h);
}

empty-IsSetOf : (spec : CronFieldSpec) → IsSetOf spec []
unfolding has
empty-IsSetOf spec = record { distinct = tt; range = λ x h. absurd (ground arith) }

first_part-Kept :
    (spec : CronFieldSpec) (parts : List Text) (part : Text) (rest : List Text) (set : List ℕ)
    → parts ≡ part ∷ rest
    → parse_parts spec no_special parts [] tt ≡ ok (set, tt)
    → Kept spec set
unfolding parse_parts
first_part-Kept spec [] part rest set e h = cc
first_part-Kept spec (p ∷ ps) part rest set e h =
    let ((next, _), q, k) = >>=-eq-ok (parse_part spec no_special p [] tt) _ h in
    parse_parts-Kept spec ps next set (parse_part-Kept spec [] (empty-IsSetOf spec) p next q) k

-- A second, minute, hour or month field that parses is sorted, in range and not empty.
pub parse_plain_field-IsField :
    (spec : CronFieldSpec) (text : Text) (f : CronField)
    → parse_plain_field spec text ≡ ok f
    → IsField spec.min spec.max f
unfolding parse_plain_field parse_cron_field split
parse_plain_field-IsField spec text f h =
    let ((g, _), e, q) = >>=-eq-ok (parse_cron_field spec no_special text tt) _ h in
    let ((set, _), e', q') = >>=-eq-ok (parse_parts spec no_special (split b',' text) [] tt) _ e in
    let (part, rest, parts) = split_with-cons (λ c. c == b',') [] text in
    subst (IsField spec.min spec.max) (ground arith)
      (sorted-IsField spec set (first_part-Kept spec (split b',' text) part rest set parts e'))
