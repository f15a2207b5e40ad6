-- ===== src/Cron/Next.antt =====
-- nextCronOccurrenceUtc of src/utils.ts, and what the next occurrence is.
use glide_mq.Common.{
  ℕ, ◌+◌, ◌*◌, ◌/◌, ◌%◌, ◌≤◌, ◌<◌, ◌≡◌, refl, sym, subst, ◌∙◌, inl, inr, Bool, true, false, Option,
  some, arith, ok, >>=-eq-ok, ◌>>=◌, ok-injective, ap, List, [], ◌∷◌,
}
use glide_mq.Cron.Calendar.{Wall, utc_to_wall, wall_to_naive_utc}
use glide_mq.Cron.Search.{CronPattern, cron_wall_matches, search_cron_wall, max_search_years}
use glide_mq.Cron.Text.{Text, split_spaces, trim}
use glide_mq.Cron.Field.{parse_cron_field}
use glide_mq.Cron.Pattern.{
  no_modifiers, cron_dom, cron_dow, parse_dom_modifier, parse_dow_modifier, parse_plain_field,
  cron_second, cron_minute, cron_hour, cron_month, parse_fields, parse_split, parse_cron_pattern,
  next_cron_occurrence_utc,
}
use glide_mq.Cron.Order.{IsPattern, IsLater, IsStrictlyLater}
use glide_mq.Cron.Steps.{Matched}
use glide_mq.Cron.Instants.{utc_to_wall-IsWall, IsLater-total, whole_seconds, IsLater-of_instants}
use glide_mq.Cron.Found.{Found, search_from-Found, IsWall-IsNear}
use glide_mq.Cron.Enough.{search_from-reaches, rounds_left-lt}
use glide_mq.Cron.Parsed.{parse_plain_field-IsField}
use glide_mq.Cron.RoundTrip.{wall_injective, wall_to_naive_utc-le, whole}

parse_fields-IsPattern :
    (six : Bool) (s mi h d mo w : Text) (cron : CronPattern)
    → parse_fields six s mi h d mo w ≡ ok cron
    → IsPattern cron
unfolding parse_fields
parse_fields-IsPattern six s mi h d mo w cron e =
    let ((dom, mods), _, e₁) =
      >>=-eq-ok (parse_cron_field cron_dom parse_dom_modifier d no_modifiers) _ e in
    let (_, _, e₂) = >>=-eq-ok (parse_cron_field cron_dow parse_dow_modifier w mods) _ e₁ in
    let (second, fs, e₃) = >>=-eq-ok (parse_plain_field cron_second s) _ e₂ in
    let (minute, fm, e₄) = >>=-eq-ok (parse_plain_field cron_minute mi) _ e₃ in
    let (hour, fh, e₅) = >>=-eq-ok (parse_plain_field cron_hour h) _ e₄ in
    let (month, fo, e₆) = >>=-eq-ok (parse_plain_field cron_month mo) _ e₅ in
    subst IsPattern (ok-injective e₆) (record {
      second = parse_plain_field-IsField cron_second s second fs;
      minute = parse_plain_field-IsField cron_minute mi minute fm;
      hour = parse_plain_field-IsField cron_hour h hour fh;
      month = parse_plain_field-IsField cron_month mo month fo;
    })

parse_split-IsPattern :
    (fields : List Text) (cron : CronPattern) → parse_split fields ≡ ok cron → IsPattern cron
unfolding parse_split
parse_split-IsPattern [] cron h = cc
parse_split-IsPattern (a ∷ []) cron h = cc
parse_split-IsPattern (a ∷ b ∷ []) cron h = cc
parse_split-IsPattern (a ∷ b ∷ c ∷ []) cron h = cc
parse_split-IsPattern (a ∷ b ∷ c ∷ d ∷ []) cron h = cc
parse_split-IsPattern (a ∷ b ∷ c ∷ d ∷ e ∷ []) cron h =
    parse_fields-IsPattern false (b'0' ∷ []) a b c d e cron h
parse_split-IsPattern (a ∷ b ∷ c ∷ d ∷ e ∷ f ∷ []) cron h =
    parse_fields-IsPattern true a b c d e f cron h
parse_split-IsPattern (a ∷ b ∷ c ∷ d ∷ e ∷ f ∷ g ∷ fs) cron h = cc

-- A pattern that parses allows at least one value in each of its time fields.
pub parse_cron_pattern-IsPattern :
    (text : Text) (cron : CronPattern) → parse_cron_pattern text ≡ ok cron → IsPattern cron
unfolding parse_cron_pattern
parse_cron_pattern-IsPattern text cron e = parse_split-IsPattern (split_spaces (trim text)) cron e

module _ (cron : CronPattern) (p : IsPattern cron) (w : Wall) where
  Matched-of : cron_wall_matches cron w ≡ true → Matched cron w
  unfolding cron_wall_matches
  Matched-of h = ground (
    arith,
    p.month.same w.month,
    p.hour.same w.hour,
    p.minute.same w.minute,
    p.second.same w.second,
  )

  cron_wall_matches-of_Matched : Matched cron w → cron_wall_matches cron w ≡ true
  unfolding cron_wall_matches
  cron_wall_matches-of_Matched h = ground (
    arith,
    p.month.same w.month,
    p.hour.same w.hour,
    p.minute.same w.minute,
    p.second.same w.second,
  )

-- Where the search starts.
abbrev start_of : ℕ → Wall
start_of after_ms = utc_to_wall (after_ms / 1000 * 1000 + 1000)

-- `t` is the first whole second after the instant that the pattern matches.
pub record IsNext (cron : CronPattern) (after_ms t : ℕ) : Type 0 where
  pub after : after_ms < t
  pub second : t % 1000 ≡ 0
  pub matches : cron_wall_matches cron (utc_to_wall t) ≡ true
  pub first :
      (u : ℕ) → u % 1000 ≡ 0 → after_ms < u → u < t → cron_wall_matches cron (utc_to_wall u) ≡ false

module _ (cron : CronPattern) (p : IsPattern cron) (after_ms t : ℕ) where
  abbrev start : Wall
  start = start_of after_ms

  start_instant : wall_to_naive_utc start ≡ after_ms / 1000 * 1000 + 1000
  start_instant = whole (after_ms / 1000 * 1000 + 1000) (omega arith)

  -- A second after the instant is not before the start.
  reached : (u : ℕ) → u % 1000 ≡ 0 → after_ms < u → IsLater start (utc_to_wall u)
  reached u h k =
      IsLater-of_instants start (utc_to_wall u) (utc_to_wall-IsWall _) (utc_to_wall-IsWall u)
        (omega (arith, start_instant, whole u h))

  module _ (f : Found cron (λ w. some (wall_to_naive_utc w)) start t) where
    instant : wall_to_naive_utc f.at ≡ t
    instant = cc (f.resolves)

    here : utc_to_wall t ≡ f.at
    here =
        wall_injective f.at (utc_to_wall t) f.wall (utc_to_wall-IsWall t)
          (omega (arith, instant, whole t (omega (arith, instant, whole_seconds f.at))))

    matches_here : cron_wall_matches cron (utc_to_wall t) ≡ true
    matches_here =
        subst (λ w. cron_wall_matches cron w ≡ true) (sym here)
          (cron_wall_matches-of_Matched cron p f.at f.matched)

    u_strictly : (u : ℕ) → u % 1000 ≡ 0 → u < t → IsStrictlyLater (utc_to_wall u) f.at
    u_strictly u h l = elim (IsLater-total f.at (utc_to_wall u)) [
      | inl k ↦ absurd (
          omega (
            arith,
            instant,
            whole u h,
            wall_to_naive_utc-le f.at (utc_to_wall u) f.wall (utc_to_wall-IsWall u) k,
          ))
      | inr k ↦ k
    ]

    unmatched :
        (u : ℕ)
        → u % 1000 ≡ 0
        → after_ms < u
        → u < t
        → cron_wall_matches cron (utc_to_wall u) ≡ true
        → ⊥
    unmatched u h k l e =
        let q =
          f.earliest (utc_to_wall u) (utc_to_wall-IsWall u) (Matched-of cron p (utc_to_wall u) e)
            (reached u h k) (u_strictly u h l) in
        cc

    none_between :
        (u : ℕ)
        → u % 1000 ≡ 0
        → after_ms < u
        → u < t
        → cron_wall_matches cron (utc_to_wall u) ≡ false
    none_between u h k l = ground (arith, unmatched u h k l)

    Found-IsNext : IsNext cron after_ms t
    Found-IsNext = record {
      after = omega (
        arith,
        instant,
        start_instant,
        wall_to_naive_utc-le start f.at (utc_to_wall-IsWall _) f.wall f.later,
      );
      second = omega (arith, instant, whole_seconds f.at);
      matches = matches_here;
      first = none_between;
    }

-- What the search of an instant returns is the next match.
search-IsNext :
    (cron : CronPattern)
    → IsPattern cron
    → (after_ms t : ℕ)
    → search_cron_wall cron (start_of after_ms) (λ w. some (wall_to_naive_utc w)) ≡ some t
    → IsNext cron after_ms t
unfolding search_cron_wall
search-IsNext cron p after_ms t e =
    let start = start_of after_ms in
    Found-IsNext cron p after_ms t (
      search_from-Found cron p (λ w. some (wall_to_naive_utc w)) (start.year + 10) 200000 start t
        (IsWall-IsNear start (utc_to_wall-IsWall _)) e)

-- A search without a result: no match stands within the horizon.
module _ (cron : CronPattern) (p : IsPattern cron) (after_ms u : ℕ) (h : u % 1000 ≡ 0)
    (k : after_ms < u) (y : (utc_to_wall u).year ≤ (start_of after_ms).year + 10)
    (m : cron_wall_matches cron (utc_to_wall u) ≡ true) where
  reaches :
      (t : ℕ) × (search_cron_wall cron (start_of after_ms) (λ w. some (wall_to_naive_utc w))
        ≡ some t)
  unfolding search_cron_wall
  reaches =
      search_from-reaches cron p ((start_of after_ms).year + 10) (λ w. some (wall_to_naive_utc w))
        (λ w. (wall_to_naive_utc w, refl)) (utc_to_wall u) (utc_to_wall-IsWall u)
        (Matched-of cron p (utc_to_wall u) m) y 200000 (start_of after_ms)
        (IsWall-IsNear (start_of after_ms) (utc_to_wall-IsWall _)) (reached cron p after_ms 0 u h k)
        (rounds_left-lt cron (start_of after_ms)
          (IsWall-IsNear (start_of after_ms) (utc_to_wall-IsWall _)))

-- When nextCronOccurrenceUtc returns an instant, that is the first whole second after `after_ms` that
-- the parsed pattern matches.
pub next_cron_occurrence_utc-IsNext :
    (text : Text) (after_ms t : ℕ)
    → next_cron_occurrence_utc text after_ms ≡ ok (some t)
    → (cron : CronPattern) × (parse_cron_pattern text ≡ ok cron) × IsNext cron after_ms t
unfolding next_cron_occurrence_utc
next_cron_occurrence_utc-IsNext text after_ms t e =
    let (cron, parsed, rest) = >>=-eq-ok (parse_cron_pattern text) _ e in
    (
      cron,
      parsed,
      search-IsNext cron (parse_cron_pattern-IsPattern text cron parsed) after_ms t
          (ok-injective rest),
    )

next_cron_occurrence_utc-eq :
    (text : Text) (cron : CronPattern) (after_ms : ℕ) (o : Option ℕ)
    → parse_cron_pattern text ≡ ok cron
    → search_cron_wall cron (start_of after_ms) (λ w. some (wall_to_naive_utc w)) ≡ o
    → next_cron_occurrence_utc text after_ms ≡ ok o
unfolding next_cron_occurrence_utc
next_cron_occurrence_utc-eq text cron after_ms o parsed e =
    ap
      (λ r.
        r >>= λ c. ok (search_cron_wall c (start_of after_ms) (λ w. some (wall_to_naive_utc w))))
      parsed
    ∙ ap ok e

-- When a pattern parses and matches a whole second after `after_ms` whose year is at most ten past the
-- year where the search starts, nextCronOccurrenceUtc returns an instant: its steps are enough.
pub next_cron_occurrence_utc-returns :
    (text : Text) (cron : CronPattern) (after_ms u : ℕ)
    → parse_cron_pattern text ≡ ok cron
    → u % 1000 ≡ 0
    → after_ms < u
    → (utc_to_wall u).year ≤ (start_of after_ms).year + max_search_years
    → cron_wall_matches cron (utc_to_wall u) ≡ true
    → (t : ℕ) × (next_cron_occurrence_utc text after_ms ≡ ok (some t)) × (t ≤ u)
next_cron_occurrence_utc-returns text cron after_ms u parsed h k y m =
    let p = parse_cron_pattern-IsPattern text cron parsed in
    let (t, e) = reaches cron p after_ms u h k y m in
    let next = search-IsNext cron p after_ms t e in
    (
      t,
      next_cron_occurrence_utc-eq text cron after_ms (some t) parsed e,
      ground (arith, next.first u h k),
    )
