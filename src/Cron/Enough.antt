-- ===== src/Cron/Enough.antt =====
-- The number of rounds that searchCronWall of src/utils.ts may take, measured on wall times.
use glide_mq.Common.{
  ℕ, zero, suc, ◌+◌, ◌-◌, ◌*◌, ◌≤◌, ◌<◌, ◌≡◌, inl, inr, true, false, Option, none, some, arith,
  Option-cases, ◌==◌, if◌then◌else◌,
}
use glide_mq.Cron.Calendar.{Wall, days_in_month}
use glide_mq.Cron.Search.{
  CronPattern, CronField, Move, skip, stop, has, find_above, first, walk, midnight, next_month,
  roll_month, next_hour, next_minute, second_check, resolved, after_move, search_from,
}
use glide_mq.Cron.Order.{
  IsField, IsPattern, IsWall, IsNear, IsLater, find_above-some, find_above-none,
  days_in_month_bounds,
}
use glide_mq.Cron.Rounds.{walk_cases}
use glide_mq.Cron.Steps.{Matched, target, Lands, walk-IsLater, walk-Lands}

-- The days to the end of the horizon, with room in each month and year.
days_left : ℕ → Wall → ℕ
days_left end_year w = (end_year + 1 - w.year) * 429 + (12 - w.month) * 33 + (33 - w.day)

-- The rounds that a day may still take after its date matched.
rounds_in_day : CronPattern → Wall → ℕ
rounds_in_day cron w =
    if has w.hour cron.hour.sorted
    then (if has w.minute cron.minute.sorted
        then (if w.second == 0 then 0 else 4)
        else if w.minute == 0
        then 1
        else 3)
    else 2

pub rounds_left : ℕ → CronPattern → Wall → ℕ
rounds_left end_year cron w = 5 * days_left end_year w + rounds_in_day cron w

-- What every skip does to the measure.
abbrev Nearer : ℕ → CronPattern → Wall → Move → Type 0
Nearer end_year cron w (skip u) = rounds_left end_year cron u < rounds_left end_year cron w
Nearer end_year cron w (stop u) = Unit {0}

find_above_zero :
    (lo hi x : ℕ) (f : CronField)
    → IsField lo hi f
    → has x f.sorted ≡ false
    → find_above x f.sorted ≡ none
    → 0 < x
find_above_zero lo hi x f i h e =
    ground (arith, find_above-none x (first f.sorted) f.sorted e i.least)

module _ (end_year : ℕ) (cron : CronPattern) (p : IsPattern cron) (w : Wall) (i : IsNear w)
    (y : w.year ≤ end_year) where
  midnight-Nearer :
      (year month day : ℕ)
      → days_left end_year (midnight year month day) < days_left end_year w
      → Nearer end_year cron w (skip (midnight year month day))
  unfolding rounds_left rounds_in_day
  midnight-Nearer year month day h = ground arith

  next_month-Nearer :
      has w.month cron.month.sorted ≡ false → Nearer end_year cron w (skip (next_month cron w))
  unfolding next_month days_left
  next_month-Nearer h = elim (Option-cases (find_above w.month cron.month.sorted)) [
    | inl e ↦
        let (l, k) = p.month.bounds (first cron.month.sorted) p.month.least in
        ground (
          arith,
          midnight-Nearer (w.year + 1) (first cron.month.sorted) 1 (omega (arith, i.day, i.month)),
        )
    | inr (m, e) ↦
        let (k, l) = find_above-some w.month m cron.month.sorted p.month.ascending e in
        let (_, j) = p.month.bounds m k in
        ground (arith, midnight-Nearer w.year m 1 (omega (arith, i.day, i.month)))
  ]

  roll_month-Nearer :
      days_in_month w.year w.month < w.day → Nearer end_year cron w (skip (roll_month w))
  unfolding roll_month days_left
  roll_month-Nearer h = ground (
    arith,
    midnight-Nearer (w.year + 1) 1 1 (omega (arith, i.day, i.month)),
    midnight-Nearer w.year (w.month + 1) 1,
  )

  next_day-Nearer :
      w.day ≤ days_in_month w.year w.month
      → Nearer end_year cron w (skip (midnight w.year w.month (w.day + 1)))
  unfolding days_left
  next_day-Nearer h =
      midnight-Nearer w.year w.month (w.day + 1)
        (omega (arith, days_in_month_bounds w.year w.month))

  next_hour-Nearer :
      w.day ≤ days_in_month w.year w.month
      → has w.hour cron.hour.sorted ≡ false
      → Nearer end_year cron w (skip (next_hour cron w))
  unfolding next_hour rounds_left days_left rounds_in_day
  next_hour-Nearer d h = elim (Option-cases (find_above w.hour cron.hour.sorted)) [
    | inl e ↦ ground (arith, days_in_month_bounds w.year w.month)
    | inr (x, e) ↦
        let (k, l) = find_above-some w.hour x cron.hour.sorted p.hour.ascending e in ground arith
  ]

  next_minute-Nearer :
      has w.hour cron.hour.sorted ≡ true
      → has w.minute cron.minute.sorted ≡ false
      → Nearer end_year cron w (skip (next_minute cron w))
  unfolding next_minute rounds_left days_left rounds_in_day
  next_minute-Nearer h m = elim (Option-cases (find_above w.minute cron.minute.sorted)) [
    | inl e ↦ ground (arith, find_above_zero 0 59 w.minute cron.minute p.minute m e)
    | inr (x, e) ↦
        let (k, l) = find_above-some w.minute x cron.minute.sorted p.minute.ascending e in
        ground arith
  ]

  second_check-Nearer :
      has w.hour cron.hour.sorted ≡ true
      → has w.minute cron.minute.sorted ≡ true
      → Nearer end_year cron w (second_check cron w)
  unfolding second_check rounds_left days_left rounds_in_day
  second_check-Nearer h m =
      ground (arith, p.second.same w.second, find_above_zero 0 59 w.second cron.second p.second)

  walk-Nearer : Nearer end_year cron w (walk cron w)
  walk-Nearer = walk_cases (Nearer end_year cron w) cron w p (record {
    on_month = next_month-Nearer;
    on_length = roll_month-Nearer;
    on_day = λ d _. next_day-Nearer d;
    on_hour = λ d. next_hour-Nearer d.length;
    on_minute = λ _. next_minute-Nearer;
    on_second = λ _. second_check-Nearer;
  })

module _ (cron : CronPattern) (p : IsPattern cron) (end_year : ℕ) (resolve : Wall → Option ℕ)
    (resolves : (u : Wall) → (t : ℕ) × (resolve u ≡ some t)) (v : Wall) (k : IsWall v)
    (m : Matched cron v) (y : v.year ≤ end_year) where
  after_move-reaches :
      (continue : Wall → Option ℕ) (w : Wall) (steps : ℕ) (mv : Move)
      → Lands cron w mv
      → IsLater (target mv) v
      → Nearer end_year cron w mv
      → rounds_left end_year cron w ≤ steps
      → ((u : Wall)
          → IsNear u
          → IsLater u v
          → rounds_left end_year cron u < steps
          → (t : ℕ) × (continue u ≡ some t))
      → (t : ℕ) × (after_move continue resolve mv ≡ some t)
  unfolding after_move resolved
  after_move-reaches continue w steps (skip u) l s n e rest = rest u l.0 s (omega arith)
  after_move-reaches continue w steps (stop at) l s n e rest =
      let (t, q) = resolves at in (t, ground arith)

  pub search_from-reaches :
      (steps : ℕ) (w : Wall)
      → IsNear w
      → IsLater w v
      → rounds_left end_year cron w < steps
      → (t : ℕ) × (search_from cron end_year resolve steps w ≡ some t)
  unfolding search_from
  search_from-reaches zero w i l e = absurd (omega arith)
  search_from-reaches (suc steps) w i l e =
      let within : w.year ≤ end_year = ground arith in
      let (t, q) =
        after_move-reaches (search_from cron end_year resolve steps) w steps (walk cron w)
          (walk-Lands cron p w i) (walk-IsLater cron p w v i k m l)
          (walk-Nearer end_year cron p w i within) (omega arith)
          (λ u j s r. search_from-reaches steps u j s r) in
      (t, ground arith)

-- Ten years take fewer rounds than the search has.
pub rounds_left-lt :
    (cron : CronPattern) (w : Wall) → IsNear w → rounds_left (w.year + 10) cron w < 200000
unfolding rounds_left days_left rounds_in_day
rounds_left-lt cron w i = ground arith
