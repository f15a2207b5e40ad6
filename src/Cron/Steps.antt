-- ===== src/Cron/Steps.antt =====
-- One round of the loop of searchCronWall of src/utils.ts, and the matches around it.
use glide_mq.Common.{◌+◌, ◌≤◌, ◌<◌, ◌≡◌, inl, inr, true, false, arith, Bool-cases, Option-cases}
use glide_mq.Cron.Calendar.{Wall, days_in_month, day_of_week}
use glide_mq.Cron.Search.{
  CronPattern, has, find_above, first, cron_day_matches, midnight, Move, skip, stop, next_month,
  roll_month, next_hour, next_minute, second_check, walk,
}
use glide_mq.Cron.Rounds.{Dated, walk_cases}
use glide_mq.Cron.Order.{
  IsPattern, IsWall, IsNear, IsLater, find_above-some, find_above-least, find_above-none, first-le,
  days_in_month_bounds,
}

-- Where a round leaves the walk.
abbrev pub target : Move → Wall
target (skip w) = w
target (stop w) = w

-- What a matching wall time has.
pub record Matched (cron : CronPattern) (v : Wall) : Type 0 where
  pub month : has v.month cron.month.sorted ≡ true
  pub day :
      cron_day_matches cron v.day (day_of_week v.year v.month v.day) (days_in_month v.year v.month)
      ≡ true
  pub hour : has v.hour cron.hour.sorted ≡ true
  pub minute : has v.minute cron.minute.sorted ≡ true
  pub second : has v.second cron.second.sorted ≡ true

module _ (cron : CronPattern) (p : IsPattern cron) (w v : Wall) (i : IsNear w) (k : IsWall v)
    (m : Matched cron v) (l : IsLater w v) where
  next_month-IsLater : has w.month cron.month.sorted ≡ false → IsLater (next_month cron w) v
  unfolding next_month
  next_month-IsLater h = elim (Option-cases (find_above w.month cron.month.sorted)) [
    | inl e ↦ ground (
      arith,
      m.month,
      find_above-none w.month v.month cron.month.sorted e m.month,
      first-le v.month cron.month.sorted p.month.ascending m.month,
    )
    | inr (y, e) ↦ ground (
      arith,
      m.month,
      find_above-least w.month y v.month cron.month.sorted p.month.ascending e m.month,
    )
  ]

  roll_month-IsLater : days_in_month w.year w.month < w.day → IsLater (roll_month w) v
  unfolding roll_month
  roll_month-IsLater h = ground arith

  next_day-IsLater :
      cron_day_matches cron w.day (day_of_week w.year w.month w.day) (days_in_month w.year w.month)
        ≡ false
      → IsLater (midnight w.year w.month (w.day + 1)) v
  next_day-IsLater h = ground (arith, m.day)

  next_hour-IsLater : has w.hour cron.hour.sorted ≡ false → IsLater (next_hour cron w) v
  unfolding next_hour
  next_hour-IsLater h = elim (Option-cases (find_above w.hour cron.hour.sorted)) [
    | inl e ↦ ground (arith, m.hour, find_above-none w.hour v.hour cron.hour.sorted e m.hour)
    | inr (y, e) ↦
        ground (
          arith,
          m.hour,
          find_above-least w.hour y v.hour cron.hour.sorted p.hour.ascending e m.hour,
        )
  ]

  next_minute-IsLater : has w.minute cron.minute.sorted ≡ false → IsLater (next_minute cron w) v
  unfolding next_minute
  next_minute-IsLater h = elim (Option-cases (find_above w.minute cron.minute.sorted)) [
    | inl e ↦
        ground (arith, m.minute, find_above-none w.minute v.minute cron.minute.sorted e m.minute)
    | inr (y, e) ↦ ground (
      arith,
      m.minute,
      find_above-least w.minute y v.minute cron.minute.sorted p.minute.ascending e m.minute,
    )
  ]

  second_check-IsLater : IsLater (target (second_check cron w)) v
  unfolding second_check
  second_check-IsLater = elim (Option-cases (find_above w.second cron.second.sorted)) [
    | inl e ↦ ground (
      arith,
      m.second,
      p.second.same w.second,
      find_above-none w.second v.second cron.second.sorted e m.second,
    )
    | inr (y, e) ↦ ground (
      arith,
      m.second,
      p.second.same w.second,
      find_above-least w.second y v.second cron.second.sorted p.second.ascending e m.second,
    )
  ]

  -- A matching time that is not earlier than the walk stays so.
  pub walk-IsLater : IsLater (target (walk cron w)) v
  walk-IsLater =
      walk_cases (λ mv. IsLater (target mv) v) cron w p
        (record {
          on_month = next_month-IsLater;
          on_length = roll_month-IsLater;
          on_day = λ _. next_day-IsLater;
          on_hour = λ _. next_hour-IsLater;
          on_minute = λ _ _. next_minute-IsLater;
          on_second = λ _ _ _. second_check-IsLater;
        })

-- A stop is a match at a time that a clock can show; a skip keeps the walk near one.
abbrev pub Lands : CronPattern → Wall → Move → Type 0
Lands cron w (skip v) = IsNear v × IsLater w v
Lands cron w (stop v) = IsWall v × Matched cron v × IsLater w v

-- What a round gives, whatever is sought.
module _ (cron : CronPattern) (p : IsPattern cron) (w : Wall) (i : IsNear w) where
  next_month-IsNear : IsNear (next_month cron w) × IsLater w (next_month cron w)
  unfolding next_month
  next_month-IsNear = elim (Option-cases (find_above w.month cron.month.sorted)) [
    | inl e ↦ ground (arith, p.month.bounds (first cron.month.sorted) p.month.least)
    | inr (y, e) ↦
        let (h, k) = find_above-some w.month y cron.month.sorted p.month.ascending e in
        ground (arith, p.month.bounds y h)
  ]

  roll_month-IsNear :
      days_in_month w.year w.month < w.day → IsNear (roll_month w) × IsLater w (roll_month w)
  unfolding roll_month
  roll_month-IsNear h = ground arith

  next_day-IsNear :
      w.day ≤ days_in_month w.year w.month
      → IsNear (midnight w.year w.month (w.day + 1))
        × IsLater w (midnight w.year w.month (w.day + 1))
  next_day-IsNear h = ground (arith, days_in_month_bounds w.year w.month)

  next_hour-IsNear :
      w.day ≤ days_in_month w.year w.month
      → IsNear (next_hour cron w) × IsLater w (next_hour cron w)
  unfolding next_hour
  next_hour-IsNear d = elim (Option-cases (find_above w.hour cron.hour.sorted)) [
    | inl e ↦ ground (arith, days_in_month_bounds w.year w.month)
    | inr (y, e) ↦
        let (h, k) = find_above-some w.hour y cron.hour.sorted p.hour.ascending e in
        ground (arith, p.hour.bounds y h)
  ]

  next_minute-IsNear :
      has w.hour cron.hour.sorted ≡ true
      → IsNear (next_minute cron w) × IsLater w (next_minute cron w)
  unfolding next_minute
  next_minute-IsNear h = elim (Option-cases (find_above w.minute cron.minute.sorted)) [
    | inl e ↦ ground (arith, p.hour.bounds w.hour h)
    | inr (y, e) ↦
        let (h', k) = find_above-some w.minute y cron.minute.sorted p.minute.ascending e in
        ground (arith, p.minute.bounds y h')
  ]

  second_check-Lands :
      Dated cron w
      → has w.hour cron.hour.sorted ≡ true
      → has w.minute cron.minute.sorted ≡ true
      → Lands cron w (second_check cron w)
  unfolding second_check
  second_check-Lands d h m = elim (Bool-cases (has w.second cron.second.set)) [
    | inl e ↦
        ground
          (arith, e, p.second.same w.second, p.hour.bounds w.hour h, p.minute.bounds w.minute m)
    | inr e ↦ elim (Option-cases (find_above w.second cron.second.sorted)) [
      | inl f ↦ ground (arith, e, f, p.minute.bounds w.minute m)
      | inr (y, f) ↦
          let (k, l) = find_above-some w.second y cron.second.sorted p.second.ascending f in
          ground (
            arith,
            e,
            f,
            k,
            l,
            p.hour.bounds w.hour h,
            p.minute.bounds w.minute m,
            p.second.bounds y k,
          )
    ]
  ]

  pub walk-Lands : Lands cron w (walk cron w)
  walk-Lands = walk_cases (Lands cron w) cron w p (record {
    on_month = λ _. next_month-IsNear;
    on_length = roll_month-IsNear;
    on_day = λ d _. next_day-IsNear d;
    on_hour = λ d _. next_hour-IsNear d.length;
    on_minute = λ _ h _. next_minute-IsNear h;
    on_second = second_check-Lands;
  })
