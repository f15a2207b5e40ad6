-- ===== src/Cron/Rounds.antt =====
-- The tests of a round of the loop of searchCronWall of src/utils.ts, in their order, by cases.
use glide_mq.Common.{
  ◌+◌, ◌≤◌, ◌<◌, ◌≡◌, inl, inr, Bool, true, false, arith, sym, subst, ◌∙◌, dec_lt, Bool-cases,
}
use glide_mq.Cron.Calendar.{Wall, days_in_month, day_of_week}
use glide_mq.Cron.Search.{
  CronPattern, has, cron_day_matches, midnight, Move, skip, next_month, roll_month, next_hour,
  next_minute, second_check, time_check, day_check, walk,
}
use glide_mq.Cron.Order.{IsPattern}

module _ (cron : CronPattern) (w : Wall) where
  -- The tests of a round, in their order.
  abbrev pub InMonth : Bool → Type 0
  InMonth b = has w.month cron.month.set ≡ b

  abbrev pub DayFits : Bool → Type 0
  DayFits b =
      cron_day_matches cron w.day (day_of_week w.year w.month w.day) (days_in_month w.year w.month)
      ≡ b

  walk_month : InMonth false → walk cron w ≡ skip (next_month cron w)
  unfolding walk
  walk_month h = ground arith

  walk_day : InMonth true → walk cron w ≡ day_check cron w
  unfolding walk
  walk_day h = ground arith

  day_check_length : days_in_month w.year w.month < w.day → day_check cron w ≡ skip (roll_month w)
  unfolding day_check
  day_check_length h = ground arith

  day_check_no :
      w.day ≤ days_in_month w.year w.month
      → DayFits false
      → day_check cron w ≡ skip (midnight w.year w.month (w.day + 1))
  unfolding day_check
  day_check_no h d = ground arith

  day_check_yes :
      w.day ≤ days_in_month w.year w.month → DayFits true → day_check cron w ≡ time_check cron w
  unfolding day_check
  day_check_yes h d = ground arith

  time_check_hour : has w.hour cron.hour.set ≡ false → time_check cron w ≡ skip (next_hour cron w)
  unfolding time_check
  time_check_hour h = ground arith

  time_check_minute :
      has w.hour cron.hour.set ≡ true
      → has w.minute cron.minute.set ≡ false
      → time_check cron w ≡ skip (next_minute cron w)
  unfolding time_check
  time_check_minute h k = ground arith

  time_check_second :
      has w.hour cron.hour.set ≡ true
      → has w.minute cron.minute.set ≡ true
      → time_check cron w ≡ second_check cron w
  unfolding time_check
  time_check_second h k = ground arith

-- The fields that a wall time has passed when the walk looks at its time of day.
pub record Dated (cron : CronPattern) (w : Wall) : Type 0 where
  pub month : has w.month cron.month.sorted ≡ true
  pub length : w.day ≤ days_in_month w.year w.month
  pub day : DayFits cron w true

-- A round skips for one reason, or looks at the seconds.
pub record Rounds {ℓ} (P : Move → Type ℓ) (cron : CronPattern) (w : Wall) : Type ℓ where
  pub on_month : has w.month cron.month.sorted ≡ false → P (skip (next_month cron w))
  pub on_length : days_in_month w.year w.month < w.day → P (skip (roll_month w))
  pub on_day :
      w.day ≤ days_in_month w.year w.month
      → DayFits cron w false
      → P (skip (midnight w.year w.month (w.day + 1)))
  pub on_hour : Dated cron w → has w.hour cron.hour.sorted ≡ false → P (skip (next_hour cron w))
  pub on_minute :
      Dated cron w
      → has w.hour cron.hour.sorted ≡ true
      → has w.minute cron.minute.sorted ≡ false
      → P (skip (next_minute cron w))
  pub on_second :
      Dated cron w
      → has w.hour cron.hour.sorted ≡ true
      → has w.minute cron.minute.sorted ≡ true
      → P (second_check cron w)

module _ {ℓ} (P : Move → Type ℓ) (cron : CronPattern) (w : Wall) (p : IsPattern cron)
    (r : Rounds P cron w) where
  time_check_cases : Dated cron w → P (time_check cron w)
  time_check_cases d = elim (Bool-cases (has w.hour cron.hour.set)) [
    | inr h ↦ subst P (sym (time_check_hour cron w h)) (r.on_hour d (sym (p.hour.same w.hour) ∙ h))
    | inl h ↦ elim (Bool-cases (has w.minute cron.minute.set)) [
      | inr m ↦
          subst P (sym (time_check_minute cron w h m))
            (r.on_minute d (sym (p.hour.same w.hour) ∙ h) (sym (p.minute.same w.minute) ∙ m))
      | inl m ↦
          subst P (sym (time_check_second cron w h m))
            (r.on_second d (sym (p.hour.same w.hour) ∙ h) (sym (p.minute.same w.minute) ∙ m))
    ]
  ]

  day_check_cases : has w.month cron.month.sorted ≡ true → P (day_check cron w)
  day_check_cases m = elim (dec_lt (days_in_month w.year w.month) w.day) [
    | yes h ↦ subst P (sym (day_check_length cron w h)) (r.on_length h)
    | no h ↦
        elim (Bool-cases (
          cron_day_matches cron w.day (day_of_week w.year w.month w.day)
            (days_in_month w.year w.month))) [
              | inr d ↦
                  subst P (sym (day_check_no cron w (omega arith) d)) (r.on_day (omega arith) d)
              | inl d ↦
                  subst P (sym (day_check_yes cron w (omega arith) d))
                    (time_check_cases (record { month = m; length = omega arith; day = d }))
            ]
  ]

  pub walk_cases : P (walk cron w)
  walk_cases = elim (Bool-cases (has w.month cron.month.set)) [
    | inr e ↦ subst P (sym (walk_month cron w e)) (r.on_month (sym (p.month.same w.month) ∙ e))
    | inl e ↦ subst P (sym (walk_day cron w e)) (day_check_cases (sym (p.month.same w.month) ∙ e))
  ]
