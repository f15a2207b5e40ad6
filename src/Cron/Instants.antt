-- ===== src/Cron/Instants.antt =====
-- Instants and wall times in UTC (utcToWall, wallToNaiveUtc of src/utils.ts), and their orders.
use glide_mq.Common.{
  ℕ, ◌+◌, ◌-◌, ◌*◌, ◌/◌, ◌%◌, ◌≤◌, ◌<◌, ◌≡◌, refl, ◌⊎◌, inl, inr, arith, ap, dec_lt,
}
use glide_mq.Cron.Calendar.{
  Wall, days_in_month, days_in_year, days_before_month, days_of_years, day_number,
  wall_to_naive_utc, month_of, year_of, wall_of_days, utc_to_wall, wall_plus_one_second,
}
use glide_mq.Cron.Order.{IsWall, Before, IsLater, IsStrictlyLater}
use glide_mq.Cron.Dates.{
  InMonth, year_of-between, month_of-between, days_before_month-lt, days_of_years-lt,
  days_of_years_next, days_before_month-year,
}

module _ (days : ℕ) where
  abbrev years : ℕ
  years = year_of days 0 days

  abbrev in_year : ℕ
  in_year = days - days_of_years years

  abbrev month : ℕ
  month = month_of 11 (1970 + years) 1 in_year

  year_facts : (days_of_years years ≤ days) × (in_year < days_in_year (1970 + years))
  year_facts =
      let (h, k) = year_of-between days 0 days (omega arith) in
      (omega (arith, h, start), omega (arith, h, k, start, days_of_years_next years))
    where
      start : days_of_years 0 ≡ 0
      start = unfold days_of_years in refl

  month_facts : (1 ≤ month) × (month ≤ 12) × InMonth (1970 + years) month in_year
  month_facts =
      let (h, k, m) =
        month_of-between 11 (1970 + years) 1 in_year (omega arith) refl
          (omega (arith, start, year_facts)) in
      (h, k, (omega (arith, m, start), omega (arith, m, start)))
    where
      start : days_before_month (1970 + years) 1 ≡ 0
      start = unfold days_before_month in refl

  wall_of_days-IsWall : (s : ℕ) → s < 86400 → IsWall (wall_of_days days s)
  unfolding wall_of_days
  wall_of_days-IsWall s h = record {
    year = omega arith;
    month = (month_facts.0, month_facts.1);
    day = (omega arith, omega (arith, month_facts));
    hour = omega arith;
    minute = omega arith;
    second = omega arith;
  }

  day_number-wall_of_days :
      (s : ℕ)
      → day_number (wall_of_days days s).year (wall_of_days days s).month (wall_of_days days s).day
        ≡ days
  unfolding wall_of_days day_number
  day_number-wall_of_days s = omega (arith, month_facts, year_facts, ap days_of_years cancel)
    where
      cancel : 1970 + years - 1970 ≡ years
      cancel = omega arith

pub utc_to_wall-IsWall : (t : ℕ) → IsWall (utc_to_wall t)
unfolding utc_to_wall
utc_to_wall-IsWall t = wall_of_days-IsWall (t / 86400000) (t / 1000 % 86400) (omega arith)

wall_of_days_time :
    (days s : ℕ)
    → let w = wall_of_days days s in
      (w.hour ≡ s / 3600) × (w.minute ≡ s / 60 % 60) × (w.second ≡ s % 60)
unfolding wall_of_days
wall_of_days_time days s = (refl, refl, refl)

-- An instant's wall time stands for it, to the second.
pub wall_to_naive_utc-utc_to_wall : (t : ℕ) → wall_to_naive_utc (utc_to_wall t) ≡ t / 1000 * 1000
unfolding wall_to_naive_utc utc_to_wall
wall_to_naive_utc-utc_to_wall t = omega (
  arith,
  day_number-wall_of_days (t / 86400000) (t / 1000 % 86400),
  wall_of_days_time (t / 86400000) (t / 1000 % 86400),
)

year_end :
    (v : Wall)
    → IsWall v
    → days_before_month v.year v.month + v.day ≤ days_in_year (1970 + (v.year - 1970))
year_end v i =
    let e : 1970 + (v.year - 1970) ≡ v.year = omega (arith, i.year) in
    rw e (elim (dec_lt v.month 12) [
      | yes h ↦ omega (
        arith,
        i.day,
        days_before_month-lt v.year v.month 12 i.month.0 h,
        days_before_month-year v.year,
      )
      | no h ↦
          let f : v.month ≡ 12 = omega (arith, i.month) in
          omega (
            arith,
            i.day,
            ap (days_before_month v.year) f,
            ap (days_in_month v.year) f,
            days_before_month-year v.year,
          )
    ])

-- A later day has a greater number.
day_number-lt :
    (v w : Wall)
    → IsWall v
    → IsWall w
    → (v.year < w.year)
      ⊎ ((v.year ≡ w.year) × ((v.month < w.month) ⊎ ((v.month ≡ w.month) × (v.day < w.day))))
    → day_number v.year v.month v.day < day_number w.year w.month w.day
unfolding day_number
day_number-lt v w i j (inl h) = omega (
  arith,
  i.day,
  j.year,
  i.year,
  i.month,
  days_of_years-lt (v.year - 1970) (w.year - 1970) (omega arith),
  year_end v i,
)
day_number-lt v w i j (inr (e, inl h)) = omega (
  arith,
  ap (λ y. days_of_years (y - 1970)) e,
  ap (λ y. days_before_month y w.month) e,
  days_before_month-lt v.year v.month w.month i.month.0 h,
  i.day,
  j.day,
)
day_number-lt v w i j (inr (e, inr (f, h))) = omega (
  arith,
  ap (λ y. days_of_years (y - 1970)) e,
  ap (λ y. days_before_month y w.month) e,
  ap (days_before_month v.year) f,
  i.day,
)

pub wall_to_naive_utc-lt :
    (v w : Wall)
    → IsWall v
    → IsWall w
    → IsStrictlyLater v w
    → wall_to_naive_utc v < wall_to_naive_utc w
unfolding wall_to_naive_utc
wall_to_naive_utc-lt v w i j (inl h) =
    omega (arith, day_number-lt v w i j (inl h), i.hour, i.minute, i.second)
wall_to_naive_utc-lt v w i j (inr (e, inl h)) =
    omega (arith, day_number-lt v w i j (inr (e, inl h)), i.hour, i.minute, i.second)
wall_to_naive_utc-lt v w i j (inr (e, inr (f, inl h))) =
    omega (arith, day_number-lt v w i j (inr (e, inr (f, h))), i.hour, i.minute, i.second)
wall_to_naive_utc-lt v w i j (inr (e, inr (f, inr (g, h)))) =
    let same : day_number v.year v.month v.day ≡ day_number w.year w.month w.day = cc in
    omega (arith, same, h, i.minute, i.second, j.minute, j.second)

pub whole_seconds : (v : Wall) → wall_to_naive_utc v % 1000 ≡ 0
unfolding wall_to_naive_utc
whole_seconds v = omega arith

Before-total : (a b : ℕ) {P Q : Type 0} → P ⊎ Q → Before a b P ⊎ Before b a Q
Before-total a b r = elim (dec_lt a b) [
  | yes h ↦ inl (inl h)
  | no h ↦ elim (dec_lt b a) [
    | yes k ↦ inr (inl k)
    | no k ↦ elim r [ inl p ↦ inl (inr (omega arith, p)) | inr q ↦ inr (inr (omega arith, q)) ]
  ]
]

pub IsLater-total : (v w : Wall) → IsLater v w ⊎ IsStrictlyLater w v
IsLater-total v w = Before-total v.year w.year (
    Before-total v.month w.month (
      Before-total v.day w.day
        (Before-total v.hour w.hour (Before-total v.minute w.minute (le_or_lt v.second w.second)))))
  where
    le_or_lt : (a b : ℕ) → (a ≤ b) ⊎ (b < a)
    le_or_lt a b = elim (dec_lt b a) [ yes h ↦ inr h | no h ↦ inl (omega arith) ]

-- Wall times are in the order of their instants.
pub IsLater-of_instants :
    (v w : Wall) → IsWall v → IsWall w → wall_to_naive_utc v ≤ wall_to_naive_utc w → IsLater v w
IsLater-of_instants v w i j h = elim (IsLater-total v w) [
  | inl l ↦ l
  | inr k ↦ absurd (omega (arith, wall_to_naive_utc-lt w v j i k))
]

-- One second later: the wall time whose instant is 1000 ms later, and nothing stands between.
pub wall_plus_one_second-instant :
    (v : Wall) → wall_to_naive_utc (wall_plus_one_second v) ≡ wall_to_naive_utc v + 1000
unfolding wall_plus_one_second
wall_plus_one_second-instant v =
    omega (arith, wall_to_naive_utc-utc_to_wall (wall_to_naive_utc v + 1000), whole_seconds v)

pub wall_plus_one_second-IsWall : (v : Wall) → IsWall (wall_plus_one_second v)
unfolding wall_plus_one_second
wall_plus_one_second-IsWall v = utc_to_wall-IsWall (wall_to_naive_utc v + 1000)

pub wall_plus_one_second-IsLater :
    (v w : Wall) → IsWall v → IsWall w → IsStrictlyLater v w → IsLater (wall_plus_one_second v) w
wall_plus_one_second-IsLater v w i j h =
    IsLater-of_instants (wall_plus_one_second v) w (wall_plus_one_second-IsWall v) j (
      omega (
        arith,
        wall_plus_one_second-instant v,
        wall_to_naive_utc-lt v w i j h,
        whole_seconds v,
        whole_seconds w,
      ))
