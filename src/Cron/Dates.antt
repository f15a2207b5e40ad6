-- ===== src/Cron/Dates.antt =====
-- The calendar of src/utils.ts: days, months and years against day numbers.
use glide_mq.Common.{ℕ, zero, suc, ◌+◌, ◌-◌, ◌≤◌, ◌<◌, ◌≡◌, refl, arith, dec_lt, ap}
use glide_mq.Cron.Calendar.{
  days_in_month, days_in_year, days_before_month, days_of_years, month_of, year_of,
}

pub days_in_year_bounds : (y : ℕ) → (365 ≤ days_in_year y) × (days_in_year y ≤ 366)
unfolding days_in_year
days_in_year_bounds y = ground arith

pub days_before_month-year : (y : ℕ) → days_before_month y 12 + days_in_month y 12 ≡ days_in_year y
unfolding days_before_month days_in_year
days_before_month-year y = ground arith

pub days_of_years_next : (n : ℕ) → days_of_years (suc n) ≡ days_of_years n + days_in_year (1970 + n)
unfolding days_of_years
days_of_years_next n = refl

pub days_of_years-lt :
    (a b : ℕ) → a < b → days_of_years a + days_in_year (1970 + a) ≤ days_of_years b
unfolding days_of_years
days_of_years-lt a zero h = absurd (omega arith)
days_of_years-lt a (suc b) h = elim (dec_lt a b) [
  | yes k ↦ omega (arith, days_of_years-lt a b k)
  | no k ↦ let e : a ≡ b = omega arith in rw e (omega arith)
]

days_before_month-suc :
    (y m : ℕ) → 1 ≤ m → days_before_month y (suc m) ≡ days_before_month y m + days_in_month y m
unfolding days_before_month
days_before_month-suc y zero h = absurd (omega arith)
days_before_month-suc y (suc m) h = refl

pub days_before_month-lt :
    (y a b : ℕ) → 1 ≤ a → a < b → days_before_month y a + days_in_month y a ≤ days_before_month y b
days_before_month-lt y a zero h k = absurd (omega arith)
days_before_month-lt y a (suc b) h k = elim (dec_lt a b) [
  | yes l ↦ omega (arith, days_before_month-lt y a b h l, days_before_month-suc y b (omega arith))
  | no l ↦
      let e : a ≡ b = omega arith in rw e (omega (arith, days_before_month-suc y b (omega arith)))
]

year_of_stop : (k n d : ℕ) → d < days_in_year (1970 + n) → year_of (suc k) n d ≡ n
unfolding year_of
year_of_stop k n d h = ground arith

year_of_go :
    (k n d : ℕ)
    → days_in_year (1970 + n) ≤ d
    → year_of (suc k) n d ≡ year_of k (suc n) (d - days_in_year (1970 + n))
unfolding year_of
year_of_go k n d h = ground arith

-- The year that a day falls in.
pub year_of-between :
    (k n d : ℕ)
    → d ≤ k
    → (days_of_years (year_of k n d) ≤ days_of_years n + d)
      × (days_of_years n + d < days_of_years (suc (year_of k n d)))
year_of-between zero n d h =
    unfold year_of days_of_years in (omega arith, omega (arith, days_in_year_bounds (1970 + n)))
year_of-between (suc k) n d h = elim (dec_lt d (days_in_year (1970 + n))) [
  | yes l ↦ rw (year_of_stop k n d l) (omega arith, unfold days_of_years in omega arith)
  | no l ↦
      let rest =
        year_of-between k (suc n) (d - days_in_year (1970 + n))
          (omega (arith, days_in_year_bounds (1970 + n))) in
      rw (year_of_go k n d (omega arith))
        (omega (arith, rest, days_of_years_next n), omega (arith, rest, days_of_years_next n))
]

month_of_stop : (k y m d : ℕ) → d < days_in_month y m → month_of (suc k) y m d ≡ m
unfolding month_of
month_of_stop k y m d h = ground arith

month_of_go :
    (k y m d : ℕ)
    → days_in_month y m ≤ d
    → month_of (suc k) y m d ≡ month_of k y (suc m) (d - days_in_month y m)
unfolding month_of
month_of_go k y m d h = ground arith

abbrev pub InMonth : ℕ → ℕ → ℕ → Type 0
InMonth y m d = (days_before_month y m ≤ d) × (d < days_before_month y m + days_in_month y m)

pub month_of-between :
    (k y m d : ℕ)
    → 1 ≤ m
    → m + k ≡ 12
    → days_before_month y m + d < days_in_year y
    → (m ≤ month_of k y m d)
      × (month_of k y m d ≤ 12)
      × InMonth y (month_of k y m d) (days_before_month y m + d)
month_of-between zero y m d l e h =
    let q : m ≡ 12 = omega arith in
    unfold month_of in (omega arith, omega arith, (omega arith, last q))
  where
    last : m ≡ 12 → days_before_month y m + d < days_before_month y m + days_in_month y m
    last q =
        omega (arith, ap (days_before_month y) q, ap (days_in_month y) q, days_before_month-year y)
month_of-between (suc k) y m d l e h = elim (dec_lt d (days_in_month y m)) [
  | yes j ↦ rw (month_of_stop k y m d j) (omega arith, omega arith, (omega arith, omega arith))
  | no j ↦
      let step = days_before_month-suc y m l in
      let rest =
        month_of-between k y (suc m) (d - days_in_month y m) (omega arith) (omega arith)
          (omega (arith, step)) in
      rw (month_of_go k y m d (omega arith)) (
        omega (arith, rest),
        omega (arith, rest),
        (omega (arith, rest, step), omega (arith, rest, step)),
      )
]
