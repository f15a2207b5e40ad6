-- ===== src/Cron/Calendar.antt =====
-- The calendar behind the UTC dates that src/utils.ts builds (daysInMonth, utcToWall,
-- wallToNaiveUtc, wallPlusOneSecond), for instants at or after 1970 and months 1 to 12.
use glide_mq.Common.{
  ℕ, zero, suc, ◌+◌, ◌-◌, ◌*◌, ◌/◌, ◌%◌, Bool, ◌&&◌, ◌||◌, not, ltb, ◌==◌, if◌then◌else◌,
}

-- A wall-clock time: month 1-12, day 1-31.
pub record Wall : Type 0 where
  pub year : ℕ
  pub month : ℕ
  pub day : ℕ
  pub hour : ℕ
  pub minute : ℕ
  pub second : ℕ

unfoldable pub is_leap : ℕ → Bool
is_leap year = (year % 4 == 0) && (not (year % 100 == 0) || (year % 400 == 0))

-- `new Date(Date.UTC(year, month, 0)).getUTCDate()`: the last day of the month.
unfoldable pub days_in_month : ℕ → ℕ → ℕ
unfolding is_leap
days_in_month year month =
    if month == 2
    then (if is_leap year then 29 else 28)
    else if (month == 4) || (month == 6) || (month == 9) || (month == 11)
    then 30
    else 31

unfoldable pub days_in_year : ℕ → ℕ
unfolding is_leap
days_in_year year = if is_leap year then 366 else 365

-- The days of the months before the given one.
unfoldable pub days_before_month : ℕ → ℕ → ℕ
unfolding days_in_month
days_before_month year zero = 0
days_before_month year (suc zero) = 0
days_before_month year (suc (suc m)) = days_before_month year (suc m) + days_in_month year (suc m)

-- The days of the `n` years from 1970.
unfoldable pub days_of_years : ℕ → ℕ
unfolding days_in_year
days_of_years zero = 0
days_of_years (suc n) = days_of_years n + days_in_year (1970 + n)

-- Days from 1970-01-01.
unfoldable pub day_number : ℕ → ℕ → ℕ → ℕ
unfolding days_of_years days_before_month
day_number year month day = days_of_years (year - 1970) + days_before_month year month + (day - 1)

-- `getUTCDay()`: 1970-01-01 was a Thursday.
unfoldable pub day_of_week : ℕ → ℕ → ℕ → ℕ
unfolding day_number
day_of_week year month day = (day_number year month day + 4) % 7

-- `Date.UTC(...)` of a wall time, in milliseconds.
unfoldable pub wall_to_naive_utc : Wall → ℕ
unfolding day_number
wall_to_naive_utc w =
    (((day_number w.year w.month w.day * 24 + w.hour) * 60 + w.minute) * 60 + w.second) * 1000

-- The month and day of a day of the year, from month `m` on.
unfoldable pub month_of : ℕ → ℕ → ℕ → ℕ → ℕ
unfolding days_in_month
month_of zero year m d = m
month_of (suc k) year m d =
    let rest = month_of k year (suc m) (d - days_in_month year m) in
    if ltb d (days_in_month year m) then m else rest

unfoldable pub year_of : ℕ → ℕ → ℕ → ℕ
unfolding days_in_year
year_of zero n d = n
year_of (suc k) n d =
    let rest = year_of k (suc n) (d - days_in_year (1970 + n)) in
    if ltb d (days_in_year (1970 + n)) then n else rest

-- The date part of `new Date(ms)`: `n` full years from 1970 fit in `days`.
unfoldable pub wall_of_days : ℕ → ℕ → Wall
unfolding year_of month_of days_of_years days_before_month
wall_of_days days second_of_day =
    let n = year_of days 0 days in
    let in_year = days - days_of_years n in
    let month = month_of 11 (1970 + n) 1 in_year in
    record {
      year = 1970 + n;
      month = month;
      day = in_year - days_before_month (1970 + n) month + 1;
      hour = second_of_day / 3600;
      minute = second_of_day / 60 % 60;
      second = second_of_day % 60;
    }

unfoldable pub utc_to_wall : ℕ → Wall
unfolding wall_of_days
utc_to_wall ms = wall_of_days (ms / 86400000) (ms / 1000 % 86400)

unfoldable pub wall_plus_one_second : Wall → Wall
unfolding wall_to_naive_utc utc_to_wall
wall_plus_one_second w = utc_to_wall (wall_to_naive_utc w + 1000)
