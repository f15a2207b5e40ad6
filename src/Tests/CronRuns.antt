-- ===== src/Tests/CronRuns.antt =====
-- Runs of the cron parser and search of src/utils.ts.
use glide_mq.Common.{
  ℕ, ◌+◌, ◌*◌, ◌/◌, ◌≡◌, ◌≤◌, refl, true, false, List, [], ◌∷◌, Option, none, some, ok, err, arith,
  leb, if◌then◌else◌,
}
use glide_mq.Cron.Calendar.{
  Wall, wall_to_naive_utc, utc_to_wall, wall_plus_one_second, day_of_week, days_in_month,
}
use glide_mq.Cron.Search.{CronField, CronPattern, cron_wall_matches, search_cron_wall}
use glide_mq.Cron.Text.{Text}
use glide_mq.Cron.Field.{range_reversed}
use glide_mq.Cron.Pattern.{parse_cron_pattern, next_cron_occurrence_utc}
use glide_mq.Cron.Order.{IsWall}
use glide_mq.Cron.Found.{Found, search_cron_wall-Found}
use glide_mq.Cron.RoundTrip.{utc_to_wall-wall_to_naive_utc}
use glide_mq.Cron.Next.{
  IsNext, parse_cron_pattern-IsPattern, next_cron_occurrence_utc-IsNext,
  next_cron_occurrence_utc-returns,
}

-- `*/15 9-17 * * MON-FRI`
abbrev office_hours : Text
office_hours =
    b'*' ∷ b'/' ∷ b'1' ∷ b'5' ∷ b' ' ∷ b'9' ∷ b'-' ∷ b'1' ∷ b'7' ∷ b' ' ∷ b'*' ∷ b' ' ∷ b'*' ∷ b' '
    ∷ b'M' ∷ b'O' ∷ b'N' ∷ b'-' ∷ b'F' ∷ b'R' ∷ b'I' ∷ []

-- `0 0 29 2 *`
abbrev leap_day : Text
leap_day = b'0' ∷ b' ' ∷ b'0' ∷ b' ' ∷ b'2' ∷ b'9' ∷ b' ' ∷ b'2' ∷ b' ' ∷ b'*' ∷ []

-- From a Friday at 17:45:00 to the Monday at 09:00.
office_hours_run : next_cron_occurrence_utc office_hours 1700243100000 ≡ ok (some 1700470800000)
unfolding next_cron_occurrence_utc
office_hours_run = refl

leap_day_run : next_cron_occurrence_utc leap_day 1700000000000 ≡ ok (some 1709164800000)
unfolding next_cron_occurrence_utc
leap_day_run = refl

reversed_run :
    parse_cron_pattern
      (b'5' ∷ b'-' ∷ b'3' ∷ b' ' ∷ b'*' ∷ b' ' ∷ b'*' ∷ b' ' ∷ b'*' ∷ b' ' ∷ b'*' ∷ [])
    ≡ err (range_reversed 5 3)
unfolding parse_cron_pattern
reversed_run = refl

abbrev range : ℕ → ℕ → List ℕ
range Prim.Native.Nat.zero from = []
range (Prim.Native.Nat.suc n) from = from ∷ range n (Prim.Native.Nat.suc from)

abbrev field : List ℕ → CronField
field xs = record { set = xs; sorted = xs }

abbrev leap_day_pattern : CronPattern
leap_day_pattern = record {
  dom_last = false;
  dom_last_weekday = false;
  dom_nearest_weekday = [];
  dow_last = [];
  dow_nth = [];
  second = field (0 ∷ []);
  minute = field (0 ∷ []);
  hour = field (0 ∷ []);
  dom = field (29 ∷ []);
  month = field (2 ∷ []);
  dow = field (range 7 0);
  has_seconds = false;
  wildcard_time = false;
  dom_unrestricted = false;
  dow_unrestricted = true;
}

leap_day_parsed : parse_cron_pattern leap_day ≡ ok leap_day_pattern
unfolding parse_cron_pattern
leap_day_parsed = refl

leap_day_year :
    (utc_to_wall 1709164800000).year ≤ (utc_to_wall (1700000000000 / 1000 * 1000 + 1000)).year + 10
unfolding utc_to_wall
leap_day_year = omega arith

leap_day_matches : cron_wall_matches leap_day_pattern (utc_to_wall 1709164800000) ≡ true
unfolding cron_wall_matches utc_to_wall day_of_week
leap_day_matches = refl

next_cron_occurrence_utc-IsNext_example :
    (cron : CronPattern) × (parse_cron_pattern leap_day ≡ ok cron)
    × IsNext cron 1700000000000 1709164800000
next_cron_occurrence_utc-IsNext_example =
    next_cron_occurrence_utc-IsNext leap_day 1700000000000 1709164800000 leap_day_run

next_cron_occurrence_utc-returns_example :
    (t : ℕ) × (next_cron_occurrence_utc leap_day 1700000000000 ≡ ok (some t)) × (t ≤ 1709164800000)
next_cron_occurrence_utc-returns_example =
    next_cron_occurrence_utc-returns leap_day leap_day_pattern 1700000000000 1709164800000
      leap_day_parsed refl (omega arith) leap_day_year leap_day_matches

-- A resolver that turns down all times before 2028.
abbrev from_2028 : Wall → Option ℕ
from_2028 w = if leb 2028 w.year then some (wall_to_naive_utc w) else none

abbrev new_year : Wall
new_year = record { year = 2024; month = 1; day = 1; hour = 0; minute = 0; second = 0 }

new_year-IsWall : IsWall new_year
unfolding days_in_month
new_year-IsWall = record {
  year = omega arith;
  month = (omega arith, omega arith);
  day = (omega arith, omega arith);
  hour = omega arith;
  minute = omega arith;
  second = omega arith;
}

from_2028_run : search_cron_wall leap_day_pattern new_year from_2028 ≡ some 1835395200000
unfolding search_cron_wall wall_to_naive_utc wall_plus_one_second
from_2028_run = refl

search_cron_wall-Found_example : Found leap_day_pattern from_2028 new_year 1835395200000
search_cron_wall-Found_example =
    search_cron_wall-Found leap_day_pattern new_year from_2028 1835395200000
      (parse_cron_pattern-IsPattern leap_day leap_day_pattern leap_day_parsed) new_year-IsWall
      from_2028_run

utc_to_wall-wall_to_naive_utc_example :
    (utc_to_wall (wall_to_naive_utc new_year) ≡ new_year)
    × (wall_to_naive_utc (utc_to_wall 1709164801000) ≡ 1709164801000)
utc_to_wall-wall_to_naive_utc_example =
    utc_to_wall-wall_to_naive_utc new_year 1709164801000 new_year-IsWall refl
