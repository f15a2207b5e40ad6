-- ===== src/Cron/Search.antt =====
-- The day rule of a cron pattern and the walk to its next match: nearestWeekday, cronDomMatches,
-- cronDowMatches, cronDayMatches, cronWallMatches and searchCronWall of src/utils.ts.
use glide_mq.Common.{
  ℕ, zero, suc, ◌+◌, ◌-◌, ◌/◌, ◌%◌, Bool, false, ◌&&◌, ◌||◌, not, List, [], ◌∷◌, Option, none, some,
  ltb, leb, ◌==◌, if◌then◌else◌,
}
use glide_mq.Cron.Calendar.{Wall, days_in_month, day_of_week, wall_plus_one_second}

-- `set` in the order of insertion, `sorted` ascending.
pub record CronField : Type 0 where
  pub set : List ℕ
  pub sorted : List ℕ

pub record CronPattern : Type 0 where
  pub dom_last : Bool
  pub dom_last_weekday : Bool
  pub dom_nearest_weekday : List ℕ
  pub dow_last : List ℕ
  pub dow_nth : List (ℕ × ℕ)
  pub second : CronField
  pub minute : CronField
  pub hour : CronField
  pub dom : CronField
  pub month : CronField
  pub dow : CronField
  pub has_seconds : Bool
  pub wildcard_time : Bool
  pub dom_unrestricted : Bool
  pub dow_unrestricted : Bool

unfoldable pub has : ℕ → List ℕ → Bool
has x [] = false
has x (y ∷ ys) = y == x || has x ys

-- `sorted.find((v) => v > x)`
unfoldable pub find_above : ℕ → List ℕ → Option ℕ
find_above x [] = none
find_above x (y ∷ ys) = if ltb x y then some y else find_above x ys

-- `sorted[0]`, of a list that the parser never leaves empty.
unfoldable pub first : List ℕ → ℕ
first [] = 0
first (x ∷ xs) = x

unfoldable pub nearest_weekday : ℕ → ℕ → ℕ → ℕ
nearest_weekday n dow_of_n month_length =
    if leb 1 dow_of_n && leb dow_of_n 5
    then n
    else if dow_of_n == 6
    then (if ltb 1 n then n - 1 else n + 2)
    else if ltb n month_length
    then n + 1
    else n - 2

-- The day of week of day `n`, from that of `day`: a remainder that is never negative.
unfoldable pub dow_of : ℕ → ℕ → ℕ → ℕ
dow_of day dow n = (dow + n + 35 - day) % 7

unfoldable pub some_nearest : List ℕ → ℕ → ℕ → ℕ → Bool
unfolding nearest_weekday dow_of
some_nearest [] day dow month_length = false
some_nearest (n ∷ ns) day dow month_length =
    (leb n month_length && (nearest_weekday n (dow_of day dow n) month_length == day))
    || some_nearest ns day dow month_length

unfoldable pub cron_dom_matches : CronPattern → ℕ → ℕ → ℕ → Bool
unfolding has some_nearest
cron_dom_matches cron day dow month_length =
    has day cron.dom.set
    || (cron.dom_last && (day == month_length))
    || (cron.dom_last_weekday
        && (day == nearest_weekday month_length (dow_of day dow month_length) month_length))
    || some_nearest cron.dom_nearest_weekday day dow month_length

unfoldable pub some_nth : List (ℕ × ℕ) → ℕ → ℕ → Bool
some_nth [] dow nth = false
some_nth ((d, n) ∷ ds) dow nth = ((d == dow) && (n == nth)) || some_nth ds dow nth

unfoldable pub cron_dow_matches : CronPattern → ℕ → ℕ → ℕ → Bool
unfolding has some_nth
cron_dow_matches cron day dow month_length =
    has dow cron.dow.set
    || (has dow cron.dow_last && ltb month_length (day + 7))
    || some_nth cron.dow_nth dow ((day + 6) / 7)

unfoldable pub cron_day_matches : CronPattern → ℕ → ℕ → ℕ → Bool
unfolding cron_dom_matches cron_dow_matches
cron_day_matches cron day dow month_length =
    if not cron.dom_unrestricted && not cron.dow_unrestricted
    then cron_dom_matches cron day dow month_length || cron_dow_matches cron day dow month_length
    else cron_dom_matches cron day dow month_length && cron_dow_matches cron day dow month_length

-- The day of week is the one that the date has.
unfoldable pub cron_wall_matches : CronPattern → Wall → Bool
unfolding has cron_day_matches
cron_wall_matches cron w =
    has w.month cron.month.set
    && cron_day_matches cron w.day (day_of_week w.year w.month w.day) (days_in_month w.year w.month)
    && has w.hour cron.hour.set
    && has w.minute cron.minute.set
    && has w.second cron.second.set

abbrev pub midnight : ℕ → ℕ → ℕ → Wall
midnight year month day = record {
  year = year;
  month = month;
  day = day;
  hour = 0;
  minute = 0;
  second = 0;
}

-- One round of the loop: it skips ahead (`continue`), or stands at a time that matches.
pub data Move : Type 0 where
  skip : Wall → Move
  stop : Wall → Move

unfoldable pub next_month : CronPattern → Wall → Wall
unfolding find_above first
next_month cron w = elim (find_above w.month cron.month.sorted) [
  | some m ↦ midnight w.year m 1
  | none ↦ midnight (w.year + 1) (first cron.month.sorted) 1
]

-- The first day of the following month.
unfoldable pub roll_month : Wall → Wall
roll_month w =
    if ltb 12 (w.month + 1) then midnight (w.year + 1) 1 1 else midnight w.year (w.month + 1) 1

unfoldable pub next_hour : CronPattern → Wall → Wall
unfolding find_above
next_hour cron w = elim (find_above w.hour cron.hour.sorted) [
  | some h ↦ record w { hour = h; minute = 0; second = 0 }
  | none ↦ midnight w.year w.month (w.day + 1)
]

unfoldable pub next_minute : CronPattern → Wall → Wall
unfolding find_above
next_minute cron w = elim (find_above w.minute cron.minute.sorted) [
  | some m ↦ record w { minute = m; second = 0 }
  | none ↦ record w { hour = w.hour + 1; minute = 0; second = 0 }
]

unfoldable pub second_check : CronPattern → Wall → Move
unfolding has find_above
second_check cron w =
    if has w.second cron.second.set then stop w else elim (find_above w.second cron.second.sorted) [
      | some s ↦ stop (record w { second = s })
      | none ↦ skip (record w { minute = w.minute + 1; second = 0 })
    ]

unfoldable pub time_check : CronPattern → Wall → Move
unfolding has next_hour next_minute second_check
time_check cron w =
    if not (has w.hour cron.hour.set)
    then skip (next_hour cron w)
    else if not (has w.minute cron.minute.set)
    then skip (next_minute cron w)
    else second_check cron w

unfoldable pub day_check : CronPattern → Wall → Move
unfolding days_in_month day_of_week cron_day_matches roll_month time_check
day_check cron w =
    let month_length = days_in_month w.year w.month in
    if ltb month_length w.day
    then skip (roll_month w)
    else if not (cron_day_matches cron w.day (day_of_week w.year w.month w.day) month_length)
    then skip (midnight w.year w.month (w.day + 1))
    else time_check cron w

unfoldable pub walk : CronPattern → Wall → Move
unfolding has next_month day_check
walk cron w =
    if not (has w.month cron.month.set) then skip (next_month cron w) else day_check cron w

abbrev pub max_search_years : ℕ
max_search_years = 10

abbrev pub max_search_steps : ℕ
max_search_steps = 200000

-- The end of a round: a match that `resolve` turns down is passed by one second.
unfoldable pub resolved : (Wall → Option ℕ) → Wall → Option ℕ → Option ℕ
resolved continue at (some found) = some found
resolved continue at none = continue (wall_plus_one_second at)

unfoldable pub after_move : (Wall → Option ℕ) → (Wall → Option ℕ) → Move → Option ℕ
unfolding resolved
after_move continue resolve (skip next) = continue next
after_move continue resolve (stop at) = resolved continue at (resolve at)

-- The loop, on the steps left; `none` is the error that it throws at its end.
unfoldable pub search_from : CronPattern → ℕ → (Wall → Option ℕ) → ℕ → Wall → Option ℕ
unfolding walk after_move
search_from cron end_year resolve zero w = none
search_from cron end_year resolve (suc steps) w =
    if leb w.year end_year
    then after_move (search_from cron end_year resolve steps) resolve (walk cron w)
    else none

unfoldable pub search_cron_wall : CronPattern → Wall → (Wall → Option ℕ) → Option ℕ
unfolding search_from
search_cron_wall cron start resolve =
    search_from cron (start.year + max_search_years) resolve max_search_steps start
