-- ===== src/Schedule.antt =====
-- The next run of a repeating job in src/utils.ts: isValidSchedulerEvery, validateSchedulerEvery,
-- computeInitialSchedulerNextRun, holdSchedulerModeSwitch and computeFollowingSchedulerNextRun, for
-- schedules without a time zone. Instants are whole milliseconds, and the clock stands after the first
-- one of 1970.
pub mod Spec
pub mod Following
pub mod Initial
pub mod Switch
use glide_mq.Common.{
  ℕ, zero, suc, ◌+◌, ◌-◌, ◌*◌, ◌/◌, Bool, true, false, ◌&&◌, ◌||◌, not, List, [], ◌∷◌, Option, none,
  some, ltb, leb, ◌==◌, if◌then◌else◌, Result, ok, err, ◌>>=◌,
}
use glide_mq.Cron.Text.{Text}
use glide_mq.Cron.Field.{CronError}
use glide_mq.Cron.Pattern.{next_cron_occurrence_utc}

-- A pattern that is absent is empty: the code tests it for truth only.
pub record SchedulerEntry : Type 0 where
  pub pattern : Text
  pub every : Option ℕ
  pub repeat_after_complete : Option ℕ
  pub start_date : Option ℕ
  pub end_date : Option ℕ
  pub next_run : Option ℕ

pub data ScheduleError : Type 0 where
  bad_pattern : CronError → ScheduleError
  no_cron_match : ScheduleError
  invalid_every : ScheduleError
  no_mode : ScheduleError

abbrev pub max_safe_integer : ℕ
max_safe_integer = 9007199254740991

unfoldable pub is_valid_scheduler_every : Option ℕ → Bool
is_valid_scheduler_every none = false
is_valid_scheduler_every (some every) = leb every max_safe_integer && ltb 0 every

unfoldable pub validate_scheduler_every : Option ℕ → Result ScheduleError (Unit {0})
unfolding is_valid_scheduler_every
validate_scheduler_every none = ok tt
validate_scheduler_every (some every) =
    if not (is_valid_scheduler_every (some every)) then err invalid_every else ok tt

-- `if (n)` of a number that may be absent: zero counts as absent.
unfoldable pub truthy : Option ℕ → Option ℕ
truthy none = none
truthy (some n) = if n == 0 then none else some n

unfoldable pub next_cron_run : Result CronError (Option ℕ) → Result ScheduleError ℕ
next_cron_run (ok (some t)) = ok t
next_cron_run (ok none) = err no_cron_match
next_cron_run (err e) = err (bad_pattern e)

-- A run past the end date is `null`.
unfoldable pub until_end : Option ℕ → ℕ → Option ℕ
until_end none next_run = some next_run
until_end (some end_date) next_run = if ltb end_date next_run then none else some next_run

unfoldable pub start_or_now : Option ℕ → ℕ → ℕ
start_or_now none now = now
start_or_now (some start_date) now = if ltb now start_date then start_date else now

-- `Math.ceil(elapsed / every)` steps from the start date.
unfoldable pub first_every : Option ℕ → ℕ → ℕ → ℕ
first_every none every now = now + every
first_every (some start_date) every now =
    if ltb now start_date
    then start_date
    else start_date + (now - start_date + every - 1) / every * every

unfoldable pub initial_run :
    SchedulerEntry → ℕ → Option ℕ → Text → Option ℕ → Result ScheduleError ℕ
unfolding next_cron_run next_cron_occurrence_utc start_or_now first_every
initial_run s now (some _) pattern every = ok (start_or_now s.start_date now)
initial_run s now none (c ∷ pattern) every =
    next_cron_run (next_cron_occurrence_utc (c ∷ pattern) (start_or_now s.start_date now - 1))
initial_run s now none [] (some every) = ok (first_every s.start_date every now)
initial_run s now none [] none = err no_mode

unfoldable pub no_pattern : Text → Bool
no_pattern [] = true
no_pattern (c ∷ s) = false

unfoldable pub absent : Option ℕ → Bool
absent none = true
absent (some _) = false

unfoldable pub check_every : SchedulerEntry → Result ScheduleError (Unit {0})
unfolding validate_scheduler_every truthy no_pattern absent
check_every s =
    if no_pattern s.pattern && absent (truthy s.repeat_after_complete)
    then validate_scheduler_every s.every
    else ok tt

unfoldable pub compute_initial_scheduler_next_run :
    SchedulerEntry → ℕ → Result ScheduleError (Option ℕ)
unfolding check_every initial_run until_end truthy
compute_initial_scheduler_next_run s now = do
  _ ← check_every s
  next_run ← initial_run s now (truthy s.repeat_after_complete) s.pattern (truthy s.every)
  ok (until_end s.end_date next_run)

unfoldable pub max : ℕ → ℕ → ℕ
max a b = if ltb a b then b else a

-- `existing.nextRun` that is absent is not above 0.
unfoldable pub hold_scheduler_mode_switch : SchedulerEntry → ℕ → Option ℕ → Option ℕ
unfolding is_valid_scheduler_every truthy no_pattern absent until_end max
hold_scheduler_mode_switch existing next_run end_date =
    if is_valid_scheduler_every existing.repeat_after_complete
    then some next_run
    else elim (truthy existing.next_run) [
      | none ↦ some next_run
      | some old ↦
          if no_pattern existing.pattern && not (is_valid_scheduler_every existing.every)
          then some next_run
          else until_end end_date (max next_run old)
    ]

-- Missed intervals are skipped; the runs stay on the grid of the last planned one.
unfoldable pub following_every : Option ℕ → ℕ → ℕ → ℕ
following_every none every after_ms = after_ms + every
following_every (some next_run) every after_ms =
    if leb next_run after_ms
    then next_run + ((after_ms - next_run) / every + 1) * every
    else next_run

unfoldable pub following_run :
    SchedulerEntry → ℕ → Option ℕ → Text → Option ℕ → Result ScheduleError (Option ℕ)
unfolding next_cron_run next_cron_occurrence_utc following_every until_end
following_run s after_ms (some delay) pattern every = ok (until_end s.end_date (after_ms + delay))
following_run s after_ms none (c ∷ pattern) every = do
  next_run ← next_cron_run (next_cron_occurrence_utc (c ∷ pattern) after_ms)
  ok (until_end s.end_date next_run)
following_run s after_ms none [] (some every) =
    ok (until_end s.end_date (following_every s.next_run every after_ms))
following_run s after_ms none [] none = ok none

unfoldable pub compute_following_scheduler_next_run :
    SchedulerEntry → ℕ → Result ScheduleError (Option ℕ)
unfolding no_pattern is_valid_scheduler_every following_run truthy
compute_following_scheduler_next_run s after_ms =
    if no_pattern s.pattern
      && not (is_valid_scheduler_every s.every)
      && not (is_valid_scheduler_every s.repeat_after_complete)
    then ok none
    else following_run s after_ms (truthy s.repeat_after_complete) s.pattern (truthy s.every)
