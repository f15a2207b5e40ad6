-- ===== src/Schedule/Spec.antt =====
-- What a schedule promises of its next run, apart from how src/utils.ts computes it.
use native.Mathlib.Nat.{mul-le-mul_right, add-mul}
use glide_mq.Common.{ℕ, ◌+◌, ◌*◌, ◌≤◌, ◌<◌, ◌≡◌, ◌-◌, Option, dec_lt, arith, [], none, some, ok}
use glide_mq.Cron.Search.{CronPattern}
use glide_mq.Cron.Pattern.{parse_cron_pattern}
use glide_mq.Cron.Next.{IsNext}
use glide_mq.Schedule.{SchedulerEntry, truthy}

-- `t` is the least point of the grid `from + k * step` that lies at or after `bound`.
pub record IsFirstOnGrid (from step bound t : ℕ) : Type 0 where
  pub steps : ℕ
  pub point : t ≡ from + steps * step
  pub reached : bound ≤ t
  pub least : (k : ℕ) → bound ≤ from + k * step → t ≤ from + k * step

-- The run after `after_ms`, by the mode of the schedule.
pub data Follows (s : SchedulerEntry) (after_ms t : ℕ) : Type 0 where
  delayed :
      (delay : ℕ)
      → s.repeat_after_complete ≡ some delay
      → 0 < delay
      → t ≡ after_ms + delay
      → Follows s after_ms t
  on_pattern :
      truthy s.repeat_after_complete ≡ none
      → (cron : CronPattern) → parse_cron_pattern s.pattern ≡ ok cron
      → IsNext cron after_ms t
      → Follows s after_ms t
  on_grid :
      truthy s.repeat_after_complete ≡ none
      → s.pattern ≡ []
      → (every planned : ℕ) → s.every ≡ some every
      → 0 < every
      → s.next_run ≡ some planned
      → IsFirstOnGrid planned every (after_ms + 1) t
      → Follows s after_ms t
  unplanned :
      truthy s.repeat_after_complete ≡ none
      → s.pattern ≡ []
      → (every : ℕ) → s.every ≡ some every
      → 0 < every
      → s.next_run ≡ none
      → t ≡ after_ms + every
      → Follows s after_ms t

-- `t` is not past the end date.
abbrev pub IsWithin : SchedulerEntry → ℕ → Type 0
IsWithin s t = (end_date : ℕ) → s.end_date ≡ some end_date → t ≤ end_date

-- The first instant that is neither before `now` nor before the start date.
pub record IsFrom (start_date : Option ℕ) (now t : ℕ) : Type 0 where
  pub from_now : now ≤ t
  pub from_start : (d : ℕ) → start_date ≡ some d → d ≤ t
  pub earliest : (u : ℕ) → now ≤ u → ((d : ℕ) → start_date ≡ some d → d ≤ u) → t ≤ u

-- The first run of a schedule that is set up at `now`.
pub data Starts (s : SchedulerEntry) (now t : ℕ) : Type 0 where
  at_once :
      (delay : ℕ)
      → s.repeat_after_complete ≡ some delay
      → 0 < delay
      → IsFrom s.start_date now t
      → Starts s now t
  at_match :
      truthy s.repeat_after_complete ≡ none
      → (cron : CronPattern) → parse_cron_pattern s.pattern ≡ ok cron
      → (from : ℕ) → IsFrom s.start_date now from
      → IsNext cron (from - 1) t
      → Starts s now t
  at_point :
      truthy s.repeat_after_complete ≡ none
      → s.pattern ≡ []
      → (every start : ℕ) → s.every ≡ some every
      → 0 < every
      → s.start_date ≡ some start
      → IsFirstOnGrid start every now t
      → Starts s now t
  after_interval :
      truthy s.repeat_after_complete ≡ none
      → s.pattern ≡ []
      → (every : ℕ) → s.every ≡ some every
      → 0 < every
      → s.start_date ≡ none
      → t ≡ now + every
      → Starts s now t

module _ (from step bound q t : ℕ) (point : t ≡ from + q * step) (reached : bound ≤ t)
    (short : q * step < bound - from + step) where
  least_point : (k : ℕ) → bound ≤ from + k * step → t ≤ from + k * step
  least_point k h = elim (dec_lt k q) [
    | yes l ↦ absurd (omega (arith, mul-le-mul_right step l, add-mul k 1 step))
    | no n ↦ let m : q ≤ k = omega arith in omega (arith, mul-le-mul_right step m)
  ]

  pub IsFirstOnGrid-of_steps : IsFirstOnGrid from step bound t
  IsFirstOnGrid-of_steps = record {
    steps = q;
    point = point;
    reached = reached;
    least = least_point;
  }
