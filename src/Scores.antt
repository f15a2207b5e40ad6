-- ===== src/Scores.antt =====
-- The scores of scheduled jobs and the growing delays of src/utils.ts: validateJobPriority, encodeScore,
-- decodeScore and nextReconnectDelay, for whole numbers from 0 on, computed exactly.
pub mod Order
pub mod Delays
use glide_mq.Common.{
  ℕ, zero, suc, ◌+◌, ◌*◌, ◌/◌, ◌%◌, Bool, if◌then◌else◌, ltb, ◌==◌, Result, ok, err, ◌>>=◌,
}

abbrev pub max_job_priority : ℕ
max_job_priority = 2048

-- `2 ** 42`
abbrev pub priority_shift : ℕ
priority_shift = 4398046511104

pub data PriorityError : Type 0 where
  priority_too_high : ℕ → PriorityError

unfoldable pub validate_job_priority : ℕ → Result PriorityError (Unit {0})
validate_job_priority priority =
    if ltb max_job_priority priority then err (priority_too_high priority) else ok tt

unfoldable pub encode_score : ℕ → ℕ → Result PriorityError ℕ
unfolding validate_job_priority
encode_score priority timestamp_ms = do
  _ ← validate_job_priority priority
  ok (priority * priority_shift + timestamp_ms)

-- The priority and the timestamp of a score.
unfoldable pub decode_score : ℕ → ℕ × ℕ
decode_score score = (score / priority_shift, score % priority_shift)

unfoldable pub min : ℕ → ℕ → ℕ
min a b = if ltb b a then b else a

unfoldable pub next_reconnect_delay : ℕ → ℕ → ℕ
unfolding min
next_reconnect_delay current_delay max_ms =
    if current_delay == 0 then 1000 else min (current_delay * 2) max_ms
