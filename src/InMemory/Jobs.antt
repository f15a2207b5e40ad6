-- ===== src/InMemory/Jobs.antt =====
-- The records of the in-memory queue of src/testing.ts: TestJobRecord and its states.
use glide_mq.Common.{ℕ, String, Bool, true, false, Option}
use glide_mq.Options.{JobOptions, Payload}

pub data JobState : Type 0 where
  waiting prioritized active completed failed delayed suspended waiting_children : JobState

pub record JobRecord : Type 0 where
  pub id : String
  pub name : String
  pub payload : Payload
  pub opts : JobOptions
  pub state : JobState
  pub attempts_made : ℕ
  pub failed_reason : Option String
  pub timestamp : ℕ
  pub finished_on : Option ℕ
  pub processed_on : Option ℕ
  pub expire_at : Option ℕ
  pub fallback_index : ℕ
  pub delayed_until : Option ℕ
  pub revoked : Bool

unfoldable pub is_waiting : JobState → Bool
is_waiting waiting = true
is_waiting _ = false

unfoldable pub is_prioritized : JobState → Bool
is_prioritized prioritized = true
is_prioritized _ = false

unfoldable pub is_active : JobState → Bool
is_active active = true
is_active _ = false

unfoldable pub is_completed : JobState → Bool
is_completed completed = true
is_completed _ = false

unfoldable pub is_failed : JobState → Bool
is_failed failed = true
is_failed _ = false

unfoldable pub is_delayed : JobState → Bool
is_delayed delayed = true
is_delayed _ = false

-- The states of the jobs that stand in the dispatch queue.
unfoldable pub is_queued : JobState → Bool
is_queued waiting = true
is_queued prioritized = true
is_queued _ = false
