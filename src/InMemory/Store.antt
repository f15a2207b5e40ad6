-- ===== src/InMemory/Store.antt =====
-- TestQueue of src/testing.ts: its state, and the moves of one record between the dispatch queue, the
-- delayed jobs and the rest. Events and wake-up calls to workers are left out: a worker may take a step
-- at any time.
use glide_mq.Common.{
  ℕ, ◌+◌, String, text_dec, ite, Bool, false, ◌&&◌, not, List, [], ◌∷◌, ◌++◌, Option, none, some,
  Map, get?, set, ltb, ◌==◌, if◌then◌else◌,
}
use glide_mq.InMemory.Jobs.{
  JobRecord, JobState, waiting, prioritized, delayed, is_prioritized, is_delayed,
}

-- `records` is the store of all records that were made, `next_ref` the first unused reference. `jobs`
-- and `promotion_timers` hold references by job id, `waiting_queue` in dispatch order.
pub record TestQueue : Type 0 where
  pub records : ℕ → JobRecord
  pub next_ref : ℕ
  pub jobs : Map ℕ
  pub waiting_queue : List ℕ
  pub dedup_entries : Map (String × ℕ)
  pub promotion_timers : Map ℕ
  pub id_counter : ℕ
  pub paused : Bool
  pub dedup_enabled : Bool

-- `MAX_TIMEOUT_DELAY_MS`
abbrev pub max_timeout_delay_ms : ℕ
max_timeout_delay_ms = 2147483647

-- `map.delete(k)`
unfoldable pub delete {ℓ} : {V : Type ℓ} → String → Map V → Map V
delete k [] = []
delete k ((j, v) ∷ m) = let rest = delete k m in ite (text_dec j k) rest ((j, v) ∷ rest)

-- An assignment to fields of the record at `ref`.
unfoldable pub update : ℕ → JobRecord → (ℕ → JobRecord) → ℕ → JobRecord
update ref r records at = if at == ref then r else records at

abbrev pub put : TestQueue → ℕ → JobRecord → TestQueue
put q ref r = record q { records = update ref r q.records }

-- `this.jobs.get(record.id) === record`
unfoldable pub is_same : Option ℕ → ℕ → Bool
is_same none ref = false
is_same (some other) ref = other == ref

unfoldable pub is_current : TestQueue → ℕ → Bool
unfolding is_same get?
is_current q ref = is_same (get? (q.records ref).id q.jobs) ref

unfoldable pub without_id : (ℕ → JobRecord) → String → List ℕ → List ℕ
without_id records id [] = []
without_id records id (ref ∷ refs) =
    let rest = without_id records id refs in ite (text_dec (records ref).id id) rest (ref ∷ rest)

unfoldable pub dequeue_record : TestQueue → ℕ → TestQueue
unfolding without_id
dequeue_record q ref = record q {
  waiting_queue = without_id q.records (q.records ref).id q.waiting_queue;
}

unfoldable pub enqueue_as : JobState → TestQueue → ℕ → TestQueue
unfolding dequeue_record update
enqueue_as state q ref =
    let q' = dequeue_record q ref in
    record (put q' ref (record (q.records ref) { state = state })) {
      waiting_queue = q'.waiting_queue ++ ref ∷ [];
    }

unfoldable pub enqueue_waiting : TestQueue → ℕ → TestQueue
unfolding enqueue_as
enqueue_waiting = enqueue_as waiting

unfoldable pub enqueue_prioritized : TestQueue → ℕ → TestQueue
unfolding enqueue_as
enqueue_prioritized = enqueue_as prioritized

unfoldable pub clear_promotion : TestQueue → String → TestQueue
unfolding delete
clear_promotion q id = record q { promotion_timers = delete id q.promotion_timers }

-- The timer of the record is due at `delayed_until`.
unfoldable pub schedule_promotion : TestQueue → ℕ → ℕ → ℕ → TestQueue
unfolding clear_promotion update set
schedule_promotion q ref delay_ms now =
    let r = q.records ref in
    let q' = clear_promotion q r.id in
    let wait = if ltb max_timeout_delay_ms delay_ms then max_timeout_delay_ms else delay_ms in
    record (put q' ref (record r { delayed_until = some (now + wait) })) {
      promotion_timers = set r.id ref q'.promotion_timers;
    }

unfoldable pub park_delayed : TestQueue → ℕ → ℕ → ℕ → TestQueue
unfolding dequeue_record update schedule_promotion
park_delayed q ref delay_ms now =
    let q' = dequeue_record q ref in
    schedule_promotion (put q' ref (record (q.records ref) { state = delayed })) ref delay_ms now

unfoldable pub release_delayed : TestQueue → ℕ → Bool → TestQueue
unfolding clear_promotion update enqueue_waiting enqueue_prioritized
release_delayed q ref to_prioritized =
    let r = q.records ref in
    let q' = put (clear_promotion q r.id) ref (record r { delayed_until = none }) in
    if to_prioritized then enqueue_prioritized q' ref else enqueue_waiting q' ref

-- The callback of a promotion timer.
unfoldable pub promotion_due : TestQueue → ℕ → TestQueue
unfolding clear_promotion is_current dequeue_record update
promotion_due q ref =
    let r = q.records ref in
    let q' = clear_promotion q r.id in
    if not (is_current q ref && is_delayed r.state)
    then q'
    else (let q'' = dequeue_record q' ref in
        record (put q'' ref (record r { delayed_until = none; state = waiting })) {
          waiting_queue = q''.waiting_queue ++ ref ∷ [];
        })

-- `for (const record of this.waitingQueue)`
unfoldable pub promote_all : Map ℕ → List ℕ → (ℕ → JobRecord) → ℕ → JobRecord
unfolding is_same get? update is_prioritized
promote_all jobs [] records = records
promote_all jobs (ref ∷ refs) records =
    let r = records ref in
    promote_all jobs refs (
      if is_prioritized r.state && is_same (get? r.id jobs) ref
      then update ref (record r { state = waiting }) records
      else records)

unfoldable pub promote_prioritized : TestQueue → TestQueue
unfolding promote_all
promote_prioritized q = record q { records = promote_all q.jobs q.waiting_queue q.records }
