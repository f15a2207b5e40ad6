-- ===== src/InMemory/Change.antt =====
-- Changing jobs in src/testing.ts: TestQueue.revoke and retryRecord, and changePriority, changeDelay,
-- promote, retry, remove and getState on a TestJob. A TestJob is named by the reference of its record.
use glide_mq.Common.{
  ℕ, String, true, false, ◌&&◌, ◌||◌, Option, none, some, get?, ltb, ◌==◌, if◌then◌else◌, Result,
  ok, err,
}
use glide_mq.InMemory.Jobs.{
  JobRecord, JobState, waiting, prioritized, failed, is_waiting, is_prioritized, is_failed,
  is_delayed, is_queued,
}
use glide_mq.InMemory.Store.{
  TestQueue, update, put, dequeue_record, clear_promotion, enqueue_waiting, park_delayed,
  release_delayed,
}
use glide_mq.InMemory.Add.{expire_at, remove_job}

pub data RevokeResult : Type 0 where
  not_found revoked flagged : RevokeResult

unfoldable pub revoke_record : TestQueue → ℕ → ℕ → RevokeResult × TestQueue
unfolding is_queued is_delayed clear_promotion dequeue_record update
revoke_record q ref now =
    let r = record (q.records ref) { revoked = true } in
    if is_queued r.state || is_delayed r.state
    then (
      revoked,
      put (dequeue_record (clear_promotion q r.id) ref) ref (record r {
        delayed_until = none;
        state = failed;
        failed_reason = some "revoked";
        finished_on = some now;
      }),
    )
    else (flagged, put q ref r)

unfoldable pub revoke_found : TestQueue → ℕ → Option ℕ → RevokeResult × TestQueue
unfolding revoke_record
revoke_found q now none = (not_found, q)
revoke_found q now (some ref) = revoke_record q ref now

unfoldable pub revoke : TestQueue → String → ℕ → RevokeResult × TestQueue
unfolding revoke_found get?
revoke q job_id now = revoke_found q now (get? job_id q.jobs)

unfoldable pub retry_record : TestQueue → ℕ → ℕ → TestQueue
unfolding expire_at update enqueue_waiting
retry_record q ref now =
    let r = q.records ref in
    enqueue_waiting
      (put q ref (record r {
        attempts_made = 0;
        failed_reason = none;
        finished_on = none;
        expire_at = expire_at r.opts.ttl now;
      }))
      ref

pub data ChangeError : Type 0 where
  invalid_priority : ChangeError
  job_not_found : ChangeError
  invalid_state : ChangeError
  not_delayed : ChangeError
  not_failed : ChangeError

-- The state of a job that gets a new priority.
unfoldable pub reprioritized : JobState → ℕ → JobState
unfolding is_waiting is_prioritized
reprioritized state new_priority =
    if is_waiting state && ltb 0 new_priority
    then prioritized
    else if is_prioritized state && (new_priority == 0)
    then waiting
    else state

unfoldable pub with_priority : JobRecord → ℕ → JobRecord
with_priority r new_priority = record r { opts = record (r.opts) { priority = new_priority } }

-- The state changes on the record that has the id, the priority on the options of the job.
unfoldable pub set_priority : TestQueue → ℕ → ℕ → ℕ → TestQueue
unfolding update reprioritized with_priority
set_priority q job current new_priority =
    let c = q.records current in
    let q' = put q current (record c { state = reprioritized c.state new_priority }) in
    put q' job (with_priority (q'.records job) new_priority)

unfoldable pub change_found :
    TestQueue → ℕ → ℕ → Option ℕ → Result ChangeError (Unit {0}) × TestQueue
unfolding is_waiting is_queued is_delayed set_priority
change_found q job new_priority none = (err job_not_found, q)
change_found q job new_priority (some current) =
    let c = q.records current in
    if is_waiting c.state && (new_priority == 0) && (c.opts.priority == 0)
    then (ok tt, q)
    else if is_queued c.state || is_delayed c.state
    then (ok tt, set_priority q job current new_priority)
    else (err invalid_state, q)

unfoldable pub change_priority : TestQueue → ℕ → ℕ → Result ChangeError (Unit {0}) × TestQueue
unfolding change_found get?
change_priority q job new_priority =
    if ltb 2048 new_priority
    then (err invalid_priority, q)
    else change_found q job new_priority (get? (q.records job).id q.jobs)

-- `this.opts.delay = newDelay`
unfoldable pub set_delay : TestQueue → ℕ → ℕ → TestQueue
unfolding update
set_delay q job new_delay =
    let r = q.records job in put q job (record r { opts = record (r.opts) { delay = new_delay } })

unfoldable pub delay_found :
    TestQueue → ℕ → ℕ → ℕ → Option ℕ → Result ChangeError (Unit {0}) × TestQueue
unfolding is_delayed is_queued set_delay release_delayed park_delayed
delay_found q job new_delay now none = (err job_not_found, q)
delay_found q job new_delay now (some current) =
    let c = q.records current in
    if is_delayed c.state
    then (
      ok tt,
      set_delay
          (if new_delay == 0
            then release_delayed q current (ltb 0 c.opts.priority)
            else park_delayed q current new_delay now)
          job new_delay,
    )
    else if is_queued c.state
    then (
      ok tt,
      if new_delay == 0 then q else set_delay (park_delayed q current new_delay now) job new_delay,
    )
    else (err invalid_state, q)

unfoldable pub change_delay : TestQueue → ℕ → ℕ → ℕ → Result ChangeError (Unit {0}) × TestQueue
unfolding delay_found get?
change_delay q job new_delay now = delay_found q job new_delay now (get? (q.records job).id q.jobs)

unfoldable pub promote_found : TestQueue → ℕ → Option ℕ → Result ChangeError (Unit {0}) × TestQueue
unfolding is_delayed release_delayed set_delay
promote_found q job none = (err job_not_found, q)
promote_found q job (some current) =
    if is_delayed (q.records current).state
    then (ok tt, set_delay (release_delayed q current false) job 0)
    else (err not_delayed, q)

unfoldable pub promote : TestQueue → ℕ → Result ChangeError (Unit {0}) × TestQueue
unfolding promote_found get?
promote q job = promote_found q job (get? (q.records job).id q.jobs)

unfoldable pub retry_found : TestQueue → ℕ → Option ℕ → Result ChangeError (Unit {0}) × TestQueue
unfolding is_failed retry_record
retry_found q now none = (err job_not_found, q)
retry_found q now (some current) =
    if is_failed (q.records current).state
    then (ok tt, retry_record q current now)
    else (err not_failed, q)

unfoldable pub retry : TestQueue → ℕ → ℕ → Result ChangeError (Unit {0}) × TestQueue
unfolding retry_found get?
retry q job now = retry_found q now (get? (q.records job).id q.jobs)

unfoldable pub remove : TestQueue → ℕ → TestQueue
unfolding remove_job
remove q job = (remove_job q (q.records job).id).1

-- `none` is the state 'unknown' of a job that was removed.
unfoldable pub get_state : TestQueue → ℕ → Option JobState
unfolding get?
get_state q job = elim (get? (q.records job).id q.jobs) [
  | some current ↦ some (q.records current).state
  | none ↦ none
]
