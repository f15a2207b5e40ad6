-- ===== src/InMemory/Worker.antt =====
-- The worker of src/testing.ts: the rate window of acquireRateSlot and the claim of processAvailable.
-- Batches, budgets, flows, suspension and the copy to a dead-letter queue are left out, and the metrics
-- that nothing here reads.
use glide_mq.Common.{
  true, false, ℕ, suc, ◌+◌, ◌-◌, Bool, ◌&&◌, not, Option, none, some, ltb, leb, ◌==◌, if◌then◌else◌,
}
use glide_mq.InMemory.Jobs.{active}
use glide_mq.InMemory.Store.{TestQueue, update, put, promote_prioritized}
use glide_mq.InMemory.Dispatch.{take_next_waiting, has_waiting}

pub record RateLimiter : Type 0 where
  pub max : ℕ
  pub duration : ℕ

pub record TestWorker : Type 0 where
  pub concurrency : ℕ
  pub active_count : ℕ
  pub paused : Bool
  pub running : Bool
  pub limiter : Option RateLimiter
  pub rate_limit_until : ℕ
  pub rate_window_start : ℕ
  pub rate_window_count : ℕ

unfoldable pub window_slot : TestWorker → RateLimiter → ℕ → ℕ × TestWorker
window_slot w l now =
    if l.max == 0
    then (0, w)
    else if leb (w.rate_window_start + l.duration) now
    then (0, record w { rate_window_start = now; rate_window_count = 1 })
    else if leb l.max w.rate_window_count
    then (w.rate_window_start + l.duration - now, w)
    else (0, record w { rate_window_count = suc (w.rate_window_count) })

unfoldable pub limiter_slot : TestWorker → ℕ → Option RateLimiter → ℕ × TestWorker
unfolding window_slot
limiter_slot w now none = (0, w)
limiter_slot w now (some l) = window_slot w l now

-- 0, or the milliseconds to wait.
unfoldable pub acquire_rate_slot : TestWorker → ℕ → ℕ × TestWorker
unfolding limiter_slot
acquire_rate_slot w now =
    if ltb now w.rate_limit_until
    then (w.rate_limit_until - now, w)
    else limiter_slot w now w.limiter

unfoldable pub take_in_slot : ℕ × TestWorker → TestQueue → Option ℕ × TestWorker × TestQueue
unfolding take_next_waiting
take_in_slot (wait, w) q =
    if ltb 0 wait then (none, w, q) else (let (ref, q') = take_next_waiting q in (ref, w, q'))

unfoldable pub find_next_waiting : TestWorker → TestQueue → ℕ → Option ℕ × TestWorker × TestQueue
unfolding has_waiting take_in_slot acquire_rate_slot
find_next_waiting w q now =
    let (there, q') = has_waiting q in
    if not there then (none, w, q') else take_in_slot (acquire_rate_slot w now) q'

-- The job becomes active.
unfoldable pub activate : Option ℕ × TestWorker × TestQueue → ℕ → Option ℕ × TestWorker × TestQueue
unfolding update
activate (none, w, q) now = (none, w, q)
activate (some ref, w, q) now = (
  some ref,
  record w { active_count = suc (w.active_count) },
  put q ref (record (q.records ref) { state = active; processed_on = some now }),
)

unfoldable pub claim_promoted : TestWorker → TestQueue → ℕ → Option ℕ × TestWorker × TestQueue
unfolding find_next_waiting activate
claim_promoted w q now =
    if not q.paused && not w.paused && ltb w.active_count w.concurrency
    then activate (find_next_waiting w q now) now
    else (none, w, q)

-- processAvailable, up to the first round of its loop, which ends when no job is claimed.
unfoldable pub claim : TestWorker → TestQueue → ℕ → Option ℕ × TestWorker × TestQueue
unfolding claim_promoted promote_prioritized
claim w q now = if w.running then claim_promoted w (promote_prioritized q) now else (none, w, q)

-- The worker's close, whose job hand-over and timers belong to batches and wake-ups.
unfoldable pub close_worker : TestWorker → TestWorker
close_worker w = record w { running = false }

-- The calls on a worker: rateLimit, pause, resume and close.
pub data Control : Type 0 where
  limits_rate : (ms : ℕ) → Control
  pauses_worker resumes_worker closes_worker : Control

unfoldable pub control : Control → TestWorker → ℕ → TestWorker
unfolding close_worker
control (limits_rate ms) w now = record w { rate_limit_until = now + ms }
control pauses_worker w now = record w { paused = true }
control resumes_worker w now = record w { paused = false }
control closes_worker w now = close_worker w
