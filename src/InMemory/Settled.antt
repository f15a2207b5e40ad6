-- ===== src/InMemory/Settled.antt =====
-- The ends of a job in src/testing.ts: the completion and the expiry in processJob, and handleFailure.
use glide_mq.Common.{
  ap, ℕ, suc, ◌≡◌, refl, String, Bool, true, false, ◌&&◌, some, get?, ltb, arith, if_intro,
}
use glide_mq.InMemory.Jobs.{JobRecord, is_queued, is_delayed, is_active}
use glide_mq.InMemory.Store.{TestQueue, update, put, is_same, is_current, park_delayed}
use glide_mq.InMemory.Bulk.{Finished, on_complete, on_fail}
use glide_mq.InMemory.Worker.{TestWorker}
use glide_mq.InMemory.Retention.{apply_retention}
use glide_mq.InMemory.Ends.{
  Failure, rate_limited, thrown, complete, postpone, expire, limit_delay, backoff_delay,
  max_attempts, fail_attempt, fail_current, handle_failure,
}
use glide_mq.InMemory.States.{active_apart}
use glide_mq.InMemory.Well.{IsWell}
use glide_mq.InMemory.Changed.{put-IsWell, park_delayed-IsWell}
use glide_mq.InMemory.Retained.{live-Idle, apply_retention-IsWell}

is_current-live :
    (q : TestQueue) (ref : ℕ) → is_current q ref ≡ true → get? (q.records ref).id q.jobs ≡ some ref
unfolding is_current is_same
is_current-live q ref h = ground (arith, h)

module _ (q : TestQueue) (w : IsWell q) (ref : ℕ)
    (run : is_active (q.records ref).state ≡ true) where
  -- The record of an active job is set to a state that does not wait either.
  ended-IsWell :
      (r : JobRecord)
      → r.id ≡ (q.records ref).id
      → is_queued r.state ≡ false
      → is_delayed r.state ≡ false
      → IsWell (put q ref r)
  ended-IsWell r i k d =
      let (k', d') = active_apart (q.records ref).state run in
      put-IsWell q ref r w i (ground arith) (ground arith)

  -- It ends there, and its retention is applied.
  finished-IsWell :
      (r : JobRecord) (type : Finished) (now : ℕ)
      → r.id ≡ (q.records ref).id
      → is_queued r.state ≡ false
      → is_delayed r.state ≡ false
      → get? (q.records ref).id q.jobs ≡ some ref
      → IsWell (apply_retention (put q ref r) ref type now)
  unfolding update
  finished-IsWell r type now i k d live =
      apply_retention-IsWell (put q ref r) ref type now (ended-IsWell r i k d)
        (live-Idle (put q ref r) ref (ground arith) (ground arith) (ground arith))

  -- It waits for another attempt.
  parked-IsWell :
      (r : JobRecord) (delay_ms now : ℕ)
      → r.id ≡ (q.records ref).id
      → r.state ≡ (q.records ref).state
      → get? (q.records ref).id q.jobs ≡ some ref
      → IsWell (park_delayed (put q ref r) ref delay_ms now)
  unfolding update
  parked-IsWell r delay_ms now i s live =
      park_delayed-IsWell (put q ref r) (put-IsWell q ref r w i (ap is_queued s) (ap is_delayed s))
        ref (ground arith) delay_ms now

  pub complete-IsWell : (now : ℕ) → IsWell (complete q ref now)
  unfolding complete is_queued is_delayed
  complete-IsWell now =
      if_intro IsWell (is_current q ref) _ _
        (λ h. finished-IsWell _ on_complete now refl refl refl (is_current-live q ref h)) (λ _. w)

  pub expire-IsWell : (now : ℕ) → IsWell (expire q ref now)
  unfolding expire is_queued is_delayed
  expire-IsWell now = ended-IsWell _ refl refl refl

  fail_attempt-IsWell :
      (message : String) (skip_retry : Bool) (now : ℕ)
      → get? (q.records ref).id q.jobs ≡ some ref
      → IsWell (fail_attempt q ref message skip_retry now)
  unfolding fail_attempt is_queued is_delayed
  fail_attempt-IsWell message skip_retry now live =
      let attempts = suc ((q.records ref).attempts_made) in
      let max = max_attempts (q.records ref).opts skip_retry in
      if_intro IsWell (ltb 0 max && ltb attempts max) _ _
        (λ _.
          parked-IsWell _ (backoff_delay (q.records ref).opts.backoff attempts) now refl refl live)
        (λ _. finished-IsWell _ on_fail now refl refl refl live)

  fail_current-IsWell :
      (worker : TestWorker) (failure : Failure) (now : ℕ)
      → get? (q.records ref).id q.jobs ≡ some ref
      → IsWell (fail_current worker q ref failure now)
  unfolding fail_current
  fail_current-IsWell worker (rate_limited ms) now live =
      parked-IsWell _ (limit_delay ms worker.limiter) now refl refl live
  fail_current-IsWell worker (thrown message unrecoverable) now live =
      fail_attempt-IsWell message unrecoverable now live

  pub handle_failure-IsWell :
      (worker : TestWorker) (failure : Failure) (now : ℕ)
      → IsWell (handle_failure worker q ref failure now).1
  unfolding handle_failure
  handle_failure-IsWell worker failure now =
      if_intro IsWell (is_current q ref) _ _
        (λ h. fail_current-IsWell worker failure now (is_current-live q ref h)) (λ _. w)

  pub postpone-IsWell : (delay_ms now : ℕ) → IsWell (postpone q ref delay_ms now)
  unfolding postpone
  postpone-IsWell delay_ms now =
      if_intro IsWell (is_current q ref) _ _
        (λ h. park_delayed-IsWell q w ref (is_current-live q ref h) delay_ms now) (λ _. w)
