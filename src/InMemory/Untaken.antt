-- ===== src/InMemory/Untaken.antt =====
-- How a job ends in src/testing.ts, and the records of the other jobs.
use glide_mq.Common.{ℕ, suc, refl, ◌&&◌, ltb, ◌==◌, if_intro, length}
use glide_mq.Options.{Retention, keep, remove, newest, window}
use glide_mq.InMemory.Jobs.{JobRecord}
use glide_mq.InMemory.Store.{TestQueue, put, is_current, park_delayed}
use glide_mq.InMemory.Bulk.{Finished, on_complete, on_fail}
use glide_mq.InMemory.Retention.{
  in_state, delete_refs, drop_old, keep_newest, retain, retention_of, apply_retention,
}
use glide_mq.InMemory.Worker.{TestWorker}
use glide_mq.InMemory.Ends.{
  Failure, rate_limited, thrown, complete, expire, postpone, limit_delay, backoff_delay,
  max_attempts, fail_attempt, fail_current, handle_failure,
}
use glide_mq.InMemory.System.{Ending, returned, expired, fails, postponed, settle}
use glide_mq.InMemory.Steady.{Others, Others-same, Others-trans, put-Others, park_delayed-Others}

module _ (q : TestQueue) (ref : ℕ) where
  same : Others q ref q
  same = Others-same q ref q refl refl

  keep_newest-Others :
      (p : TestQueue) (type : Finished) (count : ℕ)
      → Others q ref p
      → Others q ref (keep_newest p type count)
  unfolding keep_newest delete_refs
  keep_newest-Others p type count o =
      if_intro (Others q ref) (ltb 0 count && ltb count (length (in_state p type))) _ _
        (λ _. Others-trans q p ref _ o (Others-same p ref _ refl refl)) (λ _. o)

  drop_old-Others : (type : Finished) (age now : ℕ) → Others q ref (drop_old q type age now)
  unfolding drop_old delete_refs
  drop_old-Others type age now =
      if_intro (Others q ref) (age == 0) _ _ (λ _. same) (λ _. Others-same q ref _ refl refl)

  retain-Others :
      (a : ℕ) (type : Finished) (now : ℕ) (r : Retention) → Others q ref (retain q a type now r)
  unfolding retain
  retain-Others a type now keep = same
  retain-Others a type now remove = Others-same q ref _ refl refl
  retain-Others a type now (newest count) = keep_newest-Others q type count same
  retain-Others a type now (window age count) =
      keep_newest-Others _ type count (drop_old-Others type age now)

-- A record is set, and then retention is applied.
ended-Others :
    (q : TestQueue) (ref : ℕ) (r : JobRecord) (type : Finished) (now : ℕ)
    → Others q ref (apply_retention (put q ref r) ref type now)
unfolding apply_retention
ended-Others q ref r type now = Others-trans q (put q ref r) ref _ (put-Others q ref r) (
    retain-Others (put q ref r) ref ref type now
      (retention_of type ((put q ref r).records ref).opts))

parked-Others :
    (q : TestQueue) (ref : ℕ) (r : JobRecord) (delay_ms now : ℕ)
    → Others q ref (park_delayed (put q ref r) ref delay_ms now)
parked-Others q ref r delay_ms now =
    Others-trans q (put q ref r) ref _ (put-Others q ref r)
      (park_delayed-Others (put q ref r) ref delay_ms now)

fail_current-Others :
    (w : TestWorker) (q : TestQueue) (ref : ℕ) (f : Failure) (now : ℕ)
    → Others q ref (fail_current w q ref f now)
unfolding fail_current fail_attempt
fail_current-Others w q ref (rate_limited ms) now =
    parked-Others q ref _ (limit_delay ms w.limiter) now
fail_current-Others w q ref (thrown message unrecoverable) now =
    let r = q.records ref in
    let max = max_attempts r.opts unrecoverable in
    if_intro (Others q ref) (ltb 0 max && ltb (suc (r.attempts_made)) max) _ _
      (λ _. parked-Others q ref _ (backoff_delay r.opts.backoff (suc (r.attempts_made))) now)
      (λ _. ended-Others q ref _ on_fail now)

-- The end of a job changes no record but its own.
pub settle-Others :
    (w : TestWorker) (q : TestQueue) (ref : ℕ) (e : Ending) (now : ℕ)
    → Others q ref (settle w q ref e now).1
unfolding settle complete expire handle_failure postpone
settle-Others w q ref returned now =
    if_intro (Others q ref) (is_current q ref) _ _ (λ _. ended-Others q ref _ on_complete now)
      (λ _. same q ref)
settle-Others w q ref expired now = put-Others q ref _
settle-Others w q ref (fails f) now =
    if_intro (Others q ref) (is_current q ref) _ _ (λ _. fail_current-Others w q ref f now)
      (λ _. same q ref)
settle-Others w q ref (postponed delay_ms) now =
    if_intro (Others q ref) (is_current q ref) _ _ (λ _. park_delayed-Others q ref delay_ms now)
      (λ _. same q ref)
