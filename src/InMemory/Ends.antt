-- ===== src/InMemory/Ends.antt =====
-- How a job of a worker ends in src/testing.ts: the completion, the expiry and the move to a later time in
-- processJob, and handleFailure. A processor is outside code: how it ends is an argument.
use glide_mq.Common.{
  ℕ, zero, suc, ◌+◌, ◌-◌, ◌*◌, ◌^◌, ◌/◌, String, text_dec, ite, Bool, ◌&&◌, Option, none, some, ltb,
  ◌==◌, if◌then◌else◌,
}
use glide_mq.Options.{JobOptions, Backoff}
use glide_mq.InMemory.Jobs.{completed, failed}
use glide_mq.InMemory.Store.{TestQueue, update, put, is_current, park_delayed}
use glide_mq.InMemory.Bulk.{on_complete, on_fail}
use glide_mq.InMemory.Worker.{TestWorker, RateLimiter}
use glide_mq.InMemory.Retention.{apply_retention}

-- The processor returned.
unfoldable pub complete : TestQueue → ℕ → ℕ → TestQueue
unfolding is_current update apply_retention
complete q ref now =
    if is_current q ref
    then apply_retention
        (put q ref (record (q.records ref) { state = completed; finished_on = some now })) ref
        on_complete now
    else q

-- A job past its time to live fails without running. The test of its time is left open: the steps of
-- the system let any running job end this way.
unfoldable pub expire : TestQueue → ℕ → ℕ → TestQueue
unfolding update
expire q ref now = put q ref (record (q.records ref) {
  state = failed;
  failed_reason = some "expired";
  finished_on = some now;
})

-- How a processor failed: a rate limit with its own delay in milliseconds, or 0, and an error with its
-- message that may forbid a retry.
pub data Failure : Type 0 where
  rate_limited : (delay_ms : ℕ) → Failure
  thrown : (message : String) (unrecoverable : Bool) → Failure

-- `calculateBackoff` without jitter; the first attempt counts as 1.
unfoldable pub calculate_backoff : Backoff → ℕ → ℕ
unfolding text_dec
calculate_backoff b attempts_made =
    ite (text_dec b.type "exponential")
      (if attempts_made == 0 then (b.delay + 1) / 2 else 2 ^ (attempts_made - 1) * b.delay) b.delay

unfoldable pub backoff_delay : Option Backoff → ℕ → ℕ
unfolding calculate_backoff
backoff_delay none attempts_made = 0
backoff_delay (some b) attempts_made = calculate_backoff b attempts_made

unfoldable pub limit_delay : ℕ → Option RateLimiter → ℕ
limit_delay zero none = 1000
limit_delay zero (some l) = if l.duration == 0 then 1000 else l.duration
limit_delay (suc ms) limiter = suc ms

unfoldable pub max_attempts : JobOptions → Bool → ℕ
max_attempts opts skip_retry = if skip_retry then 0 else opts.attempts

-- The failed attempt is counted first.
unfoldable pub fail_attempt : TestQueue → ℕ → String → Bool → ℕ → TestQueue
unfolding update max_attempts backoff_delay park_delayed apply_retention
fail_attempt q ref message skip_retry now =
    let attempts = suc ((q.records ref).attempts_made) in
    let r = record (q.records ref) { attempts_made = attempts; failed_reason = some message } in
    let max = max_attempts r.opts skip_retry in
    if ltb 0 max && ltb attempts max
    then park_delayed
        (put q ref (record r {
          fallback_index =
              if ltb 0 r.opts.fallbacks then suc (r.fallback_index) else r.fallback_index;
          processed_on = some now;
        }))
        ref (backoff_delay r.opts.backoff attempts) now
    else apply_retention (put q ref (record r { state = failed; finished_on = some now })) ref
        on_fail now

unfoldable pub fail_current : TestWorker → TestQueue → ℕ → Failure → ℕ → TestQueue
unfolding limit_delay update park_delayed fail_attempt
fail_current w q ref (rate_limited ms) now =
    park_delayed
      (put q ref
        (record (q.records ref) { failed_reason = some "rate limited"; processed_on = some now }))
      ref (limit_delay ms w.limiter) now
fail_current w q ref (thrown message unrecoverable) now =
    fail_attempt q ref message unrecoverable now

unfoldable pub hold_dispatch : TestWorker → Failure → ℕ → TestWorker
unfolding limit_delay
hold_dispatch w (rate_limited ms) now = record w {
  rate_limit_until = now + limit_delay ms w.limiter;
}
hold_dispatch w (thrown message unrecoverable) now = w

unfoldable pub handle_failure : TestWorker → TestQueue → ℕ → Failure → ℕ → TestWorker × TestQueue
unfolding hold_dispatch is_current fail_current
handle_failure w q ref failure now =
    (hold_dispatch w failure now, if is_current q ref then fail_current w q ref failure now else q)

-- A processor that moved its job to a later time.
unfoldable pub postpone : TestQueue → ℕ → ℕ → ℕ → TestQueue
unfolding is_current park_delayed
postpone q ref delay_ms now = if is_current q ref then park_delayed q ref delay_ms now else q
