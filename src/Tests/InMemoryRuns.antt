-- ===== src/Tests/InMemoryRuns.antt =====
-- Runs of the in-memory queue and worker of src/testing.ts and of the checks of job options.
use glide_mq.Common.{
  All, text_dec, Map, suc, not, ltb, ◌&&◌, ℕ, ◌<◌, ◌≤◌, ◌≡◌, refl, true, false, [], ◌∷◌, none, take,
  ◌+◌, ◌++◌, ◌⊎◌, err, some, get?, if◌then◌else◌, arith, ok, length,
}
use glide_mq.Options.{JobOptions, Payload, keep, remove, validate_job_options, job_id_invalid}
use glide_mq.Options.Bounds.{Verdict, IsAllowed, validate_job_options-IsAllowed}
use glide_mq.InMemory.Jobs.{JobRecord, is_queued, is_delayed, is_active}
use glide_mq.InMemory.Store.{promote_prioritized}
use glide_mq.InMemory.Add.{new_record}
use glide_mq.InMemory.Dispatch.{waiting_in_dispatch_order}
use glide_mq.InMemory.Worker.{RateLimiter, TestWorker, acquire_rate_slot, claim}
use glide_mq.InMemory.Ends.{thrown, handle_failure}
use glide_mq.InMemory.Keys.{occurs}
use glide_mq.InMemory.First.{head}
use glide_mq.InMemory.System.{
  System, Reach, here, step, Entry, adds, fails, apply, client, dispatch, finish, start, new_queue,
  new_worker, settle, with_claim, with_end,
}
use glide_mq.InMemory.Reachable.{IsSound, Reach-IsSound}
use glide_mq.InMemory.Held.{start-IsSound, Reach-held, Reach-runs}
use glide_mq.InMemory.Store.{is_current}
use glide_mq.InMemory.Jobs.{delayed, failed}
use glide_mq.InMemory.Add.{free_id}
use glide_mq.InMemory.Bulk.{drain, is_drain_complete}
use glide_mq.InMemory.Numerals.{Generated, free_id-Generated}
use glide_mq.InMemory.Emptied.{drain-is_drain_complete}
use glide_mq.InMemory.Window.{grants, from_on, grants-take}
use glide_mq.InMemory.Retried.{handle_failure-attempts}
use glide_mq.InMemory.Jobs.{is_failed}
use glide_mq.InMemory.Bulk.{retry_jobs, count_where, refs_of}
use glide_mq.InMemory.Pages.{delayed_jobs, get_jobs}
use glide_mq.InMemory.Typed.{HasType, get_jobs-HasType}
use glide_mq.InMemory.Revived.{Outcome, retry_jobs-StartsAnew}
use glide_mq.InMemory.Ordered.{claim-first, claim-found}

abbrev plain : JobOptions
plain = record {
  job_id = "";
  delay = 0;
  priority = 0;
  lifo = false;
  ordering_key = "";
  token_bucket = none;
  attempts = 2;
  backoff = none;
  lock_duration = some 30000;
  remove_on_complete = remove;
  remove_on_fail = keep;
  deduplication = none;
  ttl = 0;
  fallbacks = 0;
}

abbrev data_text : Payload
data_text = record { text = "{}"; byte_length = 2 }

abbrev store : ℕ → JobRecord
store ref = new_record "" data_text plain "" 0

abbrev mail : Entry
mail = record { name = "mail"; payload = data_text; opts = plain }

abbrev urgent_mail : Entry
urgent_mail = record { name = "mail"; payload = data_text; opts = record plain { priority = 3 } }

-- Two jobs are added, one is claimed and fails once.
abbrev s0 : System
s0 = start store true 1 none

abbrev s1 : System
s1 = record s0 { queue = apply (adds mail) s0.queue 5 }

abbrev s2 : System
s2 = record s1 { queue = apply (adds urgent_mail) s1.queue 6 }

abbrev s3 : System
s3 = with_claim s2.running (claim s2.worker s2.queue 7)

two_added : Reach s0 s2
two_added = step (step here (client s0 (adds mail) 5)) (client s1 (adds urgent_mail) 6)

one_claimed : Reach s0 s3
one_claimed = step two_added (dispatch s2 7)

both_queued : s2.queue.waiting_queue ≡ 0 ∷ 1 ∷ []
unfolding apply new_queue
both_queued = refl

urgent_runs : s3.running ≡ 1 ∷ []
unfolding apply new_queue new_worker claim with_claim
urgent_runs = refl

second_live : get? "2" s2.queue.jobs ≡ some 1
unfolding apply new_queue get?
second_live = refl

one_runs : 0 < occurs 1 s3.running
unfolding apply new_queue new_worker claim with_claim occurs
one_runs = omega arith

abbrev s4 : System
s4 = with_end s3.running 1 (settle s3.worker s3.queue 1 (fails (thrown "no" false)) 8)

one_failed : Reach s0 s4
one_failed = step one_claimed (finish s3 1 (fails (thrown "no" false)) 8 one_runs)

Reach-IsSound_example : IsSound s4
Reach-IsSound_example = Reach-IsSound one_failed (start-IsSound store true 1 none)

Reach-held_example :
    (occurs 1 s2.queue.waiting_queue ≡ (if is_queued (s2.queue.records 1).state then 1 else 0))
    × (get? "2" s2.queue.promotion_timers
        ≡ (if is_delayed (s2.queue.records 1).state then some 1 else none))
Reach-held_example = Reach-held store true 1 none s2 "2" 1 two_added second_live

Reach-runs_example :
    All (λ a. is_active (s3.queue.records a).state ≡ true) s3.running
    × ((a : ℕ) → occurs a s3.running ≤ 1)
    × (s3.worker.active_count ≡ length s3.running)
    × (length s3.running ≤ s3.worker.concurrency)
Reach-runs_example = Reach-runs store true 1 none s3 one_claimed

free_slot : (acquire_rate_slot s2.worker 7).0 ≡ 0
unfolding acquire_rate_slot new_worker
free_slot = refl

ready_worker :
    (s2.worker.running ≡ true)
    × (s2.queue.paused ≡ false)
    × (s2.worker.paused ≡ false)
    × (s2.worker.active_count < s2.worker.concurrency)
unfolding apply new_queue new_worker
ready_worker = (refl, refl, refl, omega arith)

claim-first_example :
    (claim s2.worker s2.queue 7).0 ≡ head (waiting_in_dispatch_order (promote_prioritized s2.queue))
claim-first_example =
    claim-first s2.worker s2.queue 7
      (Reach-IsSound two_added (start-IsSound store true 1 none)).well ready_worker.0 ready_worker.1
      ready_worker.2 ready_worker.3 free_slot

second_queued : is_queued (s2.queue.records 1).state ≡ true
unfolding apply new_queue is_queued
second_queued = refl

claim-found_example : (a : ℕ) × ((claim s2.worker s2.queue 7).0 ≡ some a)
claim-found_example =
    claim-found s2.worker s2.queue 7 "2" 1
      (Reach-IsSound two_added (start-IsSound store true 1 none)).well ready_worker.0 ready_worker.1
      ready_worker.2 ready_worker.3 free_slot second_live second_queued

validate_job_options-IsAllowed_example : Verdict (validate_job_options plain) (IsAllowed plain)
validate_job_options-IsAllowed_example = validate_job_options-IsAllowed plain

plain_accepted : validate_job_options plain ≡ ok tt
unfolding validate_job_options
plain_accepted = refl

-- A colon in the id of a job.
colon_refused : validate_job_options (record plain { job_id = "a:b" }) ≡ err job_id_invalid
unfolding validate_job_options
colon_refused = refl

drain-is_drain_complete_example : is_drain_complete (drain s4.queue true) ≡ true
drain-is_drain_complete_example =
    drain-is_drain_complete s4.queue
      (Reach-IsSound one_failed (start-IsSound store true 1 none)).well

second_current : is_current s3.queue 1 ≡ true
unfolding apply new_queue new_worker claim with_claim is_current
second_current = refl

handle_failure-attempts_example :
    (((handle_failure s3.worker s3.queue 1 (thrown "no" false) 8).1.records 1).attempts_made
      ≡ suc (s3.queue.records 1).attempts_made)
    × (((handle_failure s3.worker s3.queue 1 (thrown "no" false) 8).1.records 1).state ≡ (
        if not false
          && ltb (suc (s3.queue.records 1).attempts_made) (s3.queue.records 1).opts.attempts
        then delayed
        else failed))
handle_failure-attempts_example =
    handle_failure-attempts s3.queue 1 s3.worker "no" false 8 second_current

abbrev two_a_second : RateLimiter
two_a_second = record { max = 2; duration = 1000 }

abbrev limited : TestWorker
limited = record (new_worker 1 (some two_a_second)) {
  rate_window_start = 5000;
  rate_window_count = 2;
}

full_window : (acquire_rate_slot limited 5300).0 ≡ 700
unfolding acquire_rate_slot new_worker
full_window = refl

abbrev full : TestWorker
full = record limited { rate_limit_until = 6100 }

full_limiter : full.limiter ≡ some two_a_second
unfolding new_worker
full_limiter = refl

window_over : full.rate_window_start + two_a_second.duration ≤ 6000
unfolding new_worker
window_over = omega arith

-- The window of 5000 is over; the manual limit ends at 6100, and two dispatches are allowed.
grants-take_example :
    grants full (6050 ∷ 6200 ∷ 6300 ∷ 6400 ∷ [])
    ≡ take two_a_second.max (from_on full.rate_limit_until (6050 ∷ 6200 ∷ 6300 ∷ 6400 ∷ []))
grants-take_example =
    grants-take full two_a_second 6000 (6050 ∷ 6200 ∷ 6300 ∷ 6400 ∷ []) full_limiter (omega arith)
      window_over
      (
        (omega arith, omega arith),
        (
          (omega arith, omega arith),
          ((omega arith, omega arith), ((omega arith, omega arith), tt)),
        ),
      )

two_granted : grants full (6050 ∷ 6200 ∷ 6300 ∷ 6400 ∷ []) ≡ 6200 ∷ 6300 ∷ []
unfolding grants new_worker
two_granted = refl

abbrev one_taken : Map ℕ
one_taken = ("1", 0) ∷ []

second_id : (free_id one_taken 1000 0).0 ≡ some "2"
unfolding free_id text_dec
second_id = refl

free_id-Generated_example : Generated one_taken 1000 0 (free_id one_taken 1000 0)
free_id-Generated_example = free_id-Generated one_taken 1000 0

get_jobs-HasType_example :
    (HasType (s2.queue.records 1).state delayed_jobs
      × (occurs 1
            (get_jobs s2.queue delayed_jobs 0 (some 0) ++ get_jobs s2.queue delayed_jobs 1 none)
          ≡ 1))
    ⊎ ((¬ HasType (s2.queue.records 1).state delayed_jobs)
        × (occurs 1
              (get_jobs s2.queue delayed_jobs 0 (some 0) ++ get_jobs s2.queue delayed_jobs 1 none)
            ≡ 0))
get_jobs-HasType_example =
    get_jobs-HasType s2.queue delayed_jobs 0 "2" 1
      (Reach-IsSound two_added (start-IsSound store true 1 none)).well second_live

-- The job that runs fails for good.
abbrev s5 : System
s5 = with_end s3.running 1 (settle s3.worker s3.queue 1 (fails (thrown "no" true)) 8)

one_lost : Reach s0 s5
one_lost = step one_claimed (finish s3 1 (fails (thrown "no" true)) 8 one_runs)

failed_live : get? "2" s5.queue.jobs ≡ some 1
unfolding apply new_queue new_worker claim with_claim with_end settle get?
failed_live = refl

one_retried : (retry_jobs s5.queue 0 9).0 ≡ 1
unfolding apply new_queue new_worker claim with_claim with_end settle retry_jobs
one_retried = refl

retry_jobs-StartsAnew_example :
    ((retry_jobs s5.queue 0 9).0
      ≡ count_where (λ r. is_failed r.state) s5.queue.records (refs_of s5.queue.jobs))
    × ((retry_jobs s5.queue 0 9).1.jobs ≡ s5.queue.jobs)
    × Outcome s5.queue (retry_jobs s5.queue 0 9).1 9 1
retry_jobs-StartsAnew_example =
    retry_jobs-StartsAnew s5.queue 9 "2" 1
      (Reach-IsSound one_lost (start-IsSound store true 1 none)).well failed_live
