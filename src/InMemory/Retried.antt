-- ===== src/InMemory/Retried.antt =====
-- The attempts of a job in handleFailure of src/testing.ts.
use glide_mq.Common.{
  ℕ, suc, ◌≡◌, refl, sym, ◌∙◌, ap, String, Bool, true, false, ◌&&◌, not, ltb, ◌==◌, if◌then◌else◌,
  if_intro, arith, length,
}
use glide_mq.Options.{JobOptions, Retention, keep, remove, newest, window}
use glide_mq.InMemory.Jobs.{JobRecord, delayed, failed}
use glide_mq.InMemory.Store.{
  TestQueue, update, put, is_current, dequeue_record, schedule_promotion, park_delayed,
}
use glide_mq.InMemory.Bulk.{Finished, on_fail}
use glide_mq.InMemory.Retention.{
  in_state, delete_refs, drop_old, keep_newest, retain, retention_of, apply_retention,
}
use glide_mq.InMemory.Worker.{TestWorker}
use glide_mq.InMemory.Ends.{
  thrown, backoff_delay, max_attempts, fail_attempt, fail_current, handle_failure,
}

keep_newest-records :
    (q : TestQueue) (type : Finished) (count : ℕ) → (keep_newest q type count).records ≡ q.records
unfolding keep_newest delete_refs
keep_newest-records q type count =
    if_intro (λ (p : TestQueue). p.records ≡ q.records)
      (ltb 0 count && ltb count (length (in_state q type))) _ _ (λ _. refl) (λ _. refl)

retain-records :
    (q : TestQueue) (ref : ℕ) (type : Finished) (now : ℕ) (r : Retention)
    → (retain q ref type now r).records ≡ q.records
unfolding retain drop_old delete_refs
retain-records q ref type now keep = refl
retain-records q ref type now remove = refl
retain-records q ref type now (newest count) = keep_newest-records q type count
retain-records q ref type now (window age count) =
    keep_newest-records (drop_old q type age now) type count
    ∙ if_intro (λ (p : TestQueue). p.records ≡ q.records) (age == 0) _ _ (λ _. refl) (λ _. refl)

same_test :
    (opts : JobOptions) (unrecoverable : Bool) (n : ℕ)
    → (ltb 0 (max_attempts opts unrecoverable) && ltb (suc n) (max_attempts opts unrecoverable))
      ≡ (not unrecoverable && ltb (suc n) opts.attempts)
unfolding max_attempts
same_test opts true n = refl
same_test opts false n = ground arith

module _ (q : TestQueue) (ref : ℕ) where
  -- One attempt more, and the state of the job after it.
  abbrev Counted : Bool → TestQueue → Type 0
  Counted again p =
      ((p.records ref).attempts_made ≡ suc (q.records ref).attempts_made)
      × ((p.records ref).state ≡ (if again then delayed else failed))

  parked-Counted :
      (again : Bool) (r : JobRecord) (delay_ms now : ℕ)
      → again ≡ true
      → r.attempts_made ≡ suc (q.records ref).attempts_made
      → Counted again (park_delayed (put q ref r) ref delay_ms now)
  unfolding park_delayed schedule_promotion dequeue_record update
  parked-Counted again r delay_ms now a e = (ground arith, ground arith)

  ended-Counted :
      (again : Bool) (r : JobRecord) (now : ℕ)
      → again ≡ false
      → r.attempts_made ≡ suc (q.records ref).attempts_made
      → r.state ≡ failed
      → Counted again (apply_retention (put q ref r) ref on_fail now)
  unfolding apply_retention update
  ended-Counted again r now a e s =
      let same =
        ap (λ (f : ℕ → JobRecord). f ref)
          (retain-records (put q ref r) ref on_fail now
            (retention_of on_fail ((put q ref r).records ref).opts)) in
      (ap (λ r. r.attempts_made) same ∙ ground arith, ap (λ r. r.state) same ∙ ground arith)

  -- A failed attempt of a job that is still in the queue is counted. The job is parked for another attempt
  -- when the error allows one and fewer attempts than its limit were made, and fails for good otherwise.
  pub handle_failure-attempts :
      (w : TestWorker) (message : String) (unrecoverable : Bool) (now : ℕ)
      → is_current q ref ≡ true
      → (((handle_failure w q ref (thrown message unrecoverable) now).1.records ref).attempts_made
          ≡ suc (q.records ref).attempts_made)
        × (((handle_failure w q ref (thrown message unrecoverable) now).1.records ref).state ≡ (
            if not unrecoverable
              && ltb (suc (q.records ref).attempts_made) (q.records ref).opts.attempts
            then delayed
            else failed))
  unfolding handle_failure fail_current fail_attempt
  handle_failure-attempts w message unrecoverable now c =
      if_intro (Counted again) (is_current q ref) _ _
        (λ _.
          if_intro (Counted again) (ltb 0 max && ltb (suc (q.records ref).attempts_made) max) _ _
            (λ h.
              parked-Counted again _
                (backoff_delay (q.records ref).opts.backoff (suc (q.records ref).attempts_made)) now
                (sym (same_test (q.records ref).opts unrecoverable (q.records ref).attempts_made)
                  ∙ h)
                refl)
            (λ h.
              ended-Counted again _ now
                (sym (same_test (q.records ref).opts unrecoverable (q.records ref).attempts_made)
                  ∙ h)
                refl refl))
        (λ n. absurd (ground (arith, n)))
    where
      max : ℕ
      max = max_attempts (q.records ref).opts unrecoverable

      again : Bool
      again =
          not unrecoverable && ltb (suc (q.records ref).attempts_made) (q.records ref).opts.attempts
