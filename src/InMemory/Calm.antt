-- ===== src/InMemory/Calm.antt =====
-- The methods of TestQueue and TestJob in src/testing.ts and the jobs that are active.
use glide_mq.Common.{
  ℕ, suc, ◌≡◌, refl, String, true, false, ◌&&◌, ◌||◌, not, List, [], ◌∷◌, Option, none, some, get?,
  ltb, leb, ◌==◌, arith, if_intro, Result,
}
use glide_mq.InMemory.Jobs.{
  JobRecord, JobState, waiting, prioritized, active, completed, failed, delayed, suspended,
  waiting_children, is_queued, is_delayed, is_active, is_failed, is_waiting, is_prioritized,
}
use glide_mq.InMemory.Store.{
  TestQueue, update, put, dequeue_record, enqueue_waiting, clear_promotion, promotion_due,
  is_current,
}
use glide_mq.InMemory.Change.{
  RevokeResult, ChangeError, revoke_record, revoke_found, revoke, retry_record, reprioritized,
  with_priority, set_priority, change_found, change_priority, set_delay, delay_found, change_delay,
  promote_found, promote, retry_found, retry,
}
use glide_mq.InMemory.Add.{remove_record, remove_found, remove_job}
use glide_mq.InMemory.Bulk.{retry_loop}
use glide_mq.InMemory.Steady.{
  Steady, Steady-same, Steady-trans, Others, Others-Steady, Others-inactive, Others-trans,
  put-Others, enqueue_as-Others, park_delayed-Others, release_delayed-Others,
}
use glide_mq.InMemory.States.{held_inactive, failed_inactive}

module _ (q : TestQueue) (ref : ℕ) where
  pub retry_record-Steady :
      (now : ℕ) → is_active (q.records ref).state ≡ false → Steady q (retry_record q ref now)
  unfolding retry_record enqueue_waiting
  retry_record-Steady now f =
      Others-inactive q ref _
        (Others-trans q _ ref _ (put-Others q ref _) (enqueue_as-Others _ ref waiting)) f

  set_field : (r : JobRecord) → r.state ≡ (q.records ref).state → Steady q (put q ref r)
  unfolding update
  set_field r e = Others-Steady q ref _ (put-Others q ref r) (λ h. ground arith)

  pub set_delay-Steady : (d : ℕ) → Steady q (set_delay q ref d)
  unfolding set_delay
  set_delay-Steady d = set_field _ refl

  pub revoke_record-Steady : (now : ℕ) → Steady q (revoke_record q ref now).1
  unfolding revoke_record clear_promotion dequeue_record
  revoke_record-Steady now =
      if_intro (λ (d : RevokeResult × TestQueue). Steady q d.1)
        (is_queued (q.records ref).state || is_delayed (q.records ref).state) _ _
        (λ h.
          Others-inactive q ref _ (record { next_ref = refl; others = (put-Others q ref _).others })
            (held_inactive (q.records ref).state h))
        (λ _. set_field _ refl)

  pub promotion_due-Steady :
      is_delayed (q.records ref).state ≡ true → Steady q (promotion_due q ref)
  unfolding promotion_due clear_promotion dequeue_record
  promotion_due-Steady d =
      if_intro (Steady q) (not (is_current q ref && is_delayed (q.records ref).state)) _ _
        (λ _. Steady-same q _ refl refl)
        (λ _.
          Others-inactive q ref _ (record { next_ref = refl; others = (put-Others q ref _).others })
            (held_inactive (q.records ref).state (ground arith)))

abbrev Calm : TestQueue → Result ChangeError (Unit {0}) × TestQueue → Type 0
Calm q d = Steady q d.1

calm : (q : TestQueue) → Steady q q
calm q = Steady-same q q refl refl

pub revoke-Steady : (q : TestQueue) (id : String) (now : ℕ) → Steady q (revoke q id now).1
unfolding revoke revoke_found
revoke-Steady q id now = by_lookup (get? id q.jobs)
  where
    by_lookup : (o : Option ℕ) → Steady q (revoke_found q now o).1
    by_lookup none = calm q
    by_lookup (some ref) = revoke_record-Steady q ref now

reprioritized_active :
    (s : JobState) (p : ℕ) → is_active s ≡ true → is_active (reprioritized s p) ≡ true
unfolding reprioritized is_active is_waiting is_prioritized
reprioritized_active active p h = refl
reprioritized_active waiting p h = absurd (ground (arith, h))
reprioritized_active prioritized p h = absurd (ground (arith, h))
reprioritized_active completed p h = absurd (ground (arith, h))
reprioritized_active failed p h = absurd (ground (arith, h))
reprioritized_active delayed p h = absurd (ground (arith, h))
reprioritized_active suspended p h = absurd (ground (arith, h))
reprioritized_active waiting_children p h = absurd (ground (arith, h))

set_priority-Steady : (q : TestQueue) (job c p : ℕ) → Steady q (set_priority q job c p)
unfolding set_priority with_priority update
set_priority-Steady q job c p =
    let r = record (q.records c) { state = reprioritized (q.records c).state p } in
    Steady-trans q (put q c r) _
      (Others-Steady q c _ (put-Others q c r)
        (λ h. ground (arith, reprioritized_active (q.records c).state p h)))
      (set_field (put q c r) job _ refl)

pub change_priority-Steady : (q : TestQueue) (job p : ℕ) → Steady q (change_priority q job p).1
unfolding change_priority change_found
change_priority-Steady q job p =
    if_intro (Calm q) (ltb 2048 p) _ _ (λ _. calm q)
      (λ _. by_lookup (get? (q.records job).id q.jobs))
  where
    by_lookup : (o : Option ℕ) → Calm q (change_found q job p o)
    by_lookup none = calm q
    by_lookup (some c) =
        if_intro (Calm q)
          (is_waiting (q.records c).state && (p == 0) && ((q.records c).opts.priority == 0)) _ _
          (λ _. calm q)
          (λ _.
            if_intro (Calm q) (is_queued (q.records c).state || is_delayed (q.records c).state) _ _
              (λ _. set_priority-Steady q job c p) (λ _. calm q))

-- A job that the queue holds moves, and then a field is set.
moved_then_set :
    (q : TestQueue) (c job d : ℕ) (p : TestQueue)
    → Others q c p
    → (is_queued (q.records c).state || is_delayed (q.records c).state) ≡ true
    → Steady q (set_delay p job d)
moved_then_set q c job d p o h =
    Steady-trans q p _ (Others-inactive q c p o (held_inactive (q.records c).state h))
      (set_delay-Steady p job d)

pub change_delay-Steady : (q : TestQueue) (job d now : ℕ) → Steady q (change_delay q job d now).1
unfolding change_delay delay_found
change_delay-Steady q job d now = by_lookup (get? (q.records job).id q.jobs)
  where
    by_lookup : (o : Option ℕ) → Calm q (delay_found q job d now o)
    by_lookup none = calm q
    by_lookup (some c) =
        if_intro (Calm q) (is_delayed (q.records c).state) _ _
          (λ h.
            moved_then_set q c job d _
              (if_intro (Others q c) (d == 0) _ _
                (λ _. release_delayed-Others q c (ltb 0 (q.records c).opts.priority))
                (λ _. park_delayed-Others q c d now))
              (ground (arith, h)))
          (λ _.
            if_intro (Calm q) (is_queued (q.records c).state) _ _
              (λ h.
                if_intro (Steady q) (d == 0) _ _ (λ _. calm q)
                  (λ _.
                    moved_then_set q c job d _ (park_delayed-Others q c d now) (ground (arith, h))))
              (λ _. calm q))

pub promote-Steady : (q : TestQueue) (job : ℕ) → Steady q (promote q job).1
unfolding promote promote_found
promote-Steady q job = by_lookup (get? (q.records job).id q.jobs)
  where
    by_lookup : (o : Option ℕ) → Calm q (promote_found q job o)
    by_lookup none = calm q
    by_lookup (some c) =
        if_intro (Calm q) (is_delayed (q.records c).state) _ _
          (λ h. moved_then_set q c job 0 _ (release_delayed-Others q c false) (ground (arith, h)))
          (λ _. calm q)

pub retry-Steady : (q : TestQueue) (job now : ℕ) → Steady q (retry q job now).1
unfolding retry retry_found
retry-Steady q job now = by_lookup (get? (q.records job).id q.jobs)
  where
    by_lookup : (o : Option ℕ) → Calm q (retry_found q now o)
    by_lookup none = calm q
    by_lookup (some c) =
        if_intro (Calm q) (is_failed (q.records c).state) _ _
          (λ h. retry_record-Steady q c now (failed_inactive (q.records c).state h)) (λ _. calm q)

pub retry_loop-Steady :
    (limit now : ℕ) (refs : List ℕ) (q : TestQueue) (retried : ℕ)
    → Steady q (retry_loop limit now refs q retried).1
unfolding retry_loop
retry_loop-Steady limit now [] q retried = calm q
retry_loop-Steady limit now (ref ∷ refs) q retried =
    if_intro (λ (d : ℕ × TestQueue). Steady q d.1) (ltb 0 limit && leb limit retried) _ _
      (λ _. calm q)
      (λ _.
        if_intro (λ (d : ℕ × TestQueue). Steady q d.1) (is_failed (q.records ref).state) _ _
          (λ k.
            Steady-trans q _ _
              (retry_record-Steady q ref now (failed_inactive (q.records ref).state k))
              (retry_loop-Steady limit now refs (retry_record q ref now) (suc retried)))
          (λ _. retry_loop-Steady limit now refs q retried))

pub remove_job-Steady : (q : TestQueue) (id : String) → Steady q (remove_job q id).1
unfolding remove_job remove_found remove_record dequeue_record clear_promotion
remove_job-Steady q id = by_lookup (get? id q.jobs)
  where
    by_lookup : (o : Option ℕ) → Steady q (remove_found q id o).1
    by_lookup none = calm q
    by_lookup (some c) = Steady-same q _ refl refl
