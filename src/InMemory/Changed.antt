-- ===== src/InMemory/Changed.antt =====
-- The changes of single jobs in src/testing.ts (revoke, changePriority, changeDelay, promote, retry, the
-- promotion timer), with the invariant of the queue.
use glide_mq.Common.{
  ℕ, ◌≡◌, refl, ◌∙◌, ap, Bool, true, false, ◌&&◌, ◌||◌, Option, none, some, String, get?, ltb, ◌==◌,
  arith, if_intro, Result, not,
}
use glide_mq.InMemory.Jobs.{
  JobRecord, JobState, waiting, prioritized, active, completed, failed, delayed, suspended,
  waiting_children, is_queued, is_delayed, is_waiting, is_prioritized, is_failed,
}
use glide_mq.InMemory.Store.{
  dequeue_record, enqueue_as, enqueue_waiting, TestQueue, update, put, clear_promotion,
  promotion_due, is_current, is_same, park_delayed, release_delayed,
}
use glide_mq.InMemory.Change.{
  RevokeResult, ChangeError, revoke_record, revoke_found, revoke, retry_record, reprioritized,
  with_priority, set_priority, change_found, change_priority, set_delay, delay_found, change_delay,
  promote_found, promote, retry_found, retry, remove,
}
use glide_mq.InMemory.States.{failed_apart}
use glide_mq.InMemory.Well.{IsWell, Moved-IsWell}
use glide_mq.InMemory.Moves.{
  Prepared-refl, put-Prepared, clear_promotion-Prepared, clear_promotion-no_timer, no_timer,
  queued-Moved, enqueue_waiting-Moved, park_delayed-Moved, settled-Moved, release_delayed-Moved,
}
use glide_mq.InMemory.Kept.{Touched-IsWell, remove_job-IsWell}

-- An assignment that keeps the id and what the state stands for.
pub put-IsWell :
    (q : TestQueue) (ref : ℕ) (r : JobRecord)
    → IsWell q
    → r.id ≡ (q.records ref).id
    → is_queued r.state ≡ is_queued (q.records ref).state
    → is_delayed r.state ≡ is_delayed (q.records ref).state
    → IsWell (put q ref r)
unfolding update
put-IsWell q ref r w i k d = Touched-IsWell q _ w (record {
  next_ref = refl;
  jobs = refl;
  queue = refl;
  timers = refl;
  same_id = λ a. ground arith;
  same_queued = λ a. ground arith;
  same_delayed = λ a. ground arith;
})

-- A job that is looked up by the id of a record is live.
pub live_of_lookup :
    (q : TestQueue) (id : String) (ref : ℕ)
    → IsWell q
    → get? id q.jobs ≡ some ref
    → get? (q.records ref).id q.jobs ≡ some ref
live_of_lookup q id ref w e = ap (λ i. get? i q.jobs) (w.ids id ref e) ∙ e

module _ (q : TestQueue) (w : IsWell q) (ref : ℕ)
    (live : get? (q.records ref).id q.jobs ≡ some ref) where
  pub park_delayed-IsWell : (delay_ms now : ℕ) → IsWell (park_delayed q ref delay_ms now)
  park_delayed-IsWell delay_ms now =
      Moved-IsWell q ref _ w (park_delayed-Moved q w ref live q (Prepared-refl q ref) delay_ms now)
        live

  pub release_delayed-IsWell :
      (to_prioritized : Bool) → IsWell (release_delayed q ref to_prioritized)
  release_delayed-IsWell b = Moved-IsWell q ref _ w (release_delayed-Moved q w ref live b) live

  pub retry_record-IsWell :
      (now : ℕ) → is_delayed (q.records ref).state ≡ false → IsWell (retry_record q ref now)
  unfolding retry_record
  retry_record-IsWell now d =
      Moved-IsWell q ref _ w
        (enqueue_waiting-Moved q w ref live _ (put-Prepared q ref q _ (Prepared-refl q ref) refl)
          (no_timer q w ref live d))
        live

  -- The other jobs stay where they are found.
  pub retry_record-same_live :
      (now : ℕ)
      → is_delayed (q.records ref).state ≡ false
      → (a : ℕ) → get? (q.records a).id q.jobs ≡ some a
      → get? ((retry_record q ref now).records a).id (retry_record q ref now).jobs ≡ some a
  unfolding retry_record enqueue_waiting enqueue_as dequeue_record update
  retry_record-same_live now d a h = ground (arith, h)

  pub revoke_record-IsWell : (now : ℕ) → IsWell (revoke_record q ref now).1
  unfolding revoke_record is_queued is_delayed
  revoke_record-IsWell now =
      if_intro (λ (d : RevokeResult × TestQueue). IsWell d.1)
        (is_queued (q.records ref).state || is_delayed (q.records ref).state) _ _
        (λ _.
          Moved-IsWell q ref _ w
            (settled-Moved q w ref live (clear_promotion q (q.records ref).id)
              (clear_promotion-Prepared q ref) _ refl refl refl
              (clear_promotion-no_timer q (q.records ref).id))
            live)
        (λ _. put-IsWell q ref _ w refl refl refl)

  -- The timer of a delayed job that is still there fires.
  pub promotion_due-IsWell : is_delayed (q.records ref).state ≡ true → IsWell (promotion_due q ref)
  unfolding promotion_due is_current is_same is_queued is_delayed
  promotion_due-IsWell d =
      if_intro IsWell (not (is_current q ref && is_delayed (q.records ref).state)) _ _
        (λ k. absurd (ground (arith, live)))
        (λ _.
          Moved-IsWell q ref _ w
            (queued-Moved q w ref live (clear_promotion q (q.records ref).id)
              (clear_promotion-Prepared q ref) _ refl refl refl
              (clear_promotion-no_timer q (q.records ref).id))
            live)

pub set_delay-IsWell :
    (q : TestQueue) (job new_delay : ℕ) → IsWell q → IsWell (set_delay q job new_delay)
unfolding set_delay
set_delay-IsWell q job new_delay w = put-IsWell q job _ w refl refl refl

reprioritized-same :
    (s : JobState) (p : ℕ)
    → (is_queued (reprioritized s p) ≡ is_queued s)
      × (is_delayed (reprioritized s p) ≡ is_delayed s)
unfolding reprioritized is_queued is_delayed is_waiting is_prioritized
reprioritized-same waiting p = ground arith
reprioritized-same prioritized p = ground arith
reprioritized-same active p = ground arith
reprioritized-same completed p = ground arith
reprioritized-same failed p = ground arith
reprioritized-same delayed p = ground arith
reprioritized-same suspended p = ground arith
reprioritized-same waiting_children p = ground arith

pub set_priority-IsWell :
    (q : TestQueue) (job current p : ℕ) → IsWell q → IsWell (set_priority q job current p)
unfolding set_priority with_priority
set_priority-IsWell q job current p w =
    let (a, b) = reprioritized-same (q.records current).state p in
    put-IsWell _ job _ (put-IsWell q current _ w refl a b) refl refl refl

abbrev Kept : Result ChangeError (Unit {0}) × TestQueue → Type 0
Kept r = IsWell r.1

-- The methods that look a job up by its id.
pub revoke-IsWell : (q : TestQueue) (id : String) (now : ℕ) → IsWell q → IsWell (revoke q id now).1
unfolding revoke revoke_found
revoke-IsWell q id now w = by_lookup (get? id q.jobs) refl
  where
    by_lookup : (o : Option ℕ) → get? id q.jobs ≡ o → IsWell (revoke_found q now o).1
    by_lookup none e = w
    by_lookup (some ref) e = revoke_record-IsWell q w ref (live_of_lookup q id ref w e) now

pub change_priority-IsWell :
    (q : TestQueue) (job p : ℕ) → IsWell q → IsWell (change_priority q job p).1
unfolding change_priority change_found
change_priority-IsWell q job p w =
    if_intro Kept (ltb 2048 p) _ _ (λ _. w) (λ _. by_lookup (get? (q.records job).id q.jobs))
  where
    by_lookup : (o : Option ℕ) → Kept (change_found q job p o)
    by_lookup none = w
    by_lookup (some c) =
        if_intro Kept
          (is_waiting (q.records c).state && (p == 0) && ((q.records c).opts.priority == 0)) _ _
          (λ _. w)
          (λ _.
            if_intro Kept (is_queued (q.records c).state || is_delayed (q.records c).state) _ _
              (λ _. set_priority-IsWell q job c p w) (λ _. w))

pub change_delay-IsWell :
    (q : TestQueue) (job d now : ℕ) → IsWell q → IsWell (change_delay q job d now).1
unfolding change_delay delay_found
change_delay-IsWell q job d now w = by_lookup (get? (q.records job).id q.jobs) refl
  where
    by_lookup :
        (o : Option ℕ) → get? (q.records job).id q.jobs ≡ o → Kept (delay_found q job d now o)
    by_lookup none e = w
    by_lookup (some c) e =
        let live = live_of_lookup q (q.records job).id c w e in
        if_intro Kept (is_delayed (q.records c).state) _ _
          (λ _. set_delay-IsWell _ job d (
            if_intro IsWell (d == 0) _ _
              (λ _. release_delayed-IsWell q w c live (ltb 0 (q.records c).opts.priority))
              (λ _. park_delayed-IsWell q w c live d now)))
          (λ _.
            if_intro Kept (is_queued (q.records c).state) _ _
              (λ _.
                if_intro IsWell (d == 0) _ _ (λ _. w)
                  (λ _. set_delay-IsWell _ job d (park_delayed-IsWell q w c live d now)))
              (λ _. w))

pub promote-IsWell : (q : TestQueue) (job : ℕ) → IsWell q → IsWell (promote q job).1
unfolding promote promote_found
promote-IsWell q job w = by_lookup (get? (q.records job).id q.jobs) refl
  where
    by_lookup : (o : Option ℕ) → get? (q.records job).id q.jobs ≡ o → Kept (promote_found q job o)
    by_lookup none e = w
    by_lookup (some c) e =
        if_intro Kept (is_delayed (q.records c).state) _ _
          (λ _.
            set_delay-IsWell _ job 0
              (release_delayed-IsWell q w c (live_of_lookup q (q.records job).id c w e) false))
          (λ _. w)

pub retry-IsWell : (q : TestQueue) (job now : ℕ) → IsWell q → IsWell (retry q job now).1
unfolding retry retry_found
retry-IsWell q job now w = by_lookup (get? (q.records job).id q.jobs) refl
  where
    by_lookup : (o : Option ℕ) → get? (q.records job).id q.jobs ≡ o → Kept (retry_found q now o)
    by_lookup none e = w
    by_lookup (some c) e =
        if_intro Kept (is_failed (q.records c).state) _ _
          (λ f.
            retry_record-IsWell q w c (live_of_lookup q (q.records job).id c w e) now
              (failed_apart (q.records c).state f).1)
          (λ _. w)

pub remove-IsWell : (q : TestQueue) (job : ℕ) → IsWell q → IsWell (remove q job)
unfolding remove
remove-IsWell q job w = remove_job-IsWell q (q.records job).id w
