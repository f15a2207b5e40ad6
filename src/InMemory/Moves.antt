-- ===== src/InMemory/Moves.antt =====
-- The moves of one job in the in-memory queue of src/testing.ts, between the dispatch queue, the delayed
-- jobs and the rest.
use glide_mq.Common.{
  ℕ, ◌<◌, ◌≡◌, ◌≢◌, refl, ap, String, Bool, true, false, List, [], ◌∷◌, ◌++◌, none, some, get?,
  get?-set, arith, Option-cases, inl, inr,
}
use glide_mq.InMemory.Jobs.{JobRecord, JobState, waiting, prioritized, is_queued, is_delayed}
use glide_mq.InMemory.Store.{
  TestQueue, delete, update, put, without_id, dequeue_record, enqueue_as, enqueue_waiting,
  enqueue_prioritized, clear_promotion, park_delayed, release_delayed,
}
use glide_mq.InMemory.Keys.{occurs, occurs-append, get?-delete}
use glide_mq.InMemory.Well.{IsWell, Moved, occurs-without_id}

-- From `q` to `p` only the record at `ref` and its timer changed.
pub record Prepared (q : TestQueue) (ref : ℕ) (p : TestQueue) : Type 0 where
  pub jobs : p.jobs ≡ q.jobs
  pub next_ref : p.next_ref ≡ q.next_ref
  pub same_id : (p.records ref).id ≡ (q.records ref).id
  pub others : (a : ℕ) → a ≢ ref → p.records a ≡ q.records a
  pub queue : p.waiting_queue ≡ q.waiting_queue
  pub timers :
      (j : String) → j ≢ (q.records ref).id → get? j p.promotion_timers ≡ get? j q.promotion_timers

pub Prepared-refl : (q : TestQueue) (ref : ℕ) → Prepared q ref q
Prepared-refl q ref = record {
  jobs = refl;
  next_ref = refl;
  same_id = refl;
  others = λ a n. refl;
  queue = refl;
  timers = λ j n. refl;
}

pub put-Prepared :
    (q : TestQueue) (ref : ℕ) (p : TestQueue) (r : JobRecord)
    → Prepared q ref p
    → r.id ≡ (q.records ref).id
    → Prepared q ref (put p ref r)
unfolding update
put-Prepared q ref p r h e = record {
  jobs = h.jobs;
  next_ref = h.next_ref;
  same_id = ground arith;
  others = λ a n. ground (arith, h.others a n);
  queue = h.queue;
  timers = h.timers;
}

pub clear_promotion-Prepared :
    (q : TestQueue) (ref : ℕ) → Prepared q ref (clear_promotion q (q.records ref).id)
unfolding clear_promotion
clear_promotion-Prepared q ref = record {
  jobs = refl;
  next_ref = refl;
  same_id = refl;
  others = λ a n. refl;
  queue = refl;
  timers = λ j n. ground (arith, get?-delete j (q.records ref).id q.promotion_timers);
}

pub clear_promotion-no_timer :
    (q : TestQueue) (id : String) → get? id (clear_promotion q id).promotion_timers ≡ none
unfolding clear_promotion
clear_promotion-no_timer q id = ground (arith, get?-delete id id q.promotion_timers)

module _ (q : TestQueue) (w : IsWell q) (ref : ℕ)
    (live : get? (q.records ref).id q.jobs ≡ some ref) where
  -- A job that is not delayed has no timer.
  pub no_timer :
      is_delayed (q.records ref).state ≡ false → get? (q.records ref).id q.promotion_timers ≡ none
  no_timer h = elim (Option-cases (get? (q.records ref).id q.promotion_timers)) [
    | inl e ↦ e
    | inr (a, e) ↦ let (j, d) = w.timers (q.records ref).id a e in absurd (ground arith)
  ]

  -- A job in neither of the waiting states is not in the dispatch queue.
  pub not_queued : is_queued (q.records ref).state ≡ false → occurs ref q.waiting_queue ≡ 0
  not_queued h = ground (arith, w.queued ref)

  module _ (p : TestQueue) (h : Prepared q ref p) where
    rest : List ℕ
    rest = without_id p.records (p.records ref).id p.waiting_queue

    pub rest_self : occurs ref (dequeue_record p ref).waiting_queue ≡ 0
    unfolding dequeue_record
    rest_self = ground (arith, occurs-without_id p.records (p.records ref).id ref p.waiting_queue)

    -- A job in the dispatch queue is the only one with its id.
    pub rest_other :
        (a : ℕ) → a ≢ ref → occurs a (dequeue_record p ref).waiting_queue ≡ occurs a q.waiting_queue
    unfolding dequeue_record
    rest_other a n =
        let same = ap (occurs a) h.queue in
        let there : (p.records a).id ≡ (q.records a).id = ap (λ r. r.id) (h.others a n) in
        ground (
          arith,
          occurs-without_id p.records (p.records ref).id a p.waiting_queue,
          stored_other,
          h.same_id,
        )
      where
        stored_other : (q.records a).id ≡ (q.records ref).id → 0 < occurs a q.waiting_queue → ⊥
        stored_other e k = n (ground (arith, w.stored a k))

    -- The job moves to the end of the dispatch queue.
    pub queued-Moved :
        (r : JobRecord)
        → r.id ≡ (q.records ref).id
        → is_queued r.state ≡ true
        → is_delayed r.state ≡ false
        → get? (q.records ref).id p.promotion_timers ≡ none
        → Moved q ref (record (put (dequeue_record p ref) ref r) {
          waiting_queue = (dequeue_record p ref).waiting_queue ++ ref ∷ [];
        })
    unfolding update occurs dequeue_record
    queued-Moved r e k d t = record {
      jobs = h.jobs;
      next_ref = h.next_ref;
      same_id = ground arith;
      others = λ a n. ground (arith, h.others a n);
      queue = λ a n.
          ground (
            arith,
            occurs-append a (dequeue_record p ref).waiting_queue (ref ∷ []),
            rest_other a n,
          );
      queue_at =
          ground
            (arith, occurs-append ref (dequeue_record p ref).waiting_queue (ref ∷ []), rest_self);
      timers = h.timers;
      timers_at = ground arith;
    }

    pub enqueue_as-Moved :
        (state : JobState)
        → is_queued state ≡ true
        → is_delayed state ≡ false
        → get? (q.records ref).id p.promotion_timers ≡ none
        → Moved q ref (enqueue_as state p ref)
    unfolding enqueue_as
    enqueue_as-Moved state k d t = queued-Moved _ h.same_id k d t

    pub enqueue_waiting-Moved :
        get? (q.records ref).id p.promotion_timers ≡ none → Moved q ref (enqueue_waiting p ref)
    unfolding enqueue_waiting is_queued is_delayed
    enqueue_waiting-Moved t = enqueue_as-Moved waiting refl refl t

    pub enqueue_prioritized-Moved :
        get? (q.records ref).id p.promotion_timers ≡ none → Moved q ref (enqueue_prioritized p ref)
    unfolding enqueue_prioritized is_queued is_delayed
    enqueue_prioritized-Moved t = enqueue_as-Moved prioritized refl refl t

    pub park_delayed-Moved : (delay_ms now : ℕ) → Moved q ref (park_delayed p ref delay_ms now)
    unfolding park_delayed update is_queued is_delayed
    park_delayed-Moved delay_ms now = record {
      jobs = h.jobs;
      next_ref = h.next_ref;
      same_id = ground (arith, h.same_id);
      others = λ a n. ground (arith, h.others a n);
      queue = λ a n. rest_other a n;
      queue_at = ground (arith, rest_self);
      timers = λ j n. ground (
        arith,
        h.same_id,
        h.timers j n,
        get?-delete j (p.records ref).id p.promotion_timers,
        get?-set j (p.records ref).id ref (delete (p.records ref).id p.promotion_timers),
      );
      timers_at = ground (
        arith,
        h.same_id,
        get?-set (q.records ref).id (p.records ref).id ref
            (delete (p.records ref).id p.promotion_timers),
      );
    }

    -- The job leaves the dispatch queue and its timer for a state in which it does not wait.
    pub settled-Moved :
        (r : JobRecord)
        → r.id ≡ (q.records ref).id
        → is_queued r.state ≡ false
        → is_delayed r.state ≡ false
        → get? (q.records ref).id p.promotion_timers ≡ none
        → Moved q ref (put (dequeue_record p ref) ref r)
    unfolding update dequeue_record
    settled-Moved r e k d t = record {
      jobs = h.jobs;
      next_ref = h.next_ref;
      same_id = ground arith;
      others = λ a n. ground (arith, h.others a n);
      queue = λ a n. rest_other a n;
      queue_at = ground (arith, rest_self);
      timers = h.timers;
      timers_at = ground arith;
    }

  pub release_delayed-Moved :
      (to_prioritized : Bool) → Moved q ref (release_delayed q ref to_prioritized)
  unfolding release_delayed
  release_delayed-Moved true =
      enqueue_prioritized-Moved _ (put-Prepared q ref _ _ (clear_promotion-Prepared q ref) refl)
        (clear_promotion-no_timer q (q.records ref).id)
  release_delayed-Moved false =
      enqueue_waiting-Moved _ (put-Prepared q ref _ _ (clear_promotion-Prepared q ref) refl)
        (clear_promotion-no_timer q (q.records ref).id)
