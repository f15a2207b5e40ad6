-- ===== src/InMemory/Claimed.antt =====
-- The claim of a job by the worker of src/testing.ts: hasWaiting, acquireRateSlot and takeNextWaiting in
-- processAvailable.
use glide_mq.Common.{
  ℕ, zero, suc, ◌+◌, ◌<◌, ◌≡◌, refl, sym, ◌∙◌, ap, subst, true, ◌&&◌, not, List, [], ◌∷◌, Option,
  none, some, get?, ltb, leb, ◌==◌, if◌then◌else◌, arith, if_intro,
}
use glide_mq.InMemory.Jobs.{active, is_queued, is_delayed, is_active}
use glide_mq.InMemory.Store.{promote_prioritized, TestQueue, update, put}
use glide_mq.InMemory.Dispatch.{
  get_at, remove_at, take_at, take_next_waiting, has_waiting, next_waiting_index,
}
use glide_mq.InMemory.Worker.{
  RateLimiter, limiter_slot, window_slot, claim_promoted, TestWorker, acquire_rate_slot,
  take_in_slot, find_next_waiting, activate, claim,
}
use glide_mq.InMemory.Keys.{occurs}
use glide_mq.InMemory.States.{queued_apart}
use glide_mq.InMemory.Moves.{no_timer}
use glide_mq.InMemory.Steady.{Steady, Steady-same, Steady-trans, Others-inactive}
use glide_mq.InMemory.Well.{some-injective, IsWell, Moved, Moved-IsWell}
use glide_mq.InMemory.Promoted.{
  promote_all-Alike, promote_prioritized-IsWell, next_waiting_index-promoted,
}

-- The entry at `i` leaves the list, and no other.
pub occurs-remove_at :
    (a i r : ℕ) (xs : List ℕ)
    → get_at i xs ≡ some r
    → occurs a xs ≡ (if r == a then 1 else 0) + occurs a (remove_at i xs)
unfolding occurs get_at remove_at
occurs-remove_at a zero r [] h = cc
occurs-remove_at a (suc i) r [] h = cc
occurs-remove_at a zero r (x ∷ xs) h = ground arith
occurs-remove_at a (suc i) r (x ∷ xs) h = ground (arith, occurs-remove_at a i r xs)

remove_at-none : (i : ℕ) (xs : List ℕ) → get_at i xs ≡ none → remove_at i xs ≡ xs
unfolding get_at remove_at
remove_at-none zero [] h = refl
remove_at-none (suc i) [] h = refl
remove_at-none zero (x ∷ xs) h = cc
remove_at-none (suc i) (x ∷ xs) h = ap (λ l. x ∷ l) (remove_at-none i xs h)

-- From `q` to `p` jobs were at most promoted.
record Ready (q p : TestQueue) : Type 0 where
  well : IsWell p
  steady : Steady q p
  next_ref : p.next_ref ≡ q.next_ref
  same_queued : (a : ℕ) → is_queued (p.records a).state ≡ is_queued (q.records a).state

Ready-refl : (q : TestQueue) → IsWell q → Ready q q
Ready-refl q w = record {
  well = w;
  steady = Steady-same q q refl refl;
  next_ref = refl;
  same_queued = λ a. refl;
}

promote-Ready : (q p : TestQueue) → Ready q p → Ready q (promote_prioritized p)
unfolding promote_prioritized
promote-Ready q p r = record {
  well = promote_prioritized-IsWell p r.well;
  steady = Steady-trans q p _ r.steady (record {
    grows = omega arith;
    keeps = λ a l h. (promote_all-Alike p.jobs p.waiting_queue p.records a).same_active ∙ h;
  });
  next_ref = r.next_ref;
  same_queued =
      λ a. (promote_all-Alike p.jobs p.waiting_queue p.records a).same_queued ∙ r.same_queued a;
}

next_waiting_index-Ready : (q p : TestQueue) → Ready q p → Ready q (next_waiting_index p).1
next_waiting_index-Ready q p r =
    subst (Ready q) (sym (next_waiting_index-promoted p r.well)) (promote-Ready q p r)

-- The load of a worker is the same.
record SameLoad (w w' : TestWorker) : Type 0 where
  active_count : w'.active_count ≡ w.active_count
  concurrency : w'.concurrency ≡ w.concurrency

acquire_rate_slot-SameLoad : (w : TestWorker) (now : ℕ) → SameLoad w (acquire_rate_slot w now).1
unfolding acquire_rate_slot limiter_slot window_slot
acquire_rate_slot-SameLoad w now =
    if_intro (λ (d : ℕ × TestWorker). SameLoad w d.1) (ltb now w.rate_limit_until) _ _ (λ _. same)
      (λ _. limited w.limiter)
  where
    Kept : ℕ × TestWorker → Type 0
    Kept d = SameLoad w d.1

    counted :
        {start count : ℕ}
        → SameLoad w (record w { rate_window_start = start; rate_window_count = count })
    counted = record { active_count = refl; concurrency = refl }

    same : SameLoad w w
    same = record { active_count = refl; concurrency = refl }

    limited : (l : Option RateLimiter) → SameLoad w (limiter_slot w now l).1
    limited none = same
    limited (some l) =
        if_intro Kept (l.max == 0) _ _ (λ _. same)
          (λ _.
            if_intro Kept (leb (w.rate_window_start + l.duration) now) _ _ (λ _. counted)
              (λ _. if_intro Kept (leb l.max w.rate_window_count) _ _ (λ _. same) (λ _. counted)))

-- The job at `ref` was claimed.
pub record Taken (w : TestWorker) (q : TestQueue) (ref : ℕ) (w' : TestWorker) (q' : TestQueue)
    : Type 0 where
  pub live : get? (q'.records ref).id q'.jobs ≡ some ref
  pub now_active : is_active (q'.records ref).state ≡ true
  pub was_queued : is_queued (q.records ref).state ≡ true
  pub made : ref < q.next_ref
  pub counted : w'.active_count ≡ suc w.active_count
  pub room : w.active_count < w.concurrency

-- What one round of the loop leaves.
pub record Claimed (w : TestWorker) (q : TestQueue) (d : Option ℕ × TestWorker × TestQueue)
    : Type 0 where
  pub well : IsWell d.2
  pub steady : Steady q d.2
  pub concurrency : d.1.concurrency ≡ w.concurrency
  pub unclaimed : d.0 ≡ none → d.1.active_count ≡ w.active_count
  pub claimed : (ref : ℕ) → d.0 ≡ some ref → Taken w q ref d.1 d.2

none-Claimed :
    (w : TestWorker) (q : TestQueue) (w' : TestWorker) (p : TestQueue)
    → SameLoad w w'
    → Ready q p
    → Claimed w q (none, w', p)
none-Claimed w q w' p s r = record {
  well = r.well;
  steady = r.steady;
  concurrency = s.concurrency;
  unclaimed = λ h. s.active_count;
  claimed = λ ref h. absurd cc;
}

module _ (w : TestWorker) (q : TestQueue) (p : TestQueue) (r : Ready q p) (w' : TestWorker)
    (s : SameLoad w w') (room : w.active_count < w.concurrency) (now : ℕ) where
  abbrev taken : ℕ → ℕ → TestQueue
  taken i ref =
      put (record p { waiting_queue = remove_at i p.waiting_queue }) ref
        (record (p.records ref) { state = active; processed_on = some now })

  module _ (i ref : ℕ) (g : get_at i p.waiting_queue ≡ some ref) where
    there : 0 < occurs ref p.waiting_queue
    there = ground (arith, occurs-remove_at ref i ref p.waiting_queue g)

    taken_live : get? (p.records ref).id p.jobs ≡ some ref
    taken_live = r.well.stored ref there

    taken_queued : is_queued (p.records ref).state ≡ true
    taken_queued = r.well.queued ref there

    taken-Moved : Moved p ref (taken i ref)
    unfolding update is_queued is_delayed
    taken-Moved = record {
      jobs = refl;
      next_ref = refl;
      same_id = ground arith;
      others = λ a n. ground arith;
      queue = λ a n. ground (arith, occurs-remove_at a i ref p.waiting_queue g);
      queue_at = ground (arith, occurs-remove_at ref i ref p.waiting_queue g, r.well.once ref);
      timers = λ j n. refl;
      timers_at = ground (
        arith,
        no_timer p r.well ref taken_live (queued_apart (p.records ref).state taken_queued).0,
      );
    }

    taken-Claimed :
        Claimed w q
          (activate (some ref, w', record p { waiting_queue = remove_at i p.waiting_queue }) now)
    unfolding activate update is_active
    taken-Claimed = record {
      well = Moved-IsWell p ref _ r.well taken-Moved taken_live;
      steady = Steady-trans q p _ r.steady (
          Others-inactive p ref _ (record { next_ref = refl; others = taken-Moved.others })
            (queued_apart (p.records ref).state taken_queued).1);
      concurrency = s.concurrency;
      unclaimed = λ h. absurd cc;
      claimed = λ a h.
          subst
            (λ b. Taken w q b (record w' { active_count = suc (w'.active_count) }) (taken i ref))
            (some-injective h)
            (record {
              live = ground (arith, taken_live);
              now_active = ground arith;
              was_queued = sym (r.same_queued ref) ∙ taken_queued;
              made = omega (arith, r.next_ref, r.well.made (p.records ref).id ref taken_live);
              counted = ap suc s.active_count;
              room = room;
            });
    }

  by_entry :
      (i : ℕ) (o : Option ℕ)
      → get_at i p.waiting_queue ≡ o
      → Claimed w q (activate (o, w', record p { waiting_queue = remove_at i p.waiting_queue }) now)
  unfolding activate
  by_entry i none g = none-Claimed w q w' _ s (
      subst (λ l. Ready q (record p { waiting_queue = l }))
        (sym (remove_at-none i p.waiting_queue g)) r)
  by_entry i (some ref) g = taken-Claimed i ref g

  by_index : (i : Option ℕ) → Claimed w q (activate ((take_at p i).0, w', (take_at p i).1) now)
  unfolding take_at activate
  by_index none = none-Claimed w q w' p s r
  by_index (some i) = by_entry i (get_at i p.waiting_queue) refl

same_load : (w : TestWorker) → SameLoad w w
same_load w = record { active_count = refl; concurrency = refl }

-- A worker that has room.
found-Claimed :
    (w : TestWorker) (q p : TestQueue) (now : ℕ)
    → Ready q p
    → w.active_count < w.concurrency
    → Claimed w q (activate (find_next_waiting w p now) now)
unfolding find_next_waiting has_waiting activate take_in_slot take_next_waiting
found-Claimed w q p now r room =
    if_intro (λ d. Claimed w q (activate d now)) (not (has_waiting p).0) _ _
      (λ _. none-Claimed w q w p' (same_load w) ready)
      (λ _. slot (acquire_rate_slot w now) (acquire_rate_slot-SameLoad w now))
  where
    p' : TestQueue
    p' = (has_waiting p).1

    ready : Ready q p'
    ready = next_waiting_index-Ready q p r

    slot : (d : ℕ × TestWorker) → SameLoad w d.1 → Claimed w q (activate (take_in_slot d p') now)
    slot (wait, w') s =
        if_intro (λ d. Claimed w q (activate d now)) (ltb 0 wait) _ _
          (λ _. none-Claimed w q w' p' s ready)
          (λ _.
            by_index w q _ (next_waiting_index-Ready q p' ready) w' s room now
              (next_waiting_index p').0)

pub claim-Claimed :
    (w : TestWorker) (q : TestQueue) (now : ℕ) → IsWell q → Claimed w q (claim w q now)
unfolding claim claim_promoted
claim-Claimed w q now k =
    if_intro (Claimed w q) w.running _ _
      (λ _.
        if_intro (Claimed w q)
          (not (promote_prioritized q).paused && not w.paused && ltb w.active_count w.concurrency) _
          _ (λ g. found-Claimed w q _ now promoted (ground (arith, g)))
          (λ _. none-Claimed w q w _ (same_load w) promoted))
      (λ _. none-Claimed w q w q (same_load w) (Ready-refl q k))
  where
    promoted : Ready q (promote_prioritized q)
    promoted = promote-Ready q q (Ready-refl q k)
