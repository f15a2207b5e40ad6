-- ===== src/InMemory/Listed.antt =====
-- What TestQueue.getJobs of src/testing.ts lists.
use glide_mq.Common.{
  ℕ, ◌+◌, ◌<◌, ◌≤◌, ◌≡◌, ◌≢◌, refl, sym, ◌∙◌, ap, String, true, false, ◌&&◌, not, List, [], ◌∷◌,
  ◌++◌, some, Map, get?, includes, if◌then◌else◌, arith, if_intro, ℕ_discrete,
}
use mathlib.Core.List.{reverse, reverse_aux}
use glide_mq.InMemory.Jobs.{JobRecord, is_waiting}
use glide_mq.InMemory.Store.{TestQueue, is_current, is_same}
use glide_mq.InMemory.Bulk.{refs_of, refs_where, sort_with, by_key, ids_of}
use glide_mq.InMemory.Dispatch.{
  compact, is_priority_job, is_fifo_job, in_order, waiting_in_dispatch_order,
}
use glide_mq.InMemory.Pages.{
  JobType, waiting_jobs, active_jobs, delayed_jobs, completed_jobs, failed_jobs,
  matches_queue_state, scheduled_order, jobs_of_type,
}
use glide_mq.InMemory.Keys.{IsApart, key_of, listed, occurs, occurs-append}
use glide_mq.InMemory.States.{waiting_apart}
use glide_mq.InMemory.Well.{IsWell, live_of_value}
use glide_mq.InMemory.Members.{occurs-refs_where, occurs-sort_with}
use glide_mq.InMemory.Bulked.{includes-ids_of}
use glide_mq.InMemory.Ordered.{unlisted_nil}

-- A value that stands under one key only stands once.
value_once :
    (ref : ℕ) (i : String) (m : Map ℕ)
    → IsApart m
    → ((k : String) → get? k m ≡ some ref → k ≡ i)
    → occurs ref (refs_of m) ≤ 1
unfolding IsApart get? refs_of occurs
value_once ref i [] h f = omega arith
value_once ref i ((j, u) ∷ m) (n, h) f = elim (ℕ_discrete u ref) [
  | no k ↦ let rest = value_once ref i m h (λ k g. f k (ground (arith, later k g))) in ground arith
  | yes e ↦ ground (arith, alone e)
]
  where
    later : (k : String) → get? k m ≡ some ref → j ≢ k
    later k g e = absurd (ground (arith, ap (λ x. get? x m) e))

    alone : u ≡ ref → 0 < occurs ref (refs_of m) → ⊥
    alone e o =
        let (k, g) = key_of ref m h o in
        let other = later k g in
        let here = f j (ground arith) in let there = f k (ground arith) in other (here ∙ sym there)

occurs-reverse_aux :
    (a : ℕ) (xs ys : List ℕ) → occurs a (reverse_aux xs ys) ≡ occurs a xs + occurs a ys
unfolding occurs
occurs-reverse_aux a [] ys = omega arith
occurs-reverse_aux a (x ∷ xs) ys = omega (arith, occurs-reverse_aux a xs (x ∷ ys))

-- The three lists of the order hold each job once among them.
occurs-in_order :
    (records : ℕ → JobRecord) (a : ℕ) (xs : List ℕ) → occurs a (in_order records xs) ≡ occurs a xs
unfolding in_order is_priority_job is_fifo_job occurs
occurs-in_order records a xs =
    let prior = λ (ref : ℕ). is_priority_job (records ref) in
    let lifo = λ (ref : ℕ). (records ref).opts.lifo in
    let fifo = λ (ref : ℕ). is_fifo_job (records ref) in
    ground (
      arith,
      occurs-append a
          (sort_with (by_key (λ ref. (records ref).opts.priority)) (refs_where prior xs))
          (reverse (refs_where lifo xs) ++ refs_where fifo xs),
      occurs-append a (reverse (refs_where lifo xs)) (refs_where fifo xs),
      occurs-sort_with a (by_key (λ ref. (records ref).opts.priority)) (refs_where prior xs),
      occurs-reverse_aux a (refs_where lifo xs) [],
      occurs-refs_where a prior xs,
      occurs-refs_where a lifo xs,
      occurs-refs_where a fifo xs,
    )

module _ (q : TestQueue) where
  abbrev Unseen : List String → List ℕ → Type 0
  Unseen seen refs =
      (a : ℕ)
      → 0 < occurs a refs
      → (get? (q.records a).id q.jobs ≡ some a)
        × (includes (q.records a).id seen ≡ false)
        × (occurs a refs ≤ 1)

  Unseen-rest :
      (seen : List String) (ref : ℕ) (refs : List ℕ)
      → Unseen seen (ref ∷ refs)
      → Unseen ((q.records ref).id ∷ seen) refs
  unfolding occurs includes
  Unseen-rest seen ref refs f a o =
      let (g, i, l) = f a (ground arith) in (g, ground (arith, other), ground arith)
    where
      other : (q.records ref).id ≡ (q.records a).id → ⊥
      other e =
          let (g, i, l) = f a (ground arith) in
          let (g', i', l') = f ref (ground arith) in
          let same : ref ≡ a = ground (arith, ap (λ i. get? i q.jobs) e) in ground arith

  Unseen-skip :
      (seen : List String) (ref : ℕ) (refs : List ℕ) → Unseen seen (ref ∷ refs) → Unseen seen refs
  unfolding occurs
  Unseen-skip seen ref refs f a o = let (g, i, l) = f a (ground arith) in (g, i, ground arith)

  occurs-compact :
      (a : ℕ) (seen : List String) (refs : List ℕ)
      → Unseen seen refs
      → occurs a (compact q seen refs)
        ≡ (if is_waiting (q.records a).state then occurs a refs else 0)
  unfolding compact occurs is_current is_same
  occurs-compact a seen [] f = ground arith
  occurs-compact a seen (ref ∷ refs) f =
      if_intro
        (λ l. occurs a l ≡ (if is_waiting (q.records a).state then occurs a (ref ∷ refs) else 0))
        (is_waiting (q.records ref).state
          && is_current q ref
          && not (includes (q.records ref).id seen))
        _ _
        (λ h.
          taken (ℕ_discrete ref a) h
            (occurs-compact a ((q.records ref).id ∷ seen) refs (Unseen-rest seen ref refs f)))
        (λ h.
          skipped (ℕ_discrete ref a) (waits_not h)
            (occurs-compact a seen refs (Unseen-skip seen ref refs f)))
    where
      waits_not :
          (is_waiting (q.records ref).state
              && is_current q ref
              && not (includes (q.records ref).id seen))
            ≡ false
          → is_waiting (q.records ref).state ≡ false
      waits_not h = let (g, i, l) = f ref (ground arith) in ground (arith, h, g, i)

      taken :
          Dec (ref ≡ a)
          → (is_waiting (q.records ref).state
              && is_current q ref
              && not (includes (q.records ref).id seen))
            ≡ true
          → occurs a (compact q ((q.records ref).id ∷ seen) refs)
            ≡ (if is_waiting (q.records a).state then occurs a refs else 0)
          → occurs a (ref ∷ compact q ((q.records ref).id ∷ seen) refs)
            ≡ (if is_waiting (q.records a).state then occurs a (ref ∷ refs) else 0)
      taken (yes e) h r = let s = ap (λ b. is_waiting (q.records b).state) e in ground arith
      taken (no n) h r = ground arith

      skipped :
          Dec (ref ≡ a)
          → is_waiting (q.records ref).state ≡ false
          → occurs a (compact q seen refs)
            ≡ (if is_waiting (q.records a).state then occurs a refs else 0)
          → occurs a (compact q seen refs)
            ≡ (if is_waiting (q.records a).state then occurs a (ref ∷ refs) else 0)
      skipped (yes e) h r = let s = ap (λ b. is_waiting (q.records b).state) e in ground arith
      skipped (no n) h r = ground arith

-- No job is listed twice by `this.jobs.values()`.
pub refs_once : (q : TestQueue) → IsWell q → (a : ℕ) → occurs a (refs_of q.jobs) ≤ 1
refs_once q w a = value_once a (q.records a).id q.jobs w.apart (λ k h. sym (w.ids k a h))

module _ (q : TestQueue) (w : IsWell q) where
  -- The value of a live job stands once in the map.
  listed_once :
      (id : String) (ref : ℕ) → get? id q.jobs ≡ some ref → occurs ref (refs_of q.jobs) ≡ 1
  listed_once id ref g =
      let at_most = refs_once q w ref in let at_least = listed id ref q.jobs g in omega arith

  compacted :
      (a : ℕ)
      → occurs a (compact q [] q.waiting_queue)
        ≡ (if is_waiting (q.records a).state then occurs a q.waiting_queue else 0)
  unfolding includes
  compacted a = occurs-compact q a [] q.waiting_queue (λ b o. (w.stored b o, refl, w.once b))

  waiting_listed :
      (id : String) (ref : ℕ)
      → get? id q.jobs ≡ some ref
      → occurs ref (waiting_in_dispatch_order q)
        ≡ (if is_waiting (q.records ref).state then 1 else 0)
  unfolding waiting_in_dispatch_order occurs
  waiting_listed id ref g =
      let live = compact q [] q.waiting_queue in
      let rest = unlisted_nil q (ids_of q.records live) (refs_of q.jobs) named in
      ap (λ l. occurs ref (in_order q.records (live ++ l))) rest
      ∙ occurs-in_order q.records ref (live ++ [])
      ∙ occurs-append ref live []
      ∙ ground (
        arith,
        compacted ref,
        w.reachable id ref g,
        w.once ref,
        waiting_apart (q.records ref).state,
        nothing,
      )
    where
      nothing : occurs ref [] ≡ 0
      nothing = refl

      named :
          (a : ℕ)
          → 0 < occurs a (refs_of q.jobs)
          → is_waiting (q.records a).state ≡ true
          → includes (q.records a).id (ids_of q.records (compact q [] q.waiting_queue)) ≡ true
      named a o h =
          let r =
            w.reachable (q.records a).id a (live_of_value q w a o)
              (waiting_apart (q.records a).state h).0 in
          includes-ids_of q a (compact q [] q.waiting_queue) (ground (arith, compacted a))

  abbrev of_type : JobType → List ℕ
  of_type type = refs_where (λ ref. matches_queue_state (q.records ref).state type) (refs_of q.jobs)

  filtered :
      (id : String) (ref : ℕ)
      → get? id q.jobs ≡ some ref
      → (type : JobType)
      → occurs ref (of_type type)
        ≡ (if matches_queue_state (q.records ref).state type then 1 else 0)
  filtered id ref g type = ground (
    arith,
    occurs-refs_where ref (λ ref. matches_queue_state (q.records ref).state type) (refs_of q.jobs),
    listed_once id ref g,
  )

  -- A listing holds a job once or not at all, by the test that the code has.
  pub jobs_of_type-matches :
      (type : JobType) (id : String) (ref : ℕ)
      → get? id q.jobs ≡ some ref
      → occurs ref (jobs_of_type q type)
        ≡ (if matches_queue_state (q.records ref).state type then 1 else 0)
  unfolding jobs_of_type matches_queue_state
  jobs_of_type-matches waiting_jobs id ref g = waiting_listed id ref g
  jobs_of_type-matches active_jobs id ref g = filtered id ref g active_jobs
  jobs_of_type-matches delayed_jobs id ref g =
      occurs-sort_with ref (scheduled_order q) (of_type delayed_jobs)
      ∙ filtered id ref g delayed_jobs
  jobs_of_type-matches completed_jobs id ref g = filtered id ref g completed_jobs
  jobs_of_type-matches failed_jobs id ref g = filtered id ref g failed_jobs
