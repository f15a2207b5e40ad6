-- ===== src/InMemory/Ordered.antt =====
-- The order in which the worker of src/testing.ts claims jobs, and the listing of the waiting jobs.
use glide_mq.Common.{
  ℕ, ◌<◌, ◌≡◌, refl, sym, ◌∙◌, ap, subst, String, true, false, ◌&&◌, not, List, [], ◌∷◌, ◌++◌,
  Option, none, some, Map, get?, includes, ltb, arith, if_intro,
}
use glide_mq.InMemory.Jobs.{JobRecord, is_waiting, is_prioritized, is_queued}
use glide_mq.InMemory.Store.{TestQueue, is_same, promote_all, promote_prioritized}
use glide_mq.InMemory.Bulk.{refs_of, ids_of}
use glide_mq.InMemory.Dispatch.{
  best_index, compact, next_waiting_index, take_at, take_next_waiting, is_some, has_waiting,
  unlisted, in_order, waiting_in_dispatch_order,
}
use glide_mq.InMemory.Worker.{
  TestWorker, acquire_rate_slot, take_in_slot, find_next_waiting, activate, claim_promoted, claim,
}
use glide_mq.InMemory.Keys.{occurs}
use glide_mq.InMemory.States.{waiting_apart}
use glide_mq.InMemory.Well.{IsWell, live_of_value}
use glide_mq.InMemory.Promoted.{
  AllWaiting, promote_prioritized-IsWell, promote_prioritized-AllWaiting, compact_lem,
  next_waiting_index-promoted,
}
use glide_mq.InMemory.Bulked.{includes-ids_of}
use glide_mq.InMemory.First.{head}
use glide_mq.InMemory.Scanned.{resolve, best_index-in_order, best_index-found}

append_nil : (xs : List ℕ) → xs ++ [] ≡ xs
append_nil [] = refl
append_nil (x ∷ xs) = ap (λ l. x ∷ l) (append_nil xs)

pub unlisted_nil :
    (p : TestQueue) (seen : List String) (refs : List ℕ)
    → ((a : ℕ)
        → 0 < occurs a refs
        → is_waiting (p.records a).state ≡ true
        → includes (p.records a).id seen ≡ true)
    → unlisted p seen refs ≡ []
unfolding unlisted occurs
unlisted_nil p seen [] f = refl
unlisted_nil p seen (ref ∷ refs) f =
    let rest = unlisted_nil p seen refs (λ a o. f a (ground arith)) in
    if_intro (λ l. l ≡ [])
      (is_waiting (p.records ref).state && not (includes (p.records ref).id seen)) _ _
      (λ h. absurd (ground (arith, f ref))) (λ _. rest)

-- The dispatch queue names every waiting job.
listing_lem :
    (p : TestQueue)
    → IsWell p
    → AllWaiting p
    → waiting_in_dispatch_order p ≡ in_order p.records p.waiting_queue
unfolding waiting_in_dispatch_order
listing_lem p w f = rw (compact_lem p w f) (
    rw (unlisted_nil p (ids_of p.records p.waiting_queue) (refs_of p.jobs) named)
      (ap (in_order p.records) (append_nil p.waiting_queue)))
  where
    named :
        (a : ℕ)
        → 0 < occurs a (refs_of p.jobs)
        → is_waiting (p.records a).state ≡ true
        → includes (p.records a).id (ids_of p.records p.waiting_queue) ≡ true
    named a o h = includes-ids_of p a p.waiting_queue (
        w.reachable (p.records a).id a (live_of_value p w a o)
          (waiting_apart (p.records a).state h).0)

-- Promotion of jobs that all wait changes nothing.
promote_all_id :
    (jobs : Map ℕ) (refs : List ℕ) (records : ℕ → JobRecord)
    → ((a : ℕ) → 0 < occurs a refs → is_waiting (records a).state ≡ true)
    → promote_all jobs refs records ≡ records
unfolding promote_all occurs
promote_all_id jobs [] records f = refl
promote_all_id jobs (ref ∷ refs) records f =
    if_intro (λ rs. promote_all jobs refs rs ≡ records)
      (is_prioritized (records ref).state && is_same (get? (records ref).id jobs) ref) _ _
      (λ h. absurd (ground (arith, waiting_apart (records ref).state (f ref (ground arith)))))
      (λ _. promote_all_id jobs refs records (λ a o. f a (ground arith)))

promote_prioritized_id : (p : TestQueue) → AllWaiting p → promote_prioritized p ≡ p
unfolding promote_prioritized
promote_prioritized_id p f =
    ap (λ rs. record p { records = rs }) (promote_all_id p.jobs p.waiting_queue p.records f)

settled : (p : TestQueue) → IsWell p → AllWaiting p → (next_waiting_index p).1 ≡ p
settled p w f = next_waiting_index-promoted p w ∙ promote_prioritized_id p f

take_at-resolve : (p : TestQueue) (i : Option ℕ) → (take_at p i).0 ≡ resolve p.waiting_queue i
unfolding take_at resolve
take_at-resolve p none = refl
take_at-resolve p (some i) = refl

nothing : (a : ℕ) → 0 < occurs a [] → ⊥
unfolding occurs
nothing a h = absurd (omega arith)

activate_lem : (d : Option ℕ × TestWorker × TestQueue) (now : ℕ) → (activate d now).0 ≡ d.0
unfolding activate
activate_lem (none, w, q) now = refl
activate_lem (some ref, w, q) now = refl

not_some : (o : Option ℕ) → not (is_some o) ≡ true → o ≡ none
unfolding is_some
not_some none h = refl
not_some (some i) h = absurd cc

kept_pause : (q : TestQueue) → (promote_prioritized q).paused ≡ q.paused
unfolding promote_prioritized
kept_pause q = refl

kept_queue : (q : TestQueue) → (promote_prioritized q).waiting_queue ≡ q.waiting_queue
unfolding promote_prioritized
kept_queue q = refl

module _ (p : TestQueue) (w : IsWell p) (f : AllWaiting p) where
  index_lem : (next_waiting_index p).0 ≡ best_index p.records p.waiting_queue
  unfolding next_waiting_index
  index_lem =
      ap (λ (x : TestQueue). best_index x.records (compact x [] x.waiting_queue))
        (promote_prioritized_id p f)
      ∙ ap (best_index p.records) (compact_lem p w f)

  take_next_waiting_lem : (take_next_waiting p).0 ≡ head (waiting_in_dispatch_order p)
  unfolding take_next_waiting
  take_next_waiting_lem =
      take_at-resolve (next_waiting_index p).1 (next_waiting_index p).0
      ∙ ap (λ q. resolve q.waiting_queue (next_waiting_index p).0) (settled p w f)
      ∙ ap (resolve p.waiting_queue) index_lem
      ∙ best_index-in_order p.records p.waiting_queue
      ∙ ap head (sym (listing_lem p w f))

  -- Where an entry waits, the listing is not empty.
  pub listing_found :
      (a : ℕ)
      → 0 < occurs a p.waiting_queue
      → (r : ℕ) × (head (waiting_in_dispatch_order p) ≡ some r)
  listing_found a o = by_queue p.waiting_queue refl
    where
      by_queue :
          (xs : List ℕ)
          → p.waiting_queue ≡ xs
          → (r : ℕ) × (head (waiting_in_dispatch_order p) ≡ some r)
      by_queue [] e = absurd (nothing a (subst (λ l. 0 < occurs a l) e o))
      by_queue (x ∷ xs) e =
          let (r, g) = best_index-found p.records x xs in
          (
            r,
            ap head (listing_lem p w f ∙ ap (in_order p.records) e)
                ∙ sym (best_index-in_order p.records (x ∷ xs))
                ∙ g,
          )

  -- The claim of a worker that is free to dispatch.
  found_lem :
      (w' : TestWorker) (now : ℕ)
      → (acquire_rate_slot w' now).0 ≡ 0
      → (activate (find_next_waiting w' p now) now).0 ≡ head (waiting_in_dispatch_order p)
  unfolding find_next_waiting has_waiting take_in_slot resolve
  found_lem w' now z =
      activate_lem (find_next_waiting w' p now) now
      ∙ if_intro
          (λ (d : Option ℕ × TestWorker × TestQueue). d.0 ≡ head (waiting_in_dispatch_order p))
          (not (has_waiting p).0) _ _
          (λ h. sym (first_choice ∙ ap (resolve p.waiting_queue) (not_some _ h)))
          (λ _.
            if_intro
              (λ (d : Option ℕ × TestWorker × TestQueue). d.0 ≡ head (waiting_in_dispatch_order p))
              (ltb 0 (acquire_rate_slot w' now).0) _ _ (λ h. absurd (ground (arith, z)))
              (λ _. ap (λ q. (take_next_waiting q).0) (settled p w f) ∙ take_next_waiting_lem))
    where
      first_choice :
          head (waiting_in_dispatch_order p) ≡ resolve p.waiting_queue (next_waiting_index p).0
      first_choice =
          ap head (listing_lem p w f)
          ∙ sym (best_index-in_order p.records p.waiting_queue)
          ∙ ap (resolve p.waiting_queue) (sym index_lem)

module _ (w : TestWorker) (q : TestQueue) (now : ℕ) where
  -- A worker that runs, is not paused, has a free place and is not rate limited claims the job that the
  -- listing of the waiting jobs, after the promotion of the prioritized ones, puts first, and none exactly
  -- when that listing is empty.
  pub claim-first :
      IsWell q
      → w.running ≡ true
      → q.paused ≡ false
      → w.paused ≡ false
      → w.active_count < w.concurrency
      → (acquire_rate_slot w now).0 ≡ 0
      → (claim w q now).0 ≡ head (waiting_in_dispatch_order (promote_prioritized q))
  unfolding claim claim_promoted
  claim-first k r p' p l z =
      if_intro
        (λ (d : Option ℕ × TestWorker × TestQueue).
          d.0 ≡ head (waiting_in_dispatch_order (promote_prioritized q)))
        w.running _ _
        (λ _.
          if_intro
            (λ (d : Option ℕ × TestWorker × TestQueue).
              d.0 ≡ head (waiting_in_dispatch_order (promote_prioritized q)))
            (not (promote_prioritized q).paused && not w.paused && ltb w.active_count w.concurrency)
            _ _
            (λ _.
              found_lem (promote_prioritized q) (promote_prioritized-IsWell q k)
                (promote_prioritized-AllWaiting q k) w now z)
            (λ n. absurd (ground (arith, n, same_pause))))
        (λ n. absurd (ground (arith, n)))
    where
      same_pause : (promote_prioritized q).paused ≡ q.paused
      same_pause = kept_pause q

  -- Such a worker claims some job whenever a job of the queue is waiting or prioritized.
  pub claim-found :
      (id : String) (ref : ℕ)
      → IsWell q
      → w.running ≡ true
      → q.paused ≡ false
      → w.paused ≡ false
      → w.active_count < w.concurrency
      → (acquire_rate_slot w now).0 ≡ 0
      → get? id q.jobs ≡ some ref
      → is_queued (q.records ref).state ≡ true
      → (a : ℕ) × ((claim w q now).0 ≡ some a)
  claim-found id ref k r p' p l z live h =
      let (a, e) =
        listing_found (promote_prioritized q) (promote_prioritized-IsWell q k)
          (promote_prioritized-AllWaiting q k) ref
          (subst (λ l. 0 < occurs ref l) (sym (kept_queue q)) (k.reachable id ref live h)) in
      (a, claim-first k r p' p l z ∙ e)
