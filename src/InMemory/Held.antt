-- ===== src/InMemory/Held.antt =====
-- The in-memory queue of src/testing.ts with one worker, from its construction on.
use glide_mq.Common.{
  All, List, [], ◌∷◌, ℕ, ◌<◌, ◌≤◌, ◌≡◌, refl, String, Bool, true, false, Option, none, some, get?,
  if◌then◌else◌, arith, length, Option-cases, inl, inr,
}
use glide_mq.InMemory.Jobs.{JobRecord, is_queued, is_delayed, is_active}
use glide_mq.InMemory.Worker.{RateLimiter}
use glide_mq.InMemory.System.{System, Reach, new_queue, new_worker, start}
use glide_mq.InMemory.Keys.{IsApart, occurs}
use glide_mq.InMemory.Well.{IsWell}
use glide_mq.InMemory.Reachable.{IsSound, Reach-IsSound}

-- What holds of all that occurs in a list holds of its members.
occurs-All : (P : ℕ → Type 0) (xs : List ℕ) → ((a : ℕ) → 0 < occurs a xs → P a) → All P xs
unfolding occurs
occurs-All P [] f = tt
occurs-All P (x ∷ xs) f = (f x (ground arith), occurs-All P xs (λ a o. f a (ground arith)))

module _ (store : ℕ → JobRecord) (dedup_enabled : Bool) (concurrency : ℕ)
    (limiter : Option RateLimiter) where
  new_queue-IsWell : IsWell (new_queue store dedup_enabled)
  unfolding new_queue get? occurs IsApart
  new_queue-IsWell = record {
    apart = tt;
    ids = λ id a h. absurd cc;
    made = λ id a h. absurd cc;
    once = λ a. omega arith;
    stored = λ a h. absurd (omega arith);
    queued = λ a h. absurd (omega arith);
    reachable = λ id a h. absurd cc;
    timed = λ id a h. absurd cc;
    timers = λ id a h. absurd cc;
  }

  pub start-IsSound : IsSound (start store dedup_enabled concurrency limiter)
  unfolding new_worker occurs
  start-IsSound = record {
    well = new_queue-IsWell;
    made = λ a o. absurd (omega arith);
    runs = λ a o. absurd (omega arith);
    apart = λ a. omega arith;
    counted = refl;
    bounded = omega arith;
  }

  -- After any modelled calls of clients and on the worker, timers that fire, claims and ends of jobs, as long
  -- as the queue is not closed: a job of the queue stands in the dispatch queue exactly once when it is waiting or prioritized and not at all otherwise,
  -- and it has its promotion timer exactly when it is delayed.
  pub Reach-held :
      (t : System) (id : String) (ref : ℕ)
      → Reach (start store dedup_enabled concurrency limiter) t
      → get? id t.queue.jobs ≡ some ref
      → (occurs ref t.queue.waiting_queue
          ≡ (if is_queued (t.queue.records ref).state then 1 else 0))
        × (get? id t.queue.promotion_timers
            ≡ (if is_delayed (t.queue.records ref).state then some ref else none))
  Reach-held t id ref r h =
      let k = (Reach-IsSound r start-IsSound).well in
      (
        ground (arith, k.once ref, k.queued ref, k.reachable id ref),
        ground (arith, k.timed id ref, no_timer k),
      )
    where
      no_timer :
          IsWell t.queue
          → is_delayed (t.queue.records ref).state ≡ false
          → get? id t.queue.promotion_timers ≡ none
      no_timer k d = elim (Option-cases (get? id t.queue.promotion_timers)) [
        | inl e ↦ e
        | inr (a, e) ↦ let (j, d') = k.timers id a e in absurd (ground (arith, h))
      ]

  -- After any such steps the jobs that the worker runs are distinct and active, it counts exactly them,
  -- and they are no more than its concurrency.
  pub Reach-runs :
      (t : System)
      → Reach (start store dedup_enabled concurrency limiter) t
      → All (λ a. is_active (t.queue.records a).state ≡ true) t.running
        × ((a : ℕ) → occurs a t.running ≤ 1)
        × (t.worker.active_count ≡ length t.running)
        × (length t.running ≤ t.worker.concurrency)
  Reach-runs t r =
      let k = Reach-IsSound r start-IsSound in
      (occurs-All _ t.running k.runs, k.apart, k.counted, omega (arith, k.counted, k.bounded))
