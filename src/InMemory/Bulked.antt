-- ===== src/InMemory/Bulked.antt =====
-- Whole-queue operations of src/testing.ts (drain, retryJobs, obliterate, pause, resume), with the
-- invariant of the queue.
use glide_mq.Common.{
  ℕ, suc, ◌<◌, ◌≡◌, refl, sym, ◌∙◌, ap, subst, String, Bool, true, false, ◌&&◌, not, List, [], ◌∷◌,
  none, some, get?, includes, ltb, leb, if◌then◌else◌, Result, arith, if_intro, ℕ_discrete,
  Bool-cases, ◌⊎◌, inl, inr,
}
use glide_mq.InMemory.Jobs.{JobRecord, is_waiting, is_prioritized, is_failed, is_active}
use glide_mq.InMemory.Store.{TestQueue, delete, clear_promotion, is_same, is_current}
use glide_mq.InMemory.Change.{retry_record}
use glide_mq.InMemory.Bulk.{
  refs_of, refs_where, ids_of, count_where, is_drained, drain_jobs, drain, retry_loop, retry_jobs,
  obliterate, pause, resume,
}
use glide_mq.InMemory.Keys.{IsApart, listed, occurs, get?-delete, delete-IsApart}
use glide_mq.InMemory.States.{failed_apart, queued_prioritized}
use glide_mq.InMemory.Well.{IsWell, live_of_value}
use glide_mq.InMemory.Kept.{Dropped-IsWell, Touched-IsWell}
use glide_mq.InMemory.Members.{occurs-refs_where}
use glide_mq.InMemory.Changed.{retry_record-IsWell, retry_record-same_live}

-- Fields that the invariant does not speak of.
untouched-IsWell :
    (q : TestQueue) (paused : Bool) → IsWell q → IsWell (record q { paused = paused })
untouched-IsWell q paused w = Touched-IsWell q _ w (record {
  next_ref = refl;
  jobs = refl;
  queue = refl;
  timers = refl;
  same_id = λ a. refl;
  same_queued = λ a. refl;
  same_delayed = λ a. refl;
})

pub pause-IsWell : (q : TestQueue) → IsWell q → IsWell (pause q)
unfolding pause
pause-IsWell q w = untouched-IsWell q true w

pub resume-IsWell : (q : TestQueue) → IsWell q → IsWell (resume q)
unfolding resume
resume-IsWell q w = untouched-IsWell q false w

pub obliterate-IsWell : (q : TestQueue) (force : Bool) → IsWell q → IsWell (obliterate q force).1
unfolding obliterate get? occurs IsApart
obliterate-IsWell q force w =
    if_intro (λ (d : Result ℕ (Unit {0}) × TestQueue). IsWell d.1)
      (not force && ltb 0 (count_where (λ r. is_active r.state) q.records (refs_of q.jobs))) _ _
      (λ _. w)
      (λ _. record {
        apart = tt;
        ids = λ id a h. absurd cc;
        made = λ id a h. absurd cc;
        once = λ a. omega arith;
        stored = λ a h. absurd (omega arith);
        queued = λ a h. absurd (omega arith);
        reachable = λ id a h. absurd cc;
        timed = λ id a h. absurd cc;
        timers = λ id a h. absurd cc;
      })

-- Every job of the list is live, also after the earlier ones were retried.
retry_loop-IsWell :
    (limit now : ℕ) (refs : List ℕ) (q : TestQueue) (retried : ℕ)
    → IsWell q
    → ((a : ℕ) → 0 < occurs a refs → get? (q.records a).id q.jobs ≡ some a)
    → IsWell (retry_loop limit now refs q retried).1
unfolding retry_loop occurs
retry_loop-IsWell limit now [] q retried w f = w
retry_loop-IsWell limit now (ref ∷ refs) q retried w f =
    if_intro Kept (ltb 0 limit && leb limit retried) _ _ (λ _. w)
      (λ _.
        if_intro Kept (is_failed (q.records ref).state) _ _
          (λ k.
            retry_loop-IsWell limit now refs (retry_record q ref now) (suc retried)
              (retry_record-IsWell q w ref (f ref (ground arith)) now
                (failed_apart (q.records ref).state k).1)
              (λ a o.
                retry_record-same_live q w ref (f ref (ground arith)) now
                  (failed_apart (q.records ref).state k).1 a (f a (ground arith))))
          (λ _. retry_loop-IsWell limit now refs q retried w (λ a o. f a (ground arith))))
  where
    Kept : ℕ × TestQueue → Type 0
    Kept d = IsWell d.1

pub retry_jobs-IsWell :
    (q : TestQueue) (limit now : ℕ) → IsWell q → IsWell (retry_jobs q limit now).1
unfolding retry_jobs
retry_jobs-IsWell q limit now w =
    retry_loop-IsWell limit now (refs_of q.jobs) q 0 w (λ a o. live_of_value q w a o)

-- The ids of the drained jobs leave the map and the timers.
pub record Drained (q : TestQueue) (refs : List ℕ) (q' : TestQueue) : Type 0 where
  pub records : q'.records ≡ q.records
  pub next_ref : q'.next_ref ≡ q.next_ref
  pub queue : q'.waiting_queue ≡ q.waiting_queue
  pub apart : IsApart q.jobs → IsApart q'.jobs
  pub jobs :
      (j : String)
      → get? j q'.jobs ≡ (if includes j (ids_of q.records refs) then none else get? j q.jobs)
  pub timers :
      (j : String)
      → get? j q'.promotion_timers
        ≡ (if includes j (ids_of q.records refs) then none else get? j q.promotion_timers)

pub drain_jobs-Drained : (refs : List ℕ) (q : TestQueue) → Drained q refs (drain_jobs refs q)
unfolding drain_jobs includes ids_of clear_promotion
drain_jobs-Drained [] q = record {
  records = refl;
  next_ref = refl;
  queue = refl;
  apart = λ h. h;
  jobs = λ j. refl;
  timers = λ j. refl;
}
drain_jobs-Drained (ref ∷ refs) q =
    let id = (q.records ref).id in
    let p = record (clear_promotion q id) { jobs = delete id (clear_promotion q id).jobs } in
    let d = drain_jobs-Drained refs p in
    record {
      records = d.records;
      next_ref = d.next_ref;
      queue = d.queue;
      apart = λ h. d.apart (delete-IsApart id q.jobs h);
      jobs = λ j. ground (arith, d.jobs j, get?-delete j id q.jobs);
      timers = λ j. ground (arith, d.timers j, get?-delete j id q.promotion_timers);
    }

-- A job that no drained id names has another state.
pub includes-ids_of :
    (q : TestQueue) (a : ℕ) (refs : List ℕ)
    → 0 < occurs a refs
    → includes (q.records a).id (ids_of q.records refs) ≡ true
unfolding includes ids_of occurs
includes-ids_of q a [] o = absurd (omega arith)
includes-ids_of q a (x ∷ xs) o = elim (ℕ_discrete x a) [
  | yes e ↦
      subst (λ b. includes (q.records a).id ((q.records b).id ∷ ids_of q.records xs) ≡ true) (sym e)
        (ground arith)
  | no n ↦ ground (arith, includes-ids_of q a xs)
]

module _ (q : TestQueue) (delayed : Bool) (w : IsWell q) where
  chosen : List ℕ
  chosen = refs_where (λ ref. is_drained delayed (q.records ref).state) (refs_of q.jobs)

  abbrev dropped : String → Bool
  dropped j = includes j (ids_of q.records chosen)

  -- A queued job that stays is prioritized, since waiting jobs are drained.
  stays :
      (a : ℕ)
      → 0 < occurs a q.waiting_queue
      → dropped (q.records a).id ≡ false
      → is_prioritized (q.records a).state ≡ true
  unfolding is_drained chosen
  stays a o n =
      queued_prioritized (q.records a).state (w.queued a o)
        (waits (Bool-cases (is_waiting (q.records a).state)))
    where
      there : 0 < occurs a (refs_of q.jobs)
      there = listed (q.records a).id a q.jobs (w.stored a o)

      waits :
          (is_waiting (q.records a).state ≡ true) ⊎ (is_waiting (q.records a).state ≡ false)
          → is_waiting (q.records a).state ≡ false
      waits (inr e) = e
      waits (inl e) =
          let t = there in
          let f =
            occurs-refs_where a (λ ref. is_drained delayed (q.records ref).state)
              (refs_of q.jobs) in
          let c = includes-ids_of q a chosen (ground (arith, f)) in absurd cc

  abbrev after : TestQueue
  after = drain_jobs chosen q

  keeps : ℕ → Bool
  keeps a = is_prioritized (after.records a).state && is_current after a

  -- The filter on the dispatch queue takes the drained jobs out.
  filtered :
      (a : ℕ)
      → occurs a (refs_where keeps after.waiting_queue)
        ≡ (if dropped (q.records a).id then 0 else occurs a q.waiting_queue)
  unfolding keeps is_current is_same
  filtered a =
      let d = drain_jobs-Drained chosen q in
      let r = ap (λ (f : ℕ → JobRecord). f a) d.records in
      let i = ap (λ r. get? r.id after.jobs) r in
      let s = ap (λ r. is_prioritized r.state) r in
      let o = ap (occurs a) d.queue in
      ground (
        arith,
        occurs-refs_where a keeps after.waiting_queue,
        d.jobs (q.records a).id,
        stays a,
        w.stored a,
      )

  pub drain-IsWell : IsWell (drain q delayed)
  unfolding drain keeps chosen
  drain-IsWell =
      let d = drain_jobs-Drained chosen q in
      Dropped-IsWell q dropped _ w (record {
        records = d.records;
        next_ref = d.next_ref;
        apart = d.apart w.apart;
        kept = λ j n. ground (arith, d.jobs j);
        gone = λ j n. ground (arith, d.jobs j);
        queue = λ a n. filtered a ∙ rw n refl;
        queue_gone = λ a n. filtered a ∙ rw n refl;
        timers = λ j n. ground (arith, d.timers j);
        timers_gone = λ j n. ground (arith, d.timers j);
      })
