-- ===== src/InMemory/Revived.antt =====
-- TestQueue.retryJobs of src/testing.ts without a limit.
use glide_mq.Common.{
  ℕ, suc, ◌<◌, ◌+◌, ◌≤◌, ◌≡◌, ◌⊎◌, refl, ◌∙◌, ap, String, true, false, List, [], ◌∷◌, some, none,
  get?, arith, if_intro, sym, subst, ℕ_discrete, Bool-cases, inl, inr, if◌then◌else◌, ◌==◌, ltb,
}
use glide_mq.InMemory.Jobs.{JobRecord, is_failed, waiting, is_queued}
use glide_mq.InMemory.Store.{TestQueue, update, dequeue_record, enqueue_as, enqueue_waiting}
use glide_mq.InMemory.Add.{expire_at}
use glide_mq.InMemory.Change.{retry_record}
use glide_mq.InMemory.Bulk.{refs_of, retry_loop, retry_jobs, count_where}
use glide_mq.InMemory.Keys.{occurs, listed}
use glide_mq.InMemory.Well.{IsWell}
use glide_mq.InMemory.Listed.{refs_once}
use glide_mq.InMemory.Bulked.{retry_jobs-IsWell}

-- A job as it starts anew at `now`: it waits, no attempt is counted, nothing is left of its failure, and its
-- time to live runs again.
pub record StartsAnew (r s : JobRecord) (now : ℕ) : Type 0 where
  pub id : s.id ≡ r.id
  pub payload : s.payload ≡ r.payload
  pub opts : s.opts ≡ r.opts
  pub state : s.state ≡ waiting
  pub attempts_made : s.attempts_made ≡ 0
  pub failed_reason : s.failed_reason ≡ none
  pub finished_on : s.finished_on ≡ none
  pub expiry :
      ((r.opts.ttl ≡ 0) × (s.expire_at ≡ none))
      ⊎ ((0 < r.opts.ttl) × (s.expire_at ≡ some (now + r.opts.ttl)))

abbrev anew : JobRecord → ℕ → JobRecord
anew r now = record r {
  state = waiting;
  attempts_made = 0;
  failed_reason = none;
  finished_on = none;
  expire_at = expire_at r.opts.ttl now;
}

anew-StartsAnew : (r : JobRecord) (now : ℕ) → StartsAnew r (anew r now) now
unfolding expire_at
anew-StartsAnew r now = record {
  id = refl;
  payload = refl;
  opts = refl;
  state = refl;
  attempts_made = refl;
  failed_reason = refl;
  finished_on = refl;
  expiry = ground arith;
}

retry_record-records :
    (q : TestQueue) (ref now a : ℕ)
    → (retry_record q ref now).records a
      ≡ (if ref == a then anew (q.records ref) now else q.records a)
unfolding retry_record enqueue_waiting enqueue_as dequeue_record update
retry_record-records q ref now a = ground arith

retry_record-jobs : (q : TestQueue) (ref now : ℕ) → (retry_record q ref now).jobs ≡ q.jobs
unfolding retry_record enqueue_waiting enqueue_as dequeue_record
retry_record-jobs q ref now = refl

count_elsewhere :
    (q : TestQueue) (ref now : ℕ) (refs : List ℕ)
    → occurs ref refs ≡ 0
    → count_where (λ r. is_failed r.state) (retry_record q ref now).records refs
      ≡ count_where (λ r. is_failed r.state) q.records refs
unfolding count_where occurs
count_elsewhere q ref now [] h = refl
count_elsewhere q ref now (x ∷ refs) h =
    let rest = count_elsewhere q ref now refs (ground arith) in
    let same : (retry_record q ref now).records x ≡ q.records x =
      ground (arith, retry_record-records q ref now x) in
    rw same (rw rest refl)

abbrev Reads : TestQueue → List ℕ → ℕ → TestQueue → ℕ → Type 0
Reads q refs now r a = r.records a ≡ (
    if ltb 0 (occurs a refs)
    then (if is_failed (q.records a).state then anew (q.records a) now else q.records a)
    else q.records a)

module _ (q : TestQueue) (ref now : ℕ) (refs : List ℕ) (o : occurs ref (ref ∷ refs) ≤ 1) where
  here :
      (r : TestQueue) (a : ℕ)
      → is_failed (q.records ref).state ≡ true
      → Reads (retry_record q ref now) refs now r a
      → Dec (ref ≡ a)
      → Reads q (ref ∷ refs) now r a
  unfolding occurs
  here r a h f (yes e) =
      let g = retry_record-records q ref now a in
      let b = ap q.records e in
      let c = ap (λ x. occurs x refs) e in
      let d : occurs ref refs ≡ 0 = ground arith in
      let st : is_failed (q.records a).state ≡ true =
        sym (ap (λ (x : JobRecord). is_failed x.state) b) ∙ h in
      ground (arith, f, g)
  here r a h f (no n) =
      let g = retry_record-records q ref now a in
      let g' : (retry_record q ref now).records a ≡ q.records a = ground (arith, g) in
      let f' =
        subst
          (λ x.
            r.records a
            ≡ (if ltb 0 (occurs a refs) then (if is_failed x.state then anew x now else x) else x))
          g' f in
      ground (arith, f')

  there :
      (r : TestQueue) (a : ℕ)
      → is_failed (q.records ref).state ≡ false
      → Reads q refs now r a
      → Dec (ref ≡ a)
      → Reads q (ref ∷ refs) now r a
  unfolding occurs
  there r a h f (yes e) =
      let st : is_failed (q.records a).state ≡ false =
        ap (λ b. is_failed (q.records b).state) (sym e) ∙ h in
      ground (arith, f, st)
  there r a h f (no n) = ground (arith, f)

abbrev After : TestQueue → List ℕ → ℕ → ℕ → ℕ × TestQueue → Type 0
After q refs now retried d =
    (d.0 ≡ retried + count_where (λ r. is_failed r.state) q.records refs)
    × (d.1.jobs ≡ q.jobs)
    × ((a : ℕ) → Reads q refs now d.1 a)

retry_loop-After :
    (now : ℕ) (refs : List ℕ) (q : TestQueue) (retried : ℕ)
    → ((a : ℕ) → occurs a refs ≤ 1)
    → After q refs now retried (retry_loop 0 now refs q retried)
unfolding retry_loop occurs count_where is_failed
retry_loop-After now [] q retried o = (omega arith, refl, λ a. refl)
retry_loop-After now (ref ∷ refs) q retried o =
    if_intro (After q (ref ∷ refs) now retried) (is_failed (q.records ref).state) _ _
      (λ h.
        let p = retry_record q ref now in
        let (n, j, f) = retry_loop-After now refs p (suc retried) (λ a. ground (arith, o a)) in
        let same = count_elsewhere q ref now refs (ground (arith, o ref)) in
        (
          ground arith,
          j ∙ retry_record-jobs q ref now,
          λ a.
              here q ref now refs (o ref) (retry_loop 0 now refs p (suc retried)).1 a h (f a)
                (ℕ_discrete ref a),
        ))
      (λ h.
        let (n, j, f) = retry_loop-After now refs q retried (λ a. ground (arith, o a)) in
        (
          ground arith,
          j,
          λ a.
              there q ref now refs (o ref) (retry_loop 0 now refs q retried).1 a h (f a)
                (ℕ_discrete ref a),
        ))

waits : (r : JobRecord) → r.state ≡ waiting → is_queued r.state ≡ true
unfolding is_queued
waits r e = rw e refl

-- What the loop leaves at a job, by whether it had failed.
abbrev pub Outcome : TestQueue → TestQueue → ℕ → ℕ → Type 0
Outcome q p now ref =
    ((is_failed (q.records ref).state ≡ true)
      × StartsAnew (q.records ref) (p.records ref) now
      × (occurs ref p.waiting_queue ≡ 1))
    ⊎ ((is_failed (q.records ref).state ≡ false) × (p.records ref ≡ q.records ref))

-- On a well-formed queue retryJobs without a limit returns the number of failed jobs and keeps the jobs. Each
-- job that had failed starts anew and stands in the dispatch queue once, and the record of any other job of
-- the queue is unchanged.
pub retry_jobs-StartsAnew :
    (q : TestQueue) (now : ℕ) (id : String) (ref : ℕ)
    → IsWell q
    → get? id q.jobs ≡ some ref
    → ((retry_jobs q 0 now).0 ≡ count_where (λ r. is_failed r.state) q.records (refs_of q.jobs))
      × ((retry_jobs q 0 now).1.jobs ≡ q.jobs)
      × Outcome q (retry_jobs q 0 now).1 now ref
unfolding retry_jobs
retry_jobs-StartsAnew q now id ref w g =
    let (n, j, f) = retry_loop-After now (refs_of q.jobs) q 0 (refs_once q w) in
    let p = (retry_jobs q 0 now).1 in
    (
      ground (arith, n),
      j,
      outcome p j (ground (arith, f ref, listed id ref q.jobs g)) (retry_jobs-IsWell q 0 now w)
          (Bool-cases (is_failed (q.records ref).state)),
    )
  where
    outcome :
        (p : TestQueue)
        → p.jobs ≡ q.jobs
        → p.records ref
          ≡ (if is_failed (q.records ref).state then anew (q.records ref) now else q.records ref)
        → IsWell p
        → (is_failed (q.records ref).state ≡ true) ⊎ (is_failed (q.records ref).state ≡ false)
        → Outcome q p now ref
    outcome p j e v (inr h) = inr (h, ground (arith, e))
    outcome p j e v (inl h) =
        let r : p.records ref ≡ anew (q.records ref) now = ground (arith, e) in
        let there =
          v.reachable id ref (ap (get? id) j ∙ g)
            (waits (p.records ref) (ap (λ (x : JobRecord). x.state) r)) in
        let once = v.once ref in
        inl (
          h,
          subst (λ x. StartsAnew (q.records ref) x now) (sym r)
              (anew-StartsAnew (q.records ref) now),
          omega (arith, there, once),
        )
