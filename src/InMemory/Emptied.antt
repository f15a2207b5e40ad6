-- ===== src/InMemory/Emptied.antt =====
-- TestQueue.drain and isDrainComplete of src/testing.ts, one after the other.
use glide_mq.Common.{
  ℕ, ◌<◌, ◌≡◌, refl, sym, ◌∙◌, ap, Bool, true, false, ◌||◌, List, [], ◌∷◌, some, get?, includes,
  arith, Bool-cases, inl, inr,
}
use glide_mq.InMemory.Jobs.{JobRecord, is_queued, is_delayed}
use glide_mq.InMemory.Store.{TestQueue}
use glide_mq.InMemory.Bulk.{
  refs_of, refs_where, ids_of, count_where, is_drained, drain_jobs, drain, is_drain_complete,
}
use glide_mq.InMemory.Keys.{occurs, listed}
use glide_mq.InMemory.States.{queued_prioritized}
use glide_mq.InMemory.Well.{IsWell, live_of_value}
use glide_mq.InMemory.Members.{occurs-refs_where}
use glide_mq.InMemory.Bulked.{Drained, drain_jobs-Drained, drain-IsWell, includes-ids_of}

count_where_none :
    (test : JobRecord → Bool) (records : ℕ → JobRecord) (xs : List ℕ)
    → ((a : ℕ) → 0 < occurs a xs → test (records a) ≡ false)
    → count_where test records xs ≡ 0
unfolding count_where occurs
count_where_none test records [] f = refl
count_where_none test records (x ∷ xs) f =
    let rest = count_where_none test records xs (λ a o. f a (ground arith)) in
    let here = f x (ground arith) in ground arith

module _ (q : TestQueue) (w : IsWell q) where
  all_of : List ℕ
  all_of = refs_where (λ ref. is_drained true (q.records ref).state) (refs_of q.jobs)

  -- A job that waits in any way is drained.
  drained :
      (a : ℕ)
      → get? (q.records a).id q.jobs ≡ some a
      → (is_queued (q.records a).state || is_delayed (q.records a).state) ≡ true
      → includes (q.records a).id (ids_of q.records all_of) ≡ true
  unfolding all_of is_drained
  drained a g h =
      let l = listed (q.records a).id a q.jobs g in
      let o = occurs-refs_where a (λ ref. is_drained true (q.records ref).state) (refs_of q.jobs) in
      includes-ids_of q a all_of (ground (arith, chosen))
    where
      chosen : is_drained true (q.records a).state ≡ true
      chosen = ground (arith, h, queued_prioritized (q.records a).state)

  -- What is left does not wait.
  left :
      (a : ℕ)
      → 0 < occurs a (refs_of (drain_jobs all_of q).jobs)
      → get? ((drain_jobs all_of q).records a).id (drain_jobs all_of q).jobs ≡ some a
      → (is_queued ((drain_jobs all_of q).records a).state
          || is_delayed ((drain_jobs all_of q).records a).state)
        ≡ false
  left a o g = elim (Bool-cases (is_queued (q.records a).state || is_delayed (q.records a).state)) [
    | inr n ↦
        ap (λ (f : ℕ → JobRecord). is_queued (f a).state || is_delayed (f a).state) d.records ∙ n
    | inl h ↦
        let g' : get? (q.records a).id (drain_jobs all_of q).jobs ≡ some a =
          ap (λ (f : ℕ → JobRecord). get? (f a).id (drain_jobs all_of q).jobs) (sym d.records)
          ∙ g in
        let j = d.jobs (q.records a).id in absurd (ground (arith, drained a))
  ]
    where
      d : Drained q all_of (drain_jobs all_of q)
      d = drain_jobs-Drained all_of q

  -- After a drain of a well-formed queue with its delayed jobs, no job of the queue is waiting, prioritized
  -- or delayed.
  pub drain-is_drain_complete : is_drain_complete (drain q true) ≡ true
  unfolding is_drain_complete drain all_of
  drain-is_drain_complete =
      let none_left =
        count_where_none (λ r. is_queued r.state || is_delayed r.state) (drain q true).records
          (refs_of (drain q true).jobs)
          (λ a o. left a o (live_of_value (drain q true) (drain-IsWell q true w) a o)) in
      ground (arith, none_left)
