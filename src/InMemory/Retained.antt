-- ===== src/InMemory/Retained.antt =====
-- The retention of finished jobs in src/testing.ts (applyRetention) and TestQueue.clean.
use glide_mq.Common.{
  ℕ, ◌+◌, ◌-◌, ◌*◌, ◌<◌, ◌≡◌, refl, sym, ◌∙◌, ap, String, Bool, true, false, ◌&&◌, List, [], ◌∷◌,
  none, some, get?, ltb, leb, ◌==◌, arith, if_intro, Option-cases, inl, inr, length, take,
}
use glide_mq.Options.{Retention, keep, remove, newest, window}
use glide_mq.InMemory.Jobs.{JobState, is_queued, is_delayed}
use glide_mq.InMemory.Store.{TestQueue, delete}
use glide_mq.InMemory.Bulk.{
  Finished, on_complete, on_fail, is_finished, finished_by, refs_of, refs_where, sort_with, by_key,
  number, delete_jobs, clean_candidates, clean,
}
use glide_mq.InMemory.Retention.{
  max_removals, finished_order, in_state, delete_refs, drop_old, min, keep_newest, retain,
  retention_of, apply_retention,
}
use glide_mq.InMemory.Keys.{occurs, get?-delete, delete-IsApart}
use glide_mq.InMemory.States.{failed_apart, completed_apart}
use glide_mq.InMemory.Well.{IsWell, live_of_value}
use glide_mq.InMemory.Kept.{Dropped-IsWell, is_text}
use glide_mq.InMemory.Members.{occurs-refs_where, occurs-sort_with, occurs-take, occurs_prefix}

-- The job of the queue that has the id of `ref`, if there is one, does not wait.
abbrev pub Idle : TestQueue → ℕ → Type 0
Idle q ref =
    (a : ℕ)
    → get? (q.records ref).id q.jobs ≡ some a
    → (is_queued (q.records a).state ≡ false) × (is_delayed (q.records a).state ≡ false)

pub live-Idle :
    (q : TestQueue) (ref : ℕ)
    → get? (q.records ref).id q.jobs ≡ some ref
    → is_queued (q.records ref).state ≡ false
    → is_delayed (q.records ref).state ≡ false
    → Idle q ref
live-Idle q ref live k d a h =
    let e : ref ≡ a = ground arith in
    (
      ap (λ b. is_queued (q.records b).state) (sym e) ∙ k,
      ap (λ b. is_delayed (q.records b).state) (sym e) ∙ d,
    )

-- `this.jobs.delete(id)` alone is enough for a job that does not wait.
drop_unqueued-IsWell :
    (q : TestQueue) (ref : ℕ)
    → IsWell q
    → Idle q ref
    → IsWell (record q { jobs = delete (q.records ref).id q.jobs })
drop_unqueued-IsWell q ref w f =
    let id = (q.records ref).id in
    Dropped-IsWell q (is_text id) _ w (record {
      records = refl;
      next_ref = refl;
      apart = delete-IsApart id q.jobs w.apart;
      kept = λ j n. ground (arith, get?-delete j id q.jobs);
      gone = λ j n. ground (arith, get?-delete j id q.jobs);
      queue = λ a n. refl;
      queue_gone = λ a n. not_in_queue a (ground (arith, n));
      timers = λ j n. refl;
      timers_gone = λ j n. not_timed j (ground (arith, n));
    })
  where
    not_in_queue : (a : ℕ) → (q.records ref).id ≡ (q.records a).id → occurs a q.waiting_queue ≡ 0
    not_in_queue a e =
        let g = ap (λ i. get? i q.jobs) e in ground (arith, w.stored a, w.queued a, f a)

    not_timed : (j : String) → (q.records ref).id ≡ j → get? j q.promotion_timers ≡ none
    not_timed j e = elim (Option-cases (get? j q.promotion_timers)) [
      | inl n ↦ n
      | inr (a, t) ↦
          let (g, d) = w.timers j a t in
          let i = ap (λ i. get? i q.jobs) e in absurd (ground (arith, f a))
    ]

delete_refs-IsWell :
    (q : TestQueue) (refs : List ℕ)
    → IsWell q
    → ((a : ℕ) → 0 < occurs a refs → Idle q a)
    → IsWell (delete_refs q refs)
unfolding delete_refs delete_jobs occurs
delete_refs-IsWell q [] w f = w
delete_refs-IsWell q (ref ∷ refs) w f =
    delete_refs-IsWell (record q { jobs = delete (q.records ref).id q.jobs }) refs
      (drop_unqueued-IsWell q ref w (f ref (ground arith)))
      (λ a o b h.
        f a (ground arith) b
          (ground (arith, get?-delete (q.records a).id (q.records ref).id q.jobs)))

finished_apart :
    (type : Finished) (s : JobState)
    → is_finished type s ≡ true
    → (is_queued s ≡ false) × (is_delayed s ≡ false)
unfolding is_finished
finished_apart on_complete s h = completed_apart s h
finished_apart on_fail s h = failed_apart s h

-- A finished job of the queue does not wait.
finished-Idle :
    (q : TestQueue) (type : Finished) (a : ℕ)
    → IsWell q
    → 0 < occurs a (refs_of q.jobs)
    → is_finished type (q.records a).state ≡ true
    → Idle q a
finished-Idle q type a w o h =
    let (k, d) = finished_apart type (q.records a).state h in
    live-Idle q a (live_of_value q w a o) k d

in_state-Idle :
    (q : TestQueue) (type : Finished) (a : ℕ) → IsWell q → 0 < occurs a (in_state q type) → Idle q a
unfolding in_state
in_state-Idle q type a w o =
    let there = refs_where (λ ref. is_finished type (q.records ref).state) (refs_of q.jobs) in
    let s = occurs-sort_with a (finished_order q) there in
    let f = occurs-refs_where a (λ ref. is_finished type (q.records ref).state) (refs_of q.jobs) in
    finished-Idle q type a w (ground (arith, s, f)) (ground (arith, s, f))

drop_old-IsWell :
    (q : TestQueue) (type : Finished) (age now : ℕ) → IsWell q → IsWell (drop_old q type age now)
unfolding drop_old
drop_old-IsWell q type age now w =
    if_intro IsWell (age == 0) _ _ (λ _. w)
      (λ _.
        delete_refs-IsWell q (take max_removals (refs_where old all)) w
          (λ a o. in_state-Idle q type a w (occurs_prefix a max_removals old all o)))
  where
    all : List ℕ
    all = in_state q type

    old : ℕ → Bool
    old ref = leb (number (q.records ref).finished_on + age * 1000) now

keep_newest-IsWell :
    (q : TestQueue) (type : Finished) (count : ℕ) → IsWell q → IsWell (keep_newest q type count)
unfolding keep_newest
keep_newest-IsWell q type count w =
    let all = in_state q type in
    let n = min (length all - count) max_removals in
    if_intro IsWell (ltb 0 count && ltb count (length all)) _ _
      (λ _.
        delete_refs-IsWell q (take n all) w
          (λ a o. in_state-Idle q type a w (omega (arith, occurs-take a n all))))
      (λ _. w)

retain-IsWell :
    (q : TestQueue) (ref : ℕ) (type : Finished) (now : ℕ) (r : Retention)
    → IsWell q
    → Idle q ref
    → IsWell (retain q ref type now r)
unfolding retain
retain-IsWell q ref type now keep w f = w
retain-IsWell q ref type now remove w f = drop_unqueued-IsWell q ref w f
retain-IsWell q ref type now (newest count) w f = keep_newest-IsWell q type count w
retain-IsWell q ref type now (window age count) w f =
    keep_newest-IsWell _ type count (drop_old-IsWell q type age now w)

pub apply_retention-IsWell :
    (q : TestQueue) (ref : ℕ) (type : Finished) (now : ℕ)
    → IsWell q
    → Idle q ref
    → IsWell (apply_retention q ref type now)
unfolding apply_retention
apply_retention-IsWell q ref type now w f =
    retain-IsWell q ref type now (retention_of type (q.records ref).opts) w f

pub clean-IsWell :
    (q : TestQueue) (grace limit : ℕ) (type : Finished) (now : ℕ)
    → IsWell q
    → IsWell (clean q grace limit type now).1
unfolding clean clean_candidates delete_refs
clean-IsWell q grace limit type now w =
    delete_refs-IsWell q (take limit (sort_with order old)) w (λ a o.
      let t = occurs-take a limit (sort_with order old) in
      let s = occurs-sort_with a order old in
      let f = occurs-refs_where a test (refs_of q.jobs) in
      finished-Idle q type a w (ground arith) (ground arith))
  where
    test : ℕ → Bool
    test ref =
        is_finished type (q.records ref).state && finished_by (q.records ref).finished_on grace now

    old : List ℕ
    old = refs_where test (refs_of q.jobs)

    order : ℕ → ℕ → Bool
    order = by_key (λ ref. number (q.records ref).finished_on)
