-- ===== src/InMemory/Retention.antt =====
-- applyRetention of TestQueue in src/testing.ts.
use glide_mq.Common.{
  ℕ, ◌+◌, ◌-◌, ◌*◌, Bool, ◌&&◌, ◌||◌, not, List, ltb, leb, ◌==◌, if◌then◌else◌, length, take,
}
use glide_mq.Options.{JobOptions, Retention, keep, remove, newest, window}
use glide_mq.InMemory.Store.{TestQueue, delete}
use glide_mq.InMemory.Bulk.{
  Finished, on_complete, on_fail, is_finished, refs_of, refs_where, sort_with, text_before, number,
  delete_jobs,
}

abbrev pub max_removals : ℕ
max_removals = 1000

-- Oldest first, and by id where two finished at once.
unfoldable pub finished_order : TestQueue → ℕ → ℕ → Bool
unfolding number text_before
finished_order q a b =
    let ta = number (q.records a).finished_on in
    let tb = number (q.records b).finished_on in
    ltb ta tb || ((ta == tb) && not (text_before (q.records b).id (q.records a).id))

unfoldable pub in_state : TestQueue → Finished → List ℕ
unfolding sort_with finished_order is_finished refs_where refs_of
in_state q type =
    sort_with (finished_order q)
      (refs_where (λ ref. is_finished type (q.records ref).state) (refs_of q.jobs))

unfoldable pub delete_refs : TestQueue → List ℕ → TestQueue
unfolding delete_jobs
delete_refs q refs = record q { jobs = delete_jobs q.records refs q.jobs }

unfoldable pub drop_old : TestQueue → Finished → ℕ → ℕ → TestQueue
unfolding delete_refs in_state refs_where number
drop_old q type age now =
    if age == 0
    then q
    else delete_refs q (
        take max_removals (
          refs_where (λ ref. leb (number (q.records ref).finished_on + age * 1000) now)
            (in_state q type)))

unfoldable pub min : ℕ → ℕ → ℕ
min a b = if ltb b a then b else a

unfoldable pub keep_newest : TestQueue → Finished → ℕ → TestQueue
unfolding delete_refs in_state min
keep_newest q type count =
    let all = in_state q type in
    if ltb 0 count && ltb count (length all)
    then delete_refs q (take (min (length all - count) max_removals) all)
    else q

unfoldable pub retain : TestQueue → ℕ → Finished → ℕ → Retention → TestQueue
unfolding delete drop_old keep_newest
retain q ref type now keep = q
retain q ref type now remove = record q { jobs = delete (q.records ref).id q.jobs }
retain q ref type now (newest count) = keep_newest q type count
retain q ref type now (window age count) = keep_newest (drop_old q type age now) type count

unfoldable pub retention_of : Finished → JobOptions → Retention
retention_of on_complete opts = opts.remove_on_complete
retention_of on_fail opts = opts.remove_on_fail

unfoldable pub apply_retention : TestQueue → ℕ → Finished → ℕ → TestQueue
unfolding retain retention_of
apply_retention q ref type now = retain q ref type now (retention_of type (q.records ref).opts)
