-- ===== src/InMemory/Bulk.antt =====
-- Whole-queue operations of src/testing.ts: getJobCounts, count, clean, drain, retryJobs, obliterate,
-- pause, resume and isDrainComplete of TestQueue, and the list helpers they share with the rest.
use Prim.Native.Char.{code}
use glide_mq.Common.{
  ℕ, suc, ◌+◌, String, Bool, true, false, ◌&&◌, ◌||◌, not, List, [], ◌∷◌, Option, none, some, Map,
  ltb, leb, ◌==◌, if◌then◌else◌, Result, ok, err, take,
}
use glide_mq.InMemory.Jobs.{
  JobRecord, JobState, is_waiting, is_active, is_completed, is_failed, is_delayed, is_prioritized,
  is_queued,
}
use glide_mq.InMemory.Store.{TestQueue, delete, is_current, clear_promotion}
use glide_mq.InMemory.Change.{retry_record}

-- The references of `this.jobs.values()`.
unfoldable pub refs_of : Map ℕ → List ℕ
refs_of [] = []
refs_of ((id, ref) ∷ m) = ref ∷ refs_of m

pub record JobCounts : Type 0 where
  pub waiting : ℕ
  pub active : ℕ
  pub delayed : ℕ
  pub completed : ℕ
  pub failed : ℕ

abbrev pub no_counts : JobCounts
no_counts = record { waiting = 0; active = 0; delayed = 0; completed = 0; failed = 0 }

unfoldable pub count_state : JobState → JobCounts → JobCounts
unfolding is_waiting is_active is_delayed is_prioritized is_completed is_failed
count_state s counts =
    if is_waiting s
    then record counts { waiting = suc (counts.waiting) }
    else if is_active s
    then record counts { active = suc (counts.active) }
    else if is_delayed s || is_prioritized s
    then record counts { delayed = suc (counts.delayed) }
    else if is_completed s
    then record counts { completed = suc (counts.completed) }
    else if is_failed s
    then record counts { failed = suc (counts.failed) }
    else counts

unfoldable pub count_states : (ℕ → JobRecord) → List ℕ → JobCounts → JobCounts
unfolding count_state
count_states records [] counts = counts
count_states records (ref ∷ refs) counts =
    count_states records refs (count_state (records ref).state counts)

unfoldable pub get_job_counts : TestQueue → JobCounts
unfolding count_states refs_of
get_job_counts q = count_states q.records (refs_of q.jobs) no_counts

unfoldable pub is_on_stream : JobRecord → Bool
unfolding is_waiting is_active
is_on_stream r =
    (is_waiting r.state || is_active r.state) && not r.opts.lifo && (r.opts.priority == 0)

unfoldable pub count_where : (JobRecord → Bool) → (ℕ → JobRecord) → List ℕ → ℕ
count_where test records [] = 0
count_where test records (ref ∷ refs) =
    (if test (records ref) then 1 else 0) + count_where test records refs

unfoldable pub count : TestQueue → ℕ
unfolding count_where is_on_stream refs_of
count q = count_where is_on_stream q.records (refs_of q.jobs)

unfoldable pub is_drain_complete : TestQueue → Bool
unfolding count_where is_queued is_delayed refs_of
is_drain_complete q =
    count_where (λ r. is_queued r.state || is_delayed r.state) q.records (refs_of q.jobs) == 0

-- The references that pass a test, in order.
unfoldable pub refs_where : (ℕ → Bool) → List ℕ → List ℕ
refs_where test [] = []
refs_where test (ref ∷ refs) =
    let rest = refs_where test refs in if test ref then ref ∷ rest else rest

-- A stable sort: `in_order x y` when `x` may stand before `y`.
unfoldable pub insert_with : (ℕ → ℕ → Bool) → ℕ → List ℕ → List ℕ
insert_with in_order x [] = x ∷ []
insert_with in_order x (y ∷ ys) =
    let rest = insert_with in_order x ys in if in_order x y then x ∷ y ∷ ys else y ∷ rest

unfoldable pub sort_with : (ℕ → ℕ → Bool) → List ℕ → List ℕ
unfolding insert_with
sort_with in_order [] = []
sort_with in_order (x ∷ xs) = insert_with in_order x (sort_with in_order xs)

abbrev pub by_key : (ℕ → ℕ) → ℕ → ℕ → Bool
by_key key x y = leb (key x) (key y)

-- `a < b` on texts, by their characters.
unfoldable pub text_before : String → String → Bool
text_before a String.[] = false
text_before String.[] (String.◌∷◌ d b) = true
text_before (String.◌∷◌ c a) (String.◌∷◌ d b) =
    let rest = text_before a b in
    if ltb (code c) (code d) then true else if code c == code d then rest else false

unfoldable pub number : Option ℕ → ℕ
number none = 0
number (some n) = n

-- `this.jobs.delete(id)` for each.
unfoldable pub delete_jobs : (ℕ → JobRecord) → List ℕ → Map ℕ → Map ℕ
unfolding delete
delete_jobs records [] jobs = jobs
delete_jobs records (ref ∷ refs) jobs = delete_jobs records refs (delete (records ref).id jobs)

pub data Finished : Type 0 where
  on_complete on_fail : Finished

unfoldable pub is_finished : Finished → JobState → Bool
unfolding is_completed is_failed
is_finished on_complete = is_completed
is_finished on_fail = is_failed

unfoldable pub finished_by : Option ℕ → ℕ → ℕ → Bool
finished_by none grace now = false
finished_by (some t) grace now = leb (t + grace) now

unfoldable pub ids_of : (ℕ → JobRecord) → List ℕ → List String
ids_of records [] = []
ids_of records (ref ∷ refs) = (records ref).id ∷ ids_of records refs

unfoldable pub clean_candidates : TestQueue → ℕ → ℕ → Finished → ℕ → List ℕ
unfolding is_finished finished_by refs_where refs_of sort_with number
clean_candidates q grace limit type now = take limit (
    sort_with (by_key (λ ref. number (q.records ref).finished_on)) (
      refs_where
        (λ ref.
          is_finished type (q.records ref).state
          && finished_by (q.records ref).finished_on grace now)
        (refs_of q.jobs)))

-- The removed ids.
unfoldable pub clean : TestQueue → ℕ → ℕ → Finished → ℕ → List String × TestQueue
unfolding clean_candidates delete_jobs ids_of
clean q grace limit type now =
    let removed = clean_candidates q grace limit type now in
    (ids_of q.records removed, record q { jobs = delete_jobs q.records removed q.jobs })

unfoldable pub is_drained : Bool → JobState → Bool
unfolding is_waiting is_delayed is_prioritized
is_drained delayed s = is_waiting s || (delayed && (is_delayed s || is_prioritized s))

unfoldable pub drain_jobs : List ℕ → TestQueue → TestQueue
unfolding clear_promotion delete
drain_jobs [] q = q
drain_jobs (ref ∷ refs) q =
    let id = (q.records ref).id in
    let q' = clear_promotion q id in drain_jobs refs (record q' { jobs = delete id q'.jobs })

unfoldable pub drain : TestQueue → Bool → TestQueue
unfolding drain_jobs refs_where is_drained refs_of is_prioritized is_current
drain q delayed =
    let q' =
      drain_jobs (refs_where (λ ref. is_drained delayed (q.records ref).state) (refs_of q.jobs))
        q in
    record q' {
      waiting_queue =
          refs_where (λ ref. is_prioritized (q'.records ref).state && is_current q' ref)
            q'.waiting_queue;
    }

-- `limit` is 0 for all failed jobs.
unfoldable pub retry_loop : ℕ → ℕ → List ℕ → TestQueue → ℕ → ℕ × TestQueue
unfolding is_failed retry_record
retry_loop limit now [] q retried = (retried, q)
retry_loop limit now (ref ∷ refs) q retried =
    let more = retry_loop limit now refs (retry_record q ref now) (suc retried) in
    let skip = retry_loop limit now refs q retried in
    if ltb 0 limit && leb limit retried
    then (retried, q)
    else if is_failed (q.records ref).state
    then more
    else skip

-- The number of jobs that were retried.
unfoldable pub retry_jobs : TestQueue → ℕ → ℕ → ℕ × TestQueue
unfolding retry_loop refs_of
retry_jobs q limit now = retry_loop limit now (refs_of q.jobs) q 0

-- The error says how many jobs are active.
unfoldable pub obliterate : TestQueue → Bool → Result ℕ (Unit {0}) × TestQueue
unfolding count_where is_active refs_of
obliterate q force =
    let active = count_where (λ r. is_active r.state) q.records (refs_of q.jobs) in
    if not force && ltb 0 active then (err active, q) else (
      ok tt,
      record q {
        jobs = [];
        waiting_queue = [];
        dedup_entries = [];
        promotion_timers = [];
        id_counter = 0;
      },
    )

unfoldable pub pause : TestQueue → TestQueue
pause q = record q { paused = true }

unfoldable pub resume : TestQueue → TestQueue
resume q = record q { paused = false }
