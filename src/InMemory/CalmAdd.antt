-- ===== src/InMemory/CalmAdd.antt =====
-- TestQueue.add and the whole-queue operations of src/testing.ts and the jobs that are active.
use glide_mq.Common.{
  List, [], ◌∷◌, ℕ, ◌+◌, refl, String, Bool, true, false, ◌&&◌, ◌||◌, not, Option, none, some, get?,
  ltb, if_intro, Result, ok, err,
}
use glide_mq.Options.{
  JobOptions, Payload, OptionError, Deduplication, DedupMode, simple, throttle, debounce,
  is_empty_text,
}
use glide_mq.InMemory.Jobs.{is_completed, is_failed, is_delayed, is_prioritized, is_active}
use glide_mq.InMemory.Store.{TestQueue, enqueue_waiting, enqueue_prioritized}
use glide_mq.InMemory.Add.{
  QueueError, is_there, generate_job_id, new_record, store_record, insert_record, tracked,
  dedup_entry, is_deduplicated, dedup_of, check_dedup, record_dedup, add_with_id, add_generated,
  add_unless_duplicate, add_checked, add,
}
use glide_mq.InMemory.Bulk.{
  refs_of, refs_where, is_drained, count_where, clean, drain, retry_jobs, obliterate, pause, resume,
}
use glide_mq.InMemory.Change.{remove}
use glide_mq.InMemory.System.{
  Change, Entry, bulk_next, add_bulk, adds_all, adds, revokes, changes_priority, changes_delay,
  promotes, retries, removes, cleans, drains, retries_jobs, obliterates, pauses, resumes, apply,
}
use glide_mq.InMemory.Steady.{
  Steady, Steady-same, Steady-trans, Others, stored-Steady, enqueue_as-Others, park_delayed-Others,
}
use glide_mq.InMemory.Calm.{
  remove_job-Steady, revoke-Steady, change_priority-Steady, change_delay-Steady, promote-Steady,
  retry-Steady, retry_loop-Steady,
}
use glide_mq.InMemory.Bulked.{drain_jobs-Drained}

same : (q : TestQueue) → Steady q q
same q = Steady-same q q refl refl

abbrev Calm : {A : Type 0} → TestQueue → A × TestQueue → Type 0
Calm q d = Steady q d.1

insert_record-Steady :
    (q : TestQueue) (name : String) (payload : Payload) (opts : JobOptions) (id : String)
    (now delay : ℕ)
    → Steady q (insert_record q name payload opts id now delay)
unfolding insert_record enqueue_waiting enqueue_prioritized
insert_record-Steady q name payload opts id now delay =
    let r = new_record name payload opts id now in
    stored-Steady q r _ (
      if_intro (Others (store_record q r) q.next_ref) (ltb 0 delay) _ _
        (λ _. park_delayed-Others (store_record q r) q.next_ref delay now)
        (λ _.
          if_intro (Others (store_record q r) q.next_ref) (ltb 0 opts.priority) _ _
            (λ _. enqueue_as-Others (store_record q r) q.next_ref _)
            (λ _. enqueue_as-Others (store_record q r) q.next_ref _)))

record_dedup-Steady :
    (q : TestQueue) (d : Option Deduplication) (id : String) (now : ℕ)
    → Steady q (record_dedup q d id now)
unfolding record_dedup
record_dedup-Steady q none id now = same q
record_dedup-Steady q (some d) id now = Steady-same q _ refl refl

add_with_id-Steady :
    (q : TestQueue) (name : String) (payload : Payload) (opts : JobOptions) (id : String) (now : ℕ)
    → Calm q (add_with_id q name payload opts id now)
unfolding add_with_id
add_with_id-Steady q name payload opts id now =
    Steady-trans q _ _ (record_dedup-Steady q (dedup_of q opts) id now)
      (insert_record-Steady _ name payload opts id now opts.delay)

tracked-Steady : (q : TestQueue) (mode : DedupMode) (o : Option ℕ) → Calm q (tracked q mode o)
unfolding tracked
tracked-Steady q mode none = same q
tracked-Steady q simple (some ref) = same q
tracked-Steady q throttle (some ref) = same q
tracked-Steady q debounce (some ref) =
    let s = (q.records ref).state in
    if_intro (Calm q) (is_completed s || is_failed s) _ _ (λ _. same q)
      (λ _.
        if_intro (Calm q) (is_delayed s || is_prioritized s) _ _
          (λ _. remove_job-Steady q (q.records ref).id) (λ _. same q))

check_dedup-Steady :
    (q : TestQueue) (d : Option Deduplication) (now : ℕ) → Calm q (check_dedup q d now)
unfolding check_dedup is_deduplicated dedup_entry
check_dedup-Steady q none now = same q
check_dedup-Steady q (some d) now = by_entry (get? d.id q.dedup_entries)
  where
    by_mode :
        (job_id : String) (t : ℕ) (m : DedupMode)
        → Calm q (elim m as (λ _. Bool × TestQueue) [
          | throttle ↦ (ltb 0 d.ttl && ltb now (t + d.ttl), q)
          | simple ↦ tracked q simple (get? job_id q.jobs)
          | debounce ↦ tracked q debounce (get? job_id q.jobs)
        ])
    by_mode job_id t simple = tracked-Steady q simple (get? job_id q.jobs)
    by_mode job_id t throttle = same q
    by_mode job_id t debounce = tracked-Steady q debounce (get? job_id q.jobs)

    by_entry : (o : Option (String × ℕ)) → Calm q (dedup_entry q d now o)
    by_entry none = same q
    by_entry (some (job_id, t)) = by_mode job_id t d.mode

add_generated-Steady :
    (q : TestQueue) (name : String) (payload : Payload) (opts : JobOptions) (now : ℕ)
    (g : Option String × TestQueue)
    → Calm q g
    → Calm q (add_generated name payload opts now g)
unfolding add_generated
add_generated-Steady q name payload opts now (none, p) s = s
add_generated-Steady q name payload opts now (some id, p) s =
    Steady-trans q p _ s (add_with_id-Steady p name payload opts id now)

add_unless_duplicate-Steady :
    (q : TestQueue) (name : String) (payload : Payload) (opts : JobOptions) (now : ℕ)
    (d : Bool × TestQueue)
    → Calm q d
    → Calm q (add_unless_duplicate name payload opts now d)
unfolding add_unless_duplicate generate_job_id
add_unless_duplicate-Steady q name payload opts now (true, p) s = s
add_unless_duplicate-Steady q name payload opts now (false, p) s =
    if_intro (Calm q) (is_empty_text opts.job_id) _ _
      (λ _.
        add_generated-Steady q name payload opts now (generate_job_id p)
          (Steady-trans q p _ s (Steady-same p _ refl refl)))
      (λ _.
        if_intro (Calm q) (is_there (get? opts.job_id p.jobs)) _ _ (λ _. s)
          (λ _. Steady-trans q p _ s (add_with_id-Steady p name payload opts opts.job_id now)))

add-Steady :
    (q : TestQueue) (name : String) (payload : Payload) (opts : JobOptions) (now : ℕ)
    → Calm q (add q name payload opts now)
unfolding add
add-Steady q name payload opts now = checked _
  where
    checked : (c : Result OptionError (Unit {0})) → Calm q (add_checked q name payload opts now c)
    checked (err e) = same q
    checked (ok _) =
        add_unless_duplicate-Steady q name payload opts now _
          (check_dedup-Steady q (dedup_of q opts) now)

bulk_next-Steady :
    (q : TestQueue) (d : Result QueueError (Option ℕ) × TestQueue)
    (r : Result QueueError (List ℕ) × TestQueue)
    → Steady q d.1
    → Steady q r.1
    → Steady q (bulk_next d r).1
unfolding bulk_next
bulk_next-Steady q (err x, p) r a b = a
bulk_next-Steady q (ok o, p) (rs, p') a b = b

add_bulk-Steady : (es : List Entry) (q : TestQueue) (now : ℕ) → Steady q (add_bulk q es now).1
unfolding add_bulk
add_bulk-Steady [] q now = same q
add_bulk-Steady (e ∷ es) q now =
    bulk_next-Steady q (add q e.name e.payload e.opts now) _
      (add-Steady q e.name e.payload e.opts now)
      (Steady-trans q _ _ (add-Steady q e.name e.payload e.opts now) (add_bulk-Steady es _ now))

drain-Steady : (q : TestQueue) (delayed : Bool) → Steady q (drain q delayed)
unfolding drain
drain-Steady q delayed =
    let d =
      drain_jobs-Drained
        (refs_where (λ ref. is_drained delayed (q.records ref).state) (refs_of q.jobs)) q in
    Steady-same q _ d.records d.next_ref

obliterate-Steady : (q : TestQueue) (force : Bool) → Calm q (obliterate q force)
unfolding obliterate
obliterate-Steady q force =
    if_intro (Calm q)
      (not force && ltb 0 (count_where (λ r. is_active r.state) q.records (refs_of q.jobs))) _ _
      (λ _. same q) (λ _. Steady-same q _ refl refl)

-- No call of a client takes a job out of the active state.
pub apply-Steady : (c : Change) (q : TestQueue) (now : ℕ) → Steady q (apply c q now)
unfolding apply remove clean pause resume retry_jobs
apply-Steady (adds e) q now = add-Steady q e.name e.payload e.opts now
apply-Steady (adds_all es) q now = add_bulk-Steady es q now
apply-Steady (revokes job_id) q now = revoke-Steady q job_id now
apply-Steady (changes_priority job p) q now = change_priority-Steady q job p
apply-Steady (changes_delay job d) q now = change_delay-Steady q job d now
apply-Steady (promotes job) q now = promote-Steady q job
apply-Steady (retries job) q now = retry-Steady q job now
apply-Steady (removes job) q now = remove_job-Steady q (q.records job).id
apply-Steady (cleans grace limit type) q now = Steady-same q _ refl refl
apply-Steady (drains delayed) q now = drain-Steady q delayed
apply-Steady (retries_jobs limit) q now = retry_loop-Steady limit now (refs_of q.jobs) q 0
apply-Steady (obliterates force) q now = obliterate-Steady q force
apply-Steady pauses q now = Steady-same q _ refl refl
apply-Steady resumes q now = Steady-same q _ refl refl
