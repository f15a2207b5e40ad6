-- ===== src/InMemory/Added.antt =====
-- TestQueue.add of src/testing.ts, step by step, with the invariant of the queue.
use glide_mq.Common.{
  ℕ, zero, suc, ◌+◌, ◌≡◌, refl, ◌∙◌, ap, String, Bool, true, false, ◌&&◌, Option, none, some, Map,
  get?, get?-set, arith, if_intro, ◌||◌, ltb, Result, ok, err,
}
use glide_mq.Options.{
  JobOptions, Payload, Deduplication, DedupMode, simple, throttle, debounce, OptionError,
  is_empty_text,
}
use glide_mq.InMemory.Jobs.{
  JobRecord, waiting_children, is_queued, is_delayed, is_completed, is_failed, is_prioritized,
}
use glide_mq.InMemory.Store.{TestQueue, update}
use glide_mq.InMemory.Add.{
  QueueError, max_collisions, is_there, free_id, generate_job_id, new_record, store_record,
  insert_record, tracked, dedup_entry, is_deduplicated, dedup_of, check_dedup, record_dedup,
  add_with_id, add_generated, add_unless_duplicate, add_checked, add,
}
use glide_mq.InMemory.Well.{IsWell, Moved-IsWell}
use glide_mq.InMemory.Moves.{
  Prepared, no_timer, park_delayed-Moved, enqueue_waiting-Moved, enqueue_prioritized-Moved,
}
use glide_mq.InMemory.Kept.{Touched-IsWell, store_record-IsWell, remove_job-IsWell}

-- An id that generateJobId returns is no job's.
pub free_id-free :
    (jobs : Map ℕ) (left id_counter : ℕ) (id : String)
    → (free_id jobs left id_counter).0 ≡ some id
    → get? id jobs ≡ none
unfolding free_id is_there
free_id-free jobs zero c id h = cc
free_id-free jobs (suc left) c id h = ground (arith, free_id-free jobs left (suc c) id)

not-is_there : (o : Option ℕ) → is_there o ≡ false → o ≡ none
unfolding is_there
not-is_there none h = refl
not-is_there (some n) h = cc

module _ (q : TestQueue) (r : JobRecord) (w : IsWell q) (f : get? r.id q.jobs ≡ none) where
  -- The new record is first stored as if it waited for children.
  abbrev parked : TestQueue
  parked = store_record q (record r { state = waiting_children })

  parked-IsWell : IsWell parked
  unfolding is_queued is_delayed
  parked-IsWell = store_record-IsWell q (record r { state = waiting_children }) w f refl refl

  stored_live : get? (parked.records q.next_ref).id parked.jobs ≡ some q.next_ref
  unfolding store_record update
  stored_live = ground (arith, get?-set r.id r.id q.next_ref q.jobs)

  stored_timer : get? (parked.records q.next_ref).id parked.promotion_timers ≡ none
  unfolding store_record update is_delayed
  stored_timer = no_timer parked parked-IsWell q.next_ref stored_live (ground arith)

  stored-Prepared : Prepared parked q.next_ref (store_record q r)
  unfolding store_record update
  stored-Prepared = record {
    jobs = refl;
    next_ref = refl;
    same_id = ground arith;
    others = λ a n. ground arith;
    queue = refl;
    timers = λ j n. refl;
  }

pub insert_record-IsWell :
    (q : TestQueue) (name : String) (payload : Payload) (opts : JobOptions) (id : String)
    (now delay : ℕ)
    → IsWell q
    → get? id q.jobs ≡ none
    → IsWell (insert_record q name payload opts id now delay)
unfolding insert_record
insert_record-IsWell q name payload opts id now delay w f =
    let r = new_record name payload opts id now in
    let p = parked q r w f in
    let pw = parked-IsWell q r w f in
    let live = stored_live q r w f in
    let prepared = stored-Prepared q r w f in
    let timer = stored_timer q r w f in
    if_intro IsWell (ltb 0 delay) _ _
      (λ _.
        Moved-IsWell p q.next_ref _ pw
          (park_delayed-Moved p pw q.next_ref live (store_record q r) prepared delay now) live)
      λ _.
        if_intro IsWell (ltb 0 opts.priority) _ _
          (λ _.
            Moved-IsWell p q.next_ref _ pw
              (enqueue_prioritized-Moved p pw q.next_ref live (store_record q r) prepared timer)
              live)
          (λ _.
            Moved-IsWell p q.next_ref _ pw
              (enqueue_waiting-Moved p pw q.next_ref live (store_record q r) prepared timer) live)

-- A change of the counter or of the deduplication entries.
same_jobs-IsWell :
    (q : TestQueue) (dedup_entries : Map (String × ℕ)) (id_counter : ℕ)
    → IsWell q
    → IsWell (record q { dedup_entries = dedup_entries; id_counter = id_counter })
same_jobs-IsWell q entries id_counter w = Touched-IsWell q _ w (record {
  next_ref = refl;
  jobs = refl;
  queue = refl;
  timers = refl;
  same_id = λ a. refl;
  same_queued = λ a. refl;
  same_delayed = λ a. refl;
})

record_dedup-IsWell :
    (q : TestQueue) (dedup : Option Deduplication) (id : String) (now : ℕ)
    → IsWell q
    → IsWell (record_dedup q dedup id now)
unfolding record_dedup
record_dedup-IsWell q none id now w = w
record_dedup-IsWell q (some dedup) id now w = same_jobs-IsWell q _ q.id_counter w

record_dedup-jobs :
    (q : TestQueue) (dedup : Option Deduplication) (id : String) (now : ℕ)
    → (record_dedup q dedup id now).jobs ≡ q.jobs
unfolding record_dedup
record_dedup-jobs q none id now = refl
record_dedup-jobs q (some dedup) id now = refl

add_with_id-IsWell :
    (q : TestQueue) (name : String) (payload : Payload) (opts : JobOptions) (id : String) (now : ℕ)
    → IsWell q
    → get? id q.jobs ≡ none
    → IsWell (add_with_id q name payload opts id now).1
unfolding add_with_id
add_with_id-IsWell q name payload opts id now w f =
    insert_record-IsWell _ name payload opts id now opts.delay
      (record_dedup-IsWell q (dedup_of q opts) id now w)
      (ap (get? id) (record_dedup-jobs q (dedup_of q opts) id now) ∙ f)

tracked-IsWell :
    (q : TestQueue) (mode : DedupMode) (o : Option ℕ) → IsWell q → IsWell (tracked q mode o).1
unfolding tracked
tracked-IsWell q mode none w = w
tracked-IsWell q simple (some ref) w = w
tracked-IsWell q throttle (some ref) w = w
tracked-IsWell q debounce (some ref) w =
    let r = q.records ref in
    if_intro (λ (d : Bool × TestQueue). IsWell d.1) (is_completed r.state || is_failed r.state) _ _
      (λ _. w)
      λ _.
        if_intro (λ (d : Bool × TestQueue). IsWell d.1)
          (is_delayed r.state || is_prioritized r.state) _ _ (λ _. remove_job-IsWell q r.id w)
          (λ _. w)

dedup_entry-IsWell :
    (q : TestQueue) (dedup : Deduplication) (now : ℕ) (o : Option (String × ℕ))
    → IsWell q
    → IsWell (dedup_entry q dedup now o).1
unfolding dedup_entry
dedup_entry-IsWell q dedup now none w = w
dedup_entry-IsWell q dedup now (some (job_id, t)) w = by_mode dedup.mode
  where
    by_mode :
        (m : DedupMode)
        → IsWell
            (elim m as (λ _. Bool × TestQueue) [
              | throttle ↦ (ltb 0 dedup.ttl && ltb now (t + dedup.ttl), q)
              | simple ↦ tracked q simple (get? job_id q.jobs)
              | debounce ↦ tracked q debounce (get? job_id q.jobs)
            ]).1
    by_mode simple = tracked-IsWell q simple (get? job_id q.jobs) w
    by_mode throttle = w
    by_mode debounce = tracked-IsWell q debounce (get? job_id q.jobs) w

check_dedup-IsWell :
    (q : TestQueue) (dedup : Option Deduplication) (now : ℕ)
    → IsWell q
    → IsWell (check_dedup q dedup now).1
unfolding check_dedup is_deduplicated
check_dedup-IsWell q none now w = w
check_dedup-IsWell q (some dedup) now w =
    dedup_entry-IsWell q dedup now (get? dedup.id q.dedup_entries) w

add_generated-IsWell :
    (name : String) (payload : Payload) (opts : JobOptions) (now : ℕ)
    (g : Option String × TestQueue)
    → IsWell g.1
    → ((id : String) → g.0 ≡ some id → get? id g.1.jobs ≡ none)
    → IsWell (add_generated name payload opts now g).1
unfolding add_generated
add_generated-IsWell name payload opts now (none, q) w f = w
add_generated-IsWell name payload opts now (some id, q) w f =
    add_with_id-IsWell q name payload opts id now w (f id refl)

add_unless_duplicate-IsWell :
    (name : String) (payload : Payload) (opts : JobOptions) (now : ℕ) (d : Bool × TestQueue)
    → IsWell d.1
    → IsWell (add_unless_duplicate name payload opts now d).1
unfolding add_unless_duplicate generate_job_id is_there
add_unless_duplicate-IsWell name payload opts now (true, q) w = w
add_unless_duplicate-IsWell name payload opts now (false, q) w =
    if_intro (λ (d : Result QueueError (Option ℕ) × TestQueue). IsWell d.1)
      (is_empty_text opts.job_id) _ _
      (λ _.
        add_generated-IsWell name payload opts now (generate_job_id q)
          (same_jobs-IsWell q q.dedup_entries _ w)
          (λ id h. free_id-free q.jobs max_collisions q.id_counter id h))
      λ _.
        if_intro (λ (d : Result QueueError (Option ℕ) × TestQueue). IsWell d.1)
          (is_there (get? opts.job_id q.jobs)) _ _ (λ _. w)
          λ h. add_with_id-IsWell q name payload opts opts.job_id now w (not-is_there _ h)

add_checked-IsWell :
    (q : TestQueue) (name : String) (payload : Payload) (opts : JobOptions) (now : ℕ)
    (c : Result OptionError (Unit {0}))
    → IsWell q
    → IsWell (add_checked q name payload opts now c).1
unfolding add_checked
add_checked-IsWell q name payload opts now (err e) w = w
add_checked-IsWell q name payload opts now (ok _) w =
    add_unless_duplicate-IsWell name payload opts now _
      (check_dedup-IsWell q (dedup_of q opts) now w)

pub add-IsWell :
    (q : TestQueue) (name : String) (payload : Payload) (opts : JobOptions) (now : ℕ)
    → IsWell q
    → IsWell (add q name payload opts now).1
unfolding add
add-IsWell q name payload opts now w = add_checked-IsWell q name payload opts now _ w
