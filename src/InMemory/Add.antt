-- ===== src/InMemory/Add.antt =====
-- Adding and removing jobs in src/testing.ts: TestQueue.add, generateJobId, insertRecord,
-- isDeduplicated and removeJob. Each job has an options object of its own.
use Prim.Native.Char.{Char}
use Prim.Native.String.{String}
use glide_mq.Common.{
  ℕ, zero, suc, ◌+◌, ◌/◌, ◌%◌, Bool, true, false, ◌&&◌, ◌||◌, not, Option, none, some, Map, get?,
  set, ltb, ◌==◌, if◌then◌else◌, Result, ok, err, ◌>>◌,
}
use glide_mq.Options.{
  JobOptions, Payload, OptionError, Deduplication, DedupMode, simple, throttle, debounce,
  is_empty_text, check_priority, validate_job_options, validate_job_data_size,
}
use glide_mq.InMemory.Jobs.{JobRecord, waiting, is_prioritized, is_completed, is_failed, is_delayed}
use glide_mq.InMemory.Store.{
  TestQueue, update, delete, dequeue_record, clear_promotion, enqueue_waiting, enqueue_prioritized,
  park_delayed,
}

pub data QueueError : Type 0 where
  bad_options : OptionError → QueueError
  too_many_collisions : QueueError

unfoldable pub digit : ℕ → Char
digit n =
    if n == 0
    then "0"
    else if n == 1
    then "1"
    else if n == 2
    then "2"
    else if n == 3
    then "3"
    else if n == 4
    then "4"
    else if n == 5
    then "5"
    else if n == 6
    then "6"
    else if n == 7
    then "7"
    else if n == 8
    then "8"
    else "9"

-- The digits of `n` before those of `rest`, on fuel above `n`.
unfoldable pub digits_onto : ℕ → ℕ → String → String
unfolding digit
digits_onto zero n rest = rest
digits_onto (suc fuel) n rest =
    let more = digits_onto fuel (n / 10) (String.◌∷◌ (digit (n % 10)) rest) in
    if ltb n 10 then String.◌∷◌ (digit n) rest else more

-- `String(n)`
unfoldable pub decimal : ℕ → String
unfolding digits_onto
decimal n = digits_onto (suc n) n String.[]

unfoldable pub is_there {ℓ} : {V : Type ℓ} → Option V → Bool
is_there none = false
is_there (some v) = true

-- The loop of generateJobId on the collisions left: the id, if one is free, and the counter.
unfoldable pub free_id : Map ℕ → ℕ → ℕ → Option String × ℕ
unfolding decimal is_there get?
free_id jobs zero id_counter = (none, id_counter)
free_id jobs (suc left) id_counter =
    let id = decimal (suc id_counter) in
    let retry = free_id jobs left (suc id_counter) in
    if is_there (get? id jobs) then retry else (some id, suc id_counter)

abbrev pub max_collisions : ℕ
max_collisions = 1000

unfoldable pub generate_job_id : TestQueue → Option String × TestQueue
unfolding free_id
generate_job_id q =
    let (id, id_counter) = free_id q.jobs max_collisions q.id_counter in
    (id, record q { id_counter = id_counter })

unfoldable pub expire_at : ℕ → ℕ → Option ℕ
expire_at ttl now = if ltb 0 ttl then some (now + ttl) else none

abbrev pub new_record : String → Payload → JobOptions → String → ℕ → JobRecord
new_record name payload opts id now = record {
  id = id;
  name = name;
  payload = payload;
  opts = opts;
  state = waiting;
  attempts_made = 0;
  failed_reason = none;
  timestamp = now;
  finished_on = none;
  processed_on = none;
  expire_at = expire_at opts.ttl now;
  fallback_index = 0;
  delayed_until = none;
  revoked = false;
}

-- The new record, stored under its id.
unfoldable pub store_record : TestQueue → JobRecord → TestQueue
unfolding update set
store_record q r = record q {
  records = update q.next_ref r q.records;
  next_ref = suc q.next_ref;
  jobs = set r.id q.next_ref q.jobs;
}

unfoldable pub insert_record :
    TestQueue → String → Payload → JobOptions → String → ℕ → ℕ → TestQueue
unfolding store_record expire_at park_delayed enqueue_prioritized enqueue_waiting
insert_record q name payload opts id now delay =
    let q' = store_record q (new_record name payload opts id now) in
    if ltb 0 delay
    then park_delayed q' q.next_ref delay now
    else if ltb 0 opts.priority
    then enqueue_prioritized q' q.next_ref
    else enqueue_waiting q' q.next_ref

-- `removeJob` of a job that is there.
unfoldable pub remove_record : TestQueue → String → ℕ → TestQueue
unfolding clear_promotion dequeue_record delete
remove_record q id ref =
    let q' = dequeue_record (clear_promotion q id) ref in record q' { jobs = delete id q'.jobs }

unfoldable pub remove_found : TestQueue → String → Option ℕ → Bool × TestQueue
unfolding remove_record
remove_found q id none = (false, q)
remove_found q id (some ref) = (true, remove_record q id ref)

unfoldable pub remove_job : TestQueue → String → Bool × TestQueue
unfolding remove_found get?
remove_job q id = remove_found q id (get? id q.jobs)

-- The job that the entry tracks.
unfoldable pub tracked : TestQueue → DedupMode → Option ℕ → Bool × TestQueue
unfolding is_completed is_failed is_delayed is_prioritized remove_job
tracked q mode none = (false, q)
tracked q simple (some ref) =
    let s = (q.records ref).state in (not (is_completed s || is_failed s), q)
tracked q throttle (some ref) = (false, q)
tracked q debounce (some ref) =
    let r = q.records ref in
    if is_completed r.state || is_failed r.state
    then (false, q)
    else if is_delayed r.state || is_prioritized r.state
    then (false, (remove_job q r.id).1)
    else (true, q)

unfoldable pub dedup_entry : TestQueue → Deduplication → ℕ → Option (String × ℕ) → Bool × TestQueue
unfolding tracked get?
dedup_entry q dedup now none = (false, q)
dedup_entry q dedup now (some (job_id, timestamp)) = elim dedup.mode [
  | throttle ↦ (ltb 0 dedup.ttl && ltb now (timestamp + dedup.ttl), q)
  | simple ↦ tracked q simple (get? job_id q.jobs)
  | debounce ↦ tracked q debounce (get? job_id q.jobs)
]

unfoldable pub is_deduplicated : TestQueue → Deduplication → ℕ → Bool × TestQueue
unfolding dedup_entry get?
is_deduplicated q dedup now = dedup_entry q dedup now (get? dedup.id q.dedup_entries)

unfoldable pub dedup_of : TestQueue → JobOptions → Option Deduplication
dedup_of q opts = if q.dedup_enabled then opts.deduplication else none

unfoldable pub check_dedup : TestQueue → Option Deduplication → ℕ → Bool × TestQueue
unfolding is_deduplicated
check_dedup q none now = (false, q)
check_dedup q (some dedup) now = is_deduplicated q dedup now

-- The entry is recorded once all checks have passed.
unfoldable pub record_dedup : TestQueue → Option Deduplication → String → ℕ → TestQueue
unfolding set
record_dedup q none id now = q
record_dedup q (some dedup) id now = record q {
  dedup_entries = set dedup.id (id, now) q.dedup_entries;
}

unfoldable pub add_with_id :
    TestQueue
    → String
    → Payload
    → JobOptions
    → String
    → ℕ
    → Result QueueError (Option ℕ) × TestQueue
unfolding record_dedup dedup_of insert_record
add_with_id q name payload opts id now = (
  ok (some q.next_ref),
  insert_record (record_dedup q (dedup_of q opts) id now) name payload opts id now opts.delay,
)

unfoldable pub add_generated :
    String
    → Payload
    → JobOptions
    → ℕ
    → Option String × TestQueue
    → Result QueueError (Option ℕ) × TestQueue
unfolding add_with_id
add_generated name payload opts now (none, q) = (err too_many_collisions, q)
add_generated name payload opts now (some id, q) = add_with_id q name payload opts id now

unfoldable pub add_unless_duplicate :
    String → Payload → JobOptions → ℕ → Bool × TestQueue → Result QueueError (Option ℕ) × TestQueue
unfolding is_empty_text is_there get? add_generated generate_job_id add_with_id
add_unless_duplicate name payload opts now (true, q) = (ok none, q)
add_unless_duplicate name payload opts now (false, q) =
    if is_empty_text opts.job_id
    then add_generated name payload opts now (generate_job_id q)
    else if is_there (get? opts.job_id q.jobs)
    then (ok none, q)
    else add_with_id q name payload opts opts.job_id now

unfoldable pub add_checked :
    TestQueue
    → String
    → Payload
    → JobOptions
    → ℕ
    → Result OptionError (Unit {0})
    → Result QueueError (Option ℕ) × TestQueue
unfolding add_unless_duplicate check_dedup dedup_of
add_checked q name payload opts now (err e) = (err (bad_options e), q)
add_checked q name payload opts now (ok _) =
    add_unless_duplicate name payload opts now (check_dedup q (dedup_of q opts) now)

-- The reference of the new job, or `none` for a duplicate.
unfoldable pub add :
    TestQueue → String → Payload → JobOptions → ℕ → Result QueueError (Option ℕ) × TestQueue
unfolding add_checked check_priority validate_job_options validate_job_data_size
add q name payload opts now =
    add_checked q name payload opts now
      (check_priority opts.priority >> validate_job_options opts >> validate_job_data_size payload)
