-- ===== src/InMemory/System.antt =====
-- The in-memory queue of src/testing.ts with one worker: what clients, timers and the worker do to it, in
-- any order. A method runs to its next `await` without interruption, so a call is one step.
use glide_mq.Common.{
  ℕ, ◌-◌, ◌≡◌, ◌<◌, String, Bool, true, false, not, List, [], ◌∷◌, Option, none, some, get?, ◌==◌,
  Result, ok, err,
}
use glide_mq.Options.{JobOptions, Payload}
use glide_mq.InMemory.Jobs.{JobRecord}
use glide_mq.InMemory.Store.{TestQueue, promotion_due}
use glide_mq.InMemory.Add.{QueueError, add}
use glide_mq.InMemory.Change.{revoke, change_priority, change_delay, promote, retry, remove}
use glide_mq.InMemory.Bulk.{
  Finished, refs_where, clean, drain, retry_jobs, obliterate, pause, resume,
}
use glide_mq.InMemory.Worker.{RateLimiter, TestWorker, claim, Control, control}
use glide_mq.InMemory.Ends.{Failure, complete, expire, postpone, handle_failure}
use glide_mq.InMemory.Keys.{occurs}

-- An entry of addBulk, which awaits each add: other steps between them are those of several adds.
pub record Entry : Type 0 where
  pub name : String
  pub payload : Payload
  pub opts : JobOptions

-- The references of the jobs that were added; an error of add() ends the loop.
unfoldable pub with_ref : Option ℕ → Result QueueError (List ℕ) → Result QueueError (List ℕ)
with_ref none refs = refs
with_ref (some ref) (ok refs) = ok (ref ∷ refs)
with_ref (some ref) (err e) = err e

unfoldable pub bulk_next :
    Result QueueError (Option ℕ) × TestQueue
    → Result QueueError (List ℕ) × TestQueue
    → Result QueueError (List ℕ) × TestQueue
unfolding with_ref
bulk_next (err e, q) rest = (err e, q)
bulk_next (ok ref, q) (refs, q') = (with_ref ref refs, q')

unfoldable pub add_bulk : TestQueue → List Entry → ℕ → Result QueueError (List ℕ) × TestQueue
unfolding add bulk_next
add_bulk q [] now = (ok [], q)
add_bulk q (e ∷ es) now =
    let added = add q e.name e.payload e.opts now in bulk_next added (add_bulk added.1 es now)

-- The calls of a client. A job is named by the reference that its TestJob holds.
pub data Change : Type 0 where
  adds : (entry : Entry) → Change
  adds_all : (entries : List Entry) → Change
  revokes : (job_id : String) → Change
  changes_priority : (job new_priority : ℕ) → Change
  changes_delay : (job new_delay : ℕ) → Change
  promotes retries removes : (job : ℕ) → Change
  cleans : (grace limit : ℕ) (type : Finished) → Change
  drains : (delayed : Bool) → Change
  retries_jobs : (limit : ℕ) → Change
  obliterates : (force : Bool) → Change
  pauses resumes : Change

unfoldable pub apply : Change → TestQueue → ℕ → TestQueue
unfolding add add_bulk revoke change_priority change_delay promote retry remove clean drain
    retry_jobs obliterate pause resume
apply (adds e) q now = (add q e.name e.payload e.opts now).1
apply (adds_all es) q now = (add_bulk q es now).1
apply (revokes job_id) q now = (revoke q job_id now).1
apply (changes_priority job p) q now = (change_priority q job p).1
apply (changes_delay job d) q now = (change_delay q job d now).1
apply (promotes job) q now = (promote q job).1
apply (retries job) q now = (retry q job now).1
apply (removes job) q now = remove q job
apply (cleans grace limit type) q now = (clean q grace limit type now).1
apply (drains delayed) q now = drain q delayed
apply (retries_jobs limit) q now = (retry_jobs q limit now).1
apply (obliterates force) q now = (obliterate q force).1
apply pauses q now = pause q
apply resumes q now = resume q

-- How processJob ends.
pub data Ending : Type 0 where
  returned expired : Ending
  fails : (failure : Failure) → Ending
  postponed : (delay_ms : ℕ) → Ending

unfoldable pub settle : TestWorker → TestQueue → ℕ → Ending → ℕ → TestWorker × TestQueue
unfolding complete expire handle_failure postpone
settle w q ref returned now = (w, complete q ref now)
settle w q ref expired now = (w, expire q ref now)
settle w q ref (fails failure) now = handle_failure w q ref failure now
settle w q ref (postponed delay_ms) now = (w, postpone q ref delay_ms now)

-- `running` holds the jobs whose processJob has not ended.
pub record System : Type 0 where
  pub queue : TestQueue
  pub worker : TestWorker
  pub running : List ℕ

unfoldable pub with_claim : List ℕ → Option ℕ × TestWorker × TestQueue → System
with_claim running (none, w, q) = record { queue = q; worker = w; running = running }
with_claim running (some ref, w, q) = record { queue = q; worker = w; running = ref ∷ running }

unfoldable pub with_end : List ℕ → ℕ → TestWorker × TestQueue → System
unfolding refs_where
with_end running ref (w, q) = record {
  queue = q;
  worker = record w { active_count = w.active_count - 1 };
  running = refs_where (λ a. not (a == ref)) running;
}

pub data Step : System → System → Type 0 where
  client : (s : System) (c : Change) (now : ℕ) → Step s (record s { queue = apply c s.queue now })
  timer :
      (s : System) (id : String) (ref : ℕ)
      → get? id s.queue.promotion_timers ≡ some ref
      → Step s (record s { queue = promotion_due s.queue ref })
  dispatch : (s : System) (now : ℕ) → Step s (with_claim s.running (claim s.worker s.queue now))
  manage :
      (s : System) (c : Control) (now : ℕ) → Step s (record s { worker = control c s.worker now })
  finish :
      (s : System) (ref : ℕ) (e : Ending) (now : ℕ)
      → 0 < occurs ref s.running
      → Step s (with_end s.running ref (settle s.worker s.queue ref e now))

pub data Reach (s : System) : System → Type 0 where
  here : Reach s s
  step : {t u : System} → Reach s t → Step t u → Reach s u

-- `new TestQueue` and `new TestWorker`; `store` is what lies at the references that are not used yet.
unfoldable pub new_queue : (ℕ → JobRecord) → Bool → TestQueue
new_queue store dedup_enabled = record {
  records = store;
  next_ref = 0;
  jobs = [];
  waiting_queue = [];
  dedup_entries = [];
  promotion_timers = [];
  id_counter = 0;
  paused = false;
  dedup_enabled = dedup_enabled;
}

unfoldable pub new_worker : ℕ → Option RateLimiter → TestWorker
new_worker concurrency limiter = record {
  concurrency = concurrency;
  active_count = 0;
  paused = false;
  running = true;
  limiter = limiter;
  rate_limit_until = 0;
  rate_window_start = 0;
  rate_window_count = 0;
}

abbrev pub start : (ℕ → JobRecord) → Bool → ℕ → Option RateLimiter → System
start store dedup_enabled concurrency limiter = record {
  queue = new_queue store dedup_enabled;
  worker = new_worker concurrency limiter;
  running = [];
}
