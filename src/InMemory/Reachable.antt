-- ===== src/InMemory/Reachable.antt =====
-- The steps of the in-memory queue and its worker, src/testing.ts, with the invariant of both.
use glide_mq.Common.{
  Result, ok, err, ℕ, suc, ◌+◌, ◌<◌, ◌≤◌, ◌≡◌, ◌≢◌, refl, ◌∙◌, ap, subst, true, not, List, [], ◌∷◌,
  Option, none, some, ◌==◌, if◌then◌else◌, arith, length, ℕ_discrete,
}
use glide_mq.InMemory.Jobs.{is_active}
use glide_mq.InMemory.Store.{TestQueue}
use glide_mq.InMemory.Bulk.{refs_where}
use glide_mq.InMemory.Worker.{
  TestWorker, Control, limits_rate, pauses_worker, resumes_worker, closes_worker, control,
}
use glide_mq.InMemory.Ends.{Failure, handle_failure, hold_dispatch}
use glide_mq.InMemory.System.{
  Entry, bulk_next, add_bulk, adds_all, Change, adds, revokes, changes_priority, changes_delay,
  promotes, retries, removes, cleans, drains, retries_jobs, obliterates, pauses, resumes, apply,
  Ending, returned, expired, fails, postponed, settle, System, with_claim, with_end, Step, client,
  timer, dispatch, manage, finish, Reach, here, step,
}
use glide_mq.InMemory.Add.{QueueError, add}
use glide_mq.InMemory.Keys.{occurs}
use glide_mq.InMemory.States.{queued_apart}
use glide_mq.InMemory.Well.{IsWell}
use glide_mq.InMemory.Members.{occurs-refs_where}
use glide_mq.InMemory.Added.{add-IsWell}
use glide_mq.InMemory.Changed.{
  live_of_lookup, promotion_due-IsWell, revoke-IsWell, change_priority-IsWell, change_delay-IsWell,
  promote-IsWell, retry-IsWell, remove-IsWell,
}
use glide_mq.InMemory.Retained.{clean-IsWell}
use glide_mq.InMemory.Bulked.{
  drain-IsWell, retry_jobs-IsWell, obliterate-IsWell, pause-IsWell, resume-IsWell,
}
use glide_mq.InMemory.Settled.{
  complete-IsWell, expire-IsWell, handle_failure-IsWell, postpone-IsWell,
}
use glide_mq.InMemory.Steady.{Steady}
use glide_mq.InMemory.Calm.{promotion_due-Steady}
use glide_mq.InMemory.CalmAdd.{apply-Steady}
use glide_mq.InMemory.Claimed.{Claimed, claim-Claimed}
use glide_mq.InMemory.Untaken.{settle-Others}

add_bulk-IsWell :
    (es : List Entry) (q : TestQueue) (now : ℕ) → IsWell q → IsWell (add_bulk q es now).1
unfolding add_bulk bulk_next
add_bulk-IsWell [] q now w = w
add_bulk-IsWell (e ∷ es) q now w =
    next (add q e.name e.payload e.opts now) _ added (add_bulk-IsWell es _ now added)
  where
    added : IsWell (add q e.name e.payload e.opts now).1
    added = add-IsWell q e.name e.payload e.opts now w

    next :
        (d : Result QueueError (Option ℕ) × TestQueue) (r : Result QueueError (List ℕ) × TestQueue)
        → IsWell d.1
        → IsWell r.1
        → IsWell (bulk_next d r).1
    next (err x, p) r a b = a
    next (ok o, p) (rs, p') a b = b

pub apply-IsWell : (c : Change) (q : TestQueue) (now : ℕ) → IsWell q → IsWell (apply c q now)
unfolding apply
apply-IsWell (adds e) q now w = add-IsWell q e.name e.payload e.opts now w
apply-IsWell (adds_all es) q now w = add_bulk-IsWell es q now w
apply-IsWell (revokes job_id) q now w = revoke-IsWell q job_id now w
apply-IsWell (changes_priority job p) q now w = change_priority-IsWell q job p w
apply-IsWell (changes_delay job d) q now w = change_delay-IsWell q job d now w
apply-IsWell (promotes job) q now w = promote-IsWell q job w
apply-IsWell (retries job) q now w = retry-IsWell q job now w
apply-IsWell (removes job) q now w = remove-IsWell q job w
apply-IsWell (cleans grace limit type) q now w = clean-IsWell q grace limit type now w
apply-IsWell (drains delayed) q now w = drain-IsWell q delayed w
apply-IsWell (retries_jobs limit) q now w = retry_jobs-IsWell q limit now w
apply-IsWell (obliterates force) q now w = obliterate-IsWell q force w
apply-IsWell pauses q now w = pause-IsWell q w
apply-IsWell resumes q now w = resume-IsWell q w

pub settle-IsWell :
    (worker : TestWorker) (q : TestQueue) (ref : ℕ) (e : Ending) (now : ℕ)
    → IsWell q
    → is_active (q.records ref).state ≡ true
    → IsWell (settle worker q ref e now).1
unfolding settle
settle-IsWell worker q ref returned now w a = complete-IsWell q w ref a now
settle-IsWell worker q ref expired now w a = expire-IsWell q w ref a now
settle-IsWell worker q ref (fails f) now w a = handle_failure-IsWell q w ref a worker f now
settle-IsWell worker q ref (postponed d) now w a = postpone-IsWell q w ref a d now

-- The running jobs are active, and the worker counts them.
pub record IsSound (s : System) : Type 0 where
  pub well : IsWell s.queue
  pub made : (a : ℕ) → 0 < occurs a s.running → a < s.queue.next_ref
  pub runs : (a : ℕ) → 0 < occurs a s.running → is_active (s.queue.records a).state ≡ true
  pub apart : (a : ℕ) → occurs a s.running ≤ 1
  pub counted : s.worker.active_count ≡ length s.running
  pub bounded : s.worker.active_count ≤ s.worker.concurrency

-- A step of the queue alone.
queue_step-IsSound :
    (s : System) (q' : TestQueue)
    → IsSound s
    → IsWell q'
    → Steady s.queue q'
    → IsSound (record s { queue = q' })
queue_step-IsSound s q' k w d = record {
  well = w;
  made = λ a o. omega (arith, k.made a o, d.grows);
  runs = λ a o. d.keeps a (k.made a o) (k.runs a o);
  apart = k.apart;
  counted = k.counted;
  bounded = k.bounded;
}

with_claim-IsSound :
    (s : System) (d : Option ℕ × TestWorker × TestQueue)
    → IsSound s
    → Claimed s.worker s.queue d
    → IsSound (with_claim s.running d)
unfolding with_claim occurs
with_claim-IsSound s (none, w, q) k c = record {
  well = c.well;
  made = λ a o. omega (arith, k.made a o, c.steady.grows);
  runs = λ a o. c.steady.keeps a (k.made a o) (k.runs a o);
  apart = k.apart;
  counted = c.unclaimed refl ∙ k.counted;
  bounded = omega (arith, c.unclaimed refl, c.concurrency, k.bounded);
}
with_claim-IsSound s (some ref, w, q) k c =
    let t = c.claimed ref refl in
    record {
      well = c.well;
      made = λ a o. ground (arith, t.made, k.made a, c.steady.grows);
      runs = λ a o. elim (ℕ_discrete ref a) [
        | yes e ↦ subst (λ b. is_active (q.records b).state ≡ true) e t.now_active
        | no n ↦
            let o' : 0 < occurs a s.running = ground arith in
            c.steady.keeps a (k.made a o') (k.runs a o')
      ];
      apart = λ a.
          ground
            (arith, k.apart a, k.runs a, queued_apart (s.queue.records ref).state t.was_queued);
      counted = t.counted ∙ ap suc k.counted;
      bounded = omega (arith, t.counted, t.room, c.concurrency);
    }

-- One job leaves the list of running jobs.
length-refs_where :
    (ref : ℕ) (xs : List ℕ)
    → length xs ≡ occurs ref xs + length (refs_where (λ a. not (a == ref)) xs)
unfolding occurs refs_where
length-refs_where ref [] = omega arith
length-refs_where ref (x ∷ xs) = ground (arith, length-refs_where ref xs)

settle-load :
    (w : TestWorker) (q : TestQueue) (ref : ℕ) (e : Ending) (now : ℕ)
    → ((settle w q ref e now).0.active_count ≡ w.active_count)
      × ((settle w q ref e now).0.concurrency ≡ w.concurrency)
unfolding settle handle_failure hold_dispatch
settle-load w q ref returned now = (refl, refl)
settle-load w q ref expired now = (refl, refl)
settle-load w q ref (fails (Failure.rate_limited ms)) now = (refl, refl)
settle-load w q ref (fails (Failure.thrown m u)) now = (refl, refl)
settle-load w q ref (postponed d) now = (refl, refl)

finish-IsSound :
    (s : System) (ref : ℕ) (e : Ending) (now : ℕ)
    → IsSound s
    → 0 < occurs ref s.running
    → IsSound (with_end s.running ref (settle s.worker s.queue ref e now))
unfolding with_end
finish-IsSound s ref e now k o =
    let d = settle-Others s.worker s.queue ref e now in
    let (c, n) = settle-load s.worker s.queue ref e now in
    record {
      well = settle-IsWell s.worker s.queue ref e now k.well (k.runs ref o);
      made = λ a h. omega (arith, d.next_ref, k.made a (was a h).0);
      runs = λ a h. ap (λ r. is_active r.state) (d.others a (was a h).1) ∙ k.runs a (was a h).0;
      apart = λ a. ground (arith, left a, k.apart a);
      counted = omega (arith, c, k.counted, k.apart ref, length-refs_where ref s.running);
      bounded = omega (arith, c, n, k.bounded);
    }
  where
    left :
        (a : ℕ)
        → occurs a (refs_where (λ a. not (a == ref)) s.running)
          ≡ (if not (a == ref) then occurs a s.running else 0)
    left a = occurs-refs_where a (λ a. not (a == ref)) s.running

    was :
        (a : ℕ)
        → 0 < occurs a (refs_where (λ a. not (a == ref)) s.running)
        → (0 < occurs a s.running) × (a ≢ ref)
    was a h = ground (arith, left a)

control-load :
    (c : Control) (w : TestWorker) (now : ℕ)
    → ((control c w now).active_count ≡ w.active_count)
      × ((control c w now).concurrency ≡ w.concurrency)
unfolding control
control-load (limits_rate ms) w now = (refl, refl)
control-load pauses_worker w now = (refl, refl)
control-load resumes_worker w now = (refl, refl)
control-load closes_worker w now = (refl, refl)

manage-IsSound :
    (s : System) (c : Control) (now : ℕ)
    → IsSound s
    → IsSound (record s { worker = control c s.worker now })
manage-IsSound s c now k =
    let (n, m) = control-load c s.worker now in
    record {
      well = k.well;
      made = k.made;
      runs = k.runs;
      apart = k.apart;
      counted = n ∙ k.counted;
      bounded = omega (arith, n, m, k.bounded);
    }

pub Step-IsSound : {s t : System} → Step s t → IsSound s → IsSound t
Step-IsSound (client s c now) k =
    queue_step-IsSound s _ k (apply-IsWell c s.queue now k.well) (apply-Steady c s.queue now)
Step-IsSound (timer s id ref h) k =
    let (j, d) = k.well.timers id ref h in
    queue_step-IsSound s _ k
      (promotion_due-IsWell s.queue k.well ref (live_of_lookup s.queue id ref k.well j) d)
      (promotion_due-Steady s.queue ref d)
Step-IsSound (dispatch s now) k =
    with_claim-IsSound s _ k (claim-Claimed s.worker s.queue now k.well)
Step-IsSound (manage s c now) k = manage-IsSound s c now k
Step-IsSound (finish s ref e now h) k = finish-IsSound s ref e now k h

-- After any steps from a sound system the system is sound.
pub Reach-IsSound : {s t : System} → Reach s t → IsSound s → IsSound t
Reach-IsSound here k = k
Reach-IsSound (step r x) k = Step-IsSound x (Reach-IsSound r k)
