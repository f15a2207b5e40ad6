-- ===== src/InMemory/Kept.antt =====
-- Jobs that come and go in the in-memory queue of src/testing.ts, and changes that move no job.
use glide_mq.Common.{
  subst, ℕ, ◌≡◌, refl, sym, ◌∙◌, ap, String, text_dec, ite, Bool, true, false, Option, none, some,
  get?, get?-set, arith,
}
use glide_mq.InMemory.Jobs.{JobRecord, is_queued, is_delayed}
use glide_mq.InMemory.Store.{TestQueue, update, clear_promotion, dequeue_record}
use glide_mq.InMemory.Add.{store_record, remove_record, remove_found, remove_job}
use glide_mq.InMemory.Keys.{IsApart, delete-IsApart, set-IsApart, occurs, get?-delete}
use glide_mq.InMemory.Well.{IsWell, occurs-without_id}

-- From `q` to `q'` the jobs with a dropped id are gone, from the queue and the timers too.
pub record Dropped (q : TestQueue) (dropped : String → Bool) (q' : TestQueue) : Type 0 where
  pub records : q'.records ≡ q.records
  pub next_ref : q'.next_ref ≡ q.next_ref
  pub apart : IsApart q'.jobs
  pub kept : (j : String) → dropped j ≡ false → get? j q'.jobs ≡ get? j q.jobs
  pub gone : (j : String) → dropped j ≡ true → get? j q'.jobs ≡ none
  pub queue :
      (a : ℕ)
      → dropped (q.records a).id ≡ false
      → occurs a q'.waiting_queue ≡ occurs a q.waiting_queue
  pub queue_gone : (a : ℕ) → dropped (q.records a).id ≡ true → occurs a q'.waiting_queue ≡ 0
  pub timers :
      (j : String) → dropped j ≡ false → get? j q'.promotion_timers ≡ get? j q.promotion_timers
  pub timers_gone : (j : String) → dropped j ≡ true → get? j q'.promotion_timers ≡ none

module _ (q : TestQueue) (dropped : String → Bool) (q' : TestQueue) (w : IsWell q)
    (d : Dropped q dropped q') where
  record_at : (a : ℕ) → q'.records a ≡ q.records a
  record_at a = ap (λ (f : ℕ → JobRecord). f a) d.records

  -- A job that is still there was there, and its id was not dropped.
  was :
      (id : String) (a : ℕ)
      → get? id q'.jobs ≡ some a
      → (dropped id ≡ false) × (get? id q.jobs ≡ some a)
  was id a h = ground (arith, d.kept id, d.gone id)

  pub Dropped-IsWell : IsWell q'
  Dropped-IsWell = record {
    apart = d.apart;
    ids = λ id a h. ap (λ r. r.id) (record_at a) ∙ w.ids id a (was id a h).1;
    made = λ id a h. rw d.next_ref (w.made id a (was id a h).1);
    once = λ a. ground (arith, d.queue a, d.queue_gone a, w.once a);
    stored = λ a h.
        let e = ap (λ r. get? r.id q'.jobs) (record_at a) in
        ground (arith, e, d.queue a, d.queue_gone a, d.kept (q.records a).id, w.stored a);
    queued = λ a h.
        let e = ap (λ r. is_queued r.state) (record_at a) in
        ground (arith, e, d.queue a, d.queue_gone a, w.queued a);
    reachable = λ id a h k.
        let (f, h') = was id a h in
        let e = ap (λ r. is_queued r.state) (record_at a) in
        let i = w.ids id a h' in ground (arith, e, d.queue a, w.reachable id a);
    timed = λ id a h k.
        let (f, h') = was id a h in
        let e = ap (λ r. is_delayed r.state) (record_at a) in
        ground (arith, e, d.timers id, w.timed id a);
    timers = λ id a h.
        let e = ap (λ r. is_delayed r.state) (record_at a) in
        ground (arith, e, d.timers id, d.timers_gone id, d.kept id, w.timers id a);
  }

-- From `q` to `q'` records changed in fields that the queue does not go by.
pub record Touched (q q' : TestQueue) : Type 0 where
  pub next_ref : q'.next_ref ≡ q.next_ref
  pub jobs : q'.jobs ≡ q.jobs
  pub queue : q'.waiting_queue ≡ q.waiting_queue
  pub timers : q'.promotion_timers ≡ q.promotion_timers
  pub same_id : (a : ℕ) → (q'.records a).id ≡ (q.records a).id
  pub same_queued : (a : ℕ) → is_queued (q'.records a).state ≡ is_queued (q.records a).state
  pub same_delayed : (a : ℕ) → is_delayed (q'.records a).state ≡ is_delayed (q.records a).state

module _ (q q' : TestQueue) (w : IsWell q) (t : Touched q q') where
  pub Touched-IsWell : IsWell q'
  Touched-IsWell = record {
    apart = subst IsApart (sym t.jobs) w.apart;
    ids = λ id a h. t.same_id a ∙ w.ids id a (ap (get? id) (sym t.jobs) ∙ h);
    made = λ id a h. rw t.next_ref (w.made id a (ap (get? id) (sym t.jobs) ∙ h));
    once = λ a. omega (arith, ap (occurs a) t.queue, w.once a);
    stored = λ a h.
        ap (get? (q'.records a).id) t.jobs
        ∙ ap (λ i. get? i q.jobs) (t.same_id a)
        ∙ w.stored a (omega (arith, ap (occurs a) t.queue));
    queued = λ a h. t.same_queued a ∙ w.queued a (omega (arith, ap (occurs a) t.queue));
    reachable = λ id a h k.
        let l = w.reachable id a (ap (get? id) (sym t.jobs) ∙ h) (sym (t.same_queued a) ∙ k) in
        omega (arith, ap (occurs a) t.queue);
    timed = λ id a h k.
        ap (get? id) t.timers
        ∙ w.timed id a (ap (get? id) (sym t.jobs) ∙ h) (sym (t.same_delayed a) ∙ k);
    timers = λ id a h.
        let (j, d) = w.timers id a (ap (get? id) (sym t.timers) ∙ h) in
        (ap (get? id) t.jobs ∙ j, t.same_delayed a ∙ d);
  }

-- A new record in none of the waiting states, under an id that is free.
pub store_record-IsWell :
    (q : TestQueue) (r : JobRecord)
    → IsWell q
    → get? r.id q.jobs ≡ none
    → is_queued r.state ≡ false
    → is_delayed r.state ≡ false
    → IsWell (store_record q r)
unfolding store_record update
store_record-IsWell q r w f k d = record {
  apart = set-IsApart r.id q.next_ref q.jobs w.apart;
  ids = λ id a h. ground (arith, get?-set id r.id q.next_ref q.jobs, w.ids id a, w.made id a);
  made = λ id a h. ground (arith, get?-set id r.id q.next_ref q.jobs, w.made id a);
  once = w.once;
  stored = λ a h. ground (
    arith,
    w.stored a,
    w.made (q.records a).id a,
    get?-set (q.records a).id r.id q.next_ref q.jobs,
  );
  queued = λ a h. ground (arith, w.queued a, w.stored a, w.made (q.records a).id a);
  reachable =
      λ id a h e. ground (arith, get?-set id r.id q.next_ref q.jobs, w.reachable id a, w.made id a);
  timed = λ id a h e. ground (arith, get?-set id r.id q.next_ref q.jobs, w.timed id a, w.made id a);
  timers = λ id a h. ground (arith, get?-set id r.id q.next_ref q.jobs, w.timers id a, w.made id a);
}

abbrev pub is_text : String → String → Bool
is_text id j = ite (text_dec id j) true false

pub remove_record-IsWell :
    (q : TestQueue) (id : String) (ref : ℕ)
    → IsWell q
    → get? id q.jobs ≡ some ref
    → IsWell (remove_record q id ref)
unfolding remove_record clear_promotion dequeue_record
remove_record-IsWell q id ref w live = Dropped-IsWell q (is_text id) _ w (record {
  records = refl;
  next_ref = refl;
  apart = delete-IsApart id q.jobs w.apart;
  kept = λ j n. ground (arith, get?-delete j id q.jobs);
  gone = λ j n. ground (arith, get?-delete j id q.jobs);
  queue =
      λ a n. ground (arith, same, occurs-without_id q.records (q.records ref).id a q.waiting_queue);
  queue_gone =
      λ a n. ground (arith, same, occurs-without_id q.records (q.records ref).id a q.waiting_queue);
  timers = λ j n. ground (arith, get?-delete j id q.promotion_timers);
  timers_gone = λ j n. ground (arith, get?-delete j id q.promotion_timers);
})
  where
    same : (q.records ref).id ≡ id
    same = w.ids id ref live

pub remove_job-IsWell : (q : TestQueue) (id : String) → IsWell q → IsWell (remove_job q id).1
unfolding remove_job remove_found
remove_job-IsWell q id w = by_lookup (get? id q.jobs) refl
  where
    by_lookup : (o : Option ℕ) → get? id q.jobs ≡ o → IsWell (remove_found q id o).1
    by_lookup none e = w
    by_lookup (some ref) e = remove_record-IsWell q id ref w e
