-- ===== src/InMemory/Well.antt =====
-- The invariant of the in-memory queue of src/testing.ts between two steps, and a change of one job.
use glide_mq.Common.{
  ℕ, ◌≤◌, ◌<◌, ◌≡◌, ◌≢◌, refl, sym, ◌∙◌, ap, subst, String, text_dec, ite, true, List, [], ◌∷◌,
  Option, none, some, get?, if◌then◌else◌, arith, ℕ_discrete,
}
use glide_mq.InMemory.Jobs.{JobRecord, is_queued, is_delayed}
use glide_mq.InMemory.Keys.{IsApart, key_of, occurs}
use glide_mq.InMemory.Bulk.{refs_of}
use glide_mq.InMemory.Store.{TestQueue, without_id}

pub record IsWell (q : TestQueue) : Type 0 where
  pub apart : IsApart q.jobs
  -- A job is stored under its own id.
  pub ids : (id : String) (ref : ℕ) → get? id q.jobs ≡ some ref → (q.records ref).id ≡ id
  pub made : (id : String) (ref : ℕ) → get? id q.jobs ≡ some ref → ref < q.next_ref
  -- The dispatch queue holds no job twice, only jobs of the queue, and only in the two waiting states.
  pub once : (ref : ℕ) → occurs ref q.waiting_queue ≤ 1
  pub stored :
      (ref : ℕ) → 0 < occurs ref q.waiting_queue → get? (q.records ref).id q.jobs ≡ some ref
  pub queued : (ref : ℕ) → 0 < occurs ref q.waiting_queue → is_queued (q.records ref).state ≡ true
  -- No waiting job is lost.
  pub reachable :
      (id : String) (ref : ℕ)
      → get? id q.jobs ≡ some ref
      → is_queued (q.records ref).state ≡ true
      → 0 < occurs ref q.waiting_queue
  -- A job is delayed when its promotion timer runs.
  pub timed :
      (id : String) (ref : ℕ)
      → get? id q.jobs ≡ some ref
      → is_delayed (q.records ref).state ≡ true
      → get? id q.promotion_timers ≡ some ref
  pub timers :
      (id : String) (ref : ℕ)
      → get? id q.promotion_timers ≡ some ref
      → (get? id q.jobs ≡ some ref) × (is_delayed (q.records ref).state ≡ true)

pub occurs-without_id :
    (records : ℕ → JobRecord) (id : String) (a : ℕ) (xs : List ℕ)
    → occurs a (without_id records id xs) ≡ ite (text_dec (records a).id id) 0 (occurs a xs)
unfolding occurs without_id
occurs-without_id records id a [] = ground arith
occurs-without_id records id a (x ∷ xs) = elim (ℕ_discrete x a) [
  | yes e ↦
      subst
        (λ y.
          occurs a (without_id records id (y ∷ xs))
          ≡ ite (text_dec (records a).id id) 0 (occurs a (y ∷ xs)))
        (sym e) (ground (arith, occurs-without_id records id a xs))
  | no n ↦ ground (arith, occurs-without_id records id a xs)
]

pub some-injective {ℓ} : {A : Type ℓ} {a b : A} → ◌≡◌ {A = Option A} (some a) (some b) → a ≡ b
some-injective h = cc

-- From `q` to `q'` the job at `ref` changed, and nothing else.
pub record Moved (q : TestQueue) (ref : ℕ) (q' : TestQueue) : Type 0 where
  pub jobs : q'.jobs ≡ q.jobs
  pub next_ref : q'.next_ref ≡ q.next_ref
  pub same_id : (q'.records ref).id ≡ (q.records ref).id
  pub others : (a : ℕ) → a ≢ ref → q'.records a ≡ q.records a
  pub queue : (a : ℕ) → a ≢ ref → occurs a q'.waiting_queue ≡ occurs a q.waiting_queue
  pub queue_at : occurs ref q'.waiting_queue ≡ (if is_queued (q'.records ref).state then 1 else 0)
  pub timers :
      (j : String) → j ≢ (q.records ref).id → get? j q'.promotion_timers ≡ get? j q.promotion_timers
  pub timers_at :
      get? (q.records ref).id q'.promotion_timers
      ≡ (if is_delayed (q'.records ref).state then some ref else none)

module _ (q : TestQueue) (ref : ℕ) (q' : TestQueue) (w : IsWell q) (m : Moved q ref q')
    (live : get? (q.records ref).id q.jobs ≡ some ref) where
  -- What holds at the job itself, and at any other.
  split :
      (P : ℕ → Type 0)
      → (P ref)
      → ((a : ℕ)
          → a ≢ ref
          → q'.records a ≡ q.records a
          → occurs a q'.waiting_queue ≡ occurs a q.waiting_queue
          → P a)
      → (a : ℕ) → P a
  split P here there a = elim (ℕ_discrete a ref) [
    | yes e ↦ subst P (sym e) here
    | no n ↦ there a n (m.others a n) (m.queue a n)
  ]

  old : (id : String) {a : ℕ} → get? id q'.jobs ≡ some a → get? id q.jobs ≡ some a
  old id h = ap (get? id) (sym m.jobs) ∙ h

  new : (id : String) {a : ℕ} → get? id q.jobs ≡ some a → get? id q'.jobs ≡ some a
  new id h = ap (get? id) m.jobs ∙ h

  moved_ids : (id : String) (a : ℕ) → get? id q'.jobs ≡ some a → (q'.records a).id ≡ id
  moved_ids id =
      split (λ a. get? id q'.jobs ≡ some a → (q'.records a).id ≡ id)
        (λ h. m.same_id ∙ w.ids id ref (old id h))
        (λ a n r o h. ap (λ r. r.id) r ∙ w.ids id a (old id h))

  moved_once : (a : ℕ) → occurs a q'.waiting_queue ≤ 1
  moved_once =
      split (λ a. occurs a q'.waiting_queue ≤ 1) (ground (arith, m.queue_at))
        (λ a n r o. omega (arith, o, w.once a))

  moved_stored : (a : ℕ) → 0 < occurs a q'.waiting_queue → get? (q'.records a).id q'.jobs ≡ some a
  moved_stored =
      split (λ a. 0 < occurs a q'.waiting_queue → get? (q'.records a).id q'.jobs ≡ some a)
        (λ h. new (q'.records ref).id (ap (λ i. get? i q.jobs) m.same_id ∙ live))
        (λ a n r o h.
          new (q'.records a).id (ap (λ r. get? r.id q.jobs) r ∙ w.stored a (omega arith)))

  moved_queued : (a : ℕ) → 0 < occurs a q'.waiting_queue → is_queued (q'.records a).state ≡ true
  moved_queued =
      split (λ a. 0 < occurs a q'.waiting_queue → is_queued (q'.records a).state ≡ true)
        (λ h. ground (arith, m.queue_at))
        (λ a n r o h. ap (λ r. is_queued r.state) r ∙ w.queued a (omega arith))

  moved_reachable :
      (id : String) (a : ℕ)
      → get? id q'.jobs ≡ some a
      → is_queued (q'.records a).state ≡ true
      → 0 < occurs a q'.waiting_queue
  moved_reachable id =
      split
        (λ a.
          get? id q'.jobs ≡ some a
          → is_queued (q'.records a).state ≡ true
          → 0 < occurs a q'.waiting_queue)
        (λ h k. ground (arith, m.queue_at))
        (λ a n r o h k.
          omega (arith, o, w.reachable id a (old id h) (ap (λ r. is_queued r.state) (sym r) ∙ k)))

  -- Another job has another id.
  other_id : (id : String) (a : ℕ) → a ≢ ref → get? id q.jobs ≡ some a → id ≢ (q.records ref).id
  other_id id a n h e = n (some-injective (sym h ∙ ap (λ i. get? i q.jobs) e ∙ live))

  moved_timed :
      (id : String) (a : ℕ)
      → get? id q'.jobs ≡ some a
      → is_delayed (q'.records a).state ≡ true
      → get? id q'.promotion_timers ≡ some a
  moved_timed id =
      split
        (λ a.
          get? id q'.jobs ≡ some a
          → is_delayed (q'.records a).state ≡ true
          → get? id q'.promotion_timers ≡ some a)
        (λ h k.
          ap (λ i. get? i q'.promotion_timers) (sym (w.ids id ref (old id h)))
          ∙ m.timers_at
          ∙ rw k refl)
        (λ a n r o h k.
          m.timers id (other_id id a n (old id h))
          ∙ w.timed id a (old id h) (ap (λ r. is_delayed r.state) (sym r) ∙ k))

  timer_at :
      (a : ℕ)
      → get? (q.records ref).id q'.promotion_timers ≡ some a
      → (ref ≡ a) × (is_delayed (q'.records ref).state ≡ true)
  timer_at a k = ground (arith, m.timers_at)

  moved_timers :
      (id : String) (a : ℕ)
      → get? id q'.promotion_timers ≡ some a
      → (get? id q'.jobs ≡ some a) × (is_delayed (q'.records a).state ≡ true)
  moved_timers id a h = elim (text_dec id (q.records ref).id) [
    | yes e ↦
        let (p, d) = timer_at a (ap (λ i. get? i q'.promotion_timers) (sym e) ∙ h) in
        (
          new id (ap (λ i. get? i q.jobs) e ∙ live ∙ ap some p),
          ap (λ b. is_delayed (q'.records b).state) (sym p) ∙ d,
        )
    | no n ↦
        let (j, d) = w.timers id a (sym (m.timers id n) ∙ h) in
        let other : a ≢ ref = λ e. n (sym (w.ids id a j) ∙ ap (λ b. (q.records b).id) e) in
        (new id j, ap (λ r. is_delayed r.state) (m.others a other) ∙ d)
  ]

  pub Moved-IsWell : IsWell q'
  Moved-IsWell = record {
    apart = subst IsApart (sym m.jobs) w.apart;
    ids = moved_ids;
    made = λ id a h. rw m.next_ref (w.made id a (old id h));
    once = moved_once;
    stored = moved_stored;
    queued = moved_queued;
    reachable = moved_reachable;
    timed = moved_timed;
    timers = moved_timers;
  }

-- A job that stands among the values of the map is live.
pub live_of_value :
    (q : TestQueue) (w : IsWell q) (ref : ℕ)
    → 0 < occurs ref (refs_of q.jobs)
    → get? (q.records ref).id q.jobs ≡ some ref
live_of_value q w ref o =
    let (k, g) = key_of ref q.jobs w.apart o in ap (λ i. get? i q.jobs) (w.ids k ref g) ∙ g
