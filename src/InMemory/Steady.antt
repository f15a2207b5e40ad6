-- ===== src/InMemory/Steady.antt =====
-- What the operations on the in-memory queue of src/testing.ts do to jobs that are active.
use glide_mq.Common.{
  ℕ, ◌<◌, ◌≤◌, ◌≡◌, ◌≢◌, refl, sym, ◌∙◌, ap, subst, Bool, true, false, arith, ℕ_discrete,
}
use glide_mq.InMemory.Jobs.{JobRecord, JobState, is_active}
use glide_mq.InMemory.Store.{
  TestQueue, update, put, dequeue_record, enqueue_as, enqueue_waiting, enqueue_prioritized,
  schedule_promotion, park_delayed, release_delayed,
}
use glide_mq.InMemory.Add.{store_record}

-- From `q` to `q'` records are only added, and active jobs stay active.
pub record Steady (q q' : TestQueue) : Type 0 where
  pub grows : q.next_ref ≤ q'.next_ref
  pub keeps :
      (a : ℕ)
      → a < q.next_ref
      → is_active (q.records a).state ≡ true
      → is_active (q'.records a).state ≡ true

pub Steady-trans : (p q r : TestQueue) → Steady p q → Steady q r → Steady p r
Steady-trans p q r a b = record {
  grows = omega (arith, a.grows, b.grows);
  keeps = λ i l h. b.keeps i (omega (arith, a.grows)) (a.keeps i l h);
}

-- The records are the same.
pub Steady-same :
    (q q' : TestQueue) → q'.records ≡ q.records → q'.next_ref ≡ q.next_ref → Steady q q'
Steady-same q q' r n = record {
  grows = omega (arith, n);
  keeps = λ a l h. ap (λ (f : ℕ → JobRecord). is_active (f a).state) r ∙ h;
}

-- From `q` to `q'` at most the record at `ref` changed.
pub record Others (q : TestQueue) (ref : ℕ) (q' : TestQueue) : Type 0 where
  pub next_ref : q'.next_ref ≡ q.next_ref
  pub others : (a : ℕ) → a ≢ ref → q'.records a ≡ q.records a

pub Others-Steady :
    (q : TestQueue) (ref : ℕ) (q' : TestQueue)
    → Others q ref q'
    → (is_active (q.records ref).state ≡ true → is_active (q'.records ref).state ≡ true)
    → Steady q q'
Others-Steady q ref q' o f = record {
  grows = omega (arith, o.next_ref);
  keeps = λ a l h. elim (ℕ_discrete a ref) [
    | yes e ↦
        subst (λ b. is_active (q'.records b).state ≡ true) (sym e)
          (f (subst (λ b. is_active (q.records b).state ≡ true) e h))
    | no n ↦ ap (λ r. is_active r.state) (o.others a n) ∙ h
  ];
}

-- A job that is not active may change in any way.
pub Others-inactive :
    (q : TestQueue) (ref : ℕ) (q' : TestQueue)
    → Others q ref q'
    → is_active (q.records ref).state ≡ false
    → Steady q q'
Others-inactive q ref q' o f = Others-Steady q ref q' o (λ h. absurd (ground arith))

pub Others-same :
    (q : TestQueue) (ref : ℕ) (q' : TestQueue)
    → q'.records ≡ q.records
    → q'.next_ref ≡ q.next_ref
    → Others q ref q'
Others-same q ref q' r n = record {
  next_ref = n;
  others = λ a k. ap (λ (f : ℕ → JobRecord). f a) r;
}

pub Others-trans :
    (p q : TestQueue) (ref : ℕ) (r : TestQueue) → Others p ref q → Others q ref r → Others p ref r
Others-trans p q ref r a b = record {
  next_ref = b.next_ref ∙ a.next_ref;
  others = λ i n. b.others i n ∙ a.others i n;
}

module _ (q : TestQueue) (ref : ℕ) where
  pub put-Others : (r : JobRecord) → Others q ref (put q ref r)
  unfolding update
  put-Others r = record { next_ref = refl; others = λ a n. ground arith }

  pub enqueue_as-Others : (state : JobState) → Others q ref (enqueue_as state q ref)
  unfolding enqueue_as dequeue_record update
  enqueue_as-Others state = record { next_ref = refl; others = λ a n. ground arith }

  pub park_delayed-Others : (delay_ms now : ℕ) → Others q ref (park_delayed q ref delay_ms now)
  unfolding park_delayed schedule_promotion dequeue_record update
  park_delayed-Others delay_ms now = record { next_ref = refl; others = λ a n. ground arith }

  pub release_delayed-Others : (b : Bool) → Others q ref (release_delayed q ref b)
  unfolding release_delayed enqueue_waiting enqueue_prioritized enqueue_as dequeue_record update
  release_delayed-Others true = record { next_ref = refl; others = λ a n. ground arith }
  release_delayed-Others false = record { next_ref = refl; others = λ a n. ground arith }

-- A new record takes a new reference.
pub store_record-Steady : (q : TestQueue) (r : JobRecord) → Steady q (store_record q r)
unfolding store_record update
store_record-Steady q r = record { grows = omega arith; keeps = λ a l h. ground (arith, h) }

-- What comes after a new record may change it.
pub stored-Steady :
    (q : TestQueue) (r : JobRecord) (q' : TestQueue)
    → Others (store_record q r) q.next_ref q'
    → Steady q q'
unfolding store_record update
stored-Steady q r q' o = record {
  grows = omega (arith, o.next_ref);
  keeps = λ a l h. ground (arith, o.others a);
}
