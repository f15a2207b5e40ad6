-- ===== src/InMemory/Promoted.antt =====
-- promotePrioritized of src/testing.ts, and the compaction of the dispatch queue in nextWaitingIndex.
use glide_mq.Common.{
  ℕ, ◌<◌, ◌≤◌, ◌≡◌, refl, sym, ◌∙◌, ap, subst, String, true, false, ◌&&◌, not, List, [], ◌∷◌, some,
  Map, get?, includes, ◌==◌, if◌then◌else◌, arith, ℕ_discrete, if_intro,
}
use glide_mq.Options.{JobOptions}
use glide_mq.InMemory.Jobs.{
  JobRecord, waiting, is_active, is_waiting, is_prioritized, is_queued, is_delayed,
}
use glide_mq.InMemory.Store.{
  TestQueue, update, is_same, is_current, promote_all, promote_prioritized,
}
use glide_mq.InMemory.Dispatch.{compact, next_waiting_index}
use glide_mq.InMemory.States.{queued_apart, prioritized_queued, queued_waiting}
use glide_mq.InMemory.Keys.{occurs}
use glide_mq.InMemory.Well.{IsWell}
use glide_mq.InMemory.Kept.{Touched-IsWell}

-- A promoted job is the old one, but for the state.
pub record Alike (r r' : JobRecord) : Type 0 where
  pub same_id : r'.id ≡ r.id
  pub same_opts : ◌≡◌ {A = JobOptions} r'.opts r.opts
  pub same_queued : is_queued r'.state ≡ is_queued r.state
  pub same_delayed : is_delayed r'.state ≡ is_delayed r.state
  pub same_active : is_active r'.state ≡ is_active r.state
  pub still_waiting : is_waiting r.state ≡ true → is_waiting r'.state ≡ true

pub Alike-refl : (r : JobRecord) → Alike r r
Alike-refl r = record {
  same_id = refl;
  same_opts = refl;
  same_queued = refl;
  same_delayed = refl;
  same_active = refl;
  still_waiting = λ h. h;
}

pub Alike-trans : (r s t : JobRecord) → Alike r s → Alike s t → Alike r t
Alike-trans r s t a b = record {
  same_id = b.same_id ∙ a.same_id;
  same_opts = b.same_opts ∙ a.same_opts;
  same_queued = b.same_queued ∙ a.same_queued;
  same_delayed = b.same_delayed ∙ a.same_delayed;
  same_active = b.same_active ∙ a.same_active;
  still_waiting = λ h. b.still_waiting (a.still_waiting h);
}

module _ (jobs : Map ℕ) where
  -- One step of the loop.
  abbrev step : ℕ → (ℕ → JobRecord) → ℕ → JobRecord
  step ref records =
      if is_prioritized (records ref).state && is_same (get? (records ref).id jobs) ref
      then update ref (record (records ref) { state = waiting }) records
      else records

  promoted-Alike :
      (r : JobRecord) → is_prioritized r.state ≡ true → Alike r (record r { state = waiting })
  unfolding is_queued is_delayed is_waiting is_active
  promoted-Alike r h =
      let (k, d) = prioritized_queued r.state h in
      record {
        same_id = refl;
        same_opts = refl;
        same_queued = sym k;
        same_delayed = sym d;
        same_active = sym (queued_apart r.state k).1;
        still_waiting = λ _. refl;
      }

  step-Alike : (ref : ℕ) (records : ℕ → JobRecord) (a : ℕ) → Alike (records a) (step ref records a)
  unfolding update
  step-Alike ref records a =
      if_intro (λ (f : ℕ → JobRecord). Alike (records a) (f a))
        (is_prioritized (records ref).state && is_same (get? (records ref).id jobs) ref) _ _
        (λ h.
          if_intro (Alike (records a)) (a == ref) _ _
            (λ e.
              subst (λ b. Alike (records b) (record (records ref) { state = waiting }))
                (ground arith) (promoted-Alike (records ref) (ground (arith, h))))
            (λ _. Alike-refl (records a)))
        (λ _. Alike-refl (records a))

  pub promote_all-Alike :
      (refs : List ℕ) (records : ℕ → JobRecord) (a : ℕ)
      → Alike (records a) (promote_all jobs refs records a)
  unfolding promote_all
  promote_all-Alike [] records a = Alike-refl (records a)
  promote_all-Alike (ref ∷ refs) records a =
      Alike-trans _ _ _ (step-Alike ref records a) (promote_all-Alike refs (step ref records) a)

  step_waiting :
      (records : ℕ → JobRecord) (a : ℕ)
      → get? (records a).id jobs ≡ some a
      → is_queued (records a).state ≡ true
      → is_waiting (step a records a).state ≡ true
  unfolding update is_same is_waiting
  step_waiting records a g k =
      if_intro (λ (f : ℕ → JobRecord). is_waiting (f a).state ≡ true)
        (is_prioritized (records a).state && is_same (get? (records a).id jobs) a) _ _
        (λ _. ground arith) (λ n. queued_waiting (records a).state k (ground (arith, g)))

  pub promote_all-waiting :
      (refs : List ℕ) (records : ℕ → JobRecord) (a : ℕ)
      → 0 < occurs a refs
      → get? (records a).id jobs ≡ some a
      → is_queued (records a).state ≡ true
      → is_waiting (promote_all jobs refs records a).state ≡ true
  unfolding promote_all occurs
  promote_all-waiting [] records a o g k = absurd (omega arith)
  promote_all-waiting (ref ∷ refs) records a o g k =
      let same = step-Alike ref records a in
      elim (ℕ_discrete ref a) [
        | yes e ↦ (promote_all-Alike refs (step ref records) a).still_waiting (
            subst (λ b. is_waiting (step b records a).state ≡ true) (sym e)
              (step_waiting records a g k))
        | no n ↦
            promote_all-waiting refs (step ref records) a (ground arith)
              (ap (λ i. get? i jobs) same.same_id ∙ g) (same.same_queued ∙ k)
      ]

-- Every entry of the dispatch queue is in the state that the dispatch looks for.
abbrev pub AllWaiting : TestQueue → Type 0
AllWaiting q = (a : ℕ) → 0 < occurs a q.waiting_queue → is_waiting (q.records a).state ≡ true

pub promote_prioritized-IsWell : (q : TestQueue) → IsWell q → IsWell (promote_prioritized q)
unfolding promote_prioritized
promote_prioritized-IsWell q w = Touched-IsWell q _ w (record {
  next_ref = refl;
  jobs = refl;
  queue = refl;
  timers = refl;
  same_id = λ a. (promote_all-Alike q.jobs q.waiting_queue q.records a).same_id;
  same_queued = λ a. (promote_all-Alike q.jobs q.waiting_queue q.records a).same_queued;
  same_delayed = λ a. (promote_all-Alike q.jobs q.waiting_queue q.records a).same_delayed;
})

pub promote_prioritized-AllWaiting : (q : TestQueue) → IsWell q → AllWaiting (promote_prioritized q)
unfolding promote_prioritized
promote_prioritized-AllWaiting q w a o =
    promote_all-waiting q.jobs q.waiting_queue q.records a o (w.stored a o) (w.queued a o)

module _ (q : TestQueue) where
  -- An entry that compaction keeps.
  abbrev Fresh : List String → List ℕ → Type 0
  Fresh seen refs =
      (a : ℕ)
      → 0 < occurs a refs
      → (is_waiting (q.records a).state ≡ true)
        × (get? (q.records a).id q.jobs ≡ some a)
        × (includes (q.records a).id seen ≡ false)
        × (occurs a refs ≤ 1)

  Fresh-rest :
      (seen : List String) (ref : ℕ) (refs : List ℕ)
      → Fresh seen (ref ∷ refs)
      → Fresh ((q.records ref).id ∷ seen) refs
  unfolding occurs includes
  Fresh-rest seen ref refs f a o =
      let (w, g, i, l) = f a (ground arith) in
      let (w', g', i', l') = f ref (ground arith) in (w, g, ground (arith, apart), ground arith)
    where
      apart : (q.records ref).id ≡ (q.records a).id → ⊥
      apart e =
          let (w, g, i, l) = f a (ground arith) in
          let (w', g', i', l') = f ref (ground arith) in
          let same : ref ≡ a = ground (arith, ap (λ i. get? i q.jobs) e) in ground arith

  kept :
      (seen : List String) (ref : ℕ) (refs : List ℕ)
      → Fresh seen (ref ∷ refs)
      → (is_waiting (q.records ref).state
          && is_current q ref
          && not (includes (q.records ref).id seen))
        ≡ true
  unfolding is_current is_same occurs
  kept seen ref refs f = let (w, g, i, l) = f ref (ground arith) in ground (arith, w, g, i)

  compact_all : (seen : List String) (refs : List ℕ) → Fresh seen refs → compact q seen refs ≡ refs
  unfolding compact
  compact_all seen [] f = refl
  compact_all seen (ref ∷ refs) f =
      if_intro (λ l. l ≡ ref ∷ refs)
        (is_waiting (q.records ref).state
          && is_current q ref
          && not (includes (q.records ref).id seen))
        _ _
        (λ _.
          ap (λ l. ref ∷ l)
            (compact_all ((q.records ref).id ∷ seen) refs (Fresh-rest seen ref refs f)))
        (λ n. absurd (ground (arith, n, kept seen ref refs f)))

  -- Nothing is stale, so compaction keeps the dispatch queue as it is.
  pub compact_lem : IsWell q → AllWaiting q → compact q [] q.waiting_queue ≡ q.waiting_queue
  unfolding includes
  compact_lem w f = compact_all [] q.waiting_queue (λ a o. (f a o, w.stored a o, refl, w.once a))

-- The queue after promotion: what nextWaitingIndex leaves.
pub next_waiting_index-promoted :
    (q : TestQueue) → IsWell q → (next_waiting_index q).1 ≡ promote_prioritized q
unfolding next_waiting_index
next_waiting_index-promoted q w =
    let q' = promote_prioritized q in
    ap (λ l. record q' { waiting_queue = l })
      (compact_lem q' (promote_prioritized-IsWell q w) (promote_prioritized-AllWaiting q w))
