-- ===== src/InMemory/Typed.antt =====
-- What the pages of TestQueue.getJobs in src/testing.ts hold.
use glide_mq.Common.{
  ℕ, zero, suc, ◌-◌, ◌≡◌, refl, ◌∙◌, ap, String, true, List, [], ◌∷◌, ◌++◌, none, some, get?, take,
  arith, ◌⊎◌, inl, inr, Bool-cases,
}
use glide_mq.InMemory.Jobs.{
  JobState, waiting, active, delayed, prioritized, completed, failed, waiting_children, suspended,
  is_waiting, is_active, is_delayed, is_prioritized, is_completed, is_failed,
}
use glide_mq.InMemory.Store.{TestQueue}
use glide_mq.InMemory.Pages.{
  JobType, waiting_jobs, active_jobs, delayed_jobs, completed_jobs, failed_jobs,
  matches_queue_state, jobs_of_type, skip, page, get_jobs,
}
use glide_mq.InMemory.Keys.{occurs}
use glide_mq.InMemory.Well.{IsWell}
use glide_mq.InMemory.Listed.{jobs_of_type-matches}

-- The jobs that each type of a listing is for.
pub data HasType : JobState → JobType → Type 0 where
  is_waiting_job : HasType waiting waiting_jobs
  is_active_job : HasType active active_jobs
  is_delayed_job : HasType delayed delayed_jobs
  is_prioritized_job : HasType prioritized delayed_jobs
  is_completed_job : HasType completed completed_jobs
  is_failed_job : HasType failed failed_jobs

HasType-matches :
    (s : JobState) (type : JobType) → HasType s type → matches_queue_state s type ≡ true
unfolding matches_queue_state
HasType-matches s type is_waiting_job = refl
HasType-matches s type is_active_job = refl
HasType-matches s type is_delayed_job = refl
HasType-matches s type is_prioritized_job = refl
HasType-matches s type is_completed_job = refl
HasType-matches s type is_failed_job = refl

matches-HasType :
    (s : JobState) (type : JobType) → matches_queue_state s type ≡ true → HasType s type
unfolding matches_queue_state is_waiting is_active is_delayed is_prioritized is_completed is_failed
matches-HasType waiting waiting_jobs h = is_waiting_job
matches-HasType active waiting_jobs h = absurd cc
matches-HasType delayed waiting_jobs h = absurd cc
matches-HasType prioritized waiting_jobs h = absurd cc
matches-HasType completed waiting_jobs h = absurd cc
matches-HasType failed waiting_jobs h = absurd cc
matches-HasType suspended waiting_jobs h = absurd cc
matches-HasType suspended active_jobs h = absurd cc
matches-HasType suspended delayed_jobs h = absurd cc
matches-HasType suspended completed_jobs h = absurd cc
matches-HasType suspended failed_jobs h = absurd cc
matches-HasType waiting_children waiting_jobs h = absurd cc
matches-HasType waiting active_jobs h = absurd cc
matches-HasType active active_jobs h = is_active_job
matches-HasType delayed active_jobs h = absurd cc
matches-HasType prioritized active_jobs h = absurd cc
matches-HasType completed active_jobs h = absurd cc
matches-HasType failed active_jobs h = absurd cc
matches-HasType waiting_children active_jobs h = absurd cc
matches-HasType waiting delayed_jobs h = absurd cc
matches-HasType active delayed_jobs h = absurd cc
matches-HasType delayed delayed_jobs h = is_delayed_job
matches-HasType prioritized delayed_jobs h = is_prioritized_job
matches-HasType completed delayed_jobs h = absurd cc
matches-HasType failed delayed_jobs h = absurd cc
matches-HasType waiting_children delayed_jobs h = absurd cc
matches-HasType waiting completed_jobs h = absurd cc
matches-HasType active completed_jobs h = absurd cc
matches-HasType delayed completed_jobs h = absurd cc
matches-HasType prioritized completed_jobs h = absurd cc
matches-HasType completed completed_jobs h = is_completed_job
matches-HasType failed completed_jobs h = absurd cc
matches-HasType waiting_children completed_jobs h = absurd cc
matches-HasType waiting failed_jobs h = absurd cc
matches-HasType active failed_jobs h = absurd cc
matches-HasType delayed failed_jobs h = absurd cc
matches-HasType prioritized failed_jobs h = absurd cc
matches-HasType completed failed_jobs h = absurd cc
matches-HasType failed failed_jobs h = is_failed_job
matches-HasType waiting_children failed_jobs h = absurd cc

skip_zero : (xs : List ℕ) → skip 0 xs ≡ xs
unfolding skip
skip_zero [] = refl
skip_zero (x ∷ xs) = refl

take-skip : (k : ℕ) (xs : List ℕ) → take k xs ++ skip k xs ≡ xs
unfolding skip
take-skip zero [] = refl
take-skip zero (x ∷ xs) = refl
take-skip (suc k) [] = refl
take-skip (suc k) (x ∷ xs) = ap (λ l. x ∷ l) (take-skip k xs)

paged :
    (q : TestQueue) (type : JobType) (k : ℕ)
    → get_jobs q type 0 (some k) ++ get_jobs q type (suc k) none ≡ jobs_of_type q type
unfolding get_jobs page
paged q type k =
    let xs = jobs_of_type q type in
    let all : suc k - 0 ≡ suc k = omega arith in
    ap (λ n. take n (skip 0 xs) ++ skip (suc k) xs) all
    ∙ ap (λ l. take (suc k) l ++ skip (suc k) xs) (skip_zero xs)
    ∙ take-skip (suc k) xs

-- On a well-formed queue let getJobs list a type in two pages, the first up to any index and the second
-- with the rest. A job of the queue stands on the two pages exactly once when it has that type, and not at all
-- otherwise. Both delayed and prioritized jobs have the delayed type, and the other types are states.
pub get_jobs-HasType :
    (q : TestQueue) (type : JobType) (k : ℕ) (id : String) (ref : ℕ)
    → IsWell q
    → get? id q.jobs ≡ some ref
    → (HasType (q.records ref).state type
        × (occurs ref (get_jobs q type 0 (some k) ++ get_jobs q type (suc k) none) ≡ 1))
      ⊎ ((¬ HasType (q.records ref).state type)
          × (occurs ref (get_jobs q type 0 (some k) ++ get_jobs q type (suc k) none) ≡ 0))
get_jobs-HasType q type k id ref w g =
    let e = ap (occurs ref) (paged q type k) ∙ jobs_of_type-matches q w type id ref g in
    elim (Bool-cases (matches_queue_state (q.records ref).state type)) [
      | inl h ↦ inl (matches-HasType (q.records ref).state type h, ground (arith, e, h))
      | inr h ↦
          inr
            (λ t. let m = HasType-matches (q.records ref).state type t in cc, ground (arith, e, h))
    ]
