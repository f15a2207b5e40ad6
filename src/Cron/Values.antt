-- ===== src/Cron/Values.antt =====
-- The sets of values that parseCronField of src/utils.ts builds.
use glide_mq.Common.{
  ℕ, zero, suc, ◌+◌, ◌-◌, ◌≤◌, ◌<◌, ◌≡◌, true, false, ◌||◌, List, [], ◌∷◌, ◌++◌, arith, length,
  length-append, ok, ◌==◌,
}
use glide_mq.Cron.Search.{has}
use glide_mq.Cron.Field.{CronFieldSpec, add, add_steps, add_range}

abbrev pub IsDistinctSet : List ℕ → Type 0
IsDistinctSet [] = Unit {0}
IsDistinctSet (x ∷ xs) = (has x xs ≡ false) × IsDistinctSet xs

-- A set of values of the field.
pub record IsSetOf (spec : CronFieldSpec) (set : List ℕ) : Type 0 where
  pub distinct : IsDistinctSet set
  pub range : (x : ℕ) → has x set ≡ true → (spec.min ≤ x) × (x ≤ spec.max)

has-snoc : (x v : ℕ) (set : List ℕ) → has x (set ++ v ∷ []) ≡ (has x set || (v == x))
unfolding has
has-snoc x v [] = ground arith
has-snoc x v (y ∷ ys) = ground (arith, has-snoc x v ys)

distinct-snoc :
    (v : ℕ) (set : List ℕ) → has v set ≡ false → IsDistinctSet set → IsDistinctSet (set ++ v ∷ [])
unfolding has
distinct-snoc v [] h d = ground arith
distinct-snoc v (y ∷ ys) h d = ground (arith, distinct-snoc v ys, has-snoc y v ys)

pub add-IsSetOf :
    (spec : CronFieldSpec) (v : ℕ) (set : List ℕ)
    → spec.min ≤ v
    → v ≤ spec.max
    → IsSetOf spec set
    → IsSetOf spec (add v set)
unfolding add
add-IsSetOf spec v set l h i = record {
  distinct = ground (arith, distinct-snoc v set);
  range = λ x k. ground (arith, i.range x, has-snoc x v set);
}

pub length-add :
    (v : ℕ) (set : List ℕ) → (length set ≤ length (add v set)) × (0 < length (add v set))
unfolding add has
length-add v [] = ground arith
length-add v (y ∷ ys) = ground (arith, length-append ys (v ∷ []))

add_steps-IsSetOf :
    (fuel from to step : ℕ) (spec : CronFieldSpec) (set : List ℕ)
    → spec.min ≤ from
    → to ≤ spec.max
    → IsSetOf spec set
    → IsSetOf spec (add_steps fuel from to step set)
unfolding add_steps
add_steps-IsSetOf zero from to step spec set l h i = i
add_steps-IsSetOf (suc fuel) from to step spec set l h i = ground (
  arith,
  add-IsSetOf spec from set,
  add_steps-IsSetOf fuel (from + step) to step spec (add from set),
)

length-add_steps :
    (fuel from to step : ℕ) (set : List ℕ) → length set ≤ length (add_steps fuel from to step set)
unfolding add_steps
length-add_steps zero from to step set = omega arith
length-add_steps (suc fuel) from to step set =
    ground (arith, length-add from set, length-add_steps fuel (from + step) to step (add from set))

length-add_steps_pos :
    (fuel from to step : ℕ) (set : List ℕ)
    → 0 < fuel
    → from ≤ to
    → 0 < length (add_steps fuel from to step set)
unfolding add_steps
length-add_steps_pos zero from to step set f h = absurd (omega arith)
length-add_steps_pos (suc fuel) from to step set f h =
    ground (arith, length-add from set, length-add_steps fuel (from + step) to step (add from set))

-- What a successful step of the parser leaves.
pub record Kept (spec : CronFieldSpec) (set : List ℕ) : Type 0 where
  pub values : IsSetOf spec set
  pub some_value : 0 < length set

pub add_range-Kept :
    (spec : CronFieldSpec) (from to step : ℕ) (set set' : List ℕ)
    → IsSetOf spec set
    → add_range spec from to step set ≡ ok set'
    → Kept spec set'
unfolding add_range
add_range-Kept spec from to step set set' i h = ground (
  arith,
  add_steps-IsSetOf (to + 1 - from) from to step spec set,
  length-add_steps_pos (to + 1 - from) from to step set,
)
