-- ===== src/InMemory/Members.antt =====
-- Which references the list helpers of src/testing.ts keep: filters, sorts and bounded prefixes.
use glide_mq.Common.{
  ℕ, zero, suc, ◌+◌, ◌<◌, ◌≤◌, ◌≡◌, refl, Bool, List, [], ◌∷◌, ◌==◌, if◌then◌else◌, arith, take,
}
use glide_mq.InMemory.Bulk.{refs_where, insert_with, sort_with}
use glide_mq.InMemory.Keys.{occurs}

pub occurs-refs_where :
    (a : ℕ) (test : ℕ → Bool) (xs : List ℕ)
    → occurs a (refs_where test xs) ≡ (if test a then occurs a xs else 0)
unfolding occurs refs_where
occurs-refs_where a test [] = ground arith
occurs-refs_where a test (x ∷ xs) = ground (arith, occurs-refs_where a test xs)

occurs-insert_with :
    (a : ℕ) (in_order : ℕ → ℕ → Bool) (x : ℕ) (ys : List ℕ)
    → occurs a (insert_with in_order x ys) ≡ (if x == a then 1 else 0) + occurs a ys
unfolding occurs insert_with
occurs-insert_with a in_order x [] = ground arith
occurs-insert_with a in_order x (y ∷ ys) = ground (arith, occurs-insert_with a in_order x ys)

pub occurs-sort_with :
    (a : ℕ) (in_order : ℕ → ℕ → Bool) (xs : List ℕ) → occurs a (sort_with in_order xs) ≡ occurs a xs
unfolding occurs sort_with
occurs-sort_with a in_order [] = refl
occurs-sort_with a in_order (x ∷ xs) =
    ground (
      arith,
      occurs-insert_with a in_order x (sort_with in_order xs),
      occurs-sort_with a in_order xs,
    )

pub occurs-take : (a n : ℕ) (xs : List ℕ) → occurs a (take n xs) ≤ occurs a xs
unfolding occurs
occurs-take a zero xs = omega arith
occurs-take a (suc n) [] = omega arith
occurs-take a (suc n) (x ∷ xs) = omega (arith, occurs-take a n xs)

-- A reference in a bounded prefix of a filtered list was in the list.
pub occurs_prefix :
    (a n : ℕ) (test : ℕ → Bool) (xs : List ℕ)
    → 0 < occurs a (take n (refs_where test xs))
    → 0 < occurs a xs
occurs_prefix a n test xs o =
    let t = occurs-take a n (refs_where test xs) in
    let f = occurs-refs_where a test xs in ground arith
