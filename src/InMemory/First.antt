-- ===== src/InMemory/First.antt =====
-- The first job of the sorted listing of waitingInDispatchOrder in src/testing.ts, found by folds.
use glide_mq.Common.{
  ℕ, ◌≡◌, refl, Bool, List, [], ◌∷◌, ◌++◌, Option, none, some, ltb, if◌then◌else◌, arith,
  Bool-cases, inl, inr,
}
use mathlib.Core.List.{reverse_aux}
use glide_mq.InMemory.Jobs.{JobRecord}
use glide_mq.InMemory.Bulk.{refs_where, insert_with, sort_with, by_key}
use glide_mq.InMemory.Dispatch.{or_else, is_priority_job, is_fifo_job}

unfoldable pub head : List ℕ → Option ℕ
head [] = none
head (x ∷ xs) = some x

module _ (records : ℕ → JobRecord) where
  abbrev pub priority : ℕ → ℕ
  priority a = (records a).opts.priority

  abbrev pub prior : ℕ → Bool
  prior a = is_priority_job (records a)

  abbrev pub last_in : ℕ → Bool
  last_in a = (records a).opts.lifo

  abbrev pub fifo : ℕ → Bool
  fifo a = is_fifo_job (records a)

  -- The job with the lower priority number, the first where they are equal.
  unfoldable pub better : Option ℕ → Option ℕ → Option ℕ
  better none h = h
  better (some b) none = some b
  better (some b) (some y) = if ltb (priority y) (priority b) then some y else some b

  better_assoc :
      (a : Option ℕ) (x : ℕ) (h : Option ℕ)
      → better (better a (some x)) h ≡ better a (better (some x) h)
  unfolding better
  better_assoc none x h = refl
  better_assoc (some b) x none = ground arith
  better_assoc (some b) x (some y) = ground arith

  head-insert_with :
      (x : ℕ) (ys : List ℕ) → head (insert_with (by_key priority) x ys) ≡ better (some x) (head ys)
  unfolding better head insert_with
  head-insert_with x [] = refl
  head-insert_with x (y ∷ ys) = ground arith

  -- The best job of a list, by a scan from the left.
  unfoldable pub best_of : Option ℕ → List ℕ → Option ℕ
  unfolding better
  best_of b [] = b
  best_of b (x ∷ xs) = best_of (if prior x then better b (some x) else b) xs

  pub best_of-sort_with :
      (b : Option ℕ) (xs : List ℕ)
      → best_of b xs ≡ better b (head (sort_with (by_key priority) (refs_where prior xs)))
  unfolding best_of sort_with refs_where head
  best_of-sort_with none [] = refl
  best_of-sort_with (some b) [] = refl
  best_of-sort_with b (x ∷ xs) =
      let rest = head (sort_with (by_key priority) (refs_where prior xs)) in
      elim (Bool-cases (prior x)) [
        | inl e ↦ ground (
          arith,
          best_of-sort_with (better b (some x)) xs,
          better_assoc b x rest,
          head-insert_with x (sort_with (by_key priority) (refs_where prior xs)),
        )
        | inr e ↦ ground (arith, best_of-sort_with b xs)
      ]

  -- The last job of a list that a test takes.
  unfoldable pub last_of : Option ℕ → List ℕ → Option ℕ
  last_of l [] = l
  last_of l (x ∷ xs) = last_of (if last_in x then some x else l) xs

  pub head-append : (xs ys : List ℕ) → head (xs ++ ys) ≡ or_else (head xs) (head ys)
  unfolding head or_else
  head-append [] ys = refl
  head-append (x ∷ xs) ys = refl

  -- The last lifo job stands first in the reversed list.
  pub head-reverse_aux :
      (l : Option ℕ) (xs acc : List ℕ)
      → head acc ≡ l
      → head (reverse_aux (refs_where last_in xs) acc) ≡ last_of l xs
  unfolding refs_where last_of head
  head-reverse_aux l [] acc h = h
  head-reverse_aux l (x ∷ xs) acc h = elim (Bool-cases (last_in x)) [
    | inl e ↦ rw e (head-reverse_aux (some x) xs (x ∷ acc) refl)
    | inr e ↦ rw e (head-reverse_aux l xs acc h)
  ]

  best_of-some : (b : ℕ) (xs : List ℕ) → best_of (some b) xs ≡ none → ⊥
  unfolding best_of better
  best_of-some b [] h = cc
  best_of-some b (x ∷ xs) h = ground (arith, h, best_of-some b xs, best_of-some x xs)

  last_of-some : (l : ℕ) (xs : List ℕ) → last_of (some l) xs ≡ none → ⊥
  unfolding last_of
  last_of-some l [] h = cc
  last_of-some l (x ∷ xs) h = ground (arith, h, last_of-some l xs, last_of-some x xs)

  -- Where no job has a priority and none is lifo, the first is the first of all.
  pub head-fifo :
      (xs : List ℕ)
      → best_of none xs ≡ none
      → last_of none xs ≡ none
      → head xs ≡ head (refs_where fifo xs)
  unfolding best_of better last_of head refs_where is_priority_job is_fifo_job
  head-fifo [] h k = refl
  head-fifo (x ∷ xs) h k = ground (arith, h, k, best_of-some x xs, last_of-some x xs)
