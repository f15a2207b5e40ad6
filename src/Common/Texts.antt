-- ===== src/Common/Texts.antt =====
-- Texts are compared by decision, so that a branch has the equation or its refutation.
use Prim.Native.Nat.{ℕ, suc, ◌+◌, ◌<◌, ◌≤◌}
use Prim.Native.String.{String}
use mathlib.Core.Path.{◌≡◌, refl, ap}
use mathlib.Core.Logic.{◌≢◌, ite}
use mathlib.Core.Bool.{Bool, true, false}
use mathlib.Core.List.{List, [], ◌∷◌, ◌++◌}
use native.Mathlib.Omega.{arith}
use text.Mathlib.Text.{◌==◌ as str_eq}
use text.Mathlib.TextEquality.{eq_iff}
use glide_mq.Common.Lists.{length, length-append}

pub eq_of_test : (s t : String) → str_eq s t ≡ true → s ≡ t
eq_of_test s t e = (eq_iff s t).0 e

pub ne_of_test : (s t : String) → str_eq s t ≡ false → s ≢ t
ne_of_test s t e = λ p. cc ((eq_iff s t).1 p)

decision_of : (s t : String) (b : Bool) → str_eq s t ≡ b → Dec (s ≡ t)
decision_of s t true e = yes (eq_of_test s t e)
decision_of s t false e = no (ne_of_test s t e)

unfoldable pub text_dec : Discrete String
unfolding decision_of
text_dec s t = decision_of s t (str_eq s t) (λ i. str_eq s t)

-- How often a text stands in a list: 0 means that it is absent.
unfoldable pub count : String → List String → ℕ
count a [] = 0
count a (x ∷ xs) = ite (text_dec x a) 1 0 + count a xs

unfoldable pub includes : String → List String → Bool
includes a [] = false
includes a (x ∷ xs) = ite (text_dec x a) true (includes a xs)

pub count-append : (a : String) (xs ys : List String) → count a (xs ++ ys) ≡ count a xs + count a ys
unfolding count
count-append a [] ys = omega arith
count-append a (x ∷ xs) ys = omega (arith, count-append a xs ys)

pub count-cons_self : (a : String) (xs : List String) → count a (a ∷ xs) ≡ suc (count a xs)
unfolding count
count-cons_self a xs = ground arith

pub count-cons_ne : (a x : String) (xs : List String) → x ≢ a → count a (x ∷ xs) ≡ count a xs
unfolding count
count-cons_ne a x xs h = ground arith

pub count-cons-ge : (a x : String) (xs : List String) → count a xs ≤ count a (x ∷ xs)
unfolding count
count-cons-ge a x xs = ground arith

pub includes→count : (a : String) (xs : List String) → includes a xs ≡ true → 0 < count a xs
unfolding count includes
includes→count a [] h = cc
includes→count a (x ∷ xs) h = ground (arith, includes→count a xs)

pub includes-false→count : (a : String) (xs : List String) → includes a xs ≡ false → count a xs ≡ 0
unfolding count includes
includes-false→count a [] h = refl
includes-false→count a (x ∷ xs) h = ground (arith, includes-false→count a xs)

pub count-le-length : (a : String) (xs : List String) → count a xs ≤ length xs
unfolding count
count-le-length a [] = omega arith
count-le-length a (x ∷ xs) = ground (arith, count-le-length a xs)

-- A list with an occurrence of `x` splits there.
pub split_at :
    (x : String) (ys : List String)
    → 0 < count x ys
    → (pre : List String) × (post : List String) × (ys ≡ pre ++ x ∷ post)
unfolding count
split_at x [] h = absurd (omega arith)
split_at x (y ∷ ys) h = elim (text_dec y x) [
  | yes e ↦ ([], ys, rw e)
  | no n ↦ let (pre, post, e) = split_at x ys (ground arith) in (y ∷ pre, post, ap (◌∷◌ y) e)
]

-- A list that holds no name more often than another is no longer.
pub length_of_count :
    (xs ys : List String) → ((a : String) → count a xs ≤ count a ys) → length xs ≤ length ys
unfolding count
length_of_count [] ys h = omega arith
length_of_count (x ∷ xs) ys h =
    let (pre, post, e) = split_at x ys (ground (arith, h x)) in
    let rest =
      length_of_count xs (pre ++ post)
        λ a. ground (arith, h a, e, count-append a pre post, count-append a pre (x ∷ post)) in
    omega (arith, rest, ap length e, length-append pre post, length-append pre (x ∷ post))
