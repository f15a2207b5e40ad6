-- ===== src/InMemory/Keys.antt =====
-- The maps of src/testing.ts by their keys: a JavaScript Map holds each key once.
use glide_mq.Common.{
  ℕ, ◌+◌, ◌<◌, ◌≡◌, refl, String, text_dec, ite, List, [], ◌∷◌, ◌++◌, none, some, Map, get?, set,
  get?-set, ◌==◌, if◌then◌else◌, arith, ℕ_discrete,
}
use glide_mq.InMemory.Store.{delete}
use glide_mq.InMemory.Bulk.{refs_of}

-- How often a reference stands in a list.
unfoldable pub occurs : ℕ → List ℕ → ℕ
occurs a [] = 0
occurs a (x ∷ xs) = (if x == a then 1 else 0) + occurs a xs

pub occurs-append : (a : ℕ) (xs ys : List ℕ) → occurs a (xs ++ ys) ≡ occurs a xs + occurs a ys
unfolding occurs
occurs-append a [] ys = omega arith
occurs-append a (x ∷ xs) ys = omega (arith, occurs-append a xs ys)

pub get?-delete {ℓ} :
    {V : Type ℓ} (j k : String) (m : Map V)
    → get? j (delete k m) ≡ ite (text_dec k j) none (get? j m)
unfolding get? delete
get?-delete j k [] = ground arith
get?-delete j k ((i, v) ∷ m) = ground (arith, get?-delete j k m)

-- No key stands twice.
unfoldable pub IsApart : Map ℕ → Type 0
unfolding get?
IsApart [] = Unit
IsApart ((k, v) ∷ m) = (get? k m ≡ none) × IsApart m

ite_intro {ℓ κ μ} :
    {X : Type μ} {A : Type ℓ} (P : A → Type κ) (d : Dec X) (x y : A)
    → P x
    → (¬ X → P y)
    → P (ite d x y)
ite_intro P (yes e) x y h k = h
ite_intro P (no n) x y h k = k n

pub delete-IsApart : (k : String) (m : Map ℕ) → IsApart m → IsApart (delete k m)
unfolding IsApart delete
delete-IsApart k [] h = tt
delete-IsApart k ((j, v) ∷ m) (f, h) =
    ite_intro IsApart (text_dec j k) (delete k m) ((j, v) ∷ delete k m) (delete-IsApart k m h)
      (λ n. (ground (arith, get?-delete j k m), delete-IsApart k m h))

pub set-IsApart : (k : String) (v : ℕ) (m : Map ℕ) → IsApart m → IsApart (set k v m)
unfolding IsApart set
set-IsApart k v [] h = (refl, tt)
set-IsApart k v ((j, u) ∷ m) (f, h) =
    ite_intro IsApart (text_dec j k) ((j, v) ∷ m) ((j, u) ∷ set k v m) (f, h)
      (λ n. (ground (arith, get?-set j k v m), set-IsApart k v m h))

-- A value of the map stands under some key.
pub key_of :
    (ref : ℕ) (m : Map ℕ)
    → IsApart m
    → 0 < occurs ref (refs_of m)
    → (k : String) × (get? k m ≡ some ref)
unfolding IsApart get? refs_of occurs
key_of ref [] h o = absurd (omega arith)
key_of ref ((j, u) ∷ m) (f, h) o = elim (ℕ_discrete u ref) [
  | yes e ↦ (j, ground arith)
  | no n ↦ let (k, g) = key_of ref m h (ground arith) in (k, ground arith)
]

-- A job of the map is among its values.
pub listed : (k : String) (ref : ℕ) (m : Map ℕ) → get? k m ≡ some ref → 0 < occurs ref (refs_of m)
unfolding get? refs_of occurs
listed k ref [] h = cc
listed k ref ((j, u) ∷ m) h = ground (arith, listed k ref m)
