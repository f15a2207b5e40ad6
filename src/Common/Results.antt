-- ===== src/Common/Results.antt =====
-- Code that throws: the value, or the error that leaves the function.
use mathlib.Core.Path.{◌≡◌, refl}
use mathlib.Core.Logic.{◌⊎◌, inl, inr}

pub data Result {ℓ} (E : Type 0) (A : Type ℓ) : Type ℓ where
  ok : A → Result E A
  err : E → Result E A

module _ {E : Type 0} where
  infixl 5 ◌>>=◌ ◌>>◌
  abbrev pub ◌>>=◌ {ℓ κ} : {T : Type ℓ} {U : Type κ} → Result E T → (T → Result E U) → Result E U
  ok t >>= next = next t
  err e >>= next = err e

  abbrev pub ◌>>◌ {κ} : {U : Type κ} → Result E (Unit {0}) → Result E U → Result E U
  first >> second = first >>= λ _. second

  -- What a chain that returned went through.
  pub >>=-eq-ok {ℓ κ} :
      {T : Type ℓ} {U : Type κ} {u : U} (first : Result E T) (next : T → Result E U)
      → (first >>= next) ≡ ok u
      → (t : T) × (first ≡ ok t) × (next t ≡ ok u)
  >>=-eq-ok (ok t) next returned = (t, refl, returned)
  >>=-eq-ok (err e) next returned = cc

pub ok-injective {ℓ} :
    {E : Type 0} {A : Type ℓ} {a b : A} → ◌≡◌ {A = Result E A} (ok a) (ok b) → a ≡ b
ok-injective h = cc

pub Result-cases {ℓ} :
    {E : Type 0} {A : Type ℓ} (r : Result E A) → ((a : A) × (r ≡ ok a)) ⊎ ((e : E) × (r ≡ err e))
Result-cases (ok a) = inl (a, refl)
Result-cases (err e) = inr (e, refl)
