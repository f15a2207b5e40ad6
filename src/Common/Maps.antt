-- ===== src/Common/Maps.antt =====
-- A JavaScript `Map` with text keys: entries in the order in which the keys were first set.
use Prim.Native.String.{String}
use mathlib.Core.Path.{◌≡◌, refl}
use mathlib.Core.Logic.{ite}
use mathlib.Core.List.{List, [], ◌∷◌, map}
use mathlib.Core.Option.{Option, none, some}
use native.Mathlib.Omega.{arith}
use glide_mq.Common.Texts.{text_dec, count}

abbrev pub Map {ℓ} : Type ℓ → Type ℓ
Map V = List (String × V)

module _ {ℓ} {V : Type ℓ} where
  unfoldable pub get? : String → Map V → Option V
  get? k [] = none
  get? k ((j, v) ∷ m) = ite (text_dec j k) (some v) (get? k m)

  -- A new key goes to the end; a key that is there keeps its place.
  unfoldable pub set : String → V → Map V → Map V
  set k v [] = (k, v) ∷ []
  set k v ((j, w) ∷ m) = ite (text_dec j k) ((j, v) ∷ m) ((j, w) ∷ set k v m)

  pub get?-set :
      (j k : String) (v : V) (m : Map V)
      → get? j (set k v m) ≡ ite (text_dec k j) (some v) (get? j m)
  unfolding get? set
  get?-set j k v [] = refl
  get?-set j k v ((i, w) ∷ m) = ground (arith, get?-set j k v m)

  abbrev pub keys : Map V → List String
  keys = map (λ e. e.0)

pub get?-none-keys {ℓ} :
    {V : Type ℓ} (k : String) (m : Map V) → get? k m ≡ none → count k (keys m) ≡ 0
unfolding get? count
get?-none-keys k [] h = refl
get?-none-keys k ((j, v) ∷ m) h = ground (arith, get?-none-keys k m)

pub get?-absent {ℓ} : {V : Type ℓ} (k : String) (m : Map V) → count k (keys m) ≡ 0 → get? k m ≡ none
unfolding get? count
get?-absent k [] h = refl
get?-absent k ((j, v) ∷ m) h = ground (arith, get?-absent k m)
