-- ===== src/Dag/Walk.antt =====
-- Walks along the dependencies of src/dag-utils.ts, and closed lists of names.
use glide_mq.Common.{
  ℕ, suc, ◌<◌, ◌≤◌, ◌≡◌, refl, ◌≢◌, subst, sym, ap, String, text_dec, List, [], ◌∷◌, ◌++◌, count,
  count-append, length, arith, Map, dec_lt, if◌then◌else◌, ltb,
}
use glide_mq.Dag.{DagNode, neighbors_of, drop_before, drop_last}
use glide_mq.Dag.Spec.{deps_named}

-- `x` is a dependency of a node named `y`.
abbrev pub IsEdge : List DagNode → String → String → Type 0
IsEdge nodes x y = 0 < count x (deps_named y nodes)

abbrev pub IsWalk : List DagNode → List String → Type 0
IsWalk nodes [] = Unit {0}
IsWalk nodes (x ∷ []) = Unit {0}
IsWalk nodes (x ∷ y ∷ r) = IsEdge nodes x y × IsWalk nodes (y ∷ r)

-- A walk that ends where it began.
pub record IsCycle (nodes : List DagNode) (p : List String) : Type 0 where
  pub start : String
  pub between : List String
  pub closed : p ≡ start ∷ between ++ start ∷ []
  pub walk : IsWalk nodes p

pub drop_last-snoc : (xs : List String) (x : String) → drop_last (xs ++ x ∷ []) ≡ xs
unfolding drop_last
drop_last-snoc [] x = refl
drop_last-snoc (y ∷ []) x = refl
drop_last-snoc (y ∷ z ∷ xs) x = ap (◌∷◌ y) (drop_last-snoc (z ∷ xs) x)

-- A walk is longer by an edge from its last name.
pub IsWalk-snoc :
    (nodes : List DagNode) (p : List String) (x y : String)
    → IsWalk nodes (p ++ x ∷ [])
    → IsEdge nodes x y
    → IsWalk nodes ((p ++ x ∷ []) ++ y ∷ [])
IsWalk-snoc nodes [] x y h e = (e, tt)
IsWalk-snoc nodes (a ∷ []) x y h e = (h.0, (e, tt))
IsWalk-snoc nodes (a ∷ b ∷ p) x y h e = (h.0, IsWalk-snoc nodes (b ∷ p) x y h.1 e)

IsWalk-tail :
    (nodes : List DagNode) (x : String) (p : List String) → IsWalk nodes (x ∷ p) → IsWalk nodes p
IsWalk-tail nodes x [] h = tt
IsWalk-tail nodes x (y ∷ p) h = h.1

drop_before_here : (x y : String) (ys : List String) → y ≡ x → drop_before x (y ∷ ys) ≡ y ∷ ys
unfolding drop_before
drop_before_here x y ys e = ground arith

drop_before_skip :
    (x y : String) (ys : List String) → y ≢ x → drop_before x (y ∷ ys) ≡ drop_before x ys
unfolding drop_before
drop_before_skip x y ys n = ground arith

-- Cutting a walk before an earlier visit of its last name leaves a cycle.
pub drop_before-IsCycle :
    (nodes : List DagNode) (x : String) (p : List String)
    → IsWalk nodes (p ++ x ∷ [])
    → 0 < count x p
    → IsCycle nodes (drop_before x (p ++ x ∷ []))
unfolding count
drop_before-IsCycle nodes x [] w h = absurd (omega arith)
drop_before-IsCycle nodes x (y ∷ p) w h = elim (text_dec y x) [
  | yes e ↦
      subst (IsCycle nodes) (sym (drop_before_here x y (p ++ x ∷ []) e))
        (record { start = y; between = p; closed = ap (λ z. y ∷ p ++ z ∷ []) (sym e); walk = w })
  | no n ↦
      subst (IsCycle nodes) (sym (drop_before_skip x y (p ++ x ∷ []) n))
        (drop_before-IsCycle nodes x p (IsWalk-tail nodes y (p ++ x ∷ []) w) (ground arith))
]

module _ (remaining : List String) (adjacency : Map (List String)) where
  -- The neighbors of each name, as far as they remain, stand behind it.
  abbrev pub IsClosed : List String → Type 0
  IsClosed [] = Unit {0}
  IsClosed (f ∷ fs) =
      ((w : String)
        → 0 < count w (neighbors_of f adjacency)
        → 0 < count w remaining
        → 0 < count w fs)
      × IsClosed fs

  pub IsClosed-append : (xs ys : List String) → IsClosed xs → IsClosed ys → IsClosed (xs ++ ys)
  IsClosed-append [] ys h k = k
  IsClosed-append (x ∷ xs) ys h k =
      (λ w m r. omega (arith, h.0 w m r, count-append w xs ys), IsClosed-append xs ys h.1 k)

-- The place of a name's last occurrence, counted from the end.
pub rank : String → List String → ℕ
rank v [] = 0
rank v (f ∷ fs) = if ltb 0 (count v fs) then rank v fs else suc (length fs)

pub rank-le-length : (v : String) (fs : List String) → rank v fs ≤ length fs
unfolding rank
rank-le-length v [] = omega arith
rank-le-length v (f ∷ fs) = ground (arith, rank-le-length v fs)

pub rank-lt :
    (remaining : List String) (adjacency : Map (List String)) (fs : List String) (p w : String)
    → IsClosed remaining adjacency fs
    → 0 < count p fs
    → 0 < count w (neighbors_of p adjacency)
    → 0 < count w remaining
    → (0 < count w fs) × (rank w fs < rank p fs)
unfolding rank count
rank-lt remaining adjacency [] p w c h e r = absurd (omega arith)
rank-lt remaining adjacency (f ∷ fs) p w c h e r = elim (dec_lt 0 (count p fs)) [
  | yes k ↦ ground (arith, rank-lt remaining adjacency fs p w c.1 k e r)
  | no k ↦ elim (text_dec f p) [
    | yes q ↦ ground (
      arith,
      rank-le-length w fs,
      c.0 w (subst (λ z. 0 < count w (neighbors_of z adjacency)) (sym q) e) r,
    )
    | no q ↦ absurd (ground arith)
  ]
]
