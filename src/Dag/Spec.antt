-- ===== src/Dag/Spec.antt =====
-- What a set of DAG nodes of src/dag-utils.ts means: the dependencies of a name, orders that respect
-- them, cycles.
use glide_mq.Common.{
  ℕ, ◌+◌, ◌<◌, ◌≤◌, ◌≡◌, refl, String, text_dec, ite, dec_lt, if◌then◌else◌, ltb, List, [], ◌∷◌,
  ◌++◌, map, All, All-map, count, count-append, length, arith,
}
use mathlib.Core.List.{append-nil}
use glide_mq.Dag.{DagNode, deps_of}

abbrev pub names : List DagNode → List String
names = map (λ n. n.name)

-- The dependencies of the nodes named `x`.
unfoldable pub deps_named : String → List DagNode → List String
deps_named x [] = []
deps_named x (n ∷ ns) = ite (text_dec n.name x) (deps_of n) [] ++ deps_named x ns

-- How many entries of a list are not in `seen`.
unfoldable pub outside : List String → List String → ℕ
outside seen [] = 0
outside seen (d ∷ ds) = (if ltb 0 (count d seen) then 0 else 1) + outside seen ds

pub outside-nil : (ds : List String) → outside [] ds ≡ length ds
unfolding outside count
outside-nil [] = refl
outside-nil (d ∷ ds) = omega (arith, outside-nil ds)

-- Adding a name to `seen` takes its occurrences away.
pub outside-snoc :
    (seen : List String) (c : String) (ds : List String)
    → count c seen ≡ 0
    → outside seen ds ≡ count c ds + outside (seen ++ c ∷ []) ds
unfolding outside count
outside-snoc seen c [] h = omega arith
outside-snoc seen c (d ∷ ds) h =
    ground (arith, outside-snoc seen c ds h, count-append d seen (c ∷ []))

pub outside-zero : (seen ds : List String) → outside seen ds ≡ 0 → All (λ d. 0 < count d seen) ds
unfolding outside
outside-zero seen [] h = tt
outside-zero seen (d ∷ ds) h = ground (arith, outside-zero seen ds)

pub outside-pos :
    (seen ds : List String)
    → 0 < outside seen ds
    → (d : String) × (0 < count d ds) × (count d seen ≡ 0)
unfolding outside count
outside-pos seen [] h = absurd (omega arith)
outside-pos seen (d ∷ ds) h = elim (dec_lt 0 (count d seen)) [
  | yes p ↦ let (e, m, a) = outside-pos seen ds (ground arith) in (e, ground arith, a)
  | no p ↦ (d, ground arith, omega arith)
]

pub deps_named-absent :
    (x : String) (ns : List DagNode) → count x (names ns) ≡ 0 → deps_named x ns ≡ []
unfolding deps_named count
deps_named-absent x [] h = refl
deps_named-absent x (n ∷ ns) h = ground (arith, deps_named-absent x ns)

abbrev pub IsDistinct : List DagNode → Type 0
IsDistinct ns = (x : String) → count x (names ns) ≤ 1

deps_named-self_pos :
    (ns : List DagNode)
    → IsDistinct ns
    → All (λ n. (deps_named n.name ns ≡ deps_of n) × (0 < count n.name (names ns))) ns
unfolding deps_named count
deps_named-self_pos [] h = tt
deps_named-self_pos (n ∷ ns) h = (
  (grind (arith, h n.name, deps_named-absent n.name ns, append-nil (deps_of n)), ground arith),
  All-map ns (λ m (e, p). (ground (arith, h m.name), ground arith))
      (deps_named-self_pos ns (λ x. ground (arith, h x))),
)

-- With distinct names the dependencies of a node's name are the node's own.
pub deps_named_self :
    (ns : List DagNode) → IsDistinct ns → All (λ n. deps_named n.name ns ≡ deps_of n) ns
deps_named_self ns h = All-map ns (λ m (e, p). e) (deps_named-self_pos ns h)

pub names-pos : (ns : List DagNode) → IsDistinct ns → All (λ n. 0 < count n.name (names ns)) ns
names-pos ns h = All-map ns (λ m (e, p). p) (deps_named-self_pos ns h)
