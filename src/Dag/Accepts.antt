-- ===== src/Dag/Accepts.antt =====
-- topoSort of src/dag-utils.ts on nodes without a cycle.
use glide_mq.Common.{
  ℕ, ◌<◌, ◌≡◌, subst, String, List, [], ◌∷◌, ◌++◌, count, arith, ok, Result-cases, inl, inr,
}
use glide_mq.Dag.{DagNode, DagError, duplicate_name, unknown_dependency, cycle, topo_sort}
use glide_mq.Dag.Spec.{names, IsDistinct}
use glide_mq.Dag.Walk.{IsEdge, IsWalk}
use glide_mq.Dag.Errors.{Explains}
use glide_mq.Dag.Verdict.{topo_sort-Explains}

-- Names are distinct, dependencies are nodes, and `rank` puts every dependency below its node, so
-- that no walk returns to where it began.
pub record IsDag (nodes : List DagNode) (rank : String → ℕ) : Type 0 where
  pub distinct : IsDistinct nodes
  pub known : (d n : String) → IsEdge nodes d n → 0 < count d (names nodes)
  pub ranked : (d n : String) → IsEdge nodes d n → rank d < rank n

walk_rises :
    (nodes : List DagNode) (rank : String → ℕ) (x z : String) (p : List String)
    → IsDag nodes rank
    → IsWalk nodes (x ∷ p ++ z ∷ [])
    → rank x < rank z
walk_rises nodes rank x z [] i w = i.ranked x z w.0
walk_rises nodes rank x z (y ∷ p) i w =
    omega (arith, i.ranked x y w.0, walk_rises nodes rank y z p i w.1)

no_explanation :
    (nodes : List DagNode) (rank : String → ℕ) (e : DagError)
    → IsDag nodes rank
    → ¬ (Explains nodes e)
no_explanation nodes rank (duplicate_name x) i h = omega (arith, i.distinct x)
no_explanation nodes rank (unknown_dependency n d) i h = omega (arith, i.known d n h.0)
no_explanation nodes rank (cycle p) i h = omega (
  arith,
  walk_rises nodes rank h.start h.start h.between i (subst (IsWalk nodes) h.closed h.walk),
)

-- A set of nodes with distinct names, known dependencies and no cycle is sorted.
pub topo_sort-accepts :
    (nodes : List DagNode) (rank : String → ℕ)
    → IsDag nodes rank
    → (sorted : List DagNode) × (topo_sort nodes ≡ ok sorted)
topo_sort-accepts nodes rank i = elim (Result-cases (topo_sort nodes)) [
  | inl found ↦ found
  | inr (e, h) ↦ absurd (no_explanation nodes rank e i (topo_sort-Explains nodes e h))
]
