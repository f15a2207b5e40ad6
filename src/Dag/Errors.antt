-- ===== src/Dag/Errors.antt =====
-- The errors of buildGraph of src/dag-utils.ts, and the nodes they are about.
use glide_mq.Common.{
  ◌+◌, ◌<◌, ◌≤◌, ◌≡◌, refl, subst, sym, String, text_dec, List, [], ◌∷◌, count, count-append, arith,
  Map, get?, set, get?-set, none, ok, err, Option-cases, Result-cases, ◌⊎◌, inl, inr,
}
use glide_mq.Dag.{
  DagNode, DagError, duplicate_name, unknown_dependency, cycle, deps_of, add_nodes, check_deps,
  check_nodes, build_graph,
}
use glide_mq.Dag.Spec.{names, deps_named}
use glide_mq.Dag.Edges.{present, add_nodes-present}
use glide_mq.Dag.Walk.{IsEdge, IsCycle}

-- What each error says of the nodes.
abbrev pub Explains : List DagNode → DagError → Type 0
Explains nodes (duplicate_name x) = 2 ≤ count x (names nodes)
Explains nodes (unknown_dependency n d) = IsEdge nodes d n × (count d (names nodes) ≡ 0)
Explains nodes (cycle p) = IsCycle nodes p

add_nodes-err :
    (ns : List DagNode) (m : Map DagNode) (e : DagError)
    → add_nodes ns m ≡ err e
    → (x : String) × (e ≡ duplicate_name x) × (2 ≤ count x (names ns) + present (get? x m))
unfolding add_nodes count
add_nodes-err [] m e h = cc
add_nodes-err (n ∷ ns) m e h = elim (Option-cases (get? n.name m)) [
  | inl q ↦
      let (x, f, k) = add_nodes-err ns (set n.name n m) e (ground arith) in
      (x, f, ground (arith, get?-set x n.name n m))
  | inr (v, q) ↦ (n.name, ground arith, ground arith)
]

-- Why a check of dependencies fails: `d` is not a node, or is the node itself.
abbrev Blames : Map DagNode → String → String → DagError → Type 0
Blames m n d e =
    ((e ≡ unknown_dependency n d) × (get? d m ≡ none)) ⊎ ((e ≡ cycle (n ∷ n ∷ [])) × (d ≡ n))

check_deps-err :
    (n : String) (ds : List String) (m : Map DagNode) (e : DagError)
    → check_deps n ds m ≡ err e
    → (d : String) × (0 < count d ds) × Blames m n d e
unfolding check_deps count
check_deps-err n [] m e h = cc
check_deps-err n (d ∷ ds) m e h = elim (Option-cases (get? d m)) [
  | inl q ↦ (d, ground arith, inl (ground arith, q))
  | inr (v, q) ↦ elim (text_dec d n) [
    | yes p ↦ (d, ground arith, inr (ground arith, p))
    | no p ↦ let (d', k, f) = check_deps-err n ds m e (ground arith) in (d', ground arith, f)
  ]
]

check_nodes-err :
    (ns : List DagNode) (m : Map DagNode) (e : DagError)
    → check_nodes ns m ≡ err e
    → (n : String) × (d : String) × (0 < count d (deps_named n ns)) × Blames m n d e
unfolding check_nodes deps_named count
check_nodes-err [] m e h = cc
check_nodes-err (n ∷ ns) m e h = elim (Result-cases (check_deps n.name (deps_of n) m)) [
  | inl (_, q) ↦
      let (n', d, k, f) = check_nodes-err ns m e (ground arith) in
      (n', d, ground (arith, k, count-append d (deps_of n) (deps_named n' ns)), f)
  | inr (e', q) ↦
      let (d, k, f) = check_deps-err n.name (deps_of n) m e (ground arith) in
      (n.name, d, ground (arith, k, count-append d (deps_of n) (deps_named n.name ns)), f)
]

Blames-Explains :
    (nodes : List DagNode) (m : Map DagNode) (n d : String) (e : DagError)
    → add_nodes nodes [] ≡ ok m
    → IsEdge nodes d n
    → Blames m n d e
    → Explains nodes e
unfolding get?
Blames-Explains nodes m n d e a k (inl (f, q)) =
    subst (Explains nodes) (sym f) (k, ground (arith, add_nodes-present nodes [] m d a))
Blames-Explains nodes m n d e a k (inr (f, q)) = subst (Explains nodes) (sym f) (record {
  start = n;
  between = [];
  closed = refl;
  walk = (subst (λ x. IsEdge nodes x n) q k, tt);
})

pub build_graph-err :
    (nodes : List DagNode) (e : DagError) → build_graph nodes ≡ err e → Explains nodes e
unfolding build_graph get?
build_graph-err nodes e h = elim (Result-cases (add_nodes nodes [])) [
  | inl (m, q) ↦ elim (Result-cases (check_nodes nodes m)) [
    | inl (_, p) ↦ ground arith
    | inr (e', p) ↦
        let (n, d, k, f) = check_nodes-err nodes m e (ground arith) in
        Blames-Explains nodes m n d e q k f
  ]
  | inr (e', q) ↦
      let (x, f, k) = add_nodes-err nodes [] e (ground arith) in
      subst (Explains nodes) (sym f) (omega (arith, k))
]
