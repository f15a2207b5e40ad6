-- ===== src/Dag/Sorted.antt =====
-- The nodes that topoSort of src/dag-utils.ts returns, and their order.
use mathlib.Core.List.{Perm, perm_middle, filter_map}
use mathlib.Core.List.Perm
use glide_mq.Common.{
  ℕ, ◌<◌, ◌≤◌, ◌≡◌, refl, sym, ap, ◌∙◌, String, text_dec, List, [], ◌∷◌, ◌++◌, All, All-zip, count,
  count-cons-ge, count-append, count-cons_self, split_at, length, arith, Map, get?, ok, >>=-eq-ok,
  subst, some,
}
use glide_mq.Dag.{DagNode, Graph, Kahn, deps_of, degree_of, build_graph, nodes_of, kahn, topo_sort}
use glide_mq.Dag.Spec.{names, deps_named, deps_named_self, outside-zero}
use glide_mq.Dag.Built.{Built, build_graph-Built}
use glide_mq.Dag.Relaxed.{positives}
use glide_mq.Dag.Loop.{Ran, kahn-Ran, InOrder}

perm_of_count : (xs ys : List String) → ((a : String) → count a xs ≡ count a ys) → Perm xs ys
unfolding count
perm_of_count [] [] h = Perm.rfl
perm_of_count [] (y ∷ ys) h = absurd (ground (arith, h y))
perm_of_count (x ∷ xs) ys h =
    let (pre, post, e) = split_at x ys (ground (arith, h x)) in
    rw e (
      Perm.trans
        (Perm.cons x (
          perm_of_count xs (pre ++ post)
            λ a. ground (arith, h a, count-append a pre post, count-append a pre (x ∷ post))))
        (Perm.symm (perm_middle pre post)))

-- The order of a plan: every node depends only on names before it.
abbrev pub IsOrdered : List String → List DagNode → Type 0
IsOrdered seen [] = Unit {0}
IsOrdered seen (n ∷ ns) =
    All (λ d. 0 < count d seen) (deps_of n) × IsOrdered (seen ++ n.name ∷ []) ns

positives-zero : (m : Map ℕ) (x : String) → positives m ≡ 0 → degree_of x m ≡ 0
unfolding positives degree_of get?
positives-zero [] x h = refl
positives-zero ((k, d) ∷ m) x h = ground (arith, positives-zero m x)

module _ (nodes : List DagNode) (g : Graph) (b : Built nodes g) where
  -- With as many names shifted as there are nodes, each name is shifted once.
  shifted-count :
      (t : Kahn) (r : Ran nodes t)
      → length nodes ≤ length t.shifted
      → (x : String) → count x t.shifted ≡ count x (names nodes)
  unfolding count
  shifted-count t r h x =
      ground (arith, r.inv.entered x, b.distinct x, positives-zero t.in_degree x, r.total, r.empty)

nodes_of-filter_map :
    (m : Map DagNode) (cs : List String) → nodes_of m cs ≡ filter_map (λ c. get? c m) cs
unfolding nodes_of filter_map
nodes_of-filter_map m [] = refl
nodes_of-filter_map m (c ∷ cs) = ground (arith, nodes_of-filter_map m cs)

nodes_of-perm :
    (m : Map DagNode) {cs ds : List String} → Perm cs ds → Perm (nodes_of m cs) (nodes_of m ds)
nodes_of-perm m {cs} {ds} p =
    rw (nodes_of-filter_map m cs, nodes_of-filter_map m ds) (Perm.filter_map (λ c. get? c m) p)

nodes_of-names :
    (m : Map DagNode) (ns : List DagNode)
    → All (λ n. get? n.name m ≡ some n) ns
    → nodes_of m (names ns) ≡ ns
unfolding nodes_of
nodes_of-names m [] h = refl
nodes_of-names m (n ∷ ns) h = ground (arith, nodes_of-names m ns)

nodes_of-cons :
    (m : Map DagNode) (c : String) (cs : List String) (n : DagNode)
    → get? c m ≡ some n
    → nodes_of m (c ∷ cs) ≡ n ∷ nodes_of m cs
unfolding nodes_of
nodes_of-cons m c cs n h = ground arith

pub node_named :
    {P : DagNode → Type 0} (ns : List DagNode) (c : String)
    → All P ns
    → 0 < count c (names ns)
    → (n : DagNode) × (n.name ≡ c) × P n
unfolding count
node_named [] c h k = absurd (omega arith)
node_named (n ∷ ns) c h k = elim (text_dec n.name c) [
  | yes e ↦ (n, e, h.0)
  | no e ↦ node_named ns c h.1 (ground arith)
]

nodes_of-IsOrdered :
    (nodes : List DagNode) (g : Graph) (b : Built nodes g) (seen cs : List String)
    → InOrder nodes seen cs
    → ((x : String) → count x cs ≤ count x (names nodes))
    → IsOrdered seen (nodes_of g.node_map cs)
unfolding nodes_of
nodes_of-IsOrdered nodes g b seen [] h k = tt
nodes_of-IsOrdered nodes g b seen (c ∷ cs) h k =
    let (n, named, (own, deps)) =
      node_named nodes c (All-zip _ _ nodes b.own (deps_named_self nodes b.distinct))
        (omega (arith, k c, count-cons_self c cs)) in
    let rest =
      nodes_of-IsOrdered nodes g b (seen ++ c ∷ []) cs h.1
        (λ x. omega (arith, k x, count-cons-ge x c cs)) in
    let here : get? c g.node_map ≡ some n = subst (λ x. get? x g.node_map ≡ some n) named own in
    let before : All (λ d. 0 < count d seen) (deps_of n) =
      subst (All (λ d. 0 < count d seen)) (ap (λ x. deps_named x nodes) (sym named) ∙ deps)
        (outside-zero seen (deps_named c nodes) h.0) in
    subst (IsOrdered seen) (sym (nodes_of-cons g.node_map c cs n here)) (before, rw named rest)

-- A returned order comes from a full run of the loop.
record Sorted (nodes sorted : List DagNode) : Type 0 where
  graph : Graph
  built : Built nodes graph
  full : length nodes ≤ length (kahn nodes graph).shifted
  result : sorted ≡ nodes_of graph.node_map (kahn nodes graph).shifted

topo_sort-Sorted : (nodes sorted : List DagNode) → topo_sort nodes ≡ ok sorted → Sorted nodes sorted
unfolding topo_sort
topo_sort-Sorted nodes sorted h =
    let (g, built, rest) = >>=-eq-ok (build_graph nodes) _ h in
    record {
      graph = g;
      built = build_graph-Built nodes g built;
      full = ground arith;
      result = ground arith;
    }

module _ (nodes sorted : List DagNode) (s : Sorted nodes sorted) where
  Sorted-count : (x : String) → count x (kahn nodes s.graph).shifted ≡ count x (names nodes)
  Sorted-count =
      shifted-count nodes s.graph s.built (kahn nodes s.graph) (kahn-Ran nodes s.graph s.built)
        s.full

  Sorted-perm : Perm sorted nodes
  Sorted-perm =
      let moved = nodes_of-perm s.graph.node_map (perm_of_count _ _ Sorted-count) in
      rw s.result (subst (Perm _) (nodes_of-names s.graph.node_map nodes s.built.own) moved)

  Sorted-IsOrdered : IsOrdered [] sorted
  Sorted-IsOrdered = rw s.result (
      nodes_of-IsOrdered nodes s.graph s.built [] (kahn nodes s.graph).shifted
        (kahn-Ran nodes s.graph s.built).inv.ordered (λ x. omega (arith, Sorted-count x)))

-- When topoSort returns, it returns the given nodes, each as often as it was given, and every
-- dependency of a node is the name of a node that stands before it.
pub topo_sort-returns :
    (nodes sorted : List DagNode)
    → topo_sort nodes ≡ ok sorted
    → Perm sorted nodes × IsOrdered [] sorted
topo_sort-returns nodes sorted h =
    let s = topo_sort-Sorted nodes sorted h in
    (Sorted-perm nodes sorted s, Sorted-IsOrdered nodes sorted s)
