-- ===== src/Dag/Verdict.antt =====
-- The errors of topoSort of src/dag-utils.ts, and the nodes they are about.
use glide_mq.Common.{
  ℕ, ◌<◌, ◌≡◌, ◌≢◌, refl, subst, sym, ap, ◌∙◌, String, text_dec, List, [], ◌∷◌, All, All-zip, count,
  count-cons_self, length_of_count, length, take, length-map, arith, Map, if◌then◌else◌, ltb,
  Option, none, some, ok, err, Result-cases, inl, inr,
}
use glide_mq.Dag.{
  DagNode, Graph, Kahn, DagError, deps_of, degree_of, neighbors_of, positive_names, find_cycle_path,
  build_graph, kahn, cycle_error, topo_sort,
}
use glide_mq.Dag.Spec.{names, deps_named, deps_named_self, outside-pos}
use glide_mq.Dag.Built.{Built, build_graph-Built}
use glide_mq.Dag.Loop.{Ran, kahn-Ran}
use glide_mq.Dag.Sorted.{node_named}
use glide_mq.Dag.Walk.{IsEdge, IsCycle}
use glide_mq.Dag.Cycles.{Exhausted, Paths, path_from-Paths, no_descent}
use glide_mq.Dag.Errors.{Explains, build_graph-err}

positive_names-count :
    (m : Map ℕ) (ns : List DagNode) (x : String)
    → count x (positive_names m ns) ≡ (if ltb 0 (degree_of x m) then count x (names ns) else 0)
unfolding positive_names count
positive_names-count m [] x = ground arith
positive_names-count m (n ∷ ns) x = ground (arith, positive_names-count m ns x)

all_of_count :
    (P : String → Type 0) (ds : List String) (d : String) → All P ds → 0 < count d ds → P d
unfolding count
all_of_count P [] d h k = absurd (omega arith)
all_of_count P (e ∷ ds) d h k = elim (text_dec e d) [
  | yes q ↦ subst P q h.0
  | no q ↦ all_of_count P ds d h.1 (ground arith)
]

module _ (nodes : List DagNode) (g : Graph) (b : Built nodes g) where
  known_dep :
      (v d : String) → 0 < count v (names nodes) → IsEdge nodes d v → 0 < count d (names nodes)
  known_dep v d k e =
      let (n, named, (known, own)) =
        node_named nodes v (All-zip _ _ nodes b.known (deps_named_self nodes b.distinct)) k in
      (all_of_count _ (deps_of n) d known
        (subst (λ ds. 0 < count d ds) (ap (λ z. deps_named z nodes) (sym named) ∙ own) e)).0

  left_over : Kahn → List String
  left_over t = positive_names t.in_degree nodes

  module _ (t : Kahn) (r : Ran nodes t) where
    left_over_before :
        (v : String)
        → 0 < count v (left_over t)
        → (d : String) × (0 < count d (left_over t)) × (0 < count v (neighbors_of d g.adjacency))
    unfolding left_over count
    left_over_before v m =
        let at_v = positive_names-count t.in_degree nodes v in
        let (d, e, a) =
          outside-pos t.shifted (deps_named v nodes) (ground (arith, at_v, r.inv.degrees v)) in
        let k = known_dep v d (ground (arith, at_v)) e in
        (
          d,
          ground (arith, positive_names-count t.in_degree nodes d, r.inv.entered d, r.empty, k),
          ground (arith, b.neighbors d v),
        )

    left_over_some : length t.shifted < length nodes → left_over t ≢ []
    unfolding left_over count
    left_over_some h e =
        let no_more = length_of_count (names nodes) t.shifted λ x. ground (
          arith,
          positive_names-count t.in_degree nodes x,
          ap (count x) e,
          r.inv.entered x,
          r.empty,
          b.distinct x,
        ) in
        absurd (omega (arith, no_more, length-map nodes (λ n. n.name)))

  IsEdge-of_neighbor : (x y : String) → 0 < count y (neighbors_of x g.adjacency) → IsEdge nodes x y
  IsEdge-of_neighbor x y m = rw (b.neighbors x y) at m

  path_or-IsCycle :
      (remaining : List String) (o : Option (List String))
      → ¬ (Exhausted nodes remaining g.adjacency remaining)
      → Paths nodes remaining g.adjacency remaining o
      → IsCycle nodes (elim o [ some path ↦ path | none ↦ take 2 remaining ])
  path_or-IsCycle remaining (some p) h k = k
  path_or-IsCycle remaining none h k = absurd (h k)

  find_cycle_path-IsCycle :
      (remaining : List String)
      → ¬ (Exhausted nodes remaining g.adjacency remaining)
      → IsCycle nodes (find_cycle_path remaining g.adjacency)
  unfolding find_cycle_path
  find_cycle_path-IsCycle remaining h =
      path_or-IsCycle remaining _ h
        (path_from-Paths nodes remaining g.adjacency IsEdge-of_neighbor remaining (λ x m. m))

  not-Exhausted :
      (t : Kahn) (r : Ran nodes t) (rest : List String)
      → rest ≢ []
      → left_over t ≡ rest
      → ¬ (Exhausted nodes rest g.adjacency rest)
  not-Exhausted t r [] h e x = h refl
  not-Exhausted t r (v ∷ vs) h e x =
      no_descent nodes (v ∷ vs) g.adjacency x
        (subst
          (λ rest.
            (v : String)
            → 0 < count v rest
            → (d : String) × (0 < count d rest) × (0 < count v (neighbors_of d g.adjacency)))
          e (left_over_before t r))
        v (omega (arith, count-cons_self v vs))

  -- When names are left over, the path that is reported is a cycle of the nodes.
  find_cycle_path-left_over :
      (t : Kahn) (r : Ran nodes t)
      → length t.shifted < length nodes
      → IsCycle nodes (find_cycle_path (left_over t) g.adjacency)
  find_cycle_path-left_over t r h =
      find_cycle_path-IsCycle (left_over t)
        (not-Exhausted t r (left_over t) (left_over_some t r h) refl)

-- Every error that topoSort throws is true of the nodes: a duplicate name is given twice, an
-- unknown dependency is a dependency of that node and the name of none, and the path of a
-- CycleError is a closed walk of at least one dependency.
pub topo_sort-Explains :
    (nodes : List DagNode) (e : DagError) → topo_sort nodes ≡ err e → Explains nodes e
unfolding topo_sort cycle_error left_over
topo_sort-Explains nodes e h = elim (Result-cases (build_graph nodes)) [
  | inl (g, q) ↦
      let b = build_graph-Built nodes g q in
      let r = kahn-Ran nodes g b in
      subst (Explains nodes) (sym (short g q).0)
        (find_cycle_path-left_over nodes g b (kahn nodes g) r (short g q).1)
  | inr (e', q) ↦ build_graph-err nodes e (ground arith)
]
  where
    short :
        (g : Graph)
        → build_graph nodes ≡ ok g
        → (e ≡ cycle_error nodes g (kahn nodes g)) × (length (kahn nodes g).shifted < length nodes)
    short g q = ground arith
