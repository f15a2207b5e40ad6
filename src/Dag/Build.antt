-- ===== src/Dag/Build.antt =====
-- buildGraph of src/dag-utils.ts.
use glide_mq.Common.{
  ℕ, ◌+◌, String, text_dec, List, [], ◌∷◌, ◌++◌, Option, none, some, Map, get?, set, Result, ok,
  err, ◌>>=◌, ◌>>◌,
}

-- The fields that this file reads. `deps` may be left out.
pub record DagNode : Type 0 where
  pub name : String
  pub queue_name : String
  pub deps : Option (List String)

pub data DagError : Type 0 where
  duplicate_name : String → DagError
  unknown_dependency : (node dep : String) → DagError
  cycle : List String → DagError

pub record Graph : Type 0 where
  pub node_map : Map DagNode
  pub in_degree : Map ℕ
  pub adjacency : Map (List String)

abbrev pub deps_of : DagNode → List String
deps_of n = elim n.deps [ none ↦ [] | some deps ↦ deps ]

-- `get(k)!` on a key that every caller has set.
unfoldable pub degree_of : String → Map ℕ → ℕ
degree_of k m = elim (get? k m) [ none ↦ 0 | some d ↦ d ]

unfoldable pub neighbors_of : String → Map (List String) → List String
neighbors_of k m = elim (get? k m) [ none ↦ [] | some ns ↦ ns ]

unfoldable pub add_nodes : List DagNode → Map DagNode → Result DagError (Map DagNode)
add_nodes [] m = ok m
add_nodes (n ∷ ns) m = elim (get? n.name m) [
  | some _ ↦ err (duplicate_name n.name)
  | none ↦ add_nodes ns (set n.name n m)
]

unfoldable pub check_deps : String → List String → Map DagNode → Result DagError (Unit {0})
check_deps name [] m = ok tt
check_deps name (dep ∷ deps) m = elim (get? dep m) [
  | none ↦ err (unknown_dependency name dep)
  | some _ ↦ elim (text_dec dep name) [
    | yes _ ↦ err (cycle (name ∷ name ∷ []))
    | no _ ↦ check_deps name deps m
  ]
]

unfoldable pub check_nodes : List DagNode → Map DagNode → Result DagError (Unit {0})
unfolding check_deps
check_nodes [] m = ok tt
check_nodes (n ∷ ns) m = check_deps n.name (deps_of n) m >> check_nodes ns m

unfoldable pub zero_degrees : List DagNode → Map ℕ → Map ℕ
zero_degrees [] m = m
zero_degrees (n ∷ ns) m = zero_degrees ns (set n.name 0 m)

unfoldable pub no_neighbors : List DagNode → Map (List String) → Map (List String)
no_neighbors [] m = m
no_neighbors (n ∷ ns) m = no_neighbors ns (set n.name [] m)

unfoldable pub add_edge : String → String → Graph → Graph
unfolding neighbors_of degree_of
add_edge name dep g = record g {
  adjacency = set dep (neighbors_of dep g.adjacency ++ name ∷ []) g.adjacency;
  in_degree = set name (degree_of name g.in_degree + 1) g.in_degree;
}

-- One edge from each dependency to the node.
unfoldable pub add_edges : String → List String → Graph → Graph
unfolding add_edge
add_edges name [] g = g
add_edges name (dep ∷ deps) g = add_edges name deps (add_edge name dep g)

unfoldable pub add_all_edges : List DagNode → Graph → Graph
unfolding add_edges
add_all_edges [] g = g
add_all_edges (n ∷ ns) g = add_all_edges ns (add_edges n.name (deps_of n) g)

unfoldable pub build_graph : List DagNode → Result DagError Graph
unfolding add_nodes check_nodes zero_degrees no_neighbors add_all_edges
build_graph nodes = do
  node_map ← add_nodes nodes []
  check_nodes nodes node_map
  ok (
      add_all_edges nodes (record {
        node_map = node_map;
        in_degree = zero_degrees nodes [];
        adjacency = no_neighbors nodes [];
      }))
