-- ===== src/Dag/Built.antt =====
-- What buildGraph of src/dag-utils.ts returns, read through the names and dependencies of the nodes.
use glide_mq.Common.{
  ◌<◌, ◌≡◌, refl, ◌∙◌, ◌≢◌, String, List, [], some, All, All-map, count, length, arith, Map, get?,
  keys, ok, >>=-eq-ok, ok-injective, subst,
}
use glide_mq.Dag.{
  DagNode, Graph, deps_of, degree_of, neighbors_of, add_nodes, check_nodes, zero_degrees,
  no_neighbors, add_all_edges, build_graph,
}
use glide_mq.Dag.Spec.{names, deps_named, IsDistinct, names-pos}
use glide_mq.Dag.Edges.{
  add_nodes-present, add_nodes-own, check_nodes-known, add_all_edges-degree,
  add_all_edges-neighbors, zero_degrees-degree, no_neighbors-neighbors, zero_degrees-keys,
  add_all_edges-keys, add_all_edges-node_map,
}

-- A graph that `build_graph` returns is that of its nodes.
pub record Built (nodes : List DagNode) (g : Graph) : Type 0 where
  pub distinct : IsDistinct nodes
  pub known : All (λ n. All (λ d. (0 < count d (names nodes)) × (d ≢ n.name)) (deps_of n)) nodes
  pub own : All (λ n. get? n.name g.node_map ≡ some n) nodes
  pub degrees : (x : String) → degree_of x g.in_degree ≡ length (deps_named x nodes)
  pub neighbors :
      (d x : String) → count x (neighbors_of d g.adjacency) ≡ count d (deps_named x nodes)
  pub in_degree_keys : keys g.in_degree ≡ names nodes

module _ (nodes : List DagNode) (m : Map DagNode) (added : add_nodes nodes [] ≡ ok m) where
  added-IsDistinct : IsDistinct nodes
  unfolding get?
  added-IsDistinct x = ground (arith, add_nodes-present nodes [] m x added)

  added-known :
      check_nodes nodes m ≡ ok tt
      → All (λ n. All (λ d. (0 < count d (names nodes)) × (d ≢ n.name)) (deps_of n)) nodes
  unfolding get?
  added-known checked =
      All-map nodes
        (λ n.
          All-map (deps_of n) λ d (p, q). (ground (arith, add_nodes-present nodes [] m d added), q))
        (check_nodes-known nodes m checked)

  start : Graph
  start = record {
    node_map = m;
    in_degree = zero_degrees nodes [];
    adjacency = no_neighbors nodes [];
  }

  start-keys : keys (zero_degrees nodes []) ≡ names nodes
  start-keys = zero_degrees-keys nodes [] added-IsDistinct

  added-Built : check_nodes nodes m ≡ ok tt → Built nodes (add_all_edges nodes start)
  unfolding start get? degree_of neighbors_of count
  added-Built checked = record {
    distinct = added-IsDistinct;
    known = added-known checked;
    own = rw (add_all_edges-node_map nodes start) (add_nodes-own nodes [] m added);
    degrees =
        λ x. omega (arith, add_all_edges-degree nodes start x, zero_degrees-degree nodes [] x refl);
    neighbors = λ d x.
        ground
          (arith, add_all_edges-neighbors nodes start d x, no_neighbors-neighbors nodes [] d refl);
    in_degree_keys =
        add_all_edges-keys nodes start (rw start-keys (names-pos nodes added-IsDistinct))
        ∙ start-keys;
  }

pub build_graph-Built :
    (nodes : List DagNode) (g : Graph) → build_graph nodes ≡ ok g → Built nodes g
unfolding build_graph start
build_graph-Built nodes g h =
    let (m, added, rest) = >>=-eq-ok (add_nodes nodes []) _ h in
    let (_, checked, e) = >>=-eq-ok (check_nodes nodes m) _ rest in
    subst (Built nodes) (ok-injective e) (added-Built nodes m added checked)
