-- ===== src/Dag/Check.antt =====
-- validateDAG of src/dag-utils.ts, which has a loop of its own: it counts the nodes and keeps none.
use glide_mq.Common.{
  ℕ, zero, suc, ◌-◌, String, List, [], ◌∷◌, ◌++◌, Map, set, Result, ok, err, ◌>>=◌, length, ltb,
  ◌==◌, if◌then◌else◌,
}
use glide_mq.Dag.Build.{DagNode, DagError, cycle, Graph, degree_of, neighbors_of, build_graph}
use glide_mq.Dag.Search.{find_cycle_path}

-- The loop's variables.
pub record Checking : Type 0 where
  pub in_degree : Map ℕ
  pub queue : List String
  pub processed : ℕ

-- The names of degree 0, in the map's order.
unfoldable pub ready_names : Map ℕ → List String
ready_names [] = []
ready_names ((name, degree) ∷ m) =
    let rest = ready_names m in if degree == 0 then name ∷ rest else rest

-- `for (const neighbor of adjacency.get(current)!)`
unfoldable pub lower : List String → Map ℕ → List String → Map ℕ × List String
lower [] in_degree queue = (in_degree, queue)
lower (neighbor ∷ neighbors) in_degree queue =
    let new_degree = degree_of neighbor in_degree - 1 in
    lower neighbors (set neighbor new_degree in_degree)
      (if new_degree == 0 then queue ++ neighbor ∷ [] else queue)

unfoldable pub check_node : Graph → Checking → String → List String → Checking
unfolding lower
check_node g s current rest =
    let (in_degree, queue) = lower (neighbors_of current g.adjacency) s.in_degree rest in
    record { in_degree = in_degree; queue = queue; processed = suc s.processed }

unfoldable pub check_next : (Checking → Checking) → Graph → Checking → List String → Checking
unfolding check_node
check_next continue g s [] = s
check_next continue g s (current ∷ rest) = continue (check_node g s current rest)

-- `while (queue.length > 0)`, on fuel.
unfoldable pub check_loop : ℕ → Graph → Checking → Checking
unfolding check_next
check_loop zero g s = s
check_loop (suc fuel) g s = check_next (check_loop fuel g) g s s.queue

-- The nodes of which a dependency is left.
unfoldable pub remaining : Map ℕ → List DagNode → List String
remaining in_degree [] = []
remaining in_degree (n ∷ ns) =
    let rest = remaining in_degree ns in
    if ltb 0 (degree_of n.name in_degree) then n.name ∷ rest else rest

-- Every node is shifted at most once, so that their number is enough fuel.
unfoldable pub check_graph : List DagNode → Graph → Checking
unfolding check_loop ready_names
check_graph nodes g =
    check_loop (length nodes) g
      (record { in_degree = g.in_degree; queue = ready_names g.in_degree; processed = 0 })

unfoldable pub validate_dag : List DagNode → Result DagError (Unit {0})
unfolding check_graph remaining find_cycle_path build_graph
validate_dag nodes = do
  g ← build_graph nodes
  let s = check_graph nodes g
  if ltb s.processed (length nodes)
      then err (cycle (find_cycle_path (remaining s.in_degree nodes) g.adjacency))
      else ok tt
