-- ===== src/Dag.antt =====
-- src/dag-utils.ts: the graph of a set of DAG nodes, the search for a cycle to report, and topoSort with
-- its loop of Kahn's algorithm. validateDAG, with the other copy of the loop, is in Dag/Check.antt.
mod Build
mod Search
mod Check
pub mod Spec
pub mod Edges
pub mod Built
pub mod Relaxed
pub mod Loop
pub mod Sorted
pub mod Walk
pub mod DepthFirst
pub mod Cycles
pub mod Errors
pub mod Verdict
pub mod Accepts
pub mod Checked
unfoldable pub use Build.*
unfoldable pub use Search.*
unfoldable pub use Check.*
use glide_mq.Common.{
  ℕ, zero, suc, ◌-◌, String, List, [], ◌∷◌, ◌++◌, Map, get?, set, Result, ok, err, ◌>>=◌, length,
  ltb, ◌==◌, if◌then◌else◌, Option, none, some,
}

-- The loop's variables. `shifted` lists the names taken off the queue, oldest first: `processed`
-- is its length, and `sorted` holds its nodes.
pub record Kahn : Type 0 where
  pub in_degree : Map ℕ
  pub queue : List String
  pub shifted : List String

-- The names of degree 0, in the map's order.
unfoldable pub zero_names : Map ℕ → List String
zero_names [] = []
zero_names ((name, degree) ∷ m) =
    let rest = zero_names m in if degree == 0 then name ∷ rest else rest

unfoldable pub positive_names : Map ℕ → List DagNode → List String
positive_names in_degree [] = []
positive_names in_degree (n ∷ ns) =
    let rest = positive_names in_degree ns in
    if ltb 0 (degree_of n.name in_degree) then n.name ∷ rest else rest

-- `for (const neighbor of adjacency.get(current)!)`
unfoldable pub relax : List String → Map ℕ → List String → Map ℕ × List String
relax [] in_degree queue = (in_degree, queue)
relax (n ∷ ns) in_degree queue =
    let degree = degree_of n in_degree - 1 in
    relax ns (set n degree in_degree) (if degree == 0 then queue ++ n ∷ [] else queue)

unfoldable pub shift : Graph → Kahn → String → List String → Kahn
shift g s current rest =
    let (in_degree, queue) = relax (neighbors_of current g.adjacency) s.in_degree rest in
    record { in_degree = in_degree; queue = queue; shifted = s.shifted ++ current ∷ [] }

unfoldable pub advance : (Kahn → Kahn) → Graph → Kahn → List String → Kahn
unfolding shift
advance continue g s [] = s
advance continue g s (current ∷ rest) = continue (shift g s current rest)

-- `while (queue.length > 0)`, on fuel.
unfoldable pub drain : ℕ → Graph → Kahn → Kahn
unfolding advance
drain zero g s = s
drain (suc fuel) g s = advance (drain fuel g) g s s.queue

-- Every node is shifted at most once, so that their number is enough fuel.
unfoldable pub kahn : List DagNode → Graph → Kahn
kahn nodes g =
    drain (length nodes) g
      (record { in_degree = g.in_degree; queue = zero_names g.in_degree; shifted = [] })

unfoldable pub cycle_error : List DagNode → Graph → Kahn → DagError
cycle_error nodes g s = cycle (find_cycle_path (positive_names s.in_degree nodes) g.adjacency)

unfoldable pub nodes_of : Map DagNode → List String → List DagNode
nodes_of node_map [] = []
nodes_of node_map (name ∷ names) = elim (get? name node_map) [
  | some n ↦ n ∷ nodes_of node_map names
  | none ↦ nodes_of node_map names
]

unfoldable pub topo_sort : List DagNode → Result DagError (List DagNode)
topo_sort nodes = do
  g ← build_graph nodes
  let s = kahn nodes g
  if ltb (length s.shifted) (length nodes)
      then err (cycle_error nodes g s)
      else ok (nodes_of g.node_map s.shifted)
