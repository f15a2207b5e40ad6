-- ===== src/Dag/Checked.antt =====
-- The two loops of src/dag-utils.ts, in validateDAG and in topoSort, side by side.
use glide_mq.Common.{
  ℕ, zero, suc, ◌≡◌, refl, ◌∙◌, ap, sym, subst, String, List, [], ◌∷◌, Map, Result, ok, err, ◌>>=◌,
  length, length-append, ltb, if◌then◌else◌, arith,
}
use glide_mq.Dag.{
  DagNode, DagError, Graph, neighbors_of, build_graph, Kahn, zero_names, positive_names, relax,
  shift, advance, drain, kahn, cycle, cycle_error, find_cycle_path, topo_sort, nodes_of, Checking,
  ready_names, lower, check_node, check_next, check_loop, remaining, check_graph, validate_dag,
}

ready_names-zero_names : (m : Map ℕ) → ready_names m ≡ zero_names m
unfolding ready_names zero_names
ready_names-zero_names [] = refl
ready_names-zero_names ((name, degree) ∷ m) = rw (ready_names-zero_names m) refl

remaining-positive_names :
    (in_degree : Map ℕ) (ns : List DagNode) → remaining in_degree ns ≡ positive_names in_degree ns
unfolding remaining positive_names
remaining-positive_names in_degree [] = refl
remaining-positive_names in_degree (n ∷ ns) = rw (remaining-positive_names in_degree ns) refl

lower-relax :
    (ns : List String) (in_degree : Map ℕ) (queue : List String)
    → lower ns in_degree queue ≡ relax ns in_degree queue
unfolding lower relax
lower-relax [] in_degree queue = refl
lower-relax (n ∷ ns) in_degree queue = lower-relax ns _ _

-- Both loops have the same degrees and the same queue, and the count is the number of nodes kept.
record Agree (s : Checking) (t : Kahn) : Type 0 where
  in_degree : s.in_degree ≡ t.in_degree
  queue : s.queue ≡ t.queue
  processed : s.processed ≡ length t.shifted

check_node-Agree :
    (g : Graph) (s : Checking) (t : Kahn) (current : String) (rest : List String)
    → Agree s t
    → Agree (check_node g s current rest) (shift g t current rest)
unfolding check_node shift
check_node-Agree g s t current rest a =
    let ns = neighbors_of current g.adjacency in
    let same : lower ns s.in_degree rest ≡ relax ns t.in_degree rest =
      lower-relax ns s.in_degree rest ∙ ap (λ m. relax ns m rest) a.in_degree in
    record {
      in_degree = ap (λ (d : Map ℕ × List String). d.0) same;
      queue = ap (λ (d : Map ℕ × List String). d.1) same;
      processed = omega (arith, a.processed, length-append t.shifted (current ∷ []));
    }

check_loop-Agree :
    (fuel : ℕ) (g : Graph) (s : Checking) (t : Kahn)
    → Agree s t
    → Agree (check_loop fuel g s) (drain fuel g t)
unfolding check_loop drain check_next advance
check_loop-Agree zero g s t a = a
check_loop-Agree (suc fuel) g s t a =
    subst (λ names. Agree (check_next (check_loop fuel g) g s names) (drain (suc fuel) g t))
      (sym a.queue) (by_queue t.queue (check_loop-Agree fuel g))
  where
    by_queue :
        (queue : List String)
        → ((s' : Checking) (t' : Kahn)
            → Agree s' t'
            → Agree (check_loop fuel g s') (drain fuel g t'))
        → Agree (check_next (check_loop fuel g) g s queue) (advance (drain fuel g) g t queue)
    by_queue [] rest = a
    by_queue (current ∷ queue) rest = rest _ _ (check_node-Agree g s t current queue a)

check_graph-Agree : (nodes : List DagNode) (g : Graph) → Agree (check_graph nodes g) (kahn nodes g)
unfolding check_graph kahn
check_graph-Agree nodes g =
    check_loop-Agree (length nodes) g _ _
      (record { in_degree = refl; queue = ready_names-zero_names g.in_degree; processed = refl })

-- validateDAG throws exactly what topoSort throws, and returns when topoSort does.
pub validate_dag-topo_sort :
    (nodes : List DagNode) → validate_dag nodes ≡ (topo_sort nodes >>= λ _. ok tt)
unfolding validate_dag topo_sort cycle_error
validate_dag-topo_sort nodes = by_graph (build_graph nodes)
  where
    by_graph :
        (b : Result DagError Graph)
        → ◌≡◌ {A = Result DagError (Unit {0})}
            (b >>= λ g.
              if ltb (check_graph nodes g).processed (length nodes)
              then err (
                  cycle
                    (find_cycle_path (remaining (check_graph nodes g).in_degree nodes) g.adjacency))
              else ok tt)
            ((b >>= λ g.
                if ltb (length (kahn nodes g).shifted) (length nodes)
                then err (cycle_error nodes g (kahn nodes g))
                else ok (nodes_of g.node_map (kahn nodes g).shifted))
              >>= λ _. ok tt)
    by_graph (err e) = refl
    by_graph (ok g) =
        let a = check_graph-Agree nodes g in
        let r = remaining-positive_names (kahn nodes g).in_degree nodes in
        rw a.processed (rw a.in_degree (rw r (ground arith)))
