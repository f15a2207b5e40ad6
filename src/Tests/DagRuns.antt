-- ===== src/Tests/DagRuns.antt =====
-- Runs of src/dag-utils.ts on small graphs.
use mathlib.Core.List.{Perm}
use text.Mathlib.TextEquality.{eq_iff}
use glide_mq.Common.{
  ℕ, ◌≢◌, ite, arith, ◌>>=◌, ◌≡◌, refl, String, text_dec, List, [], ◌∷◌, some, ok, err, get?, set,
  includes, count,
}
use glide_mq.Dag.{
  DagNode, cycle, unknown_dependency, topo_sort, validate_dag, kahn, drain, shift, relax, degree_of,
  neighbors_of, zero_names, build_graph, nodes_of, cycle_error, positive_names, find_cycle_path,
  drop_before,
}
use glide_mq.Dag.Spec.{deps_named}
use glide_mq.Dag.Sorted.{IsOrdered, topo_sort-returns}
use glide_mq.Dag.Errors.{Explains}
use glide_mq.Dag.Verdict.{topo_sort-Explains}
use glide_mq.Dag.Accepts.{IsDag, topo_sort-accepts}
use glide_mq.Dag.Checked.{validate_dag-topo_sort}

abbrev node : String → List String → DagNode
node name deps = record { name = name; queue_name = "q"; deps = some deps }

abbrev diamond : List DagNode
diamond = node "d" ("b" ∷ "c" ∷ []) ∷ node "b" ("a" ∷ []) ∷ node "c" ("a" ∷ []) ∷ node "a" [] ∷ []

abbrev looped : List DagNode
looped =
    node "s" []
    ∷ node "a" ("s" ∷ "c" ∷ [])
    ∷ node "b" ("a" ∷ [])
    ∷ node "c" ("b" ∷ [])
    ∷ node "e" ("a" ∷ [])
    ∷ []

program : Unit {0}
unfolding text_dec get? set includes count topo_sort validate_dag kahn drain shift relax degree_of
    neighbors_of zero_names build_graph nodes_of cycle_error positive_names find_cycle_path
    drop_before
program = tt

topo_sort-diamond :
    topo_sort diamond
    ≡ ok (node "a" [] ∷ node "b" ("a" ∷ []) ∷ node "c" ("a" ∷ []) ∷ node "d" ("b" ∷ "c" ∷ []) ∷ [])
unfolding program
topo_sort-diamond = refl

topo_sort-looped : topo_sort looped ≡ err (cycle ("a" ∷ "b" ∷ "c" ∷ "a" ∷ []))
unfolding program
topo_sort-looped = refl

validate_dag-unknown : validate_dag (node "a" ("z" ∷ []) ∷ []) ≡ err (unknown_dependency "a" "z")
unfolding program
validate_dag-unknown = refl

topo_sort-returns_example :
    Perm
      (node "a" [] ∷ node "b" ("a" ∷ []) ∷ node "c" ("a" ∷ []) ∷ node "d" ("b" ∷ "c" ∷ []) ∷ [])
      diamond
    × IsOrdered []
        (node "a" [] ∷ node "b" ("a" ∷ []) ∷ node "c" ("a" ∷ []) ∷ node "d" ("b" ∷ "c" ∷ []) ∷ [])
topo_sort-returns_example = topo_sort-returns diamond _ topo_sort-diamond

topo_sort-Explains_example : Explains looped (cycle ("a" ∷ "b" ∷ "c" ∷ "a" ∷ []))
topo_sort-Explains_example = topo_sort-Explains looped _ topo_sort-looped

abbrev chain : List DagNode
chain = node "b" ("a" ∷ []) ∷ node "a" [] ∷ []

abbrev chain_rank : String → ℕ
chain_rank s = ite (text_dec s "b") 1 0

b≢a : ◌≢◌ {A = String} "b" "a"
b≢a = ground (arith, eq_iff "b" "a")

chain-IsDag : IsDag chain chain_rank
unfolding count deps_named
chain-IsDag = record {
  distinct = λ x. ground (arith, b≢a);
  known = λ d n h. ground (arith, b≢a, h);
  ranked = λ d n h. ground (arith, b≢a, h);
}

topo_sort-accepts_example : (sorted : List DagNode) × (topo_sort chain ≡ ok sorted)
topo_sort-accepts_example = topo_sort-accepts chain chain_rank chain-IsDag

validate_dag-topo_sort_example : validate_dag looped ≡ (topo_sort looped >>= λ _. ok tt)
validate_dag-topo_sort_example = validate_dag-topo_sort looped
