-- ===== src/Dag/Cycles.antt =====
-- The start names of findCyclePath of src/dag-utils.ts, one after the other.
use glide_mq.Common.{
  ℕ, zero, suc, ◌<◌, ◌≤◌, refl, String, List, [], ◌∷◌, ◌++◌, Bool, true, false, count, count-append,
  length, arith, Map, Option, none, some,
}
use glide_mq.Dag.{DagNode, Dfs, neighbors_of, found_path, path_from}
use glide_mq.Dag.Walk.{IsEdge, IsCycle, IsClosed, IsClosed-append, rank, rank-le-length, rank-lt}
use glide_mq.Dag.DepthFirst.{Fails, Outcome, dfs-Outcome}

module _ (nodes : List DagNode) (remaining : List String) (adjacency : Map (List String)) where
  -- No search from `roots` found a cycle: they stand in a closed list.
  pub record Exhausted (roots : List String) : Type 0 where
    pub left : List String
    pub closed : IsClosed remaining adjacency left
    pub reached : (x : String) → 0 < count x roots → 0 < count x left

  abbrev pub Paths : List String → Option (List String) → Type 0
  Paths roots (some p) = IsCycle nodes p
  Paths roots none = Exhausted roots

  Exhausted-cons :
      (node : String) (roots : List String) (s : Dfs)
      → 0 < count node remaining
      → Fails nodes remaining adjacency s [] [] (node ∷ [])
      → Exhausted roots
      → Exhausted (node ∷ roots)
  unfolding count
  Exhausted-cons node roots s r f e = record {
    left = f.left ++ e.left;
    closed = IsClosed-append remaining adjacency f.left e.left f.good.closed e.closed;
    reached = λ x m. ground (arith, f.reached node, e.reached x, count-append x f.left e.left, r);
  }

  found_path-Paths :
      (node : String) (roots : List String) (o : Option (List String)) (r : Bool × Dfs)
      → 0 < count node remaining
      → Outcome nodes remaining adjacency [] [] (node ∷ []) r
      → Paths roots o
      → Paths (node ∷ roots) (found_path remaining adjacency o r)
  unfolding found_path
  found_path-Paths node roots o (true, s) m h k = h
  found_path-Paths node roots (some p) (false, s) m h k = k
  found_path-Paths node roots none (false, s) m h k = Exhausted-cons node roots s m h k

  module _
      (edges : (x y : String) → 0 < count y (neighbors_of x adjacency) → IsEdge nodes x y) where
    pub path_from-Paths :
        (roots : List String)
        → ((x : String) → 0 < count x roots → 0 < count x remaining)
        → Paths roots (path_from remaining adjacency (suc (length remaining)) roots)
    unfolding path_from count
    path_from-Paths [] h = record { left = []; closed = tt; reached = λ x m. m }
    path_from-Paths (node ∷ roots) h =
        let here : 0 < count node remaining = ground (arith, h node) in
        found_path-Paths node roots _ _ here
          (dfs-Outcome nodes remaining adjacency edges (suc (length remaining)) node [] [] _ tt
            (λ x. omega arith) (omega arith) here
            (record { path = refl; closed = tt; covered = λ x m. absurd (omega arith) }))
          (path_from-Paths roots (λ x m. h x (ground (arith, m))))

  -- In a closed list that holds them all, not every remaining name has a remaining dependency.
  module _ (e : Exhausted remaining)
      (before : (v : String)
        → 0 < count v remaining
        → (d : String) × (0 < count d remaining) × (0 < count v (neighbors_of d adjacency))) where
    climb :
        (n : ℕ) (v : String)
        → 0 < count v remaining
        → (w : String) × (0 < count w remaining) × (n ≤ rank w e.left)
    climb zero v m = (v, m, omega arith)
    climb (suc n) v m =
        let (w, r, h) = climb n v m in
        let (d, k, a) = before w r in
        (d, k, omega (arith, rank-lt remaining adjacency e.left d w e.closed (e.reached d k) a r))

    pub no_descent : (v : String) → ¬ (0 < count v remaining)
    no_descent v m =
        let (w, r, h) = climb (suc (length e.left)) v m in omega (arith, rank-le-length w e.left)
