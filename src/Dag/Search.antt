-- ===== src/Dag/Search.antt =====
-- findCyclePath of src/dag-utils.ts: a depth-first search.
use glide_mq.Common.{
  ℕ, zero, suc, String, text_dec, ite, List, [], ◌∷◌, ◌++◌, Option, none, some, Map, Bool, true,
  false, includes, length, take,
}
use glide_mq.Dag.Build.{neighbors_of}

pub record Dfs : Type 0 where
  pub visited : List String
  pub path : List String

-- `path.splice(0, path.indexOf(node))`
unfoldable pub drop_before : String → List String → List String
drop_before node [] = []
drop_before node (x ∷ xs) = ite (text_dec x node) (x ∷ xs) (drop_before node xs)

-- `path.pop()`
unfoldable pub drop_last : List String → List String
drop_last [] = []
drop_last (x ∷ []) = []
drop_last (x ∷ y ∷ xs) = x ∷ drop_last (y ∷ xs)

module _ (remaining : List String) (adjacency : Map (List String)) where
  -- `if (... dfs(neighbor)) return true;`, and the rest of the loop.
  unfoldable pub unless_found : (Dfs → Bool × Dfs) → Bool × Dfs → Bool × Dfs
  unless_found continue (true, s) = (true, s)
  unless_found continue (false, s) = continue s

  -- The loop over the neighbors; `visit` is the recursive call.
  unfoldable pub scan : (String → Dfs → Bool × Dfs) → List String → Dfs → Bool × Dfs
  unfolding unless_found
  scan visit [] s = (false, s)
  scan visit (n ∷ ns) s = elim (includes n remaining) [
    | true ↦ unless_found (scan visit ns) (visit n s)
    | false ↦ scan visit ns s
  ]

  unfoldable pub leave : Bool × Dfs → Bool × Dfs
  leave (true, s) = (true, s)
  leave (false, s) = (false, record s { path = drop_last s.path })

  unfoldable pub enter : String → Dfs → Dfs
  enter node s = record { visited = node ∷ s.visited; path = s.path ++ node ∷ [] }

  -- On fuel: a call without fuel finds nothing.
  unfoldable pub dfs : ℕ → String → Dfs → Bool × Dfs
  unfolding scan leave enter
  dfs zero node s = (false, s)
  dfs (suc fuel) node s = elim (includes node s.path) [
    | true ↦ (true, record s { path = drop_before node (s.path ++ node ∷ []) })
    | false ↦ elim (includes node s.visited) [
      | true ↦ (false, s)
      | false ↦ leave (scan (dfs fuel) (neighbors_of node adjacency) (enter node s))
    ]
  ]

  unfoldable pub found_path : Option (List String) → Bool × Dfs → Option (List String)
  found_path others (true, s) = some s.path
  found_path others (false, s) = others

  unfoldable pub path_from : ℕ → List String → Option (List String)
  unfolding dfs found_path
  path_from fuel [] = none
  path_from fuel (node ∷ nodes) =
      let others = path_from fuel nodes in
      found_path others (dfs fuel node (record { visited = []; path = [] }))

-- The path grows by one name of `remaining` with each call, and never holds a name twice.
unfoldable pub find_cycle_path : List String → Map (List String) → List String
unfolding path_from
find_cycle_path remaining adjacency =
    elim (path_from remaining adjacency (suc (length remaining)) remaining) [
      | some path ↦ path
      | none ↦ take 2 remaining
    ]
