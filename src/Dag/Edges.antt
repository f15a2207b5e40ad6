-- ===== src/Dag/Edges.antt =====
-- The maps that buildGraph of src/dag-utils.ts fills, read name by name.
use mathlib.Core.List.{append-nil, append_assoc}
use glide_mq.Common.{
  ℕ, ◌+◌, ◌<◌, ◌≤◌, ◌≡◌, refl, sym, ◌∙◌, ◌≢◌, String, text_dec, ite, List, [], ◌∷◌, ◌++◌, Option,
  none, some, All, count, count-append, count-cons_self, length, length-append, arith, Map, get?,
  set, get?-set, get?-absent, keys, ok,
}
use glide_mq.Dag.{
  DagNode, Graph, deps_of, degree_of, neighbors_of, add_nodes, check_deps, check_nodes,
  zero_degrees, no_neighbors, add_edge, add_edges, add_all_edges,
}
use glide_mq.Dag.Spec.{names, deps_named}

abbrev pub present {ℓ} : {A : Type ℓ} → Option A → ℕ
present none = 0
present (some a) = 1

keys-set_new {ℓ} :
    {V : Type ℓ} (k : String) (v : V) (m : Map V)
    → get? k m ≡ none
    → keys (set k v m) ≡ keys m ++ k ∷ []
unfolding get? set
keys-set_new k v [] h = refl
keys-set_new k v ((j, w) ∷ m) h = ground (arith, keys-set_new k v m)

keys-set_old {ℓ} :
    {V : Type ℓ} (k : String) (v : V) (m : Map V) → 0 < count k (keys m) → keys (set k v m) ≡ keys m
unfolding set count
keys-set_old k v [] h = absurd (omega arith)
keys-set_old k v ((j, w) ∷ m) h = ground (arith, keys-set_old k v m)

-- Adding the nodes adds one entry for each name.
pub add_nodes-present :
    (ns : List DagNode) (m m' : Map DagNode) (x : String)
    → add_nodes ns m ≡ ok m'
    → present (get? x m') ≡ present (get? x m) + count x (names ns)
unfolding add_nodes count
add_nodes-present [] m m' x h = ground arith
add_nodes-present (n ∷ ns) m m' x h =
    ground (arith, add_nodes-present ns (set n.name n m) m' x, get?-set x n.name n m)

add_nodes-kept :
    (ns : List DagNode) (m m' : Map DagNode) (x : String) (v : DagNode)
    → add_nodes ns m ≡ ok m'
    → get? x m ≡ some v
    → get? x m' ≡ some v
unfolding add_nodes
add_nodes-kept [] m m' x v h e = ground arith
add_nodes-kept (n ∷ ns) m m' x v h e =
    ground (arith, add_nodes-kept ns (set n.name n m) m' x v, get?-set x n.name n m)

pub add_nodes-own :
    (ns : List DagNode) (m m' : Map DagNode)
    → add_nodes ns m ≡ ok m'
    → All (λ n. get? n.name m' ≡ some n) ns
unfolding add_nodes
add_nodes-own [] m m' h = tt
add_nodes-own (n ∷ ns) m m' h = ground (
  arith,
  add_nodes-own ns (set n.name n m) m',
  add_nodes-kept ns (set n.name n m) m' n.name n,
  get?-set n.name n.name n m,
)

check_deps-known :
    (name : String) (deps : List String) (m : Map DagNode)
    → check_deps name deps m ≡ ok tt
    → All (λ d. (0 < present (get? d m)) × (d ≢ name)) deps
unfolding check_deps
check_deps-known name [] m h = tt
check_deps-known name (d ∷ ds) m h = ground (arith, check_deps-known name ds m)

pub check_nodes-known :
    (ns : List DagNode) (m : Map DagNode)
    → check_nodes ns m ≡ ok tt
    → All (λ n. All (λ d. (0 < present (get? d m)) × (d ≢ n.name)) (deps_of n)) ns
unfolding check_nodes
check_nodes-known [] m h = tt
check_nodes-known (n ∷ ns) m h =
    ground (arith, check_deps-known n.name (deps_of n) m, check_nodes-known ns m)

add_edge-degree :
    (name dep : String) (g : Graph) (x : String)
    → degree_of x (add_edge name dep g).in_degree
      ≡ degree_of x g.in_degree + ite (text_dec name x) 1 0
unfolding add_edge degree_of
add_edge-degree name dep g x =
    ground (arith, get?-set x name (degree_of name g.in_degree + 1) g.in_degree)

add_edge-neighbors :
    (name dep : String) (g : Graph) (d x : String)
    → count x (neighbors_of d (add_edge name dep g).adjacency)
      ≡ count x (neighbors_of d g.adjacency) + ite (text_dec dep d) (ite (text_dec name x) 1 0) 0
unfolding add_edge neighbors_of count
add_edge-neighbors name dep g d x = ground (
  arith,
  get?-set d dep (neighbors_of dep g.adjacency ++ name ∷ []) g.adjacency,
  count-append x (neighbors_of dep g.adjacency) (name ∷ []),
)

add_edge-keys :
    (name dep : String) (g : Graph)
    → 0 < count name (keys g.in_degree)
    → keys (add_edge name dep g).in_degree ≡ keys g.in_degree
unfolding add_edge
add_edge-keys name dep g h = keys-set_old name (degree_of name g.in_degree + 1) g.in_degree h

add_edges-degree :
    (name : String) (deps : List String) (g : Graph) (x : String)
    → degree_of x (add_edges name deps g).in_degree
      ≡ degree_of x g.in_degree + ite (text_dec name x) (length deps) 0
unfolding add_edges
add_edges-degree name [] g x = ground arith
add_edges-degree name (d ∷ ds) g x =
    ground (arith, add_edges-degree name ds (add_edge name d g) x, add_edge-degree name d g x)

add_edges-neighbors :
    (name : String) (deps : List String) (g : Graph) (d x : String)
    → count x (neighbors_of d (add_edges name deps g).adjacency)
      ≡ count x (neighbors_of d g.adjacency) + ite (text_dec name x) (count d deps) 0
unfolding add_edges count
add_edges-neighbors name [] g d x = ground arith
add_edges-neighbors name (e ∷ es) g d x =
    ground
      (arith, add_edges-neighbors name es (add_edge name e g) d x, add_edge-neighbors name e g d x)

pub add_all_edges-degree :
    (ns : List DagNode) (g : Graph) (x : String)
    → degree_of x (add_all_edges ns g).in_degree
      ≡ degree_of x g.in_degree + length (deps_named x ns)
unfolding add_all_edges deps_named
add_all_edges-degree [] g x = omega arith
add_all_edges-degree (n ∷ ns) g x = ground (
  arith,
  add_all_edges-degree ns (add_edges n.name (deps_of n) g) x,
  add_edges-degree n.name (deps_of n) g x,
  length-append (deps_of n) (deps_named x ns),
)

pub add_all_edges-neighbors :
    (ns : List DagNode) (g : Graph) (d x : String)
    → count x (neighbors_of d (add_all_edges ns g).adjacency)
      ≡ count x (neighbors_of d g.adjacency) + count d (deps_named x ns)
unfolding add_all_edges deps_named count
add_all_edges-neighbors [] g d x = omega arith
add_all_edges-neighbors (n ∷ ns) g d x = ground (
  arith,
  add_all_edges-neighbors ns (add_edges n.name (deps_of n) g) d x,
  add_edges-neighbors n.name (deps_of n) g d x,
  count-append d (deps_of n) (deps_named x ns),
)

pub zero_degrees-degree :
    (ns : List DagNode) (m : Map ℕ) (x : String)
    → degree_of x m ≡ 0
    → degree_of x (zero_degrees ns m) ≡ 0
unfolding zero_degrees degree_of
zero_degrees-degree [] m x h = h
zero_degrees-degree (n ∷ ns) m x h =
    zero_degrees-degree ns (set n.name 0 m) x (ground (arith, get?-set x n.name 0 m))

pub no_neighbors-neighbors :
    (ns : List DagNode) (m : Map (List String)) (d : String)
    → neighbors_of d m ≡ []
    → neighbors_of d (no_neighbors ns m) ≡ []
unfolding no_neighbors neighbors_of
no_neighbors-neighbors [] m d h = h
no_neighbors-neighbors (n ∷ ns) m d h =
    no_neighbors-neighbors ns (set n.name [] m) d (ground (arith, get?-set d n.name [] m))

pub zero_degrees-keys :
    (ns : List DagNode) (m : Map ℕ)
    → ((x : String) → count x (keys m ++ names ns) ≤ 1)
    → keys (zero_degrees ns m) ≡ keys m ++ names ns
unfolding zero_degrees
zero_degrees-keys [] m h = sym (append-nil (keys m))
zero_degrees-keys (n ∷ ns) m h =
    zero_degrees-keys ns (set n.name 0 m) (λ x. rw joined (h x)) ∙ joined
  where
    fresh : get? n.name m ≡ none
    fresh = get?-absent n.name m (
        omega (
          arith,
          h n.name,
          count-append n.name (keys m) (n.name ∷ names ns),
          count-cons_self n.name (names ns),
        ))

    joined : keys (set n.name 0 m) ++ names ns ≡ keys m ++ n.name ∷ names ns
    joined = rw (keys-set_new n.name 0 m fresh) (append_assoc (keys m) (n.name ∷ []) (names ns))

add_edges-keys :
    (name : String) (deps : List String) (g : Graph)
    → 0 < count name (keys g.in_degree)
    → keys (add_edges name deps g).in_degree ≡ keys g.in_degree
unfolding add_edges
add_edges-keys name [] g h = refl
add_edges-keys name (d ∷ ds) g h =
    let same = add_edge-keys name d g h in
    add_edges-keys name ds (add_edge name d g) (rw same h) ∙ same

pub add_all_edges-keys :
    (ns : List DagNode) (g : Graph)
    → All (λ n. 0 < count n.name (keys g.in_degree)) ns
    → keys (add_all_edges ns g).in_degree ≡ keys g.in_degree
unfolding add_all_edges
add_all_edges-keys [] g h = refl
add_all_edges-keys (n ∷ ns) g h =
    let same = add_edges-keys n.name (deps_of n) g h.0 in
    add_all_edges-keys ns (add_edges n.name (deps_of n) g) (rw same h.1) ∙ same

add_edges-node_map :
    (name : String) (deps : List String) (g : Graph) → (add_edges name deps g).node_map ≡ g.node_map
unfolding add_edges add_edge
add_edges-node_map name [] g = refl
add_edges-node_map name (d ∷ ds) g = add_edges-node_map name ds (add_edge name d g)

pub add_all_edges-node_map :
    (ns : List DagNode) (g : Graph) → (add_all_edges ns g).node_map ≡ g.node_map
unfolding add_all_edges
add_all_edges-node_map [] g = refl
add_all_edges-node_map (n ∷ ns) g =
    add_all_edges-node_map ns (add_edges n.name (deps_of n) g)
    ∙ add_edges-node_map n.name (deps_of n) g
