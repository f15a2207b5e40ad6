-- ===== src/Dag/Loop.antt =====
-- Kahn's loop of src/dag-utils.ts: its invariant, and its end.
use mathlib.Core.List.{append-nil, append_assoc}
use glide_mq.Common.{
  ℕ, zero, suc, ◌+◌, ◌<◌, ◌≤◌, ◌≡◌, refl, String, List, [], ◌∷◌, ◌++◌, count, count-append,
  count-cons_self, length, length-append, arith, if◌then◌else◌, ltb, ◌==◌, Map, get?, keys,
  get?-absent, ap, sym, ◌∙◌, nil_of_length, length-map,
}
use glide_mq.Dag.{
  DagNode, Graph, Kahn, degree_of, neighbors_of, shift, advance, drain, kahn, zero_names,
}
use glide_mq.Dag.Spec.{names, deps_named, deps_named-absent, outside, outside-nil, outside-snoc}
use glide_mq.Dag.Built.{Built}
use glide_mq.Dag.Relaxed.{positives, relax-degree, relax-queue, relax-positives}

-- A name is ready when it is a node's and no edge into it is left.
abbrev pub ready : ℕ → ℕ → ℕ
ready known degree = if ltb 0 known then (if degree == 0 then 1 else 0) else 0

-- Each name stands behind its dependencies.
abbrev pub InOrder : List DagNode → List String → List String → Type 0
InOrder nodes seen [] = Unit {0}
InOrder nodes seen (c ∷ cs) =
    (outside seen (deps_named c nodes) ≡ 0) × InOrder nodes (seen ++ c ∷ []) cs

InOrder-snoc :
    (nodes : List DagNode) (seen cs : List String) (c : String)
    → InOrder nodes seen cs
    → outside (seen ++ cs) (deps_named c nodes) ≡ 0
    → InOrder nodes seen (cs ++ c ∷ [])
InOrder-snoc nodes seen [] c h e = (rw append-nil at e, tt)
InOrder-snoc nodes seen (d ∷ cs) c h e =
    (h.0, InOrder-snoc nodes (seen ++ d ∷ []) cs c h.1 (rw append_assoc e))

pub record Inv (nodes : List DagNode) (s : Kahn) : Type 0 where
  pub degrees : (x : String) → degree_of x s.in_degree ≡ outside s.shifted (deps_named x nodes)
  pub entered :
      (x : String)
      → count x s.shifted + count x s.queue
        ≡ ready (count x (names nodes)) (degree_of x s.in_degree)
  pub ordered : InOrder nodes [] s.shifted

abbrev pub potential : Kahn → ℕ
potential s = length s.queue + positives s.in_degree

module _ (nodes : List DagNode) (g : Graph) (b : Built nodes g) (s : Kahn) (c : String)
    (rest : List String) (i : Inv nodes s) (front : s.queue ≡ c ∷ rest) where
  not_shifted : count c s.shifted ≡ 0
  not_shifted = ground (arith, i.entered c, count-cons_self c rest)

  not_waiting : outside s.shifted (deps_named c nodes) ≡ 0
  not_waiting = ground (arith, i.entered c, i.degrees c, count-cons_self c rest)

  edges-le : (y : String) → count y (neighbors_of c g.adjacency) ≤ degree_of y s.in_degree
  edges-le y = omega (
    arith,
    b.neighbors c y,
    i.degrees y,
    outside-snoc s.shifted c (deps_named y nodes) not_shifted,
  )

  known_neighbor : (x : String) → 0 < count c (deps_named x nodes) → 0 < count x (names nodes)
  unfolding count
  known_neighbor x h = ground (arith, deps_named-absent x nodes)

  shift-Inv : Inv nodes (shift g s c rest)
  unfolding shift count
  shift-Inv = record {
    degrees = λ x. omega (
      arith,
      relax-degree (neighbors_of c g.adjacency) s.in_degree rest x edges-le,
      b.neighbors c x,
      i.degrees x,
      outside-snoc s.shifted c (deps_named x nodes) not_shifted,
    );
    entered = λ x. ground (
      arith,
      relax-degree (neighbors_of c g.adjacency) s.in_degree rest x edges-le,
      relax-queue (neighbors_of c g.adjacency) s.in_degree rest x edges-le,
      b.neighbors c x,
      i.entered x,
      known_neighbor x,
      count-append x s.shifted (c ∷ []),
    );
    ordered = InOrder-snoc nodes [] s.shifted c i.ordered not_waiting;
  }

  potential-shift : suc (potential (shift g s c rest)) ≡ potential s
  unfolding shift
  potential-shift =
      ground (arith, relax-positives (neighbors_of c g.adjacency) s.in_degree rest edges-le)

  shifted-shift : length (shift g s c rest).shifted ≡ suc (length s.shifted)
  unfolding shift
  shifted-shift = omega (arith, length-append s.shifted (c ∷ []))

-- The loop ends with an empty queue, having shifted as many names as the potential falls.
pub record Ends (nodes : List DagNode) (s t : Kahn) : Type 0 where
  pub inv : Inv nodes t
  pub empty : t.queue ≡ []
  pub total : length t.shifted + positives t.in_degree ≡ length s.shifted + potential s

module _ (nodes : List DagNode) (g : Graph) (b : Built nodes g) where
  advance-Ends :
      (continue : Kahn → Kahn) (s : Kahn) (q : List String) (fuel : ℕ)
      → Inv nodes s
      → s.queue ≡ q
      → potential s ≤ suc fuel
      → ((t : Kahn) → Inv nodes t → potential t ≤ fuel → Ends nodes t (continue t))
      → Ends nodes s (advance continue g s q)
  unfolding advance
  advance-Ends continue s [] fuel i e h rest = record {
    inv = i;
    empty = e;
    total = omega (arith, ap length e);
  }
  advance-Ends continue s (c ∷ q) fuel i e h rest =
      let fell = potential-shift nodes g b s c q i e in
      let ends = rest (shift g s c q) (shift-Inv nodes g b s c q i e) (omega (arith, fell)) in
      record {
        inv = ends.inv;
        empty = ends.empty;
        total = omega (arith, ends.total, fell, shifted-shift nodes g b s c q i e);
      }

  drain-Ends :
      (fuel : ℕ) (s : Kahn) → Inv nodes s → potential s ≤ fuel → Ends nodes s (drain fuel g s)
  unfolding drain
  drain-Ends zero s i h = record {
    inv = i;
    empty = nil_of_length s.queue (omega arith);
    total = omega (arith, ap length (nil_of_length s.queue (omega arith)));
  }
  drain-Ends (suc fuel) s i h =
      advance-Ends (drain fuel g) s s.queue fuel i refl h (λ t. drain-Ends fuel t)

zero_names-count :
    (m : Map ℕ) (x : String)
    → ((y : String) → count y (keys m) ≤ 1)
    → count x (zero_names m) ≡ ready (count x (keys m)) (degree_of x m)
unfolding zero_names count degree_of get?
zero_names-count [] x h = omega arith
zero_names-count ((k, d) ∷ m) x h =
    ground (arith, zero_names-count m x (λ y. ground (arith, h y)), h x, get?-absent x m)

zero_names-positives : (m : Map ℕ) → length (zero_names m) + positives m ≡ length m
unfolding zero_names positives
zero_names-positives [] = omega arith
zero_names-positives ((k, d) ∷ m) = ground (arith, zero_names-positives m)

-- The run of the loop on a built graph: its invariant, its end, and how many names are left over.
pub record Ran (nodes : List DagNode) (t : Kahn) : Type 0 where
  pub inv : Inv nodes t
  pub empty : t.queue ≡ []
  pub total : length t.shifted + positives t.in_degree ≡ length nodes

pub kahn-Ran : (nodes : List DagNode) (g : Graph) → Built nodes g → Ran nodes (kahn nodes g)
unfolding kahn count
kahn-Ran nodes g b = record {
  inv = ends.inv;
  empty = ends.empty;
  total = omega (arith, ends.total, size);
}
  where
    first : Kahn
    first = record { in_degree = g.in_degree; queue = zero_names g.in_degree; shifted = [] }

    size : potential first ≡ length nodes
    size =
        zero_names-positives g.in_degree
        ∙ sym (length-map g.in_degree (λ e. e.0))
        ∙ ap length b.in_degree_keys
        ∙ length-map nodes (λ n. n.name)

    first-Inv : Inv nodes first
    first-Inv = record {
      degrees = λ x. b.degrees x ∙ sym (outside-nil (deps_named x nodes));
      entered = λ x.
          rw (← b.in_degree_keys) (
            omega
              (arith, zero_names-count g.in_degree x (λ y. rw b.in_degree_keys (b.distinct y))));
      ordered = tt;
    }

    ends : Ends nodes first (drain (length nodes) g first)
    ends = drain-Ends nodes g b (length nodes) first first-Inv (omega (arith, size))
