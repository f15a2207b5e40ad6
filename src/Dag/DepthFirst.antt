-- ===== src/Dag/DepthFirst.antt =====
-- The depth-first search of findCyclePath of src/dag-utils.ts: its outcomes, on enough fuel.
use glide_mq.Common.{
  ℕ, zero, suc, ◌+◌, ◌<◌, ◌≤◌, ◌≡◌, subst, sym, ap, ◌∙◌, String, List, [], ◌∷◌, ◌++◌, Bool, true,
  false, count, count-append, length, length-append, arith, Map, includes, includes→count,
  includes-false→count, length_of_count, Bool-cases, inl, inr,
}
use glide_mq.Dag.{
  DagNode, Dfs, neighbors_of, drop_before, drop_last, unless_found, scan, leave, enter, dfs,
}
use glide_mq.Dag.Walk.{
  IsEdge, IsWalk, IsCycle, IsClosed, IsWalk-snoc, drop_before-IsCycle, drop_last-snoc,
}

module _ (nodes : List DagNode) (remaining : List String) (adjacency : Map (List String)) where
  -- The names left behind stand in the closed list `fs`; the others are on the path.
  pub record Good (s : Dfs) (p fs : List String) : Type 0 where
    pub path : s.path ≡ p
    pub closed : IsClosed remaining adjacency fs
    pub covered : (x : String) → 0 < count x s.visited → 0 < count x fs + count x p

  -- After a search that found nothing, the names of `targets` that remain are in the closed list.
  pub record Fails (s : Dfs) (p fs targets : List String) : Type 0 where
    pub left : List String
    pub good : Good s p left
    pub kept : (x : String) → count x fs ≤ count x left
    pub reached : (x : String) → 0 < count x targets → 0 < count x remaining → 0 < count x left

  abbrev pub Outcome : List String → List String → List String → Bool × Dfs → Type 0
  Outcome p fs targets (true, s) = IsCycle nodes s.path
  Outcome p fs targets (false, s) = Fails s p fs targets

  abbrev Visits : (String → Dfs → Bool × Dfs) → List String → String → Type 0
  Visits visit p n =
      (s : Dfs) (fs : List String)
      → 0 < count n remaining
      → Good s p fs
      → Outcome p fs (n ∷ []) (visit n s)

  Fails-cons :
      (n : String) (ns p fs : List String) (s t : Dfs) (f : Fails s p fs (n ∷ []))
      → Fails t p f.left ns
      → Fails t p fs (n ∷ ns)
  unfolding count
  Fails-cons n ns p fs s t f g = record {
    left = g.left;
    good = g.good;
    kept = λ x. omega (arith, f.kept x, g.kept x);
    reached = λ x m r. ground (arith, f.reached x, g.reached x, g.kept x, r);
  }

  scan_skip :
      (visit : String → Dfs → Bool × Dfs) (n : String) (ns : List String) (s : Dfs)
      → includes n remaining ≡ false
      → scan remaining adjacency visit (n ∷ ns) s ≡ scan remaining adjacency visit ns s
  unfolding scan
  scan_skip visit n ns s e = rw (e, scan)

  scan_visit :
      (visit : String → Dfs → Bool × Dfs) (n : String) (ns : List String) (s : Dfs)
      → includes n remaining ≡ true
      → scan remaining adjacency visit (n ∷ ns) s
        ≡ unless_found remaining adjacency (scan remaining adjacency visit ns) (visit n s)
  unfolding scan
  scan_visit visit n ns s e = rw (e, scan)

  Fails-skip :
      (n : String) (ns p fs : List String) (s : Dfs)
      → count n remaining ≡ 0
      → Fails s p fs ns
      → Fails s p fs (n ∷ ns)
  unfolding count
  Fails-skip n ns p fs s e f = record {
    left = f.left;
    good = f.good;
    kept = f.kept;
    reached = λ x m r. ground (arith, f.reached x, r, e);
  }

  Outcome-skip :
      (n : String) (ns p fs : List String) (r : Bool × Dfs)
      → count n remaining ≡ 0
      → Outcome p fs ns r
      → Outcome p fs (n ∷ ns) r
  Outcome-skip n ns p fs (true, s) e o = o
  Outcome-skip n ns p fs (false, s) e o = Fails-skip n ns p fs s e o

  Outcome-cons :
      (n : String) (ns p fs : List String) (s : Dfs) (f : Fails s p fs (n ∷ [])) (r : Bool × Dfs)
      → Outcome p f.left ns r
      → Outcome p fs (n ∷ ns) r
  Outcome-cons n ns p fs s f (true, t) o = o
  Outcome-cons n ns p fs s f (false, t) o = Fails-cons n ns p fs s t f o

  unless_found-Outcome :
      (continue : Dfs → Bool × Dfs) (n : String) (ns p fs : List String) (r : Bool × Dfs)
      → Outcome p fs (n ∷ []) r
      → ((t : Dfs) (ls : List String) → Good t p ls → Outcome p ls ns (continue t))
      → Outcome p fs (n ∷ ns) (unless_found remaining adjacency continue r)
  unfolding unless_found
  unless_found-Outcome continue n ns p fs (true, s) o h = o
  unless_found-Outcome continue n ns p fs (false, s) f h =
      Outcome-cons n ns p fs s f (continue s) (h s f.left f.good)

  scan-Outcome :
      (visit : String → Dfs → Bool × Dfs) (ns p fs : List String) (s : Dfs)
      → ((n : String) → 0 < count n ns → Visits visit p n)
      → Good s p fs
      → Outcome p fs ns (scan remaining adjacency visit ns s)
  unfolding scan count
  scan-Outcome visit [] p fs s v g = record {
    left = fs;
    good = g;
    kept = λ x. omega arith;
    reached = λ x m r. absurd (omega arith);
  }
  scan-Outcome visit (n ∷ ns) p fs s v g = elim (Bool-cases (includes n remaining)) [
    | inl e ↦ subst (Outcome p fs (n ∷ ns)) (sym (scan_visit visit n ns s e)) (
        unless_found-Outcome (scan remaining adjacency visit ns) n ns p fs (visit n s)
          (v n (ground arith) s fs (includes→count n remaining e) g)
          (λ t ls. scan-Outcome visit ns p ls t (λ m h. v m (ground (arith, h)))))
    | inr e ↦ subst (Outcome p fs (n ∷ ns)) (sym (scan_skip visit n ns s e)) (
        Outcome-skip n ns p fs (scan remaining adjacency visit ns s)
          (includes-false→count n remaining e)
          (scan-Outcome visit ns p fs s (λ m h. v m (ground (arith, h))) g))
  ]

  dfs_on_path :
      (fuel : ℕ) (node : String) (s : Dfs)
      → includes node s.path ≡ true
      → dfs remaining adjacency (suc fuel) node s
        ≡ (true, record s { path = drop_before node (s.path ++ node ∷ []) })
  unfolding dfs
  dfs_on_path fuel node s e = ground arith

  dfs_visited :
      (fuel : ℕ) (node : String) (s : Dfs)
      → includes node s.path ≡ false
      → includes node s.visited ≡ true
      → dfs remaining adjacency (suc fuel) node s ≡ (false, s)
  unfolding dfs
  dfs_visited fuel node s e f = ground arith

  dfs_new :
      (fuel : ℕ) (node : String) (s : Dfs)
      → includes node s.path ≡ false
      → includes node s.visited ≡ false
      → dfs remaining adjacency (suc fuel) node s
        ≡ leave remaining adjacency (
            scan remaining adjacency
              (dfs remaining adjacency fuel)
              (neighbors_of node adjacency)
              (enter remaining adjacency node s))
  unfolding dfs
  dfs_new fuel node s e f = ground arith

  leave-Outcome :
      (node : String) (p fs : List String) (r : Bool × Dfs)
      → Outcome (p ++ node ∷ []) fs (neighbors_of node adjacency) r
      → Outcome p fs (node ∷ []) (leave remaining adjacency r)
  unfolding leave count
  leave-Outcome node p fs (true, s) o = o
  leave-Outcome node p fs (false, s) f = record {
    left = node ∷ f.left;
    good = record {
      path = ap drop_last f.good.path ∙ drop_last-snoc p node;
      closed = (f.reached, f.good.closed);
      covered = λ x v. ground (arith, f.good.covered x v, count-append x p (node ∷ []));
    };
    kept = λ x. ground (arith, f.kept x);
    reached = λ x m r. ground arith;
  }

  enter-Good :
      (node : String) (p fs : List String) (s : Dfs)
      → Good s p fs
      → Good (enter remaining adjacency node s) (p ++ node ∷ []) fs
  unfolding enter count
  enter-Good node p fs s g = record {
    path = ap (λ q. q ++ node ∷ []) g.path;
    closed = g.closed;
    covered = λ x v. ground (arith, g.covered x, count-append x p (node ∷ []));
  }

  off :
      (node : String) (p : List String) (s : Dfs)
      → s.path ≡ p
      → includes node s.path ≡ false
      → count node p ≡ 0
  off node p s e h = ap (count node) (sym e) ∙ includes-false→count node s.path h

  known :
      (node : String) (p fs : List String) (s : Dfs)
      → Good s p fs
      → count node p ≡ 0
      → 0 < count node s.visited
      → Fails s p fs (node ∷ [])
  unfolding count
  known node p fs s g o v = record {
    left = fs;
    good = g;
    kept = λ x. omega arith;
    reached = λ x m r. ground (arith, g.covered node v);
  }

  within :
      (node : String) (p : List String)
      → ((x : String) → count x p ≤ count x remaining)
      → count node p ≡ 0
      → 0 < count node remaining
      → (x : String) → count x (p ++ node ∷ []) ≤ count x remaining
  unfolding count
  within node p i o r x = ground (arith, i x, count-append x p (node ∷ []))

module _ (nodes : List DagNode) (remaining : List String) (adjacency : Map (List String))
    (edges : (x y : String) → 0 < count y (neighbors_of x adjacency) → IsEdge nodes x y) where
  pub dfs-Outcome :
      (fuel : ℕ) (node : String) (p fs : List String) (s : Dfs)
      → IsWalk nodes (p ++ node ∷ [])
      → ((x : String) → count x p ≤ count x remaining)
      → length remaining < fuel + length p
      → 0 < count node remaining
      → Good nodes remaining adjacency s p fs
      → Outcome nodes remaining adjacency p fs (node ∷ []) (dfs remaining adjacency fuel node s)
  unfolding count
  dfs-Outcome zero node p fs s w i f r g = absurd (omega (arith, length_of_count p remaining i))
  dfs-Outcome (suc fuel) node p fs s w i f r g = elim (Bool-cases (includes node s.path)) [
    | inl e ↦
        subst (Outcome nodes remaining adjacency p fs (node ∷ []))
          (sym (dfs_on_path nodes remaining adjacency fuel node s e))
          (drop_before-IsCycle nodes node s.path
            (subst (λ q. IsWalk nodes (q ++ node ∷ [])) (sym g.path) w)
            (includes→count node s.path e))
    | inr e ↦ elim (Bool-cases (includes node s.visited)) [
      | inl v ↦
          subst (Outcome nodes remaining adjacency p fs (node ∷ []))
            (sym (dfs_visited nodes remaining adjacency fuel node s e v))
            (known nodes remaining adjacency node p fs s g
              (off nodes remaining adjacency node p s g.path e) (includes→count node s.visited v))
      | inr v ↦
          subst (Outcome nodes remaining adjacency p fs (node ∷ []))
            (sym (dfs_new nodes remaining adjacency fuel node s e v))
            (leave-Outcome nodes remaining adjacency node p fs _ (
              scan-Outcome nodes remaining adjacency (dfs remaining adjacency fuel)
                (neighbors_of node adjacency) (p ++ node ∷ []) fs (enter remaining adjacency node s)
                (λ n m t ls k h.
                  dfs-Outcome fuel n (p ++ node ∷ []) ls t
                    (IsWalk-snoc nodes p node n w (edges node n m))
                    (within nodes remaining adjacency node p i
                      (off nodes remaining adjacency node p s g.path e) r)
                    (omega (arith, f, length-append p (node ∷ []))) k h)
                (enter-Good nodes remaining adjacency node p fs s g)))
    ]
  ]
