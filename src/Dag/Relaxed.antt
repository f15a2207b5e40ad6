-- ===== src/Dag/Relaxed.antt =====
-- One round of Kahn's loop of src/dag-utils.ts: the neighbors of a shifted name, the degrees and the queue.
use glide_mq.Common.{
  ℕ, zero, suc, ◌+◌, ◌-◌, ◌<◌, ◌≤◌, ◌≡◌, refl, String, text_dec, ite, List, [], ◌∷◌, ◌++◌, count,
  count-append, count-cons_self, length, length-append, arith, Map, get?, set, get?-set,
  if◌then◌else◌, ltb, ◌==◌,
}
use glide_mq.Dag.{degree_of, relax}

-- How many entries have a positive degree.
unfoldable pub positives : Map ℕ → ℕ
positives [] = 0
positives ((k, d) ∷ m) = (if ltb 0 d then 1 else 0) + positives m

-- Whether a name with `k` incoming edges from the shifted one reaches degree 0.
abbrev pub hit : ℕ → ℕ → ℕ
hit zero degree = 0
hit (suc k) degree = if degree == suc k then 1 else 0

degree_of-set :
    (x n : String) (d : ℕ) (m : Map ℕ)
    → degree_of x (set n d m) ≡ ite (text_dec n x) d (degree_of x m)
unfolding degree_of
degree_of-set x n d m = ground (arith, get?-set x n d m)

positives-set :
    (n : String) (m : Map ℕ)
    → 0 < degree_of n m
    → positives (set n (degree_of n m - 1) m) + 1
      ≡ positives m + (if degree_of n m == 1 then 0 else 1)
unfolding positives degree_of get? set
positives-set n [] h = absurd (omega arith)
positives-set n ((k, d) ∷ m) h = ground (arith, positives-set n m)

-- The premise of the lemmas below, kept by one step of the loop.
enough :
    (n : String) (ns : List String) (m : Map ℕ)
    → ((y : String) → count y (n ∷ ns) ≤ degree_of y m)
    → (y : String) → count y ns ≤ degree_of y (set n (degree_of n m - 1) m)
unfolding count
enough n ns m h y = ground (arith, h y, degree_of-set y n (degree_of n m - 1) m)

pub relax-degree :
    (ns : List String) (m : Map ℕ) (q : List String) (x : String)
    → ((y : String) → count y ns ≤ degree_of y m)
    → degree_of x (relax ns m q).0 + count x ns ≡ degree_of x m
unfolding relax count
relax-degree [] m q x h = ground arith
relax-degree (n ∷ ns) m q x h =
    let degree = degree_of n m - 1 in
    ground (
      arith,
      relax-degree ns (set n degree m) (if degree == 0 then q ++ n ∷ [] else q) x (enough n ns m h),
      degree_of-set x n degree m,
      h x,
    )

pub relax-queue :
    (ns : List String) (m : Map ℕ) (q : List String) (x : String)
    → ((y : String) → count y ns ≤ degree_of y m)
    → count x (relax ns m q).1 ≡ count x q + hit (count x ns) (degree_of x m)
unfolding relax count
relax-queue [] m q x h = omega arith
relax-queue (n ∷ ns) m q x h =
    let degree = degree_of n m - 1 in
    ground (
      arith,
      relax-queue ns (set n degree m) (if degree == 0 then q ++ n ∷ [] else q) x (enough n ns m h),
      degree_of-set x n degree m,
      count-append x q (n ∷ []),
      h x,
    )

pub relax-positives :
    (ns : List String) (m : Map ℕ) (q : List String)
    → ((y : String) → count y ns ≤ degree_of y m)
    → length (relax ns m q).1 + positives (relax ns m q).0 ≡ length q + positives m
unfolding relax
relax-positives [] m q h = refl
relax-positives (n ∷ ns) m q h =
    let degree = degree_of n m - 1 in
    ground (
      arith,
      relax-positives ns (set n degree m) (if degree == 0 then q ++ n ∷ [] else q)
          (enough n ns m h),
      positives-set n m (omega (arith, h n, count-cons_self n ns)),
      length-append q (n ∷ []),
      h n,
      count-cons_self n ns,
    )
