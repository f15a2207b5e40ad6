-- ===== src/InMemory/Scanned.antt =====
-- The scan of nextWaitingIndex in src/testing.ts against the sorted listing of waitingInDispatchOrder.
use glide_mq.Common.{
  ℕ, suc, ◌+◌, ◌≡◌, refl, sym, ◌∙◌, ap, true, false, ◌&&◌, List, [], ◌∷◌, ◌++◌, Option, none, some,
  ltb, if◌then◌else◌, arith, if_intro,
}
use mathlib.Core.List.{reverse}
use glide_mq.InMemory.Jobs.{JobRecord}
use glide_mq.InMemory.Bulk.{refs_where, sort_with, by_key}
use glide_mq.InMemory.Dispatch.{
  Scan, below, scan_one, scan, no_scan, or_else, head_index, best_index, get_at, is_priority_job,
  in_order,
}
use glide_mq.InMemory.First.{
  head, priority, prior, last_in, fifo, better, best_of, last_of, best_of-sort_with, head-append,
  head-reverse_aux, head-fifo,
}

-- What an index stands for.
unfoldable pub resolve : List ℕ → Option ℕ → Option ℕ
unfolding get_at
resolve xs none = none
resolve xs (some i) = get_at i xs

module _ (records : ℕ → JobRecord) where
  unfoldable priority_of : Option ℕ → Option ℕ
  priority_of none = none
  priority_of (some b) = some (priority records b)

  -- The indices of a scan stand for jobs.
  record Points (full : List ℕ) (s : Scan) (b l : Option ℕ) : Type 0 where
    best : resolve full s.best ≡ b
    best_priority : s.best_priority ≡ priority_of b
    lifo : resolve full s.lifo ≡ l
    best_none : b ≡ none → s.best ≡ none
    lifo_none : l ≡ none → s.lifo ≡ none

  scan_one-Points :
      (full : List ℕ) (s : Scan) (b l : Option ℕ) (x i : ℕ)
      → Points full s b l
      → get_at i full ≡ some x
      → Points full
          (scan_one (records x) i s)
          (if prior records x then better records b (some x) else b)
          (if last_in records x then some x else l)
  unfolding scan_one is_priority_job resolve priority_of better below
  scan_one-Points full s b l x i p g =
      if_intro
        (λ s'.
          Points full s' (if prior records x then better records b (some x) else b)
            (if last_in records x then some x else l))
        (last_in records x) _ _
        (λ e. record {
          best = ground (arith, p.best);
          best_priority = ground (arith, p.best_priority);
          lifo = ground (arith, e);
          best_none = λ h. p.best_none (ground (arith, h));
          lifo_none = λ h. absurd (ground (arith, h));
        })
        (λ e.
          if_intro
            (λ s'.
              Points full s' (if prior records x then better records b (some x) else b)
                (if last_in records x then some x else l))
            (ltb 0 (priority records x) && below (priority records x) s.best_priority) _ _
            (λ f. record {
              best = g ∙ sym (taken b p.best_priority e f);
              best_priority = ap priority_of (sym (taken b p.best_priority e f));
              lifo = ground (arith, p.lifo);
              best_none = λ h. absurd (ground (arith, h, taken b p.best_priority e f));
              lifo_none = λ h. p.lifo_none (ground (arith, h));
            })
            (λ f. record {
              best = p.best ∙ sym (skipped b p.best_priority e f);
              best_priority =
                  p.best_priority ∙ ap priority_of (sym (skipped b p.best_priority e f));
              lifo = ground (arith, p.lifo);
              best_none = λ h. p.best_none (sym (skipped b p.best_priority e f) ∙ h);
              lifo_none = λ h. p.lifo_none (ground (arith, h));
            }))
    where
      taken :
          (b : Option ℕ)
          → s.best_priority ≡ priority_of b
          → last_in records x ≡ false
          → (ltb 0 (priority records x) && below (priority records x) s.best_priority) ≡ true
          → (if prior records x then better records b (some x) else b) ≡ some x
      taken none h e f = ground (arith, h, e, f)
      taken (some c) h e f = ground (arith, h, e, f)

      skipped :
          (b : Option ℕ)
          → s.best_priority ≡ priority_of b
          → last_in records x ≡ false
          → (ltb 0 (priority records x) && below (priority records x) s.best_priority) ≡ false
          → (if prior records x then better records b (some x) else b) ≡ b
      skipped none h e f = ground (arith, h, e, f)
      skipped (some c) h e f = ground (arith, h, e, f)

  scan-Points :
      (full : List ℕ) (refs : List ℕ) (i : ℕ) (s : Scan) (b l : Option ℕ)
      → Points full s b l
      → ((j : ℕ) → get_at (i + j) full ≡ get_at j refs)
      → Points full (scan records refs i s) (best_of records b refs) (last_of records l refs)
  unfolding scan best_of last_of get_at
  scan-Points full [] i s b l p g = p
  scan-Points full (x ∷ refs) i s b l p g =
      scan-Points full refs (suc i) _ _ _
        (scan_one-Points full s b l x i p (ap (λ n. get_at n full) (omega arith) ∙ g 0))
        (λ j. ap (λ n. get_at n full) (omega arith) ∙ g (suc j))

  or_else-resolve :
      (xs : List ℕ) (i other b : Option ℕ)
      → resolve xs i ≡ b
      → (b ≡ none → i ≡ none)
      → resolve xs (or_else i other) ≡ or_else b (resolve xs other)
  unfolding resolve or_else
  or_else-resolve xs none other b h n = ground (arith, h)
  or_else-resolve xs (some i) other none h n = absurd (ground (arith, n refl))
  or_else-resolve xs (some i) other (some b) h n = h

  unscanned : (xs : List ℕ) → Points xs no_scan none none
  unfolding resolve priority_of
  unscanned xs = record {
    best = refl;
    best_priority = refl;
    lifo = refl;
    best_none = λ h. refl;
    lifo_none = λ h. refl;
  }

  last_choice :
      (b l h k : Option ℕ)
      → (b ≡ none → l ≡ none → h ≡ k)
      → or_else b (or_else l h) ≡ or_else b (or_else l k)
  unfolding or_else
  last_choice (some b) l h k f = refl
  last_choice none (some l) h k f = refl
  last_choice none none h k f = f refl refl

  first : (xs : List ℕ) → resolve xs (head_index xs) ≡ head xs
  unfolding resolve head_index head get_at
  first [] = refl
  first (x ∷ xs) = refl

  -- The scan finds the first job of the listing.
  pub best_index-in_order :
      (xs : List ℕ) → resolve xs (best_index records xs) ≡ head (in_order records xs)
  unfolding best_index in_order head better
  best_index-in_order xs =
      let s = scan records xs 0 no_scan in
      let p = scanned in
      or_else-resolve xs s.best _ _ p.best p.best_none
      ∙ ap (or_else (best_of records none xs)) (or_else-resolve xs s.lifo _ _ p.lifo p.lifo_none)
      ∙ last_choice (best_of records none xs) (last_of records none xs) _ _
          (λ h k. first xs ∙ head-fifo records xs h k)
      ∙ sym (
          head-append records sorted (reverse lasts ++ firsts)
          ∙ ap (or_else (head sorted)) (head-append records (reverse lasts) firsts)
          ∙ rw (head-reverse_aux records none xs [] refl) (
              ap (λ h. or_else h (or_else (last_of records none xs) (head firsts)))
                (sym (best_of-sort_with records none xs))))
    where
      sorted : List ℕ
      sorted = sort_with (by_key (priority records)) (refs_where (prior records) xs)

      lasts : List ℕ
      lasts = refs_where (last_in records) xs

      firsts : List ℕ
      firsts = refs_where (fifo records) xs

      scanned :
          Points xs (scan records xs 0 no_scan) (best_of records none xs) (last_of records none xs)
      scanned =
          scan-Points xs xs 0 no_scan none none (unscanned xs)
            (λ j. ap (λ n. get_at n xs) (omega arith))

  some_choice : (b l : Option ℕ) (x : ℕ) → (r : ℕ) × (or_else b (or_else l (some x)) ≡ some r)
  unfolding or_else
  some_choice (some b) l x = (b, refl)
  some_choice none (some l) x = (l, refl)
  some_choice none none x = (x, refl)

  -- Where a job waits, the scan finds one.
  pub best_index-found :
      (x : ℕ) (xs : List ℕ) → (r : ℕ) × (resolve (x ∷ xs) (best_index records (x ∷ xs)) ≡ some r)
  unfolding best_index head
  best_index-found x xs =
      let p =
        scan-Points (x ∷ xs) (x ∷ xs) 0 no_scan none none (unscanned (x ∷ xs))
          (λ j. ap (λ n. get_at n (x ∷ xs)) (omega arith)) in
      let (r, e) = some_choice (best_of records none (x ∷ xs)) (last_of records none (x ∷ xs)) x in
      (
        r,
        or_else-resolve (x ∷ xs) _ _ _ p.best p.best_none
            ∙ ap (or_else (best_of records none (x ∷ xs))) (
                or_else-resolve (x ∷ xs) _ _ _ p.lifo p.lifo_none
                ∙ ap (or_else (last_of records none (x ∷ xs))) (first (x ∷ xs)))
            ∙ e,
      )
