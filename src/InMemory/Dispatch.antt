-- ===== src/InMemory/Dispatch.antt =====
-- The dispatch order of src/testing.ts: nextWaitingIndex, takeNextWaiting and hasWaiting of TestQueue,
-- and the listing waitingInDispatchOrder.
use glide_mq.Common.{
  ℕ, zero, suc, Bool, true, false, ◌&&◌, not, List, [], ◌∷◌, ◌++◌, Option, none, some, String,
  includes, ltb, ◌==◌, if◌then◌else◌,
}
use mathlib.Core.List.{reverse}
use glide_mq.InMemory.Jobs.{JobRecord, is_waiting}
use glide_mq.InMemory.Store.{TestQueue, is_current, promote_prioritized}
use glide_mq.InMemory.Bulk.{ids_of, refs_of, refs_where, sort_with, by_key}

-- The entries to keep: waiting jobs of the queue, each id once.
unfoldable pub compact : TestQueue → List String → List ℕ → List ℕ
unfolding is_waiting is_current includes
compact q seen [] = []
compact q seen (ref ∷ refs) =
    let id = (q.records ref).id in
    let taken = ref ∷ compact q (id ∷ seen) refs in
    let skipped = compact q seen refs in
    if is_waiting (q.records ref).state && is_current q ref && not (includes id seen)
    then taken
    else skipped

-- The loop's variables: `none` is the index -1, or no priority yet.
pub record Scan : Type 0 where
  pub best : Option ℕ
  pub best_priority : Option ℕ
  pub lifo : Option ℕ

unfoldable pub below : ℕ → Option ℕ → Bool
below priority none = true
below priority (some best) = ltb priority best

unfoldable pub scan_one : JobRecord → ℕ → Scan → Scan
unfolding below
scan_one r i s =
    if r.opts.lifo
    then record s { lifo = some i }
    else if ltb 0 r.opts.priority && below r.opts.priority s.best_priority
    then record s { best = some i; best_priority = some r.opts.priority }
    else s

unfoldable pub scan : (ℕ → JobRecord) → List ℕ → ℕ → Scan → Scan
unfolding scan_one
scan records [] i s = s
scan records (ref ∷ refs) i s = scan records refs (suc i) (scan_one (records ref) i s)

abbrev pub no_scan : Scan
no_scan = record { best = none; best_priority = none; lifo = none }

unfoldable pub or_else : Option ℕ → Option ℕ → Option ℕ
or_else none other = other
or_else (some i) other = some i

unfoldable pub head_index : List ℕ → Option ℕ
head_index [] = none
head_index (ref ∷ refs) = some 0

unfoldable pub best_index : (ℕ → JobRecord) → List ℕ → Option ℕ
unfolding scan or_else head_index
best_index records queue =
    let s = scan records queue 0 no_scan in or_else s.best (or_else s.lifo (head_index queue))

-- The queue is promoted and compacted on the way.
unfoldable pub next_waiting_index : TestQueue → Option ℕ × TestQueue
unfolding promote_prioritized compact best_index
next_waiting_index q =
    let q' = promote_prioritized q in
    let queue = compact q' [] q'.waiting_queue in
    (best_index q'.records queue, record q' { waiting_queue = queue })

unfoldable pub get_at : ℕ → List ℕ → Option ℕ
get_at i [] = none
get_at zero (x ∷ xs) = some x
get_at (suc i) (x ∷ xs) = get_at i xs

-- `splice(i, 1)`
unfoldable pub remove_at : ℕ → List ℕ → List ℕ
remove_at i [] = []
remove_at zero (x ∷ xs) = xs
remove_at (suc i) (x ∷ xs) = x ∷ remove_at i xs

unfoldable pub take_at : TestQueue → Option ℕ → Option ℕ × TestQueue
unfolding get_at remove_at
take_at q none = (none, q)
take_at q (some i) =
    (get_at i q.waiting_queue, record q { waiting_queue = remove_at i q.waiting_queue })

unfoldable pub take_next_waiting : TestQueue → Option ℕ × TestQueue
unfolding next_waiting_index take_at
take_next_waiting q = let (i, q') = next_waiting_index q in take_at q' i

unfoldable pub is_some : Option ℕ → Bool
is_some none = false
is_some (some i) = true

unfoldable pub has_waiting : TestQueue → Bool × TestQueue
unfolding next_waiting_index is_some
has_waiting q = let (i, q') = next_waiting_index q in (is_some i, q')

-- Waiting jobs that no entry of the queue names.
unfoldable pub unlisted : TestQueue → List String → List ℕ → List ℕ
unfolding is_waiting includes
unlisted q seen [] = []
unlisted q seen (ref ∷ refs) =
    let rest = unlisted q seen refs in
    if is_waiting (q.records ref).state && not (includes (q.records ref).id seen)
    then ref ∷ rest
    else rest

unfoldable pub is_priority_job : JobRecord → Bool
is_priority_job r = not r.opts.lifo && ltb 0 r.opts.priority

unfoldable pub is_fifo_job : JobRecord → Bool
is_fifo_job r = not r.opts.lifo && (r.opts.priority == 0)

unfoldable pub in_order : (ℕ → JobRecord) → List ℕ → List ℕ
unfolding refs_where sort_with is_priority_job is_fifo_job
in_order records live =
    sort_with (by_key (λ ref. (records ref).opts.priority))
      (refs_where (λ ref. is_priority_job (records ref)) live)
    ++ (reverse (refs_where (λ ref. (records ref).opts.lifo) live)
        ++ refs_where (λ ref. is_fifo_job (records ref)) live)

unfoldable pub waiting_in_dispatch_order : TestQueue → List ℕ
unfolding compact unlisted ids_of refs_of in_order
waiting_in_dispatch_order q =
    let listed = compact q [] q.waiting_queue in
    in_order q.records (listed ++ unlisted q (ids_of q.records listed) (refs_of q.jobs))
