-- ===== src/InMemory/Pages.antt =====
-- TestQueue.getJobs of src/testing.ts, without the option that leaves the data out.
use glide_mq.Common.{
  ℕ, zero, suc, ◌-◌, Bool, ◌&&◌, ◌||◌, not, List, [], ◌∷◌, Option, none, some, ltb, ◌==◌, take,
}
use glide_mq.InMemory.Jobs.{
  JobState, is_waiting, is_active, is_delayed, is_prioritized, is_completed, is_failed,
}
use glide_mq.InMemory.Store.{TestQueue}
use glide_mq.InMemory.Bulk.{refs_of, refs_where, sort_with, text_before, number}
use glide_mq.InMemory.Dispatch.{waiting_in_dispatch_order}

pub data JobType : Type 0 where
  waiting_jobs active_jobs delayed_jobs completed_jobs failed_jobs : JobType

unfoldable pub matches_queue_state : JobState → JobType → Bool
unfolding is_waiting is_active is_delayed is_prioritized is_completed is_failed
matches_queue_state s waiting_jobs = is_waiting s
matches_queue_state s active_jobs = is_active s
matches_queue_state s delayed_jobs = is_delayed s || is_prioritized s
matches_queue_state s completed_jobs = is_completed s
matches_queue_state s failed_jobs = is_failed s

-- The order of the scheduled set: by priority, by due time, by id.
unfoldable pub scheduled_order : TestQueue → ℕ → ℕ → Bool
unfolding number text_before
scheduled_order q a b =
    let r = q.records a in
    let s = q.records b in
    ltb r.opts.priority s.opts.priority
    || ((r.opts.priority == s.opts.priority)
        && (ltb (number r.delayed_until) (number s.delayed_until)
            || ((number r.delayed_until == number s.delayed_until) && not (text_before s.id r.id))))

unfoldable pub jobs_of_type : TestQueue → JobType → List ℕ
unfolding waiting_in_dispatch_order sort_with scheduled_order refs_where matches_queue_state refs_of
jobs_of_type q waiting_jobs = waiting_in_dispatch_order q
jobs_of_type q delayed_jobs =
    sort_with (scheduled_order q)
      (refs_where (λ ref. matches_queue_state (q.records ref).state delayed_jobs) (refs_of q.jobs))
jobs_of_type q type =
    refs_where (λ ref. matches_queue_state (q.records ref).state type) (refs_of q.jobs)

unfoldable pub skip : ℕ → List ℕ → List ℕ
skip n [] = []
skip zero (x ∷ xs) = x ∷ xs
skip (suc n) (x ∷ xs) = skip n xs

-- `slice(start, end + 1)`; `none` is a negative end, for all the rest.
unfoldable pub page : ℕ → Option ℕ → List ℕ → List ℕ
unfolding skip
page start none refs = skip start refs
page start (some last) refs = take (suc last - start) (skip start refs)

unfoldable pub get_jobs : TestQueue → JobType → ℕ → Option ℕ → List ℕ
unfolding page jobs_of_type
get_jobs q type start last = page start last (jobs_of_type q type)
