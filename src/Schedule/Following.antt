-- ===== src/Schedule/Following.antt =====
-- computeFollowingSchedulerNextRun of src/utils.ts, mode by mode.
use native.Mathlib.Nat.{lt-div-mul-add, div-mul-le_self, add-mul}
use glide_mq.Common.{
  ℕ, ◌+◌, ◌-◌, ◌*◌, ◌/◌, ◌≤◌, ◌<◌, ◌≡◌, ◌∙◌, sym, subst, inl, inr, refl, [], ◌∷◌, Option, none,
  some, Result, ok, err, arith, ap, ok-injective, >>=-eq-ok, dec_le, Option-cases,
}
use glide_mq.Cron.Field.{CronError}
use glide_mq.Cron.Text.{Text}
use glide_mq.Cron.Pattern.{parse_cron_pattern, next_cron_occurrence_utc}
use glide_mq.Cron.Next.{IsNext, next_cron_occurrence_utc-IsNext}
use glide_mq.Schedule.{
  SchedulerEntry, truthy, until_end, next_cron_run, following_every, following_run,
  compute_following_scheduler_next_run,
}
use glide_mq.Schedule.Spec.{
  delayed, on_pattern, on_grid, unplanned, IsFirstOnGrid, IsFirstOnGrid-of_steps, Follows, IsWithin,
}

pub truthy-some : (o : Option ℕ) (n : ℕ) → truthy o ≡ some n → (o ≡ some n) × (0 < n)
unfolding truthy
truthy-some none n h = cc
truthy-some (some m) n h = ground arith

pub until_end-some :
    (o : Option ℕ) (t u : ℕ) → until_end o t ≡ some u → (t ≡ u) × ((e : ℕ) → o ≡ some e → u ≤ e)
unfolding until_end
until_end-some none t u h = (ground arith, λ e k. cc)
until_end-some (some d) t u h = (ground arith, λ e k. ground arith)

pub next_cron_run-ok :
    (r : Result CronError (Option ℕ)) (t : ℕ) → next_cron_run r ≡ ok t → r ≡ ok (some t)
unfolding next_cron_run
next_cron_run-ok (ok (some t')) t h = ap (λ x. ok (some x)) (ok-injective h)
next_cron_run-ok (ok none) t h = cc
next_cron_run-ok (err e) t h = cc

following_every-IsFirstOnGrid :
    (planned every after_ms : ℕ)
    → 0 < every
    → IsFirstOnGrid planned every (after_ms + 1) (following_every (some planned) every after_ms)
unfolding following_every
following_every-IsFirstOnGrid planned every after_ms pos = elim (dec_le planned after_ms) [
  | yes l ↦
      let q = (after_ms - planned) / every in
      let split = add-mul q 1 every in
      let enough : after_ms - planned < q * every + every = lt-div-mul-add pos in
      IsFirstOnGrid-of_steps planned every (after_ms + 1) (q + 1) _ (ground arith)
        (ground (arith, split, enough))
        (omega (arith, split, div-mul-le_self (after_ms - planned) every))
  | no n ↦
      IsFirstOnGrid-of_steps planned every (after_ms + 1) 0 _ (ground arith) (ground arith)
        (omega arith)
]

every_Follows :
    (s : SchedulerEntry) (after_ms every : ℕ)
    → truthy s.repeat_after_complete ≡ none
    → s.pattern ≡ []
    → s.every ≡ some every
    → 0 < every
    → Follows s after_ms (following_every s.next_run every after_ms)
unfolding following_every
every_Follows s after_ms every r p q pos = elim (Option-cases s.next_run) [
  | inl e ↦ unplanned r p every q pos e (ap (λ o. following_every o every after_ms) e)
  | inr (planned, e) ↦ on_grid r p every planned q pos e (
      subst (λ o. IsFirstOnGrid planned every (after_ms + 1) (following_every o every after_ms))
        (sym e) (following_every-IsFirstOnGrid planned every after_ms pos))
]

following_run-Follows :
    (s : SchedulerEntry) (after_ms t : ℕ) (repeat every : Option ℕ) (pattern : Text)
    → truthy s.repeat_after_complete ≡ repeat
    → s.pattern ≡ pattern
    → truthy s.every ≡ every
    → following_run s after_ms repeat pattern every ≡ ok (some t)
    → Follows s after_ms t × IsWithin s t
unfolding following_run
following_run-Follows s after_ms t (some d) every pattern r p e h =
    let (q, pos) = truthy-some s.repeat_after_complete d r in
    let (u, end) = until_end-some s.end_date (after_ms + d) t (ok-injective h) in
    (delayed d q pos (sym u), end)
following_run-Follows s after_ms t none every (c ∷ pattern) r p e h =
    let (u, run, rest) =
      >>=-eq-ok (next_cron_run (next_cron_occurrence_utc (c ∷ pattern) after_ms)) _ h in
    let (v, end) = until_end-some s.end_date u t (ok-injective rest) in
    let (cron, parsed, next) =
      next_cron_occurrence_utc-IsNext (c ∷ pattern) after_ms u (next_cron_run-ok _ u run) in
    (
      on_pattern r cron (ap parse_cron_pattern p ∙ parsed) (subst (IsNext cron after_ms) v next),
      end,
    )
following_run-Follows s after_ms t none (some n) [] r p e h =
    let (q, pos) = truthy-some s.every n e in
    let (u, end) =
      until_end-some s.end_date (following_every s.next_run n after_ms) t (ok-injective h) in
    (subst (Follows s after_ms) u (every_Follows s after_ms n r p q pos), end)
following_run-Follows s after_ms t none none [] r p e h = cc

-- When computeFollowingSchedulerNextRun returns a run, it is the one that the mode of the schedule asks
-- for, and it is not past the end date: the instant plus the delay, the first match of the pattern
-- after the instant, or the first point after the instant of the grid from the planned run.
pub compute_following_scheduler_next_run-Follows :
    (s : SchedulerEntry) (after_ms t : ℕ)
    → compute_following_scheduler_next_run s after_ms ≡ ok (some t)
    → Follows s after_ms t × IsWithin s t
unfolding compute_following_scheduler_next_run
compute_following_scheduler_next_run-Follows s after_ms t h =
    following_run-Follows s after_ms t _ _ _ refl refl refl (ground arith)
