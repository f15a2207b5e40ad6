-- ===== src/Schedule/Initial.antt =====
-- computeInitialSchedulerNextRun of src/utils.ts, mode by mode.
use native.Mathlib.Nat.{lt-div-mul-add, div-mul-le_self}
use glide_mq.Common.{
  ℕ, ◌+◌, ◌-◌, ◌*◌, ◌/◌, ◌<◌, ◌≡◌, ◌∙◌, sym, subst, inl, inr, refl, [], ◌∷◌, Option, none, some, ok,
  arith, ap, ok-injective, >>=-eq-ok, dec_lt, Option-cases,
}
use glide_mq.Cron.Text.{Text}
use glide_mq.Cron.Pattern.{parse_cron_pattern}
use glide_mq.Cron.Next.{next_cron_occurrence_utc-IsNext}
use glide_mq.Schedule.{
  SchedulerEntry, truthy, start_or_now, first_every, initial_run, check_every,
  compute_initial_scheduler_next_run,
}
use glide_mq.Schedule.Spec.{
  IsFirstOnGrid, IsFirstOnGrid-of_steps, IsFrom, Starts, at_once, at_match, at_point,
  after_interval, IsWithin,
}
use glide_mq.Schedule.Following.{truthy-some, until_end-some, next_cron_run-ok}

start_or_now-IsFrom :
    (start_date : Option ℕ) (now : ℕ) → IsFrom start_date now (start_or_now start_date now)
unfolding start_or_now
start_or_now-IsFrom none now = record {
  from_now = omega arith;
  from_start = λ d h. cc;
  earliest = λ u h k. h;
}
start_or_now-IsFrom (some s) now = record {
  from_now = ground arith;
  from_start = λ d h. ground arith;
  earliest = λ u h k. ground (arith, k s refl);
}

first_every-IsFirstOnGrid :
    (start every now : ℕ)
    → 0 < every
    → IsFirstOnGrid start every now (first_every (some start) every now)
unfolding first_every
first_every-IsFirstOnGrid start every now pos = elim (dec_lt now start) [
  | yes l ↦ IsFirstOnGrid-of_steps start every now 0 _ (ground arith) (ground arith) (omega arith)
  | no n ↦
      let x = now - start + every - 1 in
      let enough : x < x / every * every + every = lt-div-mul-add pos in
      IsFirstOnGrid-of_steps start every now (x / every) _ (ground arith) (ground (arith, enough))
        (omega (arith, div-mul-le_self x every))
]

every_Starts :
    (s : SchedulerEntry) (now every : ℕ)
    → truthy s.repeat_after_complete ≡ none
    → s.pattern ≡ []
    → s.every ≡ some every
    → 0 < every
    → Starts s now (first_every s.start_date every now)
unfolding first_every
every_Starts s now every r p q pos = elim (Option-cases s.start_date) [
  | inl e ↦ after_interval r p every q pos e (ap (λ o. first_every o every now) e)
  | inr (start, e) ↦ at_point r p every start q pos e (
      subst (λ o. IsFirstOnGrid start every now (first_every o every now)) (sym e)
        (first_every-IsFirstOnGrid start every now pos))
]

initial_run-Starts :
    (s : SchedulerEntry) (now t : ℕ) (repeat every : Option ℕ) (pattern : Text)
    → truthy s.repeat_after_complete ≡ repeat
    → s.pattern ≡ pattern
    → truthy s.every ≡ every
    → initial_run s now repeat pattern every ≡ ok t
    → Starts s now t
unfolding initial_run
initial_run-Starts s now t (some d) every pattern r p e h =
    let (q, pos) = truthy-some s.repeat_after_complete d r in
    at_once d q pos
      (subst (IsFrom s.start_date now) (ok-injective h) (start_or_now-IsFrom s.start_date now))
initial_run-Starts s now t none every (c ∷ pattern) r p e h =
    let from = start_or_now s.start_date now in
    let (cron, parsed, next) =
      next_cron_occurrence_utc-IsNext (c ∷ pattern) (from - 1) t (next_cron_run-ok _ t h) in
    at_match r cron (ap parse_cron_pattern p ∙ parsed) from (start_or_now-IsFrom s.start_date now)
      next
initial_run-Starts s now t none (some n) [] r p e h =
    let (q, pos) = truthy-some s.every n e in
    subst (Starts s now) (ok-injective h) (every_Starts s now n r p q pos)
initial_run-Starts s now t none none [] r p e h = cc

-- When computeInitialSchedulerNextRun returns a run, it is the one that the mode of the schedule asks
-- for, and it is not past the end date: at once from the start date on, at the first match from then on,
-- at the first point from now on of the grid from the start date, or one interval from now.
pub compute_initial_scheduler_next_run-Starts :
    (s : SchedulerEntry) (now t : ℕ)
    → compute_initial_scheduler_next_run s now ≡ ok (some t)
    → Starts s now t × IsWithin s t
unfolding compute_initial_scheduler_next_run
compute_initial_scheduler_next_run-Starts s now t h =
    let (_, _, h₁) = >>=-eq-ok (check_every s) _ h in
    let (u, run, rest) =
      >>=-eq-ok (initial_run s now (truthy s.repeat_after_complete) s.pattern (truthy s.every)) _
        h₁ in
    let (v, end) = until_end-some s.end_date u t (ok-injective rest) in
    (subst (Starts s now) v (initial_run-Starts s now u _ _ _ refl refl refl run), end)
