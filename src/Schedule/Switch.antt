-- ===== src/Schedule/Switch.antt =====
-- holdSchedulerModeSwitch of src/utils.ts on the first run that computeInitialSchedulerNextRun gives.
use glide_mq.Common.{
  ℕ, refl, sym, ◌∙◌, ◌≤◌, ◌<◌, ◌≡◌, ◌≢◌, ◌⊎◌, inl, inr, [], ◌∷◌, Option, none, some, ok, arith,
  true, false, zero, suc, Bool-cases, dec_lt,
}
use glide_mq.Cron.Text.{Text}
use glide_mq.Schedule.{
  SchedulerEntry, truthy, is_valid_scheduler_every, no_pattern, until_end, max,
  hold_scheduler_mode_switch, compute_initial_scheduler_next_run,
}
use glide_mq.Schedule.Spec.{IsWithin}
use glide_mq.Schedule.Initial.{compute_initial_scheduler_next_run-Starts}

-- A usable interval: whole, above 0, and a safe integer of JavaScript.
abbrev pub IsInterval : Option ℕ → Type 0
IsInterval none = ⊥
IsInterval (some n) = (0 < n) × (n ≤ 9007199254740991)

-- An entry in the pattern or interval mode awaits a run at `planned`.
pub record Awaits (existing : SchedulerEntry) (planned : ℕ) : Type 0 where
  pub other_mode : ¬ IsInterval existing.repeat_after_complete
  pub mode : (existing.pattern ≢ []) ⊎ IsInterval existing.every
  pub next_run : existing.next_run ≡ some planned
  pub later : 0 < planned

-- `t` is the earliest instant that is neither before `n` nor before the run that the old entry awaits, and
-- it is within the end date of the new entry.
pub record IsHeld (existing changed : SchedulerEntry) (n t : ℕ) : Type 0 where
  pub first : n ≤ t
  pub planned : (p : ℕ) → Awaits existing p → p ≤ t
  pub least : (u : ℕ) → n ≤ u → ((p : ℕ) → Awaits existing p → p ≤ u) → t ≤ u
  pub within : IsWithin changed t

IsInterval-dec :
    (o : Option ℕ)
    → ((is_valid_scheduler_every o ≡ true) × IsInterval o)
      ⊎ ((is_valid_scheduler_every o ≡ false) × (¬ IsInterval o))
unfolding is_valid_scheduler_every
IsInterval-dec none = inr (refl, λ h. h)
IsInterval-dec (some n) = elim (Bool-cases (is_valid_scheduler_every (some n))) [
  | inl h ↦ inl (h, (ground (arith, h), ground (arith, h)))
  | inr h ↦ inr (h, λ i. let (a, b) = i in absurd (ground (arith, h)))
]

no_pattern_dec :
    (p : Text) → ((no_pattern p ≡ true) × (p ≡ [])) ⊎ ((no_pattern p ≡ false) × (p ≢ []))
unfolding no_pattern
no_pattern_dec [] = inl (refl, refl)
no_pattern_dec (c ∷ p) = inr (refl, λ h. absurd cc)

truthy_dec :
    (o : Option ℕ)
    → ((truthy o ≡ none) × ((p : ℕ) → o ≡ some p → 0 < p → ⊥))
      ⊎ ((p : ℕ) × (truthy o ≡ some p) × (o ≡ some p) × (0 < p))
unfolding truthy
truthy_dec none = inl (refl, λ p e h. absurd cc)
truthy_dec (some zero) = inl (refl, λ p e h. absurd (ground arith))
truthy_dec (some (suc n)) = inr (suc n, ground arith, refl, omega arith)

-- Either the old entry awaits a run and the switch takes the later instant, or it awaits none and the
-- switch changes nothing.
held_cases :
    (existing : SchedulerEntry) (n : ℕ) (end_date : Option ℕ)
    → ((p : ℕ) × Awaits existing p
        × (hold_scheduler_mode_switch existing n end_date ≡ until_end end_date (max n p)))
      ⊎ (((p : ℕ) → ¬ Awaits existing p)
          × (hold_scheduler_mode_switch existing n end_date ≡ some n))
unfolding hold_scheduler_mode_switch
held_cases existing n end_date = elim (IsInterval-dec existing.repeat_after_complete) [
  | inl (e, i) ↦ inr (λ p a. a.other_mode i, rw e refl)
  | inr (e, i) ↦ elim (truthy_dec existing.next_run) [
    | inl (f, k) ↦ inr (λ p a. k p a.next_run a.later, rw e (rw f refl))
    | inr (p, f, g, l) ↦ elim (no_pattern_dec existing.pattern) [
      | inr (m, c) ↦ inl (
        p,
        record { other_mode = i; mode = inl c; next_run = g; later = l },
        rw e (rw f (rw m refl)),
      )
      | inl (m, c) ↦ elim (IsInterval-dec existing.every) [
        | inl (v, j) ↦ inl (
          p,
          record { other_mode = i; mode = inr j; next_run = g; later = l },
          rw e (rw f (rw m (rw v refl))),
        )
        | inr (v, j) ↦
            inr (λ p a. elim a.mode [ inl d ↦ d c | inr d ↦ j d ], rw e (rw f (rw m (rw v refl))))
      ]
    ]
  ]
]

max_cases : (a b : ℕ) → (a ≤ max a b) × (b ≤ max a b) × ((max a b ≡ a) ⊎ (max a b ≡ b))
unfolding max
max_cases a b = ground arith

until_end_cases :
    (o : Option ℕ) (t : ℕ)
    → ((until_end o t ≡ some t) × ((e : ℕ) → o ≡ some e → t ≤ e))
      ⊎ ((until_end o t ≡ none) × ((e : ℕ) × (o ≡ some e) × (e < t)))
unfolding until_end
until_end_cases none t = inl (refl, λ e k. absurd cc)
until_end_cases (some d) t = elim (dec_lt d t) [
  | yes l ↦ inr (ground arith, (d, refl, l))
  | no l ↦ inl (ground arith, λ e k. ground arith)
]

-- Let an entry get a new schedule whose first run, of computeInitialSchedulerNextRun, is `n`. Then
-- holdSchedulerModeSwitch returns the earliest instant that is neither before `n` nor before the run that
-- the old entry awaits in the pattern or interval mode, when that is within the new end date, and no run
-- when no such instant is within it.
pub hold_scheduler_mode_switch-IsHeld :
    (existing changed : SchedulerEntry) (now n : ℕ)
    → compute_initial_scheduler_next_run changed now ≡ ok (some n)
    → ((t : ℕ) × (hold_scheduler_mode_switch existing n changed.end_date ≡ some t)
        × IsHeld existing changed n t)
      ⊎ ((hold_scheduler_mode_switch existing n changed.end_date ≡ none)
          × ((t : ℕ) → ¬ IsHeld existing changed n t))
hold_scheduler_mode_switch-IsHeld existing changed now n start =
    elim (held_cases existing n changed.end_date) [
      | inr (k, e) ↦
          let (starts, within) = compute_initial_scheduler_next_run-Starts changed now n start in
          inl (
            n,
            e,
            record {
              first = omega arith;
              planned = λ p a. absurd (k p a);
              least = λ u h f. h;
              within = within;
            },
          )
      | inl (p, a, e) ↦ awaited p a e
    ]
  where
    awaited :
        (p : ℕ)
        → Awaits existing p
        → hold_scheduler_mode_switch existing n changed.end_date
          ≡ until_end changed.end_date (max n p)
        → ((t : ℕ) × (hold_scheduler_mode_switch existing n changed.end_date ≡ some t)
            × IsHeld existing changed n t)
          ⊎ ((hold_scheduler_mode_switch existing n changed.end_date ≡ none)
              × ((t : ℕ) → ¬ IsHeld existing changed n t))
    awaited p a e =
        let (after_n, after_p, one) = max_cases n p in
        elim (until_end_cases changed.end_date (max n p)) [
          | inl (u, w) ↦ inl (
            max n p,
            e ∙ u,
            record {
              first = after_n;
              planned = λ r b. let same = sym (b.next_run) ∙ a.next_run in ground (arith, same);
              least = λ u h f. let g = f p a in ground arith;
              within = w;
            },
          )
          | inr (u, v) ↦
              let (d, q, l) = v in
              inr (
                e ∙ u,
                λ t h.
                    let i = h.within d q in
                    let j = h.first in let k = h.planned p a in absurd (ground arith),
              )
        ]
