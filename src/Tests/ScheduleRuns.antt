-- ===== src/Tests/ScheduleRuns.antt =====
-- Runs of the schedule functions of src/utils.ts.
use glide_mq.Common.{ℕ, ◌≡◌, ◌⊎◌, refl, [], some, none, ok}
use glide_mq.Schedule.{
  SchedulerEntry, compute_initial_scheduler_next_run, compute_following_scheduler_next_run,
  hold_scheduler_mode_switch,
}
use glide_mq.Schedule.Spec.{Follows, Starts, IsWithin}
use glide_mq.Schedule.Following.{compute_following_scheduler_next_run-Follows}
use glide_mq.Schedule.Initial.{compute_initial_scheduler_next_run-Starts}
use glide_mq.Schedule.Switch.{IsHeld, hold_scheduler_mode_switch-IsHeld}

abbrev each_second : SchedulerEntry
each_second = record {
  pattern = [];
  every = some 1000;
  repeat_after_complete = none;
  start_date = some 5000;
  end_date = some 20000;
  next_run = some 7000;
}

abbrev after_completion : SchedulerEntry
after_completion = record {
  pattern = [];
  every = none;
  repeat_after_complete = some 300;
  start_date = none;
  end_date = some 20000;
  next_run = none;
}

-- Two missed runs are skipped.
each_second_next : compute_following_scheduler_next_run each_second 9400 ≡ ok (some 10000)
unfolding compute_following_scheduler_next_run
each_second_next = refl

each_second_end : compute_following_scheduler_next_run each_second 20000 ≡ ok none
unfolding compute_following_scheduler_next_run
each_second_end = refl

each_second_first : compute_initial_scheduler_next_run each_second 5001 ≡ ok (some 6000)
unfolding compute_initial_scheduler_next_run
each_second_first = refl

after_completion_first : compute_initial_scheduler_next_run after_completion 6200 ≡ ok (some 6200)
unfolding compute_initial_scheduler_next_run
after_completion_first = refl

switch_held : hold_scheduler_mode_switch each_second 6200 (some 20000) ≡ some 7000
unfolding hold_scheduler_mode_switch
switch_held = refl

compute_following_scheduler_next_run-Follows_example :
    Follows each_second 9400 10000 × IsWithin each_second 10000
compute_following_scheduler_next_run-Follows_example =
    compute_following_scheduler_next_run-Follows each_second 9400 10000 each_second_next

compute_initial_scheduler_next_run-Starts_example :
    Starts each_second 5001 6000 × IsWithin each_second 6000
compute_initial_scheduler_next_run-Starts_example =
    compute_initial_scheduler_next_run-Starts each_second 5001 6000 each_second_first

hold_scheduler_mode_switch-IsHeld_example :
    ((t : ℕ) × (hold_scheduler_mode_switch each_second 6200 after_completion.end_date ≡ some t)
      × IsHeld each_second after_completion 6200 t)
    ⊎ ((hold_scheduler_mode_switch each_second 6200 after_completion.end_date ≡ none)
        × ((t : ℕ) → ¬ IsHeld each_second after_completion 6200 t))
hold_scheduler_mode_switch-IsHeld_example =
    hold_scheduler_mode_switch-IsHeld each_second after_completion 6200 6200 after_completion_first
