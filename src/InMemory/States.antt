-- ===== src/InMemory/States.antt =====
-- The job states of src/testing.ts, one against the other.
use glide_mq.Common.{◌≡◌, ◌||◌, refl, true, false, arith}
use glide_mq.InMemory.Jobs.{
  JobState, waiting, prioritized, active, completed, failed, delayed, suspended, waiting_children,
  is_active, is_failed, is_completed, is_waiting, is_prioritized, is_queued, is_delayed,
}

-- A state in which the queue holds a job, by the dispatch queue or a timer, is neither active nor failed.
pub queued_apart :
    (s : JobState) → is_queued s ≡ true → (is_delayed s ≡ false) × (is_active s ≡ false)
unfolding is_queued is_delayed is_active
queued_apart waiting h = (refl, refl)
queued_apart prioritized h = (refl, refl)
queued_apart active h = absurd (ground (arith, h))
queued_apart completed h = absurd (ground (arith, h))
queued_apart failed h = absurd (ground (arith, h))
queued_apart delayed h = absurd (ground (arith, h))
queued_apart suspended h = absurd (ground (arith, h))
queued_apart waiting_children h = absurd (ground (arith, h))

pub active_apart :
    (s : JobState) → is_active s ≡ true → (is_queued s ≡ false) × (is_delayed s ≡ false)
unfolding is_queued is_delayed is_active
active_apart active h = (refl, refl)
active_apart waiting h = absurd (ground (arith, h))
active_apart prioritized h = absurd (ground (arith, h))
active_apart completed h = absurd (ground (arith, h))
active_apart failed h = absurd (ground (arith, h))
active_apart delayed h = absurd (ground (arith, h))
active_apart suspended h = absurd (ground (arith, h))
active_apart waiting_children h = absurd (ground (arith, h))

pub failed_apart :
    (s : JobState) → is_failed s ≡ true → (is_queued s ≡ false) × (is_delayed s ≡ false)
unfolding is_queued is_delayed is_failed
failed_apart failed h = (refl, refl)
failed_apart waiting h = absurd (ground (arith, h))
failed_apart prioritized h = absurd (ground (arith, h))
failed_apart active h = absurd (ground (arith, h))
failed_apart completed h = absurd (ground (arith, h))
failed_apart delayed h = absurd (ground (arith, h))
failed_apart suspended h = absurd (ground (arith, h))
failed_apart waiting_children h = absurd (ground (arith, h))

pub completed_apart :
    (s : JobState) → is_completed s ≡ true → (is_queued s ≡ false) × (is_delayed s ≡ false)
unfolding is_queued is_delayed is_completed
completed_apart completed h = (refl, refl)
completed_apart waiting h = absurd (ground (arith, h))
completed_apart prioritized h = absurd (ground (arith, h))
completed_apart active h = absurd (ground (arith, h))
completed_apart failed h = absurd (ground (arith, h))
completed_apart delayed h = absurd (ground (arith, h))
completed_apart suspended h = absurd (ground (arith, h))
completed_apart waiting_children h = absurd (ground (arith, h))

-- The dispatch queue holds jobs in two states.
pub queued_prioritized :
    (s : JobState) → is_queued s ≡ true → is_waiting s ≡ false → is_prioritized s ≡ true
unfolding is_queued is_waiting is_prioritized
queued_prioritized prioritized h k = refl
queued_prioritized waiting h k = absurd (ground (arith, k))
queued_prioritized active h k = absurd (ground (arith, h))
queued_prioritized completed h k = absurd (ground (arith, h))
queued_prioritized failed h k = absurd (ground (arith, h))
queued_prioritized delayed h k = absurd (ground (arith, h))
queued_prioritized suspended h k = absurd (ground (arith, h))
queued_prioritized waiting_children h k = absurd (ground (arith, h))

pub prioritized_queued :
    (s : JobState) → is_prioritized s ≡ true → (is_queued s ≡ true) × (is_delayed s ≡ false)
unfolding is_prioritized is_queued is_delayed
prioritized_queued waiting h = absurd (ground (arith, h))
prioritized_queued prioritized h = (refl, refl)
prioritized_queued active h = absurd (ground (arith, h))
prioritized_queued completed h = absurd (ground (arith, h))
prioritized_queued failed h = absurd (ground (arith, h))
prioritized_queued delayed h = absurd (ground (arith, h))
prioritized_queued suspended h = absurd (ground (arith, h))
prioritized_queued waiting_children h = absurd (ground (arith, h))

pub queued_waiting :
    (s : JobState) → is_queued s ≡ true → is_prioritized s ≡ false → is_waiting s ≡ true
unfolding is_prioritized is_queued is_waiting
queued_waiting waiting h k = refl
queued_waiting prioritized h k = absurd (ground (arith, k))
queued_waiting active h k = absurd (ground (arith, h))
queued_waiting completed h k = absurd (ground (arith, h))
queued_waiting failed h k = absurd (ground (arith, h))
queued_waiting delayed h k = absurd (ground (arith, h))
queued_waiting suspended h k = absurd (ground (arith, h))
queued_waiting waiting_children h k = absurd (ground (arith, h))

pub held_inactive : (s : JobState) → (is_queued s || is_delayed s) ≡ true → is_active s ≡ false
unfolding is_queued is_delayed is_active
held_inactive waiting h = refl
held_inactive prioritized h = refl
held_inactive delayed h = refl
held_inactive active h = absurd (ground (arith, h))
held_inactive completed h = refl
held_inactive failed h = refl
held_inactive suspended h = refl
held_inactive waiting_children h = refl

pub failed_inactive : (s : JobState) → is_failed s ≡ true → is_active s ≡ false
unfolding is_failed is_active
failed_inactive failed h = refl
failed_inactive active h = absurd (ground (arith, h))
failed_inactive waiting h = refl
failed_inactive prioritized h = refl
failed_inactive completed h = refl
failed_inactive delayed h = refl
failed_inactive suspended h = refl
failed_inactive waiting_children h = refl

pub waiting_apart :
    (s : JobState) → is_waiting s ≡ true → (is_queued s ≡ true) × (is_prioritized s ≡ false)
unfolding is_waiting is_queued is_prioritized
waiting_apart waiting h = (refl, refl)
waiting_apart prioritized h = absurd (ground (arith, h))
waiting_apart active h = absurd (ground (arith, h))
waiting_apart completed h = absurd (ground (arith, h))
waiting_apart failed h = absurd (ground (arith, h))
waiting_apart delayed h = absurd (ground (arith, h))
waiting_apart suspended h = absurd (ground (arith, h))
waiting_apart waiting_children h = absurd (ground (arith, h))
