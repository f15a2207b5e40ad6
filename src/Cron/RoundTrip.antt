-- ===== src/Cron/RoundTrip.antt =====
-- Wall times and instants in UTC: utcToWall and wallToNaiveUtc of src/utils.ts, one after the other.
use glide_mq.Common.{ℕ, ◌%◌, ◌≤◌, ◌≡◌, inl, inr, arith, ap, sym}
use glide_mq.Cron.Calendar.{Wall, utc_to_wall, wall_to_naive_utc}
use glide_mq.Cron.Order.{IsWall, IsLater}
use glide_mq.Cron.Instants.{
  utc_to_wall-IsWall, wall_to_naive_utc-utc_to_wall, wall_to_naive_utc-lt, whole_seconds,
  IsLater-of_instants,
}
use glide_mq.Cron.Found.{same_or_later}

-- Wall times with one instant are the same.
pub wall_injective :
    (v w : Wall) → IsWall v → IsWall w → wall_to_naive_utc v ≡ wall_to_naive_utc w → w ≡ v
wall_injective v w i j e = elim (same_or_later v w (IsLater-of_instants v w i j (omega arith))) [
  | inl q ↦ q
  | inr l ↦ absurd (omega (arith, wall_to_naive_utc-lt v w i j l))
]

pub wall_to_naive_utc-le :
    (v w : Wall) → IsWall v → IsWall w → IsLater v w → wall_to_naive_utc v ≤ wall_to_naive_utc w
wall_to_naive_utc-le v w i j h = elim (same_or_later v w h) [
  | inl q ↦ omega (arith, ap wall_to_naive_utc q)
  | inr l ↦ omega (arith, wall_to_naive_utc-lt v w i j l)
]

pub whole : (t : ℕ) → t % 1000 ≡ 0 → wall_to_naive_utc (utc_to_wall t) ≡ t
whole t h = omega (arith, wall_to_naive_utc-utc_to_wall t)

-- utcToWall takes the instant that wallToNaiveUtc gives of a calendar time from 1970 on back to that
-- time, and wallToNaiveUtc takes the wall time of a whole second back to that second.
pub utc_to_wall-wall_to_naive_utc :
    (w : Wall) (t : ℕ)
    → IsWall w
    → t % 1000 ≡ 0
    → (utc_to_wall (wall_to_naive_utc w) ≡ w) × (wall_to_naive_utc (utc_to_wall t) ≡ t)
utc_to_wall-wall_to_naive_utc w t i h = (
  wall_injective w (utc_to_wall (wall_to_naive_utc w)) i (utc_to_wall-IsWall _)
      (sym (whole (wall_to_naive_utc w) (whole_seconds w))),
  whole t h,
)
