-- ===== src/Cron/Order.antt =====
-- The order of wall times, and what is asked of the patterns and times of searchCronWall of src/utils.ts.
use glide_mq.Common.{ℕ, ◌≤◌, ◌<◌, ◌≡◌, ◌⊎◌, true, List, [], ◌∷◌, none, some, arith}
use glide_mq.Cron.Calendar.{Wall, days_in_month}
use glide_mq.Cron.Search.{CronField, CronPattern, has, find_above, first}

-- Strictly ascending.
abbrev pub IsAscending : List ℕ → Type 0
IsAscending [] = Unit {0}
IsAscending (x ∷ xs) = ((y : ℕ) → has y xs ≡ true → x < y) × IsAscending xs

-- A field with values from `lo` to `hi`, at least one, sorted as its set.
pub record IsField (lo hi : ℕ) (f : CronField) : Type 0 where
  pub ascending : IsAscending f.sorted
  pub same : (x : ℕ) → has x f.set ≡ has x f.sorted
  pub least : has (first f.sorted) f.sorted ≡ true
  pub bounds : (x : ℕ) → has x f.sorted ≡ true → (lo ≤ x) × (x ≤ hi)

pub record IsPattern (cron : CronPattern) : Type 0 where
  pub second : IsField 0 59 cron.second
  pub minute : IsField 0 59 cron.minute
  pub hour : IsField 0 23 cron.hour
  pub month : IsField 1 12 cron.month

pub find_above-some :
    (x y : ℕ) (ys : List ℕ)
    → IsAscending ys
    → find_above x ys ≡ some y
    → (has y ys ≡ true) × (x < y)
unfolding find_above has
find_above-some x y [] a h = absurd (ground arith)
find_above-some x y (z ∷ zs) a h = ground (arith, find_above-some x y zs a.1)

pub find_above-least :
    (x y z : ℕ) (ys : List ℕ)
    → IsAscending ys
    → find_above x ys ≡ some y
    → has z ys ≡ true
    → x < z
    → y ≤ z
unfolding find_above has
find_above-least x y z [] a h k l = absurd (ground arith)
find_above-least x y z (w ∷ ws) a h k l = ground (arith, find_above-least x y z ws a.1, a.0 z)

pub find_above-none : (x z : ℕ) (ys : List ℕ) → find_above x ys ≡ none → has z ys ≡ true → z ≤ x
unfolding find_above has
find_above-none x z [] h k = absurd (ground arith)
find_above-none x z (w ∷ ws) h k = ground (arith, find_above-none x z ws)

pub first-le : (z : ℕ) (ys : List ℕ) → IsAscending ys → has z ys ≡ true → first ys ≤ z
unfolding first has
first-le z [] a h = absurd (ground arith)
first-le z (w ∷ ws) a h = ground (arith, a.0 z)

-- A wall time that a clock can show.
pub record IsWall (w : Wall) : Type 0 where
  pub year : 1970 ≤ w.year
  pub month : (1 ≤ w.month) × (w.month ≤ 12)
  pub day : (1 ≤ w.day) × (w.day ≤ days_in_month w.year w.month)
  pub hour : w.hour < 24
  pub minute : w.minute < 60
  pub second : w.second < 60

-- The walk overshoots a field by at most one before it rolls over.
pub record IsNear (w : Wall) : Type 0 where
  pub year : 1970 ≤ w.year
  pub month : (1 ≤ w.month) × (w.month ≤ 12)
  pub day : (1 ≤ w.day) × (w.day ≤ 32)
  pub hour : w.hour ≤ 24
  pub minute : w.minute ≤ 60
  pub second : w.second ≤ 59

-- `a` before `b`, or as late with `rest`.
abbrev pub Before : ℕ → ℕ → Type 0 → Type 0
Before a b rest = (a < b) ⊎ ((a ≡ b) × rest)

-- `v` is not earlier than `w`.
abbrev pub IsLater : Wall → Wall → Type 0
IsLater w v = Before w.year v.year (
    Before w.month v.month
      (Before w.day v.day (Before w.hour v.hour (Before w.minute v.minute (w.second ≤ v.second)))))

abbrev pub IsStrictlyLater : Wall → Wall → Type 0
IsStrictlyLater w v = Before w.year v.year (
    Before w.month v.month
      (Before w.day v.day (Before w.hour v.hour (Before w.minute v.minute (w.second < v.second)))))

pub IsLater-trans : (u v w : Wall) → IsLater u v → IsLater v w → IsLater u w
IsLater-trans u v w h k = ground arith

pub days_in_month_bounds : (y m : ℕ) → (28 ≤ days_in_month y m) × (days_in_month y m ≤ 31)
unfolding days_in_month
days_in_month_bounds y m = ground arith
