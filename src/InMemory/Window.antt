-- ===== src/InMemory/Window.antt =====
-- The rate window of acquireRateSlot in src/testing.ts over a run of calls.
use glide_mq.Common.{
  ℕ, zero, suc, ◌+◌, ◌-◌, ◌<◌, ◌≤◌, ◌≡◌, refl, sym, ◌∙◌, ap, List, [], ◌∷◌, some, leb, ◌==◌, arith,
  take, All, if◌then◌else◌, dec_lt, All-map,
}
use glide_mq.InMemory.Worker.{RateLimiter, TestWorker, window_slot, limiter_slot, acquire_rate_slot}

abbrev granted : ℕ → ℕ → List ℕ → List ℕ
granted wait now later = if wait == 0 then now ∷ later else later

-- The instants, of those at which a worker asks for a rate slot, at which it need not wait.
unfoldable pub grants : TestWorker → List ℕ → List ℕ
unfolding acquire_rate_slot
grants w [] = []
grants w (now ∷ nows) =
    let (wait, w') = acquire_rate_slot w now in granted wait now (grants w' nows)

-- The instants that are not before `limit`.
unfoldable pub from_on : ℕ → List ℕ → List ℕ
from_on limit [] = []
from_on limit (now ∷ nows) =
    let later = from_on limit nows in if leb limit now then now ∷ later else later

module _ (w : TestWorker) (l : RateLimiter) (e : w.limiter ≡ some l) (now : ℕ) where
  -- A call before the end of a manual limit.
  limited : now < w.rate_limit_until → acquire_rate_slot w now ≡ (w.rate_limit_until - now, w)
  unfolding acquire_rate_slot
  limited h = ground arith

  -- A call after the window is over.
  opened :
      w.rate_limit_until ≤ now
      → 0 < l.max
      → w.rate_window_start + l.duration ≤ now
      → acquire_rate_slot w now ≡ (0, record w { rate_window_start = now; rate_window_count = 1 })
  unfolding acquire_rate_slot limiter_slot window_slot
  opened h m o = rw e (ground arith)

  -- A call in an open window that is not full.
  counted :
      w.rate_limit_until ≤ now
      → w.rate_window_count < l.max
      → now < w.rate_window_start + l.duration
      → acquire_rate_slot w now ≡ (0, record w { rate_window_count = suc w.rate_window_count })
  unfolding acquire_rate_slot limiter_slot window_slot
  counted h m o = rw e (ground arith)

  -- A call in a full window.
  filled :
      w.rate_limit_until ≤ now
      → 0 < l.max
      → l.max ≤ w.rate_window_count
      → now < w.rate_window_start + l.duration
      → acquire_rate_slot w now ≡ (w.rate_window_start + l.duration - now, w)
  unfolding acquire_rate_slot limiter_slot window_slot
  filled h p m o = rw e (ground arith)

granted-suc : (wait now : ℕ) (later : List ℕ) → 0 < wait → granted wait now later ≡ later
granted-suc wait now later h = ground arith

step_to :
    (w w' : TestWorker) (now wait : ℕ) (nows : List ℕ)
    → acquire_rate_slot w now ≡ (wait, w')
    → grants w (now ∷ nows) ≡ granted wait now (grants w' nows)
unfolding grants
step_to w w' now wait nows e = ap (λ (d : ℕ × TestWorker). granted d.0 now (grants d.1 nows)) e

from_on-take :
    (limit now k : ℕ) (nows : List ℕ)
    → limit ≤ now
    → take (suc k) (from_on limit (now ∷ nows)) ≡ now ∷ take k (from_on limit nows)
unfolding from_on
from_on-take limit now k nows h = let r = from_on limit nows in ground arith

from_on-skip :
    (limit now : ℕ) (nows : List ℕ) → now < limit → from_on limit (now ∷ nows) ≡ from_on limit nows
unfolding from_on
from_on-skip limit now nows h = ground arith

-- In an open window the calls take the dispatches that are left.
open_window :
    (left : ℕ) (l : RateLimiter) (nows : List ℕ) (w : TestWorker)
    → w.limiter ≡ some l
    → 0 < l.max
    → w.rate_window_count + left ≡ l.max
    → All (λ t. t < w.rate_window_start + l.duration) nows
    → grants w nows ≡ take left (from_on w.rate_limit_until nows)
unfolding grants from_on
open_window zero l [] w e m c a = refl
open_window (suc left) l [] w e m c a = refl
open_window zero l (now ∷ nows) w e m c (b, a) = elim (dec_lt now w.rate_limit_until) [
  | yes h ↦
      step_to w w now _ nows (limited w l e now h)
      ∙ granted-suc (w.rate_limit_until - now) now (grants w nows) (omega arith)
      ∙ open_window zero l nows w e m c a
  | no h ↦
      step_to w w now _ nows (filled w l e now (omega arith) m (omega arith) b)
      ∙ granted-suc (w.rate_window_start + l.duration - now) now (grants w nows) (omega arith)
      ∙ open_window zero l nows w e m c a
]
open_window (suc k) l (now ∷ nows) w e m c (b, a) = elim (dec_lt now w.rate_limit_until) [
  | yes h ↦
      step_to w w now _ nows (limited w l e now h)
      ∙ granted-suc (w.rate_limit_until - now) now (grants w nows) (omega arith)
      ∙ open_window (suc k) l nows w e m c a
      ∙ ap (take (suc k)) (sym (from_on-skip w.rate_limit_until now nows h))
  | no h ↦
      step_to w _ now 0 nows (counted w l e now (omega arith) (omega arith) b)
      ∙ ap (λ r. now ∷ r)
          (open_window k l nows (record w { rate_window_count = suc w.rate_window_count }) e m
            (omega arith) a)
      ∙ sym (from_on-take w.rate_limit_until now k nows (omega arith))
]

take-nil : (n : ℕ) → ◌≡◌ {A = List ℕ} (take n []) []
take-nil zero = refl
take-nil (suc n) = refl

-- Let the window of a worker with a limiter, whose maximum is above 0, be over at `t0`, and let the worker ask
-- for a slot at instants, in any order, from `t0` to less than the duration of a window after it. The instants
-- at which it need not wait are the first so many as the maximum of those that are not before the end of
-- the manual rate limit.
pub grants-take :
    (w : TestWorker) (l : RateLimiter) (t0 : ℕ) (nows : List ℕ)
    → w.limiter ≡ some l
    → 0 < l.max
    → w.rate_window_start + l.duration ≤ t0
    → All (λ t. (t0 ≤ t) × (t < t0 + l.duration)) nows
    → grants w nows ≡ take l.max (from_on w.rate_limit_until nows)
unfolding grants from_on
grants-take w l t0 [] e m o a = sym (take-nil l.max)
grants-take w l t0 (now ∷ nows) e m o (b, a) = elim (dec_lt now w.rate_limit_until) [
  | yes h ↦
      step_to w w now _ nows (limited w l e now h)
      ∙ granted-suc (w.rate_limit_until - now) now (grants w nows) (omega arith)
      ∙ grants-take w l t0 nows e m o a
      ∙ ap (take l.max) (sym (from_on-skip w.rate_limit_until now nows h))
  | no h ↦
      let w' = record w { rate_window_start = now; rate_window_count = 1 } in
      let one : suc (l.max - 1) ≡ l.max = omega arith in
      step_to w w' now 0 nows (opened w l e now (omega arith) m (omega (arith, b.0)))
      ∙ ap (λ r. now ∷ r)
          (open_window (l.max - 1) l nows w' e m (omega arith)
            (All-map nows (λ t k. omega (arith, k.1, b.0)) a))
      ∙ sym (from_on-take w.rate_limit_until now (l.max - 1) nows (omega arith))
      ∙ ap (λ k. take k (from_on w.rate_limit_until (now ∷ nows))) one
]
