-- ===== src/Scores/Delays.antt =====
-- The delays that nextReconnectDelay of src/utils.ts gives one after another.
use native.Mathlib.Nat.{pow-suc}
use glide_mq.Common.{ℕ, zero, suc, ◌*◌, ◌^◌, ◌≤◌, ◌≡◌, ◌∙◌, arith, ap}
use glide_mq.Scores.{min, next_reconnect_delay}

-- The delay after `n` failed attempts.
unfoldable pub delay_after : ℕ → ℕ → ℕ
unfolding next_reconnect_delay
delay_after max_ms zero = 0
delay_after max_ms (suc n) = next_reconnect_delay (delay_after max_ms n) max_ms

doubled :
    (m max_ms : ℕ)
    → 1000 ≤ m
    → 1000 ≤ max_ms
    → next_reconnect_delay (min m max_ms) max_ms ≡ min (m * 2) max_ms
unfolding next_reconnect_delay
doubled m max_ms h k = ground arith

power_bound : (n : ℕ) → 1000 ≤ 1000 * 2 ^ n
power_bound zero = omega arith
power_bound (suc n) = omega (arith, power_bound n, pow-suc 2 n)

-- The delays are 1000, 2000, 4000 and so on, cut at the maximum, when that is at least 1000.
pub next_reconnect_delay-doubles :
    (max_ms n : ℕ) → 1000 ≤ max_ms → delay_after max_ms (suc n) ≡ min (1000 * 2 ^ n) max_ms
unfolding delay_after next_reconnect_delay
next_reconnect_delay-doubles max_ms zero h = ground arith
next_reconnect_delay-doubles max_ms (suc n) h =
    ap (λ d. next_reconnect_delay d max_ms) (next_reconnect_delay-doubles max_ms n h)
    ∙ doubled (1000 * 2 ^ n) max_ms (power_bound n) h
    ∙ ap (λ m. min m max_ms) (omega (arith, pow-suc 2 n))
