-- ===== src/Retry/Delay.antt =====
-- The backoff: its schedule and its bounds.
use archerdb.Base.{ℕ, suc, ◌+◌, ◌-◌, ◌*◌, ◌/◌, ◌^◌, ◌≤◌, ◌<◌, min, ◌≡◌, ap, false, arith}
use native.Mathlib.Nat.{pow-suc}
use archerdb.Retry.{RetryConfig, calculate_retry_delay}

-- the delay before jitter
abbrev pub backoff : ℕ → RetryConfig → ℕ
backoff attempt config = min (config.base_backoff_ms * 2 ^ (attempt - 2)) config.max_backoff_ms

product_mono : (d draw m : ℕ) → draw < m → draw * d ≤ m * d
product_mono d draw m lt = grind arith

jitter_half : (d draw : ℕ) → draw < 2 ^ 53 → draw * d / 2 ^ 54 ≤ d / 2
jitter_half d draw lt = omega (arith, product_mono d draw (2 ^ 53) lt)

-- From the second attempt on the delay is at least the capped exponential backoff, and at most one
-- and a half times it, for every random draw below 1; without jitter it is the capped backoff.
pub calculate_retry_delay_bounds :
    (attempt : ℕ) (config : RetryConfig) (draw : ℕ)
    → 2 ≤ attempt
    → draw < 2 ^ 53
    → (backoff attempt config ≤ calculate_retry_delay attempt config draw)
      × (calculate_retry_delay attempt config draw
          ≤ backoff attempt config + backoff attempt config / 2)
      × (config.jitter ≡ false → calculate_retry_delay attempt config draw ≡ backoff attempt config)
unfolding calculate_retry_delay
calculate_retry_delay_bounds attempt config draw second lt =
    ground (arith, jitter_half (backoff attempt config) draw lt)

-- The backoff of a later attempt is not shorter, and it is twice as long until the cap is reached.
pub backoff-suc :
    (attempt : ℕ) (config : RetryConfig)
    → 2 ≤ attempt
    → backoff (suc attempt) config ≡ min (2 * backoff attempt config) config.max_backoff_ms
backoff-suc attempt config second =
    let more : suc attempt - 2 ≡ suc (attempt - 2) = omega arith in
    rw more (omega (arith, ap (λ (t : ℕ). config.base_backoff_ms * t) (pow-suc 2 (attempt - 2))))
