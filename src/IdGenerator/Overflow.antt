-- ===== src/IdGenerator/Overflow.antt =====
-- What the generator does once its random part has overflowed within a millisecond.
use Prim.Native.Nat.{bit_or}
use archerdb.Base.{ℕ, ◌+◌, ◌*◌, ◌/◌, ◌%◌, ◌^◌, ◌≤◌, ◌<◌, ◌≡◌, arith}
use archerdb.Base.Bits.{bit_or_shifted, bit_or-one}
use archerdb.IdGenerator.{Generator, issued, random_overflow, generate}
use archerdb.IdGenerator.Order.{current}

-- the id that is composed from a random part of 2 ^ 80 + 1
compose_overflowed :
    (k t : ℕ) → 1 < 2 ^ k → bit_or (t * 2 ^ k) (2 ^ k + 1) ≡ (t / 2 * 2 + 1) * 2 ^ k + 1
compose_overflowed k t h = ground (arith, bit_or_shifted k t 1 1, bit_or-one t)

-- If the random part is one short of its bound and the clock does not pass the last millisecond,
-- a call raises; but the call after it raises nothing, and in an odd millisecond issues an id that
-- is smaller than the last one issued.
pub overflow_then_smaller :
    (time_ns random time_ns' random' : ℕ) (g : Generator)
    → g.last_random + 1 ≡ 2 ^ 80
    → g.last_time_ms % 2 ≡ 1
    → time_ns / 1_000_000 ≤ g.last_time_ms
    → time_ns' / 1_000_000 ≤ g.last_time_ms
    → let (g', outcome) = generate time_ns random g in
      (outcome ≡ random_overflow)
      × ((id : ℕ) × ((generate time_ns' random' g').1 ≡ issued id) × (id < current g))
unfolding generate
overflow_then_smaller time_ns random time_ns' random' g full odd h h' = (
  ground arith,
  (
    g.last_time_ms * 2 ^ 80 + 1,
    ground (arith, compose_overflowed 80 g.last_time_ms (omega arith)),
    omega arith,
  ),
)
