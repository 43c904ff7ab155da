-- ===== src/IdGenerator.antt =====
-- The generator of 128-bit identifiers (src/clients/python/src/archerdb/client.py,
-- `_IDGenerator`). A call takes the reading of `time.time_ns()` and the number that ten bytes of
-- `os.urandom` spell, which it uses only when the millisecond has moved on.
pub mod Order
pub mod Overflow
mod Tests
use Prim.Native.Nat.{bit_or}
use archerdb.Base.{ℕ, ◌+◌, ◌*◌, ◌/◌, ◌^◌, leb, ◌==◌, if◌then◌else◌, List, [], ◌∷◌}

pub record Generator : Type 0 where
  pub last_time_ms : ℕ
  pub last_random : ℕ

-- A call returns an id, or raises the `RuntimeError` of the overflow.
pub data Outcome : Type 0 where
  issued : ℕ → Outcome
  random_overflow : Outcome

unfoldable pub init : ℕ → ℕ → Generator
init time_ns random = record { last_time_ms = time_ns / 1_000_000; last_random = random }

-- the first half of `generate`: the millisecond and the random part that it starts from
unfoldable pub advance : ℕ → ℕ → Generator → Generator
advance time_ns random g =
    let time_ms = time_ns / 1_000_000 in
    if leb time_ms g.last_time_ms
    then g
    else record { last_time_ms = time_ms; last_random = random }

-- the second half: the increment, its overflow test, and the id
unfoldable pub emit : Generator → Generator × Outcome
emit g =
    let next = g.last_random + 1 in
    (
      record g { last_random = next },
      if next == 2 ^ 80 then random_overflow else issued (bit_or (g.last_time_ms * 2 ^ 80) next),
    )

unfoldable pub generate : ℕ → ℕ → Generator → Generator × Outcome
unfolding advance emit
generate time_ns random g = emit (advance time_ns random g)
