-- ===== src/IdGenerator/Tests.antt =====
-- Tests of the id generator, and its theorems at concrete generators.
use archerdb.Base.{◌+◌, ◌-◌, ◌*◌, ◌^◌, ◌≡◌, refl, List, [], ◌∷◌, arith}
use archerdb.IdGenerator.{Generator, issued, generate}
use archerdb.IdGenerator.Order.{current, Reading, ids, IncreasingFrom, ids_increasing}

abbrev start : Generator
start = record { last_time_ms = 5; last_random = 7 }

same_millisecond : (generate 5_999_999 123 start).1 ≡ issued (5 * 2 ^ 80 + 8)
unfolding generate
same_millisecond = refl

next_millisecond : (generate 6_000_000 123 start).1 ≡ issued (6 * 2 ^ 80 + 124)
unfolding generate
next_millisecond = refl

abbrev readings : List Reading
readings =
    record { time_ns = 4_000_000; random = 1 }
    ∷ record { time_ns = 6_000_000; random = 1 }
    ∷ record { time_ns = 6_000_500; random = 1 }
    ∷ []

ids_increasing_example : IncreasingFrom (current start) (ids readings start)
ids_increasing_example =
    ids_increasing readings start (omega arith, (omega arith, (omega arith, tt))) (omega arith)

abbrev full : Generator
full = record { last_time_ms = 5; last_random = 2 ^ 80 - 1 }
