-- ===== src/IdGenerator/Order.antt =====
-- Ids grow from call to call, and carry their millisecond.
use archerdb.Base.{
  ℕ, ◌+◌, ◌*◌, ◌/◌, ◌^◌, ◌≤◌, ◌<◌, ◌≡◌, refl, ◌⊎◌, inl, inr, max, List, [], ◌∷◌, All, arith,
}
use Prim.Native.Nat.{bit_or}
use archerdb.Base.Bits.{bit_or_shifted, bit_or-zero}
use archerdb.IdGenerator.{Generator, Outcome, issued, random_overflow, advance, emit, generate}

-- The random part fits its 80 bits.
abbrev pub Fits : Generator → Type 0
Fits g = g.last_random < 2 ^ 80

-- the id that the generator has issued last, or would have
abbrev pub current : Generator → ℕ
current g = g.last_time_ms * 2 ^ 80 + g.last_random

-- What a call that issued `id` has done to the generator `g`, now `g'`.
pub record Issued (g g' : Generator) (id : ℕ) : Type 0 where
  pub grows : current g < id
  pub is_current : id ≡ current g'
  pub fits : Fits g'
  pub time_kept : g.last_time_ms ≤ g'.last_time_ms

-- the id that `emit` composes, as a sum
compose : (k t r : ℕ) → r < 2 ^ k → bit_or (t * 2 ^ k) r ≡ t * 2 ^ k + r
compose k t r fits = ground (arith, bit_or_shifted k t 0 r, bit_or-zero t)

-- While the random part fits, `emit` issues the next number or finds the overflow.
pub emit-Issued :
    (g : Generator) (id : ℕ) → Fits g → (emit g).1 ≡ issued id → Issued g (emit g).0 id
unfolding emit
emit-Issued g id fits e = ground (arith, compose 80 g.last_time_ms (g.last_random + 1))

advance_lem :
    (time_ns random : ℕ) (g : Generator)
    → random < 2 ^ 80
    → Fits g
    → Fits (advance time_ns random g)
      × (current g ≤ current (advance time_ns random g))
      × (g.last_time_ms ≤ (advance time_ns random g).last_time_ms)
unfolding advance
advance_lem time_ns random g r fits = ground arith

-- If the generator's random part and the fresh one fit 80 bits, an id that a call issues is larger
-- than the last one and is the generator's new last id; the random part goes on fitting 80 bits, and
-- the millisecond does not go back, whatever the clock does.
pub generate-Issued :
    (time_ns random : ℕ) (g : Generator) (id : ℕ)
    → random < 2 ^ 80
    → Fits g
    → (generate time_ns random g).1 ≡ issued id
    → Issued g (generate time_ns random g).0 id
unfolding generate
generate-Issued time_ns random g id r fits e =
    let g' = advance time_ns random g in
    let (fits', le, time) = advance_lem time_ns random g r fits in
    let k = emit-Issued g' id fits' e in
    record {
      grows = omega (arith, k.grows, le);
      is_current = k.is_current;
      fits = k.fits;
      time_kept = omega (arith, k.time_kept, time);
    }

-- the readings of one call: the clock, and the random bytes
pub record Reading : Type 0 where
  pub time_ns : ℕ
  pub random : ℕ

-- the ids that a sequence of calls issues, up to the first overflow
pub ids : List Reading → Generator → List ℕ
ids [] g = []
ids (r ∷ readings) g =
    let (g', outcome) = generate r.time_ns r.random g in
    let rest = ids readings g' in elim outcome [ issued id ↦ id ∷ rest | random_overflow ↦ [] ]

-- The list is strictly increasing, from above a bound.
abbrev pub IncreasingFrom : ℕ → List ℕ → Type 0
IncreasingFrom bound [] = Unit
IncreasingFrom bound (id ∷ rest) = (bound < id) × IncreasingFrom id rest

Outcome-cases : (o : Outcome) → (o ≡ random_overflow) ⊎ ((id : ℕ) × (o ≡ issued id))
Outcome-cases (issued id) = inr (id, refl)
Outcome-cases random_overflow = inl refl

-- The ids that a sequence of calls issues before an overflow are strictly increasing and larger
-- than the last id before, whatever the clock reads, if the random bytes fit 80 bits.
pub ids_increasing :
    (readings : List Reading) (g : Generator)
    → All (λ r. r.random < 2 ^ 80) readings
    → Fits g
    → IncreasingFrom (current g) (ids readings g)
unfolding ids
ids_increasing [] g r fits = tt
ids_increasing (x ∷ readings) g r fits = elim (Outcome-cases (generate x.time_ns x.random g).1) [
  | inl overflow ↦ rw (overflow, ids) tt
  | inr (id, ok) ↦
      let k = generate-Issued x.time_ns x.random g id r.0 fits ok in
      rw (ok, ids)
        (
          k.grows,
          rw k.is_current (ids_increasing readings (generate x.time_ns x.random g).0 r.1 k.fits),
        )
]

last_time_ms-generate :
    (time_ns random : ℕ) (g : Generator)
    → (generate time_ns random g).0.last_time_ms ≡ max g.last_time_ms (time_ns / 1_000_000)
unfolding generate
last_time_ms-generate time_ns random g = ground arith

-- The millisecond of an issued id is its quotient by 2 ^ 80: ids sort by time.
pub id_millisecond :
    (time_ns random : ℕ) (g : Generator) (id : ℕ)
    → random < 2 ^ 80
    → Fits g
    → (generate time_ns random g).1 ≡ issued id
    → id / 2 ^ 80 ≡ max g.last_time_ms (time_ns / 1_000_000)
id_millisecond time_ns random g id r fits e =
    let k = generate-Issued time_ns random g id r fits e in
    omega (arith, k.is_current, k.fits, last_time_ms-generate time_ns random g)
