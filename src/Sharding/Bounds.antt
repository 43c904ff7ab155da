-- ===== src/Sharding/Bounds.antt =====
-- Shard keys fit 64 bits, and the loop of the hash ends in range.
use Prim.Native.Nat.{bit_and}
use archerdb.Base.{
  ℕ, zero, suc, ◌+◌, ◌*◌, ◌/◌, ◌^◌, ◌≤◌, ◌<◌, ◌≡◌, some, arith, ltb, ltb→lt, Bool-cases, inl, inr,
}
use archerdb.Base.Bits.{bit_and_mask, bit_xor-lt}
use archerdb.Sharding.{
  mask64, lcg, divisor, jump_loop, jump_hash, xor_shift, mix, compute_shard_key,
  get_shard_for_entity,
}

-- What the source relies on in `int((b + 1) * ((1 << 31) / d))`: while `b` is exact in a double and
-- the divisor is at most 2 ^ 31, the quotient is at least 1, so that the jump passes `b`.
abbrev pub Advances : (ℕ → ℕ → ℕ) → Type 0
Advances next_jump = (b d : ℕ) → b < 2 ^ 53 → 0 < d → d ≤ 2 ^ 31 → b < next_jump b d

mask64-lt : (a : ℕ) → bit_and a mask64 < 2 ^ 64
mask64-lt a = rw (bit_and_mask 64 a) (omega arith)

pub divisor-lcg : (k : ℕ) → (0 < divisor (lcg k)) × (divisor (lcg k) ≤ 2 ^ 31)
unfolding divisor lcg
divisor-lcg k =
    let fits = mask64-lt (k * 2862933555777941757 + 1) in (omega arith, omega (arith, fits))

xor_shift-lt : (h : ℕ) → h < 2 ^ 64 → xor_shift h < 2 ^ 64
xor_shift-lt h lt = bit_xor-lt 64 h (h / 2 ^ 33) lt (omega arith)

mix-lt : (h : ℕ) → mix h < 2 ^ 64
unfolding mix
mix-lt h = xor_shift-lt _ (mask64-lt _)

-- A shard key is a 64-bit number, for an entity id of any size.
pub compute_shard_key-lt : (entity_id : ℕ) → compute_shard_key entity_id < 2 ^ 64
unfolding compute_shard_key
compute_shard_key-lt entity_id = bit_xor-lt 64 _ _ (mix-lt _) (mix-lt _)

module _ (next_jump : ℕ → ℕ → ℕ) (advances : Advances next_jump) where
  -- as many rounds as the numbers from `j` up to `n`, and one to end, are enough fuel
  loop_total :
      (fuel n b j k : ℕ)
      → n ≤ 2 ^ 53
      → n ≤ fuel + j
      → b < n
      → (r : ℕ) × (jump_loop next_jump (suc fuel) n b j k ≡ some r) × (r < n)
  unfolding jump_loop
  loop_total zero n b j k big enough lt = (b, ground arith, lt)
  loop_total (suc fuel) n b j k big enough lt = elim (Bool-cases (ltb j n)) [
    | inl more ↦
        let j-lt = ltb→lt j n more in
        let (pos, small) = divisor-lcg k in
        let next = advances j (divisor (lcg k)) (omega arith) pos small in
        rw more (loop_total fuel n j (next_jump j (divisor (lcg k))) (lcg k) big (omega arith) j-lt)
    | inr done ↦ (b, rw done, lt)
  ]

  -- If the floating-point jump advances, the hash ends within its fuel for every key and every
  -- positive number of buckets up to 2 ^ 53, and gives a bucket in range.
  pub jump_hash-lt :
      (key n : ℕ) → 0 < n → n ≤ 2 ^ 53 → (r : ℕ) × (jump_hash next_jump key n ≡ some r) × (r < n)
  unfolding jump_hash
  jump_hash-lt key zero pos big = absurd (omega arith)
  jump_hash-lt key (suc n) pos big =
      loop_total (suc n) (suc n) 0 0 (bit_and key mask64) big (omega arith) (omega arith)

  -- If the floating-point jump advances, every entity has a shard in range, for every positive
  -- number of shards up to 2 ^ 53.
  pub get_shard_for_entity-lt :
      (entity_id n : ℕ)
      → 0 < n
      → n ≤ 2 ^ 53
      → (r : ℕ) × (get_shard_for_entity next_jump entity_id n ≡ some r) × (r < n)
  unfolding get_shard_for_entity
  get_shard_for_entity-lt entity_id n pos big = jump_hash-lt (compute_shard_key entity_id) n pos big
