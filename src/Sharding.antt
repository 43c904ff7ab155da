-- ===== src/Sharding.antt =====
-- How an entity is assigned to a shard (src/clients/python/src/archerdb/types.py: `jump_hash`,
-- `compute_shard_key`, `get_shard_for_entity`, `ShardingStrategy`). The jump of the hash is computed
-- in floating point, `int((b + 1) * ((1 << 31) / d))`; that function of `b` and `d` is a parameter.
pub mod Bounds
pub mod Consistency
mod Tests
use Prim.Native.Nat.{bit_and, bit_xor}
use archerdb.Base.{
  ℕ, zero, suc, ◌+◌, ◌-◌, ◌*◌, ◌/◌, ◌^◌, Bool, true, false, Option, none, some, ltb, if◌then◌else◌,
}

pub data ShardingStrategy : Type 0 where
  modulo virtual_ring jump_hash_strategy : ShardingStrategy

unfoldable pub requires_power_of_two : ShardingStrategy → Bool
requires_power_of_two modulo = true
requires_power_of_two _ = false

abbrev pub mask64 : ℕ
mask64 = 2 ^ 64 - 1

-- one step of the linear congruential generator, wrapping at 64 bits
unfoldable pub lcg : ℕ → ℕ
lcg k = bit_and (k * 2862933555777941757 + 1) mask64

-- the divisor of the jump, `(k >> 33) + 1`
unfoldable pub divisor : ℕ → ℕ
divisor k = k / 2 ^ 33 + 1

module _ (next_jump : ℕ → ℕ → ℕ) where
  -- `while j < num_buckets`, on fuel; `none` means that the fuel ran out. `b` is -1 before the first
  -- round in the source; the loop runs at least once, so that value is never returned.
  unfoldable pub jump_loop : ℕ → ℕ → ℕ → ℕ → ℕ → Option ℕ
  jump_loop zero num_buckets b j k = none
  jump_loop (suc fuel) num_buckets b j k =
      let k' = lcg k in
      let rest = jump_loop fuel num_buckets j (next_jump j (divisor k')) k' in
      if ltb j num_buckets then rest else some b

  unfoldable pub jump_hash : ℕ → ℕ → Option ℕ
  unfolding jump_loop
  jump_hash key zero = some 0
  jump_hash key (suc n) = jump_loop (suc (suc n)) (suc n) 0 0 (bit_and key mask64)

-- `h ^= h >> 33`
abbrev pub xor_shift : ℕ → ℕ
xor_shift h = bit_xor h (h / 2 ^ 33)

-- the finalization mix of one half
unfoldable pub mix : ℕ → ℕ
mix h =
    let h1 = xor_shift h in
    let h2 = bit_and (h1 * 0xff51afd7ed558ccd) mask64 in
    let h3 = xor_shift h2 in let h4 = bit_and (h3 * 0xc4ceb9fe1a85ec53) mask64 in xor_shift h4

unfoldable pub compute_shard_key : ℕ → ℕ
unfolding mix
compute_shard_key entity_id =
    let lo = bit_and entity_id mask64 in
    let hi = bit_and (entity_id / 2 ^ 64) mask64 in bit_xor (mix lo) (mix hi)

unfoldable pub get_shard_for_entity : (ℕ → ℕ → ℕ) → ℕ → ℕ → Option ℕ
unfolding jump_hash compute_shard_key
get_shard_for_entity next_jump entity_id num_shards =
    jump_hash next_jump (compute_shard_key entity_id) num_shards
