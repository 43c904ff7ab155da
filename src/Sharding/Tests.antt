-- ===== src/Sharding/Tests.antt =====
-- Tests of the hash against the vectors of the test suite, and its theorems at concrete keys. The
-- jump is computed exactly here, as a rounded-down quotient.
use archerdb.Base.{ℕ, ◌+◌, ◌*◌, ◌/◌, ◌^◌, ◌≤◌, ◌<◌, ◌≡◌, refl, ◌⊎◌, some, arith}
use native.Mathlib.Nat.{le-div_iff_mul-le}
use archerdb.Sharding.{lcg, divisor, jump_hash, compute_shard_key, get_shard_for_entity}
use archerdb.Sharding.Bounds.{Advances, get_shard_for_entity-lt}
use archerdb.Sharding.Consistency.{jump_hash-consistent}

abbrev exact_jump : ℕ → ℕ → ℕ
exact_jump b d = (b + 1) * 2 ^ 31 / d

product_mono : (a d m : ℕ) → d ≤ m → a * d ≤ a * m
product_mono a d m le = grind arith

exact_jump-Advances : Advances exact_jump
exact_jump-Advances b d big pos le =
    omega (arith, (le-div_iff_mul-le pos).1 (product_mono (b + 1) d (2 ^ 31) le))

golden :
    (jump_hash exact_jump 0 256 ≡ some 0)
    × (jump_hash exact_jump 0xDEADBEEF 8 ≡ some 5)
    × (jump_hash exact_jump 0xDEADBEEF 256 ≡ some 87)
    × (jump_hash exact_jump 0xCAFEBABE 128 ≡ some 85)
    × (jump_hash exact_jump 0xFFFFFFFFFFFFFFFF 256 ≡ some 248)
    × (jump_hash exact_jump 0xFEDCBA9876543210 16 ≡ some 10)
unfolding jump_hash divisor lcg
golden = (refl, refl, refl, refl, refl, refl)

golden_keys :
    (compute_shard_key 1 ≡ 0xB456BCFC34C2CB2C)
    × (compute_shard_key 0xDEADBEEF_CAFEBABE_12345678_9ABCDEF0 ≡ 0x683A5932FE04E714)
unfolding compute_shard_key
golden_keys = (refl, refl)

get_shard_for_entity-lt_example :
    (r : ℕ) × (get_shard_for_entity exact_jump 1 16 ≡ some r) × (r < 16)
get_shard_for_entity-lt_example =
    get_shard_for_entity-lt exact_jump exact_jump-Advances 1 16 (omega arith) (omega arith)

jump_hash-consistent_example : (◌≡◌ {A = ℕ} 16 5) ⊎ (16 ≤ 16)
unfolding jump_hash divisor lcg
jump_hash-consistent_example =
    jump_hash-consistent exact_jump exact_jump-Advances 0xDEADBEEF 16 32 {r = 5} {r' = 16}
      (omega arith) (omega arith) (omega arith) refl refl

abbrev entity : ℕ
entity = 0xDEADBEEF_CAFEBABE_12345678_9ABCDEF0

shards_8_32 :
    (get_shard_for_entity exact_jump entity 8 ≡ some 3)
    × (get_shard_for_entity exact_jump entity 32 ≡ some 15)
unfolding get_shard_for_entity divisor lcg
shards_8_32 = (refl, refl)
