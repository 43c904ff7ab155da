-- ===== src/Wire/Sent.antt =====
-- The server's reply to a request for the topology (the struct in src/topology.zig,
-- `TopologyResponseCompact`, which bindings.py declares as `CTopologyResponse`), and what
-- `TopologyResponse.from_bytes` reads from it.
use Prim.Native.Nat.{bit_or, min}
use mathlib.Core.List.{append_assoc}
use archerdb.Base.{
  ℕ, zero, suc, ◌+◌, ◌*◌, ◌/◌, ◌%◌, ◌^◌, ◌≤◌, ◌<◌, ◌≡◌, refl, sym, ap, ◌∙◌, List, [], ◌∷◌, ◌++◌, ok,
  length, length-append, length-drop, leb, leb→gt, le→ltb, ◌==◌, ==_iff, slice, drop, arith, All,
  if_elim, take,
}
use archerdb.Base.Int.{pos}
use archerdb.Base.Bits.{bit_or_shifted, bit_or-zero}
use archerdb.Wire.{le_bytes, unpack, byte_at}
use archerdb.Wire.Bytes.{slice_field, zeros}
use archerdb.Wire.Shard.{shard_from_bytes}
use archerdb.Wire.Layout.{shard_bytes, IsWritable, read_then, field_behind}
use archerdb.Wire.Reading.{shard_from_bytes-shard_bytes}
use archerdb.Wire.Cluster.{
  joined, signed, read_shards, shard_slots, topology_fields, topology_from_bytes,
}
use archerdb.Topology.{ShardInfo, TopologyResponse}

-- The header: 4 bytes of padding stand before the cluster's id, which is aligned to 16 bytes.
abbrev pub header_bytes : (version num_shards cluster_id change status flags : ℕ) → List ℕ → List ℕ
header_bytes version num_shards cluster_id change status flags rest =
    le_bytes 8 version
    ++ (le_bytes 4 num_shards
        ++ (zeros 4
            ++ (le_bytes 16 cluster_id
                ++ (le_bytes 16 change ++ (status ∷ flags ∷ (zeros 6 ++ rest))))))

module _ (version num_shards cluster_id change status flags : ℕ) (rest : List ℕ)
    (version_fits : version < 256 ^ 8) (count_fits : num_shards < 256 ^ 4)
    (cluster_fits : cluster_id < 2 ^ 128) (change_fits : change < 2 ^ 63) where
  abbrev bytes : List ℕ
  bytes = header_bytes version num_shards cluster_id change status flags rest

  version_read : unpack 8 (slice bytes 0 8) ≡ ok version
  unfolding unpack
  version_read = ap ok (omega (arith, version_fits))

  count_read : unpack 4 (slice bytes 8 12) ≡ ok num_shards
  unfolding unpack
  count_read = ap ok (omega (arith, count_fits))

  id_low_read : unpack 8 (slice bytes 12 20) ≡ ok (cluster_id % 2 ^ 32 * 2 ^ 32)
  unfolding unpack
  id_low_read = ap ok (omega arith)

  id_high_read : unpack 8 (slice bytes 20 28) ≡ ok (cluster_id / 2 ^ 32 % 2 ^ 64)
  unfolding unpack
  id_high_read = ap ok (omega arith)

  change_low_read :
      unpack 8 (slice bytes 28 36) ≡ ok (cluster_id / 2 ^ 96 + change % 2 ^ 32 * 2 ^ 32)
  unfolding unpack
  change_low_read = ap ok (omega (arith, cluster_fits))

  change_high_read : unpack 8 (slice bytes 36 44) ≡ ok (change / 2 ^ 32)
  unfolding unpack
  change_high_read = ap ok (omega (arith, change_fits))

  status_read : byte_at bytes 44 ≡ ok 0
  unfolding byte_at
  status_read = ap ok (omega (arith, change_fits))

  flags_read : byte_at bytes 45 ≡ ok 0
  unfolding byte_at
  flags_read = ap ok (omega (arith, change_fits))

-- two halves of 64 bits make the number
joined_sum : (lo hi : ℕ) → lo < 2 ^ 64 → joined lo hi ≡ lo + hi * 2 ^ 64
joined_sum lo hi small =
    ap (bit_or (hi * 2 ^ 64)) (omega arith)
    ∙ bit_or_shifted 64 hi 0 lo small
    ∙ rw (bit_or-zero hi) (omega arith)

signed_sum : (lo hi : ℕ) → lo < 2 ^ 64 → hi < 2 ^ 63 → signed lo hi ≡ pos (lo + hi * 2 ^ 64)
signed_sum lo hi small positive =
    if_elim (λ z. z ≡ pos (lo + hi * 2 ^ 64)) (hi / 2 ^ 63 % 2 == 1)
      (λ set. absurd (omega (arith, positive, (==_iff (hi / 2 ^ 63 % 2) 1).0 set)))
      (λ clear. ap pos (joined_sum lo hi small))

abbrev pub shards_bytes : List ShardInfo → List ℕ
shards_bytes [] = []
shards_bytes (s ∷ shards) = shard_bytes s ++ shards_bytes shards

length-shards_bytes :
    (shards : List ShardInfo)
    → All IsWritable shards
    → length (shards_bytes shards) ≡ length shards * 472
length-shards_bytes [] good = omega arith
length-shards_bytes (s ∷ shards) good = omega (
  arith,
  length-append (shard_bytes s) (shards_bytes shards),
  (shard_from_bytes-shard_bytes s good.0).0,
  length-shards_bytes shards good.1,
)

-- the first `n` of the shards, read one after the other
read_shards_field :
    (n : ℕ) (bytes : List ℕ) (shards : List ShardInfo) (rest : List ℕ) (i : ℕ)
    → drop (56 + i * 472) bytes ≡ shards_bytes shards ++ rest
    → All IsWritable shards
    → n ≤ length shards
    → read_shards n bytes i ≡ ok (take n shards)
unfolding read_shards
read_shards_field zero bytes shards rest i at good few = refl
read_shards_field (suc n) bytes [] rest i at good few = absurd (omega arith)
read_shards_field (suc n) bytes (s ∷ shards) rest i at good few =
    let start = 56 + i * 472 in
    let (size, read) = shard_from_bytes-shard_bytes s good.0 in
    let here = at ∙ append_assoc (shard_bytes s) (shards_bytes shards) rest in
    let behind =
      field_behind start 472 (56 + (i + 1) * 472) bytes (shard_bytes s)
        (shards_bytes shards ++ rest) (omega arith) here size in
    if_elim (λ r. r ≡ ok (s ∷ take n shards)) (leb (start + 472) (length bytes))
      (λ inside.
        read_then _ s _ (
          ap shard_from_bytes
            (slice_field start 472 bytes (shard_bytes s) (shards_bytes shards ++ rest) here size)
          ∙ read)
        ∙ read_then _ (take n shards) _
            (read_shards_field n bytes shards rest (i + 1) behind good.1 (omega arith)))
      (λ outside. absurd (
        omega (
          arith,
          leb→gt (start + 472) (length bytes) outside,
          length-drop start bytes,
          ap length here,
          length-append (shard_bytes s) (shards_bytes shards ++ rest),
          size,
        )))

-- What the server has to tell: a topology that changed at a time of 63 bits, in nanoseconds, and the
-- 16 slots for shards, of which the topology has the first ones.
pub record IsTold (t : TopologyResponse) (change : ℕ) (slots : List ShardInfo) : Type 0 where
  pub version_fits : t.version < 256 ^ 8
  pub cluster_fits : t.cluster_id < 2 ^ 128
  pub changed : t.last_change_ns ≡ pos change
  pub change_fits : change < 2 ^ 63
  pub all_slots : length slots ≡ 16
  pub few_shards : t.num_shards ≤ 16
  pub shards : t.shards ≡ take t.num_shards slots
  pub slots_fit : All IsWritable slots

-- The reply, which ends in 8 bytes of padding.
unfoldable pub server_bytes : TopologyResponse → ℕ → List ShardInfo → List ℕ
server_bytes t change slots =
    header_bytes t.version t.num_shards t.cluster_id change t.resharding_status t.flags
      (shards_bytes slots ++ zeros 8)

-- The topology with another cluster's id and another time of its last change, idle and unflagged.
abbrev pub misread : TopologyResponse → ℕ → TopologyResponse
misread t change = record t {
  cluster_id = t.cluster_id * 2 ^ 32 % 2 ^ 128;
  last_change_ns = pos (t.cluster_id / 2 ^ 96 + change * 2 ^ 32);
  resharding_status = 0;
  flags = 0;
}

pub length-server_bytes :
    (t : TopologyResponse) (change : ℕ) (slots : List ShardInfo)
    → IsTold t change slots
    → length (server_bytes t change slots) ≡ 7616
unfolding server_bytes
length-server_bytes t change slots told =
    let bytes = server_bytes t change slots in
    omega (
      arith,
      length-drop 56 bytes,
      length-append (shards_bytes slots) (zeros 8),
      length-shards_bytes slots told.slots_fit,
      told.all_slots,
    )

id_read :
    (id : ℕ)
    → id < 2 ^ 128
    → joined (id % 2 ^ 32 * 2 ^ 32) (id / 2 ^ 32 % 2 ^ 64) ≡ id * 2 ^ 32 % 2 ^ 128
id_read id small =
    joined_sum (id % 2 ^ 32 * 2 ^ 32) (id / 2 ^ 32 % 2 ^ 64) (omega arith) ∙ omega arith

change_read :
    (id change : ℕ)
    → id < 2 ^ 128
    → change < 2 ^ 63
    → signed (id / 2 ^ 96 + change % 2 ^ 32 * 2 ^ 32) (change / 2 ^ 32)
      ≡ pos (id / 2 ^ 96 + change * 2 ^ 32)
change_read id change small early =
    signed_sum (id / 2 ^ 96 + change % 2 ^ 32 * 2 ^ 32) (change / 2 ^ 32) (omega (arith, small))
      (omega (arith, early))
    ∙ ap pos (omega arith)

fields_misread :
    (t : TopologyResponse) (change : ℕ) (slots : List ShardInfo)
    → IsTold t change slots
    → (bytes : List ℕ) → bytes ≡ server_bytes t change slots
    → topology_fields bytes ≡ ok (misread t change)
unfolding topology_fields server_bytes
fields_misread t change slots told bytes same =
    let rest = shards_bytes slots ++ zeros 8 in
    let size : length bytes ≡ 7616 = ap length same ∙ length-server_bytes t change slots told in
    let few : t.num_shards < 256 ^ 4 = omega (arith, told.few_shards) in
    let slot_count : shard_slots bytes ≡ 16 = omega (arith, size) in
    let version_fits = told.version_fits in
    let id_fits = told.cluster_fits in
    let change_fits = told.change_fits in
    let v = t.version in
    let n = t.num_shards in
    let id = t.cluster_id in
    let st = t.resharding_status in
    let fl = t.flags in
    read_then (unpack 8 (slice bytes 0 8)) v _ (
      ap (λ b. unpack 8 (slice b 0 8)) same
      ∙ version_read v n id change st fl rest version_fits few id_fits change_fits)
    ∙ read_then (unpack 4 (slice bytes 8 12)) n _ (
        ap (λ b. unpack 4 (slice b 8 12)) same
        ∙ count_read v n id change st fl rest version_fits few id_fits change_fits)
    ∙ read_then (unpack 8 (slice bytes 12 20)) _ _ (
        ap (λ b. unpack 8 (slice b 12 20)) same
        ∙ id_low_read v n id change st fl rest version_fits few id_fits change_fits)
    ∙ read_then (unpack 8 (slice bytes 20 28)) _ _ (
        ap (λ b. unpack 8 (slice b 20 28)) same
        ∙ id_high_read v n id change st fl rest version_fits few id_fits change_fits)
    ∙ read_then (unpack 8 (slice bytes 28 36)) _ _ (
        ap (λ b. unpack 8 (slice b 28 36)) same
        ∙ change_low_read v n id change st fl rest version_fits few id_fits change_fits)
    ∙ read_then (unpack 8 (slice bytes 36 44)) _ _ (
        ap (λ b. unpack 8 (slice b 36 44)) same
        ∙ change_high_read v n id change st fl rest version_fits few id_fits change_fits)
    ∙ read_then (byte_at bytes 44) 0 _ (
        ap (λ b. byte_at b 44) same
        ∙ status_read v n id change st fl rest version_fits few id_fits change_fits)
    ∙ read_then (byte_at bytes 45) 0 _ (
        ap (λ b. byte_at b 45) same
        ∙ flags_read v n id change st fl rest version_fits few id_fits change_fits)
    ∙ if_elim (λ r. r ≡ ok (misread t change)) (shard_slots bytes == 0)
        (λ empty. absurd (omega (arith, slot_count, (==_iff (shard_slots bytes) 0).0 empty)))
        (λ filled.
          read_then (read_shards (min n (shard_slots bytes)) bytes 0) t.shards _ (
            ap (λ k. read_shards k bytes 0) {x = min n (shard_slots bytes)} {y = n}
              (omega (arith, slot_count, told.few_shards))
            ∙ read_shards_field n bytes slots (zeros 8) 0 (ap (drop 56) same) told.slots_fit
                (omega (arith, told.few_shards, told.all_slots))
            ∙ ap ok (sym told.shards))
          ∙ ap
              (λ c. ok (record (misread t change) {
                cluster_id = c;
                last_change_ns = signed (id / 2 ^ 96 + change % 2 ^ 32 * 2 ^ 32) (change / 2 ^ 32);
              }))
              (id_read id told.cluster_fits)
          ∙ ap (λ z. ok (record (misread t change) { last_change_ns = z }))
              (change_read id change told.cluster_fits told.change_fits))

-- From the server's reply the client reads the version and the shards of the topology, but the
-- cluster's id moved by 32 bits, without its top bits, those bits as the low end of the time of the
-- last change, and 0 for the resharding status and the flags: the parser leaves out the padding
-- before the id.
pub server_bytes-misread :
    (t : TopologyResponse) (change : ℕ) (slots : List ShardInfo)
    → IsTold t change slots
    → topology_from_bytes (server_bytes t change slots) ≡ ok (misread t change)
unfolding topology_from_bytes
server_bytes-misread t change slots told =
    rw
      (le→ltb (length (server_bytes t change slots)) 56
        (omega (arith, length-server_bytes t change slots told)))
      (fields_misread t change slots told _ refl)
