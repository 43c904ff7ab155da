-- ===== src/Wire/Cluster.antt =====
-- The parsing of a cluster's topology (src/clients/python/src/archerdb/types.py,
-- `TopologyResponse.from_bytes`).
use Prim.Native.Nat.{bit_or}
use archerdb.Base.{
  ℕ, zero, suc, ◌+◌, ◌*◌, ◌-◌, ◌/◌, ◌%◌, ◌^◌, min, List, [], ◌∷◌, Result, ok, err, and_then, length,
  ltb, leb, ◌==◌, slice, if◌then◌else◌,
}
use archerdb.Base.Int.{ℤ, pos, sub_ℕ}
use archerdb.Wire.{WireError, value_error, unpack, byte_at}
use archerdb.Wire.Shard.{shard_from_bytes}
use archerdb.Topology.{ShardInfo, TopologyResponse}

abbrev pub topology_header_size : ℕ
topology_header_size = 56

-- `shard_header_size + shard_padding + 8 + 8`
abbrev pub shard_info_size : ℕ
shard_info_size = let header = 4 + 64 + 6 * 64 + 1 + 1 in header + (8 - header % 8) % 8 + 8 + 8

-- `(hi << 64) | lo`
abbrev pub joined : ℕ → ℕ → ℕ
joined lo hi = bit_or (hi * 2 ^ 64) lo

-- a negative number where the top bit of the high half is set
abbrev pub signed : ℕ → ℕ → ℤ
signed lo hi = if hi / 2 ^ 63 % 2 == 1 then sub_ℕ (joined lo hi) (2 ^ 128) else pos (joined lo hi)

-- the loop over the slots, from slot `i` on
unfoldable pub read_shards : ℕ → List ℕ → ℕ → Result WireError (List ShardInfo)
read_shards zero bytes i = ok []
read_shards (suc n) bytes i =
    let start = topology_header_size + i * shard_info_size in
    let rest = read_shards n bytes (i + 1) in
    if leb (start + shard_info_size) (length bytes)
    then and_then (shard_from_bytes (slice bytes start (start + shard_info_size)))
        (λ shard. and_then rest (λ shards. ok (shard ∷ shards)))
    else rest

abbrev pub shard_slots : List ℕ → ℕ
shard_slots bytes = (length bytes - topology_header_size) / shard_info_size

unfoldable pub topology_fields : List ℕ → Result WireError TopologyResponse
unfolding unpack byte_at read_shards
topology_fields bytes = and_then (unpack 8 (slice bytes 0 8)) (λ version.
    and_then (unpack 4 (slice bytes 8 12)) (λ num_shards.
      and_then (unpack 8 (slice bytes 12 20)) (λ cluster_id_lo.
        and_then (unpack 8 (slice bytes 20 28)) (λ cluster_id_hi.
          and_then (unpack 8 (slice bytes 28 36)) (λ last_change_lo.
            and_then (unpack 8 (slice bytes 36 44)) (λ last_change_hi.
              and_then (byte_at bytes 44) (λ resharding_status.
                and_then (byte_at bytes 45) (λ flags.
                  if shard_slots bytes == 0
                  then err value_error
                  else and_then (read_shards (min num_shards (shard_slots bytes)) bytes 0)
                      (λ shards. ok (record {
                        version = version;
                        cluster_id = joined cluster_id_lo cluster_id_hi;
                        num_shards = num_shards;
                        resharding_status = resharding_status;
                        flags = flags;
                        shards = shards;
                        last_change_ns = signed last_change_lo last_change_hi;
                      }))))))))))

-- `TopologyResponse.from_bytes`
unfoldable pub topology_from_bytes : List ℕ → Result WireError TopologyResponse
unfolding topology_fields
topology_from_bytes bytes =
    if ltb (length bytes) topology_header_size then err value_error else topology_fields bytes
