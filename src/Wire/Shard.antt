-- ===== src/Wire/Shard.antt =====
-- The parsing of a shard's description (src/clients/python/src/archerdb/types.py,
-- `ShardInfo.from_bytes`).
use archerdb.Base.{
  ℕ, zero, suc, ◌+◌, ◌*◌, ◌-◌, ◌%◌, List, [], ◌∷◌, Result, ok, err, and_then, length, ltb, ◌==◌,
  slice, take, if◌then◌else◌,
}
use archerdb.Wire.{WireError, value_error, unpack, byte_at, until_zero, decode}
use archerdb.Topology.{
  ShardStatus, active, syncing, unavailable, migrating, decommissioning, ShardInfo,
}

abbrev pub max_address_len : ℕ
max_address_len = 64

abbrev pub max_replicas_per_shard : ℕ
max_replicas_per_shard = 6

abbrev pub min_size : ℕ
min_size = 4 + max_address_len + max_replicas_per_shard * max_address_len + 1 + 1 + 8 + 8

-- `ShardStatus(status)`
abbrev pub shard_status : ℕ → Result WireError ShardStatus
shard_status code =
    if code == 0
    then ok active
    else if code == 1
    then ok syncing
    else if code == 2
    then ok unavailable
    else if code == 3
    then ok migrating
    else if code == 4
    then ok decommissioning
    else err value_error

-- `data[offset:offset + MAX_ADDRESS_LEN].split(b'\x00')[0].decode('utf-8')`
unfoldable pub address_at : List ℕ → ℕ → Result WireError (List ℕ)
unfolding decode
address_at bytes offset = decode (until_zero (slice bytes offset (offset + max_address_len)))

-- `if replica: replicas.append(replica)`
abbrev pub with_replica : List ℕ → List (List ℕ) → List (List ℕ)
with_replica [] replicas = replicas
with_replica (c ∷ cs) replicas = (c ∷ cs) ∷ replicas

unfoldable pub read_replicas : ℕ → List ℕ → ℕ → Result WireError (List (List ℕ))
unfolding address_at
read_replicas zero bytes offset = ok []
read_replicas (suc n) bytes offset = and_then (address_at bytes offset) (λ replica.
    and_then (read_replicas n bytes (offset + max_address_len))
      (λ rest. ok (with_replica replica rest)))

-- the offsets behind the replicas: the count, the status and, aligned to 8, the two numbers
abbrev pub count_offset : ℕ
count_offset = 4 + max_address_len + max_replicas_per_shard * max_address_len

abbrev pub numbers_offset : ℕ
numbers_offset = count_offset + 2 + (8 - (count_offset + 2) % 8) % 8

abbrev pub counted_replicas : ℕ → List (List ℕ) → List (List ℕ)
counted_replicas replica_count replicas =
    if ltb replica_count (length replicas) then take replica_count replicas else replicas

unfoldable pub shard_fields : List ℕ → Result WireError ShardInfo
unfolding unpack byte_at read_replicas
shard_fields bytes = and_then (unpack 4 (slice bytes 0 4)) (λ shard_id.
    and_then (address_at bytes 4) (λ primary.
      and_then (read_replicas max_replicas_per_shard bytes (4 + max_address_len)) (λ replicas.
        and_then (byte_at bytes count_offset) (λ replica_count.
          and_then (byte_at bytes (count_offset + 1)) (λ status.
            and_then (unpack 8 (slice bytes numbers_offset (numbers_offset + 8))) (λ entity_count.
              and_then (unpack 8 (slice bytes (numbers_offset + 8) (numbers_offset + 16)))
                (λ size_bytes. and_then (shard_status status) (λ known. ok (record {
                  id = shard_id;
                  primary = primary;
                  replicas = counted_replicas replica_count replicas;
                  status = known;
                  entity_count = entity_count;
                  size_bytes = size_bytes;
                })))))))))

-- `ShardInfo.from_bytes`
unfoldable pub shard_from_bytes : List ℕ → Result WireError ShardInfo
unfolding shard_fields
shard_from_bytes bytes = if ltb (length bytes) min_size then err value_error else shard_fields bytes
