-- ===== src/Native/AdminTests.antt =====
-- The administrative requests at a concrete server.
use archerdb.Base.{
  ℕ, zero, suc, List, All, ◌*◌, ◌+◌, ◌^◌, ◌≡◌, refl, [], ◌∷◌, ◌++◌, ok, ◌==◌, if◌then◌else◌, arith,
}
use archerdb.Base.Int.{pos}
use archerdb.Wire.Bytes.{zeros}
use archerdb.Wire.Struct.{struct_bytes}
use archerdb.Wire.Sent.{server_bytes, IsTold}
use archerdb.Wire.Ttl.{
  TtlSetResponse, TtlExtendResponse, TtlClearResponse, success, invalid_ttl, entity_not_found,
}
use archerdb.Wire.Layout.{IsWritable, IsAddress}
use archerdb.Topology.{ShardInfo, migrating, TopologyResponse}
use archerdb.Native.Writes.{NativeSubmit}
use archerdb.Native.Layout.{answered}
use archerdb.Native.Admin.{StatusResponse, fetch_topology}
use archerdb.Native.Replies.{set_reply, extend_reply, clear_reply}
use archerdb.Native.Served.{status_reply, topology_misread}

abbrev set_response : TtlSetResponse
set_response = record {
  entity_id = 7;
  previous_ttl_seconds = 0;
  new_ttl_seconds = 3_600;
  result = success;
}

abbrev extended : TtlExtendResponse
extended = record {
  entity_id = 7;
  previous_ttl_seconds = 3_600;
  new_ttl_seconds = 3_600;
  result = invalid_ttl;
}

abbrev cleared_response : TtlClearResponse
cleared_response = record { entity_id = 7; previous_ttl_seconds = 0; result = entity_not_found }

abbrev ttl_server : NativeSubmit
ttl_server operation bytes =
    if operation == 158
    then ok (answered (set_reply set_response))
    else if operation == 159
    then ok (answered (extend_reply extended))
    else ok (answered (clear_reply cleared_response))

abbrev status : StatusResponse
status = record {
  ram_index_count = 70_000;
  ram_index_capacity = 100_000;
  ram_index_load_pct = 7_000;
  tombstone_count = 3;
  ttl_expirations = 2;
  deletion_count = 1;
}

abbrev shard : ShardInfo
shard = record {
  id = 3;
  primary = 97 ∷ 58 ∷ 49 ∷ [];
  replicas = (98 ∷ 58 ∷ 49 ∷ []) ∷ (99 ∷ []) ∷ [];
  status = migrating;
  entity_count = 70_000;
  size_bytes = 4_096;
}

primary-IsAddress : IsAddress (97 ∷ 58 ∷ 49 ∷ [])
primary-IsAddress = record {
  plain =
      ((omega arith, omega arith), ((omega arith, omega arith), ((omega arith, omega arith), tt)));
  fits = omega arith;
}

first-IsAddress : IsAddress (98 ∷ 58 ∷ 49 ∷ [])
first-IsAddress = record {
  plain =
      ((omega arith, omega arith), ((omega arith, omega arith), ((omega arith, omega arith), tt)));
  fits = omega arith;
}

second-IsAddress : IsAddress (99 ∷ [])
second-IsAddress = record { plain = ((omega arith, omega arith), tt); fits = omega arith }

shard-IsWritable : IsWritable shard
shard-IsWritable = record {
  id_fits = omega arith;
  primary_fits = primary-IsAddress;
  replicas_fit = ((first-IsAddress, omega arith), ((second-IsAddress, omega arith), tt));
  few_replicas = omega arith;
  entities_fit = omega arith;
  size_fits = omega arith;
}

-- A topology of one shard, in the first of 16 slots.
abbrev topology : TopologyResponse
topology = record {
  version = 9;
  cluster_id = 2 ^ 64 + 7;
  num_shards = 1;
  resharding_status = 1;
  flags = 0;
  shards = shard ∷ [];
  last_change_ns = pos 1_767_225_600_000_000_000;
}

abbrev copies : ℕ → List ShardInfo
copies zero = []
copies (suc n) = shard ∷ copies n

copies-IsWritable : (n : ℕ) → All IsWritable (copies n)
copies-IsWritable zero = tt
copies-IsWritable (suc n) = (shard-IsWritable, copies-IsWritable n)

topology-IsTold : IsTold topology 1_767_225_600_000_000_000 (copies 16)
topology-IsTold = record {
  version_fits = omega arith;
  cluster_fits = omega arith;
  changed = refl;
  change_fits = omega arith;
  all_slots = refl;
  few_shards = omega arith;
  shards = refl;
  slots_fit = copies-IsWritable 16;
}

abbrev admin_server : NativeSubmit
admin_server operation bytes =
    if operation == 153
    then ok (answered (status_reply status))
    else if operation == 157
    then ok (answered (server_bytes topology 1_767_225_600_000_000_000 (copies 16)))
    else ok (answered (struct_bytes (8 ∷ 8 ∷ []) (50 ∷ 2 ∷ []) ++ zeros 48))

-- the id 2 ^ 64 + 7 is read as 2 ^ 96 + 7 * 2 ^ 32
topology_misread_example :
    fetch_topology admin_server
    ≡ ok (record topology {
      cluster_id = 2 ^ 96 + 7 * 2 ^ 32;
      last_change_ns = pos (1_767_225_600_000_000_000 * 2 ^ 32);
      resharding_status = 0;
    })
topology_misread_example =
    topology_misread admin_server topology 1_767_225_600_000_000_000 (copies 16) topology-IsTold
      refl
