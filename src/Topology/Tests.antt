-- ===== src/Topology/Tests.antt =====
-- A cluster of two shards, and the theorems at concrete inputs.
use archerdb.Base.{Some, ℕ, ◌<◌, ◌≡◌, ◌≢◌, refl, sym, true, false, List, [], ◌∷◌, some, ok, arith}
use archerdb.Base.Int.{pos}
use archerdb.Topology.{
  ShardInfo, active, syncing, TopologyResponse, Notification, TopologyCache, new_cache, update,
  on_change, unregister, compute_shard, get_shard_primary, get_active_shards, routed,
  route_by_entity_id, get_shard_count, is_resharding,
}
use archerdb.Topology.Refresh.{
  not_shard_leader, get_topology, handle_not_shard_leader, refreshed_routes,
}
use archerdb.Topology.Routing.{At, IsRoutable, route_by_entity_id-routed}
use archerdb.Topology.Changes.{
  Call, registering, unregistering, perform, perform_all, registered_told,
}

abbrev shard_a : ShardInfo
shard_a = record {
  id = 0;
  primary = 97 ∷ [];
  replicas = [];
  status = active;
  entity_count = 4;
  size_bytes = 512;
}

abbrev shard_b : ShardInfo
shard_b = record shard_a { id = 1; primary = 98 ∷ []; status = syncing }

abbrev two_shards : TopologyResponse
two_shards = record {
  version = 5;
  cluster_id = 1;
  num_shards = 2;
  resharding_status = 0;
  flags = 0;
  shards = shard_a ∷ shard_b ∷ [];
  last_change_ns = pos 0;
}

abbrev cached : TopologyCache
cached = record new_cache { topology = some two_shards; version = 5 }

two_shards-IsRoutable : IsRoutable two_shards
two_shards-IsRoutable = record {
  some_shard = omega arith;
  listed = omega arith;
  addressed = ((λ h. ground arith), ((λ h. ground arith), tt));
}

odd_id_routed : route_by_entity_id cached 7 ≡ routed 1 (98 ∷ [])
unfolding route_by_entity_id compute_shard get_shard_primary
odd_id_routed = refl

active_shards : get_active_shards cached ≡ 0 ∷ []
unfolding get_active_shards
active_shards = refl

route_by_entity_id-routed_example :
    (shard : ShardInfo) × route_by_entity_id cached 7
      ≡ routed (compute_shard cached 7) shard.primary
    × compute_shard cached 7 < 2
    × At (compute_shard cached 7) two_shards.shards shard
route_by_entity_id-routed_example =
    route_by_entity_id-routed cached two_shards 7 refl two_shards-IsRoutable

abbrev calls : List Call
calls = registering 8 ∷ unregistering 1 ∷ []

known_version : (v : ℕ) → v ≢ 5 → v ≢ (perform_all calls (on_change 7 cached).0).version
unfolding perform_all perform on_change unregister
known_version v h = h

registered_told_example :
    Some
      (λ (m : ℕ × Notification). m ≡ (
        7,
        record {
          new_version = 6;
          old_version = (perform_all calls (on_change 7 cached).0).version;
          timestamp_ns = 40;
        },
      ))
      (update 40 (record two_shards { version = 6 }) (perform_all calls (on_change 7 cached).0)).1
registered_told_example =
    registered_told 7 40 calls cached (record two_shards { version = 6 })
      (tt, ((λ h. omega arith), tt)) (λ h. known_version 0 (λ e. omega arith) (sym h))
      (known_version 6 (λ e. omega arith))

refreshed_routes_example :
    let (again, after, started) =
      handle_not_shard_leader
        (some (get_topology false (ok two_shards) 50))
        (not_shard_leader 1 [])
        new_cache in
    (again ≡ true)
    × (get_shard_count after ≡ 2)
    × ((shard : ShardInfo) × route_by_entity_id after 7
          ≡ routed (compute_shard after 7) shard.primary
        × compute_shard after 7 < 2
        × At (compute_shard after 7) two_shards.shards shard)
refreshed_routes_example = refreshed_routes 1 50 7 [] two_shards new_cache two_shards-IsRoutable

idle_cluster : is_resharding cached ≡ false
unfolding is_resharding
idle_cluster = refl
