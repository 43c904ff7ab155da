-- ===== src/Topology.antt =====
-- The topology cache and the shard router (src/clients/python/src/archerdb/topology.py:
-- `TopologyCache`, `ShardRouter`; types.py: `ShardInfo`, `TopologyResponse`). A call under the
-- cache's lock is one step. Callbacks are known by numbers, and a cache call returns the
-- notification with the callbacks that it starts; the clock's readings are arguments,
-- and an address is a list of code points.
pub mod Routing
pub mod Changes
pub mod Refresh
mod Tests
use Prim.Native.Nat.{bit_xor}
use archerdb.Base.Int.{ℤ}
use archerdb.Base.{
  ℕ, zero, suc, ◌+◌, ◌/◌, ◌%◌, ◌^◌, Bool, true, false, not, ◌&&◌, List, [], ◌∷◌, ◌++◌, map, Option,
  none, some, Result, ok, err, length, leb, ltb, ◌==◌, if◌then◌else◌,
}

pub data ShardStatus : Type 0 where
  active syncing unavailable migrating decommissioning : ShardStatus

pub record ShardInfo : Type 0 where
  pub id : ℕ
  pub primary : List ℕ
  pub replicas : List (List ℕ)
  pub status : ShardStatus
  pub entity_count : ℕ
  pub size_bytes : ℕ

pub record TopologyResponse : Type 0 where
  pub version : ℕ
  pub cluster_id : ℕ
  pub num_shards : ℕ
  pub resharding_status : ℕ
  pub flags : ℕ
  pub shards : List ShardInfo
  pub last_change_ns : ℤ

pub record Notification : Type 0 where
  pub new_version : ℕ
  pub old_version : ℕ
  pub timestamp_ns : ℕ

pub record TopologyCache : Type 0 where
  pub topology : Option TopologyResponse
  pub version : ℕ
  pub last_refresh : ℕ
  pub refresh_count : ℕ
  pub callbacks : List (Option ℕ)

abbrev pub new_cache : TopologyCache
new_cache = record {
  topology = none;
  version = 0;
  last_refresh = 0;
  refresh_count = 0;
  callbacks = [];
}

-- `[cb for cb in callbacks if cb is not None]`
abbrev pub registered : List (Option ℕ) → List ℕ
registered [] = []
registered (none ∷ callbacks) = registered callbacks
registered (some callback ∷ callbacks) = callback ∷ registered callbacks

-- the cache after the update, and each callback with the notification that it is started with
unfoldable pub update :
    ℕ → TopologyResponse → TopologyCache → TopologyCache × List (ℕ × Notification)
update now topology cache =
    let notification : Notification = record {
      new_version = topology.version;
      old_version = cache.version;
      timestamp_ns = now;
    } in
    (
      record cache {
        topology = some topology;
        version = topology.version;
        last_refresh = now;
        refresh_count = cache.refresh_count + 1;
      },
      if not (topology.version == cache.version) && not (cache.version == 0)
          then map (λ callback. (callback, notification)) (registered cache.callbacks)
          else [],
    )

unfoldable pub invalidate : TopologyCache → TopologyCache
invalidate cache = record cache { version = 0 }

-- the cache, and the index by which `unregister` knows the callback
unfoldable pub on_change : ℕ → TopologyCache → TopologyCache × ℕ
on_change callback cache =
    let callbacks = cache.callbacks ++ some callback ∷ [] in
    (record cache { callbacks = callbacks }, length cache.callbacks)

-- `callbacks[idx] = None`
abbrev pub blanked : ℕ → List (Option ℕ) → List (Option ℕ)
blanked idx [] = []
blanked zero (callback ∷ callbacks) = none ∷ callbacks
blanked (suc idx) (callback ∷ callbacks) = callback ∷ blanked idx callbacks

unfoldable pub unregister : ℕ → TopologyCache → TopologyCache
unregister idx cache =
    if ltb idx (length cache.callbacks)
    then record cache { callbacks = blanked idx cache.callbacks }
    else cache

abbrev pub shard_in : ℕ → Option TopologyResponse → ℕ
shard_in entity_id none = 0
shard_in entity_id (some topology) =
    if topology.num_shards == 0
    then 0
    else bit_xor (entity_id % 2 ^ 64) (entity_id / 2 ^ 64 % 2 ^ 64) % topology.num_shards

unfoldable pub compute_shard : TopologyCache → ℕ → ℕ
compute_shard cache entity_id = shard_in entity_id cache.topology

-- `shards[i].primary`, or "" when there is no shard at `i`
abbrev pub primary_at : ℕ → List ShardInfo → List ℕ
primary_at i [] = []
primary_at zero (shard ∷ shards) = shard.primary
primary_at (suc i) (shard ∷ shards) = primary_at i shards

abbrev pub primary_in : ℕ → Option TopologyResponse → List ℕ
primary_in shard_id none = []
primary_in shard_id (some topology) =
    if leb (length topology.shards) shard_id then [] else primary_at shard_id topology.shards

unfoldable pub get_shard_primary : TopologyCache → ℕ → List ℕ
get_shard_primary cache shard_id = primary_in shard_id cache.topology

unfoldable pub get_all_shard_primaries : TopologyCache → List (List ℕ)
get_all_shard_primaries cache = elim cache.topology [
  | none ↦ []
  | some topology ↦ map (λ (shard : ShardInfo). shard.primary) topology.shards
]

abbrev pub is_active : ShardStatus → Bool
is_active active = true
is_active syncing = false
is_active unavailable = false
is_active migrating = false
is_active decommissioning = false

abbrev pub active_ids : List ShardInfo → List ℕ
active_ids [] = []
active_ids (shard ∷ shards) =
    let rest = active_ids shards in if is_active shard.status then shard.id ∷ rest else rest

unfoldable pub get_active_shards : TopologyCache → List ℕ
get_active_shards cache = elim cache.topology [
  | none ↦ []
  | some topology ↦ active_ids topology.shards
]

-- `ShardRoutingError(shard_id, ...)` and the answer
pub data Route : Type 0 where
  routed : ℕ → List ℕ → Route
  routing_error : ℕ → Route

abbrev pub route_to : ℕ → List ℕ → Route
route_to shard_id [] = routing_error shard_id
route_to shard_id (c ∷ cs) = routed shard_id (c ∷ cs)

unfoldable pub route_by_entity_id : TopologyCache → ℕ → Route
unfolding compute_shard get_shard_primary
route_by_entity_id cache entity_id =
    let shard_id = compute_shard cache entity_id in
    route_to shard_id (get_shard_primary cache shard_id)

unfoldable pub is_resharding : TopologyCache → Bool
is_resharding cache = elim cache.topology [
  | none ↦ false
  | some topology ↦ not (topology.resharding_status == 0)
]

unfoldable pub get_shard_count : TopologyCache → ℕ
get_shard_count cache = elim cache.topology [ none ↦ 0 | some topology ↦ topology.num_shards ]
