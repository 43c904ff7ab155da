-- ===== src/Topology/Refresh.antt =====
-- How a stale route is repaired (src/clients/python/src/archerdb/topology.py,
-- `ShardRouter.handle_not_shard_leader`; client.py, `GeoClientSync.get_topology`). What the query for
-- the topology gives in the end, retries included, is an argument.
use archerdb.Base.{
  ℕ, ◌<◌, ◌≡◌, refl, Bool, true, false, List, [], Option, none, some, Result, ok, err, arith,
  if◌then◌else◌,
}
use archerdb.Errors.{Error, client_error, client_closed}
use archerdb.Topology.{
  ShardInfo, TopologyResponse, Notification, TopologyCache, update, compute_shard, routed,
  route_by_entity_id, get_shard_count,
}
use archerdb.Topology.Routing.{At, IsRoutable, route_by_entity_id-routed}

-- the exceptions that the router is asked about
pub data RequestError : Type 0 where
  not_shard_leader : ℕ → List ℕ → RequestError
  other_failure : Error → RequestError

-- a result, with the cache after it and the callbacks that were started
abbrev pub Refreshed : Type 0 → Type 0
Refreshed A = A × TopologyCache × List (ℕ × Notification)

abbrev pub received :
    ℕ → TopologyCache → Result Error TopologyResponse → Refreshed (Result Error TopologyResponse)
received now cache (ok topology) =
    let (after, started) = update now topology cache in (ok topology, after, started)
received now cache (err e) = (err e, cache, [])

-- `get_topology`: a closed client raises; a topology that arrives goes into the cache
unfoldable pub get_topology :
    Bool
    → Result Error TopologyResponse
    → ℕ
    → TopologyCache
    → Refreshed (Result Error TopologyResponse)
unfolding update
get_topology closed answer now cache =
    if closed then (err (client_error client_closed), cache, []) else received now cache answer

abbrev pub tried : Refreshed (Result Error TopologyResponse) → Refreshed Bool
tried (ok topology, cache, started) = (true, cache, started)
tried (err e, cache, started) = (false, cache, started)

-- `True` means that the request should be tried again
unfoldable pub handle_not_shard_leader :
    Option (TopologyCache → Refreshed (Result Error TopologyResponse))
    → RequestError
    → TopologyCache
    → Refreshed Bool
handle_not_shard_leader (some refresh) (not_shard_leader shard_id leader_hint) cache =
    tried (refresh cache)
handle_not_shard_leader (some refresh) (other_failure e) cache = (false, cache, [])
handle_not_shard_leader none error cache = (false, cache, [])

-- When a shard refuses a request because it is not led there, and the open client receives a
-- routable topology, the router asks for another try; each entity id is then routed to one of the
-- shards that the new topology counts, at the address of its primary, whatever the cache held.
pub refreshed_routes :
    (shard_id now entity_id : ℕ) (leader_hint : List ℕ) (t : TopologyResponse)
    (cache : TopologyCache)
    → IsRoutable t
    → let (again, after, started) =
        handle_not_shard_leader
          (some (get_topology false (ok t) now))
          (not_shard_leader shard_id leader_hint)
          cache in
      (again ≡ true)
      × (get_shard_count after ≡ t.num_shards)
      × ((shard : ShardInfo) × route_by_entity_id after entity_id
            ≡ routed (compute_shard after entity_id) shard.primary
          × compute_shard after entity_id < t.num_shards
          × At (compute_shard after entity_id) t.shards shard)
unfolding handle_not_shard_leader get_topology get_shard_count
refreshed_routes shard_id now entity_id leader_hint t cache routable =
    (refl, refl, route_by_entity_id-routed (update now t cache).0 t entity_id refl routable)

-- When the topology cannot be had, or the error is of another kind, the router asks for no other
-- try, leaves the cache as it was and starts no callback.
pub refused_unchanged :
    (closed : Bool) (now : ℕ) (e : Error) (error : RequestError) (cache : TopologyCache)
    → handle_not_shard_leader (some (get_topology closed (err e) now)) error cache
      ≡ (false, cache, [])
unfolding handle_not_shard_leader get_topology
refused_unchanged closed now e error cache = ground arith
