-- ===== src/Topology/Routing.antt =====
-- Where the router sends a request.
use archerdb.Base.{
  ℕ, zero, suc, ◌≤◌, ◌<◌, ◌≡◌, ◌≢◌, refl, false, List, [], ◌∷◌, some, length, All, arith, leb, ◌==◌,
  ==_iff, if_elim,
}
use archerdb.Topology.{
  ShardInfo, TopologyResponse, TopologyCache, compute_shard, shard_in, get_shard_primary,
  primary_at, routed, route_to, route_by_entity_id,
}

-- The shard at this position.
abbrev pub At : ℕ → List ShardInfo → ShardInfo → Type 0
At i [] found = ⊥
At zero (shard ∷ shards) found = shard ≡ found
At (suc i) (shard ∷ shards) found = At i shards found

-- A topology that can be routed by: it has shards, at least as many as it counts, and each has the
-- address of its primary.
pub record IsRoutable (t : TopologyResponse) : Type 0 where
  pub some_shard : 1 ≤ t.num_shards
  pub listed : t.num_shards ≤ length t.shards
  pub addressed : All (λ shard. shard.primary ≢ []) t.shards

shard_in-lt :
    (t : TopologyResponse) (entity_id : ℕ)
    → 1 ≤ t.num_shards
    → shard_in entity_id (some t) < t.num_shards
shard_in-lt t entity_id h =
    if_elim (λ n. n < t.num_shards) (t.num_shards == 0)
      (λ none_there. let e = (==_iff t.num_shards 0).0 none_there in omega arith)
      (λ some_there. omega arith)

primary_at_lem :
    (i : ℕ) (shards : List ShardInfo)
    → i < length shards
    → All (λ shard. shard.primary ≢ []) shards
    → (found : ShardInfo) × At i shards found
      × primary_at i shards ≡ found.primary
      × found.primary ≢ []
primary_at_lem i [] h k = absurd (omega arith)
primary_at_lem zero (shard ∷ shards) h k = (shard, refl, refl, k.0)
primary_at_lem (suc i) (shard ∷ shards) h k = primary_at_lem i shards (omega arith) k.1

route_to_lem : (i : ℕ) (address : List ℕ) → address ≢ [] → route_to i address ≡ routed i address
route_to_lem i [] h = absurd (h refl)
route_to_lem i (c ∷ cs) h = refl

-- With a routable topology in the cache every entity id is routed to one of the counted shards, at
-- the address of its primary, and no routing error is raised.
pub route_by_entity_id-routed :
    (cache : TopologyCache) (t : TopologyResponse) (entity_id : ℕ)
    → cache.topology ≡ some t
    → IsRoutable t
    → (shard : ShardInfo) × route_by_entity_id cache entity_id
        ≡ routed (compute_shard cache entity_id) shard.primary
      × compute_shard cache entity_id < t.num_shards
      × At (compute_shard cache entity_id) t.shards shard
unfolding route_by_entity_id compute_shard get_shard_primary
route_by_entity_id-routed cache t entity_id cached routable =
    let i = shard_in entity_id (some t) in
    let below : i < t.num_shards = shard_in-lt t entity_id routable.some_shard in
    let enough = routable.listed in
    let here = primary_at_lem i t.shards (omega arith) routable.addressed in
    let inside : leb (length t.shards) i ≡ false = ground arith in
    (
      here.0,
      rw (cached, inside, here.2) (route_to_lem i here.0.primary here.3),
      rw cached below,
      rw cached here.1,
    )
