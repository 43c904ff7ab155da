-- ===== src/GeoRouting/Tests.antt =====
-- Regions, and the router's theorems at them.
use archerdb.Base.{ℕ, ◌≡◌, ◌≢◌, refl, true, false, List, [], ◌∷◌, none, some, ok, err, arith, All}
use archerdb.Base.Int.{pos}
use archerdb.GeoRouting.{
  GeoRoutingConfig, RegionInfo, RegionLocation, RegionLatencyStats, healthy_region, new_stats,
  add_sample, is_healthy,
}
use archerdb.GeoRouting.Discovery.{
  DiscoveryResponse, aware, naive, naive_comparison, Request, IsServed, discoveries,
  discoveries-IsServed,
}
use archerdb.GeoRouting.Samples.{probe_all, misses, misses-is_healthy}
use archerdb.GeoRouting.Selector.{RegionSelector, select, failover}
use archerdb.GeoRouting.Router.{no_metrics}
use archerdb.GeoRouting.Choice.{IsAnswer, select-IsAnswer}
use archerdb.GeoRouting.Failover.{marked, Every, failover-IsAnswer}
use archerdb.GeoRouting.Avoidance.{fail_probes, failed_probes-select}

abbrev config : GeoRoutingConfig
config = record {
  discovery_endpoint = none;
  direct_endpoint = none;
  preferred_region = none;
  failover_enabled = true;
  probe_interval_ms = 30_000;
  failover_timeout_ms = 5_000;
  probe_sample_count = 2;
  unhealthy_threshold = 3;
  background_probing = true;
}

abbrev region_at : ℕ → RegionInfo
region_at n = record {
  name = n ∷ [];
  endpoint = n ∷ 58 ∷ [];
  location = record { latitude = pos n; longitude = pos 0 };
  healthy = true;
}

abbrev stats : RegionLatencyStats
stats = new_stats config (1 ∷ [])

abbrev sampled : ℕ → ℕ → RegionLatencyStats
sampled n rtt = record {
  region_name = n ∷ [];
  samples = rtt ∷ [];
  maxlen = 2;
  last_probe_time = 1;
  consecutive_failures = 0;
  health = healthy_region;
}

-- the first region is the current one, the third one answers faster than the second
abbrev selector : RegionSelector
selector = record {
  config = config;
  prober = record {
    regions = region_at 1 ∷ region_at 2 ∷ region_at 3 ∷ [];
    stats = (1 ∷ [], sampled 1 5) ∷ (2 ∷ [], sampled 2 40) ∷ (3 ∷ [], sampled 3 20) ∷ [];
  };
  metrics = no_metrics;
  client_location = none;
  current_region = some (1 ∷ []);
}

abbrev regions : List RegionInfo
regions = region_at 1 ∷ region_at 2 ∷ region_at 3 ∷ []

abbrev distance : RegionLocation → RegionLocation → ℕ
distance a b = 0

misses-is_healthy_example :
    (is_healthy (probe_all 3 (misses (1 ∷ 2 ∷ 3 ∷ [])) stats) ≡ false)
    × (is_healthy (add_sample 4 10 (probe_all 3 (misses (1 ∷ 2 ∷ 3 ∷ [])) stats)) ≡ true)
misses-is_healthy_example = misses-is_healthy 3 1 (2 ∷ 3 ∷ []) 4 10 stats (omega arith)

select-IsAnswer_example : IsAnswer distance regions ((1 ∷ []) ∷ []) selector (some (region_at 3))
unfolding select
select-IsAnswer_example = select-IsAnswer distance regions ((1 ∷ []) ∷ []) selector

failover-IsAnswer_example :
    IsAnswer distance regions
      ((1 ∷ []) ∷ [])
      (marked distance (1 ∷ []) selector)
      (some (region_at 3))
    × Every distance (λ region. region.name ≢ 1 ∷ []) (some (region_at 3))
unfolding failover
failover-IsAnswer_example = failover-IsAnswer distance (1 ∷ []) regions selector refl

abbrev response : DiscoveryResponse
response = record { regions = regions; expires = some (aware 500); fetched_at = 100 }

-- after the cached response expired
abbrev requests : List Request
requests =
    (record { force_refresh = false; now = 501; answer = ok response })
    ∷ (record { force_refresh = true; now = 502; answer = ok response })
    ∷ []

discoveries-IsServed_example :
    All (IsServed (λ r. r.fetched_at ≡ 100)) (discoveries requests (some response))
discoveries-IsServed_example =
    discoveries-IsServed (λ r. r.fetched_at ≡ 100) requests response ((refl, tt), ((refl, tt), tt))
      (refl, tt)

-- an expiry without an offset: the response of a call that does not force a refresh is lost
abbrev naive_response : DiscoveryResponse
naive_response = record response { expires = some (naive 500) }

abbrev naive_requests : List Request
naive_requests =
    (record { force_refresh = false; now = 1; answer = ok response })
    ∷ (record { force_refresh = true; now = 2; answer = err naive_comparison })
    ∷ (record { force_refresh = false; now = 900; answer = ok response })
    ∷ []

-- the third region, the fastest, stops answering
failed_probes-select_example :
    Every distance
      (λ region. region.name ≢ 3 ∷ [])
      (select distance regions [] (record selector {
        prober = (fail_probes config (3 ∷ []) (5 ∷ 6 ∷ 7 ∷ []) (selector.prober, no_metrics)).0;
        metrics = (fail_probes config (3 ∷ []) (5 ∷ 6 ∷ 7 ∷ []) (selector.prober, no_metrics)).1;
      })).1
failed_probes-select_example =
    failed_probes-select distance selector (sampled 3 20) (3 ∷ []) 5 (6 ∷ 7 ∷ []) regions [] refl
      (omega arith)
