-- ===== src/GeoRouting.antt =====
-- Routing to the nearest healthy region (src/clients/python/src/archerdb/geo_routing.py): the
-- configuration, what is known of a region, its latency statistics, the prober's records and the
-- metrics. Round trips are natural numbers in one unit of time, their averages are fractions, and
-- coordinates are integers. Names and endpoints are lists of code points.
pub mod Discovery
pub mod Selector
pub mod Router
pub mod Probing
pub mod Samples
pub mod Least
pub mod Measured
pub mod Rank
pub mod Choice
pub mod Trust
pub mod Failover
pub mod Avoidance
pub mod Switches
pub mod Preferred
mod Tests
use archerdb.Base.{
  ℕ, ◌+◌, ◌-◌, ◌*◌, Bool, true, false, List, [], ◌∷◌, ◌++◌, Option, none, some, length, drop, ltb,
  leb, ◌==◌, if◌then◌else◌,
}
use archerdb.Base.Int.{ℤ}
use archerdb.Base.Text.{find, assign}

pub record GeoRoutingConfig : Type 0 where
  pub discovery_endpoint : Option (List ℕ)
  pub direct_endpoint : Option (List ℕ)
  pub preferred_region : Option (List ℕ)
  pub failover_enabled : Bool
  pub probe_interval_ms : ℕ
  pub failover_timeout_ms : ℕ
  pub probe_sample_count : ℕ
  pub unhealthy_threshold : ℕ
  pub background_probing : Bool

unfoldable pub is_geo_routing_enabled : GeoRoutingConfig → Bool
is_geo_routing_enabled config = elim config.discovery_endpoint [ none ↦ false | some url ↦ true ]

pub data RegionHealth : Type 0 where
  healthy_region degraded unhealthy unknown : RegionHealth

pub record RegionLocation : Type 0 where
  pub latitude : ℤ
  pub longitude : ℤ

pub record RegionInfo : Type 0 where
  pub name : List ℕ
  pub endpoint : List ℕ
  pub location : RegionLocation
  pub healthy : Bool

-- `samples` is a `deque` of at most `maxlen` round trips, the last one behind the others
pub record RegionLatencyStats : Type 0 where
  pub region_name : List ℕ
  pub samples : List ℕ
  pub maxlen : ℕ
  pub last_probe_time : ℕ
  pub consecutive_failures : ℕ
  pub health : RegionHealth

unfoldable pub new_stats : GeoRoutingConfig → List ℕ → RegionLatencyStats
new_stats config name = record {
  region_name = name;
  samples = [];
  maxlen = config.probe_sample_count;
  last_probe_time = 0;
  consecutive_failures = 0;
  health = unknown;
}

-- `deque.append`: the oldest sample goes when there is one too many
unfoldable pub append_sample : ℕ → List ℕ → ℕ → List ℕ
append_sample maxlen samples rtt = let all = samples ++ rtt ∷ [] in drop (length all - maxlen) all

abbrev pub after_success : RegionHealth → RegionHealth
after_success healthy_region = healthy_region
after_success degraded = degraded
after_success unhealthy = healthy_region
after_success unknown = healthy_region

unfoldable pub add_sample : ℕ → ℕ → RegionLatencyStats → RegionLatencyStats
unfolding append_sample
add_sample now rtt s = record s {
  samples = append_sample s.maxlen s.samples rtt;
  last_probe_time = now;
  consecutive_failures = 0;
  health = after_success s.health;
}

unfoldable pub record_failure : ℕ → ℕ → RegionLatencyStats → RegionLatencyStats
record_failure threshold now s = record s {
  consecutive_failures = s.consecutive_failures + 1;
  last_probe_time = now;
  health = if leb threshold (s.consecutive_failures + 1) then unhealthy else s.health;
}

-- a sum of samples and their number
pub record Average : Type 0 where
  pub total : ℕ
  pub count : ℕ

abbrev pub sum : List ℕ → ℕ
sum [] = 0
sum (x ∷ xs) = x + sum xs

abbrev pub average_of : List ℕ → Option Average
average_of [] = none
average_of (x ∷ xs) = some (record { total = sum (x ∷ xs); count = length (x ∷ xs) })

unfoldable pub get_average_rtt : RegionLatencyStats → Option Average
get_average_rtt s = average_of s.samples

-- one average is below another, by cross-multiplication
abbrev pub lower : Average → Average → Bool
lower a b = ltb (a.total * b.count) (b.total * a.count)

abbrev pub trusted : RegionHealth → Bool
trusted healthy_region = true
trusted degraded = false
trusted unhealthy = false
trusted unknown = true

unfoldable pub is_healthy : RegionLatencyStats → Bool
is_healthy s = trusted s.health

pub record GeoRoutingMetrics : Type 0 where
  pub queries_by_region : List (List ℕ × ℕ)
  pub region_switches : List (List ℕ × List (List ℕ × ℕ))
  pub region_latencies : List (List ℕ × Average)

abbrev pub or_zero : Option ℕ → ℕ
or_zero none = 0
or_zero (some n) = n

abbrev pub row {ℓ} : {A : Type ℓ} → Option (List A) → List A
row none = []
row (some xs) = xs

unfoldable pub record_query : List ℕ → GeoRoutingMetrics → GeoRoutingMetrics
record_query region m = record m {
  queries_by_region =
      assign region (or_zero (find region m.queries_by_region) + 1) m.queries_by_region;
}

unfoldable pub record_switch : List ℕ → List ℕ → GeoRoutingMetrics → GeoRoutingMetrics
record_switch from_region to_region m =
    let switches = row (find from_region m.region_switches) in
    record m {
      region_switches =
          assign from_region (assign to_region (or_zero (find to_region switches) + 1) switches)
            m.region_switches;
    }

unfoldable pub update_latency : List ℕ → Average → GeoRoutingMetrics → GeoRoutingMetrics
update_latency region latency m = record m {
  region_latencies = assign region latency m.region_latencies;
}

-- the regions to probe, and the statistics by the region's name
pub record LatencyProber : Type 0 where
  pub regions : List RegionInfo
  pub stats : List (List ℕ × RegionLatencyStats)

-- the loop of `set_regions`: a region that is known keeps its statistics
unfoldable pub add_new_stats :
    GeoRoutingConfig
    → List RegionInfo
    → List (List ℕ × RegionLatencyStats)
    → List (List ℕ × RegionLatencyStats)
unfolding new_stats
add_new_stats config [] stats = stats
add_new_stats config (region ∷ regions) stats =
    add_new_stats config regions (elim (find region.name stats) [
      | none ↦ assign region.name (new_stats config region.name) stats
      | some known ↦ stats
    ])

unfoldable pub set_regions : GeoRoutingConfig → List RegionInfo → LatencyProber → LatencyProber
unfolding add_new_stats
set_regions config regions prober = record {
  regions = regions;
  stats = add_new_stats config regions prober.stats;
}
