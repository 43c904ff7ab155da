-- ===== src/GeoRouting/Selector.antt =====
-- The choice of a region (geo_routing.py, `RegionSelector`). The selector holds the prober and the
-- metrics, which the source shares with the router. The haversine distance of two places, which is
-- computed in floating point, is a parameter.
use archerdb.Base.{
  ℕ, Bool, true, false, not, ◌&&◌, List, [], ◌∷◌, Option, none, some, ltb, if◌then◌else◌,
}
use archerdb.Base.Text.{same_text, truthy, listed_in, find, assign}
use archerdb.GeoRouting.{
  GeoRoutingConfig, unhealthy, RegionLocation, RegionInfo, RegionLatencyStats, Average,
  get_average_rtt, lower, is_healthy, GeoRoutingMetrics, record_switch, LatencyProber,
}

pub record RegionSelector : Type 0 where
  pub config : GeoRoutingConfig
  pub prober : LatencyProber
  pub metrics : GeoRoutingMetrics
  pub client_location : Option RegionLocation
  pub current_region : Option (List ℕ)

unfoldable pub set_client_location : RegionLocation → RegionSelector → RegionSelector
set_client_location location s = record s { client_location = some location }

-- `[x for x in xs if test(x)]`
abbrev pub keep {ℓ} : {A : Type ℓ} → (A → Bool) → List A → List A
keep test [] = []
keep test (x ∷ xs) = let rest = keep test xs in if test x then x ∷ rest else rest

abbrev pub healthy_stats : Option RegionLatencyStats → Bool
healthy_stats none = true
healthy_stats (some stats) = is_healthy stats

-- `_is_region_healthy`
unfoldable pub is_region_healthy : LatencyProber → List ℕ → Bool
unfolding is_healthy
is_region_healthy prober name = healthy_stats (find name prober.stats)

-- the tests of the two filters of `select`
unfoldable pub is_usable : LatencyProber → List (List ℕ) → RegionInfo → Bool
unfolding is_region_healthy
is_usable prober exclude r =
    r.healthy && not (listed_in r.name exclude) && is_region_healthy prober r.name

-- `sort(key=...)` and the first element: the first of those with the least key
unfoldable pub least {ℓ κ} : {A : Type ℓ} {K : Type κ} → (K → K → Bool) → A × K → List (A × K) → A
least less (a, k) [] = a
least less (a, k) ((b, l) ∷ rest) = least less (if less l k then (b, l) else (a, k)) rest

abbrev pub average_in : Option RegionLatencyStats → Option Average
average_in none = none
average_in (some stats) = get_average_rtt stats

abbrev pub with_average {ℓ} :
    {A : Type ℓ} → A → Option Average → List (A × Average) → List (A × Average)
with_average r none rest = rest
with_average r (some average) rest = (r, average) ∷ rest

-- the regions with an average round trip
unfoldable pub measured : LatencyProber → List RegionInfo → List (RegionInfo × Average)
unfolding get_average_rtt
measured prober [] = []
measured prober (r ∷ rs) =
    with_average r (average_in (find r.name prober.stats)) (measured prober rs)

abbrev pub first : List RegionInfo → Option RegionInfo
first [] = none
first (r ∷ rs) = some r

-- `[r for r in healthy if r.name == preferred]` and its first element
abbrev pub find_named : List ℕ → List RegionInfo → Option RegionInfo
find_named name [] = none
find_named name (r ∷ rs) = if same_text r.name name then some r else find_named name rs

abbrev pub preferred_in : Option (List ℕ) → List RegionInfo → Option RegionInfo
preferred_in none healthy = none
preferred_in (some name) healthy = if truthy name then find_named name healthy else none

abbrev pub is_current : Option (List ℕ) → List ℕ → Bool
is_current none name = false
is_current (some current) name = same_text name current

abbrev pub switched : Option (List ℕ) → List ℕ → GeoRoutingMetrics → GeoRoutingMetrics
switched none name m = m
switched (some current) name m = if truthy current then record_switch current name m else m

-- the region becomes the current one, and the switch is counted if there was one before
unfoldable pub remember : RegionInfo → RegionSelector → RegionSelector
unfolding record_switch
remember region s = if is_current s.current_region region.name then s else record s {
  metrics = switched s.current_region region.name s.metrics;
  current_region = some region.name;
}

abbrev pub chosen : Option RegionInfo → RegionSelector → RegionSelector × Option RegionInfo
chosen none s = (s, none)
chosen (some region) s = (remember region s, some region)

module _ (distance : RegionLocation → RegionLocation → ℕ) where
  abbrev pub distances : RegionLocation → List RegionInfo → List (RegionInfo × ℕ)
  distances here [] = []
  distances here (r ∷ rs) = (r, distance here r.location) ∷ distances here rs

  abbrev pub nearest : List (RegionInfo × ℕ) → Option RegionInfo
  nearest [] = none
  nearest (r ∷ rs) = some (least ltb r rs)

  -- `_select_by_distance`
  unfoldable pub select_by_distance : Option RegionLocation → List RegionInfo → Option RegionInfo
  unfolding least
  select_by_distance none regions = first regions
  select_by_distance (some here) regions = nearest (distances here regions)

  abbrev pub fastest :
      List (RegionInfo × Average) → Option RegionLocation → List RegionInfo → Option RegionInfo
  fastest [] location regions = select_by_distance location regions
  fastest (r ∷ rs) location regions = some (least lower r rs)

  -- `_select_by_latency`
  unfoldable pub select_by_latency : RegionSelector → List RegionInfo → Option RegionInfo
  unfolding least measured select_by_distance
  select_by_latency s regions = fastest (measured s.prober regions) s.client_location regions

  abbrev pub preferred_or_fastest :
      Option RegionInfo → RegionSelector → List RegionInfo → RegionSelector × Option RegionInfo
  preferred_or_fastest (some region) s healthy = (s, some region)
  preferred_or_fastest none s healthy = chosen (select_by_latency s healthy) s

  -- `select` behind the filters
  abbrev pub select_among : RegionSelector → List RegionInfo → RegionSelector × Option RegionInfo
  select_among s [] = (s, none)
  select_among s (r ∷ rs) =
      preferred_or_fastest (preferred_in s.config.preferred_region (r ∷ rs)) s (r ∷ rs)

  unfoldable pub select :
      List RegionInfo → List (List ℕ) → RegionSelector → RegionSelector × Option RegionInfo
  unfolding is_usable select_by_latency remember
  select regions exclude s = select_among s (keep (is_usable s.prober exclude) regions)

  abbrev pub with_health : LatencyProber → List ℕ → Option RegionLatencyStats → LatencyProber
  with_health prober name none = prober
  with_health prober name (some stats) = record prober {
    stats = assign name (record stats { health = unhealthy }) prober.stats;
  }

  abbrev pub failed_over :
      List ℕ → RegionSelector × Option RegionInfo → RegionSelector × Option RegionInfo
  failed_over current (s, none) = (s, none)
  failed_over current (s, some region) =
      (record s { metrics = record_switch current region.name s.metrics }, some region)

  unfoldable pub failover :
      List ℕ → List RegionInfo → RegionSelector → RegionSelector × Option RegionInfo
  unfolding select
  failover current regions s =
      if s.config.failover_enabled
      then failed_over current (
          select regions (current ∷ [])
            (record s { prober = with_health s.prober current (find current s.prober.stats) }))
      else (s, none)
