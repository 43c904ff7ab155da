-- ===== src/GeoRouting/Router.antt =====
-- The router (geo_routing.py, `GeoRouter`). Its discovery client, prober and selector exist together,
-- where a discovery endpoint is configured. The thread that probes is part of the environment: its
-- probes are calls of `note_probe`.
use archerdb.Base.{
  ℕ, Bool, true, false, List, [], ◌∷◌, Option, none, some, Result, ok, err, if◌then◌else◌,
}
use archerdb.Base.Text.{truthy}
use archerdb.Errors.{Error}
use archerdb.GeoRouting.{
  GeoRoutingConfig, is_geo_routing_enabled, RegionLocation, RegionInfo, GeoRoutingMetrics,
  record_query, set_regions,
}
use archerdb.GeoRouting.Discovery.{
  DiscoveryResponse, DiscoveryOutcome, discovered, discovery_error, raised, discover,
}
use archerdb.GeoRouting.Selector.{RegionSelector, select, failover}

pub record Routing : Type 0 where
  pub cache : Option DiscoveryResponse
  pub selector : RegionSelector

pub record GeoRouter : Type 0 where
  pub config : GeoRoutingConfig
  pub routing : Option Routing
  pub regions : List RegionInfo
  pub current_endpoint : Option (List ℕ)
  pub started : Bool

abbrev pub no_metrics : GeoRoutingMetrics
no_metrics = record { queries_by_region = []; region_switches = []; region_latencies = [] }

abbrev pub new_routing : GeoRoutingConfig → Option (List ℕ) → Option Routing
new_routing config none = none
new_routing config (some endpoint) =
    if truthy endpoint
    then some (record {
      cache = none;
      selector = record {
        config = config;
        prober = record { regions = []; stats = [] };
        metrics = no_metrics;
        client_location = none;
        current_region = none;
      };
    })
    else none

unfoldable pub new_router : GeoRoutingConfig → GeoRouter
new_router config = record {
  config = config;
  routing = new_routing config config.discovery_endpoint;
  regions = [];
  current_endpoint = none;
  started = false;
}

-- `self._current_endpoint or ""`
abbrev pub endpoint_or_empty : Option (List ℕ) → List ℕ
endpoint_or_empty none = []
endpoint_or_empty (some endpoint) = endpoint

unfoldable pub get_endpoint : GeoRouter → List ℕ
get_endpoint r = endpoint_or_empty r.current_endpoint

unfoldable pub get_current_region : GeoRouter → Option (List ℕ)
get_current_region r = elim r.routing [
  | none ↦ none
  | some routing ↦ routing.selector.current_region
]

-- the endpoint of the selected region, or the one before
abbrev pub endpoint_of : Option RegionInfo → Option (List ℕ) → Option (List ℕ)
endpoint_of none before = before
endpoint_of (some region) before = some region.endpoint

unfoldable pub stop : GeoRouter → GeoRouter
stop r = record r { started = false }

module _ (distance : RegionLocation → RegionLocation → ℕ) where
  -- `set_regions` and `select`, where there are regions
  abbrev pub with_regions : List RegionInfo → Routing → GeoRouter → GeoRouter
  with_regions [] routing r = record r { routing = some routing; regions = []; started = true }
  with_regions (x ∷ xs) routing r =
      let probing = record (routing.selector) {
        prober = set_regions r.config (x ∷ xs) routing.selector.prober;
      } in
      let (selector, region) = select distance (x ∷ xs) [] probing in
      record r {
        routing = some (record routing { selector = selector });
        regions = x ∷ xs;
        current_endpoint = endpoint_of region r.current_endpoint;
        started = true;
      }

  -- `DiscoveryError` leaves the router as it was
  abbrev pub begun :
      Routing
      → GeoRouter
      → Option DiscoveryResponse × DiscoveryOutcome
      → GeoRouter × Result Error (List ℕ)
  begun routing r (cache, discovered regions) =
      let after = with_regions regions (record routing { cache = cache }) r in
      (after, ok (endpoint_or_empty after.current_endpoint))
  begun routing r (cache, discovery_error e) = (r, err e)
  begun routing r (cache, raised e) = (r, err e)

  abbrev pub start_routing :
      ℕ
      → Result Error DiscoveryResponse
      → GeoRouter
      → Option Routing
      → GeoRouter × Result Error (List ℕ)
  start_routing now answer r none =
      (record r { started = true }, ok (endpoint_or_empty r.current_endpoint))
  start_routing now answer r (some routing) =
      begun routing r (discover false now answer routing.cache)

  -- the router, and the endpoint or the error of the discovery
  unfoldable pub start :
      ℕ → Result Error DiscoveryResponse → GeoRouter → GeoRouter × Result Error (List ℕ)
  unfolding is_geo_routing_enabled discover set_regions select
  start now answer r =
      if is_geo_routing_enabled r.config then start_routing now answer r r.routing else (
        record r { current_endpoint = r.config.direct_endpoint },
        ok (endpoint_or_empty r.config.direct_endpoint),
      )

  abbrev pub redirected :
      Routing → GeoRouter → RegionSelector × Option RegionInfo → GeoRouter × Option (List ℕ)
  redirected routing r (selector, none) =
      (record r { routing = some (record routing { selector = selector }) }, none)
  redirected routing r (selector, some region) = (
    record r {
      routing = some (record routing { selector = selector });
      current_endpoint = some region.endpoint;
    },
    some region.endpoint,
  )

  abbrev pub fail_from : Routing → GeoRouter → Option (List ℕ) → GeoRouter × Option (List ℕ)
  fail_from routing r none = (r, none)
  fail_from routing r (some current) =
      if truthy current
      then redirected routing r (failover distance current r.regions routing.selector)
      else (r, none)

  abbrev pub fail_in : GeoRouter → Option Routing → GeoRouter × Option (List ℕ)
  fail_in r none = (r, none)
  fail_in r (some routing) = fail_from routing r routing.selector.current_region

  unfoldable pub handle_failure : GeoRouter → GeoRouter × Option (List ℕ)
  unfolding failover
  handle_failure r = if r.config.failover_enabled then fail_in r r.routing else (r, none)

-- `record_query`: the query is counted for the current region, if it has a name
abbrev pub count_query : Option (List ℕ) → RegionSelector → RegionSelector
count_query none s = s
count_query (some region) s =
    if truthy region then record s { metrics = record_query region s.metrics } else s

abbrev pub count_in : Option Routing → Option Routing
count_in none = none
count_in (some routing) =
    some
      (record routing { selector = count_query routing.selector.current_region routing.selector })

unfoldable pub count_router_query : GeoRouter → GeoRouter
unfolding record_query
count_router_query r = record r { routing = count_in r.routing }

abbrev pub refreshed : Routing → GeoRouter → Option DiscoveryResponse × DiscoveryOutcome → GeoRouter
refreshed routing r (cache, discovery_error e) = r
refreshed routing r (cache, raised e) = r
refreshed routing r (cache, discovered regions) = record r {
  regions = regions;
  routing = some (record {
    cache = cache;
    selector = record (routing.selector) {
      prober = set_regions r.config regions routing.selector.prober;
    };
  });
}

abbrev pub refresh_in : ℕ → Result Error DiscoveryResponse → GeoRouter → Option Routing → GeoRouter
refresh_in now answer r none = r
refresh_in now answer r (some routing) =
    refreshed routing r (discover true now answer routing.cache)

unfoldable pub refresh_regions : ℕ → Result Error DiscoveryResponse → GeoRouter → GeoRouter
unfolding discover set_regions
refresh_regions now answer r = refresh_in now answer r r.routing
