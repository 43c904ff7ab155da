-- ===== src/GeoRouting/Preferred.antt =====
-- A preferred region, from the start of the router to its failure.
use archerdb.Base.{
  ℕ, ◌≡◌, refl, sym, ap, ◌∙◌, inl, inr, Bool, true, false, List, [], ◌∷◌, Option, none, some, ok,
  Some, All-at, All-listed, All-map, Some-none, Some-map, if_elim, true≢false,
}
use archerdb.Base.Text.{same_text, same_text_refl}
use archerdb.GeoRouting.{
  GeoRoutingConfig, RegionInfo, RegionLocation, add_new_stats, set_regions, is_geo_routing_enabled,
}
use archerdb.GeoRouting.Discovery.{DiscoveryResponse, discover}
use archerdb.GeoRouting.Selector.{
  RegionSelector, is_usable, keep, find_named, preferred_in, preferred_or_fastest, select_among,
  select,
}
use archerdb.GeoRouting.Router.{
  Routing, GeoRouter, no_metrics, new_router, get_current_region, endpoint_of, fail_from, fail_in,
  with_regions, start, handle_failure,
}
use archerdb.GeoRouting.Measured.{keep-All}
use archerdb.GeoRouting.Choice.{find_named-cases}
use archerdb.GeoRouting.Trust.{add_new_stats-IsTrusted, find-trusted}

module _ (distance : RegionLocation → RegionLocation → ℕ) where
  fail_from-idle :
      (routing : Routing) (r : GeoRouter) (current : Option (List ℕ))
      → current ≡ none
      → fail_from distance routing r current ≡ (r, none)
  fail_from-idle routing r none h = refl
  fail_from-idle routing r (some current) h = cc

  fail_in-idle :
      (r : GeoRouter) (routing : Option Routing)
      → get_current_region (record r { routing = routing }) ≡ none
      → fail_in distance r routing ≡ (r, none)
  unfolding get_current_region
  fail_in-idle r none h = refl
  fail_in-idle r (some routing) h = fail_from-idle routing r routing.selector.current_region h

  handle_failure-idle :
      (r : GeoRouter) → get_current_region r ≡ none → handle_failure distance r ≡ (r, none)
  unfolding handle_failure
  handle_failure-idle r h =
      if_elim (λ answer. answer ≡ (r, none)) r.config.failover_enabled
        (λ enabled. fail_in-idle r r.routing h) (λ disabled. refl)

keep-Some :
    (P : RegionInfo → Type 0) (test : RegionInfo → Bool) (xs : List RegionInfo)
    → Some (λ r. P r × (test r ≡ true)) xs
    → Some P (keep test xs)
keep-Some P test [] h = absurd h
keep-Some P test (x ∷ xs) (inl (p, passes)) = rw passes (inl p)
keep-Some P test (x ∷ xs) (inr h) =
    if_elim (Some P) (test x) (λ passes. inr (keep-Some P test xs h))
      (λ fails. keep-Some P test xs h)

named_first :
    (name : List ℕ) (xs : List RegionInfo)
    → Some (λ r. r.name ≡ name) xs
    → (r : RegionInfo) × (find_named name xs ≡ some r) × Some (λ x. x ≡ r) xs × (r.name ≡ name)
named_first name xs h = elim (find_named-cases name xs) [
  | inl (missing, others) ↦ absurd (
      Some-none (λ r. r.name ≡ name) xs
        (All-map (λ r. same_text r.name name ≡ false) (λ r. r.name ≡ name → ⊥) xs
          (λ r other e.
            true≢false (sym (same_text_refl name) ∙ ap (λ n. same_text n name) (sym e) ∙ other))
          others)
        h)
  | inr found ↦ found
]

module _ (distance : RegionLocation → RegionLocation → ℕ) where
  select_among-preferred :
      (s : RegionSelector) (d : ℕ) (ds : List ℕ) (xs : List RegionInfo)
      → s.config.preferred_region ≡ some (d ∷ ds)
      → Some (λ r. r.name ≡ d ∷ ds) xs
      → (r : RegionInfo) × (select_among distance s xs ≡ (s, some r))
        × Some (λ x. x ≡ r) xs
        × (r.name ≡ d ∷ ds)
  select_among-preferred s d ds [] e h = absurd h
  select_among-preferred s d ds (x ∷ xs) e h =
      let (r, found, listed, named) = named_first (d ∷ ds) (x ∷ xs) h in
      (
        r,
        ap (λ p. preferred_or_fastest distance (preferred_in p (x ∷ xs)) s (x ∷ xs)) e
            ∙ ap (λ o. preferred_or_fastest distance o s (x ∷ xs)) found,
        listed,
        named,
      )

  -- the preferred region, where it is usable, is answered and nothing else changes
  select-preferred :
      (s : RegionSelector) (d : ℕ) (ds : List ℕ) (regions : List RegionInfo)
      → s.config.preferred_region ≡ some (d ∷ ds)
      → Some (λ r. (r.name ≡ d ∷ ds) × (is_usable s.prober [] r ≡ true)) regions
      → (r : RegionInfo) × (select distance regions [] s ≡ (s, some r))
        × Some (λ x. x ≡ r) regions
        × (r.name ≡ d ∷ ds)
  unfolding select
  select-preferred s d ds regions e h =
      let test = is_usable s.prober [] in
      let (r, found, listed, named) =
        select_among-preferred s d ds (keep test regions) e
          (keep-Some (λ r. r.name ≡ d ∷ ds) test regions h) in
      (
        r,
        found,
        (All-at (λ x. Some (λ y. y ≡ x) regions × (test x ≡ true)) r (keep test regions)
            (keep-All test (λ x. Some (λ y. y ≡ x) regions) regions (All-listed regions)) listed).0,
        named,
      )

  -- the selector of a new router, with the statistics of the regions that it is to choose from
  abbrev pub first_selector : GeoRoutingConfig → List RegionInfo → RegionSelector
  first_selector config regions = record {
    config = config;
    prober = set_regions config regions (record { regions = []; stats = [] });
    metrics = no_metrics;
    client_location = none;
    current_region = none;
  }

  first_selector-usable :
      (config : GeoRoutingConfig) (regions : List RegionInfo) (r : RegionInfo)
      → r.healthy ≡ true
      → is_usable (first_selector config regions).prober [] r ≡ true
  unfolding is_usable set_regions
  first_selector-usable config regions r h = rw h (
      find-trusted r.name (add_new_stats config regions [])
        (add_new_stats-IsTrusted config regions [] tt))

  -- The configuration with a discovery endpoint and a preferred region.
  abbrev pub preferring : GeoRoutingConfig → List ℕ → List ℕ → GeoRoutingConfig
  preferring config url name = record config {
    discovery_endpoint = some url;
    preferred_region = some name;
  }

  -- The router after its first start, where discovery answers.
  abbrev pub first_start : GeoRoutingConfig → ℕ → DiscoveryResponse → GeoRouter
  first_start config now response = (start distance now (ok response) (new_router config)).0

  -- The router uses the preferred region, and has no current region.
  abbrev pub Uses : List ℕ → List RegionInfo → GeoRouter → Type 0
  Uses name regions router =
      Some (λ r. (r.name ≡ name) × (router.current_endpoint ≡ some r.endpoint)) regions
      × (get_current_region router ≡ none)

  first_routing : GeoRoutingConfig → DiscoveryResponse → Routing
  first_routing config response = record {
    cache = some response;
    selector = record {
      config = config;
      prober = record { regions = []; stats = [] };
      metrics = no_metrics;
      client_location = none;
      current_region = none;
    };
  }

  with_regions-Uses :
      (config : GeoRoutingConfig) (d : ℕ) (ds : List ℕ) (response : DiscoveryResponse)
      (regions : List RegionInfo)
      → config.preferred_region ≡ some (d ∷ ds)
      → Some (λ r. (r.name ≡ d ∷ ds) × (r.healthy ≡ true)) regions
      → Uses
          (d ∷ ds)
          regions
          (with_regions distance regions (first_routing config response) (new_router config))
  unfolding first_routing new_router get_current_region
  with_regions-Uses config d ds response [] e h = absurd h
  with_regions-Uses config d ds response (x ∷ xs) e h =
      let s = first_selector config (x ∷ xs) in
      let usable =
        Some-map _ _ (x ∷ xs) (λ r p. (p.0, first_selector-usable config (x ∷ xs) r p.1)) h in
      let (r, found, listed, named) = select-preferred s d ds (x ∷ xs) e usable in
      (
        Some-map (λ y. y ≡ r) _ (x ∷ xs)
            (λ y same. (
              ap (λ z. z.name) same ∙ named,
              ap (λ a. endpoint_of a.1 none) found ∙ ap (λ z. some z.endpoint) (sym same),
            ))
            listed,
        ap (λ a. a.0.current_region) found,
      )

  -- After the first start of a router with a preferred region that discovery offers as healthy, the
  -- router uses an endpoint of that region; but no region is the current one, and when the region
  -- fails the router stays as it is and answers no new endpoint, whatever other regions there are.
  pub preferred_never_fails_over :
      (config : GeoRoutingConfig) (c : ℕ) (cs : List ℕ) (d : ℕ) (ds : List ℕ) (now : ℕ)
      (response : DiscoveryResponse)
      → Some (λ r. (r.name ≡ d ∷ ds) × (r.healthy ≡ true)) response.regions
      → let router = first_start (preferring config (c ∷ cs) (d ∷ ds)) now response in
        Uses (d ∷ ds) response.regions router × (handle_failure distance router ≡ (router, none))
  unfolding start new_router first_routing is_geo_routing_enabled discover
  preferred_never_fails_over config c cs d ds now response h =
      let used =
        with_regions-Uses (preferring config (c ∷ cs) (d ∷ ds)) d ds response response.regions refl
          h in
      (used, handle_failure-idle distance _ used.1)
