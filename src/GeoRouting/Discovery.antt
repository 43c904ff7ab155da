-- ===== src/GeoRouting/Discovery.antt =====
-- The discovery of regions with its cache (geo_routing.py, `DiscoveryResponse`,
-- `RegionDiscoveryClient`). What the HTTP request gives is an argument; times are in milliseconds.
use archerdb.Base.{
  ℕ, ◌+◌, ◌≡◌, refl, Bool, true, false, and_then, List, [], ◌∷◌, Option, none, some, Result, ok,
  err, All, ltb, if◌then◌else◌,
}
use archerdb.Errors.{Error, other, codes}
use archerdb.GeoRouting.{RegionInfo}

-- A time with an offset from UTC, or one without: `datetime.fromisoformat` gives either.
pub data Expiry : Type 0 where
  aware naive : ℕ → Expiry

pub record DiscoveryResponse : Type 0 where
  pub regions : List RegionInfo
  pub expires : Option Expiry
  pub fetched_at : ℕ

-- the `TypeError` of a comparison of a time with an offset and one without
abbrev pub naive_comparison : Error
naive_comparison = other (codes "can't compare offset-naive and offset-aware datetimes")

-- without an expiry a response lives for 300 seconds
abbrev pub expired_at : ℕ → ℕ → Option Expiry → Result Error Bool
expired_at now fetched_at none = ok (ltb (fetched_at + 300_000) now)
expired_at now fetched_at (some (aware expires)) = ok (ltb expires now)
expired_at now fetched_at (some (naive expires)) = err naive_comparison

unfoldable pub is_expired : ℕ → DiscoveryResponse → Result Error Bool
is_expired now response = expired_at now response.fetched_at response.expires

-- The regions, a `DiscoveryError`, or an exception of another class.
pub data DiscoveryOutcome : Type 0 where
  discovered : List RegionInfo → DiscoveryOutcome
  discovery_error raised : Error → DiscoveryOutcome

-- the `except` branch: the cached regions, or `DiscoveryError`
abbrev pub fall_back : Error → Option DiscoveryResponse → DiscoveryOutcome
fall_back e none = discovery_error e
fall_back e (some cached) = discovered cached.regions

abbrev pub fetched :
    Result Error DiscoveryResponse
    → Option DiscoveryResponse
    → Option DiscoveryResponse × DiscoveryOutcome
fetched (ok response) cache = (some response, discovered response.regions)
fetched (err e) cache = (cache, fall_back e cache)

-- the cached response that may be used without a request
abbrev pub usable_cache :
    Bool → ℕ → Option DiscoveryResponse → Result Error (Option DiscoveryResponse)
usable_cache force_refresh now none = ok none
usable_cache true now (some cached) = ok none
usable_cache false now (some cached) =
    and_then (is_expired now cached) (λ expired. ok (if expired then none else some cached))

abbrev pub serve :
    Result Error DiscoveryResponse
    → Option DiscoveryResponse
    → Result Error (Option DiscoveryResponse)
    → Option DiscoveryResponse × DiscoveryOutcome
serve answer cache (err e) = (cache, raised e)
serve answer cache (ok none) = fetched answer cache
serve answer cache (ok (some cached)) = (cache, discovered cached.regions)

-- `discover`: the cache after the call, and the regions or the error
unfoldable pub discover :
    Bool
    → ℕ
    → Result Error DiscoveryResponse
    → Option DiscoveryResponse
    → Option DiscoveryResponse × DiscoveryOutcome
unfolding is_expired
discover force_refresh now answer cache = serve answer cache (usable_cache force_refresh now cache)

unfoldable pub get_cached : Option DiscoveryResponse → Option (List RegionInfo)
get_cached none = none
get_cached (some cached) = some cached.regions

unfoldable pub clear_cache : Option DiscoveryResponse → Option DiscoveryResponse
clear_cache cache = none

-- A call of `discover`, with the time and what a request would give.
pub record Request : Type 0 where
  pub force_refresh : Bool
  pub now : ℕ
  pub answer : Result Error DiscoveryResponse

pub discoveries : List Request → Option DiscoveryResponse → List DiscoveryOutcome
discoveries [] cache = []
discoveries (r ∷ requests) cache =
    let (after, outcome) = discover r.force_refresh r.now r.answer cache in
    outcome ∷ discoveries requests after

-- The response has no expiry, or one with an offset.
abbrev pub HasOffset : Option Expiry → Type 0
HasOffset none = Unit
HasOffset (some (aware expires)) = Unit
HasOffset (some (naive expires)) = ⊥

module _ (P : DiscoveryResponse → Type 0) where
  -- The regions are those of a response with the property.
  pub record IsServed (outcome : DiscoveryOutcome) : Type 0 where
    pub response : DiscoveryResponse
    pub good : P response
    pub served : outcome ≡ discovered response.regions

  -- A response has the property, and an expiry that can be compared, if it has one.
  abbrev pub IsGood : DiscoveryResponse → Type 0
  IsGood response = P response × HasOffset response.expires

  -- So has a response that a request receives.
  abbrev pub Delivers : Result Error DiscoveryResponse → Type 0
  Delivers (ok response) = IsGood response
  Delivers (err e) = Unit

  -- So has the response in the cache; there is one.
  abbrev pub Holds : Option DiscoveryResponse → Type 0
  Holds none = ⊥
  Holds (some response) = IsGood response

  fetched-IsServed :
      (answer : Result Error DiscoveryResponse) (cache : Option DiscoveryResponse)
      → Delivers answer
      → Holds cache
      → Holds (fetched answer cache).0 × IsServed (fetched answer cache).1
  fetched-IsServed (ok response) cache d h =
      (d, record { response = response; good = d.0; served = refl })
  fetched-IsServed (err e) none d h = absurd h
  fetched-IsServed (err e) (some c) d h = (h, record { response = c; good = h.0; served = refl })

  expired_at-ok :
      (now fetched_at : ℕ) (expires : Option Expiry)
      → HasOffset expires
      → (expired : Bool) × (expired_at now fetched_at expires ≡ ok expired)
  expired_at-ok now fetched_at none h = (_, refl)
  expired_at-ok now fetched_at (some (aware expires)) h = (_, refl)
  expired_at-ok now fetched_at (some (naive expires)) h = absurd h

  -- the outcome of a call that did test its cache
  tested-IsServed :
      (answer : Result Error DiscoveryResponse) (c : DiscoveryResponse) (expired : Bool)
      → Delivers answer
      → IsGood c
      → let after = serve answer (some c) (ok (if expired then none else some c)) in
        Holds after.0 × IsServed after.1
  tested-IsServed answer c true d h = fetched-IsServed answer (some c) d h
  tested-IsServed answer c false d h = (h, record { response = c; good = h.0; served = refl })

  discover-IsServed :
      (force_refresh : Bool) (now : ℕ) (answer : Result Error DiscoveryResponse)
      (cache : Option DiscoveryResponse)
      → Delivers answer
      → Holds cache
      → Holds (discover force_refresh now answer cache).0
        × IsServed (discover force_refresh now answer cache).1
  unfolding discover
  discover-IsServed force now answer none d h = absurd h
  discover-IsServed true now answer (some c) d h = fetched-IsServed answer (some c) d h
  discover-IsServed false now answer (some c) d h =
      let (expired, same) = expired_at-ok now c.fetched_at c.expires h.1 in
      rw same (tested-IsServed answer c expired d h)

  IsServed-from :
      (requests : List Request) (cache : Option DiscoveryResponse)
      → All (λ r. Delivers r.answer) requests
      → Holds cache
      → All IsServed (discoveries requests cache)
  unfolding discoveries
  IsServed-from [] cache d h = tt
  IsServed-from (r ∷ requests) cache d h =
      let (kept, served) = discover-IsServed r.force_refresh r.now r.answer cache d.0 h in
      (served, IsServed-from requests (discover r.force_refresh r.now r.answer cache).0 d.1 kept)

  -- Once a response is cached, and as long as it and those that arrive have no expiry without an
  -- offset from UTC, no call of `discover` raises, whenever the cache expires and whichever requests
  -- fail: each call returns the regions of the cached response or of a later one. So what holds of
  -- the cached response and of all that arrive holds of the one that is served.
  pub discoveries-IsServed :
      (requests : List Request) (cached : DiscoveryResponse)
      → All (λ r. Delivers r.answer) requests
      → IsGood cached
      → All IsServed (discoveries requests (some cached))
  discoveries-IsServed requests cached d h = IsServed-from requests (some cached) d h

-- A call that does not force a refresh, or whose request fails.
abbrev pub RenewsNothing : Bool → Result Error DiscoveryResponse → Type 0
RenewsNothing false answer = Unit
RenewsNothing true (ok response) = ⊥
RenewsNothing true (err e) = Unit

-- What such calls give, when the test of the cached response raises.
abbrev pub raised_or_cached : DiscoveryResponse → List Request → List DiscoveryOutcome
raised_or_cached cached [] = []
raised_or_cached cached (r ∷ requests) =
    (if r.force_refresh then discovered cached.regions else raised naive_comparison)
    ∷ raised_or_cached cached requests
