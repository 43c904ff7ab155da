-- ===== src/GeoRouting/Rank.antt =====
-- Which region ranks first among the usable ones.
use archerdb.Base.{
  ℕ, ◌≡◌, refl, sym, inl, inr, true, false, List, [], ◌∷◌, Option, none, some, All, Some,
  All-listed, All-at, All-map, Option-cases, ltb,
}
use mathlib.Core.Option.{some-injective}
use archerdb.Base.Text.{truthy}
use archerdb.GeoRouting.{RegionInfo, RegionLocation, Average, lower}
use archerdb.GeoRouting.Selector.{
  RegionSelector, least, first, nearest, distances, measured, fastest, select_by_distance,
  select_by_latency,
}
use archerdb.GeoRouting.Least.{IsMeasured, least_average, least_distance}
use archerdb.GeoRouting.Measured.{
  rtt_of, measured-All, measured-IsMeasured, measured-each, distances-All, distances-each,
}

first-none : (xs : List RegionInfo) → first xs ≡ none → xs ≡ []
first-none [] h = refl
first-none (x ∷ xs) h = cc

first-some : (xs : List RegionInfo) (r : RegionInfo) → first xs ≡ some r → Some (λ x. x ≡ r) xs
first-some [] r h = cc
first-some (x ∷ xs) r h = inl (some-injective x r h)

module _ (distance : RegionLocation → RegionLocation → ℕ) (s : RegionSelector)
    (usable : List RegionInfo) where
  abbrev pub IsListed : RegionInfo → Type 0
  IsListed region = Some (λ x. x ≡ region) usable

  -- No usable region has a measured round trip.
  abbrev pub Unmeasured : Type 0
  Unmeasured = All (λ r. (b : Average) → rtt_of s.prober r ≡ some b → ⊥) usable

  -- Why a region ranks first among the usable ones: it has the lowest average round trip of those
  -- that were measured; or none was measured, and it is the nearest to the client; or the client's
  -- place is unknown too, and it is the first one.
  pub data Rank (region : RegionInfo) : Type 0 where
    lowest_latency :
        (a : Average)
        → rtt_of s.prober region ≡ some a
        → All (λ r. (b : Average) → rtt_of s.prober r ≡ some b → lower b a ≡ false) usable
        → Rank region
    nearest_region :
        (here : RegionLocation)
        → s.client_location ≡ some here
        → Unmeasured
        → All (λ r. ltb (distance here r.location) (distance here region.location) ≡ false) usable
        → Rank region
    first_region : s.client_location ≡ none → Unmeasured → first usable ≡ some region → Rank region

  abbrev pub Ranked : Option RegionInfo → Type 0
  Ranked none = usable ≡ []
  Ranked (some region) = IsListed region × Rank region

  -- The region is the configured one; an empty name in the configuration counts for none.
  abbrev pub IsPreferred : RegionInfo → Type 0
  IsPreferred r = (s.config.preferred_region ≡ some r.name) × (truthy r.name ≡ true)

  -- The preferred region is chosen where it is usable, and the rank decides where it is not.
  pub data Reason (region : RegionInfo) : Type 0 where
    preferred : IsPreferred region → Reason region
    by_rank : All (λ r. IsPreferred r → ⊥) usable → Rank region → Reason region

  abbrev pub Chosen : Option RegionInfo → Type 0
  Chosen none = usable ≡ []
  Chosen (some region) = IsListed region × Reason region

  first-Ranked : s.client_location ≡ none → Unmeasured → Ranked (first usable)
  first-Ranked no_place none_measured = elim (Option-cases (first usable)) [
    | inl e ↦ rw e (first-none usable e)
    | inr (r, e) ↦ rw e (first-some usable r e, first_region no_place none_measured e)
  ]

  nearest-Ranked :
      (here : RegionLocation) (away : List (RegionInfo × ℕ))
      → s.client_location ≡ some here
      → Unmeasured
      → All (λ p. IsListed p.0 × (p.1 ≡ distance here p.0.location)) away
      → ((Q : ℕ → Type 0) → All (λ p. Q p.1) away → All (λ r. Q (distance here r.location)) usable)
      → (away ≡ [] → usable ≡ [])
      → Ranked (nearest distance away)
  nearest-Ranked here [] place none_measured facts each empty = empty refl
  nearest-Ranked here ((r, k) ∷ away) place none_measured facts each empty =
      let known = least_distance r k away in
      let found =
        All-at (λ p. IsListed p.0 × (p.1 ≡ distance here p.0.location)) _ ((r, k) ∷ away) facts
          known.listed in
      (
        found.0,
        nearest_region here place none_measured (
            each (λ n. ltb n (distance here (least ltb (r, k) away).location) ≡ false)
              (All-map (λ p. ltb p.1 known.key ≡ false)
                (λ p. ltb p.1 (distance here (least ltb (r, k) away).location) ≡ false)
                ((r, k) ∷ away) (λ p above. rw (sym found.1) above) known.lowest)),
      )

  fastest-Ranked :
      (pairs : List (RegionInfo × Average))
      → All (λ p. IsListed p.0 × (rtt_of s.prober p.0 ≡ some p.1)) pairs
      → All (λ p. IsMeasured p.1) pairs
      → ((Q : Average → Type 0)
          → All (λ p. Q p.1) pairs
          → All (λ r. (b : Average) → rtt_of s.prober r ≡ some b → Q b) usable)
      → (Unmeasured → Ranked (select_by_distance distance s.client_location usable))
      → Ranked (fastest distance pairs s.client_location usable)
  fastest-Ranked [] facts positive each otherwise = otherwise (each (λ b. ⊥) tt)
  fastest-Ranked ((r, a) ∷ pairs) facts positive each otherwise =
      let known = least_average r a pairs positive.0 positive.1 in
      let found =
        All-at (λ p. IsListed p.0 × (rtt_of s.prober p.0 ≡ some p.1)) _ ((r, a) ∷ pairs) facts
          known.listed in
      (
        found.0,
        lowest_latency known.key found.1 (each (λ b. lower b known.key ≡ false) known.lowest),
      )

  distances-empty :
      (here : RegionLocation) (xs : List RegionInfo) → distances distance here xs ≡ [] → xs ≡ []
  distances-empty here [] h = refl
  distances-empty here (x ∷ xs) h = cc

  distance-Ranked :
      (place : Option RegionLocation)
      → s.client_location ≡ place
      → Unmeasured
      → Ranked (select_by_distance distance place usable)
  unfolding select_by_distance
  distance-Ranked none e none_measured = first-Ranked e none_measured
  distance-Ranked (some here) e none_measured =
      nearest-Ranked here (distances distance here usable) e none_measured
        (distances-All distance here IsListed usable (All-listed usable))
        (λ Q h. distances-each distance here Q usable h) (distances-empty here usable)

  pub latency-Ranked : Ranked (select_by_latency distance s usable)
  unfolding select_by_latency
  latency-Ranked =
      fastest-Ranked (measured s.prober usable)
        (measured-All s.prober IsListed usable (All-listed usable))
        (measured-IsMeasured s.prober usable) (λ Q h. measured-each s.prober Q usable h)
        (distance-Ranked s.client_location refl)
