-- ===== src/GeoRouting/Failover.antt =====
-- What the router does when the region that it uses fails.
use archerdb.Base.{
  ℕ, ◌≡◌, ◌≢◌, refl, sym, ap, ◌∙◌, true, false, List, [], ◌∷◌, Option, none, some, if_elim,
  true≢false,
}
use archerdb.Base.Text.{same_text_refl, listed_in, find}
use archerdb.GeoRouting.{RegionInfo, RegionLocation}
use archerdb.GeoRouting.Selector.{RegionSelector, select, failover, with_health, failed_over}
use archerdb.GeoRouting.Choice.{IsAnswer, select-IsAnswer}

listed_self : (name : List ℕ) → listed_in name (name ∷ []) ≡ true
listed_self name = rw (same_text_refl name) refl

module _ (distance : RegionLocation → RegionLocation → ℕ) where
  failed_over-region :
      (current : List ℕ) (answer : RegionSelector × Option RegionInfo)
      → (failed_over distance current answer).1 ≡ answer.1
  failed_over-region current (s, none) = refl
  failed_over-region current (s, some r) = refl

  -- the selector after the failing region was marked
  abbrev pub marked : List ℕ → RegionSelector → RegionSelector
  marked current s = record s {
    prober = with_health distance s.prober current (find current s.prober.stats);
  }

  pub failover-select :
      (current : List ℕ) (regions : List RegionInfo) (s : RegionSelector)
      → s.config.failover_enabled ≡ true
      → (failover distance current regions s).1
        ≡ (select distance regions (current ∷ []) (marked current s)).1
  unfolding failover
  failover-select current regions s enabled =
      if_elim
        (λ (answer : RegionSelector × Option RegionInfo).
          answer.1 ≡ (select distance regions (current ∷ []) (marked current s)).1)
        s.config.failover_enabled
        (λ yes.
          failed_over-region current (select distance regions (current ∷ []) (marked current s)))
        (λ no. absurd (true≢false (sym enabled ∙ no)))

  avoids : (current name : List ℕ) → listed_in name (current ∷ []) ≡ false → name ≢ current
  avoids current name h e =
      true≢false (sym (ap (λ n. listed_in n (current ∷ [])) e ∙ listed_self current) ∙ h)

  -- The region that the selector answers, if it answers one, has the property.
  abbrev pub Every : (RegionInfo → Type 0) → Option RegionInfo → Type 0
  Every P none = Unit
  Every P (some r) = P r

  other_region :
      (current : List ℕ) (regions : List RegionInfo) (s : RegionSelector) (r : Option RegionInfo)
      → IsAnswer distance regions (current ∷ []) s r
      → Every (λ region. region.name ≢ current) r
  other_region current regions s none h = tt
  other_region current regions s (some r) h = avoids current r.name h.2

  -- Where failover is enabled, it answers what the selector may answer among the regions other than
  -- the failing one, once this is marked unhealthy: never the failing region itself, and no region
  -- only where no other one is usable.
  pub failover-IsAnswer :
      (current : List ℕ) (regions : List RegionInfo) (s : RegionSelector)
      → s.config.failover_enabled ≡ true
      → IsAnswer distance regions
          (current ∷ [])
          (marked current s)
          (failover distance current regions s).1
        × Every (λ region. region.name ≢ current) (failover distance current regions s).1
  failover-IsAnswer current regions s enabled = rw (failover-select current regions s enabled) (
      let h = select-IsAnswer distance regions (current ∷ []) (marked current s) in
      (h, other_region current regions (marked current s) _ h))
