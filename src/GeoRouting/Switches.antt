-- ===== src/GeoRouting/Switches.antt =====
-- The switches between regions that the metrics count.
use archerdb.Base.{
  ℕ, ◌+◌, ◌≡◌, ◌≢◌, refl, sym, ap, ◌∙◌, true, List, [], ◌∷◌, Option, none, some, if_elim,
  true≢false, arith,
}
use mathlib.Core.Option.{some-injective}
use archerdb.Base.Text.{same_text, same_text→eq, find, assign, find-assign_self}
use archerdb.GeoRouting.{RegionInfo, RegionLocation, GeoRoutingMetrics, record_switch, or_zero, row}
use archerdb.GeoRouting.Selector.{
  RegionSelector, chosen, remember, preferred_in, preferred_or_fastest, select_by_latency,
  select_among, select, failover, failed_over, keep, is_usable,
}
use archerdb.GeoRouting.Failover.{marked, failover-select, failover-IsAnswer}

-- how often the metrics count a switch from one region to another
abbrev pub switches : List ℕ → List ℕ → GeoRoutingMetrics → ℕ
switches from_region to_region m =
    or_zero (find to_region (row (find from_region m.region_switches)))

-- A switch that is recorded is counted once.
switches-record_switch :
    (from_region to_region : List ℕ) (m : GeoRoutingMetrics)
    → switches from_region to_region (record_switch from_region to_region m)
      ≡ switches from_region to_region m + 1
unfolding record_switch
switches-record_switch from_region to_region m =
    let to_here = row (find from_region m.region_switches) in
    let counted = assign to_region (or_zero (find to_region to_here) + 1) to_here in
    ap (λ known. or_zero (find to_region (row known)))
      (find-assign_self from_region counted m.region_switches)
    ∙ ap or_zero (find-assign_self to_region (or_zero (find to_region to_here) + 1) to_here)

remember-metrics :
    (region : RegionInfo) (s : RegionSelector) (c : ℕ) (cs : List ℕ)
    → s.current_region ≡ some (c ∷ cs)
    → region.name ≢ c ∷ cs
    → (remember region s).metrics ≡ record_switch (c ∷ cs) region.name s.metrics
unfolding remember
remember-metrics region s c cs e ne =
    ap (λ current. (remember region (record s { current_region = current })).metrics) e
    ∙ if_elim
        (λ (after : RegionSelector). after.metrics ≡ record_switch (c ∷ cs) region.name s.metrics)
        (same_text region.name (c ∷ cs))
        (λ same. absurd (ne (same_text→eq region.name (c ∷ cs) same))) (λ other. refl)

module _ (distance : RegionLocation → RegionLocation → ℕ) where
  chosen-remember :
      (r : Option RegionInfo) (s : RegionSelector) (region : RegionInfo)
      → (chosen r s).1 ≡ some region
      → (chosen r s).0 ≡ remember region s
  chosen-remember none s region h = cc
  chosen-remember (some r) s region h = ap (λ x. remember x s) (some-injective r region h)

  select_among-remember :
      (s : RegionSelector) (region : RegionInfo) (xs : List RegionInfo)
      → s.config.preferred_region ≡ none
      → (select_among distance s xs).1 ≡ some region
      → (select_among distance s xs).0 ≡ remember region s
  select_among-remember s region [] e h = cc
  select_among-remember s region (x ∷ xs) e h =
      let rest = ap (λ p. preferred_or_fastest distance (preferred_in p (x ∷ xs)) s (x ∷ xs)) e in
      ap (λ a. a.0) rest
      ∙ chosen-remember (select_by_latency distance s (x ∷ xs)) s region
          (sym (ap (λ a. a.1) rest) ∙ h)

  failed_over-switches :
      (current : List ℕ) (answer : RegionSelector × Option RegionInfo) (region : RegionInfo)
      → answer.1 ≡ some region
      → switches current region.name (failed_over distance current answer).0.metrics
        ≡ switches current region.name answer.0.metrics + 1
  failed_over-switches current (s, none) region h = cc
  failed_over-switches current (s, some r) region h =
      ap (λ x. switches current region.name (record_switch current x.name s.metrics))
        (some-injective r region h)
      ∙ switches-record_switch current region.name s.metrics

  enabled-failed_over :
      (current : List ℕ) (regions : List RegionInfo) (s : RegionSelector)
      → s.config.failover_enabled ≡ true
      → failover distance current regions s
        ≡ failed_over distance current
            (select distance regions (current ∷ []) (marked distance current s))
  unfolding failover
  enabled-failed_over current regions s enabled =
      if_elim
        (λ answer.
          answer
          ≡ failed_over distance current
              (select distance regions (current ∷ []) (marked distance current s)))
        s.config.failover_enabled (λ yes. refl) (λ no. absurd (true≢false (sym enabled ∙ no)))

  -- Without a preferred region, a failover from the current region to another one is counted twice:
  -- by the selection of the new region and by the failover itself.
  pub failover_counts_twice :
      (c : ℕ) (cs : List ℕ) (regions : List RegionInfo) (s : RegionSelector) (region : RegionInfo)
      → s.config.failover_enabled ≡ true
      → s.config.preferred_region ≡ none
      → s.current_region ≡ some (c ∷ cs)
      → (failover distance (c ∷ cs) regions s).1 ≡ some region
      → switches (c ∷ cs) region.name (failover distance (c ∷ cs) regions s).0.metrics
        ≡ switches (c ∷ cs) region.name s.metrics + 2
  unfolding select
  failover_counts_twice c cs regions s region enabled no_preference current answered =
      let current_name = c ∷ cs in
      let before = marked distance current_name s in
      let answer = select distance regions (current_name ∷ []) before in
      let found = sym (failover-select distance current_name regions s enabled) ∙ answered in
      let ne = rw answered at (failover-IsAnswer distance current_name regions s enabled).1 in
      let remembered =
        select_among-remember before region
          (keep (is_usable before.prober (current_name ∷ [])) regions) no_preference found in
      ap (λ a. switches current_name region.name a.0.metrics)
        (enabled-failed_over current_name regions s enabled)
      ∙ failed_over-switches current_name answer region found
      ∙ ap (λ a. switches current_name region.name a + 1)
          (ap (λ a. a.metrics) remembered ∙ remember-metrics region before c cs current ne)
      ∙ ap (λ n. n + 1) (switches-record_switch current_name region.name s.metrics)
      ∙ omega arith
