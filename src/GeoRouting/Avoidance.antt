-- ===== src/GeoRouting/Avoidance.antt =====
-- How failed probes keep a region from being selected.
use archerdb.Base.{
  ℕ, suc, ◌≤◌, ◌≡◌, ◌≢◌, sym, ap, ◌∙◌, false, List, [], ◌∷◌, Option, none, some, true≢false, length,
}
use archerdb.Base.Text.{find, find-assign_self}
use archerdb.GeoRouting.{
  GeoRoutingConfig, RegionInfo, RegionLocation, RegionLatencyStats, GeoRoutingMetrics,
  LatencyProber, record_failure,
}
use archerdb.GeoRouting.Probing.{note_probe}
use archerdb.GeoRouting.Samples.{probe_all, misses, misses-is_healthy}
use archerdb.GeoRouting.Selector.{RegionSelector, select, is_region_healthy, healthy_stats}
use archerdb.GeoRouting.Choice.{IsAnswer, select-IsAnswer}
use archerdb.GeoRouting.Failover.{Every}

-- probes of one region that fail at these times
abbrev pub fail_probes :
    GeoRoutingConfig
    → List ℕ
    → List ℕ
    → LatencyProber × GeoRoutingMetrics
    → LatencyProber × GeoRoutingMetrics
fail_probes config name [] state = state
fail_probes config name (now ∷ times) state =
    fail_probes config name times (note_probe config now name none state)

known-fail_probes :
    (config : GeoRoutingConfig) (name times : List ℕ) (prober : LatencyProber)
    (metrics : GeoRoutingMetrics) (stats : RegionLatencyStats)
    → find name prober.stats ≡ some stats
    → find name (fail_probes config name times (prober, metrics)).0.stats
      ≡ some (probe_all config.unhealthy_threshold (misses times) stats)
unfolding note_probe probe_all
known-fail_probes config name [] prober metrics stats known = known
known-fail_probes config name (now ∷ times) prober metrics stats known =
    let (after, counted) = note_probe config now name none (prober, metrics) in
    known-fail_probes config name times after counted
      (record_failure config.unhealthy_threshold now stats)
      (rw (note_probe, known)
        (find-assign_self name (record_failure config.unhealthy_threshold now stats) prober.stats))

module _ (distance : RegionLocation → RegionLocation → ℕ) where
  healthy_name :
      (s : RegionSelector) (regions : List RegionInfo) (exclude : List (List ℕ)) (name : List ℕ)
      (r : Option RegionInfo)
      → is_region_healthy s.prober name ≡ false
      → IsAnswer distance regions exclude s r
      → Every distance (λ region. region.name ≢ name) r
  healthy_name s regions exclude name none ill h = tt
  healthy_name s regions exclude name (some r) ill h =
      λ e. true≢false (sym h.3 ∙ ap (is_region_healthy s.prober) e ∙ ill)

  -- After as many failed probes of a known region as the threshold, one after the other, the selector
  -- never answers that region, whatever regions discovery offers and whatever is excluded.
  pub failed_probes-select :
      (s : RegionSelector) (stats : RegionLatencyStats) (name : List ℕ) (now : ℕ) (times : List ℕ)
      (regions : List RegionInfo) (exclude : List (List ℕ))
      → find name s.prober.stats ≡ some stats
      → s.config.unhealthy_threshold ≤ suc (length times)
      → let (prober, metrics) = fail_probes s.config name (now ∷ times) (s.prober, s.metrics) in
        Every distance
          (λ region. region.name ≢ name)
          (select distance regions exclude (record s { prober = prober; metrics = metrics })).1
  unfolding is_region_healthy
  failed_probes-select s stats name now times regions exclude known enough =
      let (prober, metrics) = fail_probes s.config name (now ∷ times) (s.prober, s.metrics) in
      let failing = record s { prober = prober; metrics = metrics } in
      healthy_name failing regions exclude name (select distance regions exclude failing).1
        (ap healthy_stats
            (known-fail_probes s.config name (now ∷ times) s.prober s.metrics stats known)
          ∙ (misses-is_healthy s.config.unhealthy_threshold now times 0 0 stats enough).0)
        (select-IsAnswer distance regions exclude failing)
