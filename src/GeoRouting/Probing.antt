-- ===== src/GeoRouting/Probing.antt =====
-- The probes (geo_routing.py, `LatencyProber`). What a probe measures is an argument: its round trip,
-- or nothing when it failed. The thread that probes in turns is not modelled, only its rounds.
use archerdb.Base.{ℕ, Bool, true, false, List, [], ◌∷◌, Option, none, some, ◌==◌, if◌then◌else◌}
use archerdb.Base.Text.{same_text, find, assign}
use archerdb.GeoRouting.{
  GeoRoutingConfig, RegionInfo, Average, add_sample, record_failure, get_average_rtt,
  GeoRoutingMetrics, update_latency, LatencyProber,
}

-- `stats.get_average_rtt_ms() or rtt_ms`: an average of 0 is no truth value
abbrev pub latency_or : ℕ → Option Average → Average
latency_or rtt none = record { total = rtt; count = 1 }
latency_or rtt (some a) = if a.total == 0 then record { total = rtt; count = 1 } else a

-- one probe of a region: the round trip that was measured, or the failure
unfoldable pub note_probe :
    GeoRoutingConfig
    → ℕ
    → List ℕ
    → Option ℕ
    → LatencyProber × GeoRoutingMetrics
    → LatencyProber × GeoRoutingMetrics
unfolding add_sample record_failure get_average_rtt update_latency
note_probe config now name measured (prober, metrics) = elim (find name prober.stats) [
  | none ↦ (prober, metrics)
  | some stats ↦ elim measured [
    | none ↦ (
      record prober {
        stats = assign name (record_failure config.unhealthy_threshold now stats) prober.stats;
      },
      metrics,
    )
    | some rtt ↦
        let sampled = add_sample now rtt stats in
        (
          record prober { stats = assign name sampled prober.stats },
          update_latency name (latency_or rtt (get_average_rtt sampled)) metrics,
        )
  ]
]

-- `_probe_all_regions`, with the time and the result of the probe of each region
unfoldable pub probe_all_regions :
    GeoRoutingConfig
    → (RegionInfo → ℕ × Option ℕ)
    → List RegionInfo
    → LatencyProber × GeoRoutingMetrics
    → LatencyProber × GeoRoutingMetrics
unfolding note_probe
probe_all_regions config probe [] state = state
probe_all_regions config probe (region ∷ regions) state =
    let (now, measured) = probe region in
    probe_all_regions config probe regions (note_probe config now region.name measured state)

-- `[r for r in self._regions if r.name == region_name]` is not empty
abbrev pub is_probed : List ℕ → List RegionInfo → Bool
is_probed name [] = false
is_probed name (r ∷ regions) = if same_text r.name name then true else is_probed name regions

-- `probe_now`: the state after it, and the round trip
unfoldable pub probe_now :
    GeoRoutingConfig
    → ℕ
    → List ℕ
    → Option ℕ
    → LatencyProber × GeoRoutingMetrics
    → (LatencyProber × GeoRoutingMetrics) × Option ℕ
unfolding note_probe
probe_now config now name measured (prober, metrics) =
    if is_probed name prober.regions
    then (note_probe config now name measured (prober, metrics), measured)
    else ((prober, metrics), none)
