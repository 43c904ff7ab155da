-- ===== src/GeoRouting/Trust.antt =====
-- A region that is new to the prober is trusted.
use archerdb.Base.{ℕ, ◌≡◌, refl, true, List, [], ◌∷◌, Option, none, some, All, if_elim}
use archerdb.Base.Text.{same_text, find, assign}
use archerdb.GeoRouting.{
  GeoRoutingConfig, RegionInfo, RegionLatencyStats, new_stats, add_new_stats, is_healthy,
}
use archerdb.GeoRouting.Selector.{healthy_stats}

All-assign :
    (Q : RegionLatencyStats → Type 0) (key : List ℕ) (v : RegionLatencyStats)
    (d : List (List ℕ × RegionLatencyStats))
    → Q v
    → All (λ p. Q p.1) d
    → All (λ p. Q p.1) (assign key v d)
All-assign Q key v [] q h = (q, tt)
All-assign Q key v ((k, w) ∷ d) q h =
    if_elim (All (λ p. Q p.1)) (same_text k key) (λ same. (q, h.1))
      (λ other. (h.0, All-assign Q key v d q h.1))

-- Regions that are new to the prober are trusted.
abbrev pub IsTrusted : RegionLatencyStats → Type 0
IsTrusted stats = is_healthy stats ≡ true

known_or_new-IsTrusted :
    (config : GeoRoutingConfig) (name : List ℕ) (stats : List (List ℕ × RegionLatencyStats))
    (known : Option RegionLatencyStats)
    → All (λ p. IsTrusted p.1) stats
    → All
        (λ p. IsTrusted p.1)
        (elim known [ none ↦ assign name (new_stats config name) stats | some k ↦ stats ])
unfolding is_healthy new_stats
known_or_new-IsTrusted config name stats none h =
    All-assign IsTrusted name (new_stats config name) stats refl h
known_or_new-IsTrusted config name stats (some known) h = h

pub add_new_stats-IsTrusted :
    (config : GeoRoutingConfig) (regions : List RegionInfo)
    (stats : List (List ℕ × RegionLatencyStats))
    → All (λ p. IsTrusted p.1) stats
    → All (λ p. IsTrusted p.1) (add_new_stats config regions stats)
unfolding add_new_stats
add_new_stats-IsTrusted config [] stats h = h
add_new_stats-IsTrusted config (r ∷ regions) stats h =
    add_new_stats-IsTrusted config regions _
      (known_or_new-IsTrusted config r.name stats (find r.name stats) h)

pub find-trusted :
    (name : List ℕ) (stats : List (List ℕ × RegionLatencyStats))
    → All (λ p. IsTrusted p.1) stats
    → healthy_stats (find name stats) ≡ true
find-trusted name [] h = refl
find-trusted name ((k, v) ∷ stats) h =
    if_elim (λ known. healthy_stats known ≡ true) (same_text k name) (λ same. h.0)
      (λ other. find-trusted name stats h.1)
