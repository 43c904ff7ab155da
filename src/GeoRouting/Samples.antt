-- ===== src/GeoRouting/Samples.antt =====
-- What a region's statistics hold after any probes.
use archerdb.Base.{
  ℕ, zero, suc, ◌+◌, ◌-◌, ◌≤◌, ◌≡◌, refl, ap, ◌∙◌, sym, true, false, List, [], ◌∷◌, ◌++◌, length,
  length-append, length-drop, drop, drop-add, drop-length, arith, leb, if_elim, leb→gt,
}
use mathlib.Core.List.{append_assoc, append-nil}
use archerdb.GeoRouting.{
  RegionHealth, RegionLatencyStats, unhealthy, append_sample, after_success, add_sample,
  record_failure, is_healthy, trusted,
}

-- A probe of the region at a time: the round trip that it measured, or its failure.
pub data Probe : Type 0 where
  answered : ℕ → ℕ → Probe
  missed : ℕ → Probe

unfoldable pub probe : ℕ → Probe → RegionLatencyStats → RegionLatencyStats
unfolding add_sample record_failure
probe threshold (answered now rtt) s = add_sample now rtt s
probe threshold (missed now) s = record_failure threshold now s

unfoldable pub probe_all : ℕ → List Probe → RegionLatencyStats → RegionLatencyStats
unfolding probe
probe_all threshold [] s = s
probe_all threshold (p ∷ probes) s = probe_all threshold probes (probe threshold p s)

-- the round trips that the probes measured, in their order
abbrev pub round_trips : List Probe → List ℕ
round_trips [] = []
round_trips (answered now rtt ∷ probes) = rtt ∷ round_trips probes
round_trips (missed now ∷ probes) = round_trips probes

abbrev pub last : ℕ → List ℕ → List ℕ
last n xs = drop (length xs - n) xs

drop-append : (k : ℕ) (xs ys : List ℕ) → k ≤ length xs → drop k (xs ++ ys) ≡ drop k xs ++ ys
drop-append zero xs ys h = refl
drop-append (suc k) [] ys h = absurd (omega arith)
drop-append (suc k) (x ∷ xs) ys h = drop-append k xs ys (omega arith)

last_snoc : (n x : ℕ) (xs : List ℕ) → last n (last n xs ++ x ∷ []) ≡ last n (xs ++ x ∷ [])
last_snoc n x xs =
    let k = length xs - n in
    let kept = length-drop k xs in
    let size = length-append (drop k xs) (x ∷ []) in
    let whole = length-append xs (x ∷ []) in
    let split : k + (length (drop k xs ++ x ∷ []) - n) ≡ length (xs ++ x ∷ []) - n =
      omega (arith, kept, size, whole) in
    ap (λ ys. drop (length (drop k xs ++ x ∷ []) - n) ys)
      (sym (drop-append k xs (x ∷ []) (omega arith)))
    ∙ sym (drop-add k (length (drop k xs ++ x ∷ []) - n) (xs ++ x ∷ []))
    ∙ ap (λ m. drop m (xs ++ x ∷ [])) split

window :
    (threshold : ℕ) (probes : List Probe) (s : RegionLatencyStats) (history : List ℕ)
    → s.samples ≡ last s.maxlen history
    → (probe_all threshold probes s).samples ≡ last s.maxlen (history ++ round_trips probes)
unfolding probe_all append_sample
window threshold [] s history h = h ∙ ap (last s.maxlen) (sym (append-nil history))
window threshold (answered now rtt ∷ probes) s history h =
    window threshold probes (add_sample now rtt s) (history ++ rtt ∷ [])
      (ap (λ xs. last s.maxlen (xs ++ rtt ∷ [])) h ∙ last_snoc s.maxlen rtt history)
    ∙ ap (last s.maxlen) (append_assoc history (rtt ∷ []) (round_trips probes))
window threshold (missed now ∷ probes) s history h =
    window threshold probes (record_failure threshold now s) history h

-- After any probes of a region that had no samples, its samples are the round trips last measured,
-- as many as the window holds: failed probes between them change nothing.
pub samples-probe_all :
    (threshold : ℕ) (probes : List Probe) (s : RegionLatencyStats)
    → s.samples ≡ []
    → (probe_all threshold probes s).samples ≡ last s.maxlen (round_trips probes)
samples-probe_all threshold probes s h =
    window threshold probes s [] (h ∙ sym (drop-length (0 - s.maxlen) [] (omega arith)))

-- `times` are the times of the failed probes
abbrev pub misses : List ℕ → List Probe
misses [] = []
misses (now ∷ times) = missed now ∷ misses times

failed-health :
    (threshold now : ℕ) (times : List ℕ) (s : RegionLatencyStats)
    → threshold ≤ s.consecutive_failures + suc (length times)
    → (probe_all threshold (misses (now ∷ times)) s).health ≡ unhealthy
unfolding probe_all
failed-health threshold now [] s h =
    if_elim (λ health. health ≡ unhealthy) (leb threshold (s.consecutive_failures + 1))
      (λ reached. refl)
      (λ below.
        absurd (let gt = leb→gt threshold (s.consecutive_failures + 1) below in omega (arith, gt)))
failed-health threshold now (later ∷ times) s h =
    failed-health threshold later times (record_failure threshold now s) (omega arith)

trusts_success : (h : RegionHealth) → h ≡ unhealthy → trusted (after_success h) ≡ true
trusts_success h e = ap (λ x. trusted (after_success x)) e

-- Probes that fail one after the other, at least as many as the threshold and at least one, leave a
-- region unhealthy, whatever was known of it; the next probe that succeeds makes it healthy again.
pub misses-is_healthy :
    (threshold now : ℕ) (times : List ℕ) (later rtt : ℕ) (s : RegionLatencyStats)
    → threshold ≤ suc (length times)
    → (is_healthy (probe_all threshold (misses (now ∷ times)) s) ≡ false)
      × (is_healthy (add_sample later rtt (probe_all threshold (misses (now ∷ times)) s)) ≡ true)
unfolding is_healthy add_sample
misses-is_healthy threshold now times later rtt s enough =
    let failed = failed-health threshold now times s (omega arith) in
    (ap trusted failed, trusts_success (probe_all threshold (misses (now ∷ times)) s).health failed)
