-- ===== src/Retry/Success.antt =====
-- When the retry loop succeeds.
use native.Mathlib.Decide.{dec_lt}
use archerdb.Base.{ℕ, suc, ◌+◌, ◌≤◌, ◌<◌, ◌≡◌, refl, true, arith}
use archerdb.Errors.{Error}
use archerdb.Retry.{
  RetryConfig, succeeded, failed, Script, Ended, returned, Trace, delay_after, with_retry,
}
use archerdb.Retry.Rule.{Fails, Rule, with_retry_rule}

module _ {A : Type 0} (config : RetryConfig) (s : Script A) where
  -- The run of number `k` returns `a`, those before it fail with errors that may be retried, and
  -- neither the runs nor the delays between them meet the total timeout.
  pub record SucceedsAt (k : ℕ) (a : A) : Type 0 where
    pub result : s.outcome k ≡ succeeded a
    pub earlier : (i : ℕ) → 1 ≤ i → i < k → (e : Error) × Fails s i e
    pub on_time : (i : ℕ) → 1 ≤ i → i ≤ k → s.before i < config.total_timeout_ms
    pub waits :
        (i : ℕ) → 1 ≤ i → i < k → s.after i + delay_after config s i < config.total_timeout_ms

  module _ (k : ℕ) (a : A) (h : SucceedsAt k a) where
    record Underway (n : ℕ) (e : Error) (t : Trace) : Type 0 where
      calls : t.calls ≡ n
      to_go : n < k

    abbrev Succeeded : Ended A × Trace → Type 0
    Succeeded r = (r.0 ≡ returned a) × (r.1.calls ≡ k)

    -- a run that fails is not the one of number `k`
    fails_before : (n : ℕ) {e : Error} → n < k → s.outcome (suc n) ≡ failed e → suc n < k
    fails_before n lt bad = elim (dec_lt (suc n) k) [
      | yes before ↦ before
      | no at ↦ let last : suc n ≡ k = omega arith in absurd (cc (rw last at bad, h.result))
    ]

    success_rule : k ≤ config.max_retries + 1 → Rule config s Underway Succeeded
    success_rule in_range = record {
      late = λ n e t inv out. absurd (omega (arith, h.on_time (suc n) (omega arith) inv.to_go));
      success = λ n e t b inv start ok. elim (dec_lt (suc n) k) [
        | yes before ↦ let (e', f) = h.earlier (suc n) (omega arith) before in cc (f.outcome, ok)
        | no at ↦
            let last : suc n ≡ k = omega (arith, inv.to_go) in
            (cc (rw last at ok, h.result), omega (arith, inv.calls))
      ];
      final = λ n e t e' inv start bad final.
          let (e'', f) = h.earlier (suc n) (omega arith) (fails_before n inv.to_go bad) in
          cc (f.outcome, bad, f.retryable, final);
      spent =
          λ n e t e' inv start f spent. absurd (omega (arith, fails_before n inv.to_go f.outcome));
      no_time = λ n e t e' inv start f more out.
          absurd
            (omega (arith, h.waits (suc n) (omega arith) (fails_before n inv.to_go f.outcome)));
      again = λ n e t e' inv start f more in_time. record {
        calls = omega (arith, inv.calls);
        to_go = fails_before n inv.to_go f.outcome;
      };
    }

  -- If a run within the allowed attempts succeeds, after runs that all failed with errors that may
  -- be retried, and the total timeout is not met on the way, then the call returns that run's value
  -- and makes no further run.
  pub with_retry_succeeds :
      (k : ℕ) (a : A)
      → SucceedsAt k a
      → config.enabled ≡ true
      → 1 ≤ k
      → k ≤ config.max_retries + 1
      → ((with_retry config s).0 ≡ returned a) × ((with_retry config s).1.calls ≡ k)
  with_retry_succeeds k a h on pos in_range =
      with_retry_rule config s (Underway k a h) (Succeeded k a h) (success_rule k a h in_range) on
        (record { calls = refl; to_go = pos })
