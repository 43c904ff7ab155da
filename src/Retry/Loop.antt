-- ===== src/Retry/Loop.antt =====
-- What the result of the retry loop says about the operation's runs, and how many there are.
use native.Mathlib.Decide.{dec_lt}
use archerdb.Base.{ℕ, zero, suc, ◌+◌, ◌≤◌, ◌<◌, ◌≡◌, refl, ◌⊎◌, inl, inr, true, false, arith}
use archerdb.Errors.{Error, retry_exhausted, is_retryable_error}
use archerdb.Retry.{
  RetryConfig, succeeded, failed, Script, Ended, returned, raised, Trace, no_attempts, attempted,
  counted, give_up, with_retry,
}
use archerdb.Retry.Rule.{Fails, Rule, with_retry_rule}

module _ {A : Type 0} (s : Script A) where
  -- The first `n` runs failed with errors that may be retried.
  abbrev pub AllRetryable : ℕ → Type 0
  AllRetryable n = (i : ℕ) → 1 ≤ i → i ≤ n → (e : Error) × Fails s i e

  -- So did the runs before the run of number `n`.
  abbrev pub RetryableBefore : ℕ → Type 0
  RetryableBefore n = (i : ℕ) → 1 ≤ i → i < n → (e : Error) × Fails s i e

  -- The error of the last of `n` runs; with no run, the placeholder.
  abbrev pub IsLastError : ℕ → Error → Type 0
  IsLastError zero e = e ≡ no_attempts
  IsLastError (suc n) e = s.outcome (suc n) ≡ failed e

  -- What an end means after `n` runs, with the metric of exhausted calls at `m`. A value: the last
  -- run returned it. A raised error: the last run raised it, and it may not be retried; or it reports
  -- exhaustion with the last error, and only then is the metric raised. All other runs failed with
  -- errors that may be retried.
  abbrev pub Means : Ended A → ℕ → ℕ → Type 0
  Means (returned a) n m = (1 ≤ n) × (s.outcome n ≡ succeeded a) × RetryableBefore n × (m ≡ 0)
  Means (raised e) n m =
      ((1 ≤ n)
        × (s.outcome n ≡ failed e)
        × (is_retryable_error e ≡ false)
        × RetryableBefore n
        × (m ≡ 0))
      ⊎ ((attempts : ℕ) × (last : Error) × (e ≡ retry_exhausted attempts last)
          × AllRetryable n
          × IsLastError n last
          × (m ≡ 1))

  AllRetryable-suc : (n : ℕ) (e : Error) → AllRetryable n → Fails s (suc n) e → AllRetryable (suc n)
  AllRetryable-suc n e all new i lo hi = elim (dec_lt i (suc n)) [
    | yes old ↦ all i lo (omega arith)
    | no ge ↦ let last : i ≡ suc n = omega arith in rw last (e, new)
  ]

module _ {A : Type 0} (config : RetryConfig) (s : Script A) where
  record AfterRuns (n : ℕ) (e : Error) (t : Trace) : Type 0 where
    calls : t.calls ≡ n
    failed_all : AllRetryable s n
    last : IsLastError s n e
    in_range : n ≤ config.max_retries
    none_yet : t.exhausted ≡ 0

  -- at most one run more than the retries, and an end that means what it should
  pub record IsSound (r : Ended A × Trace) : Type 0 where
    pub runs : r.1.calls ≤ config.max_retries + 1
    pub means : Means s r.0 r.1.calls r.1.exhausted

  gave_up :
      (n attempts : ℕ) (e : Error) (t : Trace)
      → t.calls ≡ n
      → n ≤ config.max_retries + 1
      → AllRetryable s n
      → IsLastError s n e
      → t.exhausted ≡ 0
      → IsSound (give_up attempts e t)
  gave_up n attempts e t calls in_range all last none_yet = record {
    runs = omega arith;
    means = rw calls (inr (attempts, e, refl, all, last, omega arith));
  }

  ended_early :
      (n : ℕ) (t : Trace) {last : Error}
      → AfterRuns n last t
      → (r : Ended A) → Means s r (suc n) 0
      → IsSound (r, attempted (suc n) t)
  ended_early n t inv r m = record {
    runs = omega (arith, inv.calls, inv.in_range);
    means = let runs : t.calls + 1 ≡ suc n = omega (arith, inv.calls) in rw (runs, inv.none_yet) m;
  }

  before : (n : ℕ) → AllRetryable s n → RetryableBefore s (suc n)
  before n all i lo hi = all i lo (omega arith)

  loop_rule : Rule config s AfterRuns IsSound
  loop_rule = record {
    late = λ n e t inv h.
        gave_up n n e (counted (suc n) t) inv.calls (omega (arith, inv.in_range)) inv.failed_all
          inv.last inv.none_yet;
    success = λ n e t a inv h ok.
        ended_early n t inv (returned a) (omega arith, ok, before n inv.failed_all, refl);
    final = λ n e t e' inv start bad h.
        ended_early n t inv (raised e') (inl (omega arith, bad, h, before n inv.failed_all, refl));
    spent = λ n e t e' inv start f h.
        gave_up (suc n) _ e' (attempted (suc n) t) (omega (arith, inv.calls))
          (omega (arith, inv.in_range)) (AllRetryable-suc s n e' inv.failed_all f) f.outcome
          inv.none_yet;
    no_time = λ n e t e' inv start f h out.
        gave_up (suc n) _ e' (attempted (suc n) t) (omega (arith, inv.calls))
          (omega (arith, inv.in_range)) (AllRetryable-suc s n e' inv.failed_all f) f.outcome
          inv.none_yet;
    again = λ n e t e' inv start f h in_time. record {
      calls = omega (arith, inv.calls);
      failed_all = AllRetryable-suc s n e' inv.failed_all f;
      last = f.outcome;
      in_range = h;
      none_yet = inv.none_yet;
    };
  }

  -- With retries enabled, the operation runs at most once more than the retries. A returned value is
  -- that of the last run; a raised error is that of the last run and may not be retried, or reports
  -- exhaustion, with the error of the last run, and is counted by the metric; all other runs failed
  -- with errors that may be retried.
  pub with_retry-IsSound : config.enabled ≡ true → IsSound (with_retry config s)
  with_retry-IsSound on = with_retry_rule config s AfterRuns IsSound loop_rule on (record {
    calls = refl;
    failed_all = λ i lo hi. absurd (omega arith);
    last = refl;
    in_range = omega arith;
    none_yet = refl;
  })
