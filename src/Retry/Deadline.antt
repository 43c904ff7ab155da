-- ===== src/Retry/Deadline.antt =====
-- The total timeout: no run starts after it, and the sleeps stay below it.
use native.Mathlib.Decide.{dec_lt}
use archerdb.Base.{
  ℕ, suc, ◌+◌, ◌≤◌, ◌<◌, ◌≡◌, refl, ◌⊎◌, inl, inr, true, List, [], ◌∷◌, ◌++◌, arith,
}
use archerdb.Errors.{Error}
use archerdb.Retry.{RetryConfig, Script, Ended, Trace, delay_after, slept, with_retry}
use archerdb.Retry.Rule.{Rule, with_retry_rule}

abbrev pub sum : List ℕ → ℕ
sum [] = 0
sum (x ∷ xs) = x + sum xs

sum-snoc : (xs : List ℕ) (x : ℕ) → sum (xs ++ x ∷ []) ≡ sum xs + x
sum-snoc [] x = omega arith
sum-snoc (y ∷ xs) x = omega (arith, sum-snoc xs x)

module _ {A : Type 0} (config : RetryConfig) (s : Script A) where
  sum-slept : (delay : ℕ) (t : Trace) → sum (slept config s delay t).sleeps ≡ sum t.sleeps + delay
  sum-slept delay t = ground (arith, sum-snoc t.sleeps delay)

  -- The clock does not go back over a run, and a sleep lasts at least as long as asked.
  pub record IsSteady : Type 0 where
    pub runs : (n : ℕ) → s.before n ≤ s.after n
    pub sleeps : (n : ℕ) → s.after n + delay_after config s n ≤ s.before (suc n)

  record SleptSoFar (n : ℕ) (e : Error) (t : Trace) : Type 0 where
    calls : t.calls ≡ n
    elapsed : sum t.sleeps ≤ s.before (suc n)
    below : (sum t.sleeps ≡ 0) ⊎ (sum t.sleeps < config.total_timeout_ms)
    started : (i : ℕ) → 1 ≤ i → i ≤ n → s.before i < config.total_timeout_ms

  -- The sleeps take less than the total timeout together, if there are any; and every run of the
  -- operation started before the total timeout.
  pub record KeepsDeadline (r : Ended A × Trace) : Type 0 where
    pub sleeps_below : (sum r.1.sleeps ≡ 0) ⊎ (sum r.1.sleeps < config.total_timeout_ms)
    pub starts_below : (i : ℕ) → 1 ≤ i → i ≤ r.1.calls → s.before i < config.total_timeout_ms

  started-suc :
      (n : ℕ)
      → ((i : ℕ) → 1 ≤ i → i ≤ n → s.before i < config.total_timeout_ms)
      → s.before (suc n) < config.total_timeout_ms
      → (i : ℕ) → 1 ≤ i
      → i ≤ suc n
      → s.before i < config.total_timeout_ms
  started-suc n old new i lo hi = elim (dec_lt i (suc n)) [
    | yes lt ↦ old i lo (omega arith)
    | no ge ↦ let last : i ≡ suc n = omega arith in rw last new
  ]

  keeps :
      (n : ℕ) (e : Error) (t : Trace) (r : Ended A) (m k : ℕ)
      → SleptSoFar n e t
      → s.before (suc n) < config.total_timeout_ms
      → KeepsDeadline
          (r, record { calls = t.calls + 1; sleeps = t.sleeps; retries = m; exhausted = k })
  keeps n e t r m k inv start = record {
    sleeps_below = inv.below;
    starts_below = λ i lo hi. started-suc n inv.started start i lo (omega (arith, inv.calls));
  }

  deadline_rule : IsSteady → Rule config s SleptSoFar KeepsDeadline
  deadline_rule steady = record {
    late = λ n e t inv h. record {
      sleeps_below = inv.below;
      starts_below = λ i lo hi. inv.started i lo (omega (arith, inv.calls));
    };
    success = λ n e t a inv h ok. keeps n e t _ _ _ inv h;
    final = λ n e t e' inv start bad h. keeps n e t _ _ _ inv start;
    spent = λ n e t e' inv start f h. keeps n e t _ _ _ inv start;
    no_time = λ n e t e' inv start f h out. keeps n e t _ _ _ inv start;
    again = λ n e t e' inv start f h in_time.
        let delay = delay_after config s (suc n) in
        let total = sum-slept delay (record t { calls = t.calls + 1 }) in
        record {
          calls = omega (arith, inv.calls);
          elapsed = omega (arith, total, inv.elapsed, steady.runs (suc n), steady.sleeps (suc n));
          below = inr (omega (arith, total, inv.elapsed, steady.runs (suc n)));
          started = started-suc n inv.started start;
        };
  }

  -- On a steady clock, with retries enabled, the sleeps of a call together stay below the total
  -- timeout, unless there are none; and no run of the operation starts at or after it.
  pub with_retry_deadline : IsSteady → config.enabled ≡ true → KeepsDeadline (with_retry config s)
  with_retry_deadline steady on =
      with_retry_rule config s SleptSoFar KeepsDeadline (deadline_rule steady) on (record {
        calls = refl;
        elapsed = omega arith;
        below = inl refl;
        started = λ i lo hi. absurd (omega arith);
      })
