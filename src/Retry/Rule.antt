-- ===== src/Retry/Rule.antt =====
-- A rule for the retry loop: what holds of every end, from an invariant of the attempts.
use native.Mathlib.Numerals.{add-one}
use archerdb.Base.{
  ℕ, zero, suc, ◌+◌, ◌-◌, ◌≤◌, ◌<◌, ◌≡◌, refl, ◌⊎◌, inl, inr, true, false, arith, leb, leb→le,
  leb→gt, if_elim,
}
use archerdb.Errors.{Error, is_retryable_error}
use archerdb.Retry.{
  RetryConfig, Outcome, succeeded, failed, Script, Ended, returned, raised, Trace, no_trace,
  no_attempts, attempted, counted, give_up, max_attempts, delay_after, slept, too_late,
  no_time_left, on_error, run_attempt, retry_loop, with_retry,
}

Outcome-cases :
    {A : Type 0} (o : Outcome A) → ((a : A) × (o ≡ succeeded a)) ⊎ ((e : Error) × (o ≡ failed e))
Outcome-cases (succeeded a) = inl (a, refl)
Outcome-cases (failed e) = inr (e, refl)

-- The run of this number failed with this error, which may be retried.
pub record Fails {A : Type 0} (s : Script A) (n : ℕ) (e : Error) : Type 0 where
  pub outcome : s.outcome n ≡ failed e
  pub retryable : is_retryable_error e ≡ true

-- `Inv n e t` holds after `n` runs with the last error `e` and the trace `t`; `P` holds of the end.
pub record Rule {A : Type 0} (config : RetryConfig) (s : Script A)
    (Inv : ℕ → Error → Trace → Type 0) (P : Ended A × Trace → Type 0) : Type 0 where
  pub late :
      (n : ℕ) (e : Error) (t : Trace)
      → Inv n e t
      → config.total_timeout_ms ≤ s.before (suc n)
      → P (give_up n e (counted (suc n) t))
  pub success :
      (n : ℕ) (e : Error) (t : Trace) (a : A)
      → Inv n e t
      → s.before (suc n) < config.total_timeout_ms
      → s.outcome (suc n) ≡ succeeded a
      → P (returned a, attempted (suc n) t)
  pub final :
      (n : ℕ) (e : Error) (t : Trace) (e' : Error)
      → Inv n e t
      → s.before (suc n) < config.total_timeout_ms
      → s.outcome (suc n) ≡ failed e'
      → is_retryable_error e' ≡ false
      → P (raised e', attempted (suc n) t)
  pub spent :
      (n : ℕ) (e : Error) (t : Trace) (e' : Error)
      → Inv n e t
      → s.before (suc n) < config.total_timeout_ms
      → Fails s (suc n) e'
      → config.max_retries ≤ n
      → P (give_up (max_attempts config s) e' (attempted (suc n) t))
  pub no_time :
      (n : ℕ) (e : Error) (t : Trace) (e' : Error)
      → Inv n e t
      → s.before (suc n) < config.total_timeout_ms
      → Fails s (suc n) e'
      → n < config.max_retries
      → config.total_timeout_ms ≤ s.after (suc n) + delay_after config s (suc n)
      → P (give_up (max_attempts config s) e' (attempted (suc n) t))
  pub again :
      (n : ℕ) (e : Error) (t : Trace) (e' : Error)
      → Inv n e t
      → s.before (suc n) < config.total_timeout_ms
      → Fails s (suc n) e'
      → n < config.max_retries
      → s.after (suc n) + delay_after config s (suc n) < config.total_timeout_ms
      → Inv (suc n) e' (slept config s (delay_after config s (suc n)) (attempted (suc n) t))

module _ {A : Type 0} (config : RetryConfig) (s : Script A) (Inv : ℕ → Error → Trace → Type 0)
    (P : Ended A × Trace → Type 0) (rule : Rule config s Inv P) where
  -- what the attempts that are left do after `n` runs, if any are left
  abbrev GoesOn : (Error → Trace → Ended A × Trace) → ℕ → Type 0
  GoesOn next n = (e : Error) (t : Trace) → n ≤ config.max_retries → Inv n e t → P (next e t)

  on_error_rule :
      (next : Error → Trace → Ended A × Trace) (n : ℕ) (e : Error) (t : Trace) (e' : Error)
      → GoesOn next (suc n)
      → Inv n e t
      → s.before (suc n) < config.total_timeout_ms
      → s.outcome (suc n) ≡ failed e'
      → P (on_error config s next (suc n) e' (attempted (suc n) t))
  unfolding on_error
  on_error_rule next n e t e' go inv start err =
      if_elim P (is_retryable_error e')
        (λ again.
          let f : Fails s (suc n) e' = record { outcome = err; retryable = again } in
          if_elim P (leb (max_attempts config s) (suc n))
            (λ all. rule.spent n e t e' inv start f (omega (arith, leb→le _ _ all)))
            (λ some_left.
              let more : n < config.max_retries = omega (arith, leb→gt _ _ some_left) in
              if_elim P (no_time_left config s (suc n))
                (λ out. rule.no_time n e t e' inv start f more (leb→le _ _ out))
                (λ in_time.
                  go _ _ more (rule.again n e t e' inv start f more (leb→gt _ _ in_time)))))
        (λ final. rule.final n e t e' inv start err final)

  run_attempt_rule :
      (next : Error → Trace → Ended A × Trace) (n : ℕ) (e : Error) (t : Trace)
      → GoesOn next (suc n)
      → Inv n e t
      → P (run_attempt config s next (suc n) e t)
  unfolding run_attempt
  run_attempt_rule next n e t go inv =
      if_elim P (too_late config s (suc n))
        (λ late.
          let same : suc n - 1 ≡ n = omega arith in rw same (rule.late n e t inv (leb→le _ _ late)))
        (λ on_time. elim (Outcome-cases (s.outcome (suc n))) [
          | inl (a, ok) ↦ rw ok (rule.success n e t a inv (leb→gt _ _ on_time) ok)
          | inr (e', err) ↦ rw err (on_error_rule next n e t e' go inv (leb→gt _ _ on_time) err)
        ])

  retry_loop_rule :
      (left n : ℕ) (e : Error) (t : Trace)
      → left + n ≡ config.max_retries
      → Inv n e t
      → P (retry_loop config s (suc left) (suc n) e t)
  unfolding retry_loop
  retry_loop_rule zero n e t all inv =
      run_attempt_rule (retry_loop config s zero (suc n + 1)) n e t
        (λ e' t' more inv'. absurd (omega arith)) inv
  retry_loop_rule (suc left) n e t all inv =
      run_attempt_rule (retry_loop config s (suc left) (suc n + 1)) n e t
        (λ e' t' more inv'. rw add-one (retry_loop_rule left (suc n) e' t' (omega arith) inv')) inv

  -- an enabled call establishes what the rule says of every end
  pub with_retry_rule : config.enabled ≡ true → Inv 0 no_attempts no_trace → P (with_retry config s)
  unfolding with_retry
  with_retry_rule on inv =
      if_elim P config.enabled
        (λ _. rw add-one (retry_loop_rule config.max_retries 0 _ _ (omega arith) inv)) (λ off. cc)
