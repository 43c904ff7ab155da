-- ===== src/Retry/Tests.antt =====
-- Tests of the retry loop, and its theorems on concrete scripts.
use archerdb.Base.{
  ℕ, ◌+◌, ◌*◌, ◌^◌, ◌≤◌, ◌<◌, ◌≡◌, refl, true, false, none, some, [], ◌∷◌, arith, ltb,
  if◌then◌else◌,
}
use archerdb.Errors.{Error, client_error, operation_timeout, other, codes, is_retryable_error}
use archerdb.Retry.{
  RetryConfig, default_retry, merge_with, calculate_retry_delay, Outcome, succeeded, failed, Script,
  returned, with_retry,
}
use archerdb.Retry.Loop.{IsSound, with_retry-IsSound}
use archerdb.Retry.Rule.{Fails}
use archerdb.Retry.Deadline.{IsSteady, KeepsDeadline, with_retry_deadline}
use archerdb.Retry.Success.{SucceedsAt}

-- the default policy without jitter
abbrev plain : RetryConfig
plain = record default_retry { jitter = false }

schedule :
    (calculate_retry_delay 1 plain 0 ≡ 0)
    × (calculate_retry_delay 2 plain 0 ≡ 100)
    × (calculate_retry_delay 5 plain 0 ≡ 800)
    × (calculate_retry_delay 6 plain 0 ≡ 1600)
    × (calculate_retry_delay 7 plain 0 ≡ 1600)
    × (calculate_retry_delay 3 default_retry (2 ^ 52) ≡ 250)
unfolding calculate_retry_delay
schedule = (refl, refl, refl, refl, refl, refl)

messages :
    (is_retryable_error (other (codes "Network is unreachable")) ≡ true)
    × (is_retryable_error (other (codes "bad request")) ≡ false)
unfolding is_retryable_error
messages = (refl, refl)

overridden :
    (merge_with
      (record {
        max_retries = some 2;
        timeout_ms = some 5000;
        base_backoff_ms = none;
        max_backoff_ms = none;
        jitter = none;
      })
      plain)
    ≡ record plain { max_retries = 2; total_timeout_ms = 5000 }
unfolding merge_with
overridden = refl

abbrev timed_out : Error
timed_out = client_error operation_timeout

-- Two runs time out, and the third returns 42; a run takes 10 ms, a sleep what it is asked for.
abbrev third_outcome : ℕ → Outcome ℕ
third_outcome n = if ltb n 3 then failed timed_out else succeeded 42

abbrev third : Script ℕ
third = record {
  before = λ n. 2000 * n;
  outcome = third_outcome;
  after = λ n. 2000 * n + 10;
  draw = λ n. 0;
}

third_returns :
    with_retry plain third
    ≡ (returned 42, record { calls = 3; sleeps = 100 ∷ 200 ∷ []; retries = 2; exhausted = 0 })
unfolding with_retry calculate_retry_delay is_retryable_error
third_returns = refl

timed_out_retryable : is_retryable_error timed_out ≡ true
unfolding is_retryable_error
timed_out_retryable = refl

with_retry-IsSound_example : IsSound plain third (with_retry plain third)
with_retry-IsSound_example = with_retry-IsSound plain third refl

third_failures : (i : ℕ) → 1 ≤ i → i < 3 → (e : Error) × Fails third i e
third_failures i lo hi =
    (timed_out, record { outcome = ground arith; retryable = timed_out_retryable })

plain_delay : (n : ℕ) → calculate_retry_delay n plain 0 ≤ 1600
unfolding calculate_retry_delay
plain_delay n = ground arith

third-SucceedsAt : SucceedsAt plain third 3 42
third-SucceedsAt = record {
  result = refl;
  earlier = third_failures;
  on_time = λ i lo hi. omega arith;
  waits = λ i lo hi. omega (arith, plain_delay (i + 1));
}

third_IsSteady : IsSteady plain third
third_IsSteady = record {
  runs = λ n. omega arith;
  sleeps = λ n. omega (arith, plain_delay (n + 1));
}

with_retry_deadline_example : KeepsDeadline plain third (with_retry plain third)
with_retry_deadline_example = with_retry_deadline plain third third_IsSteady refl
