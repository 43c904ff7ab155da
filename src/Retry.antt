-- ===== src/Retry.antt =====
-- The retry loop (src/clients/python/src/archerdb/client.py: `RetryConfig`, `OperationOptions`,
-- `_calculate_retry_delay`, `_with_retry_sync`; the asynchronous variant differs in awaiting only).
-- What the environment answers is a script: for each attempt the outcome of the operation, the
-- milliseconds since the start as read before it and after its failure, and the random draw for
-- the jitter, in units of 2 ^ -53.
pub mod Delay
mod Rule
pub mod Loop
pub mod Deadline
pub mod Success
mod Tests
use archerdb.Base.{
  ℕ, zero, suc, ◌+◌, ◌-◌, ◌*◌, ◌/◌, ◌^◌, min, Bool, true, false, List, [], ◌∷◌, ◌++◌, Option, none,
  some, ltb, leb, ◌==◌, if◌then◌else◌,
}
use archerdb.Errors.{Error, retry_exhausted, other, codes, is_retryable_error}

pub record RetryConfig : Type 0 where
  pub enabled : Bool
  pub max_retries : ℕ
  pub base_backoff_ms : ℕ
  pub max_backoff_ms : ℕ
  pub total_timeout_ms : ℕ
  pub jitter : Bool

abbrev pub default_retry : RetryConfig
default_retry = record {
  enabled = true;
  max_retries = 5;
  base_backoff_ms = 100;
  max_backoff_ms = 1600;
  total_timeout_ms = 30_000;
  jitter = true;
}

pub record OperationOptions : Type 0 where
  pub max_retries : Option ℕ
  pub timeout_ms : Option ℕ
  pub base_backoff_ms : Option ℕ
  pub max_backoff_ms : Option ℕ
  pub jitter : Option Bool

abbrev pub or_default {ℓ} : {A : Type ℓ} → Option A → A → A
or_default none a = a
or_default (some x) a = x

unfoldable pub merge_with : OperationOptions → RetryConfig → RetryConfig
merge_with o base = record {
  enabled = base.enabled;
  max_retries = or_default o.max_retries base.max_retries;
  base_backoff_ms = or_default o.base_backoff_ms base.base_backoff_ms;
  max_backoff_ms = or_default o.max_backoff_ms base.max_backoff_ms;
  total_timeout_ms = or_default o.timeout_ms base.total_timeout_ms;
  jitter = or_default o.jitter base.jitter;
}

-- `_calculate_retry_delay`; the jitter is `draw * 2 ^ -53 * (delay / 2)`, and the sum is rounded down
unfoldable pub calculate_retry_delay : ℕ → RetryConfig → ℕ → ℕ
calculate_retry_delay attempt config draw =
    let delay = min (config.base_backoff_ms * 2 ^ (attempt - 2)) config.max_backoff_ms in
    if leb attempt 1 then 0 else if config.jitter then delay + draw * delay / 2 ^ 54 else delay

pub data Outcome (A : Type 0) : Type 0 where
  succeeded : A → Outcome A
  failed : Error → Outcome A

pub record Script (A : Type 0) : Type 0 where
  pub before : ℕ → ℕ
  pub outcome : ℕ → Outcome A
  pub after : ℕ → ℕ
  pub draw : ℕ → ℕ

pub data Ended (A : Type 0) : Type 0 where
  returned : A → Ended A
  raised : Error → Ended A

-- What a call has done: the operation's runs, the sleeps in order, and the two metrics.
pub record Trace : Type 0 where
  pub calls : ℕ
  pub sleeps : List ℕ
  pub retries : ℕ
  pub exhausted : ℕ

abbrev pub no_trace : Trace
no_trace = record { calls = 0; sleeps = []; retries = 0; exhausted = 0 }

-- `Exception("No attempts made")`
abbrev pub no_attempts : Error
no_attempts = other (codes "No attempts made")

module _ {A : Type 0} where
  abbrev pub plain_outcome : Outcome A → Ended A
  plain_outcome (succeeded a) = returned a
  plain_outcome (failed error) = raised error

  -- `metrics.record_retry_exhausted()` and `raise RetryExhausted(attempts, last_error)`
  abbrev pub give_up : ℕ → Error → Trace → Ended A × Trace
  give_up attempts last_error t =
      (raised (retry_exhausted attempts last_error), record t { exhausted = t.exhausted + 1 })

-- `record_retry` for an attempt that is not the first
abbrev pub counted : ℕ → Trace → Trace
counted attempt t = record t { retries = if ltb 1 attempt then t.retries + 1 else t.retries }

-- the trace once the operation has been called
abbrev pub attempted : ℕ → Trace → Trace
attempted attempt t = record (counted attempt t) { calls = t.calls + 1 }

module _ {A : Type 0} (config : RetryConfig) (s : Script A) where
  abbrev pub max_attempts : ℕ
  max_attempts = config.max_retries + 1

  -- the delay that a failure of this attempt waits for, and the sleep in the trace
  abbrev pub delay_after : ℕ → ℕ
  delay_after attempt = calculate_retry_delay (attempt + 1) config (s.draw attempt)

  abbrev pub slept : ℕ → Trace → Trace
  slept delay t = record t { sleeps = if ltb 0 delay then t.sleeps ++ delay ∷ [] else t.sleeps }

  -- the deadline tests before an attempt, and before the sleep after it
  abbrev pub too_late : ℕ → Bool
  too_late attempt = leb config.total_timeout_ms (s.before attempt)

  abbrev pub no_time_left : ℕ → Bool
  no_time_left attempt = leb config.total_timeout_ms (s.after attempt + delay_after attempt)

  -- the `except` branch; `next` goes on with the next attempt
  unfoldable pub on_error : (Error → Trace → Ended A × Trace) → ℕ → Error → Trace → Ended A × Trace
  on_error next attempt error t =
      if is_retryable_error error
      then (if leb max_attempts attempt
          then give_up max_attempts error t
          else if no_time_left attempt
          then give_up max_attempts error t
          else next error (slept (delay_after attempt) t))
      else (raised error, t)

  -- the `try` statement
  unfoldable pub try_operation :
      (Error → Trace → Ended A × Trace) → ℕ → Outcome A → Trace → Ended A × Trace
  unfolding on_error
  try_operation next attempt (succeeded a) t = (returned a, t)
  try_operation next attempt (failed error) t = on_error next attempt error t

  -- the body of the loop
  unfoldable pub run_attempt :
      (Error → Trace → Ended A × Trace) → ℕ → Error → Trace → Ended A × Trace
  unfolding try_operation
  run_attempt next attempt last_error t =
      if too_late attempt
      then give_up (attempt - 1) last_error (counted attempt t)
      else try_operation next attempt (s.outcome attempt) (attempted attempt t)

  -- `for attempt in range(1, max_attempts + 1)`, over the attempts that are left
  unfoldable pub retry_loop : ℕ → ℕ → Error → Trace → Ended A × Trace
  unfolding run_attempt
  retry_loop zero attempt last_error t = give_up max_attempts last_error t
  retry_loop (suc left) attempt last_error t =
      run_attempt (retry_loop left (attempt + 1)) attempt last_error t

  unfoldable pub with_retry : Ended A × Trace
  unfolding retry_loop
  with_retry =
      if config.enabled
      then retry_loop max_attempts 1 no_attempts no_trace
      else (plain_outcome (s.outcome 1), record no_trace { calls = 1 })
