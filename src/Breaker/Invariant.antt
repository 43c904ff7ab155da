-- ===== src/Breaker/Invariant.antt =====
-- The invariant of the breaker's counters, kept by every method and so by every sequence of calls.
use archerdb.Base.{ℕ, ◌≤◌, ◌<◌, ◌≡◌, refl, List, [], ◌∷◌, arith}
use archerdb.Breaker.{
  half_open, CircuitBreakerConfig, CircuitBreaker, init, read_state, allow_request, record_success,
  record_failure, force_open, force_close, Call, state_read, allow, success, failure, forced_open,
  forced_close, step, run,
}

-- The window counts no more failures than requests; no more test requests are let through than
-- configured; and a half-open circuit has not yet seen the successes that close it.
pub record IsValid (c : CircuitBreaker) : Type 0 where
  pub counted : c.failed_requests ≤ c.total_requests
  pub tested : c.half_open_total ≤ c.config.half_open_requests
  pub undecided : c.state ≡ half_open → c.half_open_successes < c.config.half_open_requests

pub init-IsValid : (config : CircuitBreakerConfig) (now : ℕ) → IsValid (init config now)
unfolding init
init-IsValid config now = ground arith

module _ {c : CircuitBreaker} (positive : 0 < c.config.half_open_requests) (v : IsValid c) where
  read_state-IsValid : (now : ℕ) → IsValid (read_state now c).0
  unfolding read_state
  read_state-IsValid now = ground arith

  allow_request-IsValid : (now : ℕ) → IsValid (allow_request now c).0
  unfolding allow_request
  allow_request-IsValid now = ground arith

  record_success-IsValid : (now : ℕ) → IsValid (record_success now c)
  unfolding record_success
  record_success-IsValid now = ground arith

  record_failure-IsValid : (now now' : ℕ) → IsValid (record_failure now now' c)
  unfolding record_failure
  record_failure-IsValid now now' = ground arith

  force_open-IsValid : (now : ℕ) → IsValid (force_open now c)
  unfolding force_open
  force_open-IsValid now = ground arith

  force_close-IsValid : (now : ℕ) → IsValid (force_close now c)
  unfolding force_close
  force_close-IsValid now = ground arith

  step-IsValid : (call : Call) → IsValid (step call c)
  unfolding step
  step-IsValid (state_read now) = read_state-IsValid now
  step-IsValid (allow now) = allow_request-IsValid now
  step-IsValid (success now) = record_success-IsValid now
  step-IsValid (failure now now') = record_failure-IsValid now now'
  step-IsValid (forced_open now) = force_open-IsValid now
  step-IsValid (forced_close now) = force_close-IsValid now

-- No method changes the configuration.
pub config-step : (call : Call) (c : CircuitBreaker) → (step call c).config ≡ c.config
unfolding step
config-step (state_read now) c = ground arith
config-step (allow now) c = ground arith
config-step (success now) c = ground arith
config-step (failure now now') c = ground arith
config-step (forced_open now) c = refl
config-step (forced_close now) c = refl

-- Where at least one test request is configured, every sequence of calls, at any clock readings,
-- keeps the invariant of the counters.
pub run-IsValid :
    (calls : List Call) (c : CircuitBreaker)
    → 0 < c.config.half_open_requests
    → IsValid c
    → IsValid (run calls c)
unfolding run
run-IsValid [] c positive v = v
run-IsValid (call ∷ calls) c positive v =
    run-IsValid calls (step call c) (ground (arith, config-step call c))
      (step-IsValid positive v call)
