-- ===== src/Breaker.antt =====
-- The circuit breaker of the client (src/clients/python/src/archerdb/client.py, `CircuitBreaker`).
-- A method takes the clock readings that it makes, in milliseconds, and returns the new state. The
-- failure threshold, a float in the source, is the fraction `threshold_num / threshold_den`.
pub mod Invariant
pub mod Transitions
pub mod Rejection
mod Tests
use archerdb.Base.{ℕ, ◌+◌, ◌*◌, ◌≡◌, Bool, true, false, List, [], ◌∷◌, ltb, leb, if◌then◌else◌}

pub data CircuitState : Type 0 where
  closed open_circuit half_open : CircuitState

pub record CircuitBreakerConfig : Type 0 where
  pub threshold_num : ℕ
  pub threshold_den : ℕ
  pub minimum_requests : ℕ
  pub window_ms : ℕ
  pub open_duration_ms : ℕ
  pub half_open_requests : ℕ

-- 50% failure rate, at least 10 requests, a 10 s window, 30 s open, 5 test requests.
abbrev pub default_config : CircuitBreakerConfig
default_config = record {
  threshold_num = 1;
  threshold_den = 2;
  minimum_requests = 10;
  window_ms = 10_000;
  open_duration_ms = 30_000;
  half_open_requests = 5;
}

pub record CircuitBreaker : Type 0 where
  pub config : CircuitBreakerConfig
  pub state : CircuitState
  pub opened_at : ℕ
  pub total_requests : ℕ
  pub failed_requests : ℕ
  pub window_start_ms : ℕ
  pub half_open_successes : ℕ
  pub half_open_failures : ℕ
  pub half_open_total : ℕ
  pub state_changes : ℕ
  pub rejected_requests : ℕ

-- `CircuitBreaker.__init__`
unfoldable pub init : CircuitBreakerConfig → ℕ → CircuitBreaker
init config now = record {
  config = config;
  state = closed;
  opened_at = 0;
  total_requests = 0;
  failed_requests = 0;
  window_start_ms = now;
  half_open_successes = 0;
  half_open_failures = 0;
  half_open_total = 0;
  state_changes = 0;
  rejected_requests = 0;
}

abbrev pub same_state : CircuitState → CircuitState → Bool
same_state closed closed = true
same_state open_circuit open_circuit = true
same_state half_open half_open = true
same_state _ _ = false

-- `_transition_to`: the clock is read when the circuit opens.
unfoldable pub transition_to : ℕ → CircuitState → CircuitBreaker → CircuitBreaker
transition_to now new_state c = if same_state c.state new_state then c else record c {
  state = new_state;
  state_changes = c.state_changes + 1;
  opened_at = if same_state new_state open_circuit then now else c.opened_at;
}

-- `_reset_counters`
unfoldable pub reset_counters : ℕ → CircuitBreaker → CircuitBreaker
reset_counters now c = record c { total_requests = 0; failed_requests = 0; window_start_ms = now }

-- `_reset_half_open_counters`
unfoldable pub reset_half_open_counters : CircuitBreaker → CircuitBreaker
reset_half_open_counters c = record c {
  half_open_successes = 0;
  half_open_failures = 0;
  half_open_total = 0;
}

-- `elapsed >= self.config.open_duration_ms`, for a difference that may be negative
abbrev pub open_elapsed : ℕ → CircuitBreaker → Bool
open_elapsed now c = leb (c.opened_at + c.config.open_duration_ms) now

-- the automatic transition from open to half-open
unfoldable pub to_half_open : CircuitBreaker → CircuitBreaker
unfolding transition_to reset_half_open_counters
to_half_open c = reset_half_open_counters (transition_to 0 half_open c)

-- The property `state`: the state read, after the automatic transition.
unfoldable pub read_state_in : CircuitState → ℕ → CircuitBreaker → CircuitBreaker
unfolding to_half_open
read_state_in open_circuit now c = if open_elapsed now c then to_half_open c else c
read_state_in _ now c = c

unfoldable pub read_state : ℕ → CircuitBreaker → CircuitBreaker × CircuitState
unfolding read_state_in
read_state now c = let c' = read_state_in c.state now c in (c', c'.state)

-- `_allow_half_open_request`
unfoldable pub allow_half_open_request : CircuitBreaker → CircuitBreaker × Bool
allow_half_open_request c =
    if leb c.config.half_open_requests c.half_open_total
    then (record c { rejected_requests = c.rejected_requests + 1 }, false)
    else (record c { half_open_total = c.half_open_total + 1 }, true)

unfoldable pub allow_request_in : CircuitState → ℕ → CircuitBreaker → CircuitBreaker × Bool
unfolding to_half_open allow_half_open_request
allow_request_in closed now c = (c, true)
allow_request_in open_circuit now c =
    if open_elapsed now c
    then allow_half_open_request (to_half_open c)
    else (record c { rejected_requests = c.rejected_requests + 1 }, false)
allow_request_in half_open now c = allow_half_open_request c

unfoldable pub allow_request : ℕ → CircuitBreaker → CircuitBreaker × Bool
unfolding allow_request_in
allow_request now c = allow_request_in c.state now c

-- `_record_in_window`: the counters restart once the window has expired.
unfoldable pub record_in_window : Bool → ℕ → CircuitBreaker → CircuitBreaker
record_in_window failed now c =
    let expired = leb (c.window_start_ms + c.config.window_ms) now in
    let total = if expired then 0 else c.total_requests in
    let failures = if expired then 0 else c.failed_requests in
    record c {
      window_start_ms = if expired then now else c.window_start_ms;
      total_requests = total + 1;
      failed_requests = if failed then failures + 1 else failures;
    }

-- `failed / total >= threshold`, by cross-multiplication
abbrev pub rate_reached : CircuitBreaker → Bool
rate_reached c =
    leb (c.config.threshold_num * c.total_requests) (c.failed_requests * c.config.threshold_den)

-- `_check_threshold`
unfoldable pub check_threshold : ℕ → CircuitBreaker → CircuitBreaker
unfolding transition_to
check_threshold now c =
    if ltb c.total_requests c.config.minimum_requests
    then c
    else if rate_reached c
    then transition_to now open_circuit c
    else c

unfoldable pub record_success_in : CircuitState → ℕ → CircuitBreaker → CircuitBreaker
unfolding record_in_window transition_to reset_counters
record_success_in closed now c = record_in_window false now c
record_success_in open_circuit now c = c
record_success_in half_open now c =
    let counted = record c { half_open_successes = c.half_open_successes + 1 } in
    if leb c.config.half_open_requests (c.half_open_successes + 1)
    then reset_counters now (transition_to now closed counted)
    else counted

unfoldable pub record_success : ℕ → CircuitBreaker → CircuitBreaker
unfolding record_success_in
record_success now c = record_success_in c.state now c

-- The clock is read for the window, and read again when the circuit opens.
unfoldable pub record_failure_in : CircuitState → ℕ → ℕ → CircuitBreaker → CircuitBreaker
unfolding record_in_window check_threshold transition_to
record_failure_in closed now now' c = check_threshold now' (record_in_window true now c)
record_failure_in open_circuit now now' c = c
record_failure_in half_open now now' c =
    transition_to now' open_circuit (record c { half_open_failures = c.half_open_failures + 1 })

unfoldable pub record_failure : ℕ → ℕ → CircuitBreaker → CircuitBreaker
unfolding record_failure_in
record_failure now now' c = record_failure_in c.state now now' c

unfoldable pub force_open : ℕ → CircuitBreaker → CircuitBreaker
force_open now c = record c {
  state_changes = if same_state c.state open_circuit then c.state_changes else c.state_changes + 1;
  state = open_circuit;
  opened_at = now;
}

unfoldable pub force_close : ℕ → CircuitBreaker → CircuitBreaker
unfolding reset_counters reset_half_open_counters
force_close now c = reset_half_open_counters (
    reset_counters now (record c {
      state_changes = if same_state c.state closed then c.state_changes else c.state_changes + 1;
      state = closed;
    }))

-- A call of a method, with the clock readings that it makes.
pub data Call : Type 0 where
  state_read allow success : ℕ → Call
  failure : ℕ → ℕ → Call
  forced_open forced_close : ℕ → Call

unfoldable pub step : Call → CircuitBreaker → CircuitBreaker
unfolding read_state allow_request record_success record_failure force_open force_close
step (state_read now) c = (read_state now c).0
step (allow now) c = (allow_request now c).0
step (success now) c = record_success now c
step (failure now now') c = record_failure now now' c
step (forced_open now) c = force_open now c
step (forced_close now) c = force_close now c

unfoldable pub run : List Call → CircuitBreaker → CircuitBreaker
unfolding step
run [] c = c
run (call ∷ calls) c = run calls (step call c)
