-- ===== src/Breaker/Transitions.antt =====
-- Which changes of state the methods make, and what the counter of state changes counts.
use archerdb.Base.{
  ℕ, ◌+◌, ◌*◌, ◌≤◌, ◌<◌, ◌≡◌, Bool, true, false, List, [], ◌∷◌, arith, if◌then◌else◌,
}
use archerdb.Breaker.{
  CircuitBreakerConfig, CircuitState, closed, open_circuit, half_open, CircuitBreaker, same_state,
  Call, state_read, allow, success, failure, forced_open, forced_close, step, run,
}

-- The transitions of the state machine that the specification names.
pub data Edge : CircuitState → CircuitState → Type 0 where
  stay : {s : CircuitState} → Edge s s
  trip : Edge closed open_circuit
  probe : Edge open_circuit half_open
  recover : Edge half_open closed
  relapse : Edge half_open open_circuit

abbrev edge : CircuitState → CircuitState → Bool
edge closed half_open = false
edge open_circuit closed = false
edge _ _ = true

-- A call that is not one of the two test hooks.
abbrev pub IsRegular : Call → Type 0
IsRegular (forced_open _) = ⊥
IsRegular (forced_close _) = ⊥
IsRegular _ = Unit

edge-Edge : (s t : CircuitState) → edge s t ≡ true → Edge s t
edge-Edge closed closed h = stay
edge-Edge closed open_circuit h = trip
edge-Edge closed half_open h = cc
edge-Edge open_circuit closed h = cc
edge-Edge open_circuit open_circuit h = stay
edge-Edge open_circuit half_open h = probe
edge-Edge half_open closed h = recover
edge-Edge half_open open_circuit h = relapse
edge-Edge half_open half_open h = stay

step-edge :
    (call : Call) (c : CircuitBreaker) → IsRegular call → edge c.state (step call c).state ≡ true
unfolding step
step-edge (state_read now) c r = ground arith
step-edge (allow now) c r = ground arith
step-edge (success now) c r = ground arith
step-edge (failure now now') c r = ground arith
step-edge (forced_open now) c r = absurd r
step-edge (forced_close now) c r = absurd r

-- A call other than `force_open` and `force_close` leaves the state, or takes it from closed to
-- open, from open to half-open, or from half-open to closed or to open.
pub step-Edge :
    (call : Call) (c : CircuitBreaker) → IsRegular call → Edge c.state (step call c).state
step-Edge call c r = edge-Edge c.state (step call c).state (step-edge call c r)

-- the number of calls in a sequence that end in another state than they began in
pub changes : List Call → CircuitBreaker → ℕ
changes [] c = 0
changes (call ∷ calls) c =
    (if same_state c.state (step call c).state then 0 else 1) + changes calls (step call c)

step_counts :
    (call : Call) (c : CircuitBreaker)
    → (step call c).state_changes
      ≡ c.state_changes + (if same_state c.state (step call c).state then 0 else 1)
unfolding step
step_counts (state_read now) c = ground arith
step_counts (allow now) c = ground arith
step_counts (success now) c = ground arith
step_counts (failure now now') c = ground arith
step_counts (forced_open now) c = ground arith
step_counts (forced_close now) c = ground arith

-- After any sequence of calls the metric `state_changes` has grown by the number of calls that
-- changed the state.
pub state_changes-run :
    (calls : List Call) (c : CircuitBreaker)
    → (run calls c).state_changes ≡ c.state_changes + changes calls c
unfolding run changes
state_changes-run [] c = omega arith
state_changes-run (call ∷ calls) c =
    omega (arith, state_changes-run calls (step call c), step_counts call c)

-- The requests that a sequence of calls records, and the failed ones among them.
abbrev pub recorded : List Call → ℕ
recorded [] = 0
recorded (success _ ∷ calls) = recorded calls + 1
recorded (failure _ _ ∷ calls) = recorded calls + 1
recorded (_ ∷ calls) = recorded calls

abbrev pub recorded_failures : List Call → ℕ
recorded_failures [] = 0
recorded_failures (failure _ _ ∷ calls) = recorded_failures calls + 1
recorded_failures (_ ∷ calls) = recorded_failures calls

-- The circuit is closed before each call and after the last.
unfoldable pub StaysClosed : List Call → CircuitBreaker → Type 0
StaysClosed [] c = c.state ≡ closed
StaysClosed (call ∷ calls) c = (c.state ≡ closed) × StaysClosed calls (step call c)

-- A call that is not one of the two test hooks; if it records a request, then before this time.
abbrev pub InWindow : ℕ → Call → Type 0
InWindow end (success now) = now < end
InWindow end (failure now now') = now < end
InWindow end (forced_open now) = ⊥
InWindow end (forced_close now) = ⊥
InWindow end _ = Unit

-- the window and the counts of a circuit, after some requests more
record Grown (c d : CircuitBreaker) (requests failed : ℕ) : Type 0 where
  config : d.config ≡ c.config
  window : d.window_start_ms ≡ c.window_start_ms
  total : d.total_requests ≡ c.total_requests + requests
  failures : d.failed_requests ≡ c.failed_requests + failed

-- The minimum of requests is reached, and the rate of these failures in them is at the threshold.
abbrev pub IsTooMany : CircuitBreakerConfig → ℕ → ℕ → Type 0
IsTooMany config requests failures =
    (config.minimum_requests ≤ requests)
    × (config.threshold_num * requests ≤ failures * config.threshold_den)
