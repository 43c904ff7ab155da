-- ===== src/Breaker/Rejection.antt =====
-- What the breaker refuses: everything while it is open, and all but a bounded number of test
-- requests while it is half-open; and how a circuit recovers.
use archerdb.Base.{
  ℕ, suc, ◌+◌, ◌≤◌, ◌<◌, ◌≡◌, refl, ap, true, List, [], ◌∷◌, All, arith, if◌then◌else◌,
}
use archerdb.Breaker.{
  closed, open_circuit, half_open, CircuitBreakerConfig, CircuitBreaker, allow_request, Call,
  state_read, allow, success, failure, forced_open, forced_close, step, run,
}

-- how many requests a call lets through
pub lets_through : Call → CircuitBreaker → ℕ
lets_through (allow now) c = if (allow_request now c).1 then 1 else 0
lets_through _ c = 0

-- how many requests a sequence of calls lets through
pub admitted : List Call → CircuitBreaker → ℕ
admitted [] c = 0
admitted (call ∷ calls) c = lets_through call c + admitted calls (step call c)

-- The clock reading by which the call could end the open state is before the given time, and the
-- call is not a test hook.
abbrev pub Before : ℕ → Call → Type 0
Before t (state_read now) = now < t
Before t (allow now) = now < t
Before t (success now) = Unit
Before t (failure now now') = Unit
Before t (forced_open now) = ⊥
Before t (forced_close now) = ⊥

record SameOpening (c d : CircuitBreaker) : Type 0 where
  state : d.state ≡ open_circuit
  at : d.opened_at ≡ c.opened_at
  config : d.config ≡ c.config

open-step :
    (call : Call) (c : CircuitBreaker)
    → c.state ≡ open_circuit
    → Before (c.opened_at + c.config.open_duration_ms) call
    → SameOpening c (step call c) × (lets_through call c ≡ 0)
unfolding step lets_through
open-step (state_read now) c e b = ground arith
open-step (allow now) c e b = ground arith
open-step (success now) c e b = ground arith
open-step (failure now now') c e b = ground arith
open-step (forced_open now) c e b = absurd b
open-step (forced_close now) c e b = absurd b

-- From an open circuit, any calls that read the state or ask for admission only before the open
-- duration has passed, test hooks apart, let no request through and leave the circuit open.
pub open_rejects :
    (calls : List Call) (c : CircuitBreaker)
    → c.state ≡ open_circuit
    → All (Before (c.opened_at + c.config.open_duration_ms)) calls
    → (admitted calls c ≡ 0) × ((run calls c).state ≡ open_circuit)
unfolding run admitted
open_rejects [] c e b = (refl, e)
open_rejects (call ∷ calls) c e b =
    let (same, shut) = open-step call c e b.0 in
    let (none_in, still) =
      open_rejects calls (step call c) same.state (rw (same.at, same.config) b.1) in
    (omega (arith, none_in, shut), still)

-- the circuit is half-open after each call of the sequence
abbrev pub StaysHalfOpen : List Call → CircuitBreaker → Type 0
StaysHalfOpen [] c = Unit
StaysHalfOpen (call ∷ calls) c =
    ((step call c).state ≡ half_open) × StaysHalfOpen calls (step call c)

record CountsTests (call : Call) (c : CircuitBreaker) : Type 0 where
  counted : (step call c).half_open_total ≡ c.half_open_total + lets_through call c
  bounded : (step call c).half_open_total ≤ c.config.half_open_requests
  config : (step call c).config ≡ c.config

half_open-step :
    (call : Call) (c : CircuitBreaker)
    → c.state ≡ half_open
    → (step call c).state ≡ half_open
    → c.half_open_total ≤ c.config.half_open_requests
    → CountsTests call c
unfolding step lets_through
half_open-step (state_read now) c e h b = ground arith
half_open-step (allow now) c e h b = ground arith
half_open-step (success now) c e h b = ground arith
half_open-step (failure now now') c e h b = ground arith
half_open-step (forced_open now) c e h b = cc
half_open-step (forced_close now) c e h b = cc

-- While a circuit stays half-open it lets through at most the configured number of test requests,
-- those counted before included.
pub half_open_admits :
    (calls : List Call) (c : CircuitBreaker)
    → c.state ≡ half_open
    → c.half_open_total ≤ c.config.half_open_requests
    → StaysHalfOpen calls c
    → c.half_open_total + admitted calls c ≤ c.config.half_open_requests
unfolding admitted
half_open_admits [] c e b s = omega arith
half_open_admits (call ∷ calls) c e b s =
    let k = half_open-step call c e s.0 b in
    let ih = half_open_admits calls (step call c) s.0 (rw k.config k.bounded) s.1 in
    omega (arith, k.counted, ih, ap (λ (g : CircuitBreakerConfig). g.half_open_requests) k.config)

-- a reading of the state, or a request for admission, at any time
abbrev pub IsAttempt : Call → Type 0
IsAttempt (state_read _) = Unit
IsAttempt (allow _) = Unit
IsAttempt _ = ⊥

record StaysExhausted (call : Call) (c : CircuitBreaker) : Type 0 where
  state : (step call c).state ≡ half_open
  config : (step call c).config ≡ c.config
  total : (step call c).half_open_total ≡ c.half_open_total
  shut : lets_through call c ≡ 0

exhausted-step :
    (call : Call) (c : CircuitBreaker)
    → c.state ≡ half_open
    → c.config.half_open_requests ≤ c.half_open_total
    → IsAttempt call
    → StaysExhausted call c
unfolding step lets_through
exhausted-step (state_read now) c e b a = ground arith
exhausted-step (allow now) c e b a = ground arith
exhausted-step (success now) c e b a = absurd a
exhausted-step (failure now now') c e b a = absurd a
exhausted-step (forced_open now) c e b a = absurd a
exhausted-step (forced_close now) c e b a = absurd a

-- A half-open circuit that has let its test requests through, and is told the result of none of
-- them, lets nothing more through and stays half-open, whatever time passes.
pub half_open_exhausted :
    (calls : List Call) (c : CircuitBreaker)
    → c.state ≡ half_open
    → c.config.half_open_requests ≤ c.half_open_total
    → All IsAttempt calls
    → (admitted calls c ≡ 0) × ((run calls c).state ≡ half_open)
unfolding run admitted
half_open_exhausted [] c e b a = (refl, e)
half_open_exhausted (call ∷ calls) c e b a =
    let k = exhausted-step call c e b a.0 in
    let (none_in, still) =
      half_open_exhausted calls (step call c) k.state (rw (k.config, k.total) b) a.1 in
    (omega (arith, k.shut, none_in), still)

-- the calls that record successes at the given times
abbrev pub successes : List ℕ → List Call
successes [] = []
successes (now ∷ times) = success now ∷ successes times

abbrev pub count_times : List ℕ → ℕ
count_times [] = 0
count_times (now ∷ times) = suc (count_times times)

success_closes :
    (now : ℕ) (c : CircuitBreaker)
    → c.state ≡ half_open
    → c.half_open_successes + 1 ≡ c.config.half_open_requests
    → (step (success now) c).state ≡ closed
unfolding step
success_closes now c e s = ground arith

record CountsSuccess (now : ℕ) (c : CircuitBreaker) : Type 0 where
  state : (step (success now) c).state ≡ half_open
  config : (step (success now) c).config ≡ c.config
  more : (step (success now) c).half_open_successes ≡ c.half_open_successes + 1

success_counts :
    (now : ℕ) (c : CircuitBreaker)
    → c.state ≡ half_open
    → c.half_open_successes + 1 < c.config.half_open_requests
    → CountsSuccess now c
unfolding step
success_counts now c e s = ground arith

successes_close :
    (now : ℕ) (times : List ℕ) (c : CircuitBreaker)
    → c.state ≡ half_open
    → c.half_open_successes + suc (count_times times) ≡ c.config.half_open_requests
    → (run (successes (now ∷ times)) c).state ≡ closed
unfolding run
successes_close now [] c e s = success_closes now c e (omega arith)
successes_close now (now' ∷ times) c e s =
    let k = success_counts now c e (omega arith) in
    successes_close now' times (step (success now) c) k.state (rw (k.config, k.more) (omega arith))

record Probes (now : ℕ) (c : CircuitBreaker) : Type 0 where
  granted : (allow_request now c).1 ≡ true
  state : (step (allow now) c).state ≡ half_open
  config : (step (allow now) c).config ≡ c.config
  fresh : (step (allow now) c).half_open_successes ≡ 0

open-Probes :
    (now : ℕ) (c : CircuitBreaker)
    → c.state ≡ open_circuit
    → 0 < c.config.half_open_requests
    → c.opened_at + c.config.open_duration_ms ≤ now
    → Probes now c
unfolding step allow_request
open-Probes now c e p h = ground arith

-- Once the open duration has passed, an open circuit lets the next request through, and recording
-- the configured number of successes, which is positive, then closes it.
pub open_recovers :
    (now first : ℕ) (times : List ℕ) (c : CircuitBreaker)
    → c.state ≡ open_circuit
    → c.opened_at + c.config.open_duration_ms ≤ now
    → suc (count_times times) ≡ c.config.half_open_requests
    → ((allow_request now c).1 ≡ true)
      × ((run (allow now ∷ successes (first ∷ times)) c).state ≡ closed)
unfolding run
open_recovers now first times c e h n =
    let k = open-Probes now c e (omega arith) h in
    (
      k.granted,
      successes_close first times (step (allow now) c) k.state
          (rw (k.config, k.fresh) (omega arith)),
    )
