-- ===== src/Breaker/Tests.antt =====
-- Tests of the circuit breaker, and its theorems at concrete circuits.
use archerdb.Base.{◌+◌, ◌≤◌, ◌≡◌, refl, true, List, [], ◌∷◌, ◌++◌, arith}
use archerdb.Breaker.{
  closed, open_circuit, half_open, CircuitBreaker, default_config, init, allow_request, Call,
  state_read, allow, success, failure, step, run,
}
use archerdb.Breaker.Invariant.{IsValid, run-IsValid}
use archerdb.Breaker.Rejection.{admitted, successes, open_rejects, half_open_admits, open_recovers}

abbrev fresh : CircuitBreaker
fresh = record {
  config = default_config;
  state = closed;
  opened_at = 0;
  total_requests = 0;
  failed_requests = 0;
  window_start_ms = 1000;
  half_open_successes = 0;
  half_open_failures = 0;
  half_open_total = 0;
  state_changes = 0;
  rejected_requests = 0;
}

abbrev five : List Call
five =
    failure 1001 1001
    ∷ failure 1002 1002
    ∷ failure 1003 1003
    ∷ failure 1004 1004
    ∷ failure 1005 1005
    ∷ []

-- Ten failures open the circuit; it stays open until 30 s have passed.
ten_failures_open : (run (five ++ five) fresh).state ≡ open_circuit
unfolding run
ten_failures_open = refl

nine_do_not : (run (five ++ failure 1006 1006 ∷ failure 1007 1007 ∷ []) fresh).state ≡ closed
unfolding run
nine_do_not = refl

init-fresh : init default_config 1000 ≡ fresh
unfolding init
init-fresh = refl

abbrev tripped : CircuitBreaker
tripped = record fresh {
  state = open_circuit;
  opened_at = 1005;
  total_requests = 10;
  failed_requests = 10;
  state_changes = 1;
}

abbrev testing : CircuitBreaker
testing = record tripped { state = half_open; half_open_total = 4; state_changes = 2 }

abbrev exhausted : CircuitBreaker
exhausted = record testing { half_open_total = 5 }

run-IsValid_example :
    IsValid (run (allow 40_000 ∷ success 40_001 ∷ failure 40_002 40_003 ∷ []) tripped)
run-IsValid_example =
    run-IsValid (allow 40_000 ∷ success 40_001 ∷ failure 40_002 40_003 ∷ []) tripped (omega arith)
      (ground arith)

-- Four failures and five successes in the window: the tenth request decides.
abbrev nine : List Call
nine =
    failure 1001 1001
    ∷ failure 1002 1002
    ∷ success 1003
    ∷ allow 1004
    ∷ failure 1005 1005
    ∷ success 1006
    ∷ success 1007
    ∷ state_read 1008
    ∷ failure 1009 1009
    ∷ success 1010
    ∷ success 1011
    ∷ []

open_rejects_example :
    (admitted (allow 31_004 ∷ failure 40_000 40_000 ∷ state_read 2 ∷ []) tripped ≡ 0)
    × ((run (allow 31_004 ∷ failure 40_000 40_000 ∷ state_read 2 ∷ []) tripped).state
        ≡ open_circuit)
open_rejects_example =
    open_rejects (allow 31_004 ∷ failure 40_000 40_000 ∷ state_read 2 ∷ []) tripped refl
      (omega arith)

half_open_admits_example : 4 + admitted (allow 40_000 ∷ allow 40_001 ∷ []) testing ≤ 5
unfolding step
half_open_admits_example =
    half_open_admits (allow 40_000 ∷ allow 40_001 ∷ []) testing refl (omega arith)
      (refl, (refl, tt))

open_recovers_example :
    ((allow_request 31_005 tripped).1 ≡ true)
    × ((run (allow 31_005 ∷ successes (6 ∷ 7 ∷ 8 ∷ 9 ∷ 10 ∷ [])) tripped).state ≡ closed)
open_recovers_example = open_recovers 31_005 6 (7 ∷ 8 ∷ 9 ∷ 10 ∷ []) tripped refl (omega arith) refl
