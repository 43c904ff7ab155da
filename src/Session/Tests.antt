-- ===== src/Session/Tests.antt =====
-- A client whose connection is lost and found, and the theorems at it.
use archerdb.Base.{
  ℕ, ◌+◌, ◌≤◌, ◌≡◌, refl, Bool, true, false, List, [], ◌∷◌, ok, err, map, ltb, if◌then◌else◌, arith,
}
use archerdb.Base.Int.{pos, negsuc}
use archerdb.Types.{GeoEvent}
use archerdb.Errors.{is_retryable_error}
use archerdb.Retry.{RetryConfig, calculate_retry_delay, returned, with_retry}
use archerdb.Native.{NativeClientResult, NativeClient, failed_with, signalled, timed_out}
use archerdb.Native.Inflight.{Call, connecting, beginning, ending}
use archerdb.Native.Writes.{NativeSubmit}
use archerdb.Native.Layout.{answered}
use archerdb.Native.Outcomes.{entries_bytes, reported, last_insert_result, reserved_field}
use archerdb.Session.{NativeRequest, admin_attempt, data_attempt, Others, reached, insert_error}
use archerdb.Session.Evicted.{
  IsUndisturbed, open_with, after_eviction, not_connected_error, evicted_client,
}
use archerdb.Session.Retried.{attempts, insertion_retried}

abbrev evicted : NativeClientResult
evicted = failed_with (pos 2)

abbrev history : List Call
history = connecting true ∷ beginning 700 true ∷ []

-- requests that succeed once they reach the library
abbrev ping_request : NativeRequest Bool
ping_request s = (s, ok true)

abbrev query_request : NativeRequest ℕ
query_request s = (s, ok 7)

-- Another thread finds its connection lost before the test; one begins a request behind it.
abbrev others : Others
others = record {
  before_test = ending (signalled evicted) ∷ [];
  behind_test = beginning 800 true ∷ [];
  before_submit = ending timed_out ∷ [];
  closes = false;
}

others-IsUndisturbed : IsUndisturbed others
others-IsUndisturbed = record {
  stays_open = refl;
  behind_test = (tt, tt);
  before_submit = (tt, tt);
}

evicted_client_example :
    (admin_attempt ping_request (after_eviction history evicted)
      ≡ (after_eviction history evicted, err not_connected_error))
    × (is_retryable_error not_connected_error ≡ false)
    × ((reached true others (after_eviction history evicted).native).connected ≡ true)
    × ((data_attempt true others query_request (after_eviction history evicted)).1
        ≡ (query_request (reached true others (after_eviction history evicted).native)).1)
evicted_client_example =
    evicted_client history evicted ping_request query_request others refl others-IsUndisturbed

abbrev config : RetryConfig
config = record {
  enabled = true;
  max_retries = 5;
  base_backoff_ms = 100;
  max_backoff_ms = 1_600;
  total_timeout_ms = 30_000;
  jitter = false;
}

config_delay : (n : ℕ) → calculate_retry_delay n config 0 ≤ 1_600
unfolding calculate_retry_delay
config_delay n = ground arith

abbrev connected : NativeClient
connected = record { has_client = true; connected = true; inflight = []; next_tag = 1 }

abbrev event : GeoEvent
event = record {
  id = 70;
  entity_id = 5;
  correlation_id = 0;
  user_data = 0;
  lat_nano = pos 0;
  lon_nano = pos 0;
  group_id = 1;
  timestamp = 0;
  altitude_mm = pos 0;
  velocity_mms = 0;
  ttl_seconds = 0;
  accuracy_mm = 0;
  heading_cdeg = pos 0;
  flags = 0;
}

abbrev entries : List (ℕ × ℕ)
entries = (0, 13) ∷ []

-- Two requests time out, another thread is evicted meanwhile, and the third one is answered.
abbrev submit : ℕ → NativeSubmit
submit i operation bytes =
    if ltb i 3 then ok (failed_with (negsuc 1)) else ok (answered (entries_bytes entries))

abbrev calls : ℕ → List Call
calls i = ending timed_out ∷ ending (signalled evicted) ∷ []

insertion_retried_example :
    ((with_retry config (
        attempts submit
          (λ i. others)
          calls
          (λ i. 9)
          (event ∷ [])
          (open_with connected)
          (λ i. 0)
          (λ i. 0)
          (λ i. 0))).0
      ≡ returned (map insert_error (reported last_insert_result reserved_field entries)))
    × ((with_retry config (
          attempts submit
            (λ i. others)
            calls
            (λ i. 9)
            (event ∷ [])
            (open_with connected)
            (λ i. 0)
            (λ i. 0)
            (λ i. 0))).1.calls
        ≡ 3)
insertion_retried_example =
    insertion_retried submit (λ i. others) calls (λ i. 9) (event ∷ []) config connected (λ i. 0)
      (λ i. 0) (λ i. 0) 3 (λ i. 1) entries (λ on. refl) (λ i from upto. others-IsUndisturbed) refl
      (omega arith) (omega arith) (omega arith) ((omega arith, omega arith), tt)
      (λ i from before_three. ground arith) refl (λ i from upto. omega arith)
      (λ i from before_three. omega (arith, config_delay (i + 1)))
