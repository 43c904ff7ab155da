-- ===== src/Session/Retried.antt =====
-- An insertion that times out some times before it is answered, from the retry loop down to the bytes
-- of the reply.
use archerdb.Base.{
  ℕ, zero, suc, ◌+◌, ◌-◌, ◌≤◌, ◌<◌, ◌≡◌, refl, ap, ◌∙◌, true, List, Result, ok, err, map, length,
  All, arith,
}
use archerdb.Base.Int.{negsuc}
use archerdb.Types.{GeoEvent, BatchError}
use archerdb.Errors.{Error, codes, is_retryable_error}
use archerdb.Retry.{
  RetryConfig, Outcome, succeeded, failed, Script, returned, delay_after, with_retry,
}
use archerdb.Retry.Success.{with_retry_succeeds}
use archerdb.Native.{NativeClient, failed_with}
use archerdb.Native.Inflight.{Call, run}
use archerdb.Native.Writes.{NativeSubmit, wire_events, status_error}
use archerdb.Native.Layout.{answered}
use archerdb.Native.Outcomes.{
  entries_bytes, FitsEntry, reported, last_insert_result, reserved_field, insertion_reported,
  insertion_failed,
}
use archerdb.Session.{
  GeoClientSync, NativeRequest, data_attempt, insertion, submit_batch, insert_error, errors_with,
  Others, reached,
}
use archerdb.Session.Evicted.{
  IsLinked, run-IsLinked, IsUndisturbed, reached-IsOn, open_with, data_attempt-reaches,
}

-- an outcome for the retry loop
abbrev pub outcome_of : {A : Type 0} → Result Error A → Outcome A
outcome_of (ok a) = succeeded a
outcome_of (err e) = failed e

module _ (submit : ℕ → NativeSubmit) (others : ℕ → Others) (calls : ℕ → List Call) (clock : ℕ → ℕ)
    (events : List GeoEvent) where
  -- While the request of the attempt of this number is out, the low-level client does these calls, and
  -- `submit` is this.
  abbrev pub attempt_request : ℕ → NativeRequest (List BatchError)
  attempt_request i s = (run (calls i) s, submit_batch (submit i) clock (insertion events))

  -- the client before the attempt of number `i + 1`, which connects it again if it has to
  pub client_before : GeoClientSync → ℕ → GeoClientSync
  client_before c zero = c
  client_before c (suc i) =
      (data_attempt true (others (suc i)) (attempt_request (suc i)) (client_before c i)).0

  -- The retry loop over these attempts, with the readings of its clock and its random numbers.
  abbrev pub attempts : GeoClientSync → (ℕ → ℕ) → (ℕ → ℕ) → (ℕ → ℕ) → Script (List BatchError)
  attempts c before after draw = record {
    before = before;
    outcome = λ i.
        outcome_of (data_attempt true (others i) (attempt_request i) (client_before c (i - 1))).1;
    after = after;
    draw = draw;
  }

  -- the client stays open and linked over attempts that nobody disturbs
  client_before-open_with :
      (s : NativeClient) (i : ℕ)
      → IsLinked s
      → ((j : ℕ) → 1 ≤ j → j ≤ i → IsUndisturbed (others j))
      → (now : NativeClient) × IsLinked now × (client_before (open_with s) i ≡ open_with now)
  unfolding client_before
  client_before-open_with s zero h calm = (s, h, refl)
  client_before-open_with s (suc i) h calm =
      let (now, linked, same) =
        client_before-open_with s i h (λ j from upto. calm j from (omega (arith, upto))) in
      let request = attempt_request (suc i) in
      let this_calm = calm (suc i) (omega arith) (omega arith) in
      let on = reached-IsOn (others (suc i)) now this_calm linked in
      (
        run (calls (suc i)) (reached true (others (suc i)) now),
        run-IsLinked (calls (suc i)) (reached true (others (suc i)) now) (λ connected. on.1),
        ap (λ c. (data_attempt true (others (suc i)) request c).0) same
            ∙ ap (λ r. r.0) (data_attempt-reaches request (others (suc i)) now this_calm linked),
      )

  -- every attempt that nobody disturbs reaches its operation
  attempt-reaches :
      (s : NativeClient) (i : ℕ)
      → IsLinked s
      → 1 ≤ i
      → ((j : ℕ) → 1 ≤ j → j ≤ i → IsUndisturbed (others j))
      → (data_attempt true (others i) (attempt_request i) (client_before (open_with s) (i - 1))).1
        ≡ submit_batch (submit i) clock (insertion events)
  attempt-reaches s i h from calm =
      let (now, linked, same) =
        client_before-open_with s (i - 1) h
          (λ j at_least upto. calm j at_least (omega (arith, upto))) in
      ap (λ c. (data_attempt true (others i) (attempt_request i) c).1) same
      ∙ ap (λ r. r.1)
          (data_attempt-reaches (attempt_request i) (others i) now (calm i from (omega arith))
            linked)

  batch_reported :
      (i : ℕ) (entries : List (ℕ × ℕ))
      → 1 ≤ length events
      → All FitsEntry entries
      → submit i 146 (wire_events clock 0 events) ≡ ok (answered (entries_bytes entries))
      → submit_batch (submit i) clock (insertion events)
        ≡ ok (map insert_error (reported last_insert_result reserved_field entries))
  unfolding submit_batch
  batch_reported i entries some_event fit answer =
      ap (errors_with insert_error)
        (insertion_reported (submit i) clock events entries some_event fit answer)

  batch_failed :
      (i n : ℕ)
      → 1 ≤ length events
      → submit i 146 (wire_events clock 0 events) ≡ ok (failed_with (negsuc n))
      → submit_batch (submit i) clock (insertion events)
        ≡ err (status_error (codes "insert_events") (codes ": connection/timeout") (negsuc n))
  unfolding submit_batch
  batch_failed i n some_event failure =
      ap (errors_with insert_error) (insertion_failed (submit i) clock events n some_event failure)

  lost_retryable :
      (n : ℕ)
      → is_retryable_error
          (status_error (codes "insert_events") (codes ": connection/timeout") (negsuc n))
        ≡ true
  unfolding is_retryable_error
  lost_retryable n = refl

  -- An insertion of at least one event by an open client, over the retry loop: when the requests of
  -- the first attempts get no answer (a status below 0), the one of attempt `k`, within the allowed
  -- attempts, is answered with the bytes of these entries, the total timeout is not met on the way,
  -- and the library connects again wherever an attempt finds the connection lost, then the call
  -- returns the errors of the entries after exactly `k` attempts. Between the attempts, before an
  -- attempt's test of the connection and while a request is out, the other threads and the library do
  -- anything to the low-level client, an eviction or a disconnection among it; between the test and
  -- the submission of an attempt none takes the connection away, and none closes the client.
  pub insertion_retried :
      (config : RetryConfig) (s : NativeClient) (before after draw : ℕ → ℕ) (k : ℕ) (lost : ℕ → ℕ)
      (entries : List (ℕ × ℕ))
      → IsLinked s
      → ((i : ℕ) → 1 ≤ i → i ≤ k → IsUndisturbed (others i))
      → config.enabled ≡ true
      → 1 ≤ k
      → k ≤ config.max_retries + 1
      → 1 ≤ length events
      → All FitsEntry entries
      → ((i : ℕ)
          → 1 ≤ i
          → i < k
          → submit i 146 (wire_events clock 0 events) ≡ ok (failed_with (negsuc (lost i))))
      → submit k 146 (wire_events clock 0 events) ≡ ok (answered (entries_bytes entries))
      → ((i : ℕ) → 1 ≤ i → i ≤ k → before i < config.total_timeout_ms)
      → ((i : ℕ)
          → 1 ≤ i
          → i < k
          → after i + delay_after config (attempts (open_with s) before after draw) i
            < config.total_timeout_ms)
      → ((with_retry config (attempts (open_with s) before after draw)).0
          ≡ returned (map insert_error (reported last_insert_result reserved_field entries)))
        × ((with_retry config (attempts (open_with s) before after draw)).1.calls ≡ k)
  insertion_retried config s before after draw k lost entries linked calm on some few some_event fit
        lost_at answer early waits =
      with_retry_succeeds config (attempts (open_with s) before after draw) k
        (map insert_error (reported last_insert_result reserved_field entries))
        (record {
          result = ap outcome_of (
              attempt-reaches s k linked some calm
              ∙ batch_reported k entries some_event fit answer);
          earlier = λ i from before_k. (
            status_error (codes "insert_events") (codes ": connection/timeout") (negsuc (lost i)),
            record {
              outcome = ap outcome_of (
                  attempt-reaches s i linked from
                    (λ j at_least upto. calm j at_least (omega (arith, upto, before_k)))
                  ∙ batch_failed i (lost i) some_event (lost_at i from before_k));
              retryable = lost_retryable (lost i);
            },
          );
          on_time = early;
          waits = waits;
        })
        on some few
