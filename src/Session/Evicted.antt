-- ===== src/Session/Evicted.antt =====
-- A client that the server has evicted.
use archerdb.Base.{
  ℕ, ◌≡◌, refl, sym, ap, ◌∙◌, inl, inr, Bool, true, false, not, ◌||◌, List, [], ◌∷◌, Option, none,
  some, err, if◌then◌else◌, if_elim, true≢false, Bool-cases, All,
}
use archerdb.Base.Int.{pos}
use archerdb.Errors.{Error, other, codes, is_retryable_error}
use archerdb.Native.{
  NativeClient, NativeClientResult, new_client, Begun, tagged, by_address, popped, request_under,
  tag_of, assign_tag, connect, timed_out, signalled, is_evicted, end_submit,
}
use archerdb.Native.Inflight.{
  Call, connecting, beginning, completing, ending, disconnecting, clearing, step, run,
}
use archerdb.Session.{
  GeoClientSync, NativeRequest, submit_request, with_native, reconnected, Others, reached,
  data_attempt, admin_attempt,
}

-- A low-level client that counts as connected has a client of the library.
abbrev pub IsLinked : NativeClient → Type 0
IsLinked s = s.connected ≡ true → s.has_client ≡ true

tagged-IsLinked :
    (addr : ℕ) (accepted : Bool) (s : NativeClient) (found : Option ℕ)
    → IsLinked s
    → IsLinked (tagged addr accepted s found).0
tagged-IsLinked addr accepted s none h = h
tagged-IsLinked addr accepted s (some tag) h =
    if_elim (λ (r : NativeClient × Begun). IsLinked r.0) accepted (λ yes. h) (λ no. h)

by_address-IsLinked :
    (addr : ℕ) (s : NativeClient) (found : Option ℕ)
    → IsLinked s
    → IsLinked (by_address addr s found).0
by_address-IsLinked addr s none h = h
by_address-IsLinked addr s (some tag) h = h

popped-IsLinked :
    (tag addr : ℕ) (s : NativeClient) (found : Option ℕ)
    → IsLinked s
    → IsLinked (popped tag addr s found).0
popped-IsLinked tag addr s none h = by_address-IsLinked addr s (tag_of addr s.inflight) h
popped-IsLinked tag addr s (some found) h = h

step-IsLinked : (c : Call) (s : NativeClient) → IsLinked s → IsLinked (step c s)
unfolding step
step-IsLinked (connecting success) s h =
    if_elim (λ (r : NativeClient × Bool). IsLinked r.0) s.connected (λ already. h)
      (λ fresh yes. refl)
step-IsLinked (beginning addr accepted) s h =
    if_elim (λ (r : NativeClient × Begun). IsLinked r.0) (not s.connected || not s.has_client)
      (λ off. h) (λ on. tagged-IsLinked addr accepted s (assign_tag s) h)
step-IsLinked (completing tag addr) s h =
    popped-IsLinked tag addr s (request_under tag s.inflight) h
step-IsLinked (ending timed_out) s h = h
step-IsLinked (ending (signalled result)) s h =
    if_elim IsLinked (is_evicted result.status) (λ evicted no. absurd (true≢false (sym no)))
      (λ kept. h)
step-IsLinked (disconnecting pending) s h =
    if_elim (λ (r : NativeClient × Bool). IsLinked r.0) (not s.has_client || not s.connected)
      (λ off. h) (λ on no. absurd (true≢false (sym no)))
step-IsLinked clearing s h = h

pub run-IsLinked : (calls : List Call) (s : NativeClient) → IsLinked s → IsLinked (run calls s)
unfolding run
run-IsLinked [] s h = h
run-IsLinked (c ∷ calls) s h = run-IsLinked calls (step c s) (step-IsLinked c s h)

-- A low-level client that is connected, with a client of the library.
abbrev pub IsOn : NativeClient → Type 0
IsOn s = (s.connected ≡ true) × (s.has_client ≡ true)

-- A call that does not take the connection away: no eviction, and no disconnection.
abbrev pub KeepsConnected : Call → Type 0
KeepsConnected (ending (signalled result)) = is_evicted result.status ≡ false
KeepsConnected (disconnecting pending) = ⊥
KeepsConnected _ = Unit

-- While an attempt is under way nobody closes the client, and between its test of the connection and
-- its `submit` nobody takes the connection away.
pub record IsUndisturbed (others : Others) : Type 0 where
  pub stays_open : others.closes ≡ false
  pub behind_test : All KeepsConnected others.behind_test
  pub before_submit : All KeepsConnected others.before_submit

tagged-IsOn :
    (addr : ℕ) (accepted : Bool) (s : NativeClient) (found : Option ℕ)
    → IsOn s
    → IsOn (tagged addr accepted s found).0
tagged-IsOn addr accepted s none on = on
tagged-IsOn addr accepted s (some tag) on =
    if_elim (λ (r : NativeClient × Begun). IsOn r.0) accepted (λ yes. on) (λ no. on)

popped-IsOn :
    (tag addr : ℕ) (s : NativeClient) (found : Option ℕ) → IsOn s → IsOn (popped tag addr s found).0
popped-IsOn tag addr s none on = addressed (tag_of addr s.inflight)
  where
    addressed : (found : Option ℕ) → IsOn (by_address addr s found).0
    addressed none = on
    addressed (some found) = on
popped-IsOn tag addr s (some found) on = on

-- the client of the library that a successful `connect` makes
abbrev fresh : NativeClient → NativeClient
fresh s = record s { has_client = true; connected = true }

-- `connect`, by whether the client is connected
abbrev made : NativeClient → Bool → NativeClient
made s b = let r : NativeClient × Bool = if b then (s, true) else (fresh s, true) in r.0

connect-IsOn : (s : NativeClient) → IsLinked s → IsOn (connect true s).0
unfolding connect
connect-IsOn s h = elim (Bool-cases s.connected) [
  | inl on ↦ (ap (λ b. (made s b).connected) on ∙ on, ap (λ b. (made s b).has_client) on ∙ h on)
  | inr off ↦ (ap (λ b. (made s b).connected) off, ap (λ b. (made s b).has_client) off)
]

step-IsOn : (c : Call) (s : NativeClient) → KeepsConnected c → IsOn s → IsOn (step c s)
unfolding step
step-IsOn (connecting success) s kept on =
    if_elim (λ (r : NativeClient × Bool). IsOn r.0) s.connected (λ already. on)
      (λ fresh. absurd (true≢false (sym on.0 ∙ fresh)))
step-IsOn (beginning addr accepted) s kept on =
    if_elim (λ (r : NativeClient × Begun). IsOn r.0) (not s.connected || not s.has_client)
      (λ off. on) (λ lasts. tagged-IsOn addr accepted s (assign_tag s) on)
step-IsOn (completing tag addr) s kept on = popped-IsOn tag addr s (request_under tag s.inflight) on
step-IsOn (ending timed_out) s kept on = on
step-IsOn (ending (signalled result)) s kept on =
    if_elim IsOn (is_evicted result.status) (λ evicted. absurd (true≢false (sym evicted ∙ kept)))
      (λ lasts. on)
step-IsOn (disconnecting pending) s kept on = absurd kept
step-IsOn clearing s kept on = on

run-IsOn :
    (calls : List Call) (s : NativeClient) → All KeepsConnected calls → IsOn s → IsOn (run calls s)
unfolding run
run-IsOn [] s kept on = on
run-IsOn (c ∷ calls) s kept on = run-IsOn calls (step c s) kept.1 (step-IsOn c s kept.0 on)

reconnected-IsOn :
    (meanwhile : List Call) (s : NativeClient)
    → IsLinked s
    → All KeepsConnected meanwhile
    → IsOn (reconnected true meanwhile s)
unfolding reconnected
reconnected-IsOn meanwhile s h kept =
    if_elim IsOn (not s.connected)
      (λ off. connect-IsOn (run meanwhile s) (run-IsLinked meanwhile s h))
      (λ on.
        let connected = not_off s.connected on in
        run-IsOn meanwhile s kept (connected, h connected))
  where
    not_off : (b : Bool) → not b ≡ false → b ≡ true
    not_off true e = refl
    not_off false e = absurd (true≢false e)

-- an open client over this low-level client
abbrev pub open_with : NativeClient → GeoClientSync
open_with s = record { closed = false; native = s }

pub reached-IsOn :
    (others : Others) (s : NativeClient)
    → IsUndisturbed others
    → IsLinked s
    → IsOn (reached true others s)
reached-IsOn others s calm h = run-IsOn others.before_submit _ calm.before_submit (
    reconnected-IsOn others.behind_test (run others.before_test s)
      (run-IsLinked others.before_test s h) calm.behind_test)

module _ {A : Type 0} (request : NativeRequest A) where
  submit_request-reaches :
      (s : NativeClient)
      → s.connected ≡ true
      → s.has_client ≡ true
      → submit_request request s ≡ request s
  unfolding submit_request
  submit_request-reaches s connected client =
      let on : (not s.connected || not s.has_client) ≡ false =
        ap (λ a. not a || not s.has_client) connected ∙ ap not client in
      ap (λ off. if off then (s, err (other (codes "Client not connected"))) else request s) on

  -- an open client's attempt, when the library connects and nobody disturbs it
  pub data_attempt-reaches :
      (others : Others) (s : NativeClient)
      → IsUndisturbed others
      → IsLinked s
      → data_attempt true others request (open_with s)
        ≡ with_native (open_with s) (request (reached true others s))
  unfolding data_attempt
  data_attempt-reaches others s calm h =
      let on = reached-IsOn others s calm h in
      ap
        (λ b.
          with_native (record { closed = b; native = s })
            (submit_request request (reached true others s)))
        calm.stays_open
      ∙ ap (with_native (open_with s)) (submit_request-reaches (reached true others s) on.0 on.1)

-- the error of a request to a client that is not connected
abbrev pub not_connected_error : Error
not_connected_error = other (codes "Client not connected")

-- An open client whose low-level client has done these calls and then got this result.
abbrev pub after_eviction : List Call → NativeClientResult → GeoClientSync
after_eviction calls result = open_with (end_submit (signalled result) (run calls new_client)).0

evicted-off :
    (calls : List Call) (result : NativeClientResult)
    → result.status ≡ pos 2
    → (after_eviction calls result).native.connected ≡ false
unfolding end_submit
evicted-off calls result status =
    ap
      (λ z.
        (if is_evicted z
          then record (run calls new_client) { connected = false; has_client = false }
          else run calls new_client).connected)
      status

-- An open client whose low-level client, after any calls of its threads and of the library, is told
-- that the server evicted it: every administrative request fails with an error that is not tried
-- again, and leaves the client as it was; an insertion, a deletion or a query connects it again, when
-- the library can, and reaches its operation, if nobody closes the client meanwhile or takes the
-- connection away behind the test of the connection.
pub evicted_client :
    {A : Type 0} {B : Type 0} (calls : List Call) (result : NativeClientResult)
    (admin : NativeRequest A) (request : NativeRequest B) (others : Others)
    → result.status ≡ pos 2
    → IsUndisturbed others
    → (admin_attempt admin (after_eviction calls result)
        ≡ (after_eviction calls result, err not_connected_error))
      × (is_retryable_error not_connected_error ≡ false)
      × ((reached true others (after_eviction calls result).native).connected ≡ true)
      × ((data_attempt true others request (after_eviction calls result)).1
          ≡ (request (reached true others (after_eviction calls result).native)).1)
unfolding admin_attempt submit_request is_retryable_error
evicted_client calls result admin request others status calm =
    let c = after_eviction calls result in
    let linked : IsLinked c.native =
      λ on. absurd (true≢false (sym on ∙ evicted-off calls result status)) in
    (
      ap
          (λ b. with_native c (
            if not b || not c.native.has_client
            then (c.native, err not_connected_error)
            else admin c.native))
          (evicted-off calls result status),
      refl,
      (reached-IsOn others c.native calm linked).0,
      ap (λ r. r.1) (data_attempt-reaches request others c.native calm linked),
    )
