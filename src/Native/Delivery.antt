-- ===== src/Native/Delivery.antt =====
-- Which request a completion reaches.
use archerdb.Base.{
  ℕ, ◌+◌, ◌%◌, ◌<◌, ◌≡◌, ◌≢◌, refl, sym, ap, ◌∙◌, Bool, true, false, not, ◌||◌, List, [], ◌∷◌,
  Option, none, some, All, length, arith, ==_iff, ==_ne, ==_refl, ◌==◌, if◌then◌else◌, if_elim,
  true≢false,
}
use mathlib.Core.Option.{some-injective}
use archerdb.Native.{
  NativeClient, Begun, not_connected, waiting, in_use, without, tagged, timed_out, signalled,
  is_evicted, assign_tag, tag_count, begin_submit, tag_of, request_under, by_address, popped,
  on_completion,
}
use archerdb.Native.Tags.{Distinct}
use archerdb.Native.Inflight.{
  assign_tag-some, Call, connecting, beginning, completing, ending, disconnecting, clearing, step,
  run, tags, HasTags, assigned, step-HasTags, tagged-waiting-HasTags,
}

request-without :
    (tag t : ℕ) (inflight : List (ℕ × ℕ))
    → t ≢ tag
    → request_under tag (without t inflight) ≡ request_under tag inflight
request-without tag t [] ne = refl
request-without tag t ((u, a) ∷ inflight) ne = ground (arith, request-without tag t inflight ne)

request-in_use :
    (tag a : ℕ) (inflight : List (ℕ × ℕ))
    → request_under tag inflight ≡ some a
    → in_use tag inflight ≡ true
request-in_use tag a [] h = cc
request-in_use tag a ((u, b) ∷ inflight) h = ground (arith, request-in_use tag a inflight)

used-tags :
    (t u : ℕ) (inflight : List (ℕ × ℕ))
    → in_use t inflight ≡ true
    → All (λ y. y ≢ u) (tags inflight)
    → t ≢ u
used-tags t u [] h ne = absurd (true≢false (sym h))
used-tags t u ((v, a) ∷ inflight) h ne = ground (arith, used-tags t u inflight)

-- the tag that is found by the address is the tag of a request at that address
tag_of-request :
    (a t : ℕ) (inflight : List (ℕ × ℕ))
    → Distinct (tags inflight)
    → tag_of a inflight ≡ some t
    → request_under t inflight ≡ some a
tag_of-request a t [] d h = cc
tag_of-request a t ((u, b) ∷ inflight) d h =
    if_elim (λ found. found ≡ some t → request_under t ((u, b) ∷ inflight) ≡ some a) (b == a)
      (λ same e. rw ((==_iff u t).1 (some-injective u t e)) (ap some ((==_iff b a).0 same)))
      (λ other e.
        let rest = tag_of-request a t inflight d.1 e in
        rw
          (==_ne u t (λ e'. used-tags t u inflight (request-in_use t a inflight rest) d.0 (sym e')))
          rest)
      h

module _ (tag addr : ℕ) where
  -- A call that is not about the request: a completion of another packet, and not the end of
  -- `disconnect` that forgets the requests.
  abbrev pub IsElsewhere : Call → Type 0
  IsElsewhere (connecting success) = Unit
  IsElsewhere (beginning a accepted) = Unit
  IsElsewhere (completing t a) = (t ≢ tag) × (a ≢ addr)
  IsElsewhere (ending wait) = Unit
  IsElsewhere (disconnecting pending) = Unit
  IsElsewhere clearing = ⊥

  abbrev pub IsInFlight : NativeClient → Type 0
  IsInFlight s = request_under tag s.inflight ≡ some addr

  kept_without :
      (t : ℕ) (s : NativeClient)
      → t ≢ tag
      → IsInFlight s
      → IsInFlight (record s { inflight = without t s.inflight })
  kept_without t s ne h = request-without tag t s.inflight ne ∙ h

  -- a tag that is free is not the request's
  free-other : (t : ℕ) (s : NativeClient) → in_use t s.inflight ≡ false → IsInFlight s → t ≢ tag
  free-other t s unused h e =
      true≢false (
        sym (request-in_use tag addr s.inflight h) ∙ ap (λ x. in_use x s.inflight) (sym e) ∙ unused)

  tagged-IsInFlight :
      (a : ℕ) (accepted : Bool) (s : NativeClient) (found : Option ℕ)
      → assign_tag s ≡ found
      → IsInFlight s
      → IsInFlight (tagged a accepted s found).0
  tagged-IsInFlight a accepted s none e h = h
  tagged-IsInFlight a accepted s (some t) e h =
      let ne = free-other t s (assigned s t e).1 h in
      let after = record s { inflight = (t, a) ∷ s.inflight; next_tag = (t + 1) % 65_536 } in
      let still : IsInFlight after = rw (==_ne t tag ne) h in
      if_elim (λ (r : NativeClient × Begun). IsInFlight r.0) accepted (λ yes. still)
        (λ no. kept_without t after ne still)

  by_address-IsInFlight :
      (a : ℕ) (s : NativeClient) (found : Option ℕ)
      → tag_of a s.inflight ≡ found
      → a ≢ addr
      → HasTags s
      → IsInFlight s
      → IsInFlight (by_address a s found).0
  by_address-IsInFlight a s none e ne v h = h
  by_address-IsInFlight a s (some t) e ne v h =
      let there = tag_of-request a t s.inflight v.distinct e in
      kept_without t s
        (λ same.
          ne (some-injective a addr (sym there ∙ ap (λ x. request_under x s.inflight) same ∙ h)))
        h

  popped-IsInFlight :
      (t a : ℕ) (s : NativeClient) (found : Option ℕ)
      → t ≢ tag
      → a ≢ addr
      → HasTags s
      → IsInFlight s
      → IsInFlight (popped t a s found).0
  popped-IsInFlight t a s none ne ne' v h =
      by_address-IsInFlight a s (tag_of a s.inflight) refl ne' v h
  popped-IsInFlight t a s (some found) ne ne' v h = kept_without t s ne h

  step-IsInFlight :
      (c : Call) (s : NativeClient)
      → IsElsewhere c
      → HasTags s
      → IsInFlight s
      → IsInFlight (step c s)
  unfolding step
  step-IsInFlight (connecting success) s away v h =
      if_elim (λ (r : NativeClient × Bool). IsInFlight r.0) s.connected (λ already. h) (λ fresh. h)
  step-IsInFlight (beginning a accepted) s away v h =
      if_elim (λ (r : NativeClient × Begun). IsInFlight r.0) (not s.connected || not s.has_client)
        (λ off. h) (λ on. tagged-IsInFlight a accepted s (assign_tag s) refl h)
  step-IsInFlight (completing t a) s away v h =
      popped-IsInFlight t a s (request_under t s.inflight) away.0 away.1 v h
  step-IsInFlight (ending timed_out) s away v h = h
  step-IsInFlight (ending (signalled result)) s away v h =
      if_elim IsInFlight (is_evicted result.status) (λ evicted. h) (λ kept. h)
  step-IsInFlight (disconnecting pending) s away v h =
      if_elim (λ (r : NativeClient × Bool). IsInFlight r.0) (not s.has_client || not s.connected)
        (λ off. h) (λ on. h)
  step-IsInFlight clearing s away v h = absurd away

  run-IsInFlight :
      (calls : List Call) (s : NativeClient)
      → All IsElsewhere calls
      → HasTags s
      → IsInFlight s
      → IsInFlight (run calls s)
  unfolding run
  run-IsInFlight [] s away v h = h
  run-IsInFlight (c ∷ calls) s away v h =
      run-IsInFlight calls (step c s) away.1 (step-HasTags c s v) (step-IsInFlight c s away.0 v h)

  completed : (s : NativeClient) → IsInFlight s → (on_completion tag addr s).1 ≡ some addr
  unfolding on_completion
  completed s h = ap (λ found. (popped tag addr s found).1) h

begin_submit-tagged :
    (addr : ℕ) (s : NativeClient) (tag : ℕ)
    → s.connected ≡ true
    → s.has_client ≡ true
    → assign_tag s ≡ some tag
    → begin_submit addr true s ≡ tagged addr true s (some tag)
unfolding begin_submit
begin_submit-tagged addr s tag connected client e =
    let on : (not s.connected || not s.has_client) ≡ false =
      ap (λ a. not a || not s.has_client) connected ∙ ap not client in
    ap (λ off. if off then (s, not_connected) else tagged addr true s (assign_tag s)) on
    ∙ ap (tagged addr true s) e

-- A connected client with fewer than 65,535 requests in flight, whose library accepts the packet,
-- begins the request under a tag. Whatever other requests begin, complete, time out or are evicted
-- before it, and whoever connects or begins to disconnect, as long as the requests in flight are not
-- cleared the completion of its packet reaches this request.
pub begun_delivered :
    (addr : ℕ) (s : NativeClient)
    → HasTags s
    → s.connected ≡ true
    → s.has_client ≡ true
    → length s.inflight < tag_count
    → (tag : ℕ) × ((begin_submit addr true s).1 ≡ waiting tag)
      × ((calls : List Call)
          → All (IsElsewhere tag addr) calls
          → (on_completion tag addr (run calls (begin_submit addr true s).0)).1 ≡ some addr)
begun_delivered addr s v connected client few =
    let (tag, e) = assign_tag-some s few in
    let begun = begin_submit-tagged addr s tag connected client e in
    let valid : HasTags (tagged addr true s (some tag)).0 = tagged-waiting-HasTags addr tag s e v in
    let there : IsInFlight tag addr (tagged addr true s (some tag)).0 = rw (==_refl tag) refl in
    (
      tag,
      ap (λ r. r.1) begun,
      λ calls away. rw begun (
          completed tag addr (run calls (tagged addr true s (some tag)).0)
            (run-IsInFlight tag addr calls (tagged addr true s (some tag)).0 away valid there)),
    )
