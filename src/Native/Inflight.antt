-- ===== src/Native/Inflight.antt =====
-- The map of the requests in flight over any interleaving of the client's blocks.
use archerdb.Base.{
  ℕ, ◌+◌, ◌%◌, ◌<◌, ◌≡◌, ◌≢◌, refl, Bool, true, false, not, ◌||◌, List, [], ◌∷◌, Option, none, some,
  All, length, arith, ◌==◌, if_elim,
}
use archerdb.Native.{
  NativeClient, Begun, Wait, timed_out, signalled, is_evicted, wrapped, in_use, tag_count,
  assign_tag, without, tagged, connect, begin_submit, tag_of, request_under, by_address, popped,
  on_completion, end_submit, end_disconnect, clear_inflight,
}
use archerdb.Native.Tags.{IsTag, Distinct, wrapped-IsTag, free_tag-IsFree, free_tag-some}

-- A block of a thread, or of the C library's callback.
pub data Call : Type 0 where
  connecting : Bool → Call
  beginning : ℕ → Bool → Call
  completing : ℕ → ℕ → Call
  ending : Wait → Call
  disconnecting : List ℕ → Call
  clearing : Call

unfoldable pub step : Call → NativeClient → NativeClient
unfolding connect begin_submit on_completion end_submit end_disconnect clear_inflight
step (connecting success) s = (connect success s).0
step (beginning addr accepted) s = (begin_submit addr accepted s).0
step (completing tag addr) s = (on_completion tag addr s).0
step (ending wait) s = (end_submit wait s).0
step (disconnecting pending) s = (end_disconnect pending s).0
step clearing s = clear_inflight s

unfoldable pub run : List Call → NativeClient → NativeClient
unfolding step
run [] s = s
run (c ∷ calls) s = run calls (step c s)

abbrev pub tags : List (ℕ × ℕ) → List ℕ
tags [] = []
tags ((t, addr) ∷ inflight) = t ∷ tags inflight

-- The tags in use are different, fit 16 bits and are not 0.
pub record HasTags (s : NativeClient) : Type 0 where
  pub distinct : Distinct (tags s.inflight)
  pub tagged_right : All IsTag (tags s.inflight)

unused-All :
    (t : ℕ) (inflight : List (ℕ × ℕ)) → in_use t inflight ≡ false → All (λ y. y ≢ t) (tags inflight)
unused-All t [] h = tt
unused-All t ((u, addr) ∷ inflight) h = ground (arith, unused-All t inflight)

All-without :
    (P : ℕ → Type 0) (t : ℕ) (inflight : List (ℕ × ℕ))
    → All P (tags inflight)
    → All P (tags (without t inflight))
All-without P t [] h = tt
All-without P t ((u, addr) ∷ inflight) h =
    if_elim (λ left. All P (tags left)) (u == t) (λ same. h.1)
      (λ other. (h.0, All-without P t inflight h.1))

Distinct-without :
    (t : ℕ) (inflight : List (ℕ × ℕ))
    → Distinct (tags inflight)
    → Distinct (tags (without t inflight))
Distinct-without t [] h = tt
Distinct-without t ((u, addr) ∷ inflight) h =
    if_elim (λ left. Distinct (tags left)) (u == t) (λ same. h.1)
      (λ other. (All-without (λ y. y ≢ u) t inflight h.0, Distinct-without t inflight h.1))

without-HasTags :
    (t : ℕ) (s : NativeClient) → HasTags s → HasTags (record s { inflight = without t s.inflight })
without-HasTags t s v = record {
  distinct = Distinct-without t s.inflight v.distinct;
  tagged_right = All-without IsTag t s.inflight v.tagged_right;
}

-- the tag that a client assigns
pub assigned :
    (s : NativeClient) (tag : ℕ)
    → assign_tag s ≡ some tag
    → IsTag tag × (in_use tag s.inflight ≡ false)
unfolding assign_tag
assigned s tag e =
    free_tag-some 65_535 (wrapped s.next_tag) tag s.inflight (wrapped-IsTag s.next_tag) e

-- with fewer requests in flight than tags, some tag is assigned
pub assign_tag-some :
    (s : NativeClient) → length s.inflight < tag_count → (tag : ℕ) × (assign_tag s ≡ some tag)
unfolding assign_tag
assign_tag-some s few =
    let (tag, found, right, unused) =
      free_tag-IsFree (wrapped s.next_tag) s.inflight (wrapped-IsTag s.next_tag) few in
    (tag, found)

pub tagged-waiting-HasTags :
    (addr tag : ℕ) (s : NativeClient)
    → assign_tag s ≡ some tag
    → HasTags s
    → HasTags (tagged addr true s (some tag)).0
tagged-waiting-HasTags addr tag s e v =
    let (right, unused) = assigned s tag e in
    record {
      distinct = (unused-All tag s.inflight unused, v.distinct);
      tagged_right = (right, v.tagged_right);
    }

tagged-HasTags :
    (addr : ℕ) (accepted : Bool) (s : NativeClient) (found : Option ℕ)
    → assign_tag s ≡ found
    → HasTags s
    → HasTags (tagged addr accepted s found).0
tagged-HasTags addr accepted s none e v = v
tagged-HasTags addr accepted s (some tag) e v =
    let after = record s { inflight = (tag, addr) ∷ s.inflight; next_tag = (tag + 1) % 65_536 } in
    let valid = tagged-waiting-HasTags addr tag s e v in
    if_elim (λ (r : NativeClient × Begun). HasTags r.0) accepted (λ yes. valid)
      (λ no. without-HasTags tag after valid)

by_address-HasTags :
    (addr : ℕ) (s : NativeClient) (found : Option ℕ)
    → HasTags s
    → HasTags (by_address addr s found).0
by_address-HasTags addr s none v = v
by_address-HasTags addr s (some tag) v = without-HasTags tag s v

popped-HasTags :
    (tag addr : ℕ) (s : NativeClient) (found : Option ℕ)
    → HasTags s
    → HasTags (popped tag addr s found).0
popped-HasTags tag addr s none v = by_address-HasTags addr s (tag_of addr s.inflight) v
popped-HasTags tag addr s (some found) v = without-HasTags tag s v

same_inflight : (s t : NativeClient) → t.inflight ≡ s.inflight → HasTags s → HasTags t
same_inflight s t e v = record { distinct = rw e v.distinct; tagged_right = rw e v.tagged_right }

pub step-HasTags : (c : Call) (s : NativeClient) → HasTags s → HasTags (step c s)
unfolding step
step-HasTags (connecting success) s v =
    if_elim (λ (r : NativeClient × Bool). HasTags r.0) s.connected (λ already. v)
      (λ fresh. same_inflight s (record s { has_client = true; connected = success }) refl v)
step-HasTags (beginning addr accepted) s v =
    if_elim (λ (r : NativeClient × Begun). HasTags r.0) (not s.connected || not s.has_client)
      (λ off. v) (λ on. tagged-HasTags addr accepted s (assign_tag s) refl v)
step-HasTags (completing tag addr) s v = popped-HasTags tag addr s (request_under tag s.inflight) v
step-HasTags (ending timed_out) s v = v
step-HasTags (ending (signalled result)) s v =
    if_elim HasTags (is_evicted result.status)
      (λ evicted. same_inflight s (record s { connected = false; has_client = false }) refl v)
      (λ kept. v)
step-HasTags (disconnecting pending) s v =
    if_elim (λ (r : NativeClient × Bool). HasTags r.0) (not s.has_client || not s.connected)
      (λ off. v) (λ on. same_inflight s (record s { has_client = false; connected = false }) refl v)
step-HasTags clearing s v = record { distinct = tt; tagged_right = tt }

-- Over any calls of the client's threads and of the library's callback, in any order, the tags in
-- use stay different from each other, fit 16 bits and are not 0.
pub run-HasTags : (calls : List Call) (s : NativeClient) → HasTags s → HasTags (run calls s)
unfolding run
run-HasTags [] s v = v
run-HasTags (c ∷ calls) s v = run-HasTags calls (step c s) (step-HasTags c s v)
