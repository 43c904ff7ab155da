-- ===== src/Native.antt =====
-- The low-level client (src/clients/python/src/archerdb/_native.py, `NativeClient`): the requests in
-- flight under their tags, and what becomes of a request. Each block under a lock is one step. A
-- request is known by the address of its packet; what the C library answers and how a wait ends are
-- arguments. A completion takes its request from the map of the requests in flight and sets its event
-- in one step, so an event is set just when its request has left the map.
pub mod Tags
pub mod Inflight
pub mod Delivery
pub mod Writes
pub mod Reads
pub mod Layout
pub mod Missing
pub mod Lookup
pub mod Queries
pub mod Outcomes
pub mod Admin
pub mod Replies
pub mod Served
mod Tests
mod ReplyTests
mod AdminTests
use archerdb.Base.{
  ℕ, zero, suc, ◌+◌, ◌%◌, Bool, true, false, not, ◌&&◌, ◌||◌, List, [], ◌∷◌, Option, none, some,
  ltb, ◌==◌, if◌then◌else◌,
}
use archerdb.Base.Int.{ℤ, pos, negsuc}

pub record NativeClientResult : Type 0 where
  pub status : ℤ
  pub data_size : ℕ
  pub payload : Option (List ℕ)

-- `inflight` has the packet's address under each tag
pub record NativeClient : Type 0 where
  pub has_client : Bool
  pub connected : Bool
  pub inflight : List (ℕ × ℕ)
  pub next_tag : ℕ

abbrev pub new_client : NativeClient
new_client = record { has_client = false; connected = false; inflight = []; next_tag = 1 }

-- `connect`, with whether `arch_client_init` succeeded
unfoldable pub connect : Bool → NativeClient → NativeClient × Bool
connect success s =
    if s.connected
    then (s, true)
    else (record s { has_client = true; connected = success }, success)

-- `tag & 0xFFFF`, and 1 in the place of 0
abbrev pub wrapped : ℕ → ℕ
wrapped n = let low = n % 65_536 in if low == 0 then 1 else low

-- `tag in self._inflight`
abbrev pub in_use : ℕ → List (ℕ × ℕ) → Bool
in_use tag [] = false
in_use tag ((t, addr) ∷ inflight) = if t == tag then true else in_use tag inflight

-- `while tag in self._inflight`, for at most this many rounds
unfoldable pub free_tag : ℕ → ℕ → List (ℕ × ℕ) → Option ℕ
free_tag zero tag inflight = none
free_tag (suc fuel) tag inflight =
    let rest = free_tag fuel (wrapped (tag + 1)) inflight in
    if in_use tag inflight then rest else some tag

-- there are so many tags
abbrev pub tag_count : ℕ
tag_count = 65_535

unfoldable pub assign_tag : NativeClient → Option ℕ
unfolding free_tag
assign_tag s = free_tag tag_count (wrapped s.next_tag) s.inflight

-- `self._inflight.pop(tag, None)`
abbrev pub without : ℕ → List (ℕ × ℕ) → List (ℕ × ℕ)
without tag [] = []
without tag ((t, addr) ∷ inflight) = if t == tag then inflight else (t, addr) ∷ without tag inflight

-- What the first block of `submit` comes to: `RuntimeError`, a loop that does not end, the failure of
-- `arch_client_submit`, or a wait.
pub data Begun : Type 0 where
  not_connected no_free_tag : Begun
  submit_failed : NativeClientResult → Begun
  waiting : ℕ → Begun

abbrev pub failed_with : ℤ → NativeClientResult
failed_with status = record { status = status; data_size = 0; payload = none }

-- the request is in flight before the library has it, and is taken back if the library refuses it
abbrev pub tagged : ℕ → Bool → NativeClient → Option ℕ → NativeClient × Begun
tagged addr accepted s none = (s, no_free_tag)
tagged addr accepted s (some tag) =
    let after = record s { inflight = (tag, addr) ∷ s.inflight; next_tag = (tag + 1) % 65_536 } in
    if accepted then (after, waiting tag) else (
      record after { inflight = without tag after.inflight },
      submit_failed (failed_with (negsuc 0)),
    )

unfoldable pub begin_submit : ℕ → Bool → NativeClient → NativeClient × Begun
unfolding assign_tag
begin_submit addr accepted s =
    if not s.connected || not s.has_client
    then (s, not_connected)
    else tagged addr accepted s (assign_tag s)

-- the tag of a packet that is in flight under another tag than its own
abbrev pub tag_of : ℕ → List (ℕ × ℕ) → Option ℕ
tag_of addr [] = none
tag_of addr ((t, a) ∷ inflight) = if a == addr then some t else tag_of addr inflight

abbrev pub request_under : ℕ → List (ℕ × ℕ) → Option ℕ
request_under tag [] = none
request_under tag ((t, addr) ∷ inflight) =
    if t == tag then some addr else request_under tag inflight

abbrev pub by_address : ℕ → NativeClient → Option ℕ → NativeClient × Option ℕ
by_address addr s none = (s, none)
by_address addr s (some tag) = (record s { inflight = without tag s.inflight }, some addr)

abbrev pub popped : ℕ → ℕ → NativeClient → Option ℕ → NativeClient × Option ℕ
popped tag addr s (some found) = (record s { inflight = without tag s.inflight }, some found)
popped tag addr s none = by_address addr s (tag_of addr s.inflight)

-- `on_completion`: the request that gets the result and whose event is set, if the packet is known
unfoldable pub on_completion : ℕ → ℕ → NativeClient → NativeClient × Option ℕ
on_completion tag addr s = popped tag addr s (request_under tag s.inflight)

-- the result that `on_completion` hands over: no payload without bytes
unfoldable pub received_result : ℕ → ℕ → Option (List ℕ) → NativeClientResult
received_result status data_size pointer = record {
  status = pos status;
  data_size = data_size;
  payload = if ltb 0 data_size then pointer else none;
}

-- how the wait for the event ends
pub data Wait : Type 0 where
  timed_out : Wait
  signalled : NativeClientResult → Wait

abbrev pub is_evicted : ℤ → Bool
is_evicted (pos status) = status == 2
is_evicted (negsuc n) = false

-- `submit` behind the wait: a request that timed out stays in flight
unfoldable pub end_submit : Wait → NativeClient → NativeClient × NativeClientResult
end_submit timed_out s = (s, failed_with (negsuc 1))
end_submit (signalled result) s = (
  if is_evicted result.status then record s { connected = false; has_client = false } else s,
  result,
)

abbrev pub pending_events : List (ℕ × ℕ) → List ℕ
pending_events [] = []
pending_events ((t, addr) ∷ inflight) = addr ∷ pending_events inflight

-- the first block of `disconnect`: the requests whose events it waits for, if there is a client
unfoldable pub begin_disconnect : NativeClient → Option (List ℕ)
begin_disconnect s =
    if not s.has_client || not s.connected then none else some (pending_events s.inflight)

abbrev pub is_pending : ℕ → List (ℕ × ℕ) → Bool
is_pending addr [] = false
is_pending addr ((t, a) ∷ inflight) = if a == addr then true else is_pending addr inflight

-- `any(not event.is_set() for event in pending_events)`
abbrev pub any_pending : List ℕ → List (ℕ × ℕ) → Bool
any_pending [] inflight = false
any_pending (addr ∷ addrs) inflight =
    if is_pending addr inflight then true else any_pending addrs inflight

-- `disconnect` behind the waits, with whether the client was shut down, so that the requests in flight
-- are forgotten next
unfoldable pub end_disconnect : List ℕ → NativeClient → NativeClient × Bool
end_disconnect pending s =
    if not s.has_client || not s.connected
    then (s, false)
    else (record s { has_client = false; connected = false }, not (any_pending pending s.inflight))

-- `self._inflight.clear()`, the last block of `disconnect`
unfoldable pub clear_inflight : NativeClient → NativeClient
clear_inflight s = record s { inflight = [] }
