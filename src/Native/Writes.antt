-- ===== src/Native/Writes.antt =====
-- The writes of the low-level client (src/clients/python/src/archerdb/_native.py,
-- `insert_events`, `upsert_events`, `delete_entities`): what is sent, and what the reply says.
use archerdb.Base.{
  ℕ, zero, suc, ◌+◌, ◌*◌, ◌/◌, ◌%◌, ◌^◌, Bool, true, false, ◌&&◌, List, [], ◌∷◌, ◌++◌, Option, none,
  some, Result, ok, err, and_then, ltb, leb, ◌==◌, if◌then◌else◌, slice,
}
use archerdb.Base.Int.{ℤ, pos, negsuc}
use archerdb.Types.{GeoEvent}
use archerdb.Errors.{Error, other, codes}
use archerdb.Wire.{little, le_bytes}
use archerdb.Wire.Event.{geo_event_to_wire}
use archerdb.Native.{NativeClientResult}

-- `submit` and `submit_bytes`, with an operation's code and the bytes of its data
abbrev pub NativeSubmit : Type 0
NativeSubmit = ℕ → List ℕ → Result Error NativeClientResult

-- a number in decimal, with at most this many digits
abbrev digits : ℕ → ℕ → List ℕ
digits zero n = []
digits (suc fuel) n =
    let front = digits fuel (n / 10) in
    if ltb n 10 then (48 + n) ∷ [] else front ++ ((48 + n % 10) ∷ [])

abbrev pub decimal : ℤ → List ℕ
decimal (pos n) = digits (suc n) n
decimal (negsuc n) = 45 ∷ digits (suc (suc n)) (suc n)

abbrev pub is_negative : ℤ → Bool
is_negative (pos n) = false
is_negative (negsuc n) = true

-- `status == PacketStatus.OK`
abbrev pub is_ok_status : ℤ → Bool
is_ok_status (pos n) = n == 0
is_ok_status (negsuc n) = false

abbrev pub bytes_of : Option (List ℕ) → List ℕ
bytes_of none = []
bytes_of (some bytes) = bytes

-- whether `result.data` is there and not empty
abbrev pub has_bytes : Option (List ℕ) → Bool
has_bytes none = false
has_bytes (some []) = false
has_bytes (some (b ∷ bytes)) = true

abbrev pub status_error : List ℕ → List ℕ → ℤ → Error
status_error name kind status =
    other (name ++ kind ++ codes " error (status=" ++ decimal status ++ codes ")")

-- the codes that the enumerations know; another one reads as `RESERVED_FIELD` or `ENTITY_NOT_FOUND`
abbrev pub insert_code : ℕ → ℕ
insert_code code = if leb code 17 then code else 4

abbrev pub delete_code : ℕ → ℕ
delete_code code = if leb code 5 then code else 3

-- the errors from entry `i` on: an index and a code of 4 bytes each, without the code 0
unfoldable pub read_errors : (ℕ → ℕ) → ℕ → List ℕ → ℕ → List (ℕ × ℕ)
read_errors known zero bytes i = []
read_errors known (suc n) bytes i =
    let rest = read_errors known n bytes (i + 1) in
    let idx = little (slice bytes (i * 8) (i * 8 + 4)) in
    let code = known (little (slice bytes (i * 8 + 4) (i * 8 + 8))) in
    if code == 0 then rest else (idx, code) ∷ rest

unfoldable pub write_errors : (ℕ → ℕ) → NativeClientResult → List (ℕ × ℕ)
unfolding read_errors
write_errors known result =
    if ltb 0 result.data_size && has_bytes result.payload
    then read_errors known (result.data_size / 8) (bytes_of result.payload) 0
    else []

-- what follows the submit of a write
unfoldable pub judge_write : List ℕ → (ℕ → ℕ) → NativeClientResult → Result Error (List (ℕ × ℕ))
unfolding write_errors
judge_write name known result =
    if is_negative result.status
    then err (status_error name (codes ": connection/timeout") result.status)
    else if is_ok_status result.status
    then ok (write_errors known result)
    else err (status_error name (codes ": server") result.status)

-- the events of a request, with the clock's reading when each is packed
abbrev pub wire_events : (ℕ → ℕ) → ℕ → List GeoEvent → List ℕ
wire_events clock i [] = []
wire_events clock i (e ∷ events) = geo_event_to_wire (clock i) e ++ wire_events clock (i + 1) events

-- `entity_id.to_bytes(16, 'little')`, with its `OverflowError`
abbrev pub id_bytes : ℕ → Result Error (List ℕ)
id_bytes entity_id =
    if ltb entity_id (2 ^ 128)
    then ok (le_bytes 16 entity_id)
    else err (other (codes "int too big to convert"))

unfoldable pub ids_bytes : List ℕ → Result Error (List ℕ)
ids_bytes [] = ok []
ids_bytes (entity_id ∷ entity_ids) =
    and_then (id_bytes entity_id)
      (λ bytes. and_then (ids_bytes entity_ids) (λ rest. ok (bytes ++ rest)))

module _ (submit : NativeSubmit) where
  unfoldable pub insert_events : (ℕ → ℕ) → List GeoEvent → Result Error (List (ℕ × ℕ))
  unfolding judge_write
  insert_events clock [] = ok []
  insert_events clock (e ∷ events) =
      and_then (submit 146 (wire_events clock 0 (e ∷ events)))
        (judge_write (codes "insert_events") insert_code)

  unfoldable pub upsert_events : (ℕ → ℕ) → List GeoEvent → Result Error (List (ℕ × ℕ))
  unfolding judge_write
  upsert_events clock [] = ok []
  upsert_events clock (e ∷ events) =
      and_then (submit 147 (wire_events clock 0 (e ∷ events)))
        (judge_write (codes "upsert_events") insert_code)

  unfoldable pub delete_entities : List ℕ → Result Error (List (ℕ × ℕ))
  unfolding judge_write ids_bytes
  delete_entities [] = ok []
  delete_entities (entity_id ∷ entity_ids) =
      and_then (ids_bytes (entity_id ∷ entity_ids))
        (λ bytes. and_then (submit 148 bytes) (judge_write (codes "delete_entities") delete_code))
