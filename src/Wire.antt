-- ===== src/Wire.antt =====
-- The bytes of the wire format, as the client reads them with `struct`, `int` and `str`
-- (src/clients/python/src/archerdb/types.py). A byte is a number below 256; a text is a list of code
-- points. What those functions of Python do is written out, with the exceptions that they raise.
pub mod Bytes
pub mod Shard
pub mod Layout
pub mod Reading
pub mod Cluster
pub mod Sent
pub mod Struct
pub mod Event
pub mod Ttl
pub mod Filters
pub mod PolygonParts
pub mod Polygon
mod Tests
use archerdb.Base.{
  ℕ, zero, suc, ◌+◌, ◌-◌, ◌*◌, ◌/◌, ◌%◌, ◌^◌, Bool, true, false, ◌&&◌, List, [], ◌∷◌, ◌++◌, Option,
  none, some, Result, ok, err, and_then, length, leb, ltb, ◌==◌, if◌then◌else◌, drop, take,
}

pub data WireError : Type 0 where
  value_error struct_error index_error unicode_decode_error overflow_error : WireError

-- `int.from_bytes(bytes, "little")`
abbrev pub little : List ℕ → ℕ
little [] = 0
little (b ∷ bytes) = b + 256 * little bytes

-- the `n` low bytes of a number
abbrev pub le_bytes : ℕ → ℕ → List ℕ
le_bytes zero v = []
le_bytes (suc n) v = v % 256 ∷ le_bytes n (v / 256)

-- `struct.unpack` of one unsigned number of `n` bytes
unfoldable pub unpack : ℕ → List ℕ → Result WireError ℕ
unpack n bytes = if length bytes == n then ok (little bytes) else err struct_error

abbrev pub first_byte : List ℕ → Result WireError ℕ
first_byte [] = err index_error
first_byte (b ∷ bytes) = ok b

-- `data[offset]`
unfoldable pub byte_at : List ℕ → ℕ → Result WireError ℕ
byte_at bytes offset = first_byte (drop offset bytes)

-- `raw.split(b'\x00')[0]`
abbrev pub until_zero : List ℕ → List ℕ
until_zero [] = []
until_zero (b ∷ bytes) = if b == 0 then [] else b ∷ until_zero bytes

-- Between two bytes of UTF-8: how many bytes the code point still needs, its bits so far, and the
-- least and the greatest byte that may follow.
pub record Pending : Type 0 where
  pub need : ℕ
  pub bits : ℕ
  pub least : ℕ
  pub greatest : ℕ

abbrev pub between : Pending
between = record { need = 0; bits = 0; least = 0; greatest = 0 }

abbrev pub needing : ℕ → ℕ → ℕ → ℕ → Option (Pending × List ℕ)
needing need bits least greatest =
    some (record { need = need; bits = bits; least = least; greatest = greatest }, [])

-- the first byte of a code point, without overlong forms, surrogates and what is above U+10FFFF
abbrev pub lead_byte : ℕ → Option (Pending × List ℕ)
lead_byte b =
    if ltb b 128
    then some (between, b ∷ [])
    else if ltb b 194
    then none
    else if ltb b 224
    then needing 1 (b - 192) 128 191
    else if b == 224
    then needing 2 0 160 191
    else if b == 237
    then needing 2 13 128 159
    else if ltb b 240
    then needing 2 (b - 224) 128 191
    else if b == 240
    then needing 3 0 144 191
    else if ltb b 244
    then needing 3 (b - 240) 128 191
    else if b == 244
    then needing 3 4 128 143
    else none

abbrev pub next_byte : ℕ → ℕ → Option (Pending × List ℕ)
next_byte zero bits = some (between, bits ∷ [])
next_byte (suc need) bits = needing (suc need) bits 128 191

abbrev pub feed : ℕ → Pending → ℕ → Option (Pending × List ℕ)
feed zero p b = lead_byte b
feed (suc need) p b =
    if leb p.least b && leb b p.greatest then next_byte need (p.bits * 64 + (b - 128)) else none

-- a byte that may not stand where it does ends the decoding; the others go on
abbrev pub resume :
    Option (Pending × List ℕ) → (Pending → Result WireError (List ℕ)) → Result WireError (List ℕ)
resume none continue = err unicode_decode_error
resume (some (next, out)) continue = and_then (continue next) (λ rest. ok (out ++ rest))

unfoldable pub decode_from : Pending → List ℕ → Result WireError (List ℕ)
decode_from p [] = if p.need == 0 then ok [] else err unicode_decode_error
decode_from p (b ∷ bytes) = resume (feed p.need p b) (λ next. decode_from next bytes)

-- `bytes.decode('utf-8')`
unfoldable pub decode : List ℕ → Result WireError (List ℕ)
unfolding decode_from
decode bytes = decode_from between bytes
