-- ===== src/Wire/Ttl.antt =====
-- The messages that set, extend and clear a time to live (src/clients/python/src/archerdb/types.py,
-- `TtlSetRequest` to `TtlClearResponse`), 64 bytes each.
use archerdb.Base.{
  ℕ, ◌^◌, List, [], ◌∷◌, ◌++◌, Result, ok, err, and_then, length, ltb, ◌==◌, if◌then◌else◌,
}
use archerdb.Wire.{WireError, value_error, struct_error, overflow_error, le_bytes}
use archerdb.Wire.Bytes.{zeros}
use archerdb.Wire.Struct.{struct_values, field}

pub data TtlOperationResult : Type 0 where
  success entity_not_found invalid_ttl not_permitted entity_immutable : TtlOperationResult
  storage_space_exhausted : TtlOperationResult

-- `TtlOperationResult(result_code)`
unfoldable pub ttl_result : ℕ → Result WireError TtlOperationResult
ttl_result code =
    if code == 0
    then ok success
    else if code == 1
    then ok entity_not_found
    else if code == 2
    then ok invalid_ttl
    else if code == 3
    then ok not_permitted
    else if code == 4
    then ok entity_immutable
    else if code == 5
    then ok storage_space_exhausted
    else err value_error

pub record TtlSetRequest : Type 0 where
  pub entity_id : ℕ
  pub ttl_seconds : ℕ
  pub flags : ℕ

pub record TtlExtendRequest : Type 0 where
  pub entity_id : ℕ
  pub extend_by_seconds : ℕ
  pub flags : ℕ

pub record TtlClearRequest : Type 0 where
  pub entity_id : ℕ
  pub flags : ℕ

pub record TtlSetResponse : Type 0 where
  pub entity_id : ℕ
  pub previous_ttl_seconds : ℕ
  pub new_ttl_seconds : ℕ
  pub result : TtlOperationResult

pub record TtlExtendResponse : Type 0 where
  pub entity_id : ℕ
  pub previous_ttl_seconds : ℕ
  pub new_ttl_seconds : ℕ
  pub result : TtlOperationResult

pub record TtlClearResponse : Type 0 where
  pub entity_id : ℕ
  pub previous_ttl_seconds : ℕ
  pub result : TtlOperationResult

-- `entity_id.to_bytes(16, "little")`
abbrev pub entity_bytes : ℕ → Result WireError (List ℕ)
entity_bytes entity_id =
    if ltb entity_id (256 ^ 16) then ok (le_bytes 16 entity_id) else err overflow_error

-- `struct.pack("<I", v)`
abbrev pub pack_u32 : ℕ → Result WireError (List ℕ)
pack_u32 v = if ltb v (256 ^ 4) then ok (le_bytes 4 v) else err struct_error

-- an entity, two numbers, and 40 zeros
unfoldable pub pack_two : ℕ → ℕ → ℕ → Result WireError (List ℕ)
pack_two entity_id seconds flags = and_then (entity_bytes entity_id) (λ entity.
    and_then (pack_u32 seconds)
      (λ time. and_then (pack_u32 flags) (λ bits. ok (entity ++ (time ++ (bits ++ zeros 40))))))

unfoldable pub set_to_bytes : TtlSetRequest → Result WireError (List ℕ)
unfolding pack_two
set_to_bytes r = pack_two r.entity_id r.ttl_seconds r.flags

unfoldable pub extend_to_bytes : TtlExtendRequest → Result WireError (List ℕ)
unfolding pack_two
extend_to_bytes r = pack_two r.entity_id r.extend_by_seconds r.flags

unfoldable pub clear_to_bytes : TtlClearRequest → Result WireError (List ℕ)
clear_to_bytes r =
    and_then (entity_bytes r.entity_id)
      (λ entity. and_then (pack_u32 r.flags) (λ bits. ok (entity ++ (bits ++ zeros 44))))

-- an entity, two numbers of 4 bytes, and the byte of the result
abbrev pub two_times : List ℕ
two_times = 16 ∷ 4 ∷ 4 ∷ 1 ∷ []

abbrev pub one_time : List ℕ
one_time = 16 ∷ 4 ∷ 1 ∷ []

-- what is made of the numbers of a reply
unfoldable pub set_of : List ℕ → Result WireError TtlSetResponse
unfolding ttl_result
set_of values = and_then (ttl_result (field 3 values)) (λ result. ok (record {
  entity_id = field 0 values;
  previous_ttl_seconds = field 1 values;
  new_ttl_seconds = field 2 values;
  result = result;
}))

unfoldable pub extend_of : List ℕ → Result WireError TtlExtendResponse
unfolding ttl_result
extend_of values = and_then (ttl_result (field 3 values)) (λ result. ok (record {
  entity_id = field 0 values;
  previous_ttl_seconds = field 1 values;
  new_ttl_seconds = field 2 values;
  result = result;
}))

unfoldable pub clear_of : List ℕ → Result WireError TtlClearResponse
unfolding ttl_result
clear_of values = and_then (ttl_result (field 2 values)) (λ result.
    ok (record {
      entity_id = field 0 values;
      previous_ttl_seconds = field 1 values;
      result = result;
    }))

-- a parser of replies of 64 bytes
unfoldable pub from_bytes :
    {A : Type 0} → List ℕ → (List ℕ → Result WireError A) → List ℕ → Result WireError A
from_bytes sizes make bytes =
    if ltb (length bytes) 64 then err value_error else make (struct_values sizes bytes)

unfoldable pub set_from_bytes : List ℕ → Result WireError TtlSetResponse
unfolding from_bytes set_of
set_from_bytes bytes = from_bytes two_times set_of bytes

unfoldable pub extend_from_bytes : List ℕ → Result WireError TtlExtendResponse
unfolding from_bytes extend_of
extend_from_bytes bytes = from_bytes two_times extend_of bytes

unfoldable pub clear_from_bytes : List ℕ → Result WireError TtlClearResponse
unfolding from_bytes clear_of
clear_from_bytes bytes = from_bytes one_time clear_of bytes
