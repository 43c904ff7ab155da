-- ===== src/Native/Admin.antt =====
-- The administrative requests: `ping`, `get_status`, `get_topology`, the times to live and
-- `cleanup_expired` of the low-level client (src/clients/python/src/archerdb/_native.py), and the
-- methods of the client that make one attempt of them (client.py).
use archerdb.Base.{
  ℕ, ◌^◌, Bool, true, false, not, ◌&&◌, List, [], ◌∷◌, ◌++◌, Result, ok, err, and_then, ltb, leb,
  if◌then◌else◌, take,
}
use archerdb.Base.Int.{ℤ, negsuc}
use archerdb.Base.Text.{same_text}
use archerdb.Errors.{Error}
use archerdb.Wire.{WireError, struct_error, le_bytes}
use archerdb.Wire.Bytes.{zeros}
use archerdb.Wire.Struct.{struct_values, field}
use archerdb.Wire.Cluster.{topology_from_bytes}
use archerdb.Wire.Ttl.{
  TtlSetRequest, TtlSetResponse, TtlExtendRequest, TtlExtendResponse, TtlClearRequest,
  TtlClearResponse, set_to_bytes, extend_to_bytes, clear_to_bytes, set_from_bytes,
  extend_from_bytes, clear_from_bytes,
}
use archerdb.Topology.{TopologyResponse}
use archerdb.Native.{NativeClientResult}
use archerdb.Native.Writes.{NativeSubmit, is_ok_status, bytes_of, has_bytes}

-- The exceptions of these requests: one of `submit`, one of packing or unpacking, and `ArcherDBError`
-- of errors.py with its code.
pub data AdminError : Type 0 where
  request_failed : Error → AdminError
  malformed : WireError → AdminError
  archerdb_error : ℤ → AdminError

pub record StatusResponse : Type 0 where
  pub ram_index_count : ℕ
  pub ram_index_capacity : ℕ
  pub ram_index_load_pct : ℕ
  pub tombstone_count : ℕ
  pub ttl_expirations : ℕ
  pub deletion_count : ℕ

abbrev pub no_status : StatusResponse
no_status = record {
  ram_index_count = 0;
  ram_index_capacity = 0;
  ram_index_load_pct = 0;
  tombstone_count = 0;
  ttl_expirations = 0;
  deletion_count = 0;
}

-- the sizes of the fields of a status, with 4 bytes of padding behind the third
abbrev pub status_sizes : List ℕ
status_sizes = 8 ∷ 8 ∷ 4 ∷ 4 ∷ 8 ∷ 8 ∷ 8 ∷ []

abbrev pub status_of : List ℕ → StatusResponse
status_of values = record {
  ram_index_count = field 0 values;
  ram_index_capacity = field 1 values;
  ram_index_load_pct = field 2 values;
  tombstone_count = field 4 values;
  ttl_expirations = field 5 values;
  deletion_count = field 6 values;
}

-- whether a reply has at least this many bytes
abbrev pub has_reply : ℕ → NativeClientResult → Bool
has_reply size result = leb size result.data_size && has_bytes result.payload

unfoldable pub judge_ping : NativeClientResult → Bool
judge_ping result =
    if not (is_ok_status result.status)
    then false
    else if has_reply 4 result
    then same_text (take 4 (bytes_of result.payload)) (112 ∷ 111 ∷ 110 ∷ 103 ∷ [])
    else true

unfoldable pub judge_status : NativeClientResult → StatusResponse
judge_status result =
    if not (is_ok_status result.status)
    then no_status
    else if has_reply 64 result
    then status_of (struct_values status_sizes (bytes_of result.payload))
    else no_status

-- the bytes of a reply of at least this size, or `ArcherDBError`
unfoldable pub judge_bytes : ℕ → NativeClientResult → Result AdminError (List ℕ)
judge_bytes size result =
    if not (is_ok_status result.status)
    then err (archerdb_error result.status)
    else if has_reply size result
    then ok (bytes_of result.payload)
    else err (archerdb_error (negsuc 0))

unfoldable pub judge_cleanup : NativeClientResult → ℕ × ℕ
judge_cleanup result =
    let values = struct_values (8 ∷ 8 ∷ []) (bytes_of result.payload) in
    if not (is_ok_status result.status)
    then (0, 0)
    else if has_reply 16 result
    then (field 0 values, field 1 values)
    else (0, 0)

-- a step of packing or unpacking
abbrev pub checked : {A : Type 0} → Result WireError A → Result AdminError A
checked (ok a) = ok a
checked (err e) = err (malformed e)

abbrev pub requested : {A : Type 0} → Result Error A → Result AdminError A
requested (ok a) = ok a
requested (err e) = err (request_failed e)

module _ (submit : NativeSubmit) where
  unfoldable pub ping : Result Error Bool
  unfolding judge_ping
  ping = and_then (submit 152 (le_bytes 8 0x676e6970)) (λ result. ok (judge_ping result))

  unfoldable pub get_status : Result Error StatusResponse
  unfolding judge_status
  get_status = and_then (submit 153 (le_bytes 8 0)) (λ result. ok (judge_status result))

  -- with the parsing of the client's `get_topology`
  unfoldable pub fetch_topology : Result AdminError TopologyResponse
  unfolding judge_bytes topology_from_bytes
  fetch_topology =
      and_then (requested (submit 157 (le_bytes 8 0)))
        (λ result. and_then (judge_bytes 1 result) (λ bytes. checked (topology_from_bytes bytes)))

  -- an operation on a time to live: what is packed is sent, and the reply is unpacked
  unfoldable pub ttl_request :
      {A : Type 0}
      → ℕ
      → Result WireError (List ℕ)
      → (List ℕ → Result WireError A)
      → Result AdminError A
  unfolding judge_bytes
  ttl_request operation packed unpack = and_then (checked packed) (λ bytes.
      and_then (requested (submit operation bytes))
        (λ result. and_then (judge_bytes 64 result) (λ reply. checked (unpack reply))))

  unfoldable pub ttl_set : TtlSetRequest → Result AdminError TtlSetResponse
  unfolding ttl_request set_to_bytes set_from_bytes
  ttl_set request = ttl_request 158 (set_to_bytes request) set_from_bytes

  unfoldable pub ttl_extend : TtlExtendRequest → Result AdminError TtlExtendResponse
  unfolding ttl_request extend_to_bytes extend_from_bytes
  ttl_extend request = ttl_request 159 (extend_to_bytes request) extend_from_bytes

  unfoldable pub ttl_clear : TtlClearRequest → Result AdminError TtlClearResponse
  unfolding ttl_request clear_to_bytes clear_from_bytes
  ttl_clear request = ttl_request 160 (clear_to_bytes request) clear_from_bytes

  -- `struct.pack("<I60s", batch_size, ...)`
  unfoldable pub cleanup_expired : ℕ → Result AdminError (ℕ × ℕ)
  unfolding judge_cleanup
  cleanup_expired batch_size =
      if ltb batch_size (256 ^ 4)
      then and_then (requested (submit 155 (le_bytes 4 batch_size ++ zeros 60)))
          (λ result. ok (judge_cleanup result))
      else err (malformed struct_error)
