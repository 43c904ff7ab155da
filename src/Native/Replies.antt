-- ===== src/Native/Replies.antt =====
-- The bytes of the requests and replies about times to live, and what the client makes of them.
use archerdb.Base.{
  ℕ, ◌+◌, ◌^◌, ◌≤◌, ◌<◌, ◌≡◌, refl, ap, ◌∙◌, true, List, [], ◌∷◌, ◌++◌, some, Result, ok, and_then,
  length, length-append, le→leb, le→ltb, lt→ltb, arith,
}
use archerdb.Wire.{WireError, le_bytes}
use archerdb.Wire.Bytes.{zeros, length-zeros}
use archerdb.Wire.Struct.{struct_bytes, Fits, sum, length-struct_bytes, struct_values-struct_bytes}
use archerdb.Wire.Ttl.{
  TtlOperationResult, success, entity_not_found, invalid_ttl, not_permitted, entity_immutable,
  storage_space_exhausted, ttl_result, TtlSetResponse, TtlExtendResponse, TtlClearResponse,
  set_to_bytes, extend_to_bytes, clear_to_bytes, set_from_bytes, extend_from_bytes,
  clear_from_bytes, from_bytes, set_of, extend_of, clear_of, pack_two, two_times, one_time,
}
use archerdb.Native.{NativeClientResult}
use archerdb.Native.Writes.{NativeSubmit, has_bytes}
use archerdb.Native.Layout.{answered}
use archerdb.Native.Admin.{AdminError, judge_bytes, checked, requested, ttl_request}

-- The byte of a result.
abbrev pub code_of : TtlOperationResult → ℕ
code_of success = 0
code_of entity_not_found = 1
code_of invalid_ttl = 2
code_of not_permitted = 3
code_of entity_immutable = 4
code_of storage_space_exhausted = 5

ttl_result-code_of : (r : TtlOperationResult) → ttl_result (code_of r) ≡ ok r
unfolding ttl_result
ttl_result-code_of success = refl
ttl_result-code_of entity_not_found = refl
ttl_result-code_of invalid_ttl = refl
ttl_result-code_of not_permitted = refl
ttl_result-code_of entity_immutable = refl
ttl_result-code_of storage_space_exhausted = refl

pub code_of-small : (r : TtlOperationResult) → code_of r < 256 ^ 1
code_of-small success = omega arith
code_of-small entity_not_found = omega arith
code_of-small invalid_ttl = omega arith
code_of-small not_permitted = omega arith
code_of-small entity_immutable = omega arith
code_of-small storage_space_exhausted = omega arith

-- The bytes of a request that names an entity and a number of seconds, and of one that names an
-- entity only; then the bytes of the replies.
abbrev pub seconds_request : ℕ → ℕ → List ℕ
seconds_request entity_id seconds = le_bytes 16 entity_id ++ (le_bytes 4 seconds ++ zeros 44)

abbrev pub entity_request : ℕ → List ℕ
entity_request entity_id = le_bytes 16 entity_id ++ zeros 48

abbrev pub set_reply : TtlSetResponse → List ℕ
set_reply r =
    struct_bytes two_times
      (r.entity_id ∷ r.previous_ttl_seconds ∷ r.new_ttl_seconds ∷ code_of r.result ∷ [])
    ++ zeros 39

abbrev pub extend_reply : TtlExtendResponse → List ℕ
extend_reply r =
    struct_bytes two_times
      (r.entity_id ∷ r.previous_ttl_seconds ∷ r.new_ttl_seconds ∷ code_of r.result ∷ [])
    ++ zeros 39

abbrev pub clear_reply : TtlClearResponse → List ℕ
clear_reply r =
    struct_bytes one_time (r.entity_id ∷ r.previous_ttl_seconds ∷ code_of r.result ∷ []) ++ zeros 43

module _ (sizes values : List ℕ) (n : ℕ) where
  pub struct-long : sum sizes + n ≡ 64 → length (struct_bytes sizes values ++ zeros n) ≡ 64
  struct-long whole = omega (
    arith,
    whole,
    length-append (struct_bytes sizes values) (zeros n),
    length-struct_bytes sizes values,
    length-zeros n,
  )

pub from_bytes-struct_bytes :
    {A : Type 0} (sizes values : List ℕ) (n : ℕ) (make : List ℕ → Result WireError A)
    → Fits sizes values
    → sum sizes + n ≡ 64
    → from_bytes sizes make (struct_bytes sizes values ++ zeros n) ≡ make values
unfolding from_bytes
from_bytes-struct_bytes {A = A} sizes values n make fits whole =
    let bytes = struct_bytes sizes values ++ zeros n in
    rw (le→ltb (length bytes) 64 (omega (arith, struct-long sizes values n whole)))
      (ap make (struct_values-struct_bytes sizes values (zeros n) fits))

-- a reply that is long enough is taken
pub judge_bytes-long :
    (size : ℕ) (bytes : List ℕ)
    → has_bytes (some bytes) ≡ true
    → size ≤ length bytes
    → judge_bytes size (answered bytes) ≡ ok bytes
unfolding judge_bytes
judge_bytes-long size bytes there enough = rw (le→leb size (length bytes) enough, there) refl

pub ttl_request-served :
    {A : Type 0} (submit : NativeSubmit) (operation : ℕ) (packed : Result WireError (List ℕ))
    (unpack : List ℕ → Result WireError A) (bytes reply : List ℕ) (r : A)
    → packed ≡ ok bytes
    → submit operation bytes ≡ ok (answered reply)
    → has_bytes (some reply) ≡ true
    → length reply ≡ 64
    → unpack reply ≡ ok r
    → ttl_request submit operation packed unpack ≡ ok r
unfolding ttl_request
ttl_request-served {A = A} submit operation packed unpack bytes reply r sent answer there long
      read =
    let finish : NativeClientResult → Result AdminError A =
      λ result. and_then (judge_bytes 64 result) (λ bytes. checked (unpack bytes)) in
    ap (λ p. and_then (checked p) (λ b. and_then (requested (submit operation b)) finish)) sent
    ∙ ap (λ a. and_then (requested a) finish) answer
    ∙ ap (λ x. and_then x (λ b. checked (unpack b)))
        (judge_bytes-long 64 reply there (omega (arith, long)))
    ∙ ap checked read

pub set_of-response :
    (r : TtlSetResponse)
    → set_of (r.entity_id ∷ r.previous_ttl_seconds ∷ r.new_ttl_seconds ∷ code_of r.result ∷ [])
      ≡ ok r
unfolding set_of
set_of-response r =
    ap (λ x. and_then x (λ result. ok (record r { result = result }))) (ttl_result-code_of r.result)

pub extend_of-response :
    (r : TtlExtendResponse)
    → extend_of (r.entity_id ∷ r.previous_ttl_seconds ∷ r.new_ttl_seconds ∷ code_of r.result ∷ [])
      ≡ ok r
unfolding extend_of
extend_of-response r =
    ap (λ x. and_then x (λ result. ok (record r { result = result }))) (ttl_result-code_of r.result)

pub clear_of-response :
    (r : TtlClearResponse)
    → clear_of (r.entity_id ∷ r.previous_ttl_seconds ∷ code_of r.result ∷ []) ≡ ok r
unfolding clear_of
clear_of-response r =
    ap (λ x. and_then x (λ result. ok (record r { result = result }))) (ttl_result-code_of r.result)

pack_two-seconds_request :
    (entity_id seconds : ℕ)
    → entity_id < 256 ^ 16
    → seconds < 256 ^ 4
    → pack_two entity_id seconds 0 ≡ ok (seconds_request entity_id seconds)
unfolding pack_two
pack_two-seconds_request entity_id seconds small short =
    rw (lt→ltb entity_id (256 ^ 16) small, lt→ltb seconds (256 ^ 4) short) refl

pub clear_to_bytes-entity_request :
    (entity_id : ℕ)
    → entity_id < 256 ^ 16
    → clear_to_bytes (record { entity_id = entity_id; flags = 0 }) ≡ ok (entity_request entity_id)
unfolding clear_to_bytes
clear_to_bytes-entity_request entity_id small = rw (lt→ltb entity_id (256 ^ 16) small) refl

pub set_to_bytes-seconds_request :
    (entity_id seconds : ℕ)
    → entity_id < 256 ^ 16
    → seconds < 256 ^ 4
    → set_to_bytes (record { entity_id = entity_id; ttl_seconds = seconds; flags = 0 })
      ≡ ok (seconds_request entity_id seconds)
unfolding set_to_bytes
set_to_bytes-seconds_request entity_id seconds small short =
    pack_two-seconds_request entity_id seconds small short

pub extend_to_bytes-seconds_request :
    (entity_id seconds : ℕ)
    → entity_id < 256 ^ 16
    → seconds < 256 ^ 4
    → extend_to_bytes (record { entity_id = entity_id; extend_by_seconds = seconds; flags = 0 })
      ≡ ok (seconds_request entity_id seconds)
unfolding extend_to_bytes
extend_to_bytes-seconds_request entity_id seconds small short =
    pack_two-seconds_request entity_id seconds small short

-- The numbers of a reply fit their fields.
abbrev pub FitsTimes : ℕ → ℕ → ℕ → Type 0
FitsTimes entity_id previous new = (entity_id < 256 ^ 16) × (previous < 256 ^ 4) × (new < 256 ^ 4)

pub set_from_bytes-set_reply :
    (r : TtlSetResponse)
    → FitsTimes r.entity_id r.previous_ttl_seconds r.new_ttl_seconds
    → set_from_bytes (set_reply r) ≡ ok r
unfolding set_from_bytes
set_from_bytes-set_reply r fits =
    from_bytes-struct_bytes two_times
      (r.entity_id ∷ r.previous_ttl_seconds ∷ r.new_ttl_seconds ∷ code_of r.result ∷ []) 39 set_of
      (fits.0, (fits.1, (fits.2, (code_of-small r.result, tt)))) refl
    ∙ set_of-response r

pub length-set_reply : (r : TtlSetResponse) → length (set_reply r) ≡ 64
length-set_reply r =
    struct-long two_times
      (r.entity_id ∷ r.previous_ttl_seconds ∷ r.new_ttl_seconds ∷ code_of r.result ∷ []) 39 refl

pub extend_from_bytes-extend_reply :
    (r : TtlExtendResponse)
    → FitsTimes r.entity_id r.previous_ttl_seconds r.new_ttl_seconds
    → extend_from_bytes (extend_reply r) ≡ ok r
unfolding extend_from_bytes
extend_from_bytes-extend_reply r fits =
    from_bytes-struct_bytes two_times
      (r.entity_id ∷ r.previous_ttl_seconds ∷ r.new_ttl_seconds ∷ code_of r.result ∷ []) 39
      extend_of (fits.0, (fits.1, (fits.2, (code_of-small r.result, tt)))) refl
    ∙ extend_of-response r

pub length-extend_reply : (r : TtlExtendResponse) → length (extend_reply r) ≡ 64
length-extend_reply r =
    struct-long two_times
      (r.entity_id ∷ r.previous_ttl_seconds ∷ r.new_ttl_seconds ∷ code_of r.result ∷ []) 39 refl

pub clear_from_bytes-clear_reply :
    (r : TtlClearResponse)
    → FitsTimes r.entity_id r.previous_ttl_seconds 0
    → clear_from_bytes (clear_reply r) ≡ ok r
unfolding clear_from_bytes
clear_from_bytes-clear_reply r fits =
    from_bytes-struct_bytes one_time (r.entity_id ∷ r.previous_ttl_seconds ∷ code_of r.result ∷ [])
      43 clear_of (fits.0, (fits.1, (code_of-small r.result, tt))) refl
    ∙ clear_of-response r

pub length-clear_reply : (r : TtlClearResponse) → length (clear_reply r) ≡ 64
length-clear_reply r =
    struct-long one_time (r.entity_id ∷ r.previous_ttl_seconds ∷ code_of r.result ∷ []) 43 refl
