-- ===== src/Wire/Reading.antt =====
-- What the client reads from the bytes of a shard, whole or cut short.
use archerdb.Base.{
  ℕ, zero, suc, ◌≤◌, ◌<◌, ◌≡◌, ◌≢◌, refl, sym, ap, ◌∙◌, List, [], ◌∷◌, ◌++◌, Result, ok, err,
  and_then, length, length-drop, slice, take, drop, arith, le→ltb, ==_ne,
}
use mathlib.Core.List.{append-nil}
use archerdb.Wire.{WireError, struct_error, le_bytes, unpack, byte_at}
use archerdb.Wire.Bytes.{length-le_bytes, unpack_field, byte_at_field, zeros}
use archerdb.Wire.Shard.{
  shard_status, address_at, read_replicas, counted_replicas, shard_fields, shard_from_bytes,
}
use archerdb.Topology.{ShardStatus, ShardInfo}
use archerdb.Wire.Layout.{
  shard_head, shard_bytes, IsWritable, address_bytes, replica_bytes, status_byte, address_at_field,
  read_replicas_field, length-address_bytes, length-replica_bytes, shard_status-status_byte,
  counted_all, read_then, field_behind,
}

-- the shard, when its last field is read from the bytes
abbrev with_size : ShardInfo → List ℕ → Result WireError ShardInfo
with_size s bytes =
    and_then (unpack 8 (slice bytes 464 472)) (λ size. ok (record s { size_bytes = size }))

abbrev settled : ShardInfo → ℕ → Result WireError ShardStatus → Result WireError ShardInfo
settled s size known = and_then known (λ status. ok (record s {
  replicas = counted_replicas (length s.replicas) s.replicas;
  status = status;
  size_bytes = size;
}))

last_field :
    (s : ShardInfo) (size : Result WireError ℕ)
    → and_then size (λ n. settled s n (shard_status (status_byte s.status)))
      ≡ and_then size (λ n. ok (record s { size_bytes = n }))
last_field s (ok n) =
    read_then (shard_status (status_byte s.status)) s.status _ (shard_status-status_byte s.status)
    ∙ ap (λ r. ok (record s { replicas = r; size_bytes = n })) (counted_all s.replicas)
last_field s (err e) = refl

-- the fields of a shard that stands in the bytes, read one after the other
fields_read :
    (bytes tail : List ℕ) (s : ShardInfo)
    → bytes ≡ shard_head s tail
    → IsWritable s
    → (drop 464 bytes ≡ tail) × (shard_fields bytes ≡ with_size s bytes)
unfolding shard_head shard_fields
fields_read bytes tail s at_0 w =
    let sizes = le_bytes 8 s.entity_count ++ tail in
    let from_454 = zeros 2 ++ sizes in
    let from_453 = status_byte s.status ∷ from_454 in
    let from_452 = length s.replicas ∷ from_453 in
    let from_68 = replica_bytes 6 s.replicas ++ from_452 in
    let from_4 = address_bytes s.primary ++ from_68 in
    let at_4 =
      field_behind 0 4 4 bytes (le_bytes 4 s.id) from_4 refl at_0 (length-le_bytes 4 s.id) in
    let at_68 =
      field_behind 4 64 68 bytes (address_bytes s.primary) from_68 refl at_4
        (length-address_bytes s.primary w.primary_fits.fits) in
    let at_452 =
      field_behind 68 384 452 bytes (replica_bytes 6 s.replicas) from_452 refl at_68
        (length-replica_bytes 6 s.replicas w.replicas_fit) in
    let at_453 = field_behind 452 1 453 bytes (length s.replicas ∷ []) from_453 refl at_452 refl in
    let at_454 =
      field_behind 453 1 454 bytes (status_byte s.status ∷ []) from_454 refl at_453 refl in
    let at_456 = field_behind 454 2 456 bytes (zeros 2) sizes refl at_454 refl in
    (
      field_behind 456 8 464 bytes (le_bytes 8 s.entity_count) tail refl at_456
          (length-le_bytes 8 s.entity_count),
      read_then (unpack 4 (slice bytes 0 4)) s.id _
            (unpack_field 0 4 s.id bytes from_4 at_0 w.id_fits)
          ∙ read_then (address_at bytes 4) s.primary _
              (address_at_field 4 bytes s.primary from_68 at_4 w.primary_fits)
          ∙ read_then (read_replicas 6 bytes 68) s.replicas _ (
              read_replicas_field 6 68 bytes s.replicas from_452 at_68 w.replicas_fit
                w.few_replicas)
          ∙ read_then (byte_at bytes 452) (length s.replicas) _
              (byte_at_field 452 (length s.replicas) bytes from_453 at_452)
          ∙ read_then (byte_at bytes 453) (status_byte s.status) _
              (byte_at_field 453 (status_byte s.status) bytes from_454 at_453)
          ∙ read_then (unpack 8 (slice bytes 456 464)) s.entity_count _
              (unpack_field 456 8 s.entity_count bytes tail at_456 w.entities_fit)
          ∙ last_field s (unpack 8 (slice bytes 464 472)),
    )

-- the test of the size, and the last field
tail_read :
    (tail : List ℕ) (s : ShardInfo)
    → IsWritable s
    → 6 ≤ length tail
    → (drop 464 (shard_head s tail) ≡ tail)
      × (shard_from_bytes (shard_head s tail) ≡ with_size s (shard_head s tail))
unfolding shard_from_bytes
tail_read tail s w enough =
    let read = fields_read (shard_head s tail) tail s refl w in
    (
      read.0,
      rw
          (le→ltb (length (shard_head s tail)) 470
            (omega (arith, length-drop 464 (shard_head s tail), ap length read.0, enough)))
          read.1,
    )

-- A shard that the layout can hold takes 472 bytes, and the client reads from them the shard itself.
pub shard_from_bytes-shard_bytes :
    (s : ShardInfo)
    → IsWritable s
    → (length (shard_bytes s) ≡ 472) × (shard_from_bytes (shard_bytes s) ≡ ok s)
unfolding shard_bytes
shard_from_bytes-shard_bytes s w =
    let tail = le_bytes 8 s.size_bytes in
    let size = length-le_bytes 8 s.size_bytes in
    let (behind, read) = tail_read tail s w (omega (arith, size)) in
    (
      omega (arith, length-drop 464 (shard_head s tail), ap length behind, size),
      read
          ∙ ap (λ r. and_then r (λ n. ok (record s { size_bytes = n })))
              (unpack_field 464 8 s.size_bytes (shard_head s tail) [] (behind ∙ sym (append-nil _))
                w.size_fits),
    )

take-length : (n : ℕ) (xs : List ℕ) → length xs ≤ n → take n xs ≡ xs
take-length zero [] h = refl
take-length (suc n) [] h = refl
take-length zero (x ∷ xs) h = absurd (omega arith)
take-length (suc n) (x ∷ xs) h = ap (◌∷◌ x) (take-length n xs (omega arith))

short_unpack : (n : ℕ) (bytes : List ℕ) → length bytes ≢ n → unpack n bytes ≡ err struct_error
unfolding unpack
short_unpack n bytes h = rw (==_ne (length bytes) n h) refl

-- When one or two bytes of a shard's last field are missing, the test of the size lets the bytes
-- pass, and the read of that field raises `struct.error` in place of the documented `ValueError`.
pub short_shard_struct_error :
    (s : ShardInfo) (tail : List ℕ)
    → IsWritable s
    → 6 ≤ length tail
    → length tail < 8
    → shard_from_bytes (shard_head s tail) ≡ err struct_error
short_shard_struct_error s tail w enough short =
    let (behind, read) = tail_read tail s w enough in
    read
    ∙ ap (λ r. and_then r (λ n. ok (record s { size_bytes = n })))
        (ap (λ raw. unpack 8 (take 8 raw)) behind
          ∙ ap (unpack 8) (take-length 8 tail (omega arith))
          ∙ short_unpack 8 tail (λ e. absurd (omega (arith, e))))
