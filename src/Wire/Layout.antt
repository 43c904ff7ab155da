-- ===== src/Wire/Layout.antt =====
-- The layout of a shard's description, and what the client reads from it.
use archerdb.Base.{
  ℕ, zero, suc, ◌+◌, ◌-◌, ◌*◌, ◌^◌, ◌≤◌, ◌<◌, ◌≡◌, refl, sym, ap, ◌∙◌, List, [], ◌∷◌, ◌++◌, Result,
  ok, and_then, length, length-append, drop, arith, All, le→ltb,
}
use mathlib.Core.List.{append_assoc}
use archerdb.Wire.{le_bytes, until_zero, decode}
use archerdb.Wire.Bytes.{
  after_field, slice_field, IsPlain, decode-IsPlain, zeros, until_zero-zeros, length-zeros,
}
use archerdb.Wire.Shard.{shard_status, address_at, with_replica, read_replicas, counted_replicas}
use archerdb.Topology.{
  ShardStatus, active, syncing, unavailable, migrating, decommissioning, ShardInfo,
}

-- An address of up to 64 bytes, with zeros behind it.
abbrev pub address_bytes : List ℕ → List ℕ
address_bytes address = address ++ zeros (64 - length address)

abbrev pub replica_bytes : ℕ → List (List ℕ) → List ℕ
replica_bytes zero replicas = []
replica_bytes (suc n) [] = address_bytes [] ++ replica_bytes n []
replica_bytes (suc n) (r ∷ replicas) = address_bytes r ++ replica_bytes n replicas

abbrev pub status_byte : ShardStatus → ℕ
status_byte active = 0
status_byte syncing = 1
status_byte unavailable = 2
status_byte migrating = 3
status_byte decommissioning = 4

-- The first 464 bytes of a shard, before what comes last: its id, its primary, six places for
-- replicas, their number, the status, two bytes of padding, and the number of entities.
unfoldable pub shard_head : ShardInfo → List ℕ → List ℕ
shard_head s tail =
    le_bytes 4 s.id
    ++ (address_bytes s.primary
        ++ (replica_bytes 6 s.replicas
            ++ (length s.replicas
                ∷ status_byte s.status
                ∷ (zeros 2 ++ (le_bytes 8 s.entity_count ++ tail)))))

-- The 472 bytes of a shard; its size in bytes comes last.
unfoldable pub shard_bytes : ShardInfo → List ℕ
shard_bytes s = shard_head s (le_bytes 8 s.size_bytes)

-- An address that fits its place.
pub record IsAddress (s : List ℕ) : Type 0 where
  pub plain : IsPlain s
  pub fits : length s ≤ 64

-- A replica's address is not empty.
abbrev pub IsReplica : List ℕ → Type 0
IsReplica r = IsAddress r × (1 ≤ length r)

-- A shard that the layout can hold.
pub record IsWritable (s : ShardInfo) : Type 0 where
  pub id_fits : s.id < 256 ^ 4
  pub primary_fits : IsAddress s.primary
  pub replicas_fit : All IsReplica s.replicas
  pub few_replicas : length s.replicas ≤ 6
  pub entities_fit : s.entity_count < 256 ^ 8
  pub size_fits : s.size_bytes < 256 ^ 8

-- one step of a chain of reads
pub read_then :
    {E : Type 0} {A : Type 0} {B : Type 0} (r : Result E A) (a : A) (next : A → Result E B)
    → r ≡ ok a
    → and_then r next ≡ next a
read_then r a next h = ap (λ x. and_then x next) h

with_replica-filled :
    (r : List ℕ) (replicas : List (List ℕ)) → 1 ≤ length r → with_replica r replicas ≡ r ∷ replicas
with_replica-filled [] replicas h = absurd (omega arith)
with_replica-filled (c ∷ cs) replicas h = refl

empty-IsAddress : IsAddress []
empty-IsAddress = record { plain = tt; fits = omega arith }

pub length-address_bytes : (a : List ℕ) → length a ≤ 64 → length (address_bytes a) ≡ 64
length-address_bytes a fits =
    omega (arith, length-append a (zeros (64 - length a)), length-zeros (64 - length a))

pub address_at_field :
    (o : ℕ) (bytes a rest : List ℕ)
    → drop o bytes ≡ address_bytes a ++ rest
    → IsAddress a
    → address_at bytes o ≡ ok a
unfolding address_at
address_at_field o bytes a rest at h =
    ap (λ raw. decode (until_zero raw))
      (slice_field o 64 bytes (address_bytes a) rest at (length-address_bytes a h.fits))
    ∙ ap decode (until_zero-zeros a (64 - length a) h.plain)
    ∙ decode-IsPlain a h.plain

pub read_replicas_field :
    (n o : ℕ) (bytes : List ℕ) (replicas : List (List ℕ)) (rest : List ℕ)
    → drop o bytes ≡ replica_bytes n replicas ++ rest
    → All IsReplica replicas
    → length replicas ≤ n
    → read_replicas n bytes o ≡ ok replicas
unfolding read_replicas
read_replicas_field zero o bytes [] rest at good few = refl
read_replicas_field zero o bytes (r ∷ replicas) rest at good few = absurd (omega arith)
read_replicas_field (suc n) o bytes [] rest at good few =
    let here = at ∙ append_assoc (address_bytes []) (replica_bytes n []) rest in
    let behind =
      after_field o 64 bytes (address_bytes []) (replica_bytes n [] ++ rest) here
        (length-address_bytes [] empty-IsAddress.fits) in
    read_then (address_at bytes o) [] _
      (address_at_field o bytes [] (replica_bytes n [] ++ rest) here empty-IsAddress)
    ∙ read_then (read_replicas n bytes (o + 64)) [] _
        (read_replicas_field n (o + 64) bytes [] rest behind tt (omega arith))
read_replicas_field (suc n) o bytes (r ∷ replicas) rest at good few =
    let here = at ∙ append_assoc (address_bytes r) (replica_bytes n replicas) rest in
    let behind =
      after_field o 64 bytes (address_bytes r) (replica_bytes n replicas ++ rest) here
        (length-address_bytes r good.0.0.fits) in
    read_then (address_at bytes o) r _
      (address_at_field o bytes r (replica_bytes n replicas ++ rest) here good.0.0)
    ∙ read_then (read_replicas n bytes (o + 64)) replicas _
        (read_replicas_field n (o + 64) bytes replicas rest behind good.1 (omega arith))
    ∙ ap ok (with_replica-filled r replicas good.0.1)

pub length-replica_bytes :
    (n : ℕ) (replicas : List (List ℕ))
    → All IsReplica replicas
    → length (replica_bytes n replicas) ≡ n * 64
length-replica_bytes zero replicas good = omega arith
length-replica_bytes (suc n) [] good = omega (
  arith,
  length-append (address_bytes []) (replica_bytes n []),
  length-address_bytes [] empty-IsAddress.fits,
  length-replica_bytes n [] tt,
)
length-replica_bytes (suc n) (r ∷ replicas) good = omega (
  arith,
  length-append (address_bytes r) (replica_bytes n replicas),
  length-address_bytes r good.0.0.fits,
  length-replica_bytes n replicas good.1,
)

pub shard_status-status_byte : (s : ShardStatus) → shard_status (status_byte s) ≡ ok s
shard_status-status_byte active = refl
shard_status-status_byte syncing = refl
shard_status-status_byte unavailable = refl
shard_status-status_byte migrating = refl
shard_status-status_byte decommissioning = refl

pub counted_all :
    (replicas : List (List ℕ)) → counted_replicas (length replicas) replicas ≡ replicas
counted_all replicas = rw (le→ltb (length replicas) (length replicas) (omega arith)) refl

-- `after_field`, where the offset behind the field is a number of its own
pub field_behind :
    (o n p : ℕ) (bytes xs rest : List ℕ)
    → o + n ≡ p
    → drop o bytes ≡ xs ++ rest
    → length xs ≡ n
    → drop p bytes ≡ rest
field_behind o n p bytes xs rest e at size =
    ap (λ k. drop k bytes) (sym e) ∙ after_field o n bytes xs rest at size
