-- ===== src/Wire/Struct.antt =====
-- Structures of unsigned little-endian numbers without padding, as ctypes and `struct` lay them out
-- (src/clients/python/src/archerdb/_native.py and bindings.py, `_fields_`, `struct.pack`).
use archerdb.Base.{
  ℕ, zero, suc, ◌+◌, ◌^◌, ◌<◌, ◌≡◌, refl, ap, ◌∙◌, List, [], ◌∷◌, ◌++◌, length, length-append, take,
  drop, arith,
}
use mathlib.Core.List.{append_assoc}
use archerdb.Wire.{little, le_bytes}
use archerdb.Wire.Bytes.{length-le_bytes, little-le_bytes, take-append_length, drop-append_length}

-- the numbers of a structure, from the sizes of its fields
abbrev pub struct_values : List ℕ → List ℕ → List ℕ
struct_values [] bytes = []
struct_values (n ∷ sizes) bytes = little (take n bytes) ∷ struct_values sizes (drop n bytes)

-- the number of field `i`
abbrev pub field : ℕ → List ℕ → ℕ
field i [] = 0
field zero (v ∷ values) = v
field (suc i) (v ∷ values) = field i values

-- A number that does not fit its field is cut to its low bytes; a missing one is 0.
abbrev pub struct_bytes : List ℕ → List ℕ → List ℕ
struct_bytes [] values = []
struct_bytes (n ∷ sizes) [] = le_bytes n 0 ++ struct_bytes sizes []
struct_bytes (n ∷ sizes) (v ∷ values) = le_bytes n v ++ struct_bytes sizes values

-- One number for each field, and each fits.
abbrev pub Fits : List ℕ → List ℕ → Type 0
Fits [] [] = Unit
Fits [] (v ∷ values) = ⊥
Fits (n ∷ sizes) [] = ⊥
Fits (n ∷ sizes) (v ∷ values) = (v < 256 ^ n) × Fits sizes values

abbrev pub sum : List ℕ → ℕ
sum [] = 0
sum (n ∷ sizes) = n + sum sizes

pub length-struct_bytes : (sizes values : List ℕ) → length (struct_bytes sizes values) ≡ sum sizes
length-struct_bytes [] values = refl
length-struct_bytes (n ∷ sizes) [] = omega (
  arith,
  length-append (le_bytes n 0) (struct_bytes sizes []),
  length-le_bytes n 0,
  length-struct_bytes sizes [],
)
length-struct_bytes (n ∷ sizes) (v ∷ values) = omega (
  arith,
  length-append (le_bytes n v) (struct_bytes sizes values),
  length-le_bytes n v,
  length-struct_bytes sizes values,
)

pub struct_values-struct_bytes :
    (sizes values rest : List ℕ)
    → Fits sizes values
    → struct_values sizes (struct_bytes sizes values ++ rest) ≡ values
struct_values-struct_bytes [] [] rest fits = refl
struct_values-struct_bytes [] (v ∷ values) rest fits = absurd fits
struct_values-struct_bytes (n ∷ sizes) [] rest fits = absurd fits
struct_values-struct_bytes (n ∷ sizes) (v ∷ values) rest fits =
    let tail = struct_bytes sizes values ++ rest in
    ap (λ bytes. struct_values (n ∷ sizes) bytes)
      (append_assoc (le_bytes n v) (struct_bytes sizes values) rest)
    ∙ ap (λ bytes. little bytes ∷ struct_values sizes (drop n (le_bytes n v ++ tail)))
        (take-append_length n (le_bytes n v) tail (length-le_bytes n v))
    ∙ ap (λ bytes. little (le_bytes n v) ∷ struct_values sizes bytes)
        (drop-append_length n (le_bytes n v) tail (length-le_bytes n v))
    ∙ ap (λ w. w ∷ struct_values sizes tail) (little-le_bytes n v fits.0)
    ∙ ap (◌∷◌ v) (struct_values-struct_bytes sizes values rest fits.1)
