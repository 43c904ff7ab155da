-- ===== src/Wire/Bytes.antt =====
-- What is read from bytes that were written.
use archerdb.Base.{
  ℕ, zero, suc, ◌+◌, ◌/◌, ◌^◌, ◌<◌, ◌≡◌, refl, ap, ◌∙◌, List, [], ◌∷◌, ◌++◌, some, ok, and_then,
  length, drop, drop-add, take, slice, arith, All, lt→ltb, ==_ne, ==_refl,
}
use native.Mathlib.Nat.{pow-suc}
use archerdb.Wire.{
  first_byte, lead_byte, resume, little, le_bytes, unpack, byte_at, until_zero, between,
  decode_from, decode,
}

pub length-le_bytes : (n v : ℕ) → length (le_bytes n v) ≡ n
length-le_bytes zero v = refl
length-le_bytes (suc n) v = ap suc (length-le_bytes n (v / 256))

pub little-le_bytes : (n v : ℕ) → v < 256 ^ n → little (le_bytes n v) ≡ v
little-le_bytes zero v h = omega arith
little-le_bytes (suc n) v h =
    omega (arith, little-le_bytes n (v / 256) (omega (arith, pow-suc 256 n)), pow-suc 256 n)

module _ {A : Type 0} where
  pub drop-append_length : (n : ℕ) (xs ys : List A) → length xs ≡ n → drop n (xs ++ ys) ≡ ys
  drop-append_length zero [] ys h = refl
  drop-append_length zero (x ∷ xs) ys h = absurd (omega (arith, h))
  drop-append_length (suc n) [] ys h = absurd (omega (arith, h))
  drop-append_length (suc n) (x ∷ xs) ys h = drop-append_length n xs ys (omega (arith, h))

  pub take-append_length : (n : ℕ) (xs ys : List A) → length xs ≡ n → take n (xs ++ ys) ≡ xs
  take-append_length zero [] ys h = refl
  take-append_length zero (x ∷ xs) ys h = absurd (omega (arith, h))
  take-append_length (suc n) [] ys h = absurd (omega (arith, h))
  take-append_length (suc n) (x ∷ xs) ys h =
      ap (◌∷◌ x) (take-append_length n xs ys (omega (arith, h)))

  -- what follows a field
  pub after_field :
      (o n : ℕ) (bytes xs rest : List A)
      → drop o bytes ≡ xs ++ rest
      → length xs ≡ n
      → drop (o + n) bytes ≡ rest
  after_field o n bytes xs rest at size =
      drop-add o n bytes ∙ ap (drop n) at ∙ drop-append_length n xs rest size

  pub slice_field :
      (o n : ℕ) (bytes xs rest : List A)
      → drop o bytes ≡ xs ++ rest
      → length xs ≡ n
      → slice bytes o (o + n) ≡ xs
  slice_field o n bytes xs rest at size =
      ap (λ k. take k (drop o bytes)) (omega arith)
      ∙ ap (take n) at
      ∙ take-append_length n xs rest size

pub unpack_field :
    (o n v : ℕ) (bytes rest : List ℕ)
    → drop o bytes ≡ le_bytes n v ++ rest
    → v < 256 ^ n
    → unpack n (slice bytes o (o + n)) ≡ ok v
unfolding unpack
unpack_field o n v bytes rest at fits =
    ap (unpack n) (slice_field o n bytes (le_bytes n v) rest at (length-le_bytes n v))
    ∙ rw (length-le_bytes n v, ==_refl n, little-le_bytes n v fits) refl

pub byte_at_field :
    (o b : ℕ) (bytes rest : List ℕ) → drop o bytes ≡ b ∷ rest → byte_at bytes o ≡ ok b
unfolding byte_at
byte_at_field o b bytes rest at = ap first_byte at

-- A text of ASCII characters other than NUL.
abbrev pub IsPlain : List ℕ → Type 0
IsPlain s = All (λ c. (0 < c) × (c < 128)) s

ascii : (c : ℕ) → c < 128 → lead_byte c ≡ some (between, c ∷ [])
ascii c h = rw (lt→ltb c 128 h) refl

pub decode-IsPlain : (s : List ℕ) → IsPlain s → decode s ≡ ok s
unfolding decode
decode-IsPlain [] h = refl
decode-IsPlain (c ∷ s) h =
    let rest : decode_from between s ≡ ok s = decode-IsPlain s h.1 in
    ap (λ f. resume f (λ next. decode_from next s)) (ascii c h.0.1)
    ∙ ap (λ r. and_then r (λ t. ok (c ∷ t))) rest

abbrev pub zeros : ℕ → List ℕ
zeros zero = []
zeros (suc n) = 0 ∷ zeros n

pub until_zero-zeros : (s : List ℕ) (n : ℕ) → IsPlain s → until_zero (s ++ zeros n) ≡ s
until_zero-zeros [] zero h = refl
until_zero-zeros [] (suc n) h = refl
until_zero-zeros (c ∷ s) n h =
    rw (==_ne c 0 (λ e. absurd (omega (arith, e, h.0.0)))) (ap (◌∷◌ c) (until_zero-zeros s n h.1))

pub length-zeros : (n : ℕ) → length (zeros n) ≡ n
length-zeros zero = refl
length-zeros (suc n) = ap suc (length-zeros n)
