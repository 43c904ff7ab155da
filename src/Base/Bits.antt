-- ===== src/Base/Bits.antt =====
-- Facts about `|`, `&` and `^` on numbers of any width, from their meaning on binary digits.
use Prim.Native.Nat.{bitwise, digits, differ, bit_and-bitwise, bit_or-bitwise, bit_xor-bitwise}
use Prim.Native.Nat.{ℕ, zero, suc, ◌+◌, ◌-◌, ◌*◌, ◌/◌, ◌%◌, ◌^◌, ◌≤◌, ◌<◌, min, max}
use Prim.Native.Nat.{bit_and, bit_or, bit_xor}
use mathlib.Core.Path.{◌≡◌, refl, ap}
use native.Mathlib.Nat.{le_refl, pow-suc, one-le-pow}
use native.Mathlib.Omega.{arith}

-- `digits` needs no more fuel than its first number.
module _ (rest : ℕ → ℕ) (digit : ℕ → ℕ → ℕ) where
  enough_fuel : (f g a b : ℕ) → a ≤ f → a ≤ g → digits rest digit f a b ≡ digits rest digit g a b
  enough_fuel zero zero a b af ag = refl
  enough_fuel (suc f) zero zero b af ag = refl
  enough_fuel (suc f) zero (suc a) b af ag = absurd (omega arith)
  enough_fuel zero (suc g) zero b af ag = refl
  enough_fuel zero (suc g) (suc a) b af ag = absurd (omega arith)
  enough_fuel (suc f) (suc g) zero b af ag = refl
  enough_fuel (suc f) (suc g) (suc a) b af ag =
      ap (λ t. t * 2 + digit (suc a % 2) (b % 2))
        (enough_fuel f g (suc a / 2) (b / 2) (omega arith) (omega arith))

  lowest_digit :
      (a b : ℕ)
      → bitwise rest digit (suc a) b
        ≡ bitwise rest digit (suc a / 2) (b / 2) * 2 + digit (suc a % 2) (b % 2)
  lowest_digit a b =
      ap (λ t. t * 2 + digit (suc a % 2) (b % 2))
        (enough_fuel a (suc a / 2) (suc a / 2) (b / 2) (omega arith) (le_refl _))

or_step : (a b : ℕ) → bit_or a b ≡ bit_or (a / 2) (b / 2) * 2 + max (a % 2) (b % 2)
or_step zero b = simp bit_or-bitwise (omega arith)
or_step (suc a) b = simp bit_or-bitwise (lowest_digit (λ b. b) max a b)

and_step : (a b : ℕ) → bit_and a b ≡ bit_and (a / 2) (b / 2) * 2 + min (a % 2) (b % 2)
and_step zero b = simp bit_and-bitwise (omega arith)
and_step (suc a) b = simp bit_and-bitwise (lowest_digit (λ b. zero) min a b)

xor_step : (a b : ℕ) → bit_xor a b ≡ bit_xor (a / 2) (b / 2) * 2 + differ (a % 2) (b % 2)
xor_step zero b = simp bit_xor-bitwise (omega arith)
xor_step (suc a) b = simp bit_xor-bitwise (lowest_digit (λ b. b) differ a b)

or-zero_below : (n a : ℕ) → a ≤ n → bit_or a 0 ≡ a
or-zero_below n zero h = refl
or-zero_below zero (suc a) h = absurd (omega arith)
or-zero_below (suc n) (suc a) h =
    omega (arith, or_step (suc a) 0, or-zero_below n (suc a / 2) (omega arith))

pub bit_or-zero : (a : ℕ) → bit_or a 0 ≡ a
bit_or-zero a = or-zero_below a a (le_refl a)

and-zero_below : (n a : ℕ) → a ≤ n → bit_and a 0 ≡ 0
and-zero_below n zero h = refl
and-zero_below zero (suc a) h = absurd (omega arith)
and-zero_below (suc n) (suc a) h =
    omega (arith, and_step (suc a) 0, and-zero_below n (suc a / 2) (omega arith))

pub bit_or-one : (a : ℕ) → bit_or a 1 ≡ a / 2 * 2 + 1
bit_or-one a = omega (arith, or_step a 1, bit_or-zero (a / 2))

double_shift : (q k : ℕ) → q * 2 ^ suc k ≡ 2 * (q * 2 ^ k)
double_shift q k = omega (arith, ap (λ (t : ℕ). q * t) (pow-suc 2 k))

-- `(q << k) | ((s << k) + r)`, where `r` fits the `k` low bits
pub bit_or_shifted :
    (k q s r : ℕ) → r < 2 ^ k → bit_or (q * 2 ^ k) (s * 2 ^ k + r) ≡ bit_or q s * 2 ^ k + r
bit_or_shifted zero q s r fits = ground arith
bit_or_shifted (suc k) q s r fits = ground (
  arith,
  or_step (q * 2 ^ suc k) (s * 2 ^ suc k + r),
  double_shift q k,
  double_shift s k,
  double_shift (bit_or q s) k,
  pow-suc 2 k,
  bit_or_shifted k q s (r / 2) (omega (arith, pow-suc 2 k)),
)

mask_below : (k q r : ℕ) → r < 2 ^ k → bit_and (q * 2 ^ k + r) (2 ^ k - 1) ≡ r
mask_below zero q r fits = omega (arith, and-zero_below (q * 1 + r) (q * 1 + r) (le_refl _))
mask_below (suc k) q r fits = ground (
  arith,
  and_step (q * 2 ^ suc k + r) (2 ^ suc k - 1),
  double_shift q k,
  pow-suc 2 k,
  one-le-pow k 2,
  mask_below k q (r / 2) (omega (arith, pow-suc 2 k)),
)

-- A mask of `k` ones takes the remainder by `2 ^ k`.
pub bit_and_mask : (k a : ℕ) → bit_and a (2 ^ k - 1) ≡ a % 2 ^ k
bit_and_mask k a = ground (arith, one-le-pow k 2, mask_below k (a / 2 ^ k) (a % 2 ^ k))

digit-lt_two : (x y : ℕ) → x < 2 → y < 2 → differ x y < 2
digit-lt_two zero y p q = q
digit-lt_two (suc x) zero p q = p
digit-lt_two (suc x) (suc y) p q = digit-lt_two x y (omega arith) (omega arith)

pub bit_xor-lt : (k a b : ℕ) → a < 2 ^ k → b < 2 ^ k → bit_xor a b < 2 ^ k
bit_xor-lt zero zero zero p q = omega arith
bit_xor-lt zero zero (suc b) p q = absurd (omega arith)
bit_xor-lt zero (suc a) b p q = absurd (omega arith)
bit_xor-lt (suc k) a b p q = omega (
  arith,
  xor_step a b,
  digit-lt_two (a % 2) (b % 2) (omega arith) (omega arith),
  pow-suc 2 k,
  bit_xor-lt k (a / 2) (b / 2) (omega (arith, pow-suc 2 k)) (omega (arith, pow-suc 2 k)),
)
