-- ===== src/Prelude/Words.antt =====
-- Unsigned 32-bit words and bytes of C: casts, shifts, complement, rotation, and the laws of the
-- bit operations that the arithmetic tactics do not know.
use Prim.Native.Nat.{
  ℕ, zero, suc, ◌+◌, ◌-◌, ◌*◌, ◌/◌, ◌%◌, ◌^◌, ◌≤◌, ◌<◌, min, max, bit_and, bit_or, digits, bitwise,
  bit_and-bitwise, bit_or-bitwise,
}
use mathlib.Core.Path.{◌≡◌, refl, ap, ◌∙◌}
use mathlib.Core.Logic.{inl, inr}
use shujugongxiang.Prelude.Tests.{leb, Bool-cases}
use native.Mathlib.Nat.{pow-suc}
use native.Mathlib.Omega.{arith}

abbrev pub u32 : ℕ → ℕ
u32 n = n % 2 ^ 32

abbrev pub u8 : ℕ → ℕ
u8 n = n % 2 ^ 8

-- `x << k` before its cast, `x >> k`, `~x`.
abbrev pub shl : ℕ → ℕ → ℕ
shl x k = x * 2 ^ k

abbrev pub shr : ℕ → ℕ → ℕ
shr x k = x / 2 ^ k

abbrev pub bit_not : ℕ → ℕ
bit_not x = 2 ^ 32 - 1 - u32 x

-- The native operations recur on binary digits with fuel; these drop the fuel.
module _ (z : ℕ → ℕ) (f : ℕ → ℕ → ℕ) where
  -- One more round than the number has digits changes nothing.
  digits_more : (b a n : ℕ) → a ≤ n → digits z f (suc n) a b ≡ digits z f n a b
  digits_more b zero zero h = refl
  digits_more b zero (suc n) h = refl
  digits_more b (suc a) zero h = absurd (omega arith)
  digits_more b (suc a) (suc n) h = rw (digits_more (b / 2) (suc a / 2) n (omega arith)) refl

  digits_exact : (b a n : ℕ) → a ≤ n → digits z f n a b ≡ digits z f a a b
  digits_exact b a zero h = rw (the_zero a h) refl
    where
      the_zero : (x : ℕ) → x ≤ 0 → x ≡ 0
      the_zero x small = omega arith
  digits_exact b a (suc n) h = elim (Bool-cases (leb a n)) [
    | inl below ↦ digits_more b a n (ground arith) ∙ digits_exact b a n (ground arith)
    | inr above ↦ let last : a ≡ suc n = ground arith in rw last refl
  ]

  bitwise-low_digit :
      (a b : ℕ)
      → bitwise z f (suc a) b ≡ bitwise z f (suc a / 2) (b / 2) * 2 + f (suc a % 2) (b % 2)
  bitwise-low_digit a b = omega (arith, digits_exact (b / 2) (suc a / 2) a (omega arith))

or-low_digit : (a b : ℕ) → bit_or a b ≡ bit_or (a / 2) (b / 2) * 2 + max (a % 2) (b % 2)
or-low_digit zero b = simp bit_or-bitwise (omega arith)
or-low_digit (suc a) b = simp bit_or-bitwise (bitwise-low_digit (λ y. y) max a b)

and-low_digit : (a b : ℕ) → bit_and a b ≡ bit_and (a / 2) (b / 2) * 2 + min (a % 2) (b % 2)
and-low_digit zero b = simp bit_and-bitwise (omega arith)
and-low_digit (suc a) b = simp bit_and-bitwise (bitwise-low_digit (λ y. 0) min a b)

zero-or : (b : ℕ) → bit_or 0 b ≡ b
zero-or b = simp bit_or-bitwise (omega arith)

and-zero_below : (n a : ℕ) → a ≤ n → bit_and a 0 ≡ 0
and-zero_below n zero h = refl
and-zero_below zero (suc a) h = absurd (omega arith)
and-zero_below (suc n) (suc a) h =
    omega (arith, and-low_digit (suc a) 0, and-zero_below n (suc a / 2) (omega arith))

double_power : (q k : ℕ) → q * 2 ^ suc k ≡ 2 * (q * 2 ^ k)
double_power q k = omega (arith, ap (λ (t : ℕ). q * t) (pow-suc 2 k))

-- A field that fits below bit `k` is joined with a field above it by addition.
pub or-shl : (k a q : ℕ) → a < 2 ^ k → bit_or a (shl q k) ≡ a + q * 2 ^ k
or-shl zero a q h = ground (arith, zero-or q)
or-shl (suc k) a q h = ground (
  arith,
  or-low_digit a (q * 2 ^ suc k),
  double_power q k,
  pow-suc 2 k,
  or-shl k (a / 2) q (omega (arith, pow-suc 2 k)),
)

one-le_power : (k : ℕ) → 1 ≤ 2 ^ k
one-le_power zero = omega arith
one-le_power (suc k) = omega (arith, pow-suc 2 k, one-le_power k)

and-mask_fields : (k q r : ℕ) → r < 2 ^ k → bit_and (r + q * 2 ^ k) (2 ^ k - 1) ≡ r
and-mask_fields zero q r h = ground (arith, and-zero_below (r + q * 1) (r + q * 1) (omega arith))
and-mask_fields (suc k) q r h = ground (
  arith,
  and-low_digit (r + q * 2 ^ suc k) (2 ^ suc k - 1),
  double_power q k,
  pow-suc 2 k,
  one-le_power k,
  and-mask_fields k q (r / 2) (omega (arith, pow-suc 2 k)),
)

-- A mask of `k` ones is the remainder by `2 ^ k`.
pub and-mask : (k a : ℕ) → bit_and a (2 ^ k - 1) ≡ a % 2 ^ k
and-mask k a = ground (
  arith,
  one-le_power k,
  and-mask_fields k (a / 2 ^ k) (a % 2 ^ k) (ground (arith, one-le_power k)),
)
