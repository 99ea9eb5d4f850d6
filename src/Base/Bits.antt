-- ===== src/Base/Bits.antt =====
-- Laws of the bit operations at variables, from the recursion on binary digits that they stand for.
use Prim.Native.Nat.{
  ℕ, zero, suc, ◌+◌, ◌-◌, ◌*◌, ◌/◌, ◌%◌, ◌^◌, ◌≤◌, ◌<◌, min, max, bit_and, bit_or, digits,
  bit_and-bitwise, bit_or-bitwise,
}
use mathlib.Core.Path.{◌≡◌, refl, ap, ◌∙◌}
use native.Mathlib.Nat.{pow-suc, add-mul-mod_self_right, mod-eq_of_lt, mod-lt, div-add-mod}
use native.Mathlib.Omega.{arith}

-- More fuel than the first number needs changes nothing.
digits-fuel :
    (z : ℕ → ℕ) (f : ℕ → ℕ → ℕ) (n m a b : ℕ) → a ≤ n → a ≤ m → digits z f n a b ≡ digits z f m a b
digits-fuel z f zero zero a b p q = refl
digits-fuel z f zero (suc m) zero b p q = refl
digits-fuel z f zero (suc m) (suc a) b p q = elim p [ ]
digits-fuel z f (suc n) zero zero b p q = refl
digits-fuel z f (suc n) zero (suc a) b p q = elim q [ ]
digits-fuel z f (suc n) (suc m) zero b p q = refl
digits-fuel z f (suc n) (suc m) (suc a) b p q = λ i.
    digits-fuel z f n m (suc a / 2) (b / 2) (omega arith) (omega arith) i * 2
    + f (suc a % 2) (b % 2)

-- One binary digit of `a & b`.
pub bit_and_digit : (a b : ℕ) → bit_and a b ≡ bit_and (a / 2) (b / 2) * 2 + min (a % 2) (b % 2)
bit_and_digit zero b = omega (arith, bit_and-bitwise 0 b, bit_and-bitwise 0 (b / 2))
bit_and_digit (suc a) b = omega (
  arith,
  bit_and-bitwise (suc a) b,
  bit_and-bitwise (suc a / 2) (b / 2),
  digits-fuel (λ _. zero) min a (suc a / 2) (suc a / 2) (b / 2) (omega arith) (omega arith),
)

-- One binary digit of `a | b`.
pub bit_or_digit : (a b : ℕ) → bit_or a b ≡ bit_or (a / 2) (b / 2) * 2 + max (a % 2) (b % 2)
bit_or_digit zero b = omega (arith, bit_or-bitwise 0 b, bit_or-bitwise 0 (b / 2))
bit_or_digit (suc a) b = omega (
  arith,
  bit_or-bitwise (suc a) b,
  bit_or-bitwise (suc a / 2) (b / 2),
  digits-fuel (λ b. b) max a (suc a / 2) (suc a / 2) (b / 2) (omega arith) (omega arith),
)

pub zero-bit_or : (b : ℕ) → bit_or 0 b ≡ b
zero-bit_or b = bit_or-bitwise 0 b

or_zero_fuel : (n a : ℕ) → a ≤ n → bit_or a 0 ≡ a
or_zero_fuel zero zero h = zero-bit_or 0
or_zero_fuel zero (suc a) h = elim h [ ]
or_zero_fuel (suc n) zero h = zero-bit_or 0
or_zero_fuel (suc n) (suc a) h =
    omega (arith, bit_or_digit (suc a) 0, or_zero_fuel n (suc a / 2) (omega arith))

pub bit_or-zero : (a : ℕ) → bit_or a 0 ≡ a
bit_or-zero a = or_zero_fuel a a (omega arith)

and_zero_fuel : (n a : ℕ) → a ≤ n → bit_and a 0 ≡ 0
and_zero_fuel zero zero h = bit_and-bitwise 0 0
and_zero_fuel zero (suc a) h = elim h [ ]
and_zero_fuel (suc n) zero h = bit_and-bitwise 0 0
and_zero_fuel (suc n) (suc a) h =
    omega (arith, bit_and_digit (suc a) 0, and_zero_fuel n (suc a / 2) (omega arith))

and_zero : (a : ℕ) → bit_and a 0 ≡ 0
and_zero a = and_zero_fuel a a (omega arith)

-- The low digit and the remainder of the half make up the remainder.
mod_double : (a m : ℕ) → 0 < m → a % (m * 2) ≡ (a / 2) % m * 2 + a % 2
mod_double a m h =
    let low : ℕ = (a / 2) % m * 2 + a % 2 in
    let split : a ≡ low + (a / 2 / m) * (m * 2) = omega (arith, div-add-mod (a / 2) m) in
    ap (λ t. t % (m * 2)) split
    ∙ add-mul-mod_self_right low (a / 2 / m) (m * 2)
    ∙ mod-eq_of_lt (omega (arith, mod-lt (a / 2) h))

-- `(a << k) | b` puts `b` into the free low bits.
pub bit_or-shift : (k a b : ℕ) → b < 2 ^ k → bit_or (a * 2 ^ k) b ≡ a * 2 ^ k + b
bit_or-shift zero a zero h = omega (arith, bit_or-zero (a * 2 ^ 0))
bit_or-shift zero a (suc b) h = absurd (omega arith)
bit_or-shift (suc k) a b h =
    let double : a * 2 ^ suc k ≡ 2 * (a * 2 ^ k) = omega (arith, ap (λ t. a * t) (pow-suc 2 k)) in
    let half : (a * 2 ^ suc k) / 2 ≡ a * 2 ^ k = omega arith in
    omega (
      arith,
      pow-suc 2 k,
      bit_or_digit (a * 2 ^ suc k) b,
      ap (λ t. bit_or t (b / 2)) half,
      bit_or-shift k a (b / 2) (omega (arith, pow-suc 2 k)),
    )

pub pow_pos : (k : ℕ) → 0 < 2 ^ k
pow_pos zero = omega arith
pow_pos (suc k) = omega (arith, pow-suc 2 k, pow_pos k)

-- `a & (2^k - 1)` keeps the low bits.
pub bit_and-mask : (k a m : ℕ) → m + 1 ≡ 2 ^ k → bit_and a m ≡ a % 2 ^ k
bit_and-mask zero a zero e = omega (arith, and_zero a)
bit_and-mask zero a (suc m) e = absurd (omega arith)
bit_and-mask (suc k) a m e = omega (
  arith,
  pow-suc 2 k,
  bit_and_digit a m,
  bit_and-mask k (a / 2) (m / 2) (omega (arith, pow-suc 2 k)),
  mod_double a (2 ^ k) (pow_pos k),
  ap (λ t. a % t) (pow-suc 2 k),
)

-- `a & -16` on 64 bits.
pub bit_and-align : (a : ℕ) → a < 2 ^ 64 → bit_and a (2 ^ 64 - 16) ≡ a - a % 16
bit_and-align a h =
    let q : ℕ = a / 2 / 2 / 2 / 2 in
    omega (
      arith,
      bit_and_digit a (2 ^ 64 - 16),
      bit_and_digit (a / 2) (2 ^ 63 - 8),
      bit_and_digit (a / 2 / 2) (2 ^ 62 - 4),
      bit_and_digit (a / 2 / 2 / 2) (2 ^ 61 - 2),
      bit_and-mask 60 q (2 ^ 60 - 1) refl,
    )
