-- ===== src/Prelude/Bits.antt =====
-- A mask of low ones, `x & (2^k - 1)`, as a remainder.
use Prim.Native.Nat.{
  ℕ, zero, suc, ◌+◌, ◌-◌, ◌*◌, ◌/◌, ◌%◌, ◌^◌, ◌≤◌, ◌<◌, min, bit_and, digits, bit_and-bitwise,
}
use mathlib.Core.Path.{◌≡◌, ap, ◌∙◌, sym}
use native.Mathlib.Nat.{pow-suc, div-add-mod, mod-lt, mod-eq_of_lt, mul-add-mod_self_left}
use native.Mathlib.Omega.{arith}

pub pow_pos : (k : ℕ) → 0 < 2 ^ k
pow_pos zero = omega arith
pow_pos (suc k) = omega (arith, pow-suc 2 k, pow_pos k)

-- The remainder by a doubled modulus: the low digit and the rest.
mod_double : (a m : ℕ) → 0 < m → a % (m * 2) ≡ a / 2 % m * 2 + a % 2
mod_double a m h =
    ap (λ t. t % (m * 2)) split
    ∙ mul-add-mod_self_left (m * 2) (a / 2 / m) (a / 2 % m * 2 + a % 2)
    ∙ mod-eq_of_lt {n = a / 2 % m * 2 + a % 2} {m = m * 2} (omega (arith, mod-lt (a / 2) h))
  where
    split : a ≡ m * 2 * (a / 2 / m) + (a / 2 % m * 2 + a % 2)
    split = omega (arith, div-add-mod (a / 2) m)

-- The mask of k + 1 ones without its lowest one.
mask_half : (k : ℕ) → (2 ^ suc k - 1) / 2 ≡ 2 ^ k - 1
mask_half k = omega (arith, pow-suc 2 k, pow_pos k)

-- The digits kept by a mask, with fuel for at least the digits of the number.
masked_digits : (n k a : ℕ) → a ≤ n → digits (λ _. zero) min n a (2 ^ k - 1) ≡ a % 2 ^ k
masked_digits zero k zero h = sym (mod-eq_of_lt (pow_pos k))
masked_digits zero k (suc a) h = absurd (omega arith)
masked_digits (suc n) k zero h = sym (mod-eq_of_lt (pow_pos k))
masked_digits (suc n) zero (suc a) h = omega (arith, masked_digits n zero (suc a / 2) (omega arith))
masked_digits (suc n) (suc k) (suc a) h =
    ap (λ t. digits (λ _. zero) min n (suc a / 2) t * 2 + min (suc a % 2) ((2 ^ suc k - 1) % 2))
      (mask_half k)
    ∙ rw (pow-suc 2 k) (
        omega (
          arith,
          masked_digits n k (suc a / 2) (omega arith),
          mod_double (suc a) (2 ^ k) (pow_pos k),
          pow_pos k,
        ))

-- The capacity mask of the sources keeps the low bits.
pub bit_and-mask : (k a : ℕ) → bit_and a (2 ^ k - 1) ≡ a % 2 ^ k
bit_and-mask k a = bit_and-bitwise a (2 ^ k - 1) ∙ masked_digits a k a (omega arith)
