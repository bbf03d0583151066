-- ===== src/Prelude/Mask.antt =====
-- Masks with 2^k - 1, by which the firmware wraps an index of a power-of-two array.
use Prim.Native.Nat.{
  ℕ, zero, suc, ◌+◌, ◌-◌, ◌*◌, ◌/◌, ◌%◌, ◌^◌, ◌≤◌, ◌<◌, min, digits, bit_and, bit_and-bitwise,
}
use mathlib.Core.Path.{◌≡◌, ◌∙◌, ap}
use native.Mathlib.Nat.{
  two-pow-succ, one-le-pow, mod-lt, mod-eq_of_lt, mod-add-div', add-mul-mod_self_right, mul-add,
}
use native.Mathlib.Omega.{arith}

mod_double : (m a : ℕ) → 0 < m → a % (m + m) ≡ (a / 2) % m * 2 + a % 2
mod_double m a h =
    ap (λ (t : ℕ). t % (m + m)) split
    ∙ (add-mul-mod_self_right (a / 2 % m * 2 + a % 2) (a / 2 / m) (m + m)
        ∙ mod-eq_of_lt (omega (arith, mod-lt (a / 2) h)))
  where
    split : a ≡ a / 2 % m * 2 + a % 2 + a / 2 / m * (m + m)
    split = omega (arith, mod-add-div' (a / 2) m, mul-add (a / 2 / m) m m)

mask_digits : (n k a : ℕ) → a ≤ n → digits (λ b. 0) min n a (2 ^ k - 1) ≡ a % 2 ^ k
mask_digits zero k zero h = ground (arith, one-le-pow k 2)
mask_digits zero k (suc a) h = absurd (omega arith)
mask_digits (suc n) k zero h = ground (arith, one-le-pow k 2)
mask_digits (suc n) zero (suc a) h = omega (arith, mask_digits n zero (suc a / 2) (omega arith))
mask_digits (suc n) (suc k) (suc a) h =
    rw (two-pow-succ k, halved, odd, mask_digits n k (suc a / 2) (omega arith))
      (omega (arith, mod_double (2 ^ k) (suc a) (one-le-pow k 2 (omega arith))))
  where
    halved : (2 ^ k + 2 ^ k - 1) / 2 ≡ 2 ^ k - 1
    halved = omega (arith, one-le-pow k 2 (omega arith))

    odd : (2 ^ k + 2 ^ k - 1) % 2 ≡ 1
    odd = omega (arith, one-le-pow k 2 (omega arith))

-- Masking with `2 ^ k - 1` is the remainder by `2 ^ k`.
pub bit_and_mask : (k a : ℕ) → bit_and a (2 ^ k - 1) ≡ a % 2 ^ k
bit_and_mask k a = bit_and-bitwise a (2 ^ k - 1) ∙ mask_digits a k a (omega arith)
