-- ===== src/Prelude/Xor.antt =====
-- `bit_xor` as arithmetic, against no bits and against all bits of a word.
use Prim.Native.Nat.{
  ℕ, zero, suc, ◌+◌, ◌-◌, ◌*◌, ◌/◌, ◌%◌, ◌^◌, ◌<◌, bit_xor, differ, bit_xor-bitwise,
}
use mathlib.Core.Path.{◌≡◌, refl}
use native.Mathlib.Omega.{arith}
use clarion.Prelude.Bits.{bitwise_step, mask_odd, two_pow}

zero-differ : (b : ℕ) → b < 2 → differ 0 b ≡ b
zero-differ zero h = refl
zero-differ (suc zero) h = refl
zero-differ (suc (suc b)) h = absurd (omega arith)

pub bit_xor_step : (a b : ℕ) → bit_xor a b ≡ bit_xor (a / 2) (b / 2) * 2 + differ (a % 2) (b % 2)
bit_xor_step a b = omega (
  arith,
  bitwise_step (λ c. c) differ (λ c. omega (arith, zero-differ (c % 2) (omega arith))) a b,
  bit_xor-bitwise a b,
  bit_xor-bitwise (a / 2) (b / 2),
)

differ-zero : (a : ℕ) → a < 2 → differ a 0 ≡ a
differ-zero zero h = refl
differ-zero (suc zero) h = refl
differ-zero (suc (suc a)) h = absurd (omega arith)

differ-one : (a : ℕ) → a < 2 → differ a 1 ≡ 1 - a
differ-one zero h = refl
differ-one (suc zero) h = refl
differ-one (suc (suc a)) h = absurd (omega arith)

pub bit_xor-zero : (k a : ℕ) → a < 2 ^ k → bit_xor a 0 ≡ a
bit_xor-zero zero zero h = refl
bit_xor-zero zero (suc a) h = absurd (omega arith)
bit_xor-zero (suc k) a h = omega (
  arith,
  bit_xor_step a 0,
  differ-zero (a % 2) (omega arith),
  bit_xor-zero k (a / 2) (omega (arith, two_pow k)),
)

bit_xor_odd : (a x : ℕ) → bit_xor a (2 * x + 1) ≡ bit_xor (a / 2) x * 2 + (1 - a % 2)
bit_xor_odd a x =
    let half : (2 * x + 1) / 2 ≡ x = omega arith in
    let low : (2 * x + 1) % 2 ≡ 1 = omega arith in
    rw (bit_xor_step a (2 * x + 1), half, low) (omega (arith, differ-one (a % 2) (omega arith)))

-- Against all ones, `xor` is the complement within the word.
pub bit_xor_ones : (k a : ℕ) → a < 2 ^ k → bit_xor a (2 ^ k - 1) ≡ 2 ^ k - 1 - a
bit_xor_ones zero zero h = refl
bit_xor_ones zero (suc a) h = absurd (omega arith)
bit_xor_ones (suc k) a h = rw (mask_odd k) (
    omega (
      arith,
      two_pow k,
      bit_xor_odd a (2 ^ k - 1),
      bit_xor_ones k (a / 2) (omega (arith, two_pow k)),
    ))

bit_xor_double : (a x : ℕ) → bit_xor a (2 * x) ≡ bit_xor (a / 2) x * 2 + a % 2
bit_xor_double a x =
    let half : 2 * x / 2 ≡ x = omega arith in
    let low : 2 * x % 2 ≡ 0 = omega arith in
    rw (bit_xor_step a (2 * x), half, low) (omega (arith, differ-zero (a % 2) (omega arith)))

-- A bit above a number is set by `xor`.
pub bit_xor_above : (k a : ℕ) → a < 2 ^ k → bit_xor a (2 ^ k) ≡ a + 2 ^ k
bit_xor_above zero zero h = refl
bit_xor_above zero (suc a) h = absurd (omega arith)
bit_xor_above (suc k) a h =
    rw (two_pow k)
      (omega (arith, bit_xor_double a (2 ^ k), bit_xor_above k (a / 2) (omega (arith, two_pow k))))
