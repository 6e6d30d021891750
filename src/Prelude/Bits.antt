-- ===== src/Prelude/Bits.antt =====
-- The bit operations as arithmetic: masks, disjoint fields, and tables over one byte.
use Prim.Native.Nat.{
  ℕ, zero, suc, ◌+◌, ◌-◌, ◌*◌, ◌/◌, ◌%◌, ◌^◌, ◌≤◌, ◌<◌, min, max, bit_and, bit_or, digits, bitwise,
  bit_and-bitwise, bit_or-bitwise,
}
use mathlib.Core.Path.{◌≡◌, refl, ap, sym, ◌∙◌}
use mathlib.Core.Bool.{Bool, true, ◌&&◌}
use native.Mathlib.Omega.{arith}
use native.Mathlib.Nat.{min-zero, pow-suc, div-add-mod, mod-lt, mod-one}

-- A test of every number below `n`.
unfoldable pub all_below : ℕ → (ℕ → Bool) → Bool
all_below zero p = true
all_below (suc n) p = p n && all_below n p

pub all_below_sound : (n : ℕ) (p : ℕ → Bool) (x : ℕ) → all_below n p ≡ true → x < n → p x ≡ true
unfolding all_below
all_below_sound zero p x tested h = absurd (omega arith)
all_below_sound (suc n) p x tested h = ground (arith, all_below_sound n p x)

-- The three operations by their lowest digits. `z` is what is left of the second number when the first
-- has run out, and `f` acts on two digits.
module _ (z : ℕ → ℕ) (f : ℕ → ℕ → ℕ) where
  no_digits_left : (n b : ℕ) → digits z f n 0 b ≡ z b
  no_digits_left zero b = refl
  no_digits_left (suc n) b = refl

  rounds_agree : (n m a b : ℕ) → a ≤ n → a ≤ m → digits z f n a b ≡ digits z f m a b
  rounds_agree n m zero b p q = no_digits_left n b ∙ sym (no_digits_left m b)
  rounds_agree zero m (suc a) b p q = absurd (omega arith)
  rounds_agree (suc n) zero (suc a) b p q = absurd (omega arith)
  rounds_agree (suc n) (suc m) (suc a) b p q =
      ap (λ high. high * 2 + f (suc a % 2) (b % 2))
        (rounds_agree n m (suc a / 2) (b / 2) (omega arith) (omega arith))

  pub bitwise_step :
      ((b : ℕ) → z b ≡ z (b / 2) * 2 + f 0 (b % 2))
      → (a b : ℕ) → bitwise z f a b ≡ bitwise z f (a / 2) (b / 2) * 2 + f (a % 2) (b % 2)
  bitwise_step hz zero b = hz b
  bitwise_step hz (suc a) b =
      ap (λ high. high * 2 + f (suc a % 2) (b % 2))
        (rounds_agree a (suc a / 2) (suc a / 2) (b / 2) (omega arith) (omega arith))

pub bit_and_step : (a b : ℕ) → bit_and a b ≡ bit_and (a / 2) (b / 2) * 2 + min (a % 2) (b % 2)
bit_and_step a b = omega (
  arith,
  bitwise_step (λ _. 0) min (λ _. omega arith) a b,
  bit_and-bitwise a b,
  bit_and-bitwise (a / 2) (b / 2),
)

pub bit_or_step : (a b : ℕ) → bit_or a b ≡ bit_or (a / 2) (b / 2) * 2 + max (a % 2) (b % 2)
bit_or_step a b = omega (
  arith,
  bitwise_step (λ c. c) max (λ _. omega arith) a b,
  bit_or-bitwise a b,
  bit_or-bitwise (a / 2) (b / 2),
)

pub zero-bit_or : (b : ℕ) → bit_or 0 b ≡ b
zero-bit_or b = bit_or-bitwise 0 b

-- Nothing is common with no bits; `n` bounds the first number.
and_nothing : (n a : ℕ) → a ≤ n → bit_and a 0 ≡ 0
and_nothing n zero h = refl
and_nothing zero (suc a) h = absurd (omega arith)
and_nothing (suc n) (suc a) h =
    bit_and_step (suc a) 0 ∙ omega (arith, and_nothing n (suc a / 2) (omega arith))

pub bit_and-zero : (a : ℕ) → bit_and a 0 ≡ 0
bit_and-zero a = and_nothing a a (omega arith)

pub two_pow : (k : ℕ) → 2 ^ suc k ≡ 2 * 2 ^ k
two_pow k = omega (arith, pow-suc 2 k)

mul_two_pow : (b k : ℕ) → b * 2 ^ suc k ≡ 2 * (b * 2 ^ k)
mul_two_pow b k = omega (arith, ap (λ (t : ℕ). b * t) (two_pow k))

bit_or_even : (a x : ℕ) → bit_or a (2 * x) ≡ bit_or (a / 2) x * 2 + a % 2
bit_or_even a x =
    let half : 2 * x / 2 ≡ x = omega arith in rw (bit_or_step a (2 * x), half) (omega arith)

pub bit_and_odd : (a x : ℕ) → bit_and a (2 * x + 1) ≡ bit_and (a / 2) x * 2 + a % 2
bit_and_odd a x =
    let half : (2 * x + 1) / 2 ≡ x = omega arith in
    rw (bit_and_step a (2 * x + 1), half) (omega arith)

or_nothing : (n a : ℕ) → a ≤ n → bit_or a 0 ≡ a
or_nothing n zero h = refl
or_nothing zero (suc a) h = absurd (omega arith)
or_nothing (suc n) (suc a) h =
    bit_or_step (suc a) 0 ∙ omega (arith, or_nothing n (suc a / 2) (omega arith))

pub bit_or-zero : (a : ℕ) → bit_or a 0 ≡ a
bit_or-zero a = or_nothing a a (omega arith)

even-bit_or : (x a : ℕ) → bit_or (2 * x) a ≡ bit_or x (a / 2) * 2 + a % 2
even-bit_or x a =
    let half : 2 * x / 2 ≡ x = omega arith in
    let low : 2 * x % 2 ≡ 0 = omega arith in rw (bit_or_step (2 * x) a, half, low) (omega arith)

-- Fields that do not overlap are joined by addition.
pub bit_or_disjoint : (k a b : ℕ) → a < 2 ^ k → bit_or a (b * 2 ^ k) ≡ a + b * 2 ^ k
bit_or_disjoint zero zero b h = omega (arith, zero-bit_or (b * 1))
bit_or_disjoint zero (suc a) b h = absurd (omega arith)
bit_or_disjoint (suc k) a b h = rw (mul_two_pow b k) (
    omega
      (arith, bit_or_even a (b * 2 ^ k), bit_or_disjoint k (a / 2) b (omega (arith, two_pow k))))

pub mod_double : (p a : ℕ) → 0 < p → a % (2 * p) ≡ a / 2 % p * 2 + a % 2
mod_double p a h = grind (arith, div-add-mod (a / 2) p, mod-lt)

pub two_pow_pos : (k : ℕ) → 0 < 2 ^ k
two_pow_pos zero = omega arith
two_pow_pos (suc k) = omega (arith, two_pow k, two_pow_pos k)

pub mask_odd : (k : ℕ) → 2 ^ suc k - 1 ≡ 2 * (2 ^ k - 1) + 1
mask_odd k = omega (arith, two_pow k, two_pow_pos k)

-- A mask of `k` ones is the remainder by `2 ^ k`.
pub bit_and_mask : (k a : ℕ) → bit_and a (2 ^ k - 1) ≡ a % 2 ^ k
bit_and_mask zero a = omega (arith, bit_and-zero a)
bit_and_mask (suc k) a =
    rw (mask_odd k, two_pow k, mod_double (2 ^ k) a (two_pow_pos k))
      (omega (arith, bit_and_odd a (2 ^ k - 1), bit_and_mask k (a / 2)))

half_lt : (k a : ℕ) → a < 2 ^ suc k → a / 2 < 2 ^ k
half_lt k a h = omega (arith, two_pow k)

pub bit_or-lt : (k a b : ℕ) → a < 2 ^ k → b < 2 ^ k → bit_or a b < 2 ^ k
bit_or-lt zero zero zero ha hb = omega arith
bit_or-lt zero zero (suc b) ha hb = absurd (omega arith)
bit_or-lt zero (suc a) b ha hb = absurd (omega arith)
bit_or-lt (suc k) a b ha hb = omega (
  arith,
  bit_or_step a b,
  two_pow k,
  bit_or-lt k (a / 2) (b / 2) (half_lt k a ha) (half_lt k b hb),
)

-- The same with the field above in front.
pub bit_or_above : (k a b : ℕ) → a < 2 ^ k → bit_or (b * 2 ^ k) a ≡ b * 2 ^ k + a
bit_or_above zero zero b h = bit_or-zero (b * 1) ∙ omega arith
bit_or_above zero (suc a) b h = absurd (omega arith)
bit_or_above (suc k) a b h =
    rw (mul_two_pow b k) (
      omega (arith, even-bit_or (b * 2 ^ k) a, bit_or_above k (a / 2) b (omega (arith, two_pow k))))

bit_or_half : (a b : ℕ) → bit_or a b / 2 ≡ bit_or (a / 2) (b / 2)
bit_or_half a b = omega (arith, bit_or_step a b)

bit_or_low : (a b : ℕ) → bit_or a b % 2 ≡ max (a % 2) (b % 2)
bit_or_low a b = omega (arith, bit_or_step a b)

bit_or_pair :
    (x y p q : ℕ) → p < 2 → q < 2 → bit_or (x * 2 + p) (y * 2 + q) ≡ bit_or x y * 2 + max p q
bit_or_pair x y p q hp hq =
    let x_half : (x * 2 + p) / 2 ≡ x = omega arith in
    let y_half : (y * 2 + q) / 2 ≡ y = omega arith in
    let x_low : (x * 2 + p) % 2 ≡ p = omega arith in
    let y_low : (y * 2 + q) % 2 ≡ q = omega arith in
    bit_or_step (x * 2 + p) (y * 2 + q) ∙ rw (x_half, y_half, x_low, y_low)

-- The low bits of `or` are those of its arguments.
pub bit_or_mod : (k a b : ℕ) → bit_or a b % 2 ^ k ≡ bit_or (a % 2 ^ k) (b % 2 ^ k)
bit_or_mod zero a b = rw (mod-one a, mod-one b, mod-one (bit_or a b)) refl
bit_or_mod (suc k) a b =
    let p = two_pow_pos k in
    rw
      (two_pow k, mod_double (2 ^ k) a p, mod_double (2 ^ k) b p, mod_double (2 ^ k) (bit_or a b) p)
      (rw (
        bit_or_half a b,
        bit_or_low a b,
        bit_or_mod k (a / 2) (b / 2),
        bit_or_pair (a / 2 % 2 ^ k) (b / 2 % 2 ^ k) (a % 2) (b % 2) (omega arith) (omega arith),
      ))

pub bit_and_double : (a x : ℕ) → bit_and a (2 * x) ≡ bit_and (a / 2) x * 2
bit_and_double a x =
    let half : 2 * x / 2 ≡ x = omega arith in
    let low : 2 * x % 2 ≡ 0 = omega arith in
    rw (bit_and_step a (2 * x), half, low) (omega (arith, min-zero (a % 2)))

-- The highest bit of a word, in a number that has it and in one that has not.
pub bit_and_below : (k a : ℕ) → a < 2 ^ k → bit_and a (2 ^ k) ≡ 0
bit_and_below zero a h = omega (arith, bit_and_mask 1 a)
bit_and_below (suc k) a h =
    rw (two_pow k)
      (omega (arith, bit_and_double a (2 ^ k), bit_and_below k (a / 2) (omega (arith, two_pow k))))

pub bit_and_top : (k a : ℕ) → 2 ^ k ≤ a → a < 2 ^ suc k → bit_and a (2 ^ k) ≡ 2 ^ k
bit_and_top zero a l h = omega (arith, bit_and_mask 1 a)
bit_and_top (suc k) a l h = rw (two_pow k) (
    omega (
      arith,
      bit_and_double a (2 ^ k),
      bit_and_top k (a / 2) (omega (arith, two_pow k)) (omega (arith, two_pow k, two_pow (suc k))),
    ))
