-- ===== src/Name/Digits.antt =====
-- The printed characters, read as digits.
use Prim.Native.Nat.{bit_and, bit_or}
use clarion.Prelude.{
  ℕ, zero, suc, ◌+◌, ◌-◌, ◌*◌, ◌/◌, ◌%◌, ◌^◌, ◌≤◌, ◌<◌, ◌≡◌, refl, ◌∙◌, ap, [], ◌∷◌, arith, Bool,
  true, false, none, some, ◌==◌, Option-cases, inl, inr,
}
use clarion.Prelude.Bits.{bit_and_mask, bit_or_above, two_pow_pos, all_below, all_below_sound}
use clarion.Stream.{Bytes}
use clarion.Name.Strict.{char_to_name_digit_strict, last_digit, is_empty, strict_loop}
use clarion.Name.Print.{charmap, print_loop}
use native.Mathlib.Nat.{mod-eq_of_lt, pow-le-pow_right, pow-suc, lt_of_lt_of_le}
use native.Mathlib.Numerals.{towards_suc}
use clarion.Name.Steps.{strict_loop_digit, strict_loop_last}

is_digit : ℕ → ℕ → Bool
is_digit c x = elim (char_to_name_digit_strict c) [ none ↦ false | some y ↦ y == x ]

is_digit→eq : (c x : ℕ) → is_digit c x ≡ true → char_to_name_digit_strict c ≡ some x
unfolding is_digit
is_digit→eq c x h = elim (Option-cases (char_to_name_digit_strict c)) [
  | inl missing ↦ ground (arith, missing)
  | inr (y, found) ↦ ground (arith, found)
]

-- Each character of the table is read as its place in it.
digit-charmap : (x : ℕ) → x < 32 → char_to_name_digit_strict (charmap x) ≡ some x
digit-charmap x h =
    is_digit→eq (charmap x) x (all_below_sound 32 (λ y. is_digit (charmap y) y) x table h)
  where
    table : all_below 32 (λ y. is_digit (charmap y) y) ≡ true
    table = unfold all_below is_digit charmap char_to_name_digit_strict in refl

two_pow_five : (k : ℕ) → 2 ^ (k + 5) ≡ 32 * 2 ^ k
two_pow_five k = simp towards_suc (omega arith)

-- The five bits of `x` are put below what was read so far.
put_digit :
    (k x h : ℕ)
    → x < 32
    → k + 5 ≤ 64
    → bit_or (h * 2 ^ (k + 5)) (bit_and x 0x1f * 2 ^ k % 2 ^ 64) ≡ (h * 32 + x) * 2 ^ k
put_digit k x h hx hk =
    let small : x * 2 ^ k < 2 ^ (k + 5) = rw (two_pow_five k) (grind (arith, two_pow_pos k)) in
    let fits : x * 2 ^ k < 2 ^ 64 =
      lt_of_lt_of_le small (pow-le-pow_right {n = 2} (omega arith) hk) in
    let low : x % 32 ≡ x = omega arith in
    rw
      (
        bit_and_mask 5 x,
        low,
        mod-eq_of_lt fits,
        bit_or_above (k + 5) (x * 2 ^ k) h small,
        two_pow_five k,
      )
      (omega arith)

-- A round of the reader on the character of `x`, where `h` is what was read so far.
strict_round :
    (i k x h : ℕ) (str : Bytes)
    → k + 5 * (i + 1) ≡ 64
    → i < 12
    → x < 32
    → strict_loop i (charmap x ∷ str) (h * 2 ^ (k + 5))
      ≡ strict_loop (i + 1) str ((h * 32 + x) * 2 ^ k)
strict_round i k x h str hk hi hx =
    let shift : 64 - 5 * (i + 1) ≡ k = omega arith in
    strict_loop_digit i (charmap x) x str _ hi (digit-charmap x hx)
    ∙ rw shift (ap (strict_loop (i + 1) str) (put_digit k x h hx (omega arith)))

same_loop :
    (str : Bytes) {i j name name' : ℕ}
    → i ≡ j
    → name ≡ name'
    → strict_loop i str name ≡ strict_loop j str name'
same_loop str p q = cc

join_digit : (n g v : ℕ) → (g * 32 ^ n + v / 32) * 32 + v % 32 ≡ g * 32 ^ suc n + v
join_digit n g v = omega (arith, ap (λ (t : ℕ). g * t) (pow-suc 32 n))

-- `n` printed characters are read back as `n` more digits.
strict_loop-print_loop :
    (n i k g v : ℕ) (str : Bytes)
    → i + n ≤ 12
    → k + 5 * (i + n) ≡ 64
    → v < 32 ^ n
    → strict_loop i (print_loop n v str) (g * 2 ^ (k + 5 * n))
      ≡ strict_loop (i + n) str ((g * 32 ^ n + v) * 2 ^ k)
unfolding print_loop
strict_loop-print_loop zero i k g v str hi hk hv =
    let none_left : v ≡ 0 = omega arith in
    let here : k + 5 * 0 ≡ k = omega arith in
    let digits : g * 32 ^ 0 + v ≡ g = omega arith in same_loop str (omega arith) (rw (here, digits))
strict_loop-print_loop (suc n) i k g v str hi hk hv =
    let shift : k + 5 * suc n ≡ (k + 5) + 5 * n = omega arith in
    let low : bit_and v 0x1f ≡ v % 32 = bit_and_mask 5 v in
    rw (shift, low)
      (strict_loop-print_loop n i (k + 5) g (v / 32) (charmap (v % 32) ∷ str) (omega arith)
          (omega arith) (omega (arith, pow-suc 32 n))
        ∙ strict_round (i + n) k (v % 32) (g * 32 ^ n + v / 32) str (omega arith) (omega arith)
            (omega arith)
        ∙ same_loop str (omega arith) (ap (λ t. t * 2 ^ k) (join_digit n g v)))

-- The character behind the twelve takes the four lowest bits.
last_digit-charmap :
    (x h : ℕ) → x < 16 → last_digit (charmap x) [] (h * 2 ^ 4) ≡ (true, h * 2 ^ 4 + x)
unfolding last_digit is_empty
last_digit-charmap x h hx =
    let low : bit_and x 0xf ≡ x = bit_and_mask 4 x ∙ omega arith in
    let same : (x == x) ≡ true = ground arith in
    rw (digit-charmap x (omega arith), last_digit) (simp (low, same, bit_or_above 4 x h hx))

pub strict_loop_printed :
    (v : ℕ)
    → v < 2 ^ 64
    → strict_loop 0 (print_loop 12 (v / 2 ^ 4) (charmap (bit_and v 0x0f) ∷ [])) 0 ≡ (true, v)
strict_loop_printed v h =
    let low : bit_and v 0x0f ≡ v % 16 = bit_and_mask 4 v in
    rw low (
      strict_loop-print_loop 12 0 4 0 (v / 2 ^ 4) (charmap (v % 16) ∷ []) (omega arith)
        (omega arith) (omega arith)
      ∙ strict_loop_last 12 (charmap (v % 16)) [] _ refl
      ∙ ap (last_digit (charmap (v % 16)) []) (omega arith)
      ∙ last_digit-charmap (v % 16) (v / 2 ^ 4) (omega arith)
      ∙ ap (λ n. (true, n)) (omega arith))
