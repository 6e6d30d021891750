-- ===== src/Compress/Tags.antt =====
-- The tag of a word and the word that is made of it.
use Prim.Native.Nat.{bit_and}
use native.Mathlib.Nat.{
  dvd_of_mod-eq-zero, le-mul_of_pos_right, mod-eq-sub-mod, mod-mod_of_dvd, mod-eq_of_lt,
  mul-mod_left,
}
use clarion.Prelude.{
  ℕ, zero, suc, ◌+◌, ◌-◌, ◌*◌, ◌/◌, ◌%◌, ◌^◌, ◌≤◌, ◌<◌, ◌≡◌, refl, ap, ◌∙◌, [], ◌∷◌, ◌++◌, length,
  false, ◌==◌, if◌then◌else◌, sym, ==_iff, arith, Bool-cases, inl, inr,
}
use clarion.Prelude.Bits.{
  bit_and-zero, bit_and_odd, bit_and_double, mod_double, two_pow, two_pow_pos,
}
use clarion.Stream.{ok, Bytes}
use clarion.Stream.Input.{read-append}
use clarion.Compress.Pack.{tag, kept}
use clarion.Compress.Unpack.{expand}

-- The tag of a word, as a number.
abbrev pub bits : Bytes → ℕ
bits [] = 0
bits (b ∷ w) = (if b == 0 then 0 else 2 ^ length w) + bits w

pub bits-lt : (w : Bytes) → bits w < 2 ^ length w
bits-lt [] = omega arith
bits-lt (b ∷ w) = elim (Bool-cases (b == 0)) [
  | inl e ↦ rw e (omega (arith, bits-lt w, two_pow (length w)))
  | inr e ↦ rw e (omega (arith, bits-lt w, two_pow (length w)))
]

pub tag-bits :
    (w : Bytes) (high : ℕ)
    → high * 2 ^ length w + 2 ^ length w ≤ 2 ^ 8
    → tag w high ≡ high * 2 ^ length w + bits w
unfolding tag
tag-bits [] high h = omega arith
tag-bits (b ∷ w) high h =
    let p = 2 ^ length w in
    let twice : high * 2 ^ suc (length w) ≡ high * 2 * p = rw (two_pow (length w)) (grind arith) in
    let fits : (high * 2 + 1) * p + p ≤ 2 ^ 8 = grind (arith, twice, two_pow (length w)) in
    let above : high * 2 + 1 ≤ (high * 2 + 1) * p =
      le-mul_of_pos_right (high * 2 + 1) (two_pow_pos (length w)) in
    let small : high * 2 % 2 ^ 8 ≡ high * 2 = omega arith in
    elim (Bool-cases (b == 0)) [
      | inl e ↦ rw (e, small) (tag-bits w (high * 2 + 0) (grind arith) ∙ grind (arith, twice))
      | inr e ↦ rw (e, small) (tag-bits w (high * 2 + 1) fits ∙ grind (arith, twice))
    ]

mod_next : (i x : ℕ) → x % 2 ^ suc (suc i) ≡ x / 2 % 2 ^ suc i * 2 + x % 2
mod_next i x = ap (λ m. x % m) (two_pow (suc i)) ∙ mod_double (2 ^ suc i) x (two_pow_pos (suc i))

-- Whether a bit is set, by the remainder that has it as its highest digit.
bit_clear : (i x : ℕ) → x % 2 ^ suc i < 2 ^ i → bit_and x (2 ^ i) ≡ 0
bit_clear zero x h = omega (arith, bit_and_odd x 0, bit_and-zero (x / 2))
bit_clear (suc i) x h =
    rw (two_pow i, bit_and_double x (2 ^ i))
      (omega (arith, bit_clear i (x / 2) (omega (arith, two_pow i, mod_next i x))))

bit_set : (i x : ℕ) → 2 ^ i ≤ x % 2 ^ suc i → bit_and x (2 ^ i) ≡ 2 ^ i
bit_set zero x h = omega (arith, bit_and_odd x 0, bit_and-zero (x / 2))
bit_set (suc i) x h =
    rw (two_pow i, bit_and_double x (2 ^ i))
      (omega (arith, bit_set i (x / 2) (omega (arith, two_pow i, mod_next i x))))

mod_lower : (i x : ℕ) → x % 2 ^ suc i % 2 ^ i ≡ x % 2 ^ i
mod_lower i x =
    mod-mod_of_dvd (2 ^ i) x (dvd_of_mod-eq-zero (2 ^ i) (rw (two_pow i) (mul-mod_left 2 (2 ^ i))))

past_digit : (p r : ℕ) → r < p → (p + r) % p ≡ r
past_digit p r h =
    let without : p + r - p ≡ r = omega arith in
    mod-eq-sub-mod (omega arith) ∙ ap (λ m. m % p) without ∙ mod-eq_of_lt h

pub expand-kept :
    (w : Bytes) (x : ℕ) (rest : Bytes)
    → length w ≤ 8
    → x < 256
    → x % 2 ^ length w ≡ bits w
    → expand (length w) x (kept w ++ rest) ≡ ok (w, rest)
unfolding expand kept
expand-kept [] x rest h hx e = refl
expand-kept (b ∷ w) x rest h hx e = elim (Bool-cases (b == 0)) [
  | inl z ↦
      let r : x % 2 ^ suc (length w) ≡ bits w =
        (let r : x % 2 ^ suc (length w) ≡ 0 + bits w = rw z at e in omega arith) in
      let low : x % 2 ^ length w ≡ bits w =
        sym (mod_lower (length w) x) ∙ ap (λ m. m % 2 ^ length w) r ∙ mod-eq_of_lt (bits-lt w) in
      let bit : bit_and x (2 ^ length w) ≡ 0 = bit_clear (length w) x (omega (arith, bits-lt w)) in
      let same : b ≡ 0 = (==_iff b 0).0 z in
      rw (z, bit, expand-kept w x rest (omega arith) hx low, same) refl
  | inr z ↦
      let r : x % 2 ^ suc (length w) ≡ 2 ^ length w + bits w = rw z at e in
      let low : x % 2 ^ length w ≡ bits w =
        sym (mod_lower (length w) x)
        ∙ ap (λ m. m % 2 ^ length w) r
        ∙ past_digit (2 ^ length w) (bits w) (bits-lt w) in
      let bit : bit_and x (2 ^ length w) ≡ 2 ^ length w = bit_set (length w) x (omega arith) in
      let set : (2 ^ length w == 0) ≡ false = ground (arith, two_pow_pos (length w)) in
      rw
        (
          z,
          bit,
          set,
          read-append 1 (b ∷ []) (kept w ++ rest) refl,
          expand-kept w x rest (omega arith) hx low,
        )
        refl
]
