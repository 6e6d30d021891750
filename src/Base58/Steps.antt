-- ===== src/Base58/Steps.antt =====
-- What one step of either conversion does to the number that its digits stand for.
use clarion.Prelude.{
  ℕ, zero, suc, ◌+◌, ◌*◌, ◌/◌, ◌%◌, ◌^◌, ◌<◌, ◌≡◌, refl, ap, ◌∙◌, List, [], ◌∷◌, All, some, inl,
  inr, ◌==◌, Bool-cases, arith,
}
use native.Mathlib.Nat.{pow-suc}
use clarion.Stream.{Bytes}
use clarion.Base58.Convert.{
  base58_char, multiply_58, parse_digits, push_digits, multiply_256, print_bytes,
}
use clarion.Base58.Chars.{base58_map-base58_char}
use clarion.Base58.Numbers.{value, be_value, Canonical}

abbrev pub chars : List ℕ → Bytes
chars [] = []
chars (d ∷ ds) = base58_char d ∷ chars ds

pub multiply_58_lem :
    (carry : ℕ) (bytes : List ℕ)
    → carry < 58
    → Canonical 256 bytes
    → (value 256 (multiply_58 carry bytes) ≡ carry + 58 * value 256 bytes)
      × Canonical 256 (multiply_58 carry bytes)
unfolding multiply_58
multiply_58_lem carry [] l c = elim (Bool-cases (carry == 0)) [
  | inl e ↦ let none_left : carry ≡ 0 = ground arith in rw e (omega arith, tt)
  | inr e ↦
      let some_left : 0 < carry = ground arith in rw e (omega arith, (omega arith, omega arith, tt))
]
multiply_58_lem carry (b ∷ bytes) l c =
    let (e, c') = multiply_58_lem ((b * 58 + carry) / 256) bytes (omega (arith, c.0)) c.2 in
    let positive = c.1 in (omega (arith, e), (omega arith, omega (arith, e, positive), c'))

push_digits_lem :
    (n carry : ℕ)
    → carry < 58 ^ n
    → (ds : List ℕ) × (push_digits (suc n) carry ≡ some (chars ds))
      × (value 58 ds ≡ carry)
      × Canonical 58 ds
unfolding push_digits
push_digits_lem zero carry l =
    let none_left : carry ≡ 0 = omega arith in rw none_left ([], refl, refl, tt)
push_digits_lem (suc n) carry l = elim (Bool-cases (carry == 0)) [
  | inl e ↦ let none_left : carry ≡ 0 = ground arith in ([], rw e refl, omega arith, tt)
  | inr e ↦
      let some_left : 0 < carry = ground arith in
      let (ds, e', v, c) = push_digits_lem n (carry / 58) (omega (arith, pow-suc 58 n)) in
      ((carry % 58) ∷ ds, rw (e, e') refl, omega (arith, v), (omega arith, omega (arith, v), c))
]

-- Three rounds of `while( carry )` are enough for a carry that is a byte, and the digits that the loop pushes
-- stand for the carry.
pub push_digits-Ends :
    (carry : ℕ)
    → carry < 256
    → (ds : List ℕ) × (push_digits 3 carry ≡ some (chars ds)) × (value 58 ds ≡ carry)
push_digits-Ends carry l = let (ds, e, v, c) = push_digits_lem 2 carry (omega arith) in (ds, e, v)

pub multiply_256_lem :
    (carry : ℕ) (ds : List ℕ)
    → carry < 256
    → Canonical 58 ds
    → (es : List ℕ) × (multiply_256 carry (chars ds) ≡ some (chars es))
      × (value 58 es ≡ carry + 256 * value 58 ds)
      × Canonical 58 es
unfolding multiply_256
multiply_256_lem carry [] l c =
    let (es, e, v, c') = push_digits_lem 2 carry (omega arith) in (es, e, omega (arith, v), c')
multiply_256_lem carry (d ∷ ds) l c =
    let found = base58_map-base58_char d c.0 in
    let (es, e, v, c') = multiply_256_lem ((d * 256 + carry) / 58) ds (omega (arith, c.0)) c.2 in
    let positive = c.1 in
    (
      ((d * 256 + carry) % 58) ∷ es,
      rw (found, e) refl,
      omega (arith, v),
      (omega arith, omega (arith, v, positive), c'),
    )

-- All the bytes, and all the digits.
pub print_bytes_lem :
    (bin ds : List ℕ)
    → All (λ x. x < 256) bin
    → Canonical 58 ds
    → (es : List ℕ) × (print_bytes bin (chars ds) ≡ some (chars es))
      × (value 58 es ≡ be_value 256 (value 58 ds) bin)
      × Canonical 58 es
unfolding print_bytes
print_bytes_lem [] ds h c = (ds, refl, refl, c)
print_bytes_lem (x ∷ bin) ds h c =
    let (es, e, v, c') = multiply_256_lem x ds h.0 c in
    let (fs, e', v', c'') = print_bytes_lem bin es h.1 c' in
    (fs, rw e e', v' ∙ ap (λ n. be_value 256 n bin) v, c'')

pub parse_digits_lem :
    (ds bytes : List ℕ)
    → All (λ d. d < 58) ds
    → Canonical 256 bytes
    → (cs : List ℕ) × (parse_digits (chars ds) bytes ≡ some cs)
      × (value 256 cs ≡ be_value 58 (value 256 bytes) ds)
      × Canonical 256 cs
unfolding parse_digits
parse_digits_lem [] bytes h c = (bytes, refl, refl, c)
parse_digits_lem (d ∷ ds) bytes h c =
    let found = base58_map-base58_char d h.0 in
    let (v, c') = multiply_58_lem d bytes h.0 c in
    let (cs, e, v', c'') = parse_digits_lem ds (multiply_58 d bytes) h.1 c' in
    (cs, rw found e, v' ∙ ap (λ n. be_value 58 n ds) v, c'')
