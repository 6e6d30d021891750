-- ===== src/Base58/Chars.antt =====
-- Characters and digits.
use clarion.Prelude.{
  ℕ, zero, suc, ◌<◌, ◌≡◌, ◌⊎◌, inl, inr, refl, sym, ap, ◌∙◌, Bool, true, false, ◌&&◌, Option, none,
  some, ◌==◌, Bool-cases, arith,
}
use clarion.Base58.Convert.{base58_char, base58_map, last_place}

is_some : ℕ → Option ℕ → Bool
is_some i none = false
is_some i (some j) = i == j

found_below : ℕ → Bool
found_below zero = true
found_below (suc n) = is_some n (base58_map (base58_char n)) && found_below n

all_found : found_below 58 ≡ true
unfolding found_below is_some base58_map base58_char last_place
all_found = refl

is_some_lem : (i : ℕ) (o : Option ℕ) → is_some i o ≡ true → o ≡ some i
unfolding is_some
is_some_lem i none e = cc
is_some_lem i (some j) e = let same : i ≡ j = ground arith in rw same refl

found : (n i : ℕ) → found_below n ≡ true → i < n → base58_map (base58_char i) ≡ some i
unfolding found_below
found zero i e l = absurd (omega arith)
found (suc n) i e l =
    let here : is_some n (base58_map (base58_char n)) ≡ true = ground arith in
    let there : found_below n ≡ true = ground arith in
    elim (same_or_less i n l) [
      | inl same ↦ rw same (is_some_lem n _ here)
      | inr less ↦ found n i there less
    ]
  where
    same_or_less : (i n : ℕ) → i < suc n → (i ≡ n) ⊎ (i < n)
    same_or_less i n l = ground arith

-- A digit's character is mapped to the digit.
pub base58_map-base58_char : (i : ℕ) → i < 58 → base58_map (base58_char i) ≡ some i
base58_map-base58_char i l = found 58 i all_found l

-- Only digit 0 is the character of 0.
pub zero_char : (i : ℕ) → 0 < i → i < 58 → (base58_char i == b'1') ≡ false
unfolding base58_map last_place
zero_char i p l = elim (Bool-cases (base58_char i == b'1')) [
  | inl e ↦
      let same : base58_char i ≡ b'1' = ground arith in
      let first : some 0 ≡ some i =
        sym one_first ∙ ap base58_map (sym same) ∙ base58_map-base58_char i l in
      absurd (omega (arith, some_injective first))
  | inr e ↦ e
]
  where
    one_first : base58_map b'1' ≡ some 0
    one_first = refl

    some_injective : some 0 ≡ some i → 0 ≡ i
    some_injective e = cc
