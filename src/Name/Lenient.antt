-- ===== src/Name/Lenient.antt =====
-- `char_to_name_digit` and `string_to_name`, which take any text.
use Prim.Native.Nat.{bit_and, bit_or}
use clarion.Prelude.{
  ℕ, ◌+◌, ◌-◌, ◌*◌, ◌%◌, ◌^◌, ◌<◌, ◌≡◌, sym, ap, ◌∙◌, [], ◌∷◌, true, false, some, none, inl, inr,
  ltb, leb, ◌==◌, ◌&&◌, if◌then◌else◌, Bool-cases, Option-cases, arith, ==_iff,
}
use clarion.Stream.{Bytes}
use clarion.Name.Strict.{
  char_to_name_digit_strict, is_empty, last_digit, strict_loop, string_to_name_strict,
}
use clarion.Name.Print.{name_to_string}
use clarion.Name.RoundTrip.{string_to_name_strict-name_to_string}

unfoldable pub char_to_name_digit : ℕ → ℕ
char_to_name_digit c =
    if leb b'a' c && leb c b'z'
    then c - b'a' + 6
    else if leb b'1' c && leb c b'5'
    then c - b'1' + 1
    else 0

-- The loop, at position `i`, and the character behind the twelve; what follows that one is ignored.
unfoldable pub lenient_loop : ℕ → Bytes → ℕ → ℕ
lenient_loop i [] name = name
lenient_loop i (c ∷ str) name =
    let further =
      lenient_loop (i + 1) str
        (bit_or name (bit_and (char_to_name_digit c) 0x1f * 2 ^ (64 - 5 * (i + 1)) % 2 ^ 64)) in
    if ltb i 12 then further else bit_or name (bit_and (char_to_name_digit c) 0x0f)

unfoldable pub string_to_name : Bytes → ℕ
string_to_name str = lenient_loop 0 str 0

-- Where both readers know a character they agree.
char_to_name_digit-strict :
    (c x : ℕ) → char_to_name_digit_strict c ≡ some x → char_to_name_digit c ≡ x
unfolding char_to_name_digit char_to_name_digit_strict
char_to_name_digit-strict c x e = ground arith

last_digit_accepted :
    (c x name v : ℕ) (rest : Bytes)
    → char_to_name_digit_strict c ≡ some x
    → last_digit c rest name ≡ (true, v)
    → bit_or name (bit_and x 0xf) ≡ v
unfolding last_digit
last_digit_accepted c x name v rest d e = elim (Bool-cases (x == bit_and x 0xf)) [
  | inl small ↦
      let run : last_digit c rest name ≡ (is_empty rest, bit_or name x) =
        rw (last_digit, d, small) in
      let same : x ≡ bit_and x 0xf = (==_iff x (bit_and x 0xf)).0 small in
      ap (bit_or name) (sym same) ∙ ap (λ r. r.1) (sym run ∙ e)
  | inr large ↦ let run : last_digit c rest name ≡ (false, name) = rw (last_digit, d, large) in cc
]

last_digit_refused :
    (c name : ℕ) (rest : Bytes)
    → char_to_name_digit_strict c ≡ none
    → last_digit c rest name ≡ (false, name)
unfolding last_digit
last_digit_refused c name rest d = rw (last_digit, d)

lenient_loop-strict :
    (i : ℕ) (str : Bytes) (name v : ℕ)
    → strict_loop i str name ≡ (true, v)
    → lenient_loop i str name ≡ v
unfolding lenient_loop strict_loop
lenient_loop-strict i [] name v e = ap (λ r. r.1) e
lenient_loop-strict i (c ∷ str) name v e = elim (Bool-cases (ltb i 12)) [
  | inl inside ↦ elim (Option-cases (char_to_name_digit_strict c)) [
    | inl d ↦ let run : strict_loop i (c ∷ str) name ≡ (false, name) = rw (inside, d) in cc
    | inr (x, d) ↦
        let name' = bit_or name (bit_and x 0x1f * 2 ^ (64 - 5 * (i + 1)) % 2 ^ 64) in
        let run : strict_loop i (c ∷ str) name ≡ strict_loop (i + 1) str name' = rw (inside, d) in
        rw (inside, char_to_name_digit-strict c x d)
          (lenient_loop-strict (i + 1) str name' v (sym run ∙ e))
  ]
  | inr outside ↦
      let run : strict_loop i (c ∷ str) name ≡ last_digit c str name = rw outside in
      elim (Option-cases (char_to_name_digit_strict c)) [
        | inl d ↦ let end = last_digit_refused c name str d in cc
        | inr (x, d) ↦
            rw (outside, char_to_name_digit-strict c x d)
              (last_digit_accepted c x name v str d (sym run ∙ e))
      ]
]

-- On every text that string_to_name_strict accepts, string_to_name gives the same name.
pub string_to_name-strict :
    (str : Bytes) (v : ℕ) → string_to_name_strict str ≡ (true, v) → string_to_name str ≡ v
unfolding string_to_name string_to_name_strict
string_to_name-strict str v e = lenient_loop-strict 0 str 0 v e

-- string_to_name reads back every 64-bit name that name_to_string prints.
pub string_to_name-name_to_string : (v : ℕ) → v < 2 ^ 64 → string_to_name (name_to_string v) ≡ v
string_to_name-name_to_string v h =
    string_to_name-strict (name_to_string v) v (string_to_name_strict-name_to_string v h)
