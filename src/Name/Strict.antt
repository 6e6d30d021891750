-- ===== src/Name/Strict.antt =====
-- `char_to_name_digit_strict`, `string_to_name_strict` and the constructor of `name` from a text.
use Prim.Native.Nat.{bit_and, bit_or}
use clarion.Prelude.{
  ℕ, ◌+◌, ◌-◌, ◌*◌, ◌%◌, ◌^◌, [], ◌∷◌, Bool, true, false, Option, none, some, ltb, leb, ◌==◌, ◌&&◌,
  if◌then◌else◌,
}
use clarion.Stream.{Bytes}

-- `none` is the result `false`.
unfoldable pub char_to_name_digit_strict : ℕ → Option ℕ
char_to_name_digit_strict c =
    if leb b'a' c && leb c b'z'
    then some (c - b'a' + 6)
    else if leb b'1' c && leb c b'5'
    then some (c - b'1' + 1)
    else if c == b'.'
    then some 0
    else none

unfoldable pub is_empty : Bytes → Bool
is_empty [] = true
is_empty (c ∷ str) = false

-- The result, and what `name` holds then. This is the character behind the twelve that take five bits.
unfoldable pub last_digit : ℕ → Bytes → ℕ → Bool × ℕ
last_digit c rest name = elim (char_to_name_digit_strict c) [
  | none ↦ (false, name)
  | some x ↦ if x == bit_and x 0xf then (is_empty rest, bit_or name x) else (false, name)
]

-- The loop, at position `i`.
unfoldable pub strict_loop : ℕ → Bytes → ℕ → Bool × ℕ
strict_loop i [] name = (true, name)
strict_loop i (c ∷ str) name =
    let further = λ (x : ℕ).
      strict_loop (i + 1) str (bit_or name (bit_and x 0x1f * 2 ^ (64 - 5 * (i + 1)) % 2 ^ 64)) in
    let digit : Bool × ℕ = elim (char_to_name_digit_strict c) [
      | none ↦ (false, name)
      | some x ↦ further x
    ] in
    if ltb i 12 then digit else last_digit c str name

unfoldable pub string_to_name_strict : Bytes → Bool × ℕ
string_to_name_strict str = strict_loop 0 str 0

-- `name(std::string_view)`: a text that is refused leaves the characters before the refused one.
unfoldable pub name_of_string : Bytes → ℕ
name_of_string str = (string_to_name_strict str).1
