-- ===== src/Base58/Runs.antt =====
-- Concrete runs, and the theorems at concrete inputs.
use clarion.Prelude.{◌++◌, ◌≡◌, refl, [], ◌∷◌, some, none, arith}
use clarion.Stream.{Bytes}
use clarion.Base58.Convert.{
  base58_map, last_place, base58_char, base58_to_binary, binary_to_base58, to_base58, from_base58,
  multiply_58, parse_digits, leading, push_digits, multiply_256, print_bytes, smaller,
}
use clarion.Base58.RoundTrip.{base58_to_binary-binary_to_base58}
use clarion.Base58.Buffer.{from_base58-to_base58}

abbrev bytes : Bytes
bytes = 0 ∷ 0 ∷ 1 ∷ 255 ∷ []

printed : binary_to_base58 bytes ≡ some (b'1' ∷ b'1' ∷ b'9' ∷ b'p' ∷ [])
unfolding binary_to_base58 print_bytes multiply_256 push_digits base58_map last_place base58_char
    leading
printed = refl

not_a_digit : base58_to_binary [] (b'0' ∷ []) ≡ none
unfolding base58_to_binary parse_digits base58_map last_place
not_a_digit = refl

-- The 0 behind the alphabet counts as a digit.
nul_digit : base58_to_binary [] (0 ∷ []) ≡ some (58 ∷ [])
unfolding base58_to_binary parse_digits base58_map last_place multiply_58 leading
nul_digit = refl

base58_to_binary-binary_to_base58_example :
    (s : Bytes) × (binary_to_base58 bytes ≡ some s)
    × (base58_to_binary (7 ∷ []) s ≡ some (7 ∷ bytes))
base58_to_binary-binary_to_base58_example =
    base58_to_binary-binary_to_base58 bytes (7 ∷ []) (omega arith)

from_base58-to_base58_example :
    (s : Bytes) × (to_base58 bytes ≡ some s)
    × (from_base58 s (9 ∷ 9 ∷ 9 ∷ 9 ∷ 8 ∷ []) ≡ some (bytes ++ 8 ∷ []))
from_base58-to_base58_example =
    from_base58-to_base58 bytes (9 ∷ 9 ∷ 9 ∷ 9 ∷ 8 ∷ []) (omega arith) (omega arith)

abbrev small_buffer : Bytes
small_buffer = 9 ∷ []

abbrev filled_buffer : Bytes
filled_buffer = 1 ∷ []

cut : from_base58 (b'9' ∷ b'p' ∷ []) small_buffer ≡ some filled_buffer
unfolding from_base58 base58_to_binary parse_digits base58_map last_place multiply_58 leading
    smaller
cut = refl
