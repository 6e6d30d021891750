-- ===== src/Base58/Convert.antt =====
-- `base58_to_binary`, `binary_to_base58` and the functions on top of them.
use mathlib.Core.List.{reverse}
use clarion.Prelude.{
  ℕ, zero, suc, ◌+◌, ◌*◌, ◌/◌, ◌%◌, ◌^◌, [], ◌∷◌, ◌++◌, length, take, drop, get_or, Option, none,
  some, ltb, ◌==◌, if◌then◌else◌,
}
use clarion.Stream.{Bytes}

infixl 5 ◌>>=◌
abbrev pub ◌>>=◌ {ℓ κ} : {A : Type ℓ} {B : Type κ} → Option A → (A → Option B) → Option B
none >>= f = none
some a >>= f = f a

-- The array has the terminating 0 of the literal as well.
abbrev pub base58_chars : Bytes
base58_chars =
    b'1' ∷ b'2' ∷ b'3' ∷ b'4' ∷ b'5' ∷ b'6' ∷ b'7' ∷ b'8' ∷ b'9' ∷ b'A' ∷ b'B' ∷ b'C' ∷ b'D' ∷ b'E'
    ∷ b'F' ∷ b'G' ∷ b'H' ∷ b'J' ∷ b'K' ∷ b'L' ∷ b'M' ∷ b'N' ∷ b'P' ∷ b'Q' ∷ b'R' ∷ b'S' ∷ b'T'
    ∷ b'U' ∷ b'V' ∷ b'W' ∷ b'X' ∷ b'Y' ∷ b'Z' ∷ b'a' ∷ b'b' ∷ b'c' ∷ b'd' ∷ b'e' ∷ b'f' ∷ b'g'
    ∷ b'h' ∷ b'i' ∷ b'j' ∷ b'k' ∷ b'm' ∷ b'n' ∷ b'o' ∷ b'p' ∷ b'q' ∷ b'r' ∷ b's' ∷ b't' ∷ b'u'
    ∷ b'v' ∷ b'w' ∷ b'x' ∷ b'y' ∷ b'z' ∷ 0 ∷ []

-- The last place that holds a character, counted from `i`.
unfoldable pub last_place : ℕ → Bytes → ℕ → Option ℕ
last_place i [] c = none
last_place i (x ∷ xs) c = elim (last_place (suc i) xs c) [
  | none ↦ if x == c then some i else none
  | some j ↦ some j
]

-- `none` is -1. The loop that fills the map runs over `sizeof(base58_chars)`, the terminating 0 included.
unfoldable pub base58_map : ℕ → Option ℕ
base58_map c = last_place 0 base58_chars c

unfoldable pub base58_char : ℕ → ℕ
base58_char i = get_or base58_chars i 0

-- One character of base58: the bytes, lowest first, times 58 and plus its digit.
unfoldable pub multiply_58 : ℕ → Bytes → Bytes
multiply_58 carry [] = if carry == 0 then [] else (carry % 256) ∷ []
multiply_58 carry (byte ∷ result) =
    let x = byte * 58 + carry in (x % 256) ∷ multiply_58 (x / 256) result

-- `none` is the exception "error parsing base58".
unfoldable pub parse_digits : Bytes → Bytes → Option Bytes
parse_digits [] result = some result
parse_digits (src_digit ∷ s) result = do
  carry ← base58_map src_digit
  parse_digits s (multiply_58 carry result)

-- What stands for a 0, once for each `mark` at the front.
unfoldable pub leading : ℕ → ℕ → Bytes → Bytes
leading mark stand_in [] = []
leading mark stand_in (x ∷ xs) = if x == mark then stand_in ∷ leading mark stand_in xs else []

-- What is in `result` already stays in front.
unfoldable pub base58_to_binary : Bytes → Bytes → Option Bytes
base58_to_binary result s = do
  bytes ← parse_digits s []
  some (result ++ reverse (bytes ++ leading b'1' 0 s))

-- `while( carry )`, on fuel.
unfoldable pub push_digits : ℕ → ℕ → Option Bytes
push_digits zero carry = none
push_digits (suc fuel) carry =
    if carry == 0
    then some []
    else (do rest ← push_digits fuel (carry / 58); some (base58_char (carry % 58) ∷ rest))

-- One byte: the digits, lowest first, times 256 and plus the byte. A character that is in no place would be a
-- negative digit, which is none of the program's (`none`).
unfoldable pub multiply_256 : ℕ → Bytes → Option Bytes
multiply_256 carry [] = push_digits 3 carry
multiply_256 carry (result_digit ∷ result) = do
  d ← base58_map result_digit
  rest ← multiply_256 ((d * 256 + carry) / 58) result
  some (base58_char ((d * 256 + carry) % 58) ∷ rest)

unfoldable pub print_bytes : Bytes → Bytes → Option Bytes
print_bytes [] result = some result
print_bytes (byte ∷ bin) result = do result' ← multiply_256 byte result; print_bytes bin result'

unfoldable pub binary_to_base58 : Bytes → Option Bytes
binary_to_base58 bin = do digits ← print_bytes bin []; some (reverse (digits ++ leading 0 b'1' bin))

unfoldable pub to_base58 : Bytes → Option Bytes
to_base58 s = binary_to_base58 s

unfoldable pub smaller : ℕ → ℕ → ℕ
smaller a b = if ltb b a then b else a

-- `memcpy` of as many bytes as there are and as `data`, of `data_size` bytes, can take.
unfoldable pub from_base58 : Bytes → Bytes → Option Bytes
from_base58 b58 bytes = do
  buf ← base58_to_binary [] b58
  let n = smaller (length bytes) (length buf % 2 ^ 32)
  some (take n buf ++ drop n bytes)
