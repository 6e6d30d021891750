-- ===== src/Name/Steps.antt =====
-- One round of `strict_loop`, with the loop shut.
use Prim.Native.Nat.{bit_and, bit_or}
use clarion.Prelude.{ℕ, ◌+◌, ◌-◌, ◌*◌, ◌%◌, ◌^◌, ◌<◌, ◌≡◌, ◌∷◌, false, none, some, ltb, lt→ltb}
use clarion.Stream.{Bytes}
use clarion.Name.Strict.{char_to_name_digit_strict, last_digit, strict_loop}

pub strict_loop_digit :
    (i c x : ℕ) (str : Bytes) (name : ℕ)
    → i < 12
    → char_to_name_digit_strict c ≡ some x
    → strict_loop i (c ∷ str) name
      ≡ strict_loop (i + 1) str (bit_or name (bit_and x 0x1f * 2 ^ (64 - 5 * (i + 1)) % 2 ^ 64))
unfolding strict_loop
strict_loop_digit i c x str name hi e = rw (lt→ltb i 12 hi, e)

pub strict_loop_refused :
    (i c : ℕ) (str : Bytes) (name : ℕ)
    → i < 12
    → char_to_name_digit_strict c ≡ none
    → strict_loop i (c ∷ str) name ≡ (false, name)
unfolding strict_loop
strict_loop_refused i c str name hi e = rw (lt→ltb i 12 hi, e)

pub strict_loop_last :
    (i c : ℕ) (str : Bytes) (name : ℕ)
    → ltb i 12 ≡ false
    → strict_loop i (c ∷ str) name ≡ last_digit c str name
unfolding strict_loop
strict_loop_last i c str name hi = rw hi
