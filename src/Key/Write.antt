-- ===== src/Key/Write.antt =====
-- to_key.hpp: the overloads of `to_key`, to any stream.
use Prim.Native.Nat.{bit_and, bit_or, bit_xor}
use clarion.Prelude.{
  ℕ, zero, suc, ◌-◌, ◌+◌, ◌*◌, ◌/◌, ◌%◌, ◌^◌, [], ◌∷◌, Bool, Option, none, some, inl, inr, ltb,
  ◌==◌, if◌then◌else◌,
}
use mathlib.Core.List.{reverse}
use clarion.Stream.{Result, ok, Bytes, ◌>>=◌}
use clarion.Stream.Sink.{Sink}
use clarion.Stream.Memory.{le_bytes}
use clarion.Bin.Write.{each}
use clarion.Key.Types.{KeyTy, KeyTys, El, Els, Alt, index, float_width}
use clarion.Key.Types.{flag, byte, integer, float, text, vec, opt, arr, tuple, variant, nil, cons}

-- `v -= std::numeric_limits<T>::min()` in the unsigned type of `n` bytes.
unfoldable pub biased : Bool → ℕ → ℕ → ℕ
biased signed n v = if signed then (v + (256 ^ n - 256 ^ n / 2)) % 256 ^ n else v

-- The bits are turned round for a negative number, and only its sign is for another.
unfoldable pub float_to_key : ℕ → ℕ → ℕ
float_to_key n value =
    let signbit = 2 ^ (n * 8 - 1) in
    let result = if value == signbit then 0 else value in
    let mask = if bit_and result signbit == 0 then 0 else 2 ^ (n * 8) - 1 in
    bit_xor result (bit_or mask signbit)

-- `num_bytes` of `to_key_varuint32`, and the first byte, whose high bits say how many follow.
unfoldable pub num_bytes : ℕ → ℕ
num_bytes obj =
    if ltb obj 0x80
    then 1
    else if ltb obj 0x4000
    then 2
    else if ltb obj 0x200000
    then 3
    else if ltb obj 0x10000000
    then 4
    else 5

unfoldable pub first_byte : ℕ → ℕ → ℕ
first_byte n obj =
    bit_or (2 ^ 32 - 1 - 0xff / 2 ^ (n - 1)) (if n == 5 then 0 else obj / 2 ^ ((n - 1) * 8)) % 256

module _ {S : Type 0} (k : Sink S) where
  -- `for (int i = num_bytes - 2; i >= 0; --i)`
  unfoldable pub low_bytes_to_key : ℕ → ℕ → S → Result S
  low_bytes_to_key zero obj s = ok s
  low_bytes_to_key (suc i) obj s =
      k.write (bit_and (obj / 2 ^ (i * 8)) 0xff ∷ []) s >>= low_bytes_to_key i obj

  unfoldable pub to_key_varuint32 : ℕ → S → Result S
  to_key_varuint32 obj s =
      let n = num_bytes obj in k.write (first_byte n obj ∷ []) s >>= low_bytes_to_key (n - 1) obj

  unfoldable pub text_to_key : Bytes → S → Result S
  text_to_key [] s = k.write (0 ∷ 0 ∷ []) s
  text_to_key (ch ∷ obj) s = k.write (ch ∷ []) s >>= λ s'.
      (if ch == 0 then k.write (1 ∷ []) s' else ok s') >>= text_to_key obj

  -- `to_key_optional` of one byte, which is the buffer that its key was written to.
  unfoldable pub byte_to_key_optional : Option ℕ → S → Result S
  byte_to_key_optional none s = k.write (0 ∷ 0 ∷ []) s
  byte_to_key_optional (some c) s =
      k.write (c ∷ []) s >>= λ s'. (if c == 0 then k.write (1 ∷ []) s' else ok s')

  unfoldable pub other_to_key_optional {ℓ} :
      {A : Type ℓ} → (A → S → Result S) → Option A → S → Result S
  other_to_key_optional f none s = k.write (0 ∷ []) s
  other_to_key_optional f (some v) s = k.write (1 ∷ []) s >>= f v

  -- Types of one byte, and larger ones with their `to_key`. The overload for `const bool*` has a template
  -- parameter that no argument determines, so a bool is taken by that for `const T*`.
  unfoldable pub to_key_optional :
      (t : KeyTy) → (El t → S → Result S) → Option (El t) → S → Result S
  to_key_optional flag f none s = byte_to_key_optional none s
  to_key_optional flag f (some v) s = byte_to_key_optional (some (if v then 1 else 0)) s
  to_key_optional (byte signed) f none s = byte_to_key_optional none s
  to_key_optional (byte signed) f (some v) s = byte_to_key_optional (some (biased signed 1 v)) s
  to_key_optional t f o s = other_to_key_optional f o s

  unfoldable mutual
    pub to_key : (t : KeyTy) → El t → S → Result S
    to_key flag v s = k.write ((if v then 1 else 0) ∷ []) s
    to_key (byte signed) v s = k.write (reverse (le_bytes 1 (biased signed 1 v))) s
    to_key (integer signed n) v s = k.write (reverse (le_bytes n (biased signed n v))) s
    to_key (float double) v s =
        let n = float_width double in k.write (reverse (le_bytes n (float_to_key n v))) s
    to_key text v s = text_to_key v s
    to_key (vec t) v s =
        each (λ x. to_key_optional t (to_key t) (some x)) v s >>= to_key_optional t (to_key t) none
    to_key (opt t) v s = to_key_optional t (to_key t) v s
    to_key (arr count t) v s = each (to_key t) v s
    to_key (tuple ts) v s = to_key_tuple ts v s
    to_key (variant ts) v s = to_key_varuint32 (index ts v) s >>= visit ts v

    -- `to_key_tuple<0>`, and `reflect<T>::for_each` over the data members of a struct.
    pub to_key_tuple : (ts : KeyTys) → Els ts → S → Result S
    to_key_tuple nil v s = ok s
    to_key_tuple (cons t ts) v s = to_key t v.0 s >>= to_key_tuple ts v.1

    -- `std::visit` of the alternative that the variant holds.
    pub visit : (ts : KeyTys) → Alt ts → S → Result S
    visit nil v s = absurd v
    visit (cons t ts) (inl v) s = to_key t v s
    visit (cons t ts) (inr v) s = visit ts v s
