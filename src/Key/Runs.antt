-- ===== src/Key/Runs.antt =====
-- Concrete keys, and the theorems at a struct of a string, an optional byte and a variant.
use Prim.Native.Nat.{Ordering}
use clarion.Prelude.{
  ◌≡◌, refl, sym, ap, ◌∙◌, append-nil, [], ◌∷◌, ◌++◌, true, false, none, some, inl, inr, arith,
}
use clarion.Stream.{ok, Bytes}
use clarion.Stream.Vector
use clarion.Key.Types.{KeyTy, El, IsValid, also, compare_values, compare_bytes}
use clarion.Key.Types.{flag, byte, integer, float, text, vec, opt, tuple, variant, nil, cons}
use clarion.Key.Write.{to_key}
use clarion.Key.Encode.{key, range_key, option_key, other_key, byte_key, joined, to_key-key}
use clarion.Key.Convert.{
  convert_to_key, convert_to_key-key, convert_to_key_order, convert_to_key_prefix,
}

abbrev entry : KeyTy
entry = tuple (
    cons text (cons (opt (byte true)) (cons (variant (cons flag (cons (integer true 2) nil))) nil)))

-- ("a\\0", -1, int16_t(-2)) and ("a\\0", none, true)
abbrev first : El entry
first = (b'a' ∷ 0 ∷ [], (some 0xff, (inr (inl 0xfffe), tt)))

abbrev second : El entry
second = (b'a' ∷ 0 ∷ [], (none, (inl true, tt)))

first-IsValid : IsValid entry first
first-IsValid = (tt, (omega arith, ((omega arith, (omega arith, omega arith)), tt)))

second-IsValid : IsValid entry second
second-IsValid = (tt, (tt, ((omega arith, tt), tt)))

-- The one that has a value comes later.
compared : compare_values entry first second ≡ Ordering.gt
compared = refl

-- 1.0f and a NaN, which C++ does not order.
nan_last : compare_values (float false) 0x3f800000 0x7fc00000 ≡ Ordering.lt
nan_last = refl

to_key-key_example :
    to_key Vector.sink entry first (7 ∷ []) ≡ Vector.write (key entry first) (7 ∷ [])
to_key-key_example = to_key-key Vector.sink entry first (7 ∷ [])

convert_to_key-key_example : convert_to_key entry first (7 ∷ []) ≡ ok ((7 ∷ []) ++ key entry first)
convert_to_key-key_example = convert_to_key-key entry first (7 ∷ [])

convert_to_key_order_example :
    (a : Bytes) × (b : Bytes) × (convert_to_key entry first [] ≡ ok a)
    × (convert_to_key entry second [] ≡ ok b)
    × (compare_bytes a b ≡ Ordering.gt)
    × (compare_bytes (a ++ 3 ∷ []) (b ++ []) ≡ also Ordering.gt Ordering.gt)
convert_to_key_order_example =
    convert_to_key_order entry first second (3 ∷ []) [] first-IsValid second-IsValid

-- A string with a zero byte in it, and an absent string.
words : key (vec text) ((b'a' ∷ 0 ∷ []) ∷ [] ∷ []) ≡ 1 ∷ b'a' ∷ 0 ∷ 1 ∷ 0 ∷ 0 ∷ 1 ∷ 0 ∷ 0 ∷ 0 ∷ []
unfolding key range_key option_key other_key byte_key joined
words = refl

abbrev nothing : Bytes
nothing = []

convert_to_key_prefix_example :
    (compare_values text (b'a' ∷ []) (b'a' ∷ []) ≡ Ordering.eq) × (nothing ≡ [])
convert_to_key_prefix_example =
    convert_to_key_prefix text (b'a' ∷ []) (b'a' ∷ []) (key text (b'a' ∷ [])) nothing tt tt
      (convert_to_key-key text (b'a' ∷ []) [])
      (convert_to_key-key text (b'a' ∷ []) [] ∙ ap ok (sym (append-nil (key text (b'a' ∷ [])))))
