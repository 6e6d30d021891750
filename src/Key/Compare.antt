-- ===== src/Key/Compare.antt =====
-- Keys compare as the values do.
use Prim.Native.Nat.{compare, Ordering}
use mathlib.Core.List.{reverse}
use clarion.Prelude.{
  ℕ, zero, suc, ◌^◌, ◌<◌, ◌≡◌, refl, sym, ◌∙◌, List, [], ◌∷◌, ◌++◌, Bool, true, false, Option, none,
  some, inl, inr, ◌⊎◌, All, arith,
}
use clarion.Stream.{Bytes}
use clarion.Stream.Memory.{le_bytes}
use clarion.Key.Types.{
  KeyTy, KeyTys, El, Els, Alt, index, IsValid, AreValid, AltIsValid, AllOption, compare_values,
  compare_tuples, compare_alts, compare_int, compare_option, compare_bool,
}
use clarion.Key.Types.{flag, byte, integer, float, text, vec, opt, arr, tuple, variant, nil, cons}
use clarion.Key.Order.{Compares, Compares-append, Compares-byte, Compares-lt, Compares-gt}
use clarion.Key.Write.{biased}
use clarion.Key.Encode.{key, tuple_key, alt_key, option_key, byte_key, varuint_key}
use clarion.Key.Numbers.{big_endian-Compares, biased-lt, compare-biased}
use clarion.Key.Floats.{float-Compares}
use clarion.Key.Parts.{varuint_key-Compares}
use clarion.Key.Ranges.{byte_key-Compares, other_key-Compares, joined-Compares, range_key-Compares}

All-any {ℓ} : {A : Type ℓ} (xs : List A) → All (λ x. Unit {0}) xs
All-any [] = tt
All-any (x ∷ xs) = (tt, All-any xs)

integer-Compares :
    (signed : Bool) (n v w : ℕ)
    → v < 256 ^ suc n
    → w < 256 ^ suc n
    → Compares
        (reverse (le_bytes (suc n) (biased signed (suc n) v)))
        (reverse (le_bytes (suc n) (biased signed (suc n) w)))
        (compare_int signed (suc n) v w)
integer-Compares signed n v w hv hw =
    rw (← compare-biased signed n v w hv hw)
      (big_endian-Compares (suc n) _ _ (biased-lt signed n v hv) (biased-lt signed n w hw))

byte-Compares :
    (signed : Bool) (o o' : Option ℕ) (f : ℕ → Bytes)
    → AllOption (λ v. v < 256) o
    → AllOption (λ v. v < 256) o'
    → Compares
        (option_key (byte signed) f o)
        (option_key (byte signed) f o')
        (compare_option (compare_int signed 1) o o')
unfolding option_key
byte-Compares signed none none f p q = byte_key-Compares none none
byte-Compares signed none (some w) f p q = byte_key-Compares none (some (biased signed 1 w))
byte-Compares signed (some v) none f p q = byte_key-Compares (some (biased signed 1 v)) none
byte-Compares signed (some v) (some w) f p q =
    rw (← compare-biased signed 0 v w p q)
      (byte_key-Compares (some (biased signed 1 v)) (some (biased signed 1 w)))

flag-Compares :
    (o o' : Option Bool) (f : Bool → Bytes)
    → Compares (option_key flag f o) (option_key flag f o') (compare_option compare_bool o o')
unfolding option_key
flag-Compares none none f = byte_key-Compares none none
flag-Compares none (some false) f = byte_key-Compares none (some 0)
flag-Compares none (some true) f = byte_key-Compares none (some 1)
flag-Compares (some false) none f = byte_key-Compares (some 0) none
flag-Compares (some true) none f = byte_key-Compares (some 1) none
flag-Compares (some false) (some false) f = byte_key-Compares (some 0) (some 0)
flag-Compares (some false) (some true) f = byte_key-Compares (some 0) (some 1)
flag-Compares (some true) (some false) f = byte_key-Compares (some 1) (some 0)
flag-Compares (some true) (some true) f = byte_key-Compares (some 1) (some 1)

option_key-Compares :
    (t : KeyTy) (f : El t → Bytes)
    → ((v w : El t) → IsValid t v → IsValid t w → Compares (f v) (f w) (compare_values t v w))
    → (o o' : Option (El t)) → AllOption (IsValid t) o
    → AllOption (IsValid t) o'
    → Compares (option_key t f o) (option_key t f o') (compare_option (compare_values t) o o')
unfolding option_key
option_key-Compares flag f h o o' p q = flag-Compares o o' f
option_key-Compares (byte signed) f h o o' p q = byte-Compares signed o o' f p q
option_key-Compares (integer signed n) f h o o' p q = other_key-Compares _ _ f h o o' p q
option_key-Compares (float double) f h o o' p q = other_key-Compares _ _ f h o o' p q
option_key-Compares text f h o o' p q = other_key-Compares _ _ f h o o' p q
option_key-Compares (vec t) f h o o' p q = other_key-Compares _ _ f h o o' p q
option_key-Compares (opt t) f h o o' p q = other_key-Compares _ _ f h o o' p q
option_key-Compares (arr count t) f h o o' p q = other_key-Compares _ _ f h o o' p q
option_key-Compares (tuple ts) f h o o' p q = other_key-Compares _ _ f h o o' p q
option_key-Compares (variant ts) f h o o' p q = other_key-Compares _ _ f h o o' p q

-- An earlier alternative is smaller.
compare_alts-index :
    (ts : KeyTys) (v w : Alt ts)
    → (index ts v < index ts w → compare_alts ts v w ≡ Ordering.lt)
      × (index ts w < index ts v → compare_alts ts v w ≡ Ordering.gt)
compare_alts-index nil v w = absurd v
compare_alts-index (cons t ts) (inl v) (inl w) =
    (λ e. absurd (omega arith), λ e. absurd (omega arith))
compare_alts-index (cons t ts) (inl v) (inr w) = (λ e. refl, λ e. absurd (omega arith))
compare_alts-index (cons t ts) (inr v) (inl w) = (λ e. absurd (omega arith), λ e. refl)
compare_alts-index (cons t ts) (inr v) (inr w) =
    let (below, above) = compare_alts-index ts v w in
    (λ e. below (omega arith), λ e. above (omega arith))

order_of : (m n : ℕ) → (m < n) ⊎ ((m ≡ n) ⊎ (n < m))
order_of m n = ground arith

variant-Compares :
    (ts : KeyTys) (v w : Alt ts)
    → index ts v < 2 ^ 32
    → index ts w < 2 ^ 32
    → (index ts v ≡ index ts w → Compares (alt_key ts v) (alt_key ts w) (compare_alts ts v w))
    → Compares
        (varuint_key (index ts v) ++ alt_key ts v)
        (varuint_key (index ts w) ++ alt_key ts w)
        (compare_alts ts v w)
variant-Compares ts v w hv hw h =
    let first = varuint_key-Compares (index ts v) (index ts w) hv hw in
    let (below, above) = compare_alts-index ts v w in
    elim (order_of (index ts v) (index ts w)) [
      | inl l ↦
          let e : compare (index ts v) (index ts w) ≡ Ordering.lt = ground arith in
          rw (below l) (Compares-lt _ _ (alt_key ts v) (alt_key ts w) (rw (← e) first))
      | inr (inl same) ↦
          let e : compare (index ts v) (index ts w) ≡ Ordering.eq = ground arith in
          Compares-append _ _ (alt_key ts v) (alt_key ts w) Ordering.eq _ (rw (← e) first) (h same)
      | inr (inr g) ↦
          let e : compare (index ts v) (index ts w) ≡ Ordering.gt = ground arith in
          rw (above g) (Compares-gt _ _ (alt_key ts v) (alt_key ts w) (rw (← e) first))
    ]

mutual
  unfolding key

  key_lem :
      (t : KeyTy) (v w : El t)
      → IsValid t v
      → IsValid t w
      → Compares (key t v) (key t w) (compare_values t v w)
  key_lem flag false false p q = Compares-byte 0 0
  key_lem flag false true p q = Compares-byte 0 1
  key_lem flag true false p q = Compares-byte 1 0
  key_lem flag true true p q = Compares-byte 1 1
  key_lem (byte signed) v w p q = integer-Compares signed 0 v w p q
  key_lem (integer signed zero) v w p q = absurd (omega arith)
  key_lem (integer signed (suc n)) v w p q = integer-Compares signed n v w p.1 q.1
  key_lem (float double) v w p q = float-Compares double v w p q
  key_lem text v w p q =
      range_key-Compares (λ c. Unit {0}) compare byte_key (λ o o' _ _. byte_key-Compares o o') v w
        (All-any v) (All-any w)
  key_lem (vec t) v w p q =
      range_key-Compares (IsValid t) (compare_values t) (option_key t (key t))
        (option_key-Compares t (key t) (key_lem t)) v w p q
  key_lem (opt t) v w p q = option_key-Compares t (key t) (key_lem t) v w p q
  key_lem (arr count t) v w p q =
      joined-Compares (IsValid t) (compare_values t) (key t) (key_lem t) v w (p.0 ∙ sym q.0) p.1 q.1
  key_lem (tuple ts) v w p q = tuple_key_lem ts v w p q
  key_lem (variant ts) v w p q = variant-Compares ts v w p.0 q.0 (alt_key_lem ts v w p.1 q.1)

  tuple_key_lem :
      (ts : KeyTys) (v w : Els ts)
      → AreValid ts v
      → AreValid ts w
      → Compares (tuple_key ts v) (tuple_key ts w) (compare_tuples ts v w)
  tuple_key_lem nil v w p q = record { with_rest = λ r r'. refl }
  tuple_key_lem (cons t ts) v w p q =
      Compares-append _ _ _ _ _ _ (key_lem t v.0 w.0 p.0 q.0) (tuple_key_lem ts v.1 w.1 p.1 q.1)

  alt_key_lem :
      (ts : KeyTys) (v w : Alt ts)
      → AltIsValid ts v
      → AltIsValid ts w
      → index ts v ≡ index ts w
      → Compares (alt_key ts v) (alt_key ts w) (compare_alts ts v w)
  alt_key_lem nil v w p q e = absurd p
  alt_key_lem (cons t ts) (inl v) (inl w) p q e = key_lem t v w p q
  alt_key_lem (cons t ts) (inl v) (inr w) p q e = absurd (omega arith)
  alt_key_lem (cons t ts) (inr v) (inl w) p q e = absurd (omega arith)
  alt_key_lem (cons t ts) (inr v) (inr w) p q e = alt_key_lem ts v w p q (omega arith)

pub key-Compares :
    (t : KeyTy) (v w : El t)
    → IsValid t v
    → IsValid t w
    → Compares (key t v) (key t w) (compare_values t v w)
key-Compares t v w p q = key_lem t v w p q
