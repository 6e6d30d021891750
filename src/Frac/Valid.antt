-- ===== src/Frac/Valid.antt =====
-- The types that the format serves, and the values that fit it.
use clarion.Prelude.{
  ℕ, ◌*◌, ◌^◌, ◌<◌, ◌≡◌, refl, List, [], ◌∷◌, length, All, Bool, true, false, Option, none, some,
  ◌⊎◌, inl, inr, arith, length-append,
}
use clarion.Stream.Memory.{length-le_bytes}
use clarion.Frac.Types.{
  FracTy, FracTys, El, Els, Alt, index, can_memcpy, all_memcpy, may_use_heap, width, widths,
}
use clarion.Frac.Types.{scalar, text, vec, opt, variant, strct, nil, cons}
use clarion.Frac.Write.{object_bytes, members_bytes, array_bytes}

abbrev pub is_optional : FracTy → Bool
is_optional (opt t) = true
is_optional (scalar n) = false
is_optional text = false
is_optional (vec t) = false
is_optional (variant ts) = false
is_optional (strct final dense ts) = false

-- Packed without offsets that are counted from the start of the stream.
abbrev pub is_in_place : FracTy → Bool
is_in_place (scalar n) = true
is_in_place text = true
is_in_place (vec t) = can_memcpy t
is_in_place (opt t) = false
is_in_place (variant ts) = true
is_in_place (strct final dense ts) = can_memcpy (strct final dense ts)

abbrev pub HasFirst : FracTys → Type 0
HasFirst nil = ⊥
HasFirst (cons t ts) = Unit {0}

-- Nothing is empty in memory; no optional in an optional; alternatives, one at least, without
-- offsets; structs that are copied or go to the heap.
abbrev mutual
  pub WellFormed : FracTy → Type 0
  WellFormed (scalar n) = 0 < n
  WellFormed text = Unit {0}
  WellFormed (vec t) = WellFormed t × (0 < width t) × (width t < 2 ^ 16)
  WellFormed (opt t) = WellFormed t × (is_optional t ≡ false)
  WellFormed (variant ts) = HasFirst ts × AltsWellFormed ts
  WellFormed (strct final dense ts) =
      AllWellFormed ts
      × (widths ts < 2 ^ 16)
      × ((can_memcpy (strct final dense ts) ≡ true) × (0 < widths ts)
          ⊎ (may_use_heap (strct final dense ts) ≡ true))

  pub AllWellFormed : FracTys → Type 0
  AllWellFormed nil = Unit {0}
  AllWellFormed (cons t ts) = WellFormed t × AllWellFormed ts

  pub AltsWellFormed : FracTys → Type 0
  AltsWellFormed nil = Unit {0}
  AltsWellFormed (cons t ts) = WellFormed t × (is_in_place t ≡ true) × AltsWellFormed ts

abbrev pub AllOption {ℓ} : {A : Type ℓ} → (A → Type 0) → Option A → Type 0
AllOption P none = Unit {0}
AllOption P (some v) = P v

-- A scalar fits its bytes, and an index its byte.
abbrev mutual
  pub IsValid : (t : FracTy) → El t → Type 0
  IsValid (scalar n) v = v < 256 ^ n
  IsValid text v = Unit {0}
  IsValid (vec t) v = All (IsValid t) v
  IsValid (opt t) v = AllOption (IsValid t) v
  IsValid (variant ts) v = (index ts v < 256) × AltIsValid ts v
  IsValid (strct final dense ts) v = AreValid ts v

  pub AreValid : (ts : FracTys) → Els ts → Type 0
  AreValid nil v = Unit {0}
  AreValid (cons t ts) v = IsValid t v.0 × AreValid ts v.1

  pub AltIsValid : (ts : FracTys) → Alt ts → Type 0
  AltIsValid nil v = ⊥
  AltIsValid (cons t ts) (inl v) = IsValid t v
  AltIsValid (cons t ts) (inr v) = AltIsValid ts v

pub memcpy_no_heap : (t : FracTy) → can_memcpy t ≡ true → may_use_heap t ≡ false
unfolding can_memcpy may_use_heap
memcpy_no_heap (scalar n) e = refl
memcpy_no_heap text e = cc
memcpy_no_heap (vec t) e = cc
memcpy_no_heap (opt t) e = cc
memcpy_no_heap (variant ts) e = cc
memcpy_no_heap (strct final dense ts) e = ground arith

mutual
  unfolding can_memcpy object_bytes members_bytes width

  length-object_bytes :
      (t : FracTy) (v : El t) → can_memcpy t ≡ true → length (object_bytes t v) ≡ width t
  length-object_bytes (scalar n) v e = length-le_bytes n v
  length-object_bytes text v e = cc
  length-object_bytes (vec t) v e = cc
  length-object_bytes (opt t) v e = cc
  length-object_bytes (variant ts) v e = cc
  length-object_bytes (strct final dense ts) v e = length-members_bytes ts v (ground arith)

  length-members_bytes :
      (ts : FracTys) (v : Els ts) → all_memcpy ts ≡ true → length (members_bytes ts v) ≡ widths ts
  length-members_bytes nil v e = refl
  length-members_bytes (cons t ts) v e =
      let here : can_memcpy t ≡ true = ground arith in
      let there : all_memcpy ts ≡ true = ground arith in
      rw (memcpy_no_heap t here) (
        omega (
          arith,
          length-append (object_bytes t v.0) (members_bytes ts v.1),
          length-object_bytes t v.0 here,
          length-members_bytes ts v.1 there,
        ))

pub length-object :
    (t : FracTy) (v : El t) → can_memcpy t ≡ true → length (object_bytes t v) ≡ width t
length-object t v e = length-object_bytes t v e

pub length-members :
    (ts : FracTys) (v : Els ts) → all_memcpy ts ≡ true → length (members_bytes ts v) ≡ widths ts
length-members ts v e = length-members_bytes ts v e

pub length-array_bytes {ℓ} :
    {A : Type ℓ} (f : A → List ℕ) (n : ℕ) (v : List A)
    → ((x : A) → length (f x) ≡ n)
    → length (array_bytes f v) ≡ length v * n
unfolding array_bytes
length-array_bytes f n [] h = omega arith
length-array_bytes f n (x ∷ v) h =
    omega (arith, length-append (f x) (array_bytes f v), h x, length-array_bytes f n v h)
