-- ===== src/Frac/Slots.antt =====
-- The parts of a value take the bytes that its type says.
use clarion.Prelude.{
  ◌*◌, ◌^◌, ◌<◌, ◌≡◌, refl, ◌∙◌, List, [], ◌∷◌, length, Bool, true, false, none, some, inl, inr,
  if◌then◌else◌, arith, Bool-cases,
}
use clarion.Stream.Memory.{length-le_bytes}
use clarion.Frac.Types.{
  FracTy, FracTys, El, Els, can_memcpy, all_memcpy, may_use_heap, width, widths,
  fracpack_fixed_size,
}
use clarion.Frac.Types.{scalar, text, vec, opt, variant, strct, nil, cons}
use clarion.Frac.Write.{is_container}
use clarion.Frac.Encode.{slot, slots, items, part, parts}
use clarion.Frac.Valid.{WellFormed, AllWellFormed, length-members}

pub memcpy_or_heap : (t : FracTy) → WellFormed t → can_memcpy t ≡ false → may_use_heap t ≡ true
unfolding can_memcpy may_use_heap
memcpy_or_heap (scalar n) w e = cc
memcpy_or_heap text w e = refl
memcpy_or_heap (vec t) w e = refl
memcpy_or_heap (opt t) w e = refl
memcpy_or_heap (variant ts) w e = refl
memcpy_or_heap (strct final dense ts) w e = elim w.2 [ inl copied ↦ cc | inr h ↦ h ]

slot-container : (t : FracTy) (v : El t) → is_container t ≡ true → slot (part t v) ≡ 4
unfolding is_container part
slot-container (scalar n) v e = cc
slot-container text [] e = refl
slot-container text (c ∷ v) e = refl
slot-container (vec t) [] e = refl
slot-container (vec t) (x ∷ v) e = refl
slot-container (opt t) v e = cc
slot-container (variant ts) v e = cc
slot-container (strct final dense ts) v e = cc

pub all_copied :
    (final dense : Bool) (ts : FracTys)
    → can_memcpy (strct final dense ts) ≡ true
    → all_memcpy ts ≡ true
unfolding can_memcpy
all_copied final dense ts e = ground arith

slot-strct :
    (final dense : Bool) (ts : FracTys) (v : Els ts)
    → WellFormed (strct final dense ts)
    → slot (part (strct final dense ts) v)
      ≡ (if may_use_heap (strct final dense ts) then 4 else widths ts)
unfolding part
slot-strct final dense ts v w = elim (Bool-cases (may_use_heap (strct final dense ts))) [
  | inl h ↦ rw h
  | inr h ↦
      let copied : can_memcpy (strct final dense ts) ≡ true = elim w.2 [
        | inl c ↦ c.0
        | inr h' ↦ cc
      ] in
      rw (h, copied) (length-members ts v (all_copied final dense ts copied))
]

pub slot-part :
    (t : FracTy) (v : El t)
    → WellFormed t
    → slot (part t v) ≡ (if may_use_heap t then 4 else width t)
unfolding part may_use_heap width
slot-part (scalar n) v w = length-le_bytes n v
slot-part text [] w = refl
slot-part text (c ∷ v) w = refl
slot-part (vec t) [] w = refl
slot-part (vec t) (x ∷ v) w = refl
slot-part (opt t) none w = refl
slot-part (opt t) (some v) w = elim (Bool-cases (is_container t)) [
  | inl e ↦ rw e (slot-container t v e)
  | inr e ↦ rw e
]
slot-part (variant ts) v w = refl
slot-part (strct final dense ts) v w = slot-strct final dense ts v w

pub slots-parts : (ts : FracTys) (v : Els ts) → AllWellFormed ts → slots (parts ts v) ≡ widths ts
unfolding parts width
slots-parts nil v w = refl
slots-parts (cons t ts) v w = omega (arith, slot-part t v.0 w.0, slots-parts ts v.1 w.1)

pub slots-items :
    (t : FracTy) (v : List (El t))
    → WellFormed t
    → may_use_heap t ≡ true
    → slots (items (part t) v) ≡ length v * 4
unfolding items
slots-items t [] w h = omega arith
slots-items t (x ∷ v) w h =
    let e : slot (part t x) ≡ 4 = slot-part t x w ∙ rw h in omega (arith, e, slots-items t v w h)

pub fixed_size : (t : FracTy) → width t < 2 ^ 16 → fracpack_fixed_size t ≡ width t
unfolding fracpack_fixed_size
fixed_size t h = omega arith

pub strct_size :
    (final dense : Bool) (ts : FracTys)
    → widths ts < 2 ^ 16
    → fracpack_fixed_size (strct final dense ts) ≡ widths ts
unfolding fracpack_fixed_size width
strct_size final dense ts h = omega arith
