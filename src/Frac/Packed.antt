-- ===== src/Frac/Packed.antt =====
-- `fracpack` writes the packed form, into its place and nowhere else.
use clarion.Prelude.{
  ℕ, ◌*◌, ◌^◌, ◌<◌, ◌≡◌, sym, ◌∙◌, List, [], ◌∷◌, length, All, Bool, true, false, none, some, inl,
  inr, if◌then◌else◌, Bool-cases,
}
use clarion.Stream.{ok}
use clarion.Stream.Memory.{le_bytes, length-le_bytes}
use clarion.Frac.Types.{
  FracTy, FracTys, El, Els, Alt, index, can_memcpy, may_use_heap, is_ext_structure,
  fracpack_fixed_size,
}
use clarion.Frac.Types.{scalar, text, vec, opt, variant, strct, nil, cons}
use clarion.Frac.Memory.{Out}
use clarion.Frac.Write.{
  Packed, pack_object, object_bytes, members_bytes, array_bytes, is_container, pack_on_heap,
  pack_inline, pack_items, pack_vec, pack_members_of, fracpack, fracpack_member, fracpack_members,
  visit,
}
use clarion.Frac.Encode.{Part, slots, header, items, pack, part, parts, pack_alt}
use clarion.Frac.Place.{
  Fits, Filled, Writes, Fills, Places, PlacesAll, Writes-Fills, pack_inline-Places,
  pack_mark-Places, pack_on_heap-Places, none-PlacesAll, next-PlacesAll,
}
use clarion.Frac.Pieces.{
  pack_object-Writes, pack_sized-Writes, pack_variant-Writes, pack_offsets-Fills, pack_struct-Fills,
}
use clarion.Frac.Valid.{
  WellFormed, AllWellFormed, AltsWellFormed, IsValid, AreValid, AltIsValid, is_optional,
  is_in_place, length-object, length-members, length-array_bytes,
}
use clarion.Frac.Slots.{
  memcpy_or_heap, all_copied, strct_size, slots-parts, slots-items, fixed_size,
}

copied_vec-Writes :
    (t : FracTy) (v : List (El t)) (m : El t → ℕ → Out → Packed)
    → WellFormed (vec t)
    → can_memcpy t ≡ true
    → Writes (pack_vec (can_memcpy t) (fracpack_fixed_size t) (object_bytes t) m v) (pack (vec t) v)
unfolding pack_vec pack
copied_vec-Writes t v m w e =
    let fix = fixed_size t w.2 in
    let len : length (array_bytes (object_bytes t) v) ≡ length v * fracpack_fixed_size t =
      length-array_bytes (object_bytes t) (fracpack_fixed_size t) v
        (λ x. length-object t x e ∙ sym fix) in
    rw (e, ← len) (pack_sized-Writes (array_bytes (object_bytes t) v))

offsets_vec-Fills :
    (t : FracTy) (v : List (El t)) (m : El t → ℕ → Out → Packed)
    → WellFormed (vec t)
    → can_memcpy t ≡ false
    → PlacesAll (pack_items m v) (items (part t) v)
    → Fills (pack_vec (can_memcpy t) (fracpack_fixed_size t) (object_bytes t) m v) (pack (vec t) v)
unfolding pack_vec pack
offsets_vec-Fills t v m w e places = rw e (
    pack_offsets-Fills m v (items (part t) v) places (slots-items t v w.0 (memcpy_or_heap t w.0 e)))

vec-Fills :
    (t : FracTy) (v : List (El t)) (m : El t → ℕ → Out → Packed)
    → WellFormed (vec t)
    → PlacesAll (pack_items m v) (items (part t) v)
    → Fills (pack_vec (can_memcpy t) (fracpack_fixed_size t) (object_bytes t) m v) (pack (vec t) v)
vec-Fills t v m w places = elim (Bool-cases (can_memcpy t)) [
  | inl e ↦ Writes-Fills _ (pack (vec t) v) (copied_vec-Writes t v m w e)
  | inr e ↦ offsets_vec-Fills t v m w e places
]

copied_strct-Writes :
    (final dense : Bool) (ts : FracTys) (v : Els ts) (m : ℕ → Out → Packed)
    → WellFormed (strct final dense ts)
    → can_memcpy (strct final dense ts) ≡ true
    → Writes
        (pack_members_of (strct final dense ts) (members_bytes ts v) m)
        (pack (strct final dense ts) v)
unfolding pack_members_of pack
copied_strct-Writes final dense ts v m w e =
    let len : length (members_bytes ts v) ≡ fracpack_fixed_size (strct final dense ts) =
      length-members ts v (all_copied final dense ts e) ∙ sym (strct_size final dense ts w.1) in
    rw e (pack_object-Writes _ (members_bytes ts v) len)

heap_strct-Fills :
    (final dense : Bool) (ts : FracTys) (v : Els ts) (m : ℕ → Out → Packed)
    → WellFormed (strct final dense ts)
    → can_memcpy (strct final dense ts) ≡ false
    → PlacesAll m (parts ts v)
    → Fills
        (pack_members_of (strct final dense ts) (members_bytes ts v) m)
        (pack (strct final dense ts) v)
unfolding pack_members_of pack header
heap_strct-Fills final dense ts v m w e places =
    let size : slots (parts ts v) ≡ fracpack_fixed_size (strct final dense ts) =
      slots-parts ts v w.0 ∙ sym (strct_size final dense ts w.1) in
    rw e (pack_struct-Fills (is_ext_structure (strct final dense ts)) _ m (parts ts v) places size)

strct-Fills :
    (final dense : Bool) (ts : FracTys) (v : Els ts) (m : ℕ → Out → Packed)
    → WellFormed (strct final dense ts)
    → PlacesAll m (parts ts v)
    → Fills
        (pack_members_of (strct final dense ts) (members_bytes ts v) m)
        (pack (strct final dense ts) v)
strct-Fills final dense ts v m w places = elim (Bool-cases (can_memcpy (strct final dense ts))) [
  | inl e ↦ Writes-Fills _ _ (copied_strct-Writes final dense ts v m w e)
  | inr e ↦ heap_strct-Fills final dense ts v m w e places
]

strct-Places :
    (final dense : Bool) (ts : FracTys) (v : Els ts) (m : ℕ → Out → Packed)
    → WellFormed (strct final dense ts)
    → PlacesAll m (parts ts v)
    → Places
        (λ h o.
          if may_use_heap (strct final dense ts)
          then pack_on_heap (pack_members_of (strct final dense ts) (members_bytes ts v) m) h o
          else pack_inline (pack_members_of (strct final dense ts) (members_bytes ts v) m) h o)
        (part (strct final dense ts) v)
unfolding part pack
strct-Places final dense ts v m w places = elim (Bool-cases (may_use_heap (strct final dense ts))) [
  | inl h ↦ rw h (pack_on_heap-Places _ _ (strct-Fills final dense ts v m w places))
  | inr h ↦
      let copied : can_memcpy (strct final dense ts) ≡ true = elim w.2 [
        | inl c ↦ c.0
        | inr h' ↦ cc
      ] in
      rw h (pack_inline-Places _ _ (copied_strct-Writes final dense ts v m w copied))
]

scalar-Writes : (n v : ℕ) → Writes (pack_object n (le_bytes n v)) (le_bytes n v)
scalar-Writes n v = pack_object-Writes n (le_bytes n v) (length-le_bytes n v)

items-PlacesAll {ℓ} :
    {A : Type ℓ} (P : A → Type 0) (m : A → ℕ → Out → Packed) (q : A → Part)
    → ((x : A) → P x → Places (m x) (q x))
    → (v : List A) → All P v
    → PlacesAll (pack_items m v) (items q v)
unfolding pack_items items
items-PlacesAll P m q h [] p = none-PlacesAll
items-PlacesAll P m q h (x ∷ v) p =
    next-PlacesAll (m x) (pack_items m v) (q x) (items q v) (h x p.0)
      (items-PlacesAll P m q h v p.1)

mutual
  unfolding fracpack fracpack_member fracpack_members visit pack part parts pack_alt

  fracpack_lem :
      (t : FracTy) (v : El t)
      → WellFormed t
      → is_optional t ≡ false
      → IsValid t v
      → Fills (fracpack t v) (pack t v)
  fracpack_lem (scalar n) v w o p = Writes-Fills _ _ (scalar-Writes n v)
  fracpack_lem text v w o p = Writes-Fills _ _ (pack_sized-Writes v)
  fracpack_lem (vec t) v w o p =
      vec-Fills t v (fracpack_member t) w (
        items-PlacesAll (IsValid t) (fracpack_member t) (part t) (λ x px. member_lem t x w.0 px) v
          p)
  fracpack_lem (opt t) v w o p = cc
  fracpack_lem (variant ts) v w o p =
      Writes-Fills _ _
        (pack_variant-Writes (index ts v) (visit ts v) (pack_alt ts v) p.0 (visit_lem ts v w.1 p.1))
  fracpack_lem (strct final dense ts) v w o p =
      strct-Fills final dense ts v (fracpack_members ts v) w (members_lem ts v w.0 p)

  in_place_lem :
      (t : FracTy) (v : El t)
      → WellFormed t
      → is_in_place t ≡ true
      → IsValid t v
      → Writes (fracpack t v) (pack t v)
  in_place_lem (scalar n) v w e p = scalar-Writes n v
  in_place_lem text v w e p = pack_sized-Writes v
  in_place_lem (vec t) v w e p = copied_vec-Writes t v (fracpack_member t) w e
  in_place_lem (opt t) v w e p = cc
  in_place_lem (variant ts) v w e p =
      pack_variant-Writes (index ts v) (visit ts v) (pack_alt ts v) p.0 (visit_lem ts v w.1 p.1)
  in_place_lem (strct final dense ts) v w e p =
      copied_strct-Writes final dense ts v (fracpack_members ts v) w e

  member_lem :
      (t : FracTy) (v : El t) → WellFormed t → IsValid t v → Places (fracpack_member t v) (part t v)
  member_lem (scalar n) v w p = pack_inline-Places _ _ (scalar-Writes n v)
  member_lem text [] w p = pack_mark-Places 0
  member_lem text (c ∷ v) w p =
      pack_on_heap-Places _ _ (Writes-Fills _ _ (pack_sized-Writes (c ∷ v)))
  member_lem (vec t) [] w p = pack_mark-Places 0
  member_lem (vec t) (x ∷ v) w p = pack_on_heap-Places _ _ (
      vec-Fills t (x ∷ v) (fracpack_member t) w (
        items-PlacesAll (IsValid t) (fracpack_member t) (part t) (λ y py. member_lem t y w.0 py)
          (x ∷ v) p))
  member_lem (opt t) none w p = pack_mark-Places 1
  member_lem (opt t) (some v) w p = elim (Bool-cases (is_container t)) [
    | inl e ↦ rw e (member_lem t v w.0 p)
    | inr e ↦ rw e (pack_on_heap-Places _ _ (fracpack_lem t v w.0 w.1 p))
  ]
  member_lem (variant ts) v w p = pack_on_heap-Places _ _ (
      Writes-Fills _ _ (
        pack_variant-Writes (index ts v) (visit ts v) (pack_alt ts v) p.0 (visit_lem ts v w.1 p.1)))
  member_lem (strct final dense ts) v w p =
      strct-Places final dense ts v (fracpack_members ts v) w (members_lem ts v w.0 p)

  members_lem :
      (ts : FracTys) (v : Els ts)
      → AllWellFormed ts
      → AreValid ts v
      → PlacesAll (fracpack_members ts v) (parts ts v)
  members_lem nil v w p = none-PlacesAll
  members_lem (cons t ts) v w p =
      next-PlacesAll (fracpack_member t v.0) (fracpack_members ts v.1) (part t v.0) (parts ts v.1)
        (member_lem t v.0 w.0 p.0) (members_lem ts v.1 w.1 p.1)

  visit_lem :
      (ts : FracTys) (v : Alt ts)
      → AltsWellFormed ts
      → AltIsValid ts v
      → Writes (visit ts v) (pack_alt ts v)
  visit_lem nil v w p = absurd p
  visit_lem (cons t ts) (inl v) w p = in_place_lem t v w.0 w.1 p
  visit_lem (cons t ts) (inr v) w p = visit_lem ts v w.2 p

-- A valid value of a well-formed type that is no optional, whose packed form is shorter than 2^16 bytes, into
-- a stream that has just been opened and has room for that form: `fracpack` returns the length of the packed
-- form, leaves the form at the start of the stream, and changes no other byte of the memory and not its size.
pub fracpack-pack :
    (t : FracTy) (v : El t) (o : Out)
    → WellFormed t
    → is_optional t ≡ false
    → IsValid t v
    → length (pack t v) < 2 ^ 16
    → Fits o (length (pack t v))
    → o.begin ≡ o.pos
    → (o' : Out) × (fracpack t v o ≡ ok (length (pack t v), o')) × Filled o o' (pack t v)
fracpack-pack t v o w n p l fits start = fracpack_lem t v w n p o fits start l
