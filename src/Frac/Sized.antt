-- ===== src/Frac/Sized.antt =====
-- `fracpack_size` is the length of the packed form.
use clarion.Prelude.{
  ℕ, ◌+◌, ◌*◌, ◌%◌, ◌^◌, ◌<◌, ◌≡◌, refl, sym, ◌∙◌, List, [], ◌∷◌, ◌++◌, length, Bool, true, false,
  none, some, inl, inr, if◌then◌else◌, arith, length-append, Bool-cases,
}
use clarion.Stream.{Bytes}
use clarion.Stream.Memory.{le_bytes, length-le_bytes}
use clarion.Frac.Types.{
  FracTy, FracTys, El, Els, Alt, index, can_memcpy, may_use_heap, is_ext_structure,
  fracpack_fixed_size,
}
use clarion.Frac.Types.{scalar, text, vec, opt, variant, strct, nil, cons}
use clarion.Frac.Write.{object_bytes, array_bytes, is_container}
use clarion.Frac.Encode.{
  Part, heap, heap_of, slots, heaps, fixed, body, sized, header, items, pack, part, parts, pack_alt,
  length-fixed,
}
use clarion.Frac.Valid.{
  WellFormed, AllWellFormed, AltsWellFormed, is_optional, is_in_place, length-object,
  length-members, length-array_bytes,
}
use clarion.Frac.Slots.{
  memcpy_or_heap, all_copied, strct_size, slots-parts, slots-items, fixed_size,
}
use clarion.Frac.Size.{
  size_on_heap, size_sized, size_items, size_vec, size_strct, fracpack_size, member_size,
  members_size, alternative_size,
}

-- A size that is right if it fits a uint16_t.
abbrev Sizes : ℕ → Bytes → Type 0
Sizes n b = length b < 2 ^ 16 → n ≡ length b

abbrev SizesPart : (ℕ → ℕ) → Part → Type 0
SizesPart m q = (h : ℕ) → h + length (heap_of q) < 2 ^ 16 → m h ≡ h + length (heap_of q)

abbrev SizesAll : (ℕ → ℕ) → List Part → Type 0
SizesAll m qs = (h : ℕ) → h + length (heaps qs) < 2 ^ 16 → m h ≡ h + length (heaps qs)

length-sized : (n : ℕ) (b : Bytes) → length (sized n b) ≡ 4 + length b
unfolding sized
length-sized n b = omega (arith, length-append (le_bytes 4 n) b, length-le_bytes 4 n)

length-body : (qs : List Part) → length (body qs) ≡ slots qs + length (heaps qs)
length-body qs =
    omega (arith, length-append (fixed (slots qs) qs) (heaps qs), length-fixed (slots qs) qs)

stays-SizesPart : (q : Part) → length (heap_of q) ≡ 0 → SizesPart (λ h. h) q
stays-SizesPart q e h l = omega (arith, e)

size_on_heap-SizesPart : (n : ℕ) (b : Bytes) → Sizes n b → SizesPart (size_on_heap n) (heap b)
unfolding size_on_heap
size_on_heap-SizesPart n b e h l = let same = e (omega arith) in omega (arith, same)

none-SizesAll : SizesAll (λ h. h) []
none-SizesAll h l = omega arith

next-SizesAll :
    (m rest : ℕ → ℕ) (q : Part) (qs : List Part)
    → SizesPart m q
    → SizesAll rest qs
    → SizesAll (λ h. rest (m h)) (q ∷ qs)
next-SizesAll m rest q qs first others h l =
    let total = length-append (heap_of q) (heaps qs) in
    let here : m h ≡ h + length (heap_of q) = first h (omega (arith, total)) in
    let there = others (h + length (heap_of q)) (omega (arith, total)) in
    rw here (there ∙ omega (arith, total))

items-SizesAll {ℓ} :
    {A : Type ℓ} (m : A → ℕ → ℕ) (q : A → Part)
    → ((x : A) → SizesPart (m x) (q x))
    → (v : List A) → SizesAll (size_items m v) (items q v)
unfolding size_items items
items-SizesAll m q f [] = none-SizesAll
items-SizesAll m q f (x ∷ v) =
    next-SizesAll (m x) (size_items m v) (q x) (items q v) (f x) (items-SizesAll m q f v)

sized-Sizes : (b : Bytes) → Sizes (size_sized (length b % 2 ^ 32)) (sized (length b) b)
unfolding size_sized
sized-Sizes b l = omega (arith, length-sized (length b) b)

copied_vec-Sizes :
    (t : FracTy) (v : List (El t)) (m : El t → ℕ → ℕ)
    → WellFormed (vec t)
    → can_memcpy t ≡ true
    → Sizes (size_vec (can_memcpy t) (fracpack_fixed_size t) m v) (pack (vec t) v)
unfolding size_vec pack
copied_vec-Sizes t v m w e =
    let fix = fixed_size t w.2 in
    let len : length (array_bytes (object_bytes t) v) ≡ length v * fracpack_fixed_size t =
      length-array_bytes (object_bytes t) (fracpack_fixed_size t) v
        (λ x. length-object t x e ∙ sym fix) in
    rw (e, ← len) (sized-Sizes (array_bytes (object_bytes t) v))

offsets_size :
    (n : ℕ) (m : ℕ → ℕ) (qs : List Part)
    → slots qs ≡ n * 4
    → SizesAll m qs
    → Sizes (m ((n * 4 % 2 ^ 32 + 4) % 2 ^ 16)) (sized (n * 4) (body qs))
offsets_size n m qs e sizes l =
    let len = length-sized (n * 4) (body qs) in
    let len' = length-body qs in
    let start : (n * 4 % 2 ^ 32 + 4) % 2 ^ 16 ≡ n * 4 + 4 = omega (arith, len, len', e) in
    let total = sizes (n * 4 + 4) (omega (arith, len, len', e)) in
    rw start (total ∙ omega (arith, len, len', e))

vec-Sizes :
    (t : FracTy) (v : List (El t)) (m : El t → ℕ → ℕ)
    → WellFormed (vec t)
    → SizesAll (size_items m v) (items (part t) v)
    → Sizes (size_vec (can_memcpy t) (fracpack_fixed_size t) m v) (pack (vec t) v)
unfolding size_vec pack
vec-Sizes t v m w sizes = elim (Bool-cases (can_memcpy t)) [
  | inl e ↦ copied_vec-Sizes t v m w e
  | inr e ↦ rw e (
      offsets_size (length v) (size_items m v) (items (part t) v)
        (slots-items t v w.0 (memcpy_or_heap t w.0 e)) sizes)
]

struct_size :
    (ext : Bool) (n : ℕ) (m : ℕ → ℕ) (qs : List Part)
    → slots qs ≡ n
    → SizesAll m qs
    → Sizes
        (if ext then m ((n + 2) % 2 ^ 16) else m n)
        ((if ext then le_bytes 2 n else []) ++ body qs)
struct_size true n m qs e sizes l =
    let len = length-append (le_bytes 2 n) (body qs) in
    let two = length-le_bytes 2 n in
    let len' = length-body qs in
    let start : (n + 2) % 2 ^ 16 ≡ n + 2 = omega (arith, len, two, len', e) in
    let total = sizes (n + 2) (omega (arith, len, two, len', e)) in
    rw start (total ∙ omega (arith, len, two, len', e))
struct_size false n m qs e sizes l =
    let len' = length-body qs in sizes n (omega (arith, len', e)) ∙ omega (arith, len', e)

strct-Sizes :
    (final dense : Bool) (ts : FracTys) (v : Els ts) (m : ℕ → ℕ)
    → WellFormed (strct final dense ts)
    → SizesAll m (parts ts v)
    → Sizes (size_strct (strct final dense ts) m) (pack (strct final dense ts) v)
unfolding size_strct pack header
strct-Sizes final dense ts v m w sizes = elim (Bool-cases (can_memcpy (strct final dense ts))) [
  | inl e ↦
      rw e (λ l.
        strct_size final dense ts w.1 ∙ sym (length-members ts v (all_copied final dense ts e)))
  | inr e ↦ rw e (
      struct_size (is_ext_structure (strct final dense ts)) _ m (parts ts v)
        (slots-parts ts v w.0 ∙ sym (strct_size final dense ts w.1)) sizes)
]

strct-SizesPart :
    (final dense : Bool) (ts : FracTys) (v : Els ts) (m : ℕ → ℕ)
    → WellFormed (strct final dense ts)
    → SizesAll m (parts ts v)
    → SizesPart
        (λ h.
          if may_use_heap (strct final dense ts)
          then size_on_heap (size_strct (strct final dense ts) m) h
          else h)
        (part (strct final dense ts) v)
unfolding part pack
strct-SizesPart final dense ts v m w sizes =
    elim (Bool-cases (may_use_heap (strct final dense ts))) [
      | inl h ↦ rw h (size_on_heap-SizesPart _ _ (strct-Sizes final dense ts v m w sizes))
      | inr h ↦ rw h (λ n l. omega arith)
    ]

variant-Sizes : (n i : ℕ) (b : Bytes) → Sizes n b → Sizes ((1 + n) % 2 ^ 32) (i ∷ b)
variant-Sizes n i b e l = let same = e (omega arith) in omega (arith, same)

mutual
  unfolding fracpack_size member_size members_size alternative_size pack part parts pack_alt

  size_lem :
      (t : FracTy) (v : El t)
      → WellFormed t
      → is_optional t ≡ false
      → Sizes (fracpack_size t v) (pack t v)
  size_lem (scalar n) v w o = λ l. sym (length-le_bytes n v)
  size_lem text v w o = sized-Sizes v
  size_lem (vec t) v w o =
      vec-Sizes t v (member_size t) w
        (items-SizesAll (member_size t) (part t) (λ x. member_lem t x w.0) v)
  size_lem (opt t) v w o = cc
  size_lem (variant ts) v w o =
      variant-Sizes _ (index ts v) (pack_alt ts v) (alternative_lem ts v w.1)
  size_lem (strct final dense ts) v w o =
      strct-Sizes final dense ts v (members_size ts v) w (members_lem ts v w.0)

  in_place_lem :
      (t : FracTy) (v : El t)
      → WellFormed t
      → is_in_place t ≡ true
      → Sizes (fracpack_size t v) (pack t v)
  in_place_lem (scalar n) v w e = λ l. sym (length-le_bytes n v)
  in_place_lem text v w e = sized-Sizes v
  in_place_lem (vec t) v w e = copied_vec-Sizes t v (member_size t) w e
  in_place_lem (opt t) v w e = cc
  in_place_lem (variant ts) v w e =
      variant-Sizes _ (index ts v) (pack_alt ts v) (alternative_lem ts v w.1)
  in_place_lem (strct final dense ts) v w e =
      strct-Sizes final dense ts v (members_size ts v) w (members_lem ts v w.0)

  member_lem : (t : FracTy) (v : El t) → WellFormed t → SizesPart (member_size t v) (part t v)
  member_lem (scalar n) v w = stays-SizesPart (part (scalar n) v) refl
  member_lem text [] w = stays-SizesPart (part text []) refl
  member_lem text (c ∷ v) w = size_on_heap-SizesPart _ _ (sized-Sizes (c ∷ v))
  member_lem (vec t) [] w = stays-SizesPart (part (vec t) []) refl
  member_lem (vec t) (x ∷ v) w = size_on_heap-SizesPart _ _ (
      vec-Sizes t (x ∷ v) (member_size t) w
        (items-SizesAll (member_size t) (part t) (λ y. member_lem t y w.0) (x ∷ v)))
  member_lem (opt t) none w = stays-SizesPart (part (opt t) none) refl
  member_lem (opt t) (some v) w = elim (Bool-cases (is_container t)) [
    | inl e ↦ rw e (member_lem t v w.0)
    | inr e ↦ rw e (size_on_heap-SizesPart _ _ (size_lem t v w.0 w.1))
  ]
  member_lem (variant ts) v w =
      size_on_heap-SizesPart _ (index ts v ∷ pack_alt ts v)
        (variant-Sizes _ (index ts v) (pack_alt ts v) (alternative_lem ts v w.1))
  member_lem (strct final dense ts) v w =
      strct-SizesPart final dense ts v (members_size ts v) w (members_lem ts v w.0)

  members_lem :
      (ts : FracTys) (v : Els ts) → AllWellFormed ts → SizesAll (members_size ts v) (parts ts v)
  members_lem nil v w = none-SizesAll
  members_lem (cons t ts) v w =
      next-SizesAll (member_size t v.0) (members_size ts v.1) (part t v.0) (parts ts v.1)
        (member_lem t v.0 w.0) (members_lem ts v.1 w.1)

  alternative_lem :
      (ts : FracTys) (v : Alt ts)
      → AltsWellFormed ts
      → Sizes (alternative_size ts v) (pack_alt ts v)
  alternative_lem nil v w = absurd v
  alternative_lem (cons t ts) (inl v) w = in_place_lem t v w.0 w.1
  alternative_lem (cons t ts) (inr v) w = alternative_lem ts v w.2

-- For a value of a well-formed type that is no optional, `fracpack_size` is the length of the packed form, if
-- that is less than 2^16.
pub fracpack_size-pack :
    (t : FracTy) (v : El t)
    → WellFormed t
    → is_optional t ≡ false
    → length (pack t v) < 2 ^ 16
    → fracpack_size t v ≡ length (pack t v)
fracpack_size-pack t v w o l = size_lem t v w o l
