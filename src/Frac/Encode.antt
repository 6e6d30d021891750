-- ===== src/Frac/Encode.antt =====
-- The packed form of a value: members in place, and a heap that their offsets point into.
use clarion.Prelude.{
  ℕ, ◌+◌, ◌-◌, ◌*◌, ◌≡◌, refl, List, [], ◌∷◌, ◌++◌, length, none, some, inl, inr, if◌then◌else◌,
  arith, length-append,
}
use clarion.Stream.{Bytes}
use clarion.Stream.Memory.{le_bytes, length-le_bytes}
use clarion.Frac.Types.{
  FracTy, FracTys, El, Els, Alt, index, can_memcpy, may_use_heap, is_ext_structure,
  fracpack_fixed_size,
}
use clarion.Frac.Types.{scalar, text, vec, opt, variant, strct, nil, cons}
use clarion.Frac.Write.{object_bytes, members_bytes, array_bytes, is_container}

-- A member: its own bytes, a number that stands for it, or what its offset points to.
pub data Part : Type 0 where
  inline : Bytes → Part
  mark : ℕ → Part
  heap : Bytes → Part

-- Its bytes in place, at the distance `d` from the end of the heap so far, and in the heap.
abbrev pub piece : ℕ → Part → Bytes
piece d (inline b) = b
piece d (mark n) = le_bytes 4 n
piece d (heap b) = le_bytes 4 d

abbrev pub heap_of : Part → Bytes
heap_of (inline b) = []
heap_of (mark n) = []
heap_of (heap b) = b

abbrev pub slot : Part → ℕ
slot (inline b) = length b
slot (mark n) = 4
slot (heap b) = 4

abbrev pub slots : List Part → ℕ
slots [] = 0
slots (q ∷ qs) = slot q + slots qs

abbrev pub heaps : List Part → Bytes
heaps [] = []
heaps (q ∷ qs) = heap_of q ++ heaps qs

abbrev pub fixed : ℕ → List Part → Bytes
fixed d [] = []
fixed d (q ∷ qs) = piece d q ++ fixed (d + length (heap_of q) - slot q) qs

abbrev pub body : List Part → Bytes
body qs = fixed (slots qs) qs ++ heaps qs

unfoldable pub items {ℓ} : {A : Type ℓ} → (A → Part) → List A → List Part
items f [] = []
items f (x ∷ xs) = f x ∷ items f xs

unfoldable pub sized : ℕ → Bytes → Bytes
sized n b = le_bytes 4 n ++ b

unfoldable pub header : FracTy → Bytes
header t = if is_ext_structure t then le_bytes 2 (fracpack_fixed_size t) else []

unfoldable mutual
  pub pack : (t : FracTy) → El t → Bytes
  pack (scalar n) v = le_bytes n v
  pack text v = sized (length v) v
  pack (vec t) v =
      if can_memcpy t
      then sized (length v * fracpack_fixed_size t) (array_bytes (object_bytes t) v)
      else sized (length v * 4) (body (items (part t) v))
  pack (opt t) none = le_bytes 4 1
  pack (opt t) (some v) = sized 4 (pack t v)
  pack (variant ts) v = index ts v ∷ pack_alt ts v
  pack (strct final dense ts) v =
      if can_memcpy (strct final dense ts)
      then members_bytes ts v
      else header (strct final dense ts) ++ body (parts ts v)

  pub part : (t : FracTy) → El t → Part
  part (scalar n) v = inline (le_bytes n v)
  part text [] = mark 0
  part text (c ∷ v) = heap (sized (length (c ∷ v)) (c ∷ v))
  part (vec t) [] = mark 0
  part (vec t) (x ∷ v) = heap (
      if can_memcpy t
      then sized (length (x ∷ v) * fracpack_fixed_size t) (array_bytes (object_bytes t) (x ∷ v))
      else sized (length (x ∷ v) * 4) (body (items (part t) (x ∷ v))))
  part (opt t) none = mark 1
  part (opt t) (some v) = if is_container t then part t v else heap (pack t v)
  part (variant ts) v = heap (index ts v ∷ pack_alt ts v)
  part (strct final dense ts) v =
      let packed =
        if can_memcpy (strct final dense ts)
        then members_bytes ts v
        else header (strct final dense ts) ++ body (parts ts v) in
      if may_use_heap (strct final dense ts) then heap packed else inline packed

  pub parts : (ts : FracTys) → Els ts → List Part
  parts nil v = []
  parts (cons t ts) v = part t v.0 ∷ parts ts v.1

  pub pack_alt : (ts : FracTys) → Alt ts → Bytes
  pack_alt nil v = absurd v
  pack_alt (cons t ts) (inl v) = pack t v
  pack_alt (cons t ts) (inr v) = pack_alt ts v

pub length-piece : (d : ℕ) (q : Part) → length (piece d q) ≡ slot q
length-piece d (inline b) = refl
length-piece d (mark n) = length-le_bytes 4 n
length-piece d (heap b) = length-le_bytes 4 d

pub length-fixed : (d : ℕ) (qs : List Part) → length (fixed d qs) ≡ slots qs
length-fixed d [] = refl
length-fixed d (q ∷ qs) =
    let d' = d + length (heap_of q) - slot q in
    omega (arith, length-append (piece d q) (fixed d' qs), length-piece d q, length-fixed d' qs)
