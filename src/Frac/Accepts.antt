-- ===== src/Frac/Accepts.antt =====
-- `fraccheck` accepts what `fracpack` wrote, and `validate` a `frac_ptr` made from a value.
use clarion.Prelude.{
  ℕ, ◌+◌, ◌^◌, ◌<◌, ◌≤◌, ◌≡◌, refl, sym, ◌∙◌, [], ◌∷◌, length, Bool, true, false, none, some, inl,
  inr, ltb, leb, arith, append-nil, Bool-cases,
}
use clarion.Stream.{ok, Bytes}
use clarion.Stream.Memory.{le_bytes, length-le_bytes}
use clarion.Stream.Check.{CheckInputStream, open_at, checkread}
use clarion.Frac.Types.{
  FracTy, FracTys, El, Els, can_memcpy, may_use_heap, is_ext_structure, fracpack_fixed_size,
}
use clarion.Frac.Types.{scalar, text, vec, opt, variant, strct, nil, cons}
use clarion.Frac.Write.{members_bytes, is_container}
use clarion.Frac.Encode.{slot, header, pack, part, parts}
use clarion.Frac.Valid.{WellFormed, AllWellFormed, is_optional, length-members}
use clarion.Frac.Slots.{all_copied, strct_size, slots-parts}
use clarion.Frac.Structs.{slot-positive}
use clarion.Frac.Check.{
  Checked, check_sized, check_before_heap, check_members_of, check_far, check_next, fraccheck,
  fraccheck_member, fraccheck_members,
}
use clarion.Frac.Counted.{
  at, Counts, CountsOpen, CountsPart, CountsAll, Counts-Open, checkread-append, inline-CountsPart,
  heap-CountsPart, far-CountsPart, mark-CountsPart, none-CountsAll, next-CountsAll,
}
use clarion.Frac.Accepted.{NoVariant, NoVariants, sized-Counts, vec-CountsOpen, struct-CountsOpen}
use clarion.Frac.Valid.{IsValid}
use clarion.Frac.Pointer.{Allocation, frac_ptr, frac_ptr-pack, validate}

abbrev check_members : (final dense : Bool) (ts : FracTys) → CheckInputStream → Checked
check_members final dense ts = check_members_of (strct final dense ts) (fraccheck_members ts)

abbrev MembersCounted : (ts : FracTys) → Els ts → Type 0
MembersCounted ts v =
    (start opened : ℕ)
    → CountsAll start opened (fraccheck_members ts (check_before_heap start opened)) (parts ts v)

copied-Counts :
    (final dense : Bool) (ts : FracTys) (v : Els ts)
    → WellFormed (strct final dense ts)
    → can_memcpy (strct final dense ts) ≡ true
    → Counts (check_members final dense ts) (pack (strct final dense ts) v)
unfolding check_members_of pack
copied-Counts final dense ts v w e rest n l =
    let len =
      length-members ts v (all_copied final dense ts e) ∙ sym (strct_size final dense ts w.1) in
    rw e (
      checkread-append (fracpack_fixed_size (strct final dense ts)) (members_bytes ts v) rest n len)

heap_strct-CountsOpen :
    (final dense : Bool) (ts : FracTys) (v : Els ts)
    → WellFormed (strct final dense ts)
    → can_memcpy (strct final dense ts) ≡ false
    → MembersCounted ts v
    → CountsOpen (check_members final dense ts) (pack (strct final dense ts) v)
unfolding check_members_of pack header
heap_strct-CountsOpen final dense ts v w e h = rw e (
    struct-CountsOpen (is_ext_structure (strct final dense ts)) _ (fraccheck_members ts)
      (parts ts v) (slots-parts ts v w.0 ∙ sym (strct_size final dense ts w.1)) h)

strct-CountsOpen :
    (final dense : Bool) (ts : FracTys) (v : Els ts)
    → WellFormed (strct final dense ts)
    → MembersCounted ts v
    → CountsOpen (check_members final dense ts) (pack (strct final dense ts) v)
strct-CountsOpen final dense ts v w h = elim (Bool-cases (can_memcpy (strct final dense ts))) [
  | inl e ↦
      Counts-Open (check_members final dense ts) (pack (strct final dense ts) v)
        (copied-Counts final dense ts v w e)
  | inr e ↦ heap_strct-CountsOpen final dense ts v w e h
]

strct-CountsPart :
    (final dense : Bool) (ts : FracTys) (v : Els ts)
    → WellFormed (strct final dense ts)
    → MembersCounted ts v
    → CountsPart (fraccheck_member (strct final dense ts)) (part (strct final dense ts) v)
unfolding fraccheck_member part pack
strct-CountsPart final dense ts v w h = elim (Bool-cases (may_use_heap (strct final dense ts))) [
  | inl e ↦
      rw e
        (heap-CountsPart (check_members final dense ts) _ (strct-CountsOpen final dense ts v w h))
  | inr e ↦
      let copied : can_memcpy (strct final dense ts) ≡ true = elim w.2 [
        | inl c ↦ c.0
        | inr h' ↦ cc
      ] in
      rw e (
        inline-CountsPart (check_members final dense ts) _
          (copied-Counts final dense ts v w copied))
]

container-CountsPart :
    (t : FracTy) (v : El t)
    → is_container t ≡ true
    → CountsOpen (fraccheck t) (pack t v)
    → CountsPart (check_far (fraccheck t)) (part t v)
unfolding is_container part pack
container-CountsPart (scalar n) v e h = cc
container-CountsPart text [] e h = mark-CountsPart (fraccheck text) 0 (omega arith)
container-CountsPart text (c ∷ v) e h = far-CountsPart (fraccheck text) _ h
container-CountsPart (vec t) [] e h = mark-CountsPart (fraccheck (vec t)) 0 (omega arith)
container-CountsPart (vec t) (x ∷ v) e h = far-CountsPart (fraccheck (vec t)) _ h
container-CountsPart (opt t) v e h = cc
container-CountsPart (variant ts) v e h = cc
container-CountsPart (strct final dense ts) v e h = cc

next_lem :
    (start opened k : ℕ) (c : CheckInputStream → Checked) (s : Bytes) (n : ℕ)
    → 0 < k
    → opened + k ≤ start + length s
    → check_next (check_before_heap start opened (at s n)) c (at s n) ≡ c (at s n)
unfolding check_next check_before_heap
next_lem start opened k c s n p l =
    let before : ltb opened (start + length s) ≡ true = ground arith in rw before

mutual
  unfolding fraccheck fraccheck_member fraccheck_members pack part parts

  check_lem :
      (t : FracTy) (v : El t)
      → WellFormed t
      → is_optional t ≡ false
      → NoVariant t
      → CountsOpen (fraccheck t) (pack t v)
  check_lem (scalar m) v w o nv =
      Counts-Open (checkread m) (le_bytes m v)
        (λ rest n l. checkread-append m (le_bytes m v) rest n (length-le_bytes m v))
  check_lem text v w o nv = Counts-Open check_sized _ (sized-Counts (length v) v refl)
  check_lem (vec t) v w o nv =
      vec-CountsOpen t v (fraccheck_member t) w (λ x. member_lem t x w.0 nv)
  check_lem (opt t) v w o nv = cc
  check_lem (variant ts) v w o nv = absurd nv
  check_lem (strct final dense ts) v w o nv =
      strct-CountsOpen final dense ts v w (λ start opened. members_lem ts v w.0 nv start opened)

  member_lem :
      (t : FracTy) (v : El t)
      → WellFormed t
      → NoVariant t
      → CountsPart (fraccheck_member t) (part t v)
  member_lem (scalar m) v w nv =
      inline-CountsPart (checkread m) (le_bytes m v)
        (λ rest n l. checkread-append m (le_bytes m v) rest n (length-le_bytes m v))
  member_lem text [] w nv = mark-CountsPart check_sized 0 (omega arith)
  member_lem text (c ∷ v) w nv =
      far-CountsPart check_sized _
        (Counts-Open check_sized _ (sized-Counts (length (c ∷ v)) (c ∷ v) refl))
  member_lem (vec t) [] w nv = mark-CountsPart (fraccheck (vec t)) 0 (omega arith)
  member_lem (vec t) (x ∷ v) w nv =
      far-CountsPart (fraccheck (vec t)) _
        (vec-CountsOpen t (x ∷ v) (fraccheck_member t) w (λ y. member_lem t y w.0 nv))
  member_lem (opt t) none w nv = mark-CountsPart (fraccheck t) 1 (omega arith)
  member_lem (opt t) (some v) w nv = elim (Bool-cases (is_container t)) [
    | inl e ↦ rw e (container-CountsPart t v e (check_lem t v w.0 w.1 nv))
    | inr e ↦ rw e (far-CountsPart (fraccheck t) (pack t v) (check_lem t v w.0 w.1 nv))
  ]
  member_lem (variant ts) v w nv = absurd nv
  member_lem (strct final dense ts) v w nv =
      strct-CountsPart final dense ts v w (λ start opened. members_lem ts v w.0 nv start opened)

  members_lem :
      (ts : FracTys) (v : Els ts)
      → AllWellFormed ts
      → NoVariants ts
      → (start opened : ℕ)
      → CountsAll start opened (fraccheck_members ts (check_before_heap start opened)) (parts ts v)
  members_lem nil v w nv start opened = none-CountsAll start opened
  members_lem (cons t ts) v w nv start opened =
      next-CountsAll start opened
        (λ s. check_next (check_before_heap start opened s) (fraccheck_member t) s)
        (fraccheck_member t) (fraccheck_members ts (check_before_heap start opened)) (part t v.0)
        (parts ts v.1)
        (λ s n l.
          next_lem start opened (slot (part t v.0)) (fraccheck_member t) s n
            (slot-positive t v.0 w.0) l)
        (member_lem t v.0 w.0 nv.0) (members_lem ts v.1 w.1 nv.1 start opened)

-- A `frac_ptr` can be made from a valid value of a well-formed type that is no optional and has no variant in
-- it, whose packed form is shorter than 2^16 bytes, and `validate` of it returns true.
pub frac_ptr-validate :
    (t : FracTy) (v : El t) (cells : ℕ → ℕ)
    → WellFormed t
    → is_optional t ≡ false
    → NoVariant t
    → IsValid t v
    → length (pack t v) < 2 ^ 16
    → (a : Allocation) × (frac_ptr t v cells ≡ ok a) × (validate t a ≡ ok true)
unfolding validate open_at
frac_ptr-validate t v cells w o nv p l =
    let (a, e, _, size_is, bytes) = frac_ptr-pack t v cells w o p l in
    let (s, e') = check_lem t v w o nv [] 0 l in
    let whole : leb (0 + length (pack t v)) (length (pack t v)) ≡ true = ground arith in
    (a, e, rw (size_is, bytes, ← append-nil (pack t v), e', append-nil (pack t v), whole) refl)
