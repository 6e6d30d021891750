-- ===== src/Frac/Structs.antt =====
-- Structs are read back from their packed form, given that their members are.
use clarion.Prelude.{
  ℕ, ◌+◌, ◌<◌, ◌≤◌, ◌≡◌, refl, sym, ◌∙◌, List, [], ◌++◌, length, Bool, true, false, inl, inr, ltb,
  if◌then◌else◌, arith, length-append, append_assoc, Bool-cases,
}
use clarion.Stream.{Bytes}
use clarion.Stream.Memory.{le_bytes}
use clarion.Stream.Input.{InputStream, read-append}
use clarion.Frac.Types.{
  FracTy, FracTys, El, Els, can_memcpy, may_use_heap, is_ext_structure, width, fracpack_fixed_size,
}
use clarion.Frac.Types.{scalar, text, vec, opt, variant, strct, cons}
use clarion.Frac.Write.{members_bytes}
use clarion.Frac.Encode.{Part, slot, slots, heaps, body, header, pack, part, parts}
use clarion.Frac.Valid.{WellFormed, AreValid, length-members}
use clarion.Frac.Slots.{all_copied, strct_size, slots-parts, slot-part}
use clarion.Frac.Read.{
  Unpacked, of_members, unpack_object, before_heap, unpack_struct, unpack_members_of, unpack_next,
  unpack_heap, fracunpack_member, fracunpack_members,
}
use clarion.Frac.Objects.{of_members-members_bytes}
use clarion.Frac.Taken.{
  Reads, Opens, Takes, TakesAll, Reads-Opens, unpack_number-le_bytes, inline-Takes, heap-Takes,
}
use clarion.Frac.TakenAll.{next-TakesAll}
use clarion.Frac.Opened.{body-taken, length-body}

pub copied_strct-Reads :
    (final dense : Bool) (ts : FracTys) (v : Els ts)
    → WellFormed (strct final dense ts)
    → can_memcpy (strct final dense ts) ≡ true
    → AreValid ts v
    → Reads
        (unpack_members_of (strct final dense ts) (of_members ts) (fracunpack_members ts))
        (pack (strct final dense ts) v)
        v
unfolding unpack_members_of unpack_object pack
copied_strct-Reads final dense ts v wf e p w rest l =
    let all = all_copied final dense ts e in
    let size : length (members_bytes ts v) ≡ fracpack_fixed_size (strct final dense ts) =
      length-members ts v all ∙ sym (strct_size final dense ts wf.1) in
    rw
      (
        e,
        read-append (fracpack_fixed_size (strct final dense ts)) (members_bytes ts v) rest size,
        of_members-members_bytes ts v w all p,
      )
      refl

struct-Opens :
    {A : Type 0} (ext : Bool) (n : ℕ)
    (members : A → (InputStream → Bool) → InputStream → Unpacked A) (qs : List Part) (v : A)
    → slots qs ≡ n
    → ((start opened : ℕ) (w : A)
        → TakesAll start opened (members w (before_heap start opened)) qs v)
    → Opens (unpack_struct ext n members) ((if ext then le_bytes 2 n else []) ++ body qs) v
unfolding unpack_struct
struct-Opens true n members qs v size takes w rest l =
    let total = length-append (le_bytes 2 n) (body qs) in
    let total' = length-body qs in
    let window = length-append (body qs) rest in
    (
      heaps qs ++ rest,
      rw
          (
            append_assoc (le_bytes 2 n) (body qs) rest,
            unpack_number-le_bytes 2 n (body qs ++ rest) (omega (arith, total, total')),
          )
          (body-taken n (length (body qs ++ rest))
            (members w (before_heap n (length (body qs ++ rest)))) qs v rest
            (takes n (length (body qs ++ rest)) w) (omega (arith, total, total'))
            (omega (arith, total', window))),
    )
struct-Opens false n members qs v size takes w rest l =
    let total' = length-body qs in
    let window = length-append (body qs) rest in
    (
      heaps qs ++ rest,
      body-taken n (length (body qs ++ rest)) (members w (before_heap n (length (body qs ++ rest))))
          qs v rest (takes n (length (body qs ++ rest)) w) (omega (arith, total'))
          (omega (arith, total', window)),
    )

abbrev pub unpack_strct :
    (final dense : Bool) (ts : FracTys) → Els ts → InputStream → Unpacked (Els ts)
unpack_strct final dense ts =
    unpack_members_of (strct final dense ts) (of_members ts) (fracunpack_members ts)

abbrev pub MembersTaken : (ts : FracTys) → Els ts → Type 0
MembersTaken ts v =
    (start opened : ℕ) (w : Els ts)
    → TakesAll start opened (fracunpack_members ts w (before_heap start opened)) (parts ts v) v

heap_strct-Opens :
    (final dense : Bool) (ts : FracTys) (v : Els ts)
    → WellFormed (strct final dense ts)
    → can_memcpy (strct final dense ts) ≡ false
    → MembersTaken ts v
    → Opens (unpack_strct final dense ts) (pack (strct final dense ts) v) v
unfolding unpack_members_of pack header
heap_strct-Opens final dense ts v wf e takes =
    let size : slots (parts ts v) ≡ fracpack_fixed_size (strct final dense ts) =
      slots-parts ts v wf.0 ∙ sym (strct_size final dense ts wf.1) in
    rw e (
      struct-Opens (is_ext_structure (strct final dense ts)) _ (fracunpack_members ts) (parts ts v)
        v size takes)

pub strct-Opens :
    (final dense : Bool) (ts : FracTys) (v : Els ts)
    → WellFormed (strct final dense ts)
    → AreValid ts v
    → MembersTaken ts v
    → Opens (unpack_strct final dense ts) (pack (strct final dense ts) v) v
strct-Opens final dense ts v wf p takes = elim (Bool-cases (can_memcpy (strct final dense ts))) [
  | inl e ↦
      Reads-Opens (unpack_strct final dense ts) (pack (strct final dense ts) v) v
        (copied_strct-Reads final dense ts v wf e p)
  | inr e ↦ heap_strct-Opens final dense ts v wf e takes
]

pub strct-Takes :
    (final dense : Bool) (ts : FracTys) (v w : Els ts)
    → WellFormed (strct final dense ts)
    → AreValid ts v
    → MembersTaken ts v
    → Takes
        (λ s.
          if may_use_heap (strct final dense ts)
          then unpack_heap (unpack_strct final dense ts) w s
          else unpack_strct final dense ts w s)
        (part (strct final dense ts) v)
        v
unfolding part pack
strct-Takes final dense ts v w wf p takes =
    elim (Bool-cases (may_use_heap (strct final dense ts))) [
      | inl h ↦
          rw h (
            heap-Takes (unpack_strct final dense ts) _ v w
              (strct-Opens final dense ts v wf p takes))
      | inr h ↦
          let copied : can_memcpy (strct final dense ts) ≡ true = elim wf.2 [
            | inl c ↦ c.0
            | inr h' ↦ cc
          ] in
          rw h (
            inline-Takes (unpack_strct final dense ts) _ v w
              (copied_strct-Reads final dense ts v wf copied p))
    ]

-- A member takes at least one byte, so the stream stands before the heap when its turn comes.
width-positive : (t : FracTy) → WellFormed t → 0 < (if may_use_heap t then 4 else width t)
unfolding may_use_heap width
width-positive (scalar n) w = w
width-positive text w = omega arith
width-positive (vec t) w = omega arith
width-positive (opt t) w = omega arith
width-positive (variant ts) w = omega arith
width-positive (strct final dense ts) w = ground arith

pub slot-positive : (t : FracTy) (v : El t) → WellFormed t → 0 < slot (part t v)
slot-positive t v w = omega (arith, slot-part t v w, width-positive t w)

next_lem :
    (t : FracTy) (q : Part) (w : El t) (start opened : ℕ) (s : Bytes)
    → 0 < slot q
    → opened + slot q ≤ start + length s
    → unpack_next (before_heap start opened s) (fracunpack_member t) w s ≡ fracunpack_member t w s
unfolding unpack_next before_heap
next_lem t q w start opened s positive l =
    let before : ltb opened (start + length s) ≡ true = ground arith in rw before

pub next-member :
    (t : FracTy) (ts : FracTys) (v w : El t) (vs ws : Els ts) (start opened : ℕ)
    → WellFormed t
    → Takes (fracunpack_member t w) (part t v) v
    → TakesAll start opened (fracunpack_members ts ws (before_heap start opened)) (parts ts vs) vs
    → TakesAll start opened
        (fracunpack_members (cons t ts) (w, ws) (before_heap start opened))
        (parts (cons t ts) (v, vs))
        (v, vs)
unfolding fracunpack_members parts
next-member t ts v w vs ws start opened wf first others =
    next-TakesAll (λ a b. (a, b)) start opened
      (λ s. unpack_next (before_heap start opened s) (fracunpack_member t) w s)
      (fracunpack_member t w) (fracunpack_members ts ws (before_heap start opened)) (part t v)
      (parts ts vs) v vs (λ s l. next_lem t (part t v) w start opened s (slot-positive t v wf) l)
      first others
