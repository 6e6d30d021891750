-- ===== src/Frac/Accepted.antt =====
-- `fraccheck` accepts what `fracpack` wrote, and counts each of its bytes once.
use clarion.Prelude.{
  ℕ, ◌+◌, ◌*◌, ◌/◌, ◌^◌, ◌<◌, ◌≤◌, ◌≡◌, refl, sym, ◌∙◌, List, [], ◌∷◌, ◌++◌, length, Bool, true,
  false, inl, inr, ltb, if◌then◌else◌, arith, length-append, append_assoc, Bool-cases,
}
use native.Mathlib.Nat.{mul-div_cancel}
use clarion.Stream.{ok, Bytes, ◌>>=◌}
use clarion.Stream.Memory.{le_bytes, length-le_bytes}
use clarion.Stream.Check.{CheckInputStream, checkread}
use clarion.Frac.Types.{FracTy, FracTys, El, can_memcpy, fracpack_fixed_size}
use clarion.Frac.Types.{scalar, text, vec, opt, variant, strct, nil, cons}
use clarion.Frac.Write.{object_bytes, array_bytes}
use clarion.Frac.Encode.{Part, slots, heaps, fixed, body, items, sized, pack, part}
use clarion.Frac.Valid.{WellFormed, length-object, length-array_bytes}
use clarion.Frac.Slots.{memcpy_or_heap, slots-items, fixed_size}
use clarion.Frac.Opened.{length-sized, length-body}
use clarion.Frac.Check.{
  Checked, check_number, check_sized, check_items, check_vec, check_before_heap, check_struct,
}
use clarion.Frac.Counted.{
  at, Counts, CountsOpen, CountsPart, CountsAll, Counts-Open, checkread-append,
  check_number-le_bytes, none-CountsAll, next-CountsAll, count,
}

-- `fraccheck` does not compile for a type that has a variant.
abbrev mutual
  pub NoVariant : FracTy → Type 0
  NoVariant (scalar n) = Unit {0}
  NoVariant text = Unit {0}
  NoVariant (vec t) = NoVariant t
  NoVariant (opt t) = NoVariant t
  NoVariant (variant ts) = ⊥
  NoVariant (strct final dense ts) = NoVariants ts

  pub NoVariants : FracTys → Type 0
  NoVariants nil = Unit {0}
  NoVariants (cons t ts) = NoVariant t × NoVariants ts

pub sized-Counts : (k : ℕ) (b : Bytes) → length b ≡ k → Counts check_sized (sized k b)
unfolding check_sized sized
sized-Counts k b e rest n l =
    let total = length-sized k b in
    let bytes = checkread-append k b rest (n + 4) e in
    rw
      (
        append_assoc (le_bytes 4 k) b rest,
        check_number-le_bytes 4 k (b ++ rest) n (omega (arith, total, e)),
      )
      (taken b k e rest n
        ∙ count rest _ _ (omega (arith, length-append (le_bytes 4 k) b, length-le_bytes 4 k)))
  where
    taken :
        (b : Bytes) (k : ℕ)
        → length b ≡ k
        → (rest : Bytes) (n : ℕ)
        → (if ltb 0 k then checkread k (at (b ++ rest) (n + 4)) else ok (at (b ++ rest) (n + 4)))
          ≡ ok (at rest (n + 4 + length b))
    taken [] k e rest n = rw (← e) (count rest _ _ (omega arith))
    taken (c ∷ b) k e rest n =
        let some_bytes : ltb 0 k ≡ true = ground arith in
        rw some_bytes (checkread-append k (c ∷ b) rest (n + 4) e)

items-CountsAll :
    {A : Type 0} (c : CheckInputStream → Checked) (q : A → Part)
    → ((x : A) → CountsPart c (q x))
    → (start opened : ℕ) (v : List A)
    → CountsAll start opened (check_items c (length v)) (items q v)
unfolding check_items items
items-CountsAll c q h start opened [] = none-CountsAll start opened
items-CountsAll c q h start opened (x ∷ v) =
    next-CountsAll start opened c c (check_items c (length v)) (q x) (items q v) (λ s n l. refl)
      (h x) (items-CountsAll c q h start opened v)

body-counted :
    (start opened : ℕ) (c : CheckInputStream → Checked) (qs : List Part) (rest : Bytes) (n : ℕ)
    → CountsAll start opened c qs
    → slots qs + length (heaps qs) < 2 ^ 16
    → opened + slots qs ≤ start + (slots qs + length (heaps qs) + length rest)
    → c (at (body qs ++ rest) n) ≡ ok (at (heaps qs ++ rest) (n + slots qs + length (heaps qs)))
body-counted start opened c qs rest n h l before =
    rw (append_assoc (fixed (slots qs) qs) (heaps qs) rest)
      (h [] rest (slots qs) n (omega arith) l before)

offsets-CountsOpen :
    (c : CheckInputStream → Checked) (k : ℕ) (qs : List Part)
    → slots qs ≡ k * 4
    → CountsAll 0 0 (check_items c k) qs
    → CountsOpen
        (λ s. check_number 4 s >>= λ r. check_items c (r.0 / 4) r.1)
        (sized (k * 4) (body qs))
unfolding sized
offsets-CountsOpen c k qs size h rest n l =
    let total = length-append (le_bytes 4 (k * 4)) (body qs) in
    let four = length-le_bytes 4 (k * 4) in
    let total' = length-body qs in
    let times : k * 4 / 4 ≡ k = mul-div_cancel k (omega arith) in
    (
      heaps qs ++ rest,
      rw
          (
            append_assoc (le_bytes 4 (k * 4)) (body qs) rest,
            check_number-le_bytes 4 (k * 4) (body qs ++ rest) n
                (omega (arith, total, four, total', size)),
            times,
          )
          (body-counted 0 0 (check_items c k) qs rest (n + 4) h
              (omega (arith, total, four, total', size)) (omega arith)
            ∙ count (heaps qs ++ rest) _ _ (omega (arith, total, four, total'))),
    )

pub vec-CountsOpen :
    (t : FracTy) (v : List (El t)) (c : CheckInputStream → Checked)
    → WellFormed (vec t)
    → ((x : El t) → CountsPart c (part t x))
    → CountsOpen (check_vec (can_memcpy t) c) (pack (vec t) v)
unfolding check_vec pack
vec-CountsOpen t v c w h = elim (Bool-cases (can_memcpy t)) [
  | inl e ↦
      let len =
        length-array_bytes (object_bytes t) (fracpack_fixed_size t) v
          (λ x. length-object t x e ∙ sym (fixed_size t w.2)) in
      rw e (
        Counts-Open check_sized _
          (sized-Counts (length v * fracpack_fixed_size t) (array_bytes (object_bytes t) v) len))
  | inr e ↦ rw e (
      offsets-CountsOpen c (length v) (items (part t) v)
        (slots-items t v w.0 (memcpy_or_heap t w.0 e)) (items-CountsAll c (part t) h 0 0 v))
]

pub struct-CountsOpen :
    (ext : Bool) (k : ℕ) (c : (CheckInputStream → Bool) → CheckInputStream → Checked)
    (qs : List Part)
    → slots qs ≡ k
    → ((start opened : ℕ) → CountsAll start opened (c (check_before_heap start opened)) qs)
    → CountsOpen (check_struct ext k c) ((if ext then le_bytes 2 k else []) ++ body qs)
unfolding check_struct
struct-CountsOpen true k c qs size h rest n l =
    let total = length-append (le_bytes 2 k) (body qs) in
    let two = length-le_bytes 2 k in
    let total' = length-body qs in
    let window = length-append (body qs) rest in
    let opened = length (body qs ++ rest) in
    (
      heaps qs ++ rest,
      rw
          (
            append_assoc (le_bytes 2 k) (body qs) rest,
            check_number-le_bytes 2 k (body qs ++ rest) n (omega (arith, total, total')),
          )
          (body-counted k opened (c (check_before_heap k opened)) qs rest (n + 2) (h k opened)
              (omega (arith, total, total')) (omega (arith, total', window))
            ∙ count (heaps qs ++ rest) _ _ (omega (arith, total, two, total'))),
    )
struct-CountsOpen false k c qs size h rest n l =
    let total' = length-body qs in
    let window = length-append (body qs) rest in
    let opened = length (body qs ++ rest) in
    (
      heaps qs ++ rest,
      body-counted k opened (c (check_before_heap k opened)) qs rest n (h k opened)
            (omega (arith, total')) (omega (arith, total', window))
          ∙ count (heaps qs ++ rest) _ _ (omega (arith, total')),
    )
