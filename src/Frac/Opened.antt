-- ===== src/Frac/Opened.antt =====
-- Each kind of value is read back from its packed form, given that its parts are.
use clarion.Prelude.{
  ℕ, ◌+◌, ◌*◌, ◌/◌, ◌^◌, ◌<◌, ◌≤◌, ◌≡◌, refl, sym, ◌∙◌, List, [], ◌∷◌, ◌++◌, length, All, true,
  false, inl, inr, ltb, ◌==◌, if◌then◌else◌, arith, length-append, append_assoc, Bool-cases,
}
use native.Mathlib.Nat.{mul-div_cancel}
use clarion.Stream.{Result, ok, Bytes}
use clarion.Stream.Memory.{le_bytes, length-le_bytes}
use clarion.Stream.Input.{InputStream, read-append}
use clarion.Frac.Types.{FracTy, El, can_memcpy, fracpack_fixed_size}
use clarion.Frac.Types.{vec}
use clarion.Frac.Write.{object_bytes, array_bytes}
use clarion.Frac.Encode.{Part, slots, heaps, fixed, body, items, sized, pack, part, length-fixed}
use clarion.Frac.Valid.{WellFormed, IsValid, length-object, length-array_bytes}
use clarion.Frac.Slots.{memcpy_or_heap, slots-items, fixed_size}
use clarion.Frac.Read.{
  Unpacked, initial, of_object, unpack_number, unpack_text, copy_objects, unpack_copied,
  unpack_items, unpack_offsets, unpack_vec,
}
use clarion.Frac.Objects.{
  of_object-object_bytes, of_objects-array_bytes, resize_lem, initial-exists,
}
use clarion.Frac.Taken.{
  Reads, Opens, Takes, TakesAll, Reads-Opens, unpack_number-le_bytes, none-TakesAll,
}
use clarion.Frac.TakenAll.{next-TakesAll}

pub length-sized : (n : ℕ) (b : Bytes) → length (sized n b) ≡ 4 + length b
unfolding sized
length-sized n b = omega (arith, length-append (le_bytes 4 n) b, length-le_bytes 4 n)

-- The size in front of the bytes is read first.
size-read :
    (n : ℕ) (b rest : Bytes) → n < 2 ^ 32 → unpack_number 4 (sized n b ++ rest) ≡ ok (n, b ++ rest)
unfolding sized
size-read n b rest l =
    rw (append_assoc (le_bytes 4 n) b rest) (unpack_number-le_bytes 4 n (b ++ rest) (omega arith))

pub text-Reads : (v : Bytes) → Reads (λ w. unpack_text) (sized (length v) v) v
unfolding unpack_text
text-Reads [] w rest l = rw (size-read 0 [] rest (omega arith)) refl
text-Reads (c ∷ v) w rest l =
    let some_bytes : ltb 0 (length (c ∷ v)) ≡ true = ground arith in
    rw
      (
        size-read (length (c ∷ v)) (c ∷ v) rest
            (omega (arith, length-sized (length (c ∷ v)) (c ∷ v))),
        some_bytes,
      )
      (read-append (length (c ∷ v)) (c ∷ v) rest refl)

module _ {A : Type 0} (P : A → Type 0) (of : A → Bytes → A) (bytes : A → Bytes) (n : ℕ)
    (some_size : 0 < n) (same : (x w : A) (rest : Bytes) → P x → of w (bytes x ++ rest) ≡ x)
    (len : (x : A) → length (bytes x) ≡ n) where
  copy_objects-Reads :
      (v w : List A) (rest : Bytes)
      → All P v
      → length w ≡ length v
      → copy_objects n (length v * n) of w (array_bytes bytes v ++ rest) ≡ ok (v, rest)
  unfolding copy_objects
  copy_objects-Reads v w rest p e =
      let count : length v * n / n ≡ length v = mul-div_cancel (length v) some_size in
      let whole : (length v * n == length v * n) ≡ true = ground arith in
      rw
        (
          read-append (length v * n) (array_bytes bytes v) rest (length-array_bytes bytes n v len),
          count,
          whole,
          of_objects-array_bytes P of bytes n same len v w p e,
        )
        refl

  copied_or_empty :
      (v w : List A) (rest : Bytes)
      → All P v
      → length w ≡ length v
      → (if ltb 0 (length v)
          then copy_objects n (length v * n) of w (array_bytes bytes v ++ rest)
          else ok (w, array_bytes bytes v ++ rest))
        ≡ ok (v, rest)
  unfolding array_bytes
  copied_or_empty [] [] rest p e = refl
  copied_or_empty [] (y ∷ w) rest p e = absurd (omega arith)
  copied_or_empty (x ∷ v) w rest p e =
      let some_items : ltb 0 (length (x ∷ v)) ≡ true = ground arith in
      rw some_items (copy_objects-Reads (x ∷ v) w rest p e)

  pub copied-Reads :
      (d : Result A) (x : A) (v : List A)
      → d ≡ ok x
      → All P v
      → Reads (unpack_copied n of d) (sized (length v * n) (array_bytes bytes v)) v
  unfolding unpack_copied
  copied-Reads d x v init p w rest l =
      let (w', e, len') = resize_lem d x (length v) w init in
      let total = length-sized (length v * n) (array_bytes bytes v) in
      let size = length-array_bytes bytes n v len in
      let count : length v * n / n ≡ length v = mul-div_cancel (length v) some_size in
      let not_zero : (n == 0) ≡ false = ground arith in
      rw
        (
          size-read (length v * n) (array_bytes bytes v) rest (omega (arith, total, size)),
          not_zero,
          count,
          e,
        )
        (copied_or_empty v w' rest p len')

pub copied_vec-Reads :
    (t : FracTy) (v : List (El t)) (m : El t → InputStream → Unpacked (El t))
    → WellFormed (vec t)
    → can_memcpy t ≡ true
    → All (IsValid t) v
    → Reads
        (unpack_vec (can_memcpy t) (fracpack_fixed_size t) (of_object t) m (initial t))
        (pack (vec t) v)
        v
unfolding unpack_vec pack
copied_vec-Reads t v m w e p =
    let fix = fixed_size t w.2 in
    let (d, init) = initial-exists t w.0 in
    rw e (
      copied-Reads (IsValid t) (of_object t) (object_bytes t) (fracpack_fixed_size t)
        (omega (arith, fix)) (λ x y rest px. of_object-object_bytes t x y rest e px)
        (λ x. length-object t x e ∙ sym fix) (initial t) d v init p)

pub items-TakesAll :
    {A : Type 0} (P : A → Type 0) (f : A → InputStream → Unpacked A) (q : A → Part)
    → ((x w : A) → P x → Takes (f w) (q x) x)
    → (start opened : ℕ) (v w : List A) → All P v
    → length w ≡ length v
    → TakesAll start opened (unpack_items f w) (items q v) v
unfolding unpack_items items
items-TakesAll P f q h start opened [] [] p e = none-TakesAll start opened []
items-TakesAll P f q h start opened [] (y ∷ w) p e = absurd (omega arith)
items-TakesAll P f q h start opened (x ∷ v) [] p e = absurd (omega arith)
items-TakesAll P f q h start opened (x ∷ v) (y ∷ w) p e =
    next-TakesAll (λ a b. a ∷ b) start opened (f y) (f y) (unpack_items f w) (q x) (items q v) x v
      (λ s l. refl) (h x y p.0) (items-TakesAll P f q h start opened v w p.1 (omega arith))

pub length-body : (qs : List Part) → length (body qs) ≡ slots qs + length (heaps qs)
length-body qs =
    omega (arith, length-append (fixed (slots qs) qs) (heaps qs), length-fixed (slots qs) qs)

-- The members of a whole body.
pub body-taken :
    {A : Type 0} (start opened : ℕ) (r : InputStream → Unpacked A) (qs : List Part) (v : A)
    (rest : Bytes)
    → TakesAll start opened r qs v
    → slots qs + length (heaps qs) < 2 ^ 16
    → opened + slots qs ≤ start + (slots qs + length (heaps qs) + length rest)
    → r (body qs ++ rest) ≡ ok (v, heaps qs ++ rest)
body-taken start opened r qs v rest takes l before =
    rw (append_assoc (fixed (slots qs) qs) (heaps qs) rest)
      (takes [] rest (slots qs) (omega arith) l before)

pub offsets-Opens :
    {A : Type 0} (f : A → InputStream → Unpacked A) (d : Result A) (x : A) (v : List A)
    (qs : List Part)
    → d ≡ ok x
    → slots qs ≡ length v * 4
    → ((w : List A) → length w ≡ length v → TakesAll 0 0 (unpack_items f w) qs v)
    → Opens (unpack_offsets f d) (sized (length v * 4) (body qs)) v
unfolding unpack_offsets
offsets-Opens f d x v qs init size takes w rest l =
    let (w', e, len) = resize_lem d x (length v) w init in
    let total = length-sized (length v * 4) (body qs) in
    let total' = length-body qs in
    let count : length v * 4 / 4 ≡ length v = mul-div_cancel (length v) (omega arith) in
    (
      heaps qs ++ rest,
      rw (size-read (length v * 4) (body qs) rest (omega (arith, total, total')), count, e)
          (body-taken 0 0 (unpack_items f w') qs v rest (takes w' len)
            (omega (arith, total, total')) (omega arith)),
    )

pub vec-Opens :
    (t : FracTy) (v : List (El t)) (m : El t → InputStream → Unpacked (El t))
    → WellFormed (vec t)
    → ((x w : El t) → IsValid t x → Takes (m w) (part t x) x)
    → All (IsValid t) v
    → Opens
        (unpack_vec (can_memcpy t) (fracpack_fixed_size t) (of_object t) m (initial t))
        (pack (vec t) v)
        v
unfolding unpack_vec pack
vec-Opens t v m w takes p = elim (Bool-cases (can_memcpy t)) [
  | inl e ↦
      Reads-Opens (unpack_vec (can_memcpy t) (fracpack_fixed_size t) (of_object t) m (initial t))
        (pack (vec t) v) v (copied_vec-Reads t v m w e p)
  | inr e ↦
      let (d, init) = initial-exists t w.0 in
      rw e (
        offsets-Opens m (initial t) d v (items (part t) v) init
          (slots-items t v w.0 (memcpy_or_heap t w.0 e))
          (λ u len. items-TakesAll (IsValid t) m (part t) takes 0 0 v u p len))
]
