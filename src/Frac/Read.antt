-- ===== src/Frac/Read.antt =====
-- `fracunpack` and `fracunpack_member` from an `input_stream`.
use clarion.Prelude.{
  ℕ, zero, suc, ◌+◌, ◌*◌, ◌/◌, List, [], ◌∷◌, length, take, drop, Bool, Option, none, some, inl,
  inr, ltb, leb, ◌==◌, if◌then◌else◌,
}
use clarion.Stream.{Result, ok, stuck, Bytes, ◌>>=◌}
use clarion.Stream.Memory.{of_le_bytes}
use clarion.Stream.Input.{InputStream, read, sub_stream}
use clarion.Frac.Types.{
  FracTy, FracTys, El, Els, Alt, can_memcpy, may_use_heap, is_ext_structure, width,
  fracpack_fixed_size,
}
use clarion.Frac.Types.{scalar, text, vec, opt, variant, strct, nil, cons}

abbrev pub Unpacked : Type 0 → Type 0
Unpacked A = Result (A × InputStream)

-- `T()`, for structs without initializers or constructors of their own. A variant has an alternative at
-- least.
unfoldable mutual
  pub initial : (t : FracTy) → Result (El t)
  initial (scalar n) = ok 0
  initial text = ok []
  initial (vec t) = ok []
  initial (opt t) = ok none
  initial (variant ts) = initial_first ts
  initial (strct final dense ts) = initial_members ts

  pub initial_first : (ts : FracTys) → Result (Alt ts)
  initial_first nil = stuck
  initial_first (cons t ts) = initial t >>= λ d. ok (inl d)

  pub initial_members : (ts : FracTys) → Result (Els ts)
  initial_members nil = ok tt
  initial_members (cons t ts) = initial t >>= λ d. initial_members ts >>= λ ds. ok (d, ds)

-- The object whose bytes were copied over `v`.
unfoldable mutual
  pub of_object : (t : FracTy) → El t → Bytes → El t
  of_object (scalar n) v b = of_le_bytes (take n b)
  of_object text v b = v
  of_object (vec t) v b = v
  of_object (opt t) v b = v
  of_object (variant ts) v b = v
  of_object (strct final dense ts) v b = of_members ts v b

  pub of_members : (ts : FracTys) → Els ts → Bytes → Els ts
  of_members nil v b = v
  of_members (cons t ts) v b = (of_object t v.0 b, of_members ts v.1 (drop (width t) b))

unfoldable pub of_objects {ℓ} : {A : Type ℓ} → (A → Bytes → A) → ℕ → List A → Bytes → List A
of_objects f fix_size [] b = []
of_objects f fix_size (x ∷ v) b = f x b ∷ of_objects f fix_size v (drop fix_size b)

-- `v.resize(n)`: elements that are there stay, and new ones are `T()`.
unfoldable pub resize {ℓ} : {A : Type ℓ} → Result A → ℕ → List A → Result (List A)
resize d zero v = ok []
resize d (suc n) [] = d >>= λ x. resize d n [] >>= λ xs. ok (x ∷ xs)
resize d (suc n) (x ∷ v) = resize d n v >>= λ xs. ok (x ∷ xs)

unfoldable pub unpack_number : ℕ → Bytes → Unpacked ℕ
unpack_number n s = read n s >>= λ r. ok (of_le_bytes r.0, r.1)

unfoldable pub unpack_text : InputStream → Unpacked Bytes
unpack_text s = do (size, s') ← unpack_number 4 s; if ltb 0 size then read size s' else ok ([], s')

-- `size` bytes are read into the `size / fix_size` elements, which is undefined (`stuck`) where they are
-- fewer bytes than `size`, and so is the division by 0.
unfoldable pub copy_objects :
    {A : Type 0} → ℕ → ℕ → (A → Bytes → A) → List A → InputStream → Unpacked (List A)
copy_objects fix_size size of v s = do
  (b, s') ← read size s
  if (size / fix_size) * fix_size == size then ok (of_objects of fix_size v b, s') else stuck

unfoldable pub unpack_copied :
    {A : Type 0} → ℕ → (A → Bytes → A) → Result A → List A → InputStream → Unpacked (List A)
unpack_copied fix_size of d v s = do
  (size, s') ← unpack_number 4 s
  v' ← (if fix_size == 0 then stuck else resize d (size / fix_size) v)
  if ltb 0 (size / fix_size) then copy_objects fix_size size of v' s' else ok (v', s')

unfoldable pub unpack_items :
    {A : Type 0} → (A → InputStream → Unpacked A) → List A → InputStream → Unpacked (List A)
unpack_items f [] s = ok ([], s)
unpack_items f (x ∷ v) s = do (y, s') ← f x s; (ys, s'') ← unpack_items f v s'; ok (y ∷ ys, s'')

unfoldable pub unpack_offsets :
    {A : Type 0}
    → (A → InputStream → Unpacked A)
    → Result A
    → List A
    → InputStream
    → Unpacked (List A)
unpack_offsets member d v s = do
  (size, s') ← unpack_number 4 s
  v' ← resize d (size / 4) v
  unpack_items member v' s'

unfoldable pub unpack_vec :
    {A : Type 0}
    → Bool
    → ℕ
    → (A → Bytes → A)
    → (A → InputStream → Unpacked A)
    → Result A
    → List A
    → InputStream
    → Unpacked (List A)
unpack_vec copied fix_size of member d v s =
    if copied then unpack_copied fix_size of d v s else unpack_offsets member d v s

unfoldable pub unpack_object : {A : Type 0} → ℕ → (A → Bytes → A) → A → InputStream → Unpacked A
unpack_object n of v s = read n s >>= λ r. ok (of v r.0, r.1)

-- `stream.pos < heap`, where `heap` is `start_heap` behind the place at which `opened` were left.
unfoldable pub before_heap : ℕ → ℕ → InputStream → Bool
before_heap start_heap opened s = ltb opened (start_heap + length s)

unfoldable pub unpack_struct :
    {A : Type 0}
    → Bool
    → ℕ
    → (A → (InputStream → Bool) → InputStream → Unpacked A)
    → A
    → InputStream
    → Unpacked A
unpack_struct ext fix_size members v s = do
  (start_heap, s') ← (if ext then unpack_number 2 s else ok (fix_size, s))
  members v (before_heap start_heap (length s')) s'

unfoldable pub unpack_members_of :
    (t : FracTy)
    → {A : Type 0} → (A → Bytes → A)
    → (A → (InputStream → Bool) → InputStream → Unpacked A)
    → A
    → InputStream
    → Unpacked A
unpack_members_of t of members v s =
    if can_memcpy t
    then unpack_object (fracpack_fixed_size t) of v s
    else unpack_struct (is_ext_structure t) (fracpack_fixed_size t) members v s

-- A member that is read while the stream stands before the heap, and else keeps its value.
unfoldable pub unpack_next :
    {A : Type 0} → Bool → (A → InputStream → Unpacked A) → A → InputStream → Unpacked A
unpack_next more member v s = if more then member v s else ok (v, s)

-- The stream that a member's offset leads to: `offset` from where the offset stands.
unfoldable pub unpack_at :
    {A : Type 0} → (A → InputStream → Unpacked A) → ℕ → A → InputStream → Result A
unpack_at f offset v s = sub_stream offset s >>= λ insubstream. f v insubstream >>= λ r. ok r.0

unfoldable pub unpack_container :
    {A : Type 0}
    → (List A → InputStream → Unpacked (List A))
    → List A
    → InputStream
    → Unpacked (List A)
unpack_container f v s = do
  (offset, s') ← unpack_number 4 s
  v' ← (if leb 4 offset then unpack_at f offset v s else ok [])
  ok (v', s')

unfoldable pub unpack_optional :
    {A : Type 0} → (A → InputStream → Unpacked A) → Result A → InputStream → Unpacked (Option A)
unpack_optional f d s = do
  (offset, s') ← unpack_number 4 s
  v ←
      (if offset == 0
        then (d >>= λ x. ok (some x))
        else if leb 4 offset
        then (d >>= λ x. unpack_at f offset x s >>= λ y. ok (some y))
        else ok none)
  ok (v, s')

unfoldable pub unpack_heap :
    {A : Type 0} → (A → InputStream → Unpacked A) → A → InputStream → Unpacked A
unpack_heap f v s = do (offset, s') ← unpack_number 4 s; v' ← unpack_at f offset v s; ok (v', s')

-- `init_variant_by_index`: a new alternative, or none if the index is not one's.
unfoldable pub init_type : (ts : FracTys) → ℕ → Result (Option (Alt ts))
init_type nil i = ok none
init_type (cons t ts) zero = initial t >>= λ d. ok (some (inl d))
init_type (cons t ts) (suc i) = init_type ts i >>= λ o. ok (later o)
  where
    later : Option (Alt ts) → Option (Alt (cons t ts))
    later none = none
    later (some v) = some (inr v)

unfoldable pub init_variant_by_index : (ts : FracTys) → ℕ → Alt ts → Result (Alt ts)
init_variant_by_index ts i v = init_type ts i >>= λ o. ok (assign o)
  where
    assign : Option (Alt ts) → Alt ts
    assign none = v
    assign (some w) = w

unfoldable pub unpack_variant :
    (ts : FracTys)
    → (Alt ts → InputStream → Unpacked (Alt ts))
    → Alt ts
    → InputStream
    → Unpacked (Alt ts)
unpack_variant ts f v s = do
  (idx, s') ← unpack_number 1 s
  w ← init_variant_by_index ts idx v
  f w s'

-- There is no `fracunpack` of an optional: it does not compile.
unfoldable mutual
  pub fracunpack : (t : FracTy) → El t → InputStream → Unpacked (El t)
  fracunpack (scalar n) v s = unpack_number n s
  fracunpack text v s = unpack_text s
  fracunpack (vec t) v s =
      unpack_vec (can_memcpy t) (fracpack_fixed_size t) (of_object t) (fracunpack_member t)
        (initial t) v s
  fracunpack (opt t) v s = stuck
  fracunpack (variant ts) v s = unpack_variant ts (visit_unpack ts) v s
  fracunpack (strct final dense ts) v s =
      unpack_members_of (strct final dense ts) (of_members ts) (fracunpack_members ts) v s

  pub fracunpack_member : (t : FracTy) → El t → InputStream → Unpacked (El t)
  fracunpack_member (scalar n) v s = unpack_number n s
  fracunpack_member text v s = unpack_container (λ w. unpack_text) v s
  fracunpack_member (vec t) v s =
      unpack_container
        (unpack_vec (can_memcpy t) (fracpack_fixed_size t) (of_object t) (fracunpack_member t)
          (initial t))
        v s
  fracunpack_member (opt t) v s = unpack_optional (fracunpack t) (initial t) s
  fracunpack_member (variant ts) v s = unpack_heap (unpack_variant ts (visit_unpack ts)) v s
  fracunpack_member (strct final dense ts) v s =
      let unpack =
        unpack_members_of (strct final dense ts) (of_members ts) (fracunpack_members ts) in
      if may_use_heap (strct final dense ts) then unpack_heap unpack v s else unpack v s

  pub fracunpack_members :
      (ts : FracTys) → Els ts → (InputStream → Bool) → InputStream → Unpacked (Els ts)
  fracunpack_members nil v more s = ok (tt, s)
  fracunpack_members (cons t ts) v more s = do
    (x, s') ← unpack_next (more s) (fracunpack_member t) v.0 s
    (xs, s'') ← fracunpack_members ts v.1 more s'
    ok ((x, xs), s'')

  pub visit_unpack : (ts : FracTys) → Alt ts → InputStream → Unpacked (Alt ts)
  visit_unpack nil v s = absurd v
  visit_unpack (cons t ts) (inl v) s = fracunpack t v s >>= λ r. ok (inl r.0, r.1)
  visit_unpack (cons t ts) (inr v) s = visit_unpack ts v s >>= λ r. ok (inr r.0, r.1)
