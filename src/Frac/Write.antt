-- ===== src/Frac/Write.antt =====
-- `fracpack` and `fracpack_member` to a `fixed_buf_stream`.
use clarion.Prelude.{
  ℕ, ◌+◌, ◌-◌, ◌*◌, ◌%◌, ◌^◌, List, [], ◌∷◌, ◌++◌, length, take, Bool, true, false, none, some, inl,
  inr, ltb, if◌then◌else◌,
}
use clarion.Stream.{Result, ok, Bytes, ◌>>=◌}
use clarion.Stream.Memory.{le_bytes}
use clarion.Frac.Types.{
  FracTy, FracTys, El, Els, Alt, index, can_memcpy, may_use_heap, is_ext_structure,
  fracpack_fixed_size,
}
use clarion.Frac.Types.{scalar, text, vec, opt, variant, strct, nil, cons}
use clarion.Frac.Memory.{Out, write, consumed, substream}

-- The result is the number of bytes, or the start of the heap, and the stream behind what was written.
abbrev pub Packed : Type 0
Packed = Result (ℕ × Out)

-- A value that memcpy copies, as it lies in memory.
unfoldable mutual
  pub object_bytes : (t : FracTy) → El t → Bytes
  object_bytes (scalar n) v = le_bytes n v
  object_bytes text v = []
  object_bytes (vec t) v = []
  object_bytes (opt t) v = []
  object_bytes (variant ts) v = []
  object_bytes (strct final dense ts) v = members_bytes ts v

  pub members_bytes : (ts : FracTys) → Els ts → Bytes
  members_bytes nil v = []
  members_bytes (cons t ts) v = object_bytes t v.0 ++ members_bytes ts v.1

unfoldable pub array_bytes {ℓ} : {A : Type ℓ} → (A → Bytes) → List A → Bytes
array_bytes f [] = []
array_bytes f (x ∷ xs) = f x ++ array_bytes f xs

-- `pack_on_heap`: an offset from its own place to the end of the heap, and the value there. `start_heap`
-- is a uint16_t.
unfoldable pub pack_on_heap : (Out → Packed) → ℕ → Out → Packed
pack_on_heap pack start_heap o = do
  let offset = (start_heap + 2 ^ 64 - consumed o) % 2 ^ 32
  o' ← write (le_bytes 4 offset) o
  (ps, o'') ← pack (substream (o'.pos + offset - 4) (o'.end - o'.pos) o')
  ok ((start_heap + ps) % 2 ^ 16, record o' { cells = o''.cells })

-- What stands for an absent optional (1), and for an empty string or vector (0).
unfoldable pub pack_mark : ℕ → ℕ → Out → Packed
pack_mark tomb start_heap o = write (le_bytes 4 tomb) o >>= λ o'. ok (start_heap, o')

unfoldable pub pack_inline : (Out → Packed) → ℕ → Out → Packed
pack_inline pack start_heap o = pack o >>= λ r. ok (start_heap, r.1)

-- A size, and the bytes if there are any.
unfoldable pub pack_sized : ℕ → Bytes → Out → Packed
pack_sized s b o = do
  o' ← write (le_bytes 4 s) o
  o'' ← (if ltb 0 s then write (take s b) o' else ok o')
  ok ((s + 4) % 2 ^ 32, o'')

unfoldable pub pack_object : ℕ → Bytes → Out → Packed
pack_object n b o = write b o >>= λ o'. ok (n, o')

unfoldable pub pack_items {ℓ} : {A : Type ℓ} → (A → ℕ → Out → Packed) → List A → ℕ → Out → Packed
pack_items f [] h o = ok (h, o)
pack_items f (x ∷ xs) h o = f x h o >>= λ r. pack_items f xs r.0 r.1

-- A vector whose elements are not copied by memcpy: the size of its offsets, and the elements as members.
unfoldable pub pack_offsets {ℓ} : {A : Type ℓ} → (A → ℕ → Out → Packed) → List A → Out → Packed
pack_offsets f v o = do
  let s = length v * 4 % 2 ^ 32
  o' ← write (le_bytes 4 s) o
  pack_items f v ((s + 4) % 2 ^ 16) o'

-- A struct that is not copied by memcpy: the start of its heap, if it can be extended, and the members.
unfoldable pub pack_struct : Bool → ℕ → (ℕ → Out → Packed) → Out → Packed
pack_struct ext start_heap members o =
    if ext
    then (write (le_bytes 2 start_heap) o >>= λ o'. members ((start_heap + 2) % 2 ^ 16) o')
    else members start_heap o

unfoldable pub pack_variant : ℕ → (Out → Packed) → Out → Packed
pack_variant i alternative o = do
  o' ← write ((i % 256) ∷ []) o
  (msize, o'') ← alternative o'
  ok ((1 + msize) % 2 ^ 32, o'')

-- An optional vector or string is packed as a member itself.
unfoldable pub is_container : FracTy → Bool
is_container (scalar n) = false
is_container text = true
is_container (vec t) = true
is_container (opt t) = false
is_container (variant ts) = false
is_container (strct final dense ts) = false

unfoldable pub pack_vec {ℓ} :
    {A : Type ℓ} → Bool → ℕ → (A → Bytes) → (A → ℕ → Out → Packed) → List A → Out → Packed
pack_vec copied fix_size bytes member v o =
    if copied
    then pack_sized (length v * fix_size % 2 ^ 32) (array_bytes bytes v) o
    else pack_offsets member v o

unfoldable pub pack_members_of : FracTy → Bytes → (ℕ → Out → Packed) → Out → Packed
pack_members_of t bytes members o =
    if can_memcpy t
    then pack_object (fracpack_fixed_size t) bytes o
    else pack_struct (is_ext_structure t) (fracpack_fixed_size t) members o

-- `fracpack` returns 0 for an optional.
unfoldable mutual
  pub fracpack : (t : FracTy) → El t → Out → Packed
  fracpack (scalar n) v o = pack_object n (le_bytes n v) o
  fracpack text v o = pack_sized (length v % 2 ^ 32) v o
  fracpack (vec t) v o =
      pack_vec (can_memcpy t) (fracpack_fixed_size t) (object_bytes t) (fracpack_member t) v o
  fracpack (opt t) none o = write (le_bytes 4 1) o >>= λ o'. ok (0, o')
  fracpack (opt t) (some v) o =
      write (le_bytes 4 4) o >>= λ o'. fracpack t v o' >>= λ r. ok (0, r.1)
  fracpack (variant ts) v o = pack_variant (index ts v) (visit ts v) o
  fracpack (strct final dense ts) v o =
      pack_members_of (strct final dense ts) (members_bytes ts v) (fracpack_members ts v) o

  pub fracpack_member : (t : FracTy) → El t → ℕ → Out → Packed
  fracpack_member (scalar n) v h o = pack_inline (pack_object n (le_bytes n v)) h o
  fracpack_member text [] h o = pack_mark 0 h o
  fracpack_member text (c ∷ v) h o = pack_on_heap (pack_sized (length (c ∷ v) % 2 ^ 32) (c ∷ v)) h o
  fracpack_member (vec t) [] h o = pack_mark 0 h o
  fracpack_member (vec t) (x ∷ v) h o =
      pack_on_heap
        (pack_vec (can_memcpy t) (fracpack_fixed_size t) (object_bytes t) (fracpack_member t)
          (x ∷ v))
        h o
  fracpack_member (opt t) none h o = pack_mark 1 h o
  fracpack_member (opt t) (some v) h o =
      if is_container t then fracpack_member t v h o else pack_on_heap (fracpack t v) h o
  fracpack_member (variant ts) v h o = pack_on_heap (pack_variant (index ts v) (visit ts v)) h o
  fracpack_member (strct final dense ts) v h o =
      let pack =
        pack_members_of (strct final dense ts) (members_bytes ts v) (fracpack_members ts v) in
      if may_use_heap (strct final dense ts) then pack_on_heap pack h o else pack_inline pack h o

  pub fracpack_members : (ts : FracTys) → Els ts → ℕ → Out → Packed
  fracpack_members nil v h o = ok (h, o)
  fracpack_members (cons t ts) v h o =
      fracpack_member t v.0 h o >>= λ r. fracpack_members ts v.1 r.0 r.1

  -- `std::visit` of the alternative that the variant holds.
  pub visit : (ts : FracTys) → Alt ts → Out → Packed
  visit nil v o = absurd v
  visit (cons t ts) (inl v) o = fracpack t v o
  visit (cons t ts) (inr v) o = visit ts v o
