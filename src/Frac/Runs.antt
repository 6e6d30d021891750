-- ===== src/Frac/Runs.antt =====
-- Concrete runs, and the theorems at concrete inputs.
use clarion.Prelude.{
  ◌+◌, ◌^◌, ◌<◌, ◌≡◌, ◌≢◌, refl, [], ◌∷◌, ◌++◌, length, true, false, none, some, inl, inr, arith,
}
use clarion.Stream.{ok, err, stuck, overrun, length_error, StreamError, Bytes}
use clarion.Stream.Check
use clarion.Stream.Check.{open_at, checkread}
use clarion.Stream.Memory.{le_bytes, of_le_bytes}
use clarion.Stream.Input.{InputStream, read, sub_stream, copy}
use clarion.Frac.Types.{
  FracTy, FracTys, El, can_memcpy, is_fixed_structure, is_ext_structure, may_use_heap, width,
  widths, fracpack_fixed_size,
}
use clarion.Frac.Types.{scalar, text, vec, opt, variant, strct, nil, cons}
use clarion.Frac.Memory
use clarion.Frac.Memory.{Out, substream}
use clarion.Frac.Write.{
  pack_members_of, pack_struct, pack_on_heap, pack_sized, fracpack, is_container, array_bytes,
  object_bytes,
}
use clarion.Frac.Encode.{pack, header, sized, items}
use clarion.Frac.Place.{Fits, Filled}
use clarion.Frac.Valid.{WellFormed, IsValid}
use clarion.Frac.Packed.{fracpack-pack}
use clarion.Frac.Size.{fracpack_size}
use clarion.Frac.Sized.{fracpack_size-pack}
use clarion.Frac.Read.{
  fracunpack, unpack_variant, unpack_number, init_variant_by_index, init_type, unpack_vec,
  unpack_copied, copy_objects, resize, initial,
}
use clarion.Frac.Check.{
  fraccheck, check_number, check_sized, check_items, check_vec, check_at, check_far,
}
use clarion.Frac.Safe.{fraccheck-fracunpack}
use clarion.Frac.Accepts.{frac_ptr-validate}
use clarion.Frac.RoundTrip.{fracunpack-pack}
use clarion.Frac.Versions.{extend, join_members, fracunpack-newer, fracunpack-older}
use clarion.Frac.Pointer.{
  Allocation, validate, frac_ptr, frac_ptr-pack, frac_ptr-unpack, size, load, unpack,
}

-- struct { uint32_t; string; optional<uint64_t>; vector<uint16_t>; variant<uint8_t, string> }
abbrev members : FracTys
members = cons (scalar 4) (
    cons text (
      cons (opt (scalar 8))
        (cons (vec (scalar 2)) (cons (variant (cons (scalar 1) (cons text nil))) nil))))

abbrev order_type : FracTy
order_type = strct false false members

abbrev order : El order_type
order = (7, (b'a' ∷ b'b' ∷ [], (some 5, (1 ∷ 2 ∷ [], (inr (inl (b'z' ∷ [])), tt)))))

abbrev empty_order : El order_type
empty_order = (0, ([], (none, ([], (inl 0, tt)))))

packed_order : length (pack order_type order) ≡ 50
unfolding pack items array_bytes object_bytes may_use_heap width widths can_memcpy header
    is_ext_structure is_fixed_structure sized is_container le_bytes
packed_order = refl

order-WellFormed : WellFormed order_type
unfolding may_use_heap width widths
order-WellFormed = (
  (
    omega arith,
    (tt, ((omega arith, refl), (omega arith, ((tt, (omega arith, refl, (tt, refl, tt))), tt)))),
  ),
  omega arith,
  inr refl,
)

order-IsValid : IsValid order_type order
order-IsValid = omega arith

order_size : length (pack order_type order) < 2 ^ 16
order_size = let e = packed_order in omega arith

room : Out
room = record { cells = λ i. 255; size = 100; begin = 8; pos = 8; end = 90 }

room-Fits : Fits room (length (pack order_type order))
unfolding room
room-Fits = let e = packed_order in omega arith

fracpack-pack_example :
    (o' : Out) × (fracpack order_type order room ≡ ok (length (pack order_type order), o'))
    × Filled room o' (pack order_type order)
unfolding room
fracpack-pack_example =
    fracpack-pack order_type order room order-WellFormed refl order-IsValid order_size room-Fits
      refl

fracpack_size-pack_example : fracpack_size order_type order ≡ length (pack order_type order)
fracpack_size-pack_example = fracpack_size-pack order_type order order-WellFormed refl order_size

fracunpack-pack_example :
    (s : InputStream) × (fracunpack order_type empty_order (pack order_type order ++ 1 ∷ [])
      ≡ ok (order, s))
fracunpack-pack_example =
    fracunpack-pack order_type order empty_order (1 ∷ []) order-WellFormed refl order-IsValid
      order_size

frac_ptr-pack_example :
    (a : Allocation) × (frac_ptr order_type order (λ i. 7) ≡ ok a)
    × (a.size ≡ length (pack order_type order) + 4)
    × (size a ≡ length (pack order_type order))
    × (load 4 (length (pack order_type order)) a.cells ≡ pack order_type order)
frac_ptr-pack_example =
    frac_ptr-pack order_type order (λ i. 7) order-WellFormed refl order-IsValid order_size

frac_ptr-unpack_example :
    (a : Allocation) × (frac_ptr order_type order (λ i. 7) ≡ ok a)
    × (unpack order_type empty_order a ≡ ok order)
frac_ptr-unpack_example =
    frac_ptr-unpack order_type order empty_order (λ i. 7) order-WellFormed refl order-IsValid
      order_size

-- struct { uint32_t; string }, and the same with an optional<uint8_t> behind.
abbrev older : FracTys
older = cons (scalar 4) (cons text nil)

abbrev added : FracTys
added = cons (opt (scalar 1)) nil

fracunpack-newer_example :
    (s : InputStream) × (fracunpack
        (strct false true (extend older added))
        (join_members older added (0, ([], tt)) (some 3, tt))
        (pack (strct false true older) (5, (b'x' ∷ [], tt)) ++ [])
      ≡ ok (join_members older added (5, (b'x' ∷ [], tt)) (some 3, tt), s))
unfolding may_use_heap width widths pack can_memcpy header is_ext_structure is_fixed_structure sized
    is_container le_bytes
fracunpack-newer_example =
    fracunpack-newer true true older added (5, (b'x' ∷ [], tt)) (0, ([], tt)) (some 3, tt) []
      (omega arith, omega arith, inr refl) (omega arith) (omega arith)

fracunpack-older_example :
    (s : InputStream) × (fracunpack
        (strct false true older)
        (0, ([], tt))
        (pack
            (strct false true (extend older added))
            (join_members older added (5, (b'x' ∷ [], tt)) (some 3, tt))
          ++ [])
      ≡ ok ((5, (b'x' ∷ [], tt)), s))
unfolding may_use_heap width widths pack can_memcpy header is_ext_structure is_fixed_structure sized
    is_container le_bytes
fracunpack-older_example =
    fracunpack-older true true older added (5, (b'x' ∷ [], tt)) (0, ([], tt)) (some 3, tt) []
      ((omega arith, (tt, ((omega arith, refl), tt))), omega arith, inr refl) (omega arith)
      (omega arith)

-- Two strings, the second one empty; and the same without its last byte.
abbrev names : Bytes
names = 8 ∷ 0 ∷ 0 ∷ 0 ∷ 8 ∷ 0 ∷ 0 ∷ 0 ∷ 0 ∷ 0 ∷ 0 ∷ 0 ∷ 2 ∷ 0 ∷ 0 ∷ 0 ∷ b'h' ∷ b'i' ∷ []

abbrev cut_names : Bytes
cut_names = 8 ∷ 0 ∷ 0 ∷ 0 ∷ 8 ∷ 0 ∷ 0 ∷ 0 ∷ 0 ∷ 0 ∷ 0 ∷ 0 ∷ 2 ∷ 0 ∷ 0 ∷ 0 ∷ b'h' ∷ []

names_checked :
    fraccheck (vec text) (open_at names)
    ≡ ok (record { rest = 2 ∷ 0 ∷ 0 ∷ 0 ∷ b'h' ∷ b'i' ∷ []; total_read = 18 })
unfolding fraccheck check_vec can_memcpy check_sized check_number check_items check_at check_far
    checkread sub_stream Check.read open_at of_le_bytes
names_checked = refl

cut_names_checked : fraccheck (vec text) (open_at cut_names) ≡ err overrun
unfolding fraccheck check_vec can_memcpy check_sized check_number check_items check_at check_far
    checkread sub_stream Check.read open_at of_le_bytes
cut_names_checked = refl

fraccheck-fracunpack_example :
    ((e : StreamError) → fracunpack (vec text) [] names ≢ err e)
    × (fracunpack (vec text) [] names ≢ length_error)
fraccheck-fracunpack_example = fraccheck-fracunpack (vec text) [] names _ names_checked

-- Five bytes for a vector of uint16_t: they are accepted, and read into the two elements.
abbrev odd : Bytes
odd = 5 ∷ 0 ∷ 0 ∷ 0 ∷ 1 ∷ 0 ∷ 2 ∷ 0 ∷ 3 ∷ []

odd_checked : fraccheck (vec (scalar 2)) (open_at odd) ≡ ok (record { rest = []; total_read = 9 })
unfolding fraccheck check_vec can_memcpy check_sized check_number check_items check_at check_far
    checkread sub_stream Check.read open_at of_le_bytes
odd_checked = refl

odd_unpacked : fracunpack (vec (scalar 2)) [] odd ≡ stuck
unfolding fracunpack unpack_vec can_memcpy width fracpack_fixed_size unpack_copied copy_objects
    initial resize unpack_number read of_le_bytes copy
odd_unpacked = refl

-- An index that is no alternative's leaves the variant as it was, and its bytes are read as that.
unknown_index : fracunpack (variant (cons (scalar 1) nil)) (inl 7) (9 ∷ 5 ∷ []) ≡ ok (inl 5, [])
unfolding fracunpack unpack_variant unpack_number read init_variant_by_index init_type initial
    of_le_bytes copy
unknown_index = refl

-- A stream whose end is the end of the memory: the string of struct { string; uint32_t } is written behind it,
-- since the stream over the heap ends as far behind its start as the outer one ends behind its position.
abbrev too_small : Out
too_small = record { cells = λ i. 0; size = 10; begin = 0; pos = 0; end = 10 }

behind_memory :
    fracpack (strct false false (cons text (cons (scalar 4) nil))) (b'x' ∷ [], (7, tt)) too_small
    ≡ stuck
unfolding fracpack pack_members_of can_memcpy pack_struct is_ext_structure is_fixed_structure
    Memory.write le_bytes pack_on_heap pack_sized substream fracpack_fixed_size width may_use_heap
    Memory.consumed
behind_memory = refl

-- struct { uint32_t; vector<string> }
abbrev list_type : FracTy
list_type = strct false false (cons (scalar 4) (cons (vec text) nil))

abbrev list_value : El list_type
list_value = (9, ((b'h' ∷ b'i' ∷ []) ∷ [] ∷ [], tt))

list_size : length (pack list_type list_value) ≡ 28
unfolding pack items may_use_heap width widths can_memcpy header is_ext_structure is_fixed_structure
    sized le_bytes
list_size = refl

frac_ptr-validate_example :
    (a : Allocation) × (frac_ptr list_type list_value (λ i. 7) ≡ ok a)
    × (validate list_type a ≡ ok true)
unfolding may_use_heap width widths
frac_ptr-validate_example =
    let len = list_size in
    frac_ptr-validate list_type list_value (λ i. 7)
      ((omega arith, ((tt, omega arith, omega arith), tt)), omega arith, inr refl) refl
      (tt, (tt, tt)) (omega arith) (omega arith)
