-- ===== src/Proto/Write.antt =====
-- to_protobuf.hpp, to any stream.
use Prim.Native.Nat.{bit_or}
use clarion.Prelude.{
  ℕ, suc, ◌+◌, ◌-◌, ◌*◌, ◌/◌, ◌%◌, ◌^◌, List, [], ◌∷◌, length, replicate, Bool, true, false, inl,
  inr, ltb, if◌then◌else◌,
}
use clarion.Stream.{Result, ok, err, stuck, underrun, Bytes, ◌>>=◌}
use clarion.Stream.Sink.{Sink}
use clarion.Stream.Size
use clarion.Stream.FixedBuf
use clarion.Stream.Memory.{le_bytes, block}
use clarion.Varint.Write.{varuint32_to_bin}
use clarion.Proto.Types.{Ty, Tys, El, Els, Alt, wire_type, is_empty}
use clarion.Proto.Types.{
  varint, varuint, flag, fixed, text, packed, vec, strct, tuple, variant, nil, cons,
}

-- A function template over the stream.
abbrev pub Writer : Type 1
Writer = (S : Type 0) → Sink S → S → Result S

abbrev pub nothing : Writer
nothing S k s = ok s

abbrev pub bytes_writer : Bytes → Writer
bytes_writer b S k s = k.write b s

abbrev pub then_write : Writer → Writer → Writer
then_write f g S k s = f S k s >>= g S k

unfoldable pub number_writer : ℕ → Writer
number_writer v S k s = varuint32_to_bin k v s

-- The bit pattern of `n` bytes as a uint64_t.
unfoldable pub promote : Bool → ℕ → ℕ → ℕ
promote false n v = v
promote true n v = if ltb v (256 ^ n / 2) then v else 2 ^ 64 - 256 ^ n + v

-- A string: its size and its bytes.
unfoldable pub write_sized : Bytes → Writer
write_sized b = then_write (number_writer (length b)) (bytes_writer b)

-- An object in an object: a pass to a `size_stream`, the size, and a pass to the stream.
unfoldable pub write_nested : Writer → Writer
write_nested object S k s = do
  size ← object ℕ Size.sink 0
  s' ← number_writer size S k s
  object S k s'

-- `(field << 3) | wire_type`, a uint32_t.
unfoldable pub key : ℕ → ℕ → ℕ
key field wire = bit_or wire (field * 2 ^ 3 % 2 ^ 32)

unfoldable pub write_protobuf_field : ℕ → ℕ → Bool → Writer → Writer
write_protobuf_field field wire empty member =
    if empty then nothing else then_write (number_writer (key field wire)) member

-- A vector of an arithmetic type is one field, and any other a field for each element.
unfoldable pub write_packed : ℕ → List ℕ → Writer
write_packed n v =
    then_write (number_writer (key 1 2))
      (then_write (number_writer (length v * n % 2 ^ 32)) (bytes_writer (block n v)))

unfoldable pub write_items {ℓ} : {A : Type ℓ} → (A → Writer) → List A → Writer
write_items member [] = nothing
write_items member (x ∷ v) =
    then_write (number_writer (key 1 2)) (then_write (member x) (write_items member v))

unfoldable mutual
  pub to_protobuf_member : (t : Ty) → El t → Writer
  to_protobuf_member (varint signed n) v = number_writer (promote signed n v)
  to_protobuf_member varuint v = number_writer v
  to_protobuf_member flag v = number_writer (if v then 1 else 0)
  to_protobuf_member (fixed n) v = bytes_writer (le_bytes n v)
  to_protobuf_member text v = write_sized v
  to_protobuf_member (packed n) v = write_nested (write_packed n v)
  to_protobuf_member (vec t) v = write_nested (write_items (to_protobuf_member t) v)
  to_protobuf_member (strct number ts) v = write_nested (write_fields ts v number)
  to_protobuf_member (tuple ts) v = write_nested (write_fields ts v suc)
  to_protobuf_member (variant t ts) (inl v) =
      write_nested (write_protobuf_field 1 (wire_type t) (is_empty t v) (to_protobuf_member t v))
  to_protobuf_member (variant t ts) (inr v) = write_nested (write_alternative ts v 2)

  -- The members in order, with their field numbers.
  pub write_fields : (ts : Tys) → Els ts → (ℕ → ℕ) → Writer
  write_fields nil v number = nothing
  write_fields (cons t ts) v number =
      then_write
        (write_protobuf_field (number 0) (wire_type t) (is_empty t v.0) (to_protobuf_member t v.0))
        (write_fields ts v.1 (λ i. number (suc i)))

  -- The alternative that the variant holds, as the field of its index and one.
  pub write_alternative : (ts : Tys) → Alt ts → ℕ → Writer
  write_alternative nil v field = absurd v
  write_alternative (cons t ts) (inl v) field =
      write_protobuf_field field (wire_type t) (is_empty t v) (to_protobuf_member t v)
  write_alternative (cons t ts) (inr v) field = write_alternative ts v (suc field)

-- The overloads of `to_protobuf_object`; there is none for the other types. A varuint32 alone is written as a
-- reflected struct is, its member `value` as the field 1.
unfoldable pub to_protobuf_object : (t : Ty) → El t → Writer
to_protobuf_object (varint signed n) v = λ S k s. stuck
to_protobuf_object varuint v = write_protobuf_field 1 5 false (bytes_writer (le_bytes 4 v))
to_protobuf_object flag v = λ S k s. stuck
to_protobuf_object (fixed n) v = λ S k s. stuck
to_protobuf_object text v = λ S k s. stuck
to_protobuf_object (packed n) v = write_packed n v
to_protobuf_object (vec t) v = write_items (to_protobuf_member t) v
to_protobuf_object (strct number ts) v = write_fields ts v number
to_protobuf_object (tuple ts) v = write_fields ts v suc
to_protobuf_object (variant t ts) (inl v) =
    write_protobuf_field 1 (wire_type t) (is_empty t v) (to_protobuf_member t v)
to_protobuf_object (variant t ts) (inr v) = write_alternative ts v 2

-- `to_protobuf(t)`: a buffer of the size that the first pass counts, which the second pass must fill.
unfoldable pub to_protobuf : (t : Ty) → El t → Result Bytes
to_protobuf t v = do
  size ← to_protobuf_object t v ℕ Size.sink 0
  fbs ←
      to_protobuf_object t v FixedBuf.FixedBufStream FixedBuf.sink
        (record { before = []; after = replicate size 0 })
  if ltb 0 (length fbs.after) then err underrun else ok fbs.before
