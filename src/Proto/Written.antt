-- ===== src/Proto/Written.antt =====
-- What to_protobuf.hpp writes to any stream, against the bytes of the value.
use clarion.Prelude.{
  ℕ, suc, ◌+◌, ◌*◌, ◌%◌, ◌^◌, ◌<◌, ◌≡◌, refl, sym, ap, ◌∙◌, List, [], ◌∷◌, ◌++◌, length, inl, inr,
  Bool, true, false, All, arith, length-append,
}
use clarion.Stream.{ok, Bytes}
use clarion.Stream.Sink.{Sink, write_then}
use clarion.Stream.Size
use clarion.Stream.Memory.{block, length-block}
use clarion.Varint.Groups.{varuint_bytes, varuint32_to_bin-bytes}
use clarion.Proto.Types.{Ty, Tys, El, Els, Alt, wire_type, is_empty}
use clarion.Proto.Types.{
  varint, varuint, flag, fixed, text, packed, vec, strct, tuple, variant, nil, cons,
}
use clarion.Proto.Write.{
  Writer, then_write, nothing, number_writer, promote, write_sized, write_nested, key,
  write_protobuf_field, write_packed, write_items, to_protobuf_member, write_fields,
  write_alternative, to_protobuf_object,
}
use clarion.Proto.Encode.{
  sized, key_bytes, field_bytes, items_bytes, packed_bytes, member_bytes, fields_bytes,
  alternative_bytes, object_bytes, IsObject, count, Numbered, IsProto, AreProto, IsValid, AreValid,
  AlternativeIsValid,
}
use clarion.Proto.Numbers.{tuple-Numbered, wire_type-lt, key_lem}

-- On any stream, the writer writes `b`.
abbrev pub Writes : Writer → Bytes → Type 1
Writes w b = (S : Type 0) (k : Sink S) (s : S) → w S k s ≡ k.write b s

nothing-Writes : Writes nothing []
nothing-Writes S k s = sym (k.write-nil s)

then_write-Writes :
    (f g : Writer) (a b : Bytes) → Writes f a → Writes g b → Writes (then_write f g) (a ++ b)
then_write-Writes f g a b hf hg S k s = rw (hf S k s) (write_then k a b (g S k) s (hg S k))

number_writer-Writes : (v : ℕ) → v < 2 ^ 32 → Writes (number_writer v) (varuint_bytes v)
unfolding number_writer
number_writer-Writes v h S k s = varuint32_to_bin-bytes k v s h

key-Writes :
    (field wire : ℕ)
    → field < 2 ^ 29
    → wire < 8
    → Writes (number_writer (key field wire)) (key_bytes field wire)
key-Writes field wire hf hw =
    rw (key_lem field wire hf hw) (number_writer-Writes (field * 8 + wire) (omega arith))

write_sized-Writes : (b : Bytes) → length b < 2 ^ 32 → Writes (write_sized b) (sized b)
unfolding write_sized
write_sized-Writes b h =
    then_write-Writes _ _ _ b (number_writer-Writes (length b) h) (λ S k s. refl)

write_nested-Writes :
    (object : Writer) (b : Bytes)
    → length b < 2 ^ 32
    → Writes object b
    → Writes (write_nested object) (sized b)
unfolding write_nested Size.write
write_nested-Writes object b h w S k s =
    let total : object ℕ Size.sink 0 ≡ ok (length b) = w ℕ Size.sink 0 ∙ ap ok (omega arith) in
    rw total (
      then_write-Writes (number_writer (length b)) object _ b (number_writer-Writes (length b) h) w
        S k s)

field-Writes :
    (field wire : ℕ) (empty : Bool) (member : Writer) (b : Bytes)
    → field < 2 ^ 29
    → wire < 8
    → (empty ≡ false → Writes member b)
    → Writes (write_protobuf_field field wire empty member) (field_bytes field wire empty b)
unfolding write_protobuf_field
field-Writes field wire true member b hf hw h = nothing-Writes
field-Writes field wire false member b hf hw h =
    then_write-Writes _ _ _ _ (key-Writes field wire hf hw) (h refl)

packed-Writes :
    (n : ℕ) (v : List ℕ)
    → length (packed_bytes n v) < 2 ^ 32
    → Writes (write_packed n v) (packed_bytes n v)
unfolding write_packed
packed-Writes n v h =
    let fits : length v * n < 2 ^ 32 = omega (
      arith,
      length-append (key_bytes 1 2) (sized (block n v)),
      length-append (varuint_bytes (length (block n v))) (block n v),
      length-block n v,
    ) in
    let size : length v * n % 2 ^ 32 ≡ length (block n v) = omega (arith, length-block n v) in
    then_write-Writes _ _ _ _ (key-Writes 1 2 (omega arith) (omega arith)) (
      rw size (
        then_write-Writes _ _ _ _
          (number_writer-Writes (length (block n v)) (omega (arith, length-block n v)))
          (λ S k s. refl)))

items-Writes {ℓ} :
    {A : Type ℓ} (P : A → Type 0) (w : A → Writer) (f : A → Bytes)
    → ((x : A) → P x → Writes (w x) (f x))
    → (v : List A) → All P v
    → Writes (write_items w v) (items_bytes f v)
unfolding write_items
items-Writes P w f h [] hv = nothing-Writes
items-Writes P w f h (x ∷ v) (hx, hv) =
    then_write-Writes _ _ _ _ (key-Writes 1 2 (omega arith) (omega arith))
      (then_write-Writes _ _ _ _ (h x hx) (items-Writes P w f h v hv))

mutual
  unfolding to_protobuf_member member_bytes promote is_empty

  member-Writes :
      (t : Ty) (v : El t)
      → IsProto t
      → IsValid t v
      → Writes (to_protobuf_member t v) (member_bytes t v)
  member-Writes (varint false n) v p h = number_writer-Writes v h.1
  member-Writes (varint true n) v p h =
      let same : promote true n v ≡ v = ground arith in rw same (number_writer-Writes v h.1)
  member-Writes varuint v p h = number_writer-Writes v h
  member-Writes flag true p h = number_writer-Writes 1 (omega arith)
  member-Writes flag false p h = number_writer-Writes 0 (omega arith)
  member-Writes (fixed n) v p h = λ S k s. refl
  member-Writes text v p h = write_sized-Writes v h
  member-Writes (packed n) v p h = write_nested-Writes _ _ h.1 (packed-Writes n v h.1)
  member-Writes (vec t) v p h = write_nested-Writes _ _ h.1 (
      items-Writes (IsValid t) (to_protobuf_member t) (member_bytes t) (λ x. member-Writes t x p) v
        h.0)
  member-Writes (strct number ts) v p h =
      write_nested-Writes _ _ h.1 (fields-Writes ts v number p.0 p.1 h.0)
  member-Writes (tuple ts) v p h =
      write_nested-Writes _ _ h.1 (fields-Writes ts v suc (tuple-Numbered (count ts) p.0) p.1 h.0)
  member-Writes (variant t ts) (inl v) (pn, p, ps) (hv, he, hs) = write_nested-Writes _ _ hs (
      field-Writes 1 (wire_type t) (is_empty t v) _ _ (omega arith) (wire_type-lt t p)
        (λ _. member-Writes t v p hv))
  member-Writes (variant t ts) (inr v) (pn, p, ps) h =
      write_nested-Writes _ _ h.1 (alternative-Writes ts v 2 (omega arith) ps h.0)

  fields-Writes :
      (ts : Tys) (v : Els ts) (number : ℕ → ℕ)
      → Numbered number (count ts)
      → AreProto ts
      → AreValid ts v
      → Writes (write_fields ts v number) (fields_bytes ts v number)
  fields-Writes nil v number n p h = nothing-Writes
  fields-Writes (cons t ts) v number (n, d, ns) (p, ps) (h, hs) =
      then_write-Writes _ _ _ _
        (field-Writes (number 0) (wire_type t) (is_empty t v.0) _ _ n (wire_type-lt t p)
          (λ _. member-Writes t v.0 p h))
        (fields-Writes ts v.1 (λ i. number (suc i)) ns ps hs)

  alternative-Writes :
      (ts : Tys) (v : Alt ts) (field : ℕ)
      → count ts + field < 2 ^ 29
      → AreProto ts
      → AlternativeIsValid ts v
      → Writes (write_alternative ts v field) (alternative_bytes ts v field)
  alternative-Writes nil v field n p h = absurd h
  alternative-Writes (cons t ts) (inl v) field n (p, ps) (h, he) =
      field-Writes field (wire_type t) (is_empty t v) _ _ (omega arith) (wire_type-lt t p)
        (λ _. member-Writes t v p h)
  alternative-Writes (cons t ts) (inr v) field n (p, ps) h =
      alternative-Writes ts v (suc field) (omega arith) ps h

pub object-Writes :
    (t : Ty) (v : El t)
    → IsObject t
    → IsProto t
    → IsValid t v
    → Writes (to_protobuf_object t v) (object_bytes t v)
unfolding to_protobuf_object object_bytes
object-Writes (packed n) v o p h = packed-Writes n v h.1
object-Writes (vec t) v o p h =
    items-Writes (IsValid t) (to_protobuf_member t) (member_bytes t) (λ x. member-Writes t x p) v
      h.0
object-Writes (strct number ts) v o p h = fields-Writes ts v number p.0 p.1 h.0
object-Writes (tuple ts) v o p h = fields-Writes ts v suc (tuple-Numbered (count ts) p.0) p.1 h.0
object-Writes (variant t ts) (inl v) o (pn, p, ps) h =
    field-Writes 1 (wire_type t) (is_empty t v) _ _ (omega arith) (wire_type-lt t p)
      (λ _. member-Writes t v p h.0)
object-Writes (variant t ts) (inr v) o (pn, p, ps) h =
    alternative-Writes ts v 2 (omega arith) ps h.0
object-Writes (varint signed n) v o p h = absurd o
object-Writes varuint v o p h =
    field-Writes 1 5 false _ _ (omega arith) (omega arith) (λ _ S k s. refl)
object-Writes flag v o p h = absurd o
object-Writes (fixed n) v o p h = absurd o
object-Writes text v o p h = absurd o
