-- ===== src/Proto/Runs.antt =====
-- Concrete runs, and the theorems at concrete inputs.
use clarion.Prelude.{suc, ◌≡◌, ◌≢◌, refl, [], ◌∷◌, ◌++◌, true, inl, inr, arith}
use clarion.Stream.{ok, err, stuck, overrun, invalid_tuple_index, ◌>>=◌}
use clarion.Stream.Memory.{le_bytes, of_le_bytes, block}
use clarion.Varint.Groups.{groups}
use clarion.Stream.FixedBuf
use clarion.Stream.Input.{read, copy, skip, advance}
use clarion.Stream.Size
use clarion.Varint.Read.{varuint32_from_bin, varuint_read}
use clarion.Varint.Write.{varuint32_to_bin, varuint_loop}
use clarion.Proto.Types.{Ty, Tys, El, Els, initial, initial_members, is_empty, wire_type}
use clarion.Proto.Types.{
  varint, varuint, flag, fixed, text, packed, vec, strct, tuple, variant, nil, cons,
}
use clarion.Proto.Write.{
  to_protobuf, key, number_writer, promote, to_protobuf_object, write_fields, write_protobuf_field,
}
use clarion.Proto.Read.{
  from_protobuf, skip_member, from_protobuf_object, get_member, get_or_skip, get_or_throw, into,
  key_number, key_wire, read_alternative, read_fields, read_loop, read_nested, read_packed,
  read_varuint32,
}
use clarion.Proto.Unknown.{skip_member-bytes}
use clarion.Proto.Encode.{object_bytes, member_bytes, IsProto, IsValid}
use clarion.Proto.Numbers.{tuple-Numbered}
use clarion.Proto.Members.{initial-IsFresh}
use clarion.Proto.Safe.{from_protobuf-ne-stuck}
use clarion.Proto.RoundTrip.{to_protobuf-object_bytes, from_protobuf-to_protobuf}
use clarion.Proto.Versions.{extended, from_protobuf-extended}
use clarion.Proto.Earlier.{from_protobuf-earlier}

-- struct { int16_t; vector<uint32_t>; vector<string>; variant<double, tuple<bool, string>> }
abbrev first_version : Tys
first_version = cons (varint true 2) (cons (packed 4) nil)

abbrev new_members : Tys
new_members =
    cons (vec text) (cons (variant (fixed 8) (cons (tuple (cons flag (cons text nil))) nil)) nil)

abbrev account : Ty
account = strct suc (extended first_version new_members)

abbrev alice : El account
alice = (300, (7 ∷ 8 ∷ [], ((b'x' ∷ []) ∷ [] ∷ [], (inr (inl (true, (b'a' ∷ b'l' ∷ [], tt))), tt))))

abbrev bob : Els first_version
bob = (5, (9 ∷ [], tt))

account-IsProto : IsProto account
account-IsProto = (
  tuple-Numbered 4 (omega arith),
  (tt, (omega arith, (tt, ((omega arith, inr refl, ((omega arith, (tt, (tt, tt))), tt)), tt)))),
)

alice-IsValid : IsValid account alice
unfolding member_bytes groups is_empty block le_bytes wire_type
alice-IsValid = (
  (omega arith, (omega arith, (omega arith, (((omega arith, refl), omega arith), tt)))),
  omega arith,
)

bob-IsValid : IsValid (strct suc first_version) bob
unfolding member_bytes groups is_empty block le_bytes wire_type
bob-IsValid = omega arith

-- Of a negative number of two bytes only the key is written, and it is not read back.
negative : to_protobuf (tuple (cons (varint true 2) nil)) (0xffff, tt) ≡ ok (8 ∷ [])
unfolding to_protobuf to_protobuf_object write_fields write_protobuf_field is_empty number_writer
    varuint32_to_bin key wire_type varuint_loop Size.write promote FixedBuf.write
negative = refl

negative_read : from_protobuf (tuple (cons (varint true 2) nil)) (0, tt) (8 ∷ []) ≡ err overrun
unfolding from_protobuf from_protobuf_object read_fields read_loop varuint32_from_bin varuint_read
    get_or_throw get_member key_number into
negative_read = refl

-- Of a variant that holds an empty vector nothing is written, and nothing is not read back.
empty_alternative : to_protobuf (variant (packed 4) nil) (inl []) ≡ ok []
unfolding to_protobuf to_protobuf_object write_protobuf_field is_empty
empty_alternative = refl

empty_alternative_read : from_protobuf (variant (packed 4) nil) (inl []) [] ≡ err overrun
unfolding from_protobuf from_protobuf_object read_alternative varuint32_from_bin varuint_read
empty_alternative_read = refl

-- Three bytes are read into a vector without elements.
part_of_an_element : from_protobuf (packed 4) [] (10 ∷ 3 ∷ 1 ∷ 2 ∷ 3 ∷ []) ≡ stuck
unfolding from_protobuf from_protobuf_object read_packed varuint32_from_bin varuint_read key_number
    read copy
part_of_an_element = refl

-- A varuint32 is written as a varint, which is then read as the size of an object.
varuint32_written : to_protobuf (tuple (cons varuint nil)) (5, tt) ≡ ok (8 ∷ 5 ∷ [])
unfolding to_protobuf to_protobuf_object write_fields write_protobuf_field is_empty number_writer
    varuint32_to_bin key wire_type varuint_loop Size.write FixedBuf.write
varuint32_written = refl

varuint32_not_read : from_protobuf (tuple (cons varuint nil)) (0, tt) (8 ∷ 5 ∷ []) ≡ err overrun
unfolding from_protobuf from_protobuf_object read_fields read_loop varuint32_from_bin varuint_read
    get_or_throw get_member key_number into read_nested
varuint32_not_read = refl

varuint32_as_object :
    from_protobuf (tuple (cons varuint nil)) (0, tt) (10 ∷ 5 ∷ 13 ∷ 7 ∷ 0 ∷ 0 ∷ 0 ∷ []) ≡ ok (7, tt)
unfolding from_protobuf from_protobuf_object read_fields read_loop varuint32_from_bin varuint_read
    get_or_throw get_member key_number key_wire into read_nested read_varuint32 get_or_skip read
    skip copy advance of_le_bytes
varuint32_as_object = refl

-- A struct skips the field that a tuple throws for.
unknown_field : from_protobuf (tuple nil) tt (8 ∷ 1 ∷ []) ≡ invalid_tuple_index
unfolding from_protobuf from_protobuf_object read_fields read_loop varuint32_from_bin varuint_read
    get_or_throw get_member
unknown_field = refl

skipped_field : from_protobuf (strct suc nil) tt (8 ∷ 1 ∷ []) ≡ ok tt
unfolding from_protobuf from_protobuf_object read_fields read_loop varuint32_from_bin varuint_read
    get_or_skip get_member skip_member key_wire
skipped_field = refl

from_protobuf-to_protobuf_example :
    (to_protobuf account alice >>= from_protobuf account (initial account)) ≡ ok alice
from_protobuf-to_protobuf_example =
    from_protobuf-to_protobuf account (initial account) alice tt account-IsProto
      (tt, (tt, (tt, ((tt, ((tt, (tt, tt)), tt)), tt)))) (initial-IsFresh account) alice-IsValid

to_protobuf-object_bytes_example : to_protobuf account alice ≡ ok (object_bytes account alice)
to_protobuf-object_bytes_example =
    to_protobuf-object_bytes account alice tt account-IsProto alice-IsValid

from_protobuf-extended_example :
    (to_protobuf account alice
      >>= from_protobuf (strct suc first_version) (initial_members first_version))
    ≡ ok (300, (7 ∷ 8 ∷ [], tt))
unfolding initial_members initial
from_protobuf-extended_example =
    from_protobuf-extended suc first_version new_members (initial_members first_version) alice
      account-IsProto (tt, (tt, tt)) (initial-IsFresh (strct suc first_version)) alice-IsValid

from_protobuf-earlier_example :
    (to_protobuf (strct suc first_version) bob >>= from_protobuf account (1, ([], alice.1.1)))
    ≡ ok (5, (9 ∷ [], alice.1.1))
from_protobuf-earlier_example =
    from_protobuf-earlier suc first_version new_members (1, ([], alice.1.1)) bob account-IsProto
      (tt, (tt, tt)) (tt, (refl, tt)) bob-IsValid

skip_member-bytes_example : skip_member 2 (member_bytes account alice ++ 1 ∷ []) ≡ ok (1 ∷ [])
unfolding wire_type
skip_member-bytes_example = skip_member-bytes account alice (1 ∷ []) account-IsProto alice-IsValid

from_protobuf-ne-stuck_example :
    from_protobuf (tuple (cons (packed 1) (cons (vec text) nil))) ([], ([], tt)) (10 ∷ 200 ∷ 1 ∷ [])
    ≢ stuck
from_protobuf-ne-stuck_example =
    from_protobuf-ne-stuck (tuple (cons (packed 1) (cons (vec text) nil))) ([], ([], tt))
      (10 ∷ 200 ∷ 1 ∷ []) tt (refl, (tt, tt))
