-- ===== src/Proto/Objects.antt =====
-- What from_protobuf.hpp reads of the bytes of a value of any type.
use native.Mathlib.Nat.{mod-eq_of_lt}
use clarion.Prelude.{ℕ, suc, ◌%◌, ◌^◌, ◌≡◌, refl, sym, [], inl, inr, true, false, ◌==◌, arith}
use clarion.Stream.{ok, >>=-ok}
use clarion.Stream.Input.{read-append}
use clarion.Stream.Memory.{le_bytes, length-le_bytes, of_le_bytes-le_bytes}
use clarion.Varint.RoundTrip.{varuint32_from_bin-bytes}
use clarion.Proto.Types.{Ty, Tys, El, Els, Alt, wire_type, is_empty, initial}
use clarion.Proto.Types.{
  varint, varuint, flag, fixed, text, packed, vec, strct, tuple, variant, nil, cons,
}
use clarion.Proto.Read.{
  into, get_or_skip, get_or_throw, from_protobuf_member, get_member, from_protobuf_object,
}
use clarion.Proto.Encode.{
  field_bytes, member_bytes, fields_bytes, alternative_bytes, object_bytes, IsObject, count,
  IsProto, AreProto, ReadsBack, AllReadBack, IsValid, AreValid, AlternativeIsValid, IsFresh,
  AreFresh,
}
use clarion.Proto.Numbers.{tuple-Numbered}
use clarion.Proto.Members.{initial-IsFresh, read_alternative-Reads}
use clarion.Proto.Loops.{
  Reads, Goes, read_fields-Goes, read_sized-Reads, read_nested-Reads, read_packed-bytes, Goes-items,
}
use clarion.Proto.Fields.{MembersRead, AlternativeReads, Goes-fields, read_alternative-bytes}

-- The rounds of a struct.
pub strct-Goes :
    (number : ℕ → ℕ) (ts : Tys) (old v : Els ts)
    → IsProto (strct number ts)
    → AreFresh ts old
    → MembersRead ts old v
    → Goes
        (λ w field wire. get_or_skip (get_member ts w number field) w wire)
        (fields_bytes ts v number)
        old
        v
unfolding into get_or_skip
strct-Goes number ts old v p f h =
    Goes-fields ts old v number (λ w. w) _ p.0 p.1 f h
      (λ w n wire g s found. rw found (sym (>>=-ok (g s))))

-- A struct, a tuple, and a variant, whose parts are read.
strct_read :
    (number : ℕ → ℕ) (ts : Tys) (old v : Els ts)
    → IsProto (strct number ts)
    → AreFresh ts old
    → MembersRead ts old v
    → from_protobuf_object (strct number ts) old (fields_bytes ts v number) ≡ ok (v, [])
unfolding from_protobuf_object
strct_read number ts old v p f h = read_fields-Goes _ _ old v (strct-Goes number ts old v p f h)

tuple_read :
    (ts : Tys) (old v : Els ts)
    → IsProto (tuple ts)
    → AreFresh ts old
    → MembersRead ts old v
    → from_protobuf_object (tuple ts) old (fields_bytes ts v suc) ≡ ok (v, [])
unfolding from_protobuf_object into get_or_throw
tuple_read ts old v p f h = read_fields-Goes _ _ old v (
    Goes-fields ts old v suc (λ w. w) _ (tuple-Numbered (count ts) p.0) p.1 f h
      (λ w n wire g s found. rw found (sym (>>=-ok (g s)))))

first_read :
    (t : Ty) (ts : Tys) (old : El (variant t ts)) (v : El t)
    → IsProto (variant t ts)
    → is_empty t v ≡ false
    → Reads (from_protobuf_member t (initial t)) (member_bytes t v) v
    → from_protobuf_object
        (variant t ts)
        old
        (field_bytes 1 (wire_type t) (is_empty t v) (member_bytes t v))
      ≡ ok (inl v, [])
unfolding from_protobuf_object get_or_skip
first_read t ts old v p full r =
    read_alternative-Reads _ _ t inl 1 v (omega arith) p.1 full r (λ s. refl)

later_read :
    (t : Ty) (ts : Tys) (old : El (variant t ts)) (v : Alt ts)
    → IsProto (variant t ts)
    → AlternativeIsValid ts v
    → AlternativeReads ts v
    → from_protobuf_object (variant t ts) old (alternative_bytes ts v 2) ≡ ok (inr v, [])
unfolding from_protobuf_object into get_or_skip
later_read t ts old v p h r =
    read_alternative-bytes ts v 2 _ _ inr p.0 p.2 h r (λ i wire g s behind found.
      (let other : (i == 1) ≡ false = ground arith in rw (other, found) refl))

mutual
  unfolding from_protobuf_member member_bytes from_protobuf_object

  pub member-Reads :
      (t : Ty) (old v : El t)
      → IsProto t
      → ReadsBack t
      → IsFresh t old
      → IsValid t v
      → Reads (from_protobuf_member t old) (member_bytes t v) v
  member-Reads varuint old v p b f h rest = absurd b
  member-Reads (varint false n) old v p b f h rest =
      let narrow : v % 256 ^ n ≡ v = mod-eq_of_lt (omega arith) in
      rw (varuint32_from_bin-bytes v rest h.1, narrow) refl
  member-Reads (varint true n) old v p b f h rest =
      let narrow : v % 256 ^ n ≡ v = mod-eq_of_lt (omega arith) in
      rw (varuint32_from_bin-bytes v rest h.1, narrow) refl
  member-Reads flag old true p b f h rest = rw (varuint32_from_bin-bytes 1 rest (omega arith)) refl
  member-Reads flag old false p b f h rest = rw (varuint32_from_bin-bytes 0 rest (omega arith)) refl
  member-Reads (fixed n) old v p b f h rest =
      rw (read-append n (le_bytes n v) rest (length-le_bytes n v), of_le_bytes-le_bytes n v h) refl
  member-Reads text old v p b f h rest = read_sized-Reads v h rest
  member-Reads (packed n) old v p b f h rest =
      read_nested-Reads _ _ [] v h.1 (read_packed-bytes n v p h.0 h.1) rest
  member-Reads (vec t) old v p b f h rest =
      read_nested-Reads _ _ [] v h.1
        (read_fields-Goes _ _ [] v (
          Goes-items (IsValid t) (from_protobuf_member t (initial t)) (member_bytes t)
            (λ x. member-Reads t (initial t) x p b (initial-IsFresh t)) [] v h.0))
        rest
  member-Reads (strct number ts) old v p b f h rest =
      read_nested-Reads _ _ [] v h.1
        (strct_read number ts old v p f (members-Read ts old v p.1 b f h.0)) rest
  member-Reads (tuple ts) old v p b f h rest =
      read_nested-Reads _ _ [] v h.1 (tuple_read ts old v p f (members-Read ts old v p.1 b f h.0))
        rest
  member-Reads (variant t ts) old (inl v) p b f (hv, he, hs) rest =
      read_nested-Reads _ _ [] (inl v) hs
        (first_read t ts old v p he (member-Reads t (initial t) v p.1 b.0 (initial-IsFresh t) hv))
        rest
  member-Reads (variant t ts) old (inr v) p b f h rest =
      read_nested-Reads _ _ [] (inr v) h.1
        (later_read t ts old v p h.0 (alternative-Reads ts v p.2 b.1 h.0)) rest

  pub members-Read :
      (ts : Tys) (old v : Els ts)
      → AreProto ts
      → AllReadBack ts
      → AreFresh ts old
      → AreValid ts v
      → MembersRead ts old v
  members-Read nil old v p b f h = tt
  members-Read (cons t ts) old v (p, ps) (b, bs) (f, fs) (h, hs) =
      (member-Reads t old.0 v.0 p b f h, members-Read ts old.1 v.1 ps bs fs hs)

  pub alternative-Reads :
      (ts : Tys) (v : Alt ts)
      → AreProto ts
      → AllReadBack ts
      → AlternativeIsValid ts v
      → AlternativeReads ts v
  alternative-Reads nil v p b h = absurd h
  alternative-Reads (cons t ts) (inl v) (p, ps) (b, bs) h =
      member-Reads t (initial t) v p b (initial-IsFresh t) h.0
  alternative-Reads (cons t ts) (inr v) (p, ps) (b, bs) h = alternative-Reads ts v ps bs h

pub object-read :
    (t : Ty) (old v : El t)
    → IsObject t
    → IsProto t
    → ReadsBack t
    → IsFresh t old
    → IsValid t v
    → from_protobuf_object t old (object_bytes t v) ≡ ok (v, [])
unfolding object_bytes from_protobuf_object
object-read (packed n) old v o p b f h = read_packed-bytes n v p h.0 h.1
object-read (vec t) old v o p b f h = read_fields-Goes _ _ [] v (
    Goes-items (IsValid t) (from_protobuf_member t (initial t)) (member_bytes t)
      (λ x. member-Reads t (initial t) x p b (initial-IsFresh t)) [] v h.0)
object-read (strct number ts) old v o p b f h =
    strct_read number ts old v p f (members-Read ts old v p.1 b f h.0)
object-read (tuple ts) old v o p b f h = tuple_read ts old v p f (members-Read ts old v p.1 b f h.0)
object-read (variant t ts) old (inl v) o p b f (hv, he, hs) =
    first_read t ts old v p he (member-Reads t (initial t) v p.1 b.0 (initial-IsFresh t) hv)
object-read (variant t ts) old (inr v) o p b f h =
    later_read t ts old v p h.0 (alternative-Reads ts v p.2 b.1 h.0)
object-read (varint signed n) old v o p b f h = absurd o
object-read varuint old v o p b f h = absurd b
object-read flag old v o p b f h = absurd o
object-read (fixed n) old v o p b f h = absurd o
object-read text old v o p b f h = absurd o
