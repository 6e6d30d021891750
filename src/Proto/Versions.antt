-- ===== src/Proto/Versions.antt =====
-- Two versions of a struct: the later one has members behind those of the earlier one.
use clarion.Prelude.{
  ℕ, zero, suc, ◌+◌, ◌<◌, ◌≡◌, refl, sym, ap, ◌∙◌, ◌++◌, inl, inr, false, Bool-cases, ◌==◌, arith,
  append_assoc,
}
use clarion.Stream.{ok, Bytes, ◌>>=◌}
use clarion.Proto.Types.{Tys, Els, wire_type, is_empty}
use clarion.Proto.Types.{strct, nil, cons}
use clarion.Proto.Write.{to_protobuf}
use clarion.Proto.Read.{
  Reader, skip_member, get_or_skip, get_member, from_protobuf_object, from_protobuf,
}
use clarion.Proto.Encode.{
  field_bytes, member_bytes, fields_bytes, object_bytes, count, Numbered, IsProto, AreProto,
  IsValid, AreValid, AllReadBack, AreFresh,
}
use clarion.Proto.Numbers.{wire_type-lt}
use clarion.Proto.Members.{get_member-missing}
use clarion.Proto.Loops.{Goes, Goes-nil, Goes-append, Goes-field, read_fields-Goes}
use clarion.Proto.Objects.{strct-Goes, members-Read}
use clarion.Proto.RoundTrip.{to_protobuf-object_bytes}
use clarion.Proto.Unknown.{skip_member-bytes}

-- The later version's members, the part of its value that the earlier version knows, and the other part.
abbrev pub extended : Tys → Tys → Tys
extended nil us = us
extended (cons t ts) us = cons t (extended ts us)

abbrev pub known : (ts us : Tys) → Els (extended ts us) → Els ts
known nil us v = tt
known (cons t ts) us v = (v.0, known ts us v.1)

abbrev pub added : (ts us : Tys) → Els (extended ts us) → Els us
added nil us v = v
added (cons t ts) us v = added ts us v.1

abbrev pub with_added : (ts us : Tys) → Els ts → Els us → Els (extended ts us)
with_added nil us v w = w
with_added (cons t ts) us v w = (v.0, with_added ts us v.1 w)

-- The numbers behind those of `ts`.
abbrev pub shifted : Tys → (ℕ → ℕ) → ℕ → ℕ
shifted nil number = number
shifted (cons t ts) number = shifted ts (λ i. number (suc i))

fields_bytes-extended :
    (ts us : Tys) (v : Els (extended ts us)) (number : ℕ → ℕ)
    → fields_bytes (extended ts us) v number
      ≡ fields_bytes ts (known ts us v) number
        ++ fields_bytes us (added ts us v) (shifted ts number)
unfolding fields_bytes
fields_bytes-extended nil us v number = refl
fields_bytes-extended (cons t ts) us v number =
    rw (fields_bytes-extended ts us v.1 (λ i. number (suc i))) (
      sym (
        append_assoc (field_bytes (number 0) (wire_type t) (is_empty t v.0) (member_bytes t v.0)) _
          _))

shifted_lem : (ts : Tys) (number : ℕ → ℕ) (i : ℕ) → shifted ts number i ≡ number (count ts + i)
shifted_lem nil number i = ap number (omega arith)
shifted_lem (cons t ts) number i = shifted_lem ts (λ j. number (suc j)) i ∙ ap number (omega arith)

count-extended : (ts us : Tys) → count (extended ts us) ≡ count ts + count us
count-extended nil us = omega arith
count-extended (cons t ts) us = omega (arith, count-extended ts us)

pub known-Numbered :
    (ts us : Tys) (number : ℕ → ℕ)
    → Numbered number (count (extended ts us))
    → Numbered number (count ts)
known-Numbered nil us number h = tt
known-Numbered (cons t ts) us number (n, d, h) = (
  n,
  λ i b. d i (omega (arith, count-extended ts us)),
  known-Numbered ts us (λ i. number (suc i)) h,
)

added-Numbered :
    (ts us : Tys) (number : ℕ → ℕ)
    → Numbered number (count (extended ts us))
    → Numbered (shifted ts number) (count us)
added-Numbered nil us number h = h
added-Numbered (cons t ts) us number (n, d, h) = added-Numbered ts us (λ i. number (suc i)) h

==_sym : (a b : ℕ) → (a == b) ≡ false → (b == a) ≡ false
==_sym a b h = ground arith

-- No added member has the number of a known one.
added_differ :
    (ts us : Tys) (number : ℕ → ℕ) (i j : ℕ)
    → Numbered number (count (extended ts us))
    → i < count us
    → j < count ts
    → (shifted ts number i == number j) ≡ false
added_differ nil us number i j h hi hj = absurd (omega arith)
added_differ (cons t ts) us number i zero (n, d, h) hi hj =
    rw (shifted_lem ts (λ k. number (suc k)) i) (
      ==_sym (number 0) (number (suc (count ts + i)))
        (d (count ts + i) (omega (arith, count-extended ts us))))
added_differ (cons t ts) us number i (suc j) (n, d, h) hi hj =
    added_differ ts us (λ k. number (suc k)) i j h hi (omega arith)

pub known-AreProto : (ts us : Tys) → AreProto (extended ts us) → AreProto ts × AreProto us
known-AreProto nil us h = (tt, h)
known-AreProto (cons t ts) us (h, hs) =
    ((h, (known-AreProto ts us hs).0), (known-AreProto ts us hs).1)

known-AreValid :
    (ts us : Tys) (v : Els (extended ts us))
    → AreValid (extended ts us) v
    → AreValid ts (known ts us v) × AreValid us (added ts us v)
known-AreValid nil us v h = (tt, h)
known-AreValid (cons t ts) us v (h, hs) =
    ((h, (known-AreValid ts us v.1 hs).0), (known-AreValid ts us v.1 hs).1)

-- Fields that the object does not know leave it as it is.
Goes-unknown :
    {A : Type 0} (us : Tys) (v : Els us) (number : ℕ → ℕ) (field : A → ℕ → ℕ → Reader A) (w : A)
    → Numbered number (count us)
    → AreProto us
    → AreValid us v
    → ((i wire : ℕ) (s : Bytes)
        → i < count us
        → field w (number i) wire s ≡ (skip_member wire s >>= λ s'. ok (w, s')))
    → Goes field (fields_bytes us v number) w w
unfolding fields_bytes
Goes-unknown nil v number field w n p h e = Goes-nil field w
Goes-unknown (cons t us) v number field w (n, d, ns) (p, ps) (h, hs) e =
    Goes-append field _ _ w w w
      (elim (Bool-cases (is_empty t v.0)) [
        | inl empty ↦ rw empty (Goes-nil field w)
        | inr full ↦ rw full (
            Goes-field field (number 0) (wire_type t) _ w w n (wire_type-lt t p) (λ rest.
              rw
                (
                  e 0 (wire_type t) (member_bytes t v.0 ++ rest) (omega arith),
                  skip_member-bytes t v.0 rest p h,
                )
                refl))
      ])
      (Goes-unknown us v.1 (λ i. number (suc i)) field w ns ps hs
        (λ i wire s b. e (suc i) wire s (omega arith)))

-- What a later version of a struct has written, of a value that can be sent, an earlier version whose
-- vectors are empty reads: it skips the members that it does not have, of whatever type, and reads the
-- others, none of which has a varuint32 in it. The field numbers of the later version
-- differ and fit a key.
pub from_protobuf-extended :
    (number : ℕ → ℕ) (ts us : Tys) (tmp : Els ts) (v : Els (extended ts us))
    → IsProto (strct number (extended ts us))
    → AllReadBack ts
    → AreFresh ts tmp
    → IsValid (strct number (extended ts us)) v
    → (to_protobuf (strct number (extended ts us)) v >>= from_protobuf (strct number ts) tmp)
      ≡ ok (known ts us v)
unfolding from_protobuf from_protobuf_object object_bytes get_or_skip
from_protobuf-extended number ts us tmp v p b f h =
    let w = known ts us v in
    let field : Els ts → ℕ → ℕ → Reader (Els ts) =
      λ w field wire. get_or_skip (get_member ts w number field) w wire in
    let are = known-AreProto ts us p.1 in
    let valid = known-AreValid ts us v h.0 in
    let numbers = known-Numbered ts us number p.0 in
    let skipped : (i wire : ℕ) (s : Bytes)
        → i < count us
        → field w (shifted ts number i) wire s ≡ (skip_member wire s >>= λ s'. ok (w, s')) =
      λ i wire s b.
        rw
          (get_member-missing ts w number (shifted ts number i)
            (λ j c. added_differ ts us number i j p.0 b c))
          refl in
    rw
      (
        to_protobuf-object_bytes (strct number (extended ts us)) v tt p h,
        fields_bytes-extended ts us v number,
        read_fields-Goes field _ tmp w (
            Goes-append field (fields_bytes ts w number)
              (fields_bytes us (added ts us v) (shifted ts number)) tmp w w
              (strct-Goes number ts tmp w (numbers, are.0) f
                (members-Read ts tmp w are.0 b f valid.0))
              (Goes-unknown us (added ts us v) (shifted ts number) field w
                (added-Numbered ts us number p.0) are.1 valid.1 skipped)),
      )
      refl
