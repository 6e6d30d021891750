-- ===== src/Proto/Earlier.antt =====
-- What an earlier version of a struct has written, in a later one.
use mathlib.Core.Path.{fun_ext}
use mathlib.Core.Option.{map}
use clarion.Prelude.{
  ℕ, suc, ◌≡◌, refl, sym, ap, ◌∙◌, inl, inr, Bool-cases, Option, none, some, ◌==◌,
}
use clarion.Stream.{ok, ◌>>=◌}
use clarion.Proto.Types.{Tys, Els}
use clarion.Proto.Types.{strct, nil, cons}
use clarion.Proto.Write.{to_protobuf}
use clarion.Proto.Read.{
  Reader, get_or_skip, get_member, into, from_protobuf_member, from_protobuf_object, from_protobuf,
}
use clarion.Proto.Encode.{fields_bytes, object_bytes, IsProto, IsValid, AllReadBack, AreFresh}
use clarion.Proto.Members.{Embeds, into-into}
use clarion.Proto.Loops.{read_fields-Goes}
use clarion.Proto.Objects.{members-Read}
use clarion.Proto.Fields.{Goes-fields}
use clarion.Proto.RoundTrip.{to_protobuf-object_bytes}
use clarion.Proto.Versions.{extended, known, added, with_added, known-Numbered, known-AreProto}

into-into_ext :
    {A B C : Type 0} (f : B → C) (g : A → B) (r : Reader A)
    → into f (into g r) ≡ into (λ x. f (g x)) r
into-into_ext f g r = fun_ext (into-into f g r)

map-some :
    {A B : Type 0} (f : A → B) (o : Option A) (b : B)
    → map f o ≡ some b
    → (a : A) × (o ≡ some a) × (b ≡ f a)
map-some f none b e = cc
map-some f (some a) b e = (a, refl, cc)

-- A member of the earlier version is one of the later version.
get_member-extended :
    (ts us : Tys) (w : Els ts) (r : Els us) (number : ℕ → ℕ) (n : ℕ) (g : Reader (Els ts))
    → get_member ts w number n ≡ some g
    → get_member (extended ts us) (with_added ts us w r) number n
      ≡ some (into (λ w'. with_added ts us w' r) g)
unfolding get_member
get_member-extended nil us w r number n g found = cc
get_member-extended (cons t ts) us w r number n g found =
    let whole : Els (cons t ts) → Els (extended (cons t ts) us) =
      λ w'. with_added (cons t ts) us w' r in
    elim (Bool-cases (n == number 0)) [
      | inl same ↦
          let here : some (into (λ x. (x, w.1)) (from_protobuf_member t w.0)) ≡ some g =
            rw same at found in
          let all : into (λ x. (x, w.1)) (from_protobuf_member t w.0) ≡ g = cc in
          rw same (
            ap some (
              sym (into-into_ext whole (λ x. (x, w.1)) (from_protobuf_member t w.0))
              ∙ ap (into whole) all))
      | inr other ↦
          let behind : map (into (λ w'. (w.0, w'))) (get_member ts w.1 (λ i. number (suc i)) n)
              ≡ some g =
            rw other at found in
          let (g', found', e) = map-some (into (λ w'. (w.0, w'))) _ g behind in
          rw (other, get_member-extended ts us w.1 r (λ i. number (suc i)) n g' found')
            (ap some (
              into-into_ext (λ w'. (w.0, w')) (λ w'. with_added ts us w' r) g'
              ∙ sym (into-into_ext whole (λ w'. (w.0, w')) g')
              ∙ ap (into whole) (sym e)))
    ]

extended_members :
    (ts us : Tys) (v : Els (extended ts us)) → with_added ts us (known ts us v) (added ts us v) ≡ v
extended_members nil us v = refl
extended_members (cons t ts) us v = ap (λ w. (v.0, w)) (extended_members ts us v.1)

-- What an earlier version of a struct has written, of a value that can be sent, a later version reads
-- whose vectors are empty among the members of the earlier one; the members that the earlier version
-- does not have stay as they were, and none of the others has a varuint32 in it. The
-- field numbers of the later version differ and fit a key.
pub from_protobuf-earlier :
    (number : ℕ → ℕ) (ts us : Tys) (tmp : Els (extended ts us)) (v : Els ts)
    → IsProto (strct number (extended ts us))
    → AllReadBack ts
    → AreFresh ts (known ts us tmp)
    → IsValid (strct number ts) v
    → (to_protobuf (strct number ts) v >>= from_protobuf (strct number (extended ts us)) tmp)
      ≡ ok (with_added ts us v (added ts us tmp))
unfolding from_protobuf from_protobuf_object object_bytes get_or_skip into
from_protobuf-earlier number ts us tmp v p b f h =
    let rest = added ts us tmp in
    let are = (known-AreProto ts us p.1).0 in
    let numbers = known-Numbered ts us number p.0 in
    let put : Els ts → Els (extended ts us) = λ w. with_added ts us w rest in
    let field : Els (extended ts us) → ℕ → ℕ → Reader (Els (extended ts us)) =
      λ w field wire. get_or_skip (get_member (extended ts us) w number field) w wire in
    let embeds : Embeds field ts put number =
      λ w n wire g s found. rw (get_member-extended ts us w rest number n g found) refl in
    rw
      (
        to_protobuf-object_bytes (strct number ts) v tt (numbers, are) h,
        ← extended_members ts us tmp,
        read_fields-Goes field (fields_bytes ts v number) (put (known ts us tmp)) (put v) (
            Goes-fields ts (known ts us tmp) v number put field numbers are f
              (members-Read ts (known ts us tmp) v are b f h.0) embeds),
      )
      (rw (extended_members ts us tmp) refl)
