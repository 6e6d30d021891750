-- ===== src/Proto/Safe.antt =====
-- from_protobuf.hpp on any input: it ends, and no part of it leaves the window that it was given.
use clarion.Prelude.{
  ℕ, zero, suc, ◌*◌, ◌/◌, ◌≤◌, ◌≡◌, ◌≢◌, List, [], ◌∷◌, length, true, inl, inr, Option, none, ◌==◌,
  ==_iff, arith,
}
use clarion.Stream.{stuck, Bytes}
use clarion.Stream.Leaves.{
  Leaves, Leaves-bind, Leaves-if, Leaves-then, Leaves-ok, Leaves-bind-ne-stuck, IsTail-refl,
  IsTail-length, read-Leaves,
}
use clarion.Varint.Read.{varuint32_from_bin}
use clarion.Varint.Leaves.{varuint32-Leaves}
use clarion.Varint.Bounds.{varuint32_from_bin_takes}
use clarion.Proto.Types.{Ty, Tys, El, Els, initial}
use clarion.Proto.Types.{
  varint, varuint, flag, fixed, text, packed, vec, strct, tuple, variant, nil, cons,
}
use clarion.Proto.Read.{
  Reader, key_number, key_wire, read_sized, read_packed, read_loop, read_fields, item_field,
  read_alternative, read_varuint32, from_protobuf_member, get_member, get_alternative,
  from_protobuf_object, from_protobuf,
}
use clarion.Proto.Encode.{IsObject}
use clarion.Proto.Found.{
  into-Leaves, FoundLeaves, map-FoundLeaves, if-FoundLeaves, get_or_skip-Leaves,
  get_or_throw-Leaves, read_nested-Leaves, skip_member-Leaves,
}

-- As many rounds as there are bytes are enough for any input.
read_loop-Leaves :
    {A : Type 0} (field : A → ℕ → ℕ → Reader A)
    → ((v : A) (n wire : ℕ) (s : Bytes) → Leaves s (field v n wire s))
    → (fuel : ℕ) (v : A) (s : Bytes) → length s ≤ fuel
    → Leaves s (read_loop field fuel v s)
unfolding read_loop
read_loop-Leaves field h zero v [] fits = IsTail-refl []
read_loop-Leaves field h (suc fuel) v [] fits = IsTail-refl []
read_loop-Leaves field h zero v (b ∷ s) fits = absurd (omega arith)
read_loop-Leaves field h (suc fuel) v (b ∷ s) fits =
    Leaves-then (b ∷ s) (varuint32_from_bin (b ∷ s)) _ (varuint32-Leaves (b ∷ s)) (λ r e.
      (let taken = (varuint32_from_bin_takes (b ∷ s) r.0 r.1 e).1 in
        Leaves-then r.1 (field v (key_number r.0) (key_wire r.0) r.1) _
          (h v (key_number r.0) (key_wire r.0) r.1)
          (λ q f. read_loop-Leaves field h fuel q.0 q.1 (
            omega (
              arith,
              IsTail-length q.1 r.1 (Leaves-ok r.1 _ q f (h v (key_number r.0) (key_wire r.0) r.1)),
            )))))

read_fields-Leaves :
    {A : Type 0} (field : A → ℕ → ℕ → Reader A) (v : A) (s : Bytes)
    → ((w : A) (n wire : ℕ) (s' : Bytes) → Leaves s' (field w n wire s'))
    → Leaves s (read_fields field v s)
unfolding read_fields
read_fields-Leaves field v s h = read_loop-Leaves field h (length s) v s (omega arith)

item_field-Leaves :
    {A : Type 0} (member : Reader A) (v : List A) (n wire : ℕ) (s : Bytes)
    → ((s' : Bytes) → Leaves s' (member s'))
    → Leaves s (item_field member v n wire s)
unfolding item_field
item_field-Leaves member v n wire s h =
    Leaves-if (n == 1) s _ _ (Leaves-bind s (member s) _ (h s) (λ r. IsTail-refl r.1))
      (skip_member-Leaves wire s v)

items-Leaves :
    {A : Type 0} (member : Reader A) (s : Bytes)
    → ((s' : Bytes) → Leaves s' (member s'))
    → Leaves s (read_fields (item_field member) [] s)
items-Leaves member s h =
    read_fields-Leaves (item_field member) [] s
      (λ w n wire s'. item_field-Leaves member w n wire s' h)

read_packed-Leaves : (s : Bytes) → Leaves s (read_packed 1 s)
unfolding read_packed
read_packed-Leaves s = Leaves-bind s _ _ (varuint32-Leaves s) (λ r.
    Leaves-if (key_number r.0 == 1) r.1 _ _
      (Leaves-bind r.1 _ _ (varuint32-Leaves r.1) (λ q.
        Leaves-bind q.1 _ _ (read-Leaves q.0 q.1) (λ b.
          (let whole : (q.0 / 1 * 1 == q.0) ≡ true = (==_iff _ _).1 (omega arith) in
            rw whole (IsTail-refl b.1)))))
      (skip_member-Leaves (key_wire r.0) r.1 []))

read_alternative-Leaves :
    {A : Type 0} (get : ℕ → Option (Reader A)) (v : A) (s : Bytes)
    → ((n : ℕ) → FoundLeaves (get n))
    → Leaves s (read_alternative get v s)
unfolding read_alternative
read_alternative-Leaves get v s h =
    Leaves-bind s _ _ (varuint32-Leaves s)
      (λ r. get_or_skip-Leaves (get (key_number r.0)) v (key_wire r.0) r.1 (h (key_number r.0)))

read_varuint32-Leaves : (v : ℕ) (s : Bytes) → Leaves s (read_varuint32 v s)
unfolding read_varuint32
read_varuint32-Leaves v s = read_fields-Leaves _ v s (λ w n wire s'.
    get_or_skip-Leaves _ w wire s' (
      if-FoundLeaves (n == 1) _ none
        (λ s''. Leaves-bind s'' _ _ (read-Leaves 4 s'') (λ r. IsTail-refl r.1)) tt))

-- The elements of a packed vector have one byte.
abbrev mutual
  pub BytePacked : Ty → Type 0
  BytePacked (varint signed n) = Unit {0}
  BytePacked varuint = Unit {0}
  BytePacked flag = Unit {0}
  BytePacked (fixed n) = Unit {0}
  BytePacked text = Unit {0}
  BytePacked (packed n) = n ≡ 1
  BytePacked (vec t) = BytePacked t
  BytePacked (strct number ts) = AreBytePacked ts
  BytePacked (tuple ts) = AreBytePacked ts
  BytePacked (variant t ts) = BytePacked t × AreBytePacked ts

  pub AreBytePacked : Tys → Type 0
  AreBytePacked nil = Unit {0}
  AreBytePacked (cons t ts) = BytePacked t × AreBytePacked ts

mutual
  unfolding from_protobuf_member read_sized

  member-Leaves :
      (t : Ty) (v : El t) (s : Bytes) → BytePacked t → Leaves s (from_protobuf_member t v s)
  member-Leaves (varint signed n) v s p =
      Leaves-bind s _ _ (varuint32-Leaves s) (λ r. IsTail-refl r.1)
  member-Leaves varuint v s p = read_nested-Leaves (read_varuint32 v) s (read_varuint32-Leaves v)
  member-Leaves flag v s p = Leaves-bind s _ _ (varuint32-Leaves s) (λ r. IsTail-refl r.1)
  member-Leaves (fixed n) v s p = Leaves-bind s _ _ (read-Leaves n s) (λ r. IsTail-refl r.1)
  member-Leaves text v s p = Leaves-bind s _ _ (varuint32-Leaves s) (λ r. read-Leaves r.0 r.1)
  member-Leaves (packed n) v s p =
      read_nested-Leaves (read_packed n) s (λ s'. rw p (read_packed-Leaves s'))
  member-Leaves (vec t) v s p =
      read_nested-Leaves _ s (λ s'. items-Leaves _ s' (λ s''. member-Leaves t (initial t) s'' p))
  member-Leaves (strct number ts) v s p = read_nested-Leaves _ s (λ s'.
      read_fields-Leaves _ v s'
        (λ w n wire s''. get_or_skip-Leaves _ w wire s'' (get_member-Leaves ts w number n p)))
  member-Leaves (tuple ts) v s p = read_nested-Leaves _ s (λ s'.
      read_fields-Leaves _ v s'
        (λ w n wire s''. get_or_throw-Leaves _ s'' (get_member-Leaves ts w suc n p)))
  member-Leaves (variant t ts) v s p = read_nested-Leaves _ s (λ s'.
      read_alternative-Leaves _ _ s' (λ n.
        if-FoundLeaves (n == 1) _ _
          (λ s''. into-Leaves inl _ s'' (member-Leaves t (initial t) s'' p.0))
          (map-FoundLeaves inr _ (get_alternative-Leaves ts 2 n p.1))))

  get_member-Leaves :
      (ts : Tys) (v : Els ts) (number : ℕ → ℕ) (n : ℕ)
      → AreBytePacked ts
      → FoundLeaves (get_member ts v number n)
  get_member-Leaves nil v number n p = tt
  get_member-Leaves (cons t ts) v number n p =
      if-FoundLeaves (n == number 0) _ _ (λ s. into-Leaves _ _ s (member-Leaves t v.0 s p.0))
        (map-FoundLeaves _ _ (get_member-Leaves ts v.1 (λ i. number (suc i)) n p.1))

  get_alternative-Leaves :
      (ts : Tys) (first n : ℕ) → AreBytePacked ts → FoundLeaves (get_alternative ts first n)
  get_alternative-Leaves nil first n p = tt
  get_alternative-Leaves (cons t ts) first n p =
      if-FoundLeaves (n == first) _ _ (λ s. into-Leaves inl _ s (member-Leaves t (initial t) s p.0))
        (map-FoundLeaves inr _ (get_alternative-Leaves ts (suc first) n p.1))

object-Leaves :
    (t : Ty) (v : El t) (s : Bytes)
    → IsObject t
    → BytePacked t
    → Leaves s (from_protobuf_object t v s)
unfolding from_protobuf_object
object-Leaves (packed n) v s o p = rw p (read_packed-Leaves s)
object-Leaves (vec t) v s o p = items-Leaves _ s (λ s'. member-Leaves t (initial t) s' p)
object-Leaves (strct number ts) v s o p =
    read_fields-Leaves _ v s
      (λ w n wire s'. get_or_skip-Leaves _ w wire s' (get_member-Leaves ts w number n p))
object-Leaves (tuple ts) v s o p =
    read_fields-Leaves _ v s
      (λ w n wire s'. get_or_throw-Leaves _ s' (get_member-Leaves ts w suc n p))
object-Leaves (variant t ts) v s o p = read_alternative-Leaves _ _ s (λ n.
    if-FoundLeaves (n == 1) _ _ (λ s'. into-Leaves inl _ s' (member-Leaves t (initial t) s' p.0))
      (map-FoundLeaves inr _ (get_alternative-Leaves ts 2 n p.1)))
object-Leaves (varint signed n) v s o p = absurd o
object-Leaves varuint v s o p = read_varuint32-Leaves v s
object-Leaves flag v s o p = absurd o
object-Leaves (fixed n) v s o p = absurd o
object-Leaves text v s o p = absurd o

-- On any bytes, `from_protobuf` of an object whose packed vectors have elements of one byte returns an object or throws:
-- its loops end, and it copies nothing from behind its window.
pub from_protobuf-ne-stuck :
    (t : Ty) (tmp : El t) (s : Bytes) → IsObject t → BytePacked t → from_protobuf t tmp s ≢ stuck
unfolding from_protobuf
from_protobuf-ne-stuck t tmp s o p =
    Leaves-bind-ne-stuck s (from_protobuf_object t tmp s) _ (object-Leaves t tmp s o p)
      (λ r tail x. cc)
