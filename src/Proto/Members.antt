-- ===== src/Proto/Members.antt =====
-- What from_protobuf.hpp reads of the bytes of a value.
use clarion.Prelude.{
  ℕ, suc, ◌^◌, ◌<◌, ◌≡◌, refl, sym, ap, ◌∙◌, [], ◌∷◌, ◌++◌, inl, inr, true, false, Bool-cases,
  Option, none, some, ◌==◌, ==_iff, arith, append-nil,
}
use clarion.Stream.{ok, Bytes, >>=-assoc}
use clarion.Proto.Types.{Ty, Tys, El, Els, wire_type, is_empty, initial, initial_members}
use clarion.Proto.Types.{
  varint, varuint, flag, fixed, text, packed, vec, strct, tuple, variant, nil, cons,
}
use clarion.Proto.Read.{
  Reader, into, get_or_skip, read_alternative, from_protobuf_member, get_member,
}
use clarion.Proto.Encode.{field_bytes, member_bytes, count, IsProto, IsFresh, AreFresh}
use clarion.Proto.Numbers.{wire_type-lt}
use clarion.Proto.Loops.{
  Reads, Goes, Goes-nil, Goes-field, key_bytes-Reads, key_number_lem, key_wire_lem,
}

-- A field that no member has.
pub get_member-missing :
    (ts : Tys) (w : Els ts) (number : ℕ → ℕ) (field : ℕ)
    → ((i : ℕ) → i < count ts → (field == number i) ≡ false)
    → get_member ts w number field ≡ none
unfolding get_member
get_member-missing nil w number field h = refl
get_member-missing (cons t ts) w number field h =
    rw
      (
        h 0 (omega arith),
        get_member-missing ts w.1 (λ i. number (suc i)) field (λ i b. h (suc i) (omega arith)),
      )
      refl

-- `field` reads the members `ts` of the object that `put` makes of them.
abbrev pub Embeds :
    {A : Type 0} → (A → ℕ → ℕ → Reader A) → (ts : Tys) → (Els ts → A) → (ℕ → ℕ) → Type 0
Embeds {A} field ts put number =
    (w : Els ts) (n wire : ℕ) (g : Reader (Els ts)) (s : Bytes)
    → get_member ts w number n ≡ some g
    → field (put w) n wire s ≡ into put g s

pub into-into :
    {A B C : Type 0} (f : B → C) (g : A → B) (r : Reader A) (s : Bytes)
    → into f (into g r) s ≡ into (λ x. f (g x)) r s
unfolding into
into-into f g r s = >>=-assoc (r s) _ _

-- The members behind the first one are members too, as its number is not theirs.
pub embed_rest :
    {A : Type 0} (field : A → ℕ → ℕ → Reader A) (t : Ty) (ts : Tys) (put : Els (cons t ts) → A)
    (number : ℕ → ℕ) (x : El t)
    → ((i : ℕ) → i < count ts → (number 0 == number (suc i)) ≡ false)
    → Embeds field (cons t ts) put number
    → Embeds field ts (λ w. put (x, w)) (λ i. number (suc i))
unfolding get_member
embed_rest field t ts put number x d e w n wire g s found = elim (Bool-cases (n == number 0)) [
  | inl same ↦
      let missing : get_member ts w (λ i. number (suc i)) n ≡ none =
        rw ((==_iff n (number 0)).0 same)
          (get_member-missing ts w (λ i. number (suc i)) (number 0) d) in
      cc
  | inr other ↦
      e (x, w) n wire (into (λ w'. (x, w')) g) s (rw (other, found) refl)
      ∙ into-into put (λ w'. (x, w')) g s
]

empty-IsFresh : (t : Ty) (old v : El t) → is_empty t v ≡ true → IsFresh t old → old ≡ v
unfolding is_empty
empty-IsFresh (varint signed n) old v e f = cc
empty-IsFresh varuint old v e f = cc
empty-IsFresh flag old v e f = cc
empty-IsFresh (fixed n) old v e f = cc
empty-IsFresh text old v e f = cc
empty-IsFresh (packed n) old [] e f = f
empty-IsFresh (packed n) old (x ∷ v) e f = cc
empty-IsFresh (vec t) old [] e f = f
empty-IsFresh (vec t) old (x ∷ v) e f = cc
empty-IsFresh (strct number ts) old v e f = cc
empty-IsFresh (tuple ts) old v e f = cc
empty-IsFresh (variant t ts) old v e f = cc

mutual
  unfolding initial

  pub initial-IsFresh : (t : Ty) → IsFresh t (initial t)
  initial-IsFresh (varint signed n) = tt
  initial-IsFresh varuint = tt
  initial-IsFresh flag = tt
  initial-IsFresh (fixed n) = tt
  initial-IsFresh text = tt
  initial-IsFresh (packed n) = refl
  initial-IsFresh (vec t) = refl
  initial-IsFresh (strct number ts) = initial_members-AreFresh ts
  initial-IsFresh (tuple ts) = initial_members-AreFresh ts
  initial-IsFresh (variant t ts) = tt

  initial_members-AreFresh : (ts : Tys) → AreFresh ts (initial_members ts)
  initial_members-AreFresh nil = tt
  initial_members-AreFresh (cons t ts) = (initial-IsFresh t, initial_members-AreFresh ts)

-- A member's field, or none for an empty vector, takes the old value to the one that was sent.
pub Goes-member :
    {A : Type 0} (field : A → ℕ → ℕ → Reader A) (t : Ty) (put : El t → A) (number : ℕ)
    (old v : El t)
    → number < 2 ^ 29
    → IsProto t
    → IsFresh t old
    → Reads (from_protobuf_member t old) (member_bytes t v) v
    → ((s : Bytes)
        → field (put old) number (wire_type t) s ≡ into put (from_protobuf_member t old) s)
    → Goes field
        (field_bytes number (wire_type t) (is_empty t v) (member_bytes t v))
        (put old)
        (put v)
unfolding into
Goes-member field t put number old v n p f h e = elim (Bool-cases (is_empty t v)) [
  | inl empty ↦ rw (empty, empty-IsFresh t old v empty f) (Goes-nil field (put v))
  | inr full ↦ rw full (
      Goes-field field number (wire_type t) _ _ _ n (wire_type-lt t p)
        (λ rest. rw (e (member_bytes t v ++ rest), h rest) refl))
]

-- An alternative of a variant, in an object alone.
pub read_alternative-Reads :
    {A : Type 0} (get : ℕ → Option (Reader A)) (otherwise : A) (t : Ty) (put : El t → A)
    (number : ℕ) (v : El t)
    → number < 2 ^ 29
    → IsProto t
    → is_empty t v ≡ false
    → Reads (from_protobuf_member t (initial t)) (member_bytes t v) v
    → ((s : Bytes)
        → get_or_skip (get number) otherwise (wire_type t) s
          ≡ into put (from_protobuf_member t (initial t)) s)
    → read_alternative get otherwise
        (field_bytes number (wire_type t) (is_empty t v) (member_bytes t v))
      ≡ ok (put v, [])
unfolding into read_alternative
read_alternative-Reads get otherwise t put number v n p full h e =
    let whole : from_protobuf_member t (initial t) (member_bytes t v) ≡ ok (v, []) =
      ap (from_protobuf_member t (initial t)) (sym (append-nil (member_bytes t v))) ∙ h [] in
    rw
      (
        full,
        key_bytes-Reads number (wire_type t) n (wire_type-lt t p) (member_bytes t v),
        key_number_lem number (wire_type t) (wire_type-lt t p),
        key_wire_lem number (wire_type t) (wire_type-lt t p),
        e (member_bytes t v),
        whole,
      )
      refl
