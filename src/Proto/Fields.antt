-- ===== src/Proto/Fields.antt =====
-- The fields of an object, whose members or whose alternative the readers read.
use clarion.Prelude.{
  ℕ, suc, ◌+◌, ◌^◌, ◌≤◌, ◌<◌, ◌≡◌, refl, ◌∙◌, [], inl, inr, true, false, Option, some, ◌==◌, ==_iff,
  arith,
}
use clarion.Stream.{ok, Bytes}
use clarion.Proto.Types.{Tys, Els, Alt, wire_type, initial}
use clarion.Proto.Types.{nil, cons}
use clarion.Proto.Read.{
  Reader, into, get_or_skip, read_alternative, from_protobuf_member, get_member, get_alternative,
}
use clarion.Proto.Encode.{
  member_bytes, fields_bytes, alternative_bytes, count, Numbered, AreProto, AlternativeIsValid,
  AreFresh,
}
use clarion.Proto.Members.{Embeds, into-into, embed_rest, Goes-member, read_alternative-Reads}
use clarion.Proto.Loops.{Reads, Goes, Goes-nil, Goes-append}

same_number : (n : ℕ) → (n == n) ≡ true
same_number n = (==_iff n n).1 refl

-- The alternatives that `get` reads are those of `ts`, from `first` on.
abbrev pub Chooses :
    {A : Type 0} → (ℕ → Option (Reader A)) → A → (ts : Tys) → (Alt ts → A) → ℕ → Type 0
Chooses {A} get otherwise ts put first =
    (n wire : ℕ) (g : Reader (Alt ts)) (s : Bytes)
    → first ≤ n
    → get_alternative ts first n ≡ some g
    → get_or_skip (get n) otherwise wire s ≡ into put g s

-- Each member of the new value is read over the old one.
abbrev pub MembersRead : (ts : Tys) → Els ts → Els ts → Type 0
MembersRead nil old v = Unit {0}
MembersRead (cons t ts) old v =
    Reads (from_protobuf_member t old.0) (member_bytes t v.0) v.0 × MembersRead ts old.1 v.1

abbrev pub AlternativeReads : (ts : Tys) → Alt ts → Type 0
AlternativeReads nil v = ⊥
AlternativeReads (cons t ts) (inl v) =
    Reads (from_protobuf_member t (initial t)) (member_bytes t v) v
AlternativeReads (cons t ts) (inr v) = AlternativeReads ts v

pub Goes-fields :
    {A : Type 0} (ts : Tys) (old v : Els ts) (number : ℕ → ℕ) (put : Els ts → A)
    (field : A → ℕ → ℕ → Reader A)
    → Numbered number (count ts)
    → AreProto ts
    → AreFresh ts old
    → MembersRead ts old v
    → Embeds field ts put number
    → Goes field (fields_bytes ts v number) (put old) (put v)
unfolding fields_bytes get_member
Goes-fields nil old v number put field n p f h e = Goes-nil field (put v)
Goes-fields (cons t ts) old v number put field (n, d, ns) (p, ps) (f, fs) (h, hs) e =
    let first : (s : Bytes)
        → field (put old) (number 0) (wire_type t) s
          ≡ into (λ x. put (x, old.1)) (from_protobuf_member t old.0) s =
      λ s.
        (e old (number 0) (wire_type t) _ s (rw (same_number (number 0)) refl)
          ∙ into-into put (λ x. (x, old.1)) (from_protobuf_member t old.0) s) in
    Goes-append field _ _ (put old) (put (v.0, old.1)) (put v)
      (Goes-member field t (λ x. put (x, old.1)) (number 0) old.0 v.0 n p f h first)
      (Goes-fields ts old.1 v.1 (λ i. number (suc i)) (λ w. put (v.0, w)) field ns ps fs hs
        (embed_rest field t ts put number v.0 d e))

pub read_alternative-bytes :
    {A : Type 0} (ts : Tys) (v : Alt ts) (first : ℕ) (get : ℕ → Option (Reader A)) (otherwise : A)
    (put : Alt ts → A)
    → count ts + first < 2 ^ 29
    → AreProto ts
    → AlternativeIsValid ts v
    → AlternativeReads ts v
    → Chooses get otherwise ts put first
    → read_alternative get otherwise (alternative_bytes ts v first) ≡ ok (put v, [])
unfolding alternative_bytes get_alternative
read_alternative-bytes nil v first get otherwise put n p h r e = absurd h
read_alternative-bytes (cons t ts) (inl v) first get otherwise put n (p, ps) (h, he) r e =
    read_alternative-Reads get otherwise t (λ x. put (inl x)) first v (omega arith) p he r
      (λ s.
        e first (wire_type t) _ s (omega arith) (rw (same_number first) refl)
        ∙ into-into put inl (from_protobuf_member t (initial t)) s)
read_alternative-bytes (cons t ts) (inr v) first get otherwise put n (p, ps) h r e =
    read_alternative-bytes ts v (suc first) get otherwise (λ x. put (inr x)) (omega arith) ps h r
      (λ i wire g s behind found.
        (let other : (i == first) ≡ false = ground arith in
          e i wire (into inr g) s (omega arith) (rw (other, found) refl) ∙ into-into put inr g s))
