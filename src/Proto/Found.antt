-- ===== src/Proto/Found.antt =====
-- What from_protobuf.hpp does with a field, on any input.
use mathlib.Core.Option.{map}
use clarion.Prelude.{
  ◌≡◌, refl, ℕ, sym, length, take, take-append-drop, Bool, true, false, Bool-cases, inl, inr,
  Option, none, some, ◌==◌, ltb, if◌then◌else◌,
}
use clarion.Stream.{ok, Bytes, ◌>>=◌, >>=-assoc, err, overrun}
use clarion.Stream.Input.{skip-fits, skip}
use clarion.Stream.Leaves.{Leaves, Leaves-bind, Leaves-check, Leaves-ne-stuck, IsTail-refl}
use clarion.Varint.Read.{varuint32_from_bin}
use clarion.Varint.Leaves.{varuint32-Leaves}
use clarion.Proto.Read.{Reader, skip_member, read_nested, get_or_skip, get_or_throw, into}

skip-short : (n : ℕ) (s : Bytes) → ltb (length s) n ≡ true → skip n s ≡ err overrun
unfolding skip
skip-short n s e = rw e refl

skip-Leaves : {A : Type 0} (n : ℕ) (s : Bytes) (v : A) → Leaves s (skip n s >>= λ s'. ok (v, s'))
skip-Leaves n s v = elim (Bool-cases (ltb (length s) n)) [
  | inl e ↦ rw (skip-short n s e) tt
  | inr e ↦ rw (skip-fits n s e) (take n s, sym (take-append-drop n s))
]

pub skip_member-Leaves :
    {A : Type 0} (wire : ℕ) (s : Bytes) (v : A) → Leaves s (skip_member wire s >>= λ s'. ok (v, s'))
unfolding skip_member
skip_member-Leaves wire s v = elim (Bool-cases (wire == 0)) [
  | inl e ↦
      rw (e, >>=-assoc (varuint32_from_bin s))
        (Leaves-bind s _ _ (varuint32-Leaves s) (λ r. IsTail-refl r.1))
  | inr e ↦ elim (Bool-cases (wire == 1)) [
    | inl f ↦ rw (e, f) (skip-Leaves 8 s v)
    | inr f ↦ elim (Bool-cases (wire == 2)) [
      | inl g ↦
          rw (e, f, g, >>=-assoc (varuint32_from_bin s))
            (Leaves-bind s _ _ (varuint32-Leaves s) (λ r. skip-Leaves r.0 r.1 v))
      | inr g ↦ elim (Bool-cases (wire == 5)) [
        | inl h ↦ rw (e, f, g, h) (skip-Leaves 4 s v)
        | inr h ↦ rw (e, f, g, h) (IsTail-refl s)
      ]
    ]
  ]
]

pub into-Leaves :
    {A B : Type 0} (put : A → B) (f : Reader A) (s : Bytes)
    → Leaves s (f s)
    → Leaves s (into put f s)
unfolding into
into-Leaves put f s h = Leaves-bind s (f s) _ h (λ r. IsTail-refl r.1)

-- What is found for a field stays in its window.
abbrev pub FoundLeaves : {A : Type 0} → Option (Reader A) → Type 0
FoundLeaves none = Unit {0}
FoundLeaves (some f) = (s : Bytes) → Leaves s (f s)

pub map-FoundLeaves :
    {A B : Type 0} (put : A → B) (o : Option (Reader A))
    → FoundLeaves o
    → FoundLeaves (map (into put) o)
map-FoundLeaves put none h = tt
map-FoundLeaves put (some f) h = λ s. into-Leaves put f s (h s)

pub if-FoundLeaves :
    {A : Type 0} (b : Bool) (x y : Option (Reader A))
    → FoundLeaves x
    → FoundLeaves y
    → FoundLeaves (if b then x else y)
if-FoundLeaves true x y hx hy = hx
if-FoundLeaves false x y hx hy = hy

pub get_or_skip-Leaves :
    {A : Type 0} (o : Option (Reader A)) (v : A) (wire : ℕ) (s : Bytes)
    → FoundLeaves o
    → Leaves s (get_or_skip o v wire s)
unfolding get_or_skip
get_or_skip-Leaves none v wire s h = skip_member-Leaves wire s v
get_or_skip-Leaves (some f) v wire s h = h s

pub get_or_throw-Leaves :
    {A : Type 0} (o : Option (Reader A)) (s : Bytes) → FoundLeaves o → Leaves s (get_or_throw o s)
unfolding get_or_throw
get_or_throw-Leaves none s h = tt
get_or_throw-Leaves (some f) s h = h s

pub read_nested-Leaves :
    {A : Type 0} (object : Reader A) (s : Bytes)
    → ((s' : Bytes) → Leaves s' (object s'))
    → Leaves s (read_nested object s)
unfolding read_nested
read_nested-Leaves object s h = Leaves-bind s _ _ (varuint32-Leaves s) (λ r.
    elim (Bool-cases (ltb (length r.1) r.0)) [
      | inl e ↦ rw e tt
      | inr e ↦
          rw (e, skip-fits r.0 r.1 e)
            (Leaves-check r.1 (object (take r.0 r.1)) _
              (Leaves-ne-stuck (take r.0 r.1) (object (take r.0 r.1)) (h (take r.0 r.1)))
              (λ q. (take r.0 r.1, sym (take-append-drop r.0 r.1))))
    ])
