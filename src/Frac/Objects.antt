-- ===== src/Frac/Objects.antt =====
-- Objects that were copied byte by byte are copied back, and containers are resized.
use clarion.Prelude.{
  ℕ, zero, suc, ◌^◌, ◌<◌, ◌≡◌, refl, sym, ap, ◌∙◌, List, [], ◌∷◌, ◌++◌, length, take, drop, All,
  true, none, inl, arith, append_assoc, take_all-append, drop_all-append, append-nil,
}
use clarion.Stream.{Result, ok, Bytes}
use clarion.Stream.Memory.{le_bytes, length-le_bytes, of_le_bytes-le_bytes}
use clarion.Frac.Types.{FracTy, FracTys, El, Els, Alt, can_memcpy, all_memcpy, width}
use clarion.Frac.Types.{scalar, text, vec, opt, variant, strct, nil, cons}
use clarion.Frac.Write.{object_bytes, members_bytes, array_bytes}
use clarion.Frac.Valid.{
  WellFormed, AllWellFormed, AltsWellFormed, HasFirst, IsValid, AreValid, length-object,
}
use clarion.Frac.Read.{
  initial, initial_first, initial_members, of_object, of_members, of_objects, resize,
}

of_scalar :
    (n v : ℕ) (rest : Bytes) → v < 256 ^ n → of_object (scalar n) 0 (le_bytes n v ++ rest) ≡ v
unfolding of_object
of_scalar n v rest h =
    let e : take n (le_bytes n v ++ rest) ≡ le_bytes n v =
      ap (λ k. take k (le_bytes n v ++ rest)) (sym (length-le_bytes n v))
      ∙ take_all-append (le_bytes n v) rest in
    rw e (of_le_bytes-le_bytes n v h)

behind_object :
    (t : FracTy) (v : El t) (rest : Bytes)
    → can_memcpy t ≡ true
    → drop (width t) (object_bytes t v ++ rest) ≡ rest
behind_object t v rest e =
    ap (λ k. drop k (object_bytes t v ++ rest)) (sym (length-object t v e))
    ∙ drop_all-append (object_bytes t v) rest

mutual
  unfolding of_object of_members object_bytes members_bytes can_memcpy

  object_lem :
      (t : FracTy) (v w : El t) (rest : Bytes)
      → can_memcpy t ≡ true
      → IsValid t v
      → of_object t w (object_bytes t v ++ rest) ≡ v
  object_lem (scalar n) v w rest e p = of_scalar n v rest p
  object_lem text v w rest e p = cc
  object_lem (vec t) v w rest e p = cc
  object_lem (opt t) v w rest e p = cc
  object_lem (variant ts) v w rest e p = cc
  object_lem (strct final dense ts) v w rest e p = members_lem ts v w rest (ground arith) p

  members_lem :
      (ts : FracTys) (v w : Els ts) (rest : Bytes)
      → all_memcpy ts ≡ true
      → AreValid ts v
      → of_members ts w (members_bytes ts v ++ rest) ≡ v
  members_lem nil v w rest e p = refl
  members_lem (cons t ts) v w rest e p =
      let here : can_memcpy t ≡ true = ground arith in
      let there : all_memcpy ts ≡ true = ground arith in
      rw
        (
          append_assoc (object_bytes t v.0) (members_bytes ts v.1) rest,
          object_lem t v.0 w.0 (members_bytes ts v.1 ++ rest) here p.0,
          behind_object t v.0 (members_bytes ts v.1 ++ rest) here,
          members_lem ts v.1 w.1 rest there p.1,
        )
        refl

pub of_object-object_bytes :
    (t : FracTy) (v w : El t) (rest : Bytes)
    → can_memcpy t ≡ true
    → IsValid t v
    → of_object t w (object_bytes t v ++ rest) ≡ v
of_object-object_bytes t v w rest e p = object_lem t v w rest e p

pub of_members-members_bytes :
    (ts : FracTys) (v w : Els ts)
    → all_memcpy ts ≡ true
    → AreValid ts v
    → of_members ts w (members_bytes ts v) ≡ v
of_members-members_bytes ts v w e p =
    ap (of_members ts w) (sym (append-nil (members_bytes ts v))) ∙ members_lem ts v w [] e p

pub of_objects-array_bytes {ℓ} :
    {A : Type ℓ} (P : A → Type 0) (of : A → Bytes → A) (bytes : A → Bytes) (n : ℕ)
    → ((x w : A) (rest : Bytes) → P x → of w (bytes x ++ rest) ≡ x)
    → ((x : A) → length (bytes x) ≡ n)
    → (v w : List A) → All P v
    → length w ≡ length v
    → of_objects of n w (array_bytes bytes v) ≡ v
unfolding of_objects array_bytes
of_objects-array_bytes P of bytes n same len [] [] p e = refl
of_objects-array_bytes P of bytes n same len [] (y ∷ w) p e = absurd (omega arith)
of_objects-array_bytes P of bytes n same len (x ∷ v) [] p e = absurd (omega arith)
of_objects-array_bytes P of bytes n same len (x ∷ v) (y ∷ w) p e =
    let behind : drop n (bytes x ++ array_bytes bytes v) ≡ array_bytes bytes v =
      ap (λ k. drop k (bytes x ++ array_bytes bytes v)) (sym (len x))
      ∙ drop_all-append (bytes x) (array_bytes bytes v) in
    rw
      (
        same x y (array_bytes bytes v) p.0,
        behind,
        of_objects-array_bytes P of bytes n same len v w p.1 (omega arith),
      )
      refl

pub resize_lem {ℓ} :
    {A : Type ℓ} (d : Result A) (x : A) (n : ℕ) (v : List A)
    → d ≡ ok x
    → (w : List A) × (resize d n v ≡ ok w) × (length w ≡ n)
unfolding resize
resize_lem d x zero v e = ([], refl, refl)
resize_lem d x (suc n) [] e =
    let (w, e', len) = resize_lem d x n [] e in (x ∷ w, rw (e, e'), ap suc len)
resize_lem d x (suc n) (y ∷ v) e =
    let (w, e', len) = resize_lem d x n v e in (y ∷ w, rw e', ap suc len)

-- Every type that the format serves has a value to start from.
mutual
  unfolding initial initial_first initial_members

  initial_lem : (t : FracTy) → WellFormed t → (d : El t) × (initial t ≡ ok d)
  initial_lem (scalar n) w = (0, refl)
  initial_lem text w = ([], refl)
  initial_lem (vec t) w = ([], refl)
  initial_lem (opt t) w = (none, refl)
  initial_lem (variant ts) w = first_lem ts w.0 w.1
  initial_lem (strct final dense ts) w = members_initial ts w.0

  first_lem :
      (ts : FracTys) → HasFirst ts → AltsWellFormed ts → (d : Alt ts) × (initial_first ts ≡ ok d)
  first_lem nil f w = absurd f
  first_lem (cons t ts) f w = let (d, e) = initial_lem t w.0 in (inl d, rw e)

  members_initial : (ts : FracTys) → AllWellFormed ts → (d : Els ts) × (initial_members ts ≡ ok d)
  members_initial nil w = (tt, refl)
  members_initial (cons t ts) w =
      let (d, e) = initial_lem t w.0 in
      let (ds, e') = members_initial ts w.1 in ((d, ds), rw (e, e'))

pub initial-exists : (t : FracTy) → WellFormed t → (d : El t) × (initial t ≡ ok d)
initial-exists t w = initial_lem t w
