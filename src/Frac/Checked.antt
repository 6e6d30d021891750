-- ===== src/Frac/Checked.antt =====
-- Vectors that the checker accepts are read without an exception, given that their elements are.
use clarion.Prelude.{
  ℕ, zero, suc, ◌*◌, ◌/◌, ◌≡◌, refl, sym, ap, ◌∙◌, List, [], ◌∷◌, length, true, inl, inr, ltb, ◌==◌,
  if◌then◌else◌, arith, Bool-cases,
}
use native.Mathlib.Nat.{zero-div}
use clarion.Stream.{Result, ok, stuck, Bytes, ◌>>=◌, >>=-returns, ok_injective}
use clarion.Stream.Input.{InputStream}
use clarion.Stream.Check.{CheckInputStream, checkread}
use clarion.Frac.Types.{FracTy, FracTys, El, can_memcpy, fracpack_fixed_size}
use clarion.Frac.Types.{scalar, text, vec, opt, variant, strct, nil, cons}
use clarion.Frac.Read.{
  Unpacked, initial, initial_first, initial_members, of_object, resize, copy_objects, unpack_copied,
  unpack_items, unpack_offsets, unpack_vec, fracunpack_member,
}
use clarion.Frac.Check.{
  Checked, check_number, check_sized, check_items, check_vec, fraccheck_member,
}
use clarion.Frac.Follow.{
  Quiet, Follows, Quieted, LeavesAt-Quiet, >>=-Quiet, checkread-read, check_number-unpack_number,
  items-Follows,
}

mutual
  unfolding initial initial_first initial_members

  initial_lem : (t : FracTy) → Quiet (initial t)
  initial_lem (scalar n) = tt
  initial_lem text = tt
  initial_lem (vec t) = tt
  initial_lem (opt t) = tt
  initial_lem (variant ts) = first_lem ts
  initial_lem (strct final dense ts) = initial_members_lem ts

  first_lem : (ts : FracTys) → Quiet (initial_first ts)
  first_lem nil = tt
  first_lem (cons t ts) = >>=-Quiet (initial t) _ (initial_lem t) (λ d _. tt)

  initial_members_lem : (ts : FracTys) → Quiet (initial_members ts)
  initial_members_lem nil = tt
  initial_members_lem (cons t ts) =
      >>=-Quiet (initial t) _ (initial_lem t)
        (λ d _. >>=-Quiet (initial_members ts) _ (initial_members_lem ts) (λ ds _. tt))

resize-Quiet : {A : Type 0} (d : Result A) (n : ℕ) (v : List A) → Quiet d → Quiet (resize d n v)
unfolding resize
resize-Quiet d zero v q = tt
resize-Quiet d (suc n) [] q =
    >>=-Quiet d _ q (λ x _. >>=-Quiet (resize d n []) _ (resize-Quiet d n [] q) (λ xs _. tt))
resize-Quiet d (suc n) (x ∷ v) q = >>=-Quiet (resize d n v) _ (resize-Quiet d n v q) (λ xs _. tt)

length-resize :
    {A : Type 0} (d : Result A) (n : ℕ) (v w : List A) → resize d n v ≡ ok w → length w ≡ n
unfolding resize
length-resize d zero v w e = let same : [] ≡ w = ok_injective e in rw (← same) refl
length-resize d (suc n) [] w e =
    let (x, e1, e2) = >>=-returns d _ w e in
    let (xs, e3, e4) = >>=-returns (resize d n []) _ w e2 in
    let same : (x ∷ xs) ≡ w = ok_injective e4 in rw (← same) (ap suc (length-resize d n [] xs e3))
length-resize d (suc n) (x ∷ v) w e =
    let (xs, e3, e4) = >>=-returns (resize d n v) _ w e in
    let same : (x ∷ xs) ≡ w = ok_injective e4 in rw (← same) (ap suc (length-resize d n v xs e3))

some_elements : (a b : ℕ) → ltb 0 (a / b) ≡ true → ltb 0 a ≡ true
some_elements zero b e = sym (ap (ltb 0) (zero-div b)) ∙ e
some_elements (suc a) b e = ground arith

copy-Quiet :
    {A : Type 0} (n size : ℕ) (of : A → Bytes → A) (v : List A) (s s' : CheckInputStream)
    → checkread size s ≡ ok s'
    → Quiet (copy_objects n size of v s.rest)
unfolding copy_objects
copy-Quiet n size of v s s' e =
    rw (checkread-read size s s' e)
      (elim (Bool-cases ((size / n) * n == size)) [ inl fits ↦ rw fits tt | inr over ↦ rw over tt ])

copied-Quieted :
    {A : Type 0} (n : ℕ) (of : A → Bytes → A) (d : Result A) (v : List A)
    → Quiet d
    → Quieted (unpack_copied n of d v) check_sized
unfolding unpack_copied check_sized
copied-Quieted n of d v q s s' e =
    let ((size, s1), e1, e2) = >>=-returns (check_number 4 s) _ s' e in
    rw (check_number-unpack_number 4 s size s1 e1) (
      >>=-Quiet (if n == 0 then stuck else resize d (size / n) v) _ (resized n size) (λ w _.
        elim (Bool-cases (ltb 0 (size / n))) [
          | inl some_items ↦
              let some_bytes : ltb 0 size ≡ true = some_elements size n some_items in
              let e3 : checkread size s1 ≡ ok s' = rw some_bytes at e2 in
              rw some_items (copy-Quiet n size of w s1 s' e3)
          | inr no_items ↦ rw no_items tt
        ]))
  where
    resized : (n size : ℕ) → Quiet (if n == 0 then stuck else resize d (size / n) v)
    resized n size = elim (Bool-cases (n == 0)) [
      | inl e ↦ rw e tt
      | inr e ↦ rw e (resize-Quiet d (size / n) v q)
    ]

offsets-Quieted :
    {A : Type 0} (f : A → InputStream → Unpacked A) (c : CheckInputStream → Checked) (d : Result A)
    (v : List A)
    → Quiet d
    → ((x : A) → Follows (f x) c)
    → Quieted (unpack_offsets f d v) (λ s. check_number 4 s >>= λ r. check_items c (r.0 / 4) r.1)
unfolding unpack_offsets
offsets-Quieted f c d v q h s s' e =
    let ((size, s1), e1, e2) = >>=-returns (check_number 4 s) _ s' e in
    rw (check_number-unpack_number 4 s size s1 e1) (
      >>=-Quiet (resize d (size / 4) v) _ (resize-Quiet d (size / 4) v q) (λ w e3.
        LeavesAt-Quiet s'.rest (unpack_items f w s1.rest)
          (items-Follows f c h (size / 4) w (length-resize d (size / 4) v w e3) s1 s' e2)))

pub vec-Quieted :
    (t : FracTy) (v : List (El t))
    → ((x : El t) → Follows (fracunpack_member t x) (fraccheck_member t))
    → Quieted
        (unpack_vec
          (can_memcpy t)
          (fracpack_fixed_size t)
          (of_object t)
          (fracunpack_member t)
          (initial t)
          v)
        (check_vec (can_memcpy t) (fraccheck_member t))
unfolding unpack_vec check_vec
vec-Quieted t v h = elim (Bool-cases (can_memcpy t)) [
  | inl e ↦
      rw e (copied-Quieted (fracpack_fixed_size t) (of_object t) (initial t) v (initial_lem t))
  | inr e ↦
      rw e
        (offsets-Quieted (fracunpack_member t) (fraccheck_member t) (initial t) v (initial_lem t) h)
]

pub initial-Quiet : (t : FracTy) → Quiet (initial t)
initial-Quiet t = initial_lem t
