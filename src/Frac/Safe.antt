-- ===== src/Frac/Safe.antt =====
-- What `fraccheck` accepts, `fracunpack` reads without an exception.
use mathlib.Core.Path.{subst}
use clarion.Prelude.{
  ℕ, ◌+◌, ◌≡◌, ◌≢◌, refl, sym, ap, List, length, Bool, true, false, none, some, inl, inr, ltb, leb,
  ◌==◌, if◌then◌else◌, arith, Bool-cases,
}
use clarion.Stream.{
  Result, ok, err, length_error, StreamError, Bytes, ◌>>=◌, >>=-returns, ok_injective,
}
use clarion.Stream.Input.{InputStream, sub_stream}
use clarion.Stream.Check.{CheckInputStream, open_at, checkread}
use clarion.Frac.Types.{
  FracTy, FracTys, El, Els, can_memcpy, may_use_heap, is_ext_structure, fracpack_fixed_size,
}
use clarion.Frac.Types.{scalar, text, vec, opt, variant, strct, nil, cons}
use clarion.Frac.Read.{
  Unpacked, initial, of_members, unpack_number, unpack_text, unpack_object, before_heap,
  unpack_struct, unpack_members_of, unpack_next, unpack_at, unpack_container, unpack_optional,
  fracunpack, fracunpack_member, fracunpack_members,
}
use clarion.Frac.Check.{
  Checked, check_number, check_sized, check_before_heap, check_struct, check_members_of, check_at,
  check_far, check_next, fraccheck, fraccheck_member, fraccheck_members,
}
use clarion.Frac.Follow.{
  Quiet, LeavesAt, Follows, Quieted, Follows-Quieted, >>=-Quiet, >>=-LeavesAt, then-LeavesAt,
  checkread-read, check_number-unpack_number, number-Follows, sized-Follows, at-Quiet, heap-Follows,
}
use clarion.Frac.Checked.{initial-Quiet, vec-Quieted}

container-Follows :
    {A : Type 0} (f : List A → InputStream → Unpacked (List A)) (c : CheckInputStream → Checked)
    (v : List A)
    → Quieted (f v) c
    → Follows (unpack_container f v) (check_far c)
unfolding unpack_container check_far
container-Follows f c v q s s' e =
    let ((offset, s1), e1, e2) = >>=-returns (check_number 4 s) _ s' e in
    rw (check_number-unpack_number 4 s offset s1 e1) (elim (Bool-cases (leb 4 offset)) [
      | inl far ↦
          let e3 : check_at c offset s s1 ≡ ok s' = rw far at e2 in
          let (quiet, same) = at-Quiet f c v offset s s1 s' q e3 in
          rw far (>>=-LeavesAt s'.rest (unpack_at f offset v s.rest) _ quiet (λ a _. sym same))
      | inr near ↦
          let e3 : ok s1 ≡ ok s' = rw near at e2 in rw near (ap (λ x. x.rest) (ok_injective e3))
    ])

at-rest :
    (c : CheckInputStream → Checked) (offset : ℕ) (s s1 s' : CheckInputStream)
    → check_at c offset s s1 ≡ ok s'
    → s1.rest ≡ s'.rest
unfolding check_at
at-rest c offset s s1 s' e =
    let (w, e1, e2) = >>=-returns (sub_stream offset s.rest) _ s' e in
    let (i, e3, e4) = >>=-returns (c (open_at w)) _ s' e2 in ap (λ x. x.rest) (ok_injective e4)

module _ {A : Type 0} (f : A → InputStream → Unpacked A) (d : Result A)
    (c : CheckInputStream → Checked) (fresh : Quiet d) (q : (x : A) → Quieted (f x) c) where
  near-LeavesAt :
      (offset : ℕ) (s : InputStream)
      → LeavesAt s ((if offset == 0 then (d >>= λ x. ok (some x)) else ok none) >>= λ v. ok (v, s))
  near-LeavesAt offset s = elim (Bool-cases (offset == 0)) [
    | inl e ↦
        rw e (
          >>=-LeavesAt s (d >>= λ x. ok (some x)) _ (>>=-Quiet d _ fresh (λ x _. tt)) (λ a _. refl))
    | inr e ↦ rw e refl
  ]

  pub optional-Follows : Follows (unpack_optional f d) (check_far c)
  unfolding unpack_optional check_far
  optional-Follows s s' e =
      let ((offset, s1), e1, e2) = >>=-returns (check_number 4 s) _ s' e in
      rw (check_number-unpack_number 4 s offset s1 e1) (elim (Bool-cases (leb 4 offset)) [
        | inl far ↦
            let e3 : check_at c offset s s1 ≡ ok s' = rw far at e2 in
            let some_offset : (offset == 0) ≡ false = ground arith in
            rw (some_offset, far)
              (>>=-LeavesAt s'.rest (d >>= λ x. unpack_at f offset x s.rest >>= λ y. ok (some y)) _
                (>>=-Quiet d _ fresh (λ x _.
                  >>=-Quiet (unpack_at f offset x s.rest) _
                    (at-Quiet f c x offset s s1 s' (q x) e3).0 (λ y _. tt)))
                (λ a _. at-rest c offset s s1 s' e3))
        | inr near ↦
            let e3 : ok s1 ≡ ok s' = rw near at e2 in
            rw (near, ap (λ x. x.rest) (ok_injective e3)) (near-LeavesAt offset s'.rest)
      ])

copied_strct-Follows :
    {A : Type 0} (n : ℕ) (of : A → Bytes → A) (v : A) → Follows (unpack_object n of v) (checkread n)
unfolding unpack_object
copied_strct-Follows n of v s s' e = rw (checkread-read n s s' e) refl

struct-Follows :
    {A : Type 0} (ext : Bool) (n : ℕ) (r : A → (InputStream → Bool) → InputStream → Unpacked A)
    (c : (CheckInputStream → Bool) → CheckInputStream → Checked) (v : A)
    → ((start opened : ℕ)
        → Follows (r v (before_heap start opened)) (c (check_before_heap start opened)))
    → Follows (unpack_struct ext n r v) (check_struct ext n c)
unfolding unpack_struct check_struct
struct-Follows true n r c v h s s' e =
    let ((start, s1), e1, e2) = >>=-returns (check_number 2 s) _ s' e in
    rw (check_number-unpack_number 2 s start s1 e1) (h start (length s1.rest) s1 s' e2)
struct-Follows false n r c v h s s' e = h n (length s.rest) s s' e

members_of-Follows :
    (t : FracTy) {A : Type 0} (of : A → Bytes → A)
    (r : A → (InputStream → Bool) → InputStream → Unpacked A)
    (c : (CheckInputStream → Bool) → CheckInputStream → Checked) (v : A)
    → ((start opened : ℕ)
        → Follows (r v (before_heap start opened)) (c (check_before_heap start opened)))
    → Follows (unpack_members_of t of r v) (check_members_of t c)
unfolding unpack_members_of check_members_of
members_of-Follows t of r c v h = elim (Bool-cases (can_memcpy t)) [
  | inl e ↦ rw e (copied_strct-Follows (fracpack_fixed_size t) of v)
  | inr e ↦ rw e (struct-Follows (is_ext_structure t) (fracpack_fixed_size t) r c v h)
]

next-Follows :
    {A : Type 0} (start opened : ℕ) (r : A → InputStream → Unpacked A)
    (c : CheckInputStream → Checked) (v : A)
    → Follows (r v) c
    → Follows
        (λ s. unpack_next (before_heap start opened s) r v s)
        (λ s. check_next (check_before_heap start opened s) c s)
unfolding unpack_next check_next before_heap check_before_heap
next-Follows start opened r c v h s s' e = elim (Bool-cases (ltb opened (start + length s.rest))) [
  | inl more ↦ let e' : c s ≡ ok s' = rw more at e in rw more (h s s' e')
  | inr done ↦ let e' : ok s ≡ ok s' = rw done at e in rw done (ap (λ x. x.rest) (ok_injective e'))
]

strct_member-Follows :
    (final dense : Bool) (ts : FracTys) (v : Els ts)
    → ((start opened : ℕ)
        → Follows
            (fracunpack_members ts v (before_heap start opened))
            (fraccheck_members ts (check_before_heap start opened)))
    → Follows (fracunpack_member (strct final dense ts) v) (fraccheck_member (strct final dense ts))
unfolding fracunpack_member fraccheck_member
strct_member-Follows final dense ts v h =
    let here =
      members_of-Follows (strct final dense ts) (of_members ts) (fracunpack_members ts)
        (fraccheck_members ts) v h in
    elim (Bool-cases (may_use_heap (strct final dense ts))) [
      | inl e ↦ rw e (heap-Follows _ _ v (Follows-Quieted _ _ here))
      | inr e ↦ rw e here
    ]

mutual
  unfolding fracunpack fracunpack_member fracunpack_members fraccheck fraccheck_member
      fraccheck_members

  check_lem : (t : FracTy) (v : El t) → Quieted (fracunpack t v) (fraccheck t)
  check_lem (scalar n) v = Follows-Quieted (unpack_number n) (checkread n) (number-Follows n)
  check_lem text v = Follows-Quieted unpack_text check_sized sized-Follows
  check_lem (vec t) v = vec-Quieted t v (λ x. member_lem t x)
  check_lem (opt t) v = λ s s' e. tt
  check_lem (variant ts) v = λ s s' e. cc
  check_lem (strct final dense ts) v = Follows-Quieted _ _ (
      members_of-Follows (strct final dense ts) (of_members ts) (fracunpack_members ts)
        (fraccheck_members ts) v (λ start opened. members_lem ts v start opened))

  member_lem : (t : FracTy) (v : El t) → Follows (fracunpack_member t v) (fraccheck_member t)
  member_lem (scalar n) v = number-Follows n
  member_lem text v =
      container-Follows (λ w. unpack_text) check_sized v
        (Follows-Quieted unpack_text check_sized sized-Follows)
  member_lem (vec t) v =
      container-Follows (fracunpack (vec t)) (fraccheck (vec t)) v
        (vec-Quieted t v (λ x. member_lem t x))
  member_lem (opt t) v =
      optional-Follows (fracunpack t) (initial t) (fraccheck t) (initial-Quiet t)
        (λ x. check_lem t x)
  member_lem (variant ts) v = λ s s' e. cc
  member_lem (strct final dense ts) v =
      strct_member-Follows final dense ts v (λ start opened. members_lem ts v start opened)

  members_lem :
      (ts : FracTys) (v : Els ts) (start opened : ℕ)
      → Follows
          (fracunpack_members ts v (before_heap start opened))
          (fraccheck_members ts (check_before_heap start opened))
  members_lem nil v start opened = λ s s' e. ap (λ x. x.rest) (ok_injective e)
  members_lem (cons t ts) v start opened = λ s s' e.
      let (s1, e1, e2) =
        >>=-returns (check_next (check_before_heap start opened s) (fraccheck_member t) s) _ s' e in
      then-LeavesAt s1.rest s'.rest
        (unpack_next (before_heap start opened s.rest) (fracunpack_member t) v.0 s.rest) _
        (next-Follows start opened (fracunpack_member t) (fraccheck_member t) v.0 (member_lem t v.0)
          s s1 e1)
        (λ x.
          then-LeavesAt s'.rest s'.rest
            (fracunpack_members ts v.1 (before_heap start opened) s1.rest) _
            (members_lem ts v.1 start opened s1 s' e2) (λ xs. refl))

-- Whatever the type and the bytes, if `fraccheck` accepts the bytes, then `fracunpack` of them throws no
-- stream error and no length error, whatever object is unpacked into.
pub fraccheck-fracunpack :
    (t : FracTy) (v : El t) (s : InputStream) (c : CheckInputStream)
    → fraccheck t (open_at s) ≡ ok c
    → ((e : StreamError) → fracunpack t v s ≢ err e) × (fracunpack t v s ≢ length_error)
unfolding open_at
fraccheck-fracunpack t v s c e =
    let quiet = check_lem t v (open_at s) c e in
    (λ x thrown. subst Quiet thrown quiet, λ thrown. subst Quiet thrown quiet)
