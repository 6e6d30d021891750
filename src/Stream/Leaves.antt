-- ===== src/Stream/Leaves.antt =====
-- Readers that stay in the window that they were given.
use clarion.Prelude.{
  ℕ, ◌≡◌, ◌≢◌, refl, sym, ◌∙◌, ap, [], ◌++◌, length, length-append, ◌≤◌, arith, append_assoc, take,
  drop, take-append-drop, ltb, Bool, Bool-cases, inl, inr, true, false, if◌then◌else◌,
}
use clarion.Stream.Outcome.{Result, ok, err, length_error, invalid_tuple_index, stuck, Bytes, ◌>>=◌}
use clarion.Stream.Input.{InputStream, read, read-fits}

-- What is left is a tail of what was there.
abbrev pub IsTail : Bytes → Bytes → Type 0
IsTail rest s = (used : Bytes) × (s ≡ used ++ rest)

-- A reader that was given `s` returns with a tail of it, or throws.
abbrev pub Leaves {ℓ} : {A : Type ℓ} → Bytes → Result (A × InputStream) → Type 0
Leaves s (ok r) = IsTail r.1 s
Leaves s (err e) = Unit
Leaves s length_error = Unit
Leaves s invalid_tuple_index = Unit
Leaves s stuck = ⊥

pub IsTail-trans : (a b c : Bytes) → IsTail a b → IsTail b c → IsTail a c
IsTail-trans a b c (u, p) (w, q) = (w ++ u, q ∙ ap (λ l. w ++ l) p ∙ sym (append_assoc w u a))

pub Leaves-widen {ℓ} :
    {A : Type ℓ} (s s' : Bytes) (r : Result (A × InputStream))
    → IsTail s' s
    → Leaves s' r
    → Leaves s r
Leaves-widen s s' (ok r) t l = IsTail-trans r.1 s' s l t
Leaves-widen s s' (err e) t l = tt
Leaves-widen s s' length_error t l = tt
Leaves-widen s s' invalid_tuple_index t l = tt
Leaves-widen s s' stuck t l = l

module _ {ℓ κ} {A : Type ℓ} {B : Type κ} where
  pub Leaves-bind :
      (s : Bytes) (m : Result (A × InputStream)) (f : A × InputStream → Result (B × InputStream))
      → Leaves s m
      → ((r : A × InputStream) → Leaves r.1 (f r))
      → Leaves s (m >>= f)
  Leaves-bind s (ok r) f h g = Leaves-widen s r.1 (f r) h (g r)
  Leaves-bind s (err e) f h g = tt
  Leaves-bind s length_error f h g = tt
  Leaves-bind s invalid_tuple_index f h g = tt
  Leaves-bind s stuck f h g = absurd h

  pub Leaves-check :
      (s : Bytes) (m : Result A) (f : A → Result (B × InputStream))
      → m ≢ stuck
      → ((a : A) → Leaves s (f a))
      → Leaves s (m >>= f)
  Leaves-check s (ok a) f h g = g a
  Leaves-check s (err e) f h g = tt
  Leaves-check s length_error f h g = tt
  Leaves-check s invalid_tuple_index f h g = tt
  Leaves-check s stuck f h g = absurd (h refl)

pub Leaves-if {ℓ} :
    {A : Type ℓ} (b : Bool) (s : Bytes) (x y : Result (A × InputStream))
    → Leaves s x
    → Leaves s y
    → Leaves s (if b then x else y)
Leaves-if true s x y hx hy = hx
Leaves-if false s x y hx hy = hy

-- Nothing is read.
pub IsTail-refl : (s : Bytes) → IsTail s s
IsTail-refl s = ([], refl)

pub read-Leaves : (n : ℕ) (s : Bytes) → Leaves s (read n s)
unfolding read
read-Leaves n s = elim (Bool-cases (ltb (length s) n)) [
  | inl e ↦ rw e tt
  | inr e ↦
      let all : read n s ≡ ok (take n s, drop n s) = read-fits n s e in
      rw all (take n s, sym (take-append-drop n s))
]

pub IsTail-length : (rest s : Bytes) → IsTail rest s → length rest ≤ length s
IsTail-length rest s (used, e) = omega (arith, ap length e, length-append used rest)

module _ {ℓ} {A : Type ℓ} where
  pub Leaves-ok :
      (s : Bytes) (m : Result (A × InputStream)) (r : A × InputStream)
      → m ≡ ok r
      → Leaves s m
      → IsTail r.1 s
  Leaves-ok s m r e h = rw e at h

  pub Leaves-ne-stuck : (s : Bytes) (m : Result (A × InputStream)) → Leaves s m → m ≢ stuck
  Leaves-ne-stuck s m h e = rw e at h

-- The second step may know what the first one has returned.
pub Leaves-then {ℓ κ} :
    {A : Type ℓ} {B : Type κ} (s : Bytes) (m : Result (A × InputStream))
    (f : A × InputStream → Result (B × InputStream))
    → Leaves s m
    → ((r : A × InputStream) → m ≡ ok r → Leaves r.1 (f r))
    → Leaves s (m >>= f)
Leaves-then s (ok r) f h g = Leaves-widen s r.1 (f r) h (g r refl)
Leaves-then s (err e) f h g = tt
Leaves-then s length_error f h g = tt
Leaves-then s invalid_tuple_index f h g = tt
Leaves-then s stuck f h g = h

pub Leaves-bind-ne-stuck {ℓ κ} :
    {A : Type ℓ} {B : Type κ} (s : Bytes) (m : Result (A × InputStream))
    (f : A × InputStream → Result B)
    → Leaves s m
    → ((r : A × InputStream) → IsTail r.1 s → f r ≢ stuck)
    → (m >>= f) ≢ stuck
Leaves-bind-ne-stuck s (ok r) f h g = g r h
Leaves-bind-ne-stuck s (err e) f h g = λ x. cc
Leaves-bind-ne-stuck s length_error f h g = λ x. cc
Leaves-bind-ne-stuck s invalid_tuple_index f h g = λ x. cc
Leaves-bind-ne-stuck s stuck f h g = absurd h
