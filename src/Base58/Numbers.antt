-- ===== src/Base58/Numbers.antt =====
-- The numbers that lists of digits stand for, lowest digit first and highest digit first.
use mathlib.Core.List.{reverse, reverse_aux}
use clarion.Prelude.{
  ℕ, zero, suc, ◌+◌, ◌*◌, ◌<◌, ◌≡◌, refl, ap, ◌∙◌, List, [], ◌∷◌, ◌++◌, All, replicate, arith,
  append-nil,
}

abbrev pub value : ℕ → List ℕ → ℕ
value b [] = 0
value b (x ∷ xs) = x + b * value b xs

-- Highest digit first, behind the number `n`.
abbrev pub be_value : ℕ → ℕ → List ℕ → ℕ
be_value b n [] = n
be_value b n (x ∷ xs) = be_value b (x + b * n) xs

-- Digits, of which the highest one is not 0.
abbrev pub Canonical : ℕ → List ℕ → Type 0
Canonical b [] = Unit {0}
Canonical b (x ∷ xs) = (x < b) × (0 < x + b * value b xs) × Canonical b xs

pub Canonical-unique :
    (xs ys : List ℕ) → Canonical 256 xs → Canonical 256 ys → value 256 xs ≡ value 256 ys → xs ≡ ys
Canonical-unique [] [] cx cy e = refl
Canonical-unique [] (y ∷ ys) cx cy e = absurd (omega (arith, cy.1))
Canonical-unique (x ∷ xs) [] cx cy e = absurd (omega (arith, cx.1))
Canonical-unique (x ∷ xs) (y ∷ ys) cx cy e =
    let low : x ≡ y = omega (arith, cx.0, cy.0) in
    let high : value 256 xs ≡ value 256 ys = omega (arith, cx.0, cy.0) in
    rw (low, Canonical-unique xs ys cx.2 cy.2 high) refl

be_value-reverse_aux :
    (b : ℕ) (xs acc : List ℕ) → be_value b (value b acc) xs ≡ value b (reverse_aux xs acc)
be_value-reverse_aux b [] acc = refl
be_value-reverse_aux b (x ∷ xs) acc = be_value-reverse_aux b xs (x ∷ acc)

pub be_value-reverse : (b : ℕ) (xs : List ℕ) → be_value b 0 xs ≡ value b (reverse xs)
be_value-reverse b xs = be_value-reverse_aux b xs []

pub be_value-replicate :
    (b z : ℕ) (xs : List ℕ) → be_value b 0 (replicate z 0 ++ xs) ≡ be_value b 0 xs
be_value-replicate b zero xs = refl
be_value-replicate b (suc z) xs =
    let e : 0 + b * 0 ≡ 0 = omega arith in
    ap (λ n. be_value b n (replicate z 0 ++ xs)) e ∙ be_value-replicate b z xs

reverse_aux-Canonical :
    (xs acc : List ℕ)
    → All (λ x. x < 256) xs
    → 0 < value 256 acc
    → Canonical 256 acc
    → Canonical 256 (reverse_aux xs acc)
reverse_aux-Canonical [] acc h p c = c
reverse_aux-Canonical (x ∷ xs) acc h p c =
    reverse_aux-Canonical xs (x ∷ acc) h.1 (omega arith) (h.0, omega arith, c)

pub reverse-Canonical :
    (x : ℕ) (xs : List ℕ) → All (λ y. y < 256) (x ∷ xs) → 0 < x → Canonical 256 (reverse (x ∷ xs))
reverse-Canonical x xs h p =
    reverse_aux-Canonical xs (x ∷ []) h.1 (omega arith) (h.0, omega arith, tt)

replicate-snoc {ℓ} :
    {A : Type ℓ} (z : ℕ) (a : A) (xs : List A)
    → replicate z a ++ (a ∷ xs) ≡ a ∷ (replicate z a ++ xs)
replicate-snoc zero a xs = refl
replicate-snoc (suc z) a xs = ap (λ l. a ∷ l) (replicate-snoc z a xs)

reverse_aux-replicate {ℓ} :
    {A : Type ℓ} (z : ℕ) (a : A) (acc : List A)
    → reverse_aux (replicate z a) acc ≡ replicate z a ++ acc
reverse_aux-replicate zero a acc = refl
reverse_aux-replicate (suc z) a acc = reverse_aux-replicate z a (a ∷ acc) ∙ replicate-snoc z a acc

pub reverse-replicate {ℓ} : {A : Type ℓ} (z : ℕ) (a : A) → reverse (replicate z a) ≡ replicate z a
reverse-replicate z a = reverse_aux-replicate z a [] ∙ append-nil (replicate z a)
