-- ===== src/Key/Ranges.antt =====
-- The keys of optional values and of sequences.
use Prim.Native.Nat.{compare, Ordering}
use clarion.Prelude.{
  ℕ, zero, suc, ◌≡◌, refl, List, [], ◌∷◌, ◌++◌, false, Option, none, some, length, All, ◌==◌, arith,
  append_assoc,
}
use clarion.Stream.{Bytes}
use clarion.Key.Types.{compare_list, compare_option, AllOption}
use clarion.Key.Order.{Compares, Compares-append, Compares-byte, Compares-lt_end, Compares-gt_end}
use clarion.Key.Encode.{joined, byte_key, other_key, range_key}

nonzero : (c : ℕ) → (suc c == 0) ≡ false
nonzero c = ground arith

below_suc : (c : ℕ) → compare 0 (suc c) ≡ Ordering.lt
below_suc c = ground arith

above_suc : (c : ℕ) → compare (suc c) 0 ≡ Ordering.gt
above_suc c = ground arith

pub byte_key-Compares :
    (o o' : Option ℕ) → Compares (byte_key o) (byte_key o') (compare_option compare o o')
unfolding byte_key
byte_key-Compares none none = record { with_rest = λ r r'. refl }
byte_key-Compares none (some zero) = record { with_rest = λ r r'. refl }
byte_key-Compares none (some (suc c)) = record { with_rest = λ r r'. rw (nonzero c, below_suc c) }
byte_key-Compares (some zero) none = record { with_rest = λ r r'. refl }
byte_key-Compares (some (suc c)) none = record { with_rest = λ r r'. rw (nonzero c, above_suc c) }
byte_key-Compares (some zero) (some zero) = record { with_rest = λ r r'. refl }
byte_key-Compares (some zero) (some (suc d)) = record {
  with_rest = λ r r'. rw (nonzero d, below_suc d);
}
byte_key-Compares (some (suc c)) (some zero) = record {
  with_rest = λ r r'. rw (nonzero c, above_suc c);
}
byte_key-Compares (some (suc c)) (some (suc d)) = record {
  with_rest = λ r r'. rw (nonzero c, nonzero d);
}

module _ {ℓ} {A : Type ℓ} (P : A → Type 0) (cmp : A → A → Ordering) where
  module _ (f : A → Bytes) (h : (v w : A) → P v → P w → Compares (f v) (f w) (cmp v w)) where
    pub other_key-Compares :
        (o o' : Option A)
        → AllOption P o
        → AllOption P o'
        → Compares (other_key f o) (other_key f o') (compare_option cmp o o')
    unfolding other_key
    other_key-Compares none none p q = Compares-byte 0 0
    other_key-Compares none (some w) p q =
        Compares-lt_end (0 ∷ []) (1 ∷ []) (f w) (Compares-byte 0 1)
    other_key-Compares (some v) none p q =
        Compares-gt_end (1 ∷ []) (0 ∷ []) (f v) (Compares-byte 1 0)
    other_key-Compares (some v) (some w) p q =
        Compares-append (1 ∷ []) (1 ∷ []) (f v) (f w) _ _ (Compares-byte 1 1) (h v w p q)

    pub joined-Compares :
        (xs ys : List A)
        → length xs ≡ length ys
        → All P xs
        → All P ys
        → Compares (joined f xs) (joined f ys) (compare_list cmp xs ys)
    unfolding joined
    joined-Compares [] [] e p q = record { with_rest = λ r r'. refl }
    joined-Compares [] (y ∷ ys) e p q = absurd (omega arith)
    joined-Compares (x ∷ xs) [] e p q = absurd (omega arith)
    joined-Compares (x ∷ xs) (y ∷ ys) e p q =
        Compares-append _ _ _ _ _ _ (h x y p.0 q.0) (joined-Compares xs ys (omega arith) p.1 q.1)

  module _ (f : Option A → Bytes)
      (h : (o o' : Option A)
        → AllOption P o
        → AllOption P o'
        → Compares (f o) (f o') (compare_option cmp o o')) where
    range_key-cons : (x : A) (xs : List A) → range_key f (x ∷ xs) ≡ f (some x) ++ range_key f xs
    unfolding range_key joined
    range_key-cons x xs = append_assoc (f (some x)) (joined (λ y. f (some y)) xs) (f none)

    pub range_key-Compares :
        (xs ys : List A)
        → All P xs
        → All P ys
        → Compares (range_key f xs) (range_key f ys) (compare_list cmp xs ys)
    unfolding range_key joined
    range_key-Compares [] [] p q = h none none tt tt
    range_key-Compares [] (y ∷ ys) p q =
        rw (range_key-cons y ys)
          (Compares-lt_end (f none) (f (some y)) (range_key f ys) (h none (some y) tt q.0))
    range_key-Compares (x ∷ xs) [] p q =
        rw (range_key-cons x xs)
          (Compares-gt_end (f (some x)) (f none) (range_key f xs) (h (some x) none p.0 tt))
    range_key-Compares (x ∷ xs) (y ∷ ys) p q =
        rw (range_key-cons x xs, range_key-cons y ys)
          (Compares-append _ _ _ _ _ _ (h (some x) (some y) p.0 q.0)
            (range_key-Compares xs ys p.1 q.1))
