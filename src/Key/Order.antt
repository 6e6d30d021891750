-- ===== src/Key/Order.antt =====
-- Byte strings that compare as given, whatever follows them.
use Prim.Native.Nat.{compare, Ordering}
use clarion.Prelude.{ℕ, ◌/◌, ◌%◌, ◌≡◌, refl, sym, [], ◌∷◌, ◌++◌, append_assoc, arith}
use clarion.Stream.{Bytes}
use clarion.Key.Types.{also, compare_bytes}

pub record Compares (a b : Bytes) (o : Ordering) : Type 0 where
  pub with_rest : (r r' : Bytes) → compare_bytes (a ++ r) (b ++ r') ≡ also o (compare_bytes r r')

pub also_assoc : (o o' o3 : Ordering) → also (also o o') o3 ≡ also o (also o' o3)
also_assoc Ordering.lt o' o3 = refl
also_assoc Ordering.eq o' o3 = refl
also_assoc Ordering.gt o' o3 = refl

pub Compares-append :
    (a b c d : Bytes) (o o' : Ordering)
    → Compares a b o
    → Compares c d o'
    → Compares (a ++ c) (b ++ d) (also o o')
Compares-append a b c d o o' p q = record {
  with_rest = λ r r'.
      rw (append_assoc a c r, append_assoc b d r', p.with_rest, q.with_rest)
        (sym (also_assoc o o' _));
}

pub Compares-lt :
    (a b c d : Bytes) → Compares a b Ordering.lt → Compares (a ++ c) (b ++ d) Ordering.lt
Compares-lt a b c d p = record {
  with_rest = λ r r'. rw (append_assoc a c r, append_assoc b d r', p.with_rest);
}

pub Compares-gt :
    (a b c d : Bytes) → Compares a b Ordering.gt → Compares (a ++ c) (b ++ d) Ordering.gt
Compares-gt a b c d p = record {
  with_rest = λ r r'. rw (append_assoc a c r, append_assoc b d r', p.with_rest);
}

pub Compares-byte : (x y : ℕ) → Compares (x ∷ []) (y ∷ []) (compare x y)
Compares-byte x y = record { with_rest = λ r r'. refl }

pub compare-digits :
    (v w : ℕ) → also (compare (v / 256) (w / 256)) (compare (v % 256) (w % 256)) ≡ compare v w
compare-digits v w = ground arith

-- Where the second one goes on.
pub Compares-lt_end : (a b d : Bytes) → Compares a b Ordering.lt → Compares a (b ++ d) Ordering.lt
Compares-lt_end a b d p = record { with_rest = λ r r'. rw (append_assoc b d r', p.with_rest) }

pub Compares-gt_end : (a b c : Bytes) → Compares a b Ordering.gt → Compares (a ++ c) b Ordering.gt
Compares-gt_end a b c p = record { with_rest = λ r r'. rw (append_assoc a c r, p.with_rest) }
