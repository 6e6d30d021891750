-- ===== src/Stream/Memory.antt =====
-- Integers as they lie in memory: a value of `n` bytes, its lowest byte first. The serializers copy
-- these bytes as they are.
use clarion.Prelude.{
  ℕ, zero, suc, ◌+◌, ◌*◌, ◌/◌, ◌%◌, ◌^◌, ◌<◌, ◌≡◌, refl, ap, List, [], ◌∷◌, ◌++◌, arith, length,
  take, drop, All, length-append,
}
use clarion.Stream.Outcome.{Bytes}
use native.Mathlib.Nat.{pow-suc}

unfoldable pub le_bytes : ℕ → ℕ → Bytes
le_bytes zero v = []
le_bytes (suc n) v = (v % 256) ∷ le_bytes n (v / 256)

unfoldable pub of_le_bytes : Bytes → ℕ
of_le_bytes [] = 0
of_le_bytes (b ∷ bs) = b + 256 * of_le_bytes bs

-- An array of such values, and `count` values of `n` bytes each out of a block.
unfoldable pub block : ℕ → List ℕ → Bytes
block n [] = []
block n (v ∷ vs) = le_bytes n v ++ block n vs

unfoldable pub of_block : ℕ → ℕ → Bytes → List ℕ
of_block n zero bs = []
of_block n (suc count) bs = of_le_bytes (take n bs) ∷ of_block n count (drop n bs)

pub length-le_bytes : (n v : ℕ) → length (le_bytes n v) ≡ n
unfolding le_bytes
length-le_bytes zero v = refl
length-le_bytes (suc n) v = ap suc (length-le_bytes n (v / 256))

pub of_le_bytes-le_bytes : (n v : ℕ) → v < 256 ^ n → of_le_bytes (le_bytes n v) ≡ v
unfolding le_bytes of_le_bytes
of_le_bytes-le_bytes zero v h = omega arith
of_le_bytes-le_bytes (suc n) v h =
    omega (arith, of_le_bytes-le_bytes n (v / 256) (omega (arith, pow-suc 256 n)))

pub length-block : (n : ℕ) (vs : List ℕ) → length (block n vs) ≡ length vs * n
unfolding block
length-block n [] = omega arith
length-block n (v ∷ vs) =
    omega (arith, length-append (le_bytes n v) (block n vs), length-le_bytes n v, length-block n vs)

take-le_bytes : (n v : ℕ) (rest : Bytes) → take n (le_bytes n v ++ rest) ≡ le_bytes n v
unfolding le_bytes
take-le_bytes zero v rest = refl
take-le_bytes (suc n) v rest = ap (λ l. (v % 256) ∷ l) (take-le_bytes n (v / 256) rest)

drop-le_bytes : (n v : ℕ) (rest : Bytes) → drop n (le_bytes n v ++ rest) ≡ rest
unfolding le_bytes
drop-le_bytes zero v rest = refl
drop-le_bytes (suc n) v rest = drop-le_bytes n (v / 256) rest

pub of_block-block :
    (n : ℕ) (vs : List ℕ) → All (λ v. v < 256 ^ n) vs → of_block n (length vs) (block n vs) ≡ vs
unfolding block of_block
of_block-block n [] h = refl
of_block-block n (v ∷ vs) (hv, hvs) =
    rw (take-le_bytes n v, drop-le_bytes n v, of_le_bytes-le_bytes n v hv, of_block-block n vs hvs)
