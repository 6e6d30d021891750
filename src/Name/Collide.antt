-- ===== src/Name/Collide.antt =====
-- The hash of a text that is no name: the first byte of each block of eight is lost.
use Prim.Native.Nat.{bit_or}
use clarion.Prelude.{
  ℕ, suc, ◌+◌, ◌*◌, ◌/◌, ◌%◌, ◌^◌, ◌<◌, ◌≡◌, refl, sym, ◌∙◌, ap, [], ◌∷◌, arith, length, drop,
  drop-drop,
}
use clarion.Prelude.Bits.{bit_or_mod}
use clarion.Stream.{Bytes}
use clarion.Name.Print.{name_to_string}
use clarion.Name.Murmur.{
  widen, load_round, load_loop, unaligned_load, blocks, finish, murmur64_seeded, murmur64,
  hash_name,
}
use clarion.Name.RoundTrip.{string_to_name_strict-name_to_string}

-- A name in a JSON text is read back as it was: it is printed, and read through the hash.
pub hash_name-name_to_string : (v : ℕ) → v < 2 ^ 64 → hash_name (name_to_string v) ≡ v
unfolding hash_name
hash_name-name_to_string v h = rw (string_to_name_strict-name_to_string v h)

-- If a shift keeps what agrees in `j` low bits as `m` low bits, so does a round.
load_round_agrees :
    (j m r r' c : ℕ)
    → ((x y : ℕ) → x % 2 ^ j ≡ y % 2 ^ j → x * 2 ^ 8 % 2 ^ 64 % 2 ^ m ≡ y * 2 ^ 8 % 2 ^ 64 % 2 ^ m)
    → r % 2 ^ j ≡ r' % 2 ^ j
    → load_round r c % 2 ^ m ≡ load_round r' c % 2 ^ m
unfolding load_round
load_round_agrees j m r r' c shift e = shift _ _ (
    bit_or_mod j r (widen c)
    ∙ ap (λ low. bit_or low (widen c % 2 ^ j)) e
    ∙ sym (bit_or_mod j r' (widen c)))

load_round-lt : (r c : ℕ) → load_round r c < 2 ^ 64
unfolding load_round
load_round-lt r c = omega arith

load_round-low : (r c : ℕ) → load_round r c % 2 ^ 8 ≡ 0
unfolding load_round
load_round-low r c = omega arith

-- Seven more rounds shift out the bits in which two first bytes differ.
load_loop_forgets :
    (r r' c1 c2 c3 c4 c5 c6 c7 : ℕ)
    → r % 2 ^ 8 ≡ r' % 2 ^ 8
    → load_loop r (c1 ∷ c2 ∷ c3 ∷ c4 ∷ c5 ∷ c6 ∷ c7 ∷ [])
      ≡ load_loop r' (c1 ∷ c2 ∷ c3 ∷ c4 ∷ c5 ∷ c6 ∷ c7 ∷ [])
unfolding load_loop
load_loop_forgets r r' c1 c2 c3 c4 c5 c6 c7 e1 =
    let e2 = load_round_agrees 8 16 r r' c1 (λ x y e. omega arith) e1 in
    let e3 = load_round_agrees 16 24 _ _ c2 (λ x y e. omega arith) e2 in
    let e4 = load_round_agrees 24 32 _ _ c3 (λ x y e. omega arith) e3 in
    let e5 = load_round_agrees 32 40 _ _ c4 (λ x y e. omega arith) e4 in
    let e6 = load_round_agrees 40 48 _ _ c5 (λ x y e. omega arith) e5 in
    let e7 = load_round_agrees 48 56 _ _ c6 (λ x y e. omega arith) e6 in
    let e8 = load_round_agrees 56 64 _ _ c7 (λ x y e. omega arith) e7 in
    omega (arith, e8, load_round-lt _ c7, load_round-lt _ c7)

unaligned_load_forgets :
    (b b' c1 c2 c3 c4 c5 c6 c7 : ℕ) (rest : Bytes)
    → unaligned_load (b ∷ c1 ∷ c2 ∷ c3 ∷ c4 ∷ c5 ∷ c6 ∷ c7 ∷ rest)
      ≡ unaligned_load (b' ∷ c1 ∷ c2 ∷ c3 ∷ c4 ∷ c5 ∷ c6 ∷ c7 ∷ rest)
unfolding unaligned_load load_loop
unaligned_load_forgets b b' c1 c2 c3 c4 c5 c6 c7 rest =
    load_loop_forgets (load_round 0 b) (load_round 0 b') c1 c2 c3 c4 c5 c6 c7
      (load_round-low 0 b ∙ sym (load_round-low 0 b'))

drop_block : (n : ℕ) (p : Bytes) → drop (suc n * 8) p ≡ drop (n * 8) (drop 8 p)
drop_block n p = let e : suc n * 8 ≡ 8 + n * 8 = omega arith in rw e (sym (drop-drop 8 (n * 8) p))

-- The hash sees a first block only through its load.
same_first_block :
    (m n hash : ℕ) (p p' : Bytes)
    → m ≡ suc n
    → unaligned_load p ≡ unaligned_load p'
    → drop 8 p ≡ drop 8 p'
    → finish (blocks m hash p) (drop (m * 8) p) ≡ finish (blocks m hash p') (drop (m * 8) p')
unfolding blocks
same_first_block m n hash p p' e load rest = rw (e, drop_block n p, drop_block n p', load, rest)

-- Two texts that differ only in their first byte, and have eight bytes at least, have one hash.
pub murmur64_collides :
    (b b' c1 c2 c3 c4 c5 c6 c7 : ℕ) (rest : Bytes)
    → murmur64 (b ∷ c1 ∷ c2 ∷ c3 ∷ c4 ∷ c5 ∷ c6 ∷ c7 ∷ rest)
      ≡ murmur64 (b' ∷ c1 ∷ c2 ∷ c3 ∷ c4 ∷ c5 ∷ c6 ∷ c7 ∷ rest)
unfolding murmur64 murmur64_seeded
murmur64_collides b b' c1 c2 c3 c4 c5 c6 c7 rest =
    same_first_block _ (length rest / 8) _ _ _ (omega arith)
      (unaligned_load_forgets b b' c1 c2 c3 c4 c5 c6 c7 rest) refl
