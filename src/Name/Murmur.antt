-- ===== src/Name/Murmur.antt =====
-- murmur.hpp, and `hash_name`, which hashes what is no name.
use Prim.Native.Nat.{bit_or, bit_xor}
use clarion.Prelude.{
  ℕ, zero, suc, ◌+◌, ◌-◌, ◌*◌, ◌/◌, ◌%◌, ◌^◌, [], ◌∷◌, length, take, drop, ltb, ◌==◌, if◌then◌else◌,
}
use clarion.Stream.{Bytes}
use clarion.Name.Strict.{string_to_name_strict}

-- A `char` as a uint64_t: its sign is extended.
unfoldable pub widen : ℕ → ℕ
widen c = if ltb c 128 then c else c + (2 ^ 64 - 2 ^ 8)

-- One round of `unaligned_load`: `r |= p[i]; r <<= 8;`
unfoldable pub load_round : ℕ → ℕ → ℕ
load_round r c = bit_or r (widen c) * 2 ^ 8 % 2 ^ 64

unfoldable pub load_loop : ℕ → Bytes → ℕ
load_loop r [] = r
load_loop r (c ∷ p) = load_loop (load_round r c) p

unfoldable pub unaligned_load : Bytes → ℕ
unaligned_load p = load_loop 0 (take 8 p)

-- `load_bytes`: the bytes as unsigned numbers, from the last to the first.
unfoldable pub load_bytes : Bytes → ℕ
load_bytes [] = 0
load_bytes (c ∷ p) = (load_bytes p * 2 ^ 8 + c) % 2 ^ 64

unfoldable pub shift_mix : ℕ → ℕ
shift_mix v = bit_xor v (v / 2 ^ 47)

abbrev pub mul : ℕ
mul = 0xc6a4a793_5bd1e995

unfoldable pub mix : ℕ → ℕ → ℕ
mix hash v = bit_xor hash v * mul % 2 ^ 64

-- The main loop over blocks of eight bytes, and how many there are.
unfoldable pub blocks : ℕ → ℕ → Bytes → ℕ
blocks zero hash p = hash
blocks (suc n) hash p =
    blocks n (mix hash (shift_mix (unaligned_load p * mul % 2 ^ 64) * mul % 2 ^ 64)) (drop 8 p)

-- What is done after the main loop.
unfoldable pub finish : ℕ → Bytes → ℕ
finish hash p =
    let hash' = if length p == 0 then hash else mix hash (load_bytes p) in
    shift_mix (shift_mix hash' * mul % 2 ^ 64)

unfoldable pub murmur64_seeded : ℕ → Bytes → ℕ
murmur64_seeded seed p =
    let n = length p / 8 in
    finish (blocks n (bit_xor seed (length p * mul % 2 ^ 64)) p) (drop (n * 8) p)

unfoldable pub murmur64 : Bytes → ℕ
murmur64 p = murmur64_seeded 0xbadd00d00 p

unfoldable pub hash_name : Bytes → ℕ
hash_name str = let r = string_to_name_strict str in if r.0 then r.1 else murmur64 str
