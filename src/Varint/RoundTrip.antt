-- ===== src/Varint/RoundTrip.antt =====
-- The readers read back what the writer wrote, for words of any width that has room.
use Prim.Native.Nat.{bit_and}
use clarion.Prelude.{
  ℕ, zero, suc, ◌+◌, ◌*◌, ◌/◌, ◌%◌, ◌^◌, ◌≤◌, ◌<◌, ◌≡◌, refl, ◌∙◌, ap, [], ◌∷◌, ◌++◌, arith, ltb,
  leb, ◌==◌, Bool-cases, inl, inr, tests, false, true,
}
use clarion.Prelude.Bits.{bit_or_disjoint, all_below, all_below_sound}
use clarion.Stream.{ok, Bytes}
use clarion.Stream.Vector
use clarion.Varint.Write.{varuint32_to_bin}
use clarion.Varint.Read.{varuint_read, add_group, varuint32_from_bin, varuint64_from_bin}
use clarion.Varint.Groups.{groups, varuint_bytes, low_group, varuint32_to_bin-bytes}
use native.Mathlib.Nat.{pow-suc, mod-eq_of_lt, div-add-mod}
use native.Mathlib.Numerals.{towards_suc}

top_bit_clear : (b : ℕ) → b < 128 → (bit_and b 0x80 == 0) ≡ true
unfolding all_below
top_bit_clear b h = all_below_sound 128 (λ x. bit_and x 0x80 == 0) b table h
  where
    table : all_below 128 (λ x. bit_and x 0x80 == 0) ≡ true
    table = refl

top_bit_set : (g : ℕ) → g < 128 → (bit_and (g + 128) 0x80 == 0) ≡ false
unfolding all_below
top_bit_set g h = ==-false _ (all_below_sound 128 (λ x. ltb 0 (bit_and (x + 128) 0x80)) g table h)
  where
    table : all_below 128 (λ x. ltb 0 (bit_and (x + 128) 0x80)) ≡ true
    table = refl

    ==-false : (a : ℕ) → ltb 0 a ≡ true → (a == 0) ≡ false
    ==-false a h = ground arith

-- What one round adds, while it fits the word and lies above what was read.
add_group_fits :
    (w dest b g shift : ℕ)
    → b % 128 ≡ g
    → dest < 2 ^ shift
    → g * 2 ^ shift < 2 ^ w
    → add_group w dest b shift ≡ dest + g * 2 ^ shift
add_group_fits w dest b g shift e hd hg =
    rw (low_group b, e, mod-eq_of_lt hg) (bit_or_disjoint shift dest g hd)

varuint_read_last :
    (w limit v dest shift : ℕ) (rest : Bytes)
    → v < 128
    → shift < limit
    → dest < 2 ^ shift
    → v * 2 ^ shift < 2 ^ w
    → varuint_read w limit (v ∷ rest) dest shift ≡ ok (dest + v * 2 ^ shift, rest)
unfolding varuint_read
varuint_read_last w limit v dest shift rest hv hl hd hw =
    let room : leb limit shift ≡ false = ground arith in
    simp (room, top_bit_clear v hv, add_group_fits w dest v v shift (omega arith) hd hw)

varuint_read_inner :
    (w limit g dest shift : ℕ) (rest : Bytes)
    → g < 128
    → shift < limit
    → dest < 2 ^ shift
    → g * 2 ^ shift < 2 ^ w
    → varuint_read w limit ((g + 128) ∷ rest) dest shift
      ≡ varuint_read w limit rest (dest + g * 2 ^ shift) (shift + 7)
unfolding varuint_read
varuint_read_inner w limit g dest shift rest hv hl hd hw =
    let room : leb limit shift ≡ false = ground arith in
    simp (room, top_bit_set g hv, add_group_fits w dest (g + 128) g shift (omega arith) hd hw)

shift_seven : (s : ℕ) → 2 ^ (s + 7) ≡ 128 * 2 ^ s
shift_seven s = simp towards_suc (omega arith)

-- The lowest group of `v` and the rest, both shifted by `s`.
split_group : (v s : ℕ) → v * 2 ^ s ≡ v % 128 * 2 ^ s + v / 128 * 2 ^ (s + 7)
split_group v s = omega (
  arith,
  ap (λ (t : ℕ). t * 2 ^ s) (div-add-mod v 128),
  ap (λ (t : ℕ). v / 128 * t) (shift_seven s),
)

low_group_room : (g s : ℕ) → g < 128 → g * 2 ^ s + 2 ^ s ≤ 2 ^ (s + 7)
low_group_room g s h = rw (shift_seven s) (grind arith)

-- A reader in the middle of a number: `dest` holds the bits below `shift`.
pub varuint_read-groups :
    (k w limit v dest shift : ℕ) (rest : Bytes)
    → v < 128 ^ suc k
    → shift + 7 * k < limit
    → dest < 2 ^ shift
    → dest + v * 2 ^ shift < 2 ^ w
    → varuint_read w limit (groups k v ++ rest) dest shift ≡ ok (dest + v * 2 ^ shift, rest)
unfolding groups
varuint_read-groups zero w limit v dest shift rest hv hl hd hw =
    varuint_read_last w limit v dest shift rest (omega arith) (omega arith) hd (omega arith)
varuint_read-groups (suc k) w limit v dest shift rest hv hl hd hw = elim (Bool-cases (ltb v 128)) [
  | inl small ↦
      rw small
        (varuint_read_last w limit v dest shift rest (omega tests) (omega arith) hd (omega arith))
  | inr large ↦
      let split = split_group v shift in
      rw large (
        varuint_read_inner w limit (v % 128) dest shift _ (omega arith) (omega arith) hd
          (omega arith)
        ∙ varuint_read-groups k w limit (v / 128) (dest + v % 128 * 2 ^ shift) (shift + 7) rest
            (omega (arith, pow-suc 128 (suc k))) (omega arith)
            (omega (arith, low_group_room (v % 128) shift (omega arith))) (omega arith)
        ∙ ap (λ n. ok (n, rest)) (omega arith))
]

pub varuint32_from_bin-bytes :
    (v : ℕ) (rest : Bytes)
    → v < 2 ^ 32
    → varuint32_from_bin (varuint_bytes v ++ rest) ≡ ok (v, rest)
unfolding varuint32_from_bin
varuint32_from_bin-bytes v rest h =
    varuint_read-groups 4 32 35 v 0 0 rest (omega arith) (omega arith) (omega arith) (omega arith)
    ∙ ap (λ n. ok (n, rest)) (omega arith)

pub varuint64_from_bin-bytes :
    (v : ℕ) (rest : Bytes)
    → v < 2 ^ 32
    → varuint64_from_bin (varuint_bytes v ++ rest) ≡ ok (v, rest)
unfolding varuint64_from_bin
varuint64_from_bin-bytes v rest h =
    varuint_read-groups 4 64 70 v 0 0 rest (omega arith) (omega arith) (omega arith) (omega arith)
    ∙ ap (λ n. ok (n, rest)) (omega arith)

-- What `varuint32_to_bin` writes of a uint32_t, on an empty vector stream, both readers read back, and
-- they leave what follows it unread.
pub varuint_from_bin-to_bin :
    (v : ℕ) (rest : Bytes)
    → v < 2 ^ 32
    → (bin : Bytes) × (varuint32_to_bin Vector.sink v [] ≡ ok bin)
      × (varuint32_from_bin (bin ++ rest) ≡ ok (v, rest))
      × (varuint64_from_bin (bin ++ rest) ≡ ok (v, rest))
unfolding Vector.write
varuint_from_bin-to_bin v rest h = (
  varuint_bytes v,
  varuint32_to_bin-bytes Vector.sink v [] h,
  varuint32_from_bin-bytes v rest h,
  varuint64_from_bin-bytes v rest h,
)
