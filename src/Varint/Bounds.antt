-- ===== src/Varint/Bounds.antt =====
-- The readers on any input, well formed or not.
use Prim.Native.Nat.{bit_and}
use clarion.Prelude.{
  ℕ, zero, suc, ◌+◌, ◌*◌, ◌^◌, ◌≤◌, ◌<◌, ◌≡◌, [], ◌∷◌, arith, length, ◌==◌, ◌⊎◌, inl, inr, All, leb,
  take, Bool-cases, false,
}
use clarion.Prelude.Bits.{bit_or-lt, two_pow_pos}
use clarion.Stream.{Result, ok, err, overrun, invalid_varuint_encoding, Bytes}
use clarion.Varint.Read.{varuint_read, add_group, varuint32_from_bin, varuint64_from_bin}
use mathlib.Core.Path.{subst, sym}
use native.Mathlib.Nat.{mod-lt}

add_group-lt : (w dest b shift : ℕ) → dest < 2 ^ w → add_group w dest b shift < 2 ^ w
add_group-lt w dest b shift h =
    bit_or-lt w dest _ h (mod-lt (bit_and b 0x7f * 2 ^ shift) (two_pow_pos w))

varuint_read_takes :
    (s : Bytes) (w limit dest shift v : ℕ) (rest : Bytes)
    → dest < 2 ^ w
    → varuint_read w limit s dest shift ≡ ok (v, rest)
    → (v < 2 ^ w) × (length rest < length s) × (shift + 7 * length s < limit + 7 * length rest + 7)
unfolding varuint_read
varuint_read_takes [] w limit dest shift v rest hd e = ground arith
varuint_read_takes (b ∷ s) w limit dest shift v rest hd e = ground (
  arith,
  add_group-lt w dest b shift hd,
  varuint_read_takes s w limit (add_group w dest b shift) (shift + 7) v rest,
)

-- A successful `varuint32_from_bin` returns a uint32_t and takes 1 to 5 bytes.
pub varuint32_from_bin_takes :
    (s : Bytes) (v : ℕ) (rest : Bytes)
    → varuint32_from_bin s ≡ ok (v, rest)
    → (v < 2 ^ 32) × (length rest < length s) × (length s ≤ length rest + 5)
unfolding varuint32_from_bin
varuint32_from_bin_takes s v rest e =
    let (hv, hl, hs) = varuint_read_takes s 32 35 0 0 v rest (omega arith) e in
    (hv, hl, omega arith)

-- A successful `varuint64_from_bin` returns a uint64_t and takes 1 to 10 bytes.
pub varuint64_from_bin_takes :
    (s : Bytes) (v : ℕ) (rest : Bytes)
    → varuint64_from_bin s ≡ ok (v, rest)
    → (v < 2 ^ 64) × (length rest < length s) × (length s ≤ length rest + 10)
unfolding varuint64_from_bin
varuint64_from_bin_takes s v rest e =
    let (hv, hl, hs) = varuint_read_takes s 64 70 0 0 v rest (omega arith) e in
    (hv, hl, omega arith)

-- Bytes that say that another byte follows.
abbrev pub Continues : ℕ → Type 0
Continues b = (bit_and b 0x80 == 0) ≡ false

-- How a reader with `k` rounds left ends.
abbrev pub Ends : ℕ → Bytes → Result (ℕ × Bytes) → Type 0
Ends k s r =
    ((p : ℕ × Bytes) × (r ≡ ok p))
    ⊎ ((r ≡ err overrun) × All Continues s × (length s < k))
    ⊎ ((r ≡ err invalid_varuint_encoding) × All Continues (take k s) × (k ≤ length s))

Ends-cons :
    (k b : ℕ) (s : Bytes) (r : Result (ℕ × Bytes))
    → Continues b
    → Ends k s r
    → Ends (suc k) (b ∷ s) r
Ends-cons k b s r c (inl x) = inl x
Ends-cons k b s r c (inr (inl (e, a, h))) = inr (inl (e, (c, a), omega arith))
Ends-cons k b s r c (inr (inr (e, a, h))) = inr (inr (e, (c, a), omega arith))

varuint_read-Ends :
    (k : ℕ) (s : Bytes) (w limit dest shift : ℕ)
    → shift + 7 * k ≡ limit
    → Ends k s (varuint_read w limit s dest shift)
unfolding varuint_read
varuint_read-Ends zero [] w limit dest shift h = inr (inr (ground arith, tt, omega arith))
varuint_read-Ends zero (b ∷ s) w limit dest shift h = inr (inr (ground arith, tt, omega arith))
varuint_read-Ends (suc k) [] w limit dest shift h = inr (inl (ground arith, tt, omega arith))
varuint_read-Ends (suc k) (b ∷ s) w limit dest shift h =
    let room : leb limit shift ≡ false = ground arith in
    elim (Bool-cases (bit_and b 0x80 == 0)) [
      | inl last ↦ inl ((add_group w dest b shift, s), rw (room, last))
      | inr more ↦ subst (Ends (suc k) (b ∷ s)) (sym (rw (room, more))) (
          Ends-cons k b s _ more
            (varuint_read-Ends k s w limit (add_group w dest b shift) (shift + 7) (omega arith)))
    ]

-- Whatever the input, `varuint32_from_bin` returns a value, or throws `overrun` because fewer than five
-- bytes are there and each says that another follows, or throws `invalid_varuint_encoding` because the
-- first five do.
pub varuint32_from_bin-Ends : (s : Bytes) → Ends 5 s (varuint32_from_bin s)
unfolding varuint32_from_bin
varuint32_from_bin-Ends s = varuint_read-Ends 5 s 32 35 0 0 (omega arith)
