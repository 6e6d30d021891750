-- ===== src/Varint/Leaves.antt =====
-- The varint readers on any input.
use clarion.Prelude.{ℕ, ◌+◌, refl, [], ◌∷◌, leb, ◌==◌}
use clarion.Stream.{ok, err, Bytes}
use clarion.Varint.Read.{varuint_read, add_group, varuint32_from_bin, varuint64_from_bin}
use Prim.Native.Nat.{bit_and}
use clarion.Stream.Leaves.{Leaves, Leaves-if, Leaves-widen}

varuint_read-Leaves :
    (w limit : ℕ) (s : Bytes) (dest shift : ℕ) → Leaves s (varuint_read w limit s dest shift)
unfolding varuint_read
varuint_read-Leaves w limit [] dest shift = Leaves-if (leb limit shift) [] (err _) (err _) tt tt
varuint_read-Leaves w limit (b ∷ s) dest shift = Leaves-if (leb limit shift) (b ∷ s) (err _) _ tt (
    Leaves-if (bit_and b 0x80 == 0) (b ∷ s) (ok (add_group w dest b shift, s)) _ (b ∷ [], refl)
      (Leaves-widen (b ∷ s) s _ (b ∷ [], refl)
        (varuint_read-Leaves w limit s (add_group w dest b shift) (shift + 7))))

pub varuint32-Leaves : (s : Bytes) → Leaves s (varuint32_from_bin s)
unfolding varuint32_from_bin
varuint32-Leaves s = varuint_read-Leaves 32 35 s 0 0

pub varuint64-Leaves : (s : Bytes) → Leaves s (varuint64_from_bin s)
unfolding varuint64_from_bin
varuint64-Leaves s = varuint_read-Leaves 64 70 s 0 0
