-- ===== src/Varint/Runs.antt =====
-- Concrete runs, and the theorems at concrete inputs.
use clarion.Prelude.{◌+◌, ◌-◌, ◌^◌, ◌≤◌, ◌<◌, ◌≡◌, refl, [], ◌∷◌, ◌++◌, arith}
use clarion.Stream.{ok, err, overrun, Bytes}
use clarion.Stream.Vector
use clarion.Varint.Write.{varuint32_to_bin, varint32_to_bin, push_varuint32, varuint_loop}
use clarion.Varint.Read.{varuint32_from_bin, varuint64_from_bin, varint32_from_bin, varuint_read}
use clarion.Varint.RoundTrip.{varuint_from_bin-to_bin}
use clarion.Varint.Bounds.{varuint32_from_bin_takes, varuint32_from_bin-Ends, Ends}
use clarion.Varint.ZigZag.{varint32_from_bin-to_bin}

push_300 : push_varuint32 (7 ∷ []) 300 ≡ ok (7 ∷ 0xac ∷ 0x02 ∷ [])
unfolding push_varuint32 varuint32_to_bin varuint_loop Vector.write
push_300 = refl

-- A value of more than 32 bits writes nothing.
push_wide : push_varuint32 [] (2 ^ 32) ≡ ok []
unfolding push_varuint32 varuint32_to_bin varuint_loop Vector.write
push_wide = refl

read_cut : varuint32_from_bin (0xac ∷ []) ≡ err overrun
unfolding varuint32_from_bin varuint_read
read_cut = refl

-- The bits of a fifth byte that do not fit are dropped.
read_wide :
    varuint32_from_bin (0xff ∷ 0xff ∷ 0xff ∷ 0xff ∷ 0x7f ∷ 9 ∷ []) ≡ ok (0xffff_ffff, 9 ∷ [])
unfolding varuint32_from_bin varuint_read
read_wide = refl

read_300 : varuint64_from_bin (0xac ∷ 0x02 ∷ []) ≡ ok (300, [])
unfolding varuint64_from_bin varuint_read
read_300 = refl

signed_one : varint32_to_bin Vector.sink (2 ^ 32 - 1) [] ≡ ok (1 ∷ [])
unfolding varint32_to_bin varuint32_to_bin varuint_loop Vector.write
signed_one = refl

varuint_from_bin-to_bin_example :
    (bin : Bytes) × (varuint32_to_bin Vector.sink 300 [] ≡ ok bin)
    × (varuint32_from_bin (bin ++ 9 ∷ []) ≡ ok (300, 9 ∷ []))
    × (varuint64_from_bin (bin ++ 9 ∷ []) ≡ ok (300, 9 ∷ []))
varuint_from_bin-to_bin_example = varuint_from_bin-to_bin 300 (9 ∷ []) (omega arith)

varuint32_from_bin_takes_example : (0xffff_ffff < 2 ^ 32) × (1 < 6) × (6 ≤ 1 + 5)
varuint32_from_bin_takes_example = varuint32_from_bin_takes _ 0xffff_ffff (9 ∷ []) read_wide

varuint32_from_bin-Ends_example : Ends 5 (0xac ∷ []) (varuint32_from_bin (0xac ∷ []))
varuint32_from_bin-Ends_example = varuint32_from_bin-Ends (0xac ∷ [])

varint32_from_bin-to_bin_example :
    (bin : Bytes) × (varint32_to_bin Vector.sink 0xffff_fffe [] ≡ ok bin)
    × (varint32_from_bin (bin ++ []) ≡ ok (0xffff_fffe, []))
varint32_from_bin-to_bin_example = varint32_from_bin-to_bin 0xffff_fffe [] (omega arith)
