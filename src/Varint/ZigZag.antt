-- ===== src/Varint/ZigZag.antt =====
-- The signed numbers: the writer's zigzag and the reader's way back.
use Prim.Native.Nat.{bit_xor}
use clarion.Prelude.{
  ℕ, ◌-◌, ◌*◌, ◌/◌, ◌%◌, ◌^◌, ◌<◌, ◌≡◌, ◌∙◌, [], ◌++◌, arith, ltb, if◌then◌else◌, Bool-cases, inl,
  inr,
}
use clarion.Prelude.Bits.{bit_and_mask, bit_or_disjoint}
use clarion.Prelude.Xor.{bit_xor-zero, bit_xor_ones}
use clarion.Stream.{ok, Bytes}
use clarion.Stream.Vector
use clarion.Varint.Write.{varint32_to_bin}
use clarion.Varint.Read.{varint32_from_bin, unzigzag}
use clarion.Varint.Groups.{varuint_bytes, varuint32_to_bin-bytes}
use clarion.Varint.RoundTrip.{varuint32_from_bin-bytes}

-- What the writer hands on, for the bit pattern of an int32_t: 2n for n ≥ 0 and 2m - 1 for -m < 0.
unfoldable pub zigzag : ℕ → ℕ
zigzag value = if ltb value (2 ^ 31) then 2 * value else 2 * (2 ^ 32 - value) - 1

zigzag-lt : (value : ℕ) → value < 2 ^ 32 → zigzag value < 2 ^ 32
unfolding zigzag
zigzag-lt value h = ground arith

writer_zigzag :
    (value : ℕ)
    → value < 2 ^ 32
    → bit_xor (value * 2 % 2 ^ 32) (if ltb value (2 ^ 31) then 0 else 2 ^ 32 - 1) ≡ zigzag value
unfolding zigzag
writer_zigzag value h =
    let word = value * 2 % 2 ^ 32 in
    let fits : word < 2 ^ 32 = omega arith in
    elim (Bool-cases (ltb value (2 ^ 31))) [
      | inl positive ↦ rw positive (bit_xor-zero 32 word fits ∙ ground arith)
      | inr negative ↦ rw negative (bit_xor_ones 32 word fits ∙ ground arith)
    ]

unzigzag-zigzag : (value : ℕ) → value < 2 ^ 32 → unzigzag (zigzag value) ≡ value
unfolding unzigzag zigzag
unzigzag-zigzag value h = elim (Bool-cases (ltb value (2 ^ 31))) [
  | inl positive ↦ rw positive (ground (arith, bit_and_mask 1 (2 * value)))
  | inr negative ↦
      let low = (2 ^ 32 - 1 - (2 * (2 ^ 32 - value) - 1)) / 2 in
      rw negative (
        ground (
          arith,
          bit_and_mask 1 (2 * (2 ^ 32 - value) - 1),
          bit_or_disjoint 31 low 1 (ground arith),
        ))
]

-- `from_bin` of a varint32 reads back the bit pattern of every int32_t that `to_bin` wrote.
pub varint32_from_bin-to_bin :
    (value : ℕ) (rest : Bytes)
    → value < 2 ^ 32
    → (bin : Bytes) × (varint32_to_bin Vector.sink value [] ≡ ok bin)
      × (varint32_from_bin (bin ++ rest) ≡ ok (value, rest))
unfolding varint32_to_bin varint32_from_bin Vector.write
varint32_from_bin-to_bin value rest h = (
  varuint_bytes (zigzag value),
  rw (writer_zigzag value h) (varuint32_to_bin-bytes Vector.sink _ [] (zigzag-lt value h)),
  rw (varuint32_from_bin-bytes _ rest (zigzag-lt value h), unzigzag-zigzag value h),
)
