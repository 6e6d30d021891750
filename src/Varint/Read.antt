-- ===== src/Varint/Read.antt =====
-- `varuint32_from_bin`, `varuint64_from_bin` and `varint32_from_bin`.
use Prim.Native.Nat.{bit_and, bit_or}
use clarion.Prelude.{ℕ, ◌+◌, ◌-◌, ◌*◌, ◌/◌, ◌%◌, ◌^◌, [], ◌∷◌, leb, ◌==◌, if◌then◌else◌}
use clarion.Stream.{Result, ok, err, overrun, invalid_varuint_encoding, ◌>>=◌}
use clarion.Stream.Input.{InputStream}

-- `dest |= uintW_t(b & 0x7f) << shift`, in a word of `w` bits.
abbrev pub add_group : ℕ → ℕ → ℕ → ℕ → ℕ
add_group w dest b shift = bit_or dest (bit_and b 0x7f * 2 ^ shift % 2 ^ w)

-- The loop of both readers, for words of `w` bits: it gives up at `limit`, and it reads one byte a
-- round, which throws at the end of the stream.
unfoldable pub varuint_read : ℕ → ℕ → InputStream → ℕ → ℕ → Result (ℕ × InputStream)
varuint_read w limit [] dest shift =
    if leb limit shift then err invalid_varuint_encoding else err overrun
varuint_read w limit (b ∷ rest) dest shift =
    let dest' = add_group w dest b shift in
    let more = varuint_read w limit rest dest' (shift + 7) in
    if leb limit shift
    then err invalid_varuint_encoding
    else if bit_and b 0x80 == 0
    then ok (dest', rest)
    else more

unfoldable pub varuint32_from_bin : InputStream → Result (ℕ × InputStream)
varuint32_from_bin s = varuint_read 32 35 s 0 0

unfoldable pub varuint64_from_bin : InputStream → Result (ℕ × InputStream)
varuint64_from_bin s = varuint_read 64 70 s 0 0

-- The bit pattern of the int32_t: `((~v) >> 1) | 0x8000'0000` if `v` is odd, else `v >> 1`.
unfoldable pub unzigzag : ℕ → ℕ
unzigzag v = if bit_and v 1 == 0 then v / 2 else bit_or ((2 ^ 32 - 1 - v) / 2) 0x80000000

unfoldable pub varint32_from_bin : InputStream → Result (ℕ × InputStream)
varint32_from_bin s = varuint32_from_bin s >>= λ r. ok (unzigzag r.0, r.1)
