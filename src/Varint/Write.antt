-- ===== src/Varint/Write.antt =====
-- `varuint32_to_bin`, `push_varuint32` and the writer of a `varint32`.
use Prim.Native.Nat.{bit_and, bit_or, bit_xor}
use clarion.Prelude.{ℕ, zero, suc, ◌-◌, ◌*◌, ◌/◌, ◌%◌, ◌^◌, [], ◌∷◌, ltb, ◌==◌, if◌then◌else◌}
use clarion.Stream.{Result, ok, stuck, Bytes, ◌>>=◌}
use clarion.Stream.Sink.{Sink}
use clarion.Stream.Vector

module _ {S : Type 0} (k : Sink S) where
  -- `do { … } while (val)`, with fuel for its rounds.
  unfoldable pub varuint_loop : ℕ → ℕ → S → Result S
  varuint_loop zero val s = stuck
  varuint_loop (suc fuel) val s =
      let val' = val / 2 ^ 7 in
      let b = bit_or (bit_and val 0x7f) (if ltb 0 val' then 2 ^ 7 else 0) in
      k.write (b ∷ []) s >>= λ s'.
      (let rest = varuint_loop fuel val' s' in if val' == 0 then ok s' else rest)

  -- The argument is a uint64_t; one of more than 32 bits writes nothing. Five rounds are enough.
  unfoldable pub varuint32_to_bin : ℕ → S → Result S
  varuint32_to_bin val s = if ltb 0 (val / 2 ^ 32) then ok s else varuint_loop 5 val s

  -- `(uint32_t(value) << 1) ^ uint32_t(value >> 31)`, with the int32_t given by its bit pattern: the
  -- arithmetic shift by 31 gives all ones for a negative value.
  unfoldable pub varint32_to_bin : ℕ → S → Result S
  varint32_to_bin value s =
      let sign = if ltb value (2 ^ 31) then 0 else 2 ^ 32 - 1 in
      varuint32_to_bin (bit_xor (value * 2 % 2 ^ 32) sign) s

unfoldable pub push_varuint32 : Bytes → ℕ → Result Bytes
push_varuint32 bin v = varuint32_to_bin Vector.sink v bin
