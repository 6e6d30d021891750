-- ===== src/Key/Floats.antt =====
-- The keys of floating point numbers.
use Prim.Native.Nat.{compare, bit_and, bit_or, bit_xor}
use mathlib.Core.List.{reverse}
use clarion.Prelude.{
  ℕ, suc, ◌-◌, ◌+◌, ◌*◌, ◌/◌, ◌%◌, ◌^◌, ◌<◌, ◌≡◌, refl, ◌∙◌, Bool, true, false, ltb, ltb→lt, leb,
  ◌==◌, if◌then◌else◌, arith, Bool-cases, inl, inr,
}
use clarion.Prelude.Bits.{bit_and_below, bit_and_top, two_pow_pos}
use clarion.Prelude.Xor.{bit_xor_above, bit_xor_ones}
use clarion.Stream.Memory.{le_bytes}
use clarion.Key.Types.{compare_float, float_width}
use clarion.Key.Order.{Compares}
use clarion.Key.Write.{float_to_key}
use clarion.Key.Numbers.{big_endian-Compares}

-- The key as a number, in a word whose highest bit is worth `half`.
turned : ℕ → ℕ → ℕ
turned half v = if leb v half then v % half + half else 2 * half - 1 - v

turned-lt :
    (double : Bool) (v : ℕ)
    → v < 256 ^ float_width double
    → turned (256 ^ float_width double / 2) v < 256 ^ float_width double
unfolding turned
turned-lt false v h = ground arith
turned-lt true v h = ground arith

compare-turned :
    (double : Bool) (v w : ℕ)
    → v < 256 ^ float_width double
    → w < 256 ^ float_width double
    → compare (turned (256 ^ float_width double / 2) v) (turned (256 ^ float_width double / 2) w)
      ≡ compare_float (256 ^ float_width double / 2) v w
unfolding turned
compare-turned false v w hv hw = ground arith
compare-turned true v w hv hw = ground arith

-- What is left when a negative zero has become zero.
turn :
    (k v : ℕ)
    → bit_or 0 (2 ^ k) ≡ 2 ^ k
    → bit_or (2 ^ suc k - 1) (2 ^ k) ≡ 2 ^ suc k - 1
    → v < 2 ^ suc k
    → bit_xor v (bit_or (if bit_and v (2 ^ k) == 0 then 0 else 2 ^ suc k - 1) (2 ^ k))
      ≡ (if ltb v (2 ^ k) then v + 2 ^ k else 2 ^ suc k - 1 - v)
turn k v low all h = elim (Bool-cases (ltb v (2 ^ k))) [
  | inl e ↦
      let below = bit_and_below k v (ltb→lt v (2 ^ k) e) in
      rw (e, below, low) (bit_xor_above k v (ltb→lt v (2 ^ k) e))
  | inr e ↦
      let top = bit_and_top k v (ground arith) h in
      let set : (2 ^ k == 0) ≡ false = ground (arith, two_pow_pos k) in
      rw (e, top, set, all) (bit_xor_ones (suc k) v h)
]

float_to_key-turned :
    (double : Bool) (v : ℕ)
    → v < 256 ^ float_width double
    → float_to_key (float_width double) v ≡ turned (256 ^ float_width double / 2) v
unfolding float_to_key turned
float_to_key-turned false v h =
    turn 31 (if v == 2 ^ 31 then 0 else v) refl refl (ground arith) ∙ ground arith
float_to_key-turned true v h =
    turn 63 (if v == 2 ^ 63 then 0 else v) refl refl (ground arith) ∙ ground arith

pub float-Compares :
    (double : Bool) (v w : ℕ)
    → v < 256 ^ float_width double
    → w < 256 ^ float_width double
    → Compares
        (reverse (le_bytes (float_width double) (float_to_key (float_width double) v)))
        (reverse (le_bytes (float_width double) (float_to_key (float_width double) w)))
        (compare_float (256 ^ float_width double / 2) v w)
float-Compares double v w hv hw =
    rw
      (
        float_to_key-turned double v hv,
        float_to_key-turned double w hw,
        ← compare-turned double v w hv hw,
      )
      (big_endian-Compares (float_width double) _ _ (turned-lt double v hv) (turned-lt double w hw))
