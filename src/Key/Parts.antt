-- ===== src/Key/Parts.antt =====
-- The key of a variable-length number, which stands before the alternative of a variant.
use Prim.Native.Nat.{compare, Ordering}
use clarion.Prelude.{
  ℕ, zero, suc, ◌-◌, ◌+◌, ◌*◌, ◌/◌, ◌%◌, ◌^◌, ◌<◌, ◌≡◌, refl, sym, ◌∙◌, [], ◌∷◌, ltb, if◌then◌else◌,
  arith, ◌⊎◌, inl, inr,
}
use clarion.Prelude.Bits.{bit_and_mask, bit_or_above, bit_or-zero}
use clarion.Key.Types.{also}
use clarion.Key.Order.{Compares, Compares-append, Compares-byte, Compares-lt, Compares-gt}
use clarion.Key.Write.{num_bytes, first_byte}
use clarion.Key.Encode.{low_bytes, varuint_key}

-- The next lower byte decides where the higher ones agree.
byte_step :
    (i v w : ℕ)
    → i < 4
    → also
        (compare (v / 2 ^ (i * 8) % 2 ^ 8) (w / 2 ^ (i * 8) % 2 ^ 8))
        (compare (v % 2 ^ (i * 8)) (w % 2 ^ (i * 8)))
      ≡ compare (v % 2 ^ (suc i * 8)) (w % 2 ^ (suc i * 8))
byte_step zero v w h = ground arith
byte_step (suc zero) v w h = ground arith
byte_step (suc (suc zero)) v w h = ground arith
byte_step (suc (suc (suc zero))) v w h = ground arith
byte_step (suc (suc (suc (suc i)))) v w h = absurd (omega arith)

low_bytes-Compares :
    (i v w : ℕ)
    → i < 5
    → Compares (low_bytes i v) (low_bytes i w) (compare (v % 2 ^ (i * 8)) (w % 2 ^ (i * 8)))
unfolding low_bytes
low_bytes-Compares zero v w h =
    let e : compare (v % 1) (w % 1) ≡ Ordering.eq = ground arith in
    rw e (record { with_rest = λ r r'. refl })
low_bytes-Compares (suc i) v w h =
    rw
      (
        ← byte_step i v w (omega arith),
        bit_and_mask 8 (v / 2 ^ (i * 8)),
        bit_and_mask 8 (w / 2 ^ (i * 8)),
      )
      (Compares-append _ _ _ _ _ _ (Compares-byte _ _) (low_bytes-Compares i v w (omega arith)))

pub num_bytes_monotone : (v w : ℕ) → num_bytes v < num_bytes w → v < w
unfolding num_bytes
num_bytes_monotone v w h = ground arith

-- The first byte of each width.
first_of_one : (v : ℕ) → v < 2 ^ 8 → first_byte 1 v ≡ v
unfolding first_byte
first_of_one v h = omega (arith, bit_or_above 8 (v / 2 ^ 0) 0xffffff (omega arith))

first_of_two : (v : ℕ) → v < 2 ^ 14 → first_byte 2 v ≡ 0x80 + v / 2 ^ 8
unfolding first_byte
first_of_two v h = omega (arith, bit_or_above 7 (v / 2 ^ 8) 0x1ffffff (omega arith))

first_of_three : (v : ℕ) → v < 2 ^ 21 → first_byte 3 v ≡ 0xc0 + v / 2 ^ 16
unfolding first_byte
first_of_three v h = omega (arith, bit_or_above 6 (v / 2 ^ 16) 0x3ffffff (omega arith))

first_of_four : (v : ℕ) → v < 2 ^ 28 → first_byte 4 v ≡ 0xe0 + v / 2 ^ 24
unfolding first_byte
first_of_four v h = omega (arith, bit_or_above 5 (v / 2 ^ 24) 0x7ffffff (omega arith))

first_of_five : (v : ℕ) → first_byte 5 v ≡ 0xf0
unfolding first_byte
first_of_five v = omega (arith, bit_or-zero (2 ^ 32 - 1 - 0xff / 2 ^ 4))

lead : ℕ → ℕ
lead v =
    if ltb v 0x80
    then v
    else if ltb v 0x4000
    then 0x80 + v / 2 ^ 8
    else if ltb v 0x200000
    then 0xc0 + v / 2 ^ 16
    else if ltb v 0x10000000
    then 0xe0 + v / 2 ^ 24
    else 0xf0

first_byte-lead : (n v : ℕ) → num_bytes v ≡ n → first_byte n v ≡ lead v
unfolding num_bytes lead
first_byte-lead zero v e = absurd (ground arith)
first_byte-lead (suc zero) v e = first_of_one v (ground arith) ∙ ground arith
first_byte-lead (suc (suc zero)) v e = first_of_two v (ground arith) ∙ ground arith
first_byte-lead (suc (suc (suc zero))) v e = first_of_three v (ground arith) ∙ ground arith
first_byte-lead (suc (suc (suc (suc zero)))) v e = first_of_four v (ground arith) ∙ ground arith
first_byte-lead (suc (suc (suc (suc (suc zero))))) v e = first_of_five v ∙ ground arith
first_byte-lead (suc (suc (suc (suc (suc (suc n)))))) v e = absurd (ground arith)

-- A wider number is larger, and so is its first byte.
wider :
    (v w : ℕ)
    → num_bytes v < num_bytes w
    → (compare (lead v) (lead w) ≡ Ordering.lt) × (compare v w ≡ Ordering.lt)
unfolding num_bytes lead
wider v w h = (ground arith, ground arith)

narrower :
    (v w : ℕ)
    → num_bytes w < num_bytes v
    → (compare (lead v) (lead w) ≡ Ordering.gt) × (compare v w ≡ Ordering.gt)
unfolding num_bytes lead
narrower v w h = (ground arith, ground arith)

same_width :
    (n v w : ℕ)
    → num_bytes v ≡ n
    → num_bytes w ≡ n
    → v < 2 ^ 32
    → w < 2 ^ 32
    → also (compare (lead v) (lead w)) (compare (v % 2 ^ ((n - 1) * 8)) (w % 2 ^ ((n - 1) * 8)))
      ≡ compare v w
unfolding num_bytes lead
same_width zero v w e e' h h' = absurd (ground arith)
same_width (suc zero) v w e e' h h' = ground arith
same_width (suc (suc zero)) v w e e' h h' = ground arith
same_width (suc (suc (suc zero))) v w e e' h h' = ground arith
same_width (suc (suc (suc (suc zero)))) v w e e' h h' = ground arith
same_width (suc (suc (suc (suc (suc zero))))) v w e e' h h' = ground arith
same_width (suc (suc (suc (suc (suc (suc n)))))) v w e e' h h' = absurd (ground arith)

num_bytes-lt : (v : ℕ) → num_bytes v < 6
unfolding num_bytes
num_bytes-lt v = ground arith

order_of : (m n : ℕ) → (m < n) ⊎ ((m ≡ n) ⊎ (n < m))
order_of m n = ground arith

pub varuint_key-Compares :
    (v w : ℕ) → v < 2 ^ 32 → w < 2 ^ 32 → Compares (varuint_key v) (varuint_key w) (compare v w)
unfolding varuint_key
varuint_key-Compares v w hv hw =
    let first = Compares-byte (lead v) (lead w) in
    let lv = low_bytes (num_bytes v - 1) v in
    let lw = low_bytes (num_bytes w - 1) w in
    rw (first_byte-lead _ v refl, first_byte-lead _ w refl)
      (elim (order_of (num_bytes v) (num_bytes w)) [
        | inl l ↦
            let (e, e') = wider v w l in
            rw e' (Compares-lt (lead v ∷ []) (lead w ∷ []) lv lw (rw (← e) first))
        | inr (inl same) ↦ rw (← same_width (num_bytes v) v w refl (sym same) hv hw) (
            Compares-append (lead v ∷ []) (lead w ∷ []) lv lw _ _ first (
              rw (← same)
                (low_bytes-Compares (num_bytes v - 1) v w (omega (arith, num_bytes-lt v)))))
        | inr (inr g) ↦
            let (e, e') = narrower v w g in
            rw e' (Compares-gt (lead v ∷ []) (lead w ∷ []) lv lw (rw (← e) first))
      ])
