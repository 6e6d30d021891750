-- ===== src/Proto/Numbers.antt =====
-- Field numbers, wire types and keys.
use clarion.Prelude.{ℕ, zero, suc, ◌+◌, ◌*◌, ◌%◌, ◌^◌, ◌≤◌, ◌<◌, ◌≡◌, ◌∙◌, arith}
use clarion.Prelude.Bits.{bit_or_disjoint}
use clarion.Proto.Types.{Ty, wire_type}
use clarion.Proto.Types.{varint, varuint, flag, fixed, text, packed, vec, strct, tuple, variant}
use clarion.Proto.Write.{key}
use clarion.Proto.Encode.{Numbered, IsProto}

count_up :
    (n k : ℕ) (number : ℕ → ℕ) → ((i : ℕ) → number i ≡ k + i) → k + n ≤ 2 ^ 29 → Numbered number n
count_up zero k number e h = tt
count_up (suc n) k number e h = (
  omega (arith, e 0),
  λ i b.
      (let e0 : number 0 ≡ k + 0 = e 0 in
        let ei : number (suc i) ≡ k + suc i = e (suc i) in ground arith),
  count_up n (suc k) (λ i. number (suc i)) (λ i. omega (arith, e (suc i))) (omega arith),
)

-- The fields of a tuple are numbered from one.
pub tuple-Numbered : (n : ℕ) → n < 2 ^ 29 → Numbered suc n
tuple-Numbered n h = count_up n 1 suc (λ i. omega arith) (omega arith)

pub wire_type-lt : (t : Ty) → IsProto t → wire_type t < 8
unfolding wire_type
wire_type-lt (varint signed n) h = omega arith
wire_type-lt varuint h = omega arith
wire_type-lt flag h = omega arith
wire_type-lt (fixed n) h = ground arith
wire_type-lt text h = omega arith
wire_type-lt (packed n) h = omega arith
wire_type-lt (vec t) h = omega arith
wire_type-lt (strct number ts) h = omega arith
wire_type-lt (tuple ts) h = omega arith
wire_type-lt (variant t ts) h = omega arith

pub key_lem : (field wire : ℕ) → field < 2 ^ 29 → wire < 8 → key field wire ≡ field * 8 + wire
unfolding key
key_lem field wire hf hw =
    let fits : field * 2 ^ 3 % 2 ^ 32 ≡ field * 2 ^ 3 = omega arith in
    rw fits (bit_or_disjoint 3 wire field hw ∙ omega arith)
