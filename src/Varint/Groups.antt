-- ===== src/Varint/Groups.antt =====
-- What the writer writes, in plain arithmetic.
use Prim.Native.Nat.{bit_and, bit_or}
use clarion.Prelude.{
  ℕ, zero, suc, ◌+◌, ◌/◌, ◌%◌, ◌^◌, ◌≤◌, ◌<◌, ◌≡◌, refl, ◌∙◌, [], ◌∷◌, arith, ltb, length, All,
  if◌then◌else◌, Bool-cases, inl, inr, lt→ltb, tests, true, false, ◌==◌,
}
use clarion.Prelude.Bits.{bit_and_mask, bit_or_disjoint}
use clarion.Stream.{Bytes, IsByte, ◌>>=◌, >>=-ok}
use clarion.Stream.Sink.{Sink, write_then}
use native.Mathlib.Nat.{pow-suc}
use clarion.Varint.Write.{varuint_loop, varuint32_to_bin}

-- The groups of seven bits of `v`, lowest first, for `v` below 128 ^ (k + 1).
unfoldable pub groups : ℕ → ℕ → Bytes
groups zero v = v ∷ []
groups (suc k) v =
    let rest = groups k (v / 128) in if ltb v 128 then v ∷ [] else (v % 128 + 128) ∷ rest

-- The bytes of a uint32_t.
abbrev pub varuint_bytes : ℕ → Bytes
varuint_bytes v = groups 4 v

pub low_group : (v : ℕ) → bit_and v 0x7f ≡ v % 128
low_group v = bit_and_mask 7 v

last_byte : (v : ℕ) → v < 128 → bit_or (bit_and v 0x7f) 0 ≡ v
last_byte v h = rw (low_group v) (bit_or_disjoint 7 (v % 128) 0 (omega arith) ∙ omega arith)

inner_byte : (v : ℕ) → bit_or (bit_and v 0x7f) (2 ^ 7) ≡ v % 128 + 128
inner_byte v = rw (low_group v) (bit_or_disjoint 7 (v % 128) 1 (omega arith))

module _ {S : Type 0} (k : Sink S) where
  varuint_loop_last : (n v : ℕ) (s : S) → v < 128 → varuint_loop k (suc n) v s ≡ k.write (v ∷ []) s
  unfolding varuint_loop
  varuint_loop_last n v s h =
      let z : v / 128 ≡ 0 = omega arith in simp (z, last_byte v h) (>>=-ok (k.write (v ∷ []) s))

  varuint_loop_inner :
      (n v : ℕ) (s : S)
      → 128 ≤ v
      → varuint_loop k (suc n) v s
        ≡ (k.write ((v % 128 + 128) ∷ []) s >>= varuint_loop k n (v / 128))
  unfolding varuint_loop
  varuint_loop_inner n v s h =
      let more : ltb 0 (v / 128) ≡ true = lt→ltb 0 (v / 128) (omega arith) in
      let next : (v / 128 == 0) ≡ false = ground arith in simp (more, next, inner_byte v) refl

  varuint_loop-groups :
      (n v : ℕ) (s : S) → v < 128 ^ suc n → varuint_loop k (suc n) v s ≡ k.write (groups n v) s
  unfolding groups
  varuint_loop-groups zero v s h = varuint_loop_last 0 v s (omega arith)
  varuint_loop-groups (suc n) v s h = elim (Bool-cases (ltb v 128)) [
    | inl small ↦ rw small (varuint_loop_last (suc n) v s (omega tests))
    | inr large ↦ rw large (
        varuint_loop_inner (suc n) v s (ground arith)
        ∙ write_then k _ _ _ s
            (λ s'. varuint_loop-groups n (v / 128) s' (omega (arith, pow-suc 128 (suc n)))))
  ]

  -- The writer writes the groups of a uint32_t, to any stream.
  pub varuint32_to_bin-bytes :
      (v : ℕ) (s : S) → v < 2 ^ 32 → varuint32_to_bin k v s ≡ k.write (varuint_bytes v) s
  unfolding varuint32_to_bin
  varuint32_to_bin-bytes v s h =
      let small : ltb 0 (v / 2 ^ 32) ≡ false = ground arith in
      rw small (varuint_loop-groups 4 v s (omega arith))

groups-IsByte : (k v : ℕ) → v < 128 ^ suc k → All IsByte (groups k v)
unfolding groups
groups-IsByte zero v h = omega arith
groups-IsByte (suc k) v h = ground (arith, groups-IsByte k (v / 128) (omega arith))

pub length-groups : (k v : ℕ) → (1 ≤ length (groups k v)) × (length (groups k v) ≤ k + 1)
unfolding groups
length-groups zero v = omega arith
length-groups (suc k) v = ground (arith, length-groups k (v / 128))
