-- ===== src/Compress/Safe.antt =====
-- `capn_uncompress` on any input.
use Prim.Native.Nat.{bit_and}
use clarion.Prelude.{
  ℕ, zero, suc, ◌*◌, ◌^◌, ◌≤◌, ◌≢◌, sym, [], ◌∷◌, ◌++◌, length, take, take-append-drop, ltb, ◌==◌,
  Bool-cases, inl, inr, arith,
}
use clarion.Stream.{ok, err, stuck, overrun, Bytes}
use clarion.Stream.Vector
use clarion.Stream.Memory.{of_le_bytes}
use clarion.Stream.Input.{copy-fits}
use clarion.Stream.Leaves.{
  IsTail, Leaves, Leaves-bind, Leaves-check, Leaves-if, Leaves-bind-ne-stuck, IsTail-refl,
  IsTail-length, read-Leaves,
}
use clarion.Compress.Unpack.{
  zero_word, expand, write_zero_words, unpack_zero_words, unpack_raw_words, unpack_word,
  unpack_words, capp_unpack, capn_uncompress,
}

expand-Leaves : (i word_bits : ℕ) (s : Bytes) → Leaves s (expand i word_bits s)
unfolding expand
expand-Leaves zero word_bits s = IsTail-refl s
expand-Leaves (suc i) word_bits s =
    Leaves-if (bit_and word_bits (2 ^ i) == 0) s _ _
      (Leaves-bind s _ _ (expand-Leaves i word_bits s) (λ r. IsTail-refl r.1))
      (Leaves-bind s _ _ (read-Leaves 1 s)
        (λ r. Leaves-bind r.1 _ _ (expand-Leaves i word_bits r.1) (λ q. IsTail-refl q.1)))

write_zero_words-ne-stuck : (n : ℕ) (out : Bytes) → write_zero_words Vector.sink n out ≢ stuck
unfolding write_zero_words Vector.write
write_zero_words-ne-stuck zero out = λ e. cc
write_zero_words-ne-stuck (suc n) out = write_zero_words-ne-stuck n (out ++ zero_word)

unpack_zero_words-Leaves : (s out : Bytes) → Leaves s (unpack_zero_words Vector.sink s out)
unfolding unpack_zero_words Vector.write
unpack_zero_words-Leaves s out = Leaves-bind s _ _ (read-Leaves 1 s) (λ r.
    Leaves-check r.1 _ _ (write_zero_words-ne-stuck (of_le_bytes r.0) (out ++ zero_word))
      (λ o. Leaves-if (length r.1 == 0) r.1 (err overrun) (ok (o, r.1)) tt (IsTail-refl r.1)))

unpack_raw_words-Leaves : (s out : Bytes) → Leaves s (unpack_raw_words Vector.sink s out)
unfolding unpack_raw_words Vector.write
unpack_raw_words-Leaves s out = Leaves-bind s _ _ (read-Leaves 8 s) (λ r.
    Leaves-bind r.1 _ _ (read-Leaves 1 r.1) (λ q.
      (let size = of_le_bytes q.0 * 8 in
        elim (Bool-cases (ltb (length q.1) size)) [
          | inl e ↦ rw e tt
          | inr e ↦ rw (e, copy-fits size q.1 e) (take size q.1, sym (take-append-drop size q.1))
        ])))

unpack_word-Leaves :
    (word_bits : ℕ) (s out : Bytes) → Leaves s (unpack_word Vector.sink word_bits s out)
unfolding unpack_word Vector.write
unpack_word-Leaves word_bits s out =
    Leaves-bind s _ _ (expand-Leaves 8 word_bits s) (λ r. IsTail-refl r.1)

unpack_words-ne-stuck :
    (fuel : ℕ) (s out : Bytes) → length s ≤ fuel → unpack_words Vector.sink fuel s out ≢ stuck
unfolding unpack_words Vector.write
unpack_words-ne-stuck zero [] out h = λ e. cc
unpack_words-ne-stuck (suc fuel) [] out h = λ e. cc
unpack_words-ne-stuck zero (b ∷ s) out h = absurd (omega arith)
unpack_words-ne-stuck (suc fuel) (b ∷ s) out h =
    let go = (λ (r : Bytes × Bytes) (t : IsTail r.1 s).
      unpack_words-ne-stuck fuel r.1 r.0 (omega (arith, IsTail-length r.1 s t))) in
    elim (Bool-cases (b == 0)) [
      | inl e ↦ rw e (Leaves-bind-ne-stuck s _ _ (unpack_zero_words-Leaves s out) go)
      | inr e ↦ elim (Bool-cases (b == 0xff)) [
        | inl f ↦ elim (Bool-cases (ltb (length s) 8)) [
          | inl g ↦ rw (e, f, g) (λ x. cc)
          | inr g ↦ rw (e, f, g) (Leaves-bind-ne-stuck s _ _ (unpack_raw_words-Leaves s out) go)
        ]
        | inr f ↦ rw (e, f) (Leaves-bind-ne-stuck s _ _ (unpack_word-Leaves b s out) go)
      ]
    ]

-- On any bytes, `capn_uncompress` returns bytes or throws: its loop ends within as many rounds as there are bytes,
-- and it copies nothing from behind its input.
pub capn_uncompress-ne-stuck : (c : Bytes) → capn_uncompress c ≢ stuck
unfolding capn_uncompress capp_unpack
capn_uncompress-ne-stuck c = unpack_words-ne-stuck (length c) c [] (omega arith)
