-- ===== src/Compress/Rounds.antt =====
-- What the rounds of `capp_unpack` write.
use native.Mathlib.Nat.{mod-eq_of_lt}
use clarion.Prelude.{
  ℕ, zero, suc, ◌*◌, ◌<◌, ◌≡◌, refl, sym, ap, ◌∙◌, [], ◌∷◌, ◌++◌, length, ltb, false, ◌==◌, arith,
  append_assoc, append-nil, length-append,
}
use clarion.Stream.{ok, Bytes}
use clarion.Stream.Vector
use clarion.Stream.Input.{copy-append, read-append}
use clarion.Stream.Memory.{of_le_bytes}
use clarion.Compress.Pack.{kept}
use clarion.Compress.Unpack.{
  zero_word, expand, write_zero_words, unpack_zero_words, unpack_raw_words, unpack_word,
  unpack_words,
}
use clarion.Compress.Tags.{bits, expand-kept, bits-lt}
use clarion.Compress.Words.{IsWord, zeros}

write_zero_words_lem :
    (n : ℕ) (out : Bytes) → write_zero_words Vector.sink n out ≡ ok (out ++ zeros n)
unfolding write_zero_words Vector.write
write_zero_words_lem zero out = ap ok (sym (append-nil out))
write_zero_words_lem (suc n) out =
    write_zero_words_lem n (out ++ zero_word) ∙ ap ok (append_assoc out zero_word (zeros n))

one_byte : (n : ℕ) → of_le_bytes (n ∷ []) ≡ n
unfolding of_le_bytes
one_byte n = omega arith

not_more : (n : ℕ) (b rest : Bytes) → n ≡ length b → ltb (length (b ++ rest)) n ≡ false
not_more n b rest h = ground (arith, length-append b rest)

-- A zero word, and `n` more.
pub zero_words_round :
    (fuel n : ℕ) (rest out : Bytes)
    → 0 < length rest
    → unpack_words Vector.sink (suc fuel) (0 ∷ n ∷ rest) out
      ≡ unpack_words Vector.sink fuel rest (out ++ zeros (suc n))
unfolding unpack_words unpack_zero_words Vector.write
zero_words_round fuel n rest out h =
    let more : (length rest == 0) ≡ false = ground arith in
    rw
      (
        read-append 1 (n ∷ []) rest refl,
        one_byte n,
        write_zero_words_lem n (out ++ zero_word),
        more,
        append_assoc out zero_word (zeros n),
      )
      refl

-- A word without zero bytes, and `n` more.
pub raw_words_round :
    (fuel n : ℕ) (w raw rest out : Bytes)
    → IsWord w
    → length raw ≡ n * 8
    → unpack_words Vector.sink (suc fuel) (0xff ∷ (w ++ (n ∷ (raw ++ rest)))) out
      ≡ unpack_words Vector.sink fuel rest (out ++ (w ++ raw))
unfolding unpack_words unpack_raw_words Vector.write
raw_words_round fuel n w raw rest out l h =
    rw
      (
        not_more 8 w (n ∷ (raw ++ rest)) (sym l),
        read-append 8 w (n ∷ (raw ++ rest)) l,
        read-append 1 (n ∷ []) (raw ++ rest) refl,
        one_byte n,
        ← h,
        not_more (length raw) raw rest refl,
        copy-append raw rest,
        append_assoc out w raw,
      )
      refl

-- Another word that is not zero.
pub word_round :
    (fuel : ℕ) (w rest out : Bytes)
    → IsWord w
    → 0 < bits w
    → bits w < 255
    → unpack_words Vector.sink (suc fuel) (bits w ∷ (kept w ++ rest)) out
      ≡ unpack_words Vector.sink fuel rest (out ++ w)
unfolding unpack_words unpack_word Vector.write
word_round fuel w rest out l h g =
    let some_bit : (bits w == 0) ≡ false = ground arith in
    let some_zero : (bits w == 0xff) ≡ false = ground arith in
    let word : expand 8 (bits w) (kept w ++ rest) ≡ ok (w, rest) =
      ap (λ n. expand n (bits w) (kept w ++ rest)) (sym l)
      ∙ expand-kept w (bits w) rest (omega arith) (omega arith) (mod-eq_of_lt (bits-lt w)) in
    rw (some_bit, some_zero, word) refl
