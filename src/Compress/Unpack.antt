-- ===== src/Compress/Unpack.antt =====
-- `capp_unpack`.
use Prim.Native.Nat.{bit_and}
use clarion.Prelude.{
  ℕ, zero, suc, ◌*◌, ◌^◌, [], ◌∷◌, ◌++◌, length, replicate, ltb, ◌==◌, if◌then◌else◌,
}
use clarion.Stream.{Result, ok, err, stuck, overrun, Bytes, ◌>>=◌}
use clarion.Stream.Sink.{Sink}
use clarion.Stream.Vector
use clarion.Stream.Input.{InputStream, read, copy}
use clarion.Stream.Memory.{of_le_bytes}

-- The bytes of a word, for the `i` low bits of its tag: one that is read for a bit that is set, and zero
-- for another.
unfoldable pub expand : ℕ → ℕ → InputStream → Result (Bytes × InputStream)
expand zero word_bits s = ok ([], s)
expand (suc i) word_bits s =
    if bit_and word_bits (2 ^ i) == 0
    then (expand i word_bits s >>= λ r. ok (0 ∷ r.0, r.1))
    else (do (b, s1) ← read 1 s; (w, s2) ← expand i word_bits s1; ok (b ++ w, s2))

abbrev pub zero_word : Bytes
zero_word = replicate 8 0

module _ {S : Type 0} (k : Sink S) where
  unfoldable pub write_zero_words : ℕ → S → Result S
  write_zero_words zero out = ok out
  write_zero_words (suc zero_words) out = k.write zero_word out >>= write_zero_words zero_words

  unfoldable pub unpack_zero_words : InputStream → S → Result (S × InputStream)
  unpack_zero_words s out = do
    out1 ← k.write zero_word out
    (zero_words, s1) ← read 1 s
    out2 ← write_zero_words (of_le_bytes zero_words) out1
    if length s1 == 0 then err overrun else ok (out2, s1)

  unfoldable pub unpack_raw_words : InputStream → S → Result (S × InputStream)
  unpack_raw_words s out = do
    (w, s1) ← read 8 s
    out1 ← k.write w out
    (raw_words, s2) ← read 1 s1
    let size = of_le_bytes raw_words * 8
    if ltb (length s2) size
        then err overrun
        else (do (raw, s3) ← copy size s2; out2 ← k.write raw out1; ok (out2, s3))

  unfoldable pub unpack_word : ℕ → InputStream → S → Result (S × InputStream)
  unpack_word word_bits s out = do
    (w, s1) ← expand 8 word_bits s
    out1 ← k.write w out
    ok (out1, s1)

  -- Fewer than eight bytes behind a tag without zeros are the end.
  unfoldable pub unpack_words : ℕ → InputStream → S → Result S
  unpack_words fuel [] out = ok out
  unpack_words zero (word_bits ∷ s) out = stuck
  unpack_words (suc fuel) (word_bits ∷ s) out =
      if word_bits == 0
      then (unpack_zero_words s out >>= λ r. unpack_words fuel r.1 r.0)
      else if word_bits == 0xff
      then (if ltb (length s) 8
          then k.write s out
          else (unpack_raw_words s out >>= λ r. unpack_words fuel r.1 r.0))
      else (unpack_word word_bits s out >>= λ r. unpack_words fuel r.1 r.0)

  -- Each round reads a byte at least.
  unfoldable pub capp_unpack : InputStream → S → Result S
  capp_unpack s out = unpack_words (length s) s out

unfoldable pub capn_uncompress : Bytes → Result Bytes
capn_uncompress c = capp_unpack Vector.sink c []
