-- ===== src/Compress/Runs.antt =====
-- Concrete runs, and the theorem at a concrete input.
use clarion.Prelude.{◌≡◌, ◌≢◌, refl, List, [], ◌∷◌, ◌++◌, replicate, arith}
use clarion.Stream.{ok, err, stuck, overrun, Bytes, ◌>>=◌}
use clarion.Stream.Memory.{of_le_bytes}
use clarion.Compress.Pack.{
  capn_compress, capp_pack, pack_words, pack_zero_words, is_zero_word, pack_word, pack_raw_words,
  tag, skip_zero_words, raw_run, pack_rest, kept,
}
use clarion.Stream.Vector
use clarion.Stream.Input.{read, skip, copy, advance}
use clarion.Compress.Unpack.{
  zero_word, capn_uncompress, capp_unpack, expand, unpack_raw_words, unpack_word, unpack_words,
  unpack_zero_words, write_zero_words,
}
use clarion.Compress.Words.{flat, Packable, zeros}
use clarion.Compress.Safe.{capn_uncompress-ne-stuck}
use clarion.Compress.RoundTrip.{capn_uncompress-compress}

-- A word of two bytes, two zero words, and two words without zero bytes.
abbrev words : List Bytes
words =
    (1 ∷ 0 ∷ 0 ∷ 2 ∷ 0 ∷ 0 ∷ 0 ∷ 0 ∷ [])
    ∷ zero_word
    ∷ zero_word
    ∷ replicate 8 7
    ∷ replicate 8 9
    ∷ []

compressed :
    capn_compress (flat words ++ 5 ∷ [])
    ≡ ok (0x90 ∷ 1 ∷ 2 ∷ 0 ∷ 1 ∷ 0xff ∷ replicate 8 7 ++ (1 ∷ replicate 8 9 ++ (0xff ∷ 5 ∷ [])))
unfolding capn_compress capp_pack pack_words read pack_zero_words is_zero_word of_le_bytes pack_word
    Vector.write pack_raw_words tag skip_zero_words skip raw_run pack_rest kept copy advance
compressed = refl

-- A zero word at the end.
zero_at_end : capn_compress zero_word ≡ err overrun
unfolding capn_compress capp_pack pack_words read pack_zero_words is_zero_word of_le_bytes
    Vector.write copy
zero_at_end = refl

-- 256 zero words in front of another word.
many_zeros : (capn_compress (zeros 256 ++ replicate 8 1) >>= capn_uncompress) ≡ err overrun
unfolding capn_compress capp_pack pack_words read pack_zero_words is_zero_word of_le_bytes pack_word
    Vector.write pack_raw_words tag skip_zero_words skip raw_run pack_rest kept capn_uncompress
    capp_unpack expand unpack_raw_words unpack_word unpack_words unpack_zero_words write_zero_words
    copy advance
many_zeros = refl

words-Packable : Packable 0 words
unfolding is_zero_word of_le_bytes
words-Packable = (omega arith, (omega arith, refl))

capn_uncompress-compress_example :
    (capn_compress (flat words ++ 5 ∷ []) >>= capn_uncompress) ≡ ok (flat words ++ 5 ∷ [])
capn_uncompress-compress_example =
    capn_uncompress-compress words (5 ∷ []) (refl, (refl, (refl, (refl, (refl, tt)))))
      words-Packable (omega arith)

capn_uncompress-ne-stuck_example : capn_uncompress (0 ∷ 3 ∷ 0xff ∷ 7 ∷ []) ≢ stuck
capn_uncompress-ne-stuck_example = capn_uncompress-ne-stuck (0 ∷ 3 ∷ 0xff ∷ 7 ∷ [])
