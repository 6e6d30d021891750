-- ===== src/Compress/Pack.antt =====
-- `capp_pack`.
use clarion.Prelude.{
  ℕ, zero, suc, ◌+◌, ◌*◌, ◌/◌, ◌%◌, ◌^◌, [], ◌∷◌, Bool, length, ltb, ◌==◌, if◌then◌else◌,
}
use clarion.Stream.{Result, ok, stuck, Bytes, ◌>>=◌}
use clarion.Stream.Sink.{Sink}
use clarion.Stream.Vector
use clarion.Stream.Input.{InputStream, copy, read, skip}
use clarion.Stream.Memory.{of_le_bytes}

-- A word is given by its bytes in memory. `not next_word`.
unfoldable pub is_zero_word : Bytes → Bool
is_zero_word w = of_le_bytes w == 0

-- The loop that skips zero words, with `left` of its 254 rounds left: the word that it stops at, the
-- number of words skipped, and the stream.
unfoldable pub skip_zero_words : ℕ → ℕ → Bytes → InputStream → Result (Bytes × ℕ × InputStream)
skip_zero_words zero num_zero w s = ok (w, num_zero, s)
skip_zero_words (suc left) num_zero w s =
    if is_zero_word w
    then (read 8 s >>= λ r. skip_zero_words left (num_zero + 1) r.0 r.1)
    else ok (w, num_zero, s)

-- `zeros`: a bit for each byte of the word, shifted into a uint8_t.
unfoldable pub tag : Bytes → ℕ → ℕ
tag [] zeros = zeros
tag (b ∷ w) zeros = tag w (zeros * 2 % 2 ^ 8 + (if b == 0 then 0 else 1))

-- The bytes of the word that are not zero.
unfoldable pub kept : Bytes → Bytes
kept [] = []
kept (b ∷ w) = let rest = kept w in if b == 0 then rest else b ∷ rest

-- The bytes up to the next zero byte or the end. (The code also reads the byte at the end, to no effect.)
unfoldable pub raw_run : InputStream → ℕ
raw_run [] = 0
raw_run (b ∷ s) = let rest = raw_run s in if b == 0 then 0 else suc rest

module _ {S : Type 0} (k : Sink S) where
  -- A word that is zero: a zero byte, and the number of the zero words behind it. The next word follows.
  unfoldable pub pack_zero_words : Bytes → InputStream → S → Result (Bytes × InputStream × S)
  pack_zero_words w s out =
      if is_zero_word w
      then (do
        out1 ← k.write (0 ∷ []) out
        (w1, s1) ← read 8 s
        (w2, num_zero, s2) ← skip_zero_words 254 0 w1 s1
        out2 ← k.write (num_zero % 2 ^ 8 ∷ []) out1
        ok (w2, s2, out2))
      else ok (w, s, out)

  -- Behind a word without zero bytes: the number of words that have none either, and those words.
  unfoldable pub pack_raw_words : ℕ → InputStream → S → Result (InputStream × S)
  pack_raw_words zeros s out =
      if zeros == 0xff
      then (do
        let num_raw = raw_run s / 8 % 2 ^ 8
        out1 ← k.write (num_raw ∷ []) out
        (raw, _) ← copy (num_raw * 8) s
        out2 ← k.write raw out1
        s1 ← skip (num_raw * 8) s
        ok (s1, out2))
      else ok (s, out)

  -- A word that is not zero: its tag, and its bytes that are not zero.
  unfoldable pub pack_word : Bytes → InputStream → S → Result (InputStream × S)
  pack_word w s out = k.write (tag w 0 ∷ kept w) out >>= pack_raw_words (tag w 0) s

  -- Fewer than eight bytes at the end.
  unfoldable pub pack_rest : InputStream → S → Result S
  pack_rest [] out = ok out
  pack_rest (b ∷ s) out = k.write (0xff ∷ []) out >>= k.write (b ∷ s)

  unfoldable pub pack_words : ℕ → InputStream → S → Result S
  pack_words zero s out = stuck
  pack_words (suc fuel) s out = if ltb (length s) 8 then pack_rest s out else (do
    (w, s1) ← read 8 s
    (w1, s2, out1) ← pack_zero_words w s1 out
    (s3, out2) ← pack_word w1 s2 out1
    pack_words fuel s3 out2)

  -- A round for each word, and one for the end.
  unfoldable pub capp_pack : InputStream → S → Result S
  capp_pack s out = pack_words (suc (length s)) s out

unfoldable pub capn_compress : Bytes → Result Bytes
capn_compress c = capp_pack Vector.sink c []
