-- ===== src/Compress/RoundTrip.antt =====
-- `capn_uncompress` of what `capn_compress` has written.
use clarion.Prelude.{
  ℕ, zero, suc, ◌≤◌, ◌<◌, ◌≡◌, refl, sym, ap, ◌∙◌, List, [], ◌∷◌, ◌++◌, length, ltb, true, false,
  All, arith, append_assoc, append-nil, length-append,
}
use clarion.Stream.{ok, Bytes, ◌>>=◌}
use clarion.Stream.Vector
use clarion.Stream.Input.{read-append}
use clarion.Compress.Pack.{
  pack_zero_words, pack_word, pack_rest, pack_words, capp_pack, capn_compress,
}
use clarion.Compress.Unpack.{unpack_words, capp_unpack, capn_uncompress}
use clarion.Compress.Words.{flat, IsWord, Packable, zeros}
use clarion.Compress.Packed.{word-WordPacked, length-flat}
use clarion.Compress.Zeros.{zero_words-ZerosPacked}

-- `p` is what `s` is packed as, and what it is unpacked from.
abbrev Packed : Bytes → Type 0
Packed s =
    (p : Bytes) × ((fuel : ℕ) (out : Bytes)
      → length s < fuel
      → pack_words Vector.sink fuel s out ≡ ok (out ++ p))
    × ((fuel : ℕ) (out : Bytes)
        → length p ≤ fuel
        → unpack_words Vector.sink fuel p out ≡ ok (out ++ s))

pack_words_rest :
    (fuel : ℕ) (s out : Bytes)
    → length s < 8
    → length s < fuel
    → pack_words Vector.sink fuel s out ≡ pack_rest Vector.sink s out
unfolding pack_words
pack_words_rest zero s out short h = absurd (omega arith)
pack_words_rest (suc fuel) s out short h =
    let few : ltb (length s) 8 ≡ true = ground arith in rw few refl

unpack_words_rest :
    (fuel : ℕ) (s out : Bytes)
    → length s < 8
    → length (0xff ∷ s) ≤ fuel
    → unpack_words Vector.sink fuel (0xff ∷ s) out ≡ ok (out ++ s)
unfolding unpack_words Vector.write
unpack_words_rest zero s out short h = absurd (omega arith)
unpack_words_rest (suc fuel) s out short h =
    let few : ltb (length s) 8 ≡ true = ground arith in rw few refl

unpack_words_end : (fuel : ℕ) (out : Bytes) → unpack_words Vector.sink fuel [] out ≡ ok (out ++ [])
unfolding unpack_words
unpack_words_end zero out = ap ok (sym (append-nil out))
unpack_words_end (suc fuel) out = ap ok (sym (append-nil out))

rest-Packed : (s : Bytes) → length s < 8 → Packed s
unfolding pack_rest Vector.write
rest-Packed [] short = (
  [],
  λ fuel out h. pack_words_rest fuel [] out short h ∙ ap ok (sym (append-nil out)),
  λ fuel out h. unpack_words_end fuel out,
)
rest-Packed (b ∷ s) short = (
  0xff ∷ b ∷ s,
  λ fuel out h.
      pack_words_rest fuel (b ∷ s) out short h ∙ ap ok (append_assoc out (0xff ∷ []) (b ∷ s)),
  λ fuel out h. unpack_words_rest fuel (b ∷ s) out short h,
)

-- A round of `capp_pack`: the zero words `p1`, the word `p2`, and what follows.
pack_words_round :
    (fuel : ℕ) (w w1 s s1 s2 p1 p2 p3 out : Bytes)
    → IsWord w
    → length (w ++ s) < fuel
    → length s2 ≤ length s
    → ((o : Bytes) → pack_zero_words Vector.sink w s o ≡ ok (w1, s1, o ++ p1))
    → ((o : Bytes) → pack_word Vector.sink w1 s1 o ≡ ok (s2, o ++ p2))
    → ((f : ℕ) (o : Bytes) → length s2 < f → pack_words Vector.sink f s2 o ≡ ok (o ++ p3))
    → pack_words Vector.sink fuel (w ++ s) out ≡ ok (out ++ (p1 ++ (p2 ++ p3)))
unfolding pack_words
pack_words_round zero w w1 s s1 s2 p1 p2 p3 out l h le e1 e2 e3 = absurd (omega arith)
pack_words_round (suc fuel) w w1 s s1 s2 p1 p2 p3 out l h le e1 e2 e3 =
    let more : ltb (length (w ++ s)) 8 ≡ false = ground (arith, length-append w s) in
    rw
      (
        more,
        read-append 8 w s l,
        e1 out,
        e2 (out ++ p1),
        e3 fuel ((out ++ p1) ++ p2) (omega (arith, length-append w s)),
        append_assoc (out ++ p1) p2 p3,
        append_assoc out p1 (p2 ++ p3),
      )
      refl

-- A round of `capp_unpack`, and what follows.
unpack_words_round :
    (fuel : ℕ) (p v p3 s3 out : Bytes)
    → 0 < length p
    → length (p ++ p3) ≤ fuel
    → ((f : ℕ) (rest o : Bytes)
        → unpack_words Vector.sink (suc f) (p ++ rest) o ≡ unpack_words Vector.sink f rest (o ++ v))
    → ((f : ℕ) (o : Bytes) → length p3 ≤ f → unpack_words Vector.sink f p3 o ≡ ok (o ++ s3))
    → unpack_words Vector.sink fuel (p ++ p3) out ≡ ok (out ++ (v ++ s3))
unpack_words_round zero p v p3 s3 out some h e e3 = absurd (omega (arith, length-append p p3))
unpack_words_round (suc fuel) p v p3 s3 out some h e e3 =
    e fuel p3 out
    ∙ e3 fuel (out ++ v) (omega (arith, length-append p p3))
    ∙ ap ok (append_assoc out v s3)

words-Packed :
    (n : ℕ) (ws : List Bytes) (behind : Bytes)
    → length ws ≤ n
    → All IsWord ws
    → Packable 0 ws
    → length behind < 8
    → Packed (flat ws ++ behind)
words-Packed n [] behind h ls p short = rest-Packed behind short
words-Packed zero (w ∷ ws) behind h ls p short = absurd (omega arith)
words-Packed (suc n) (w ∷ ws) behind h (l, ls) p short =
    let (w1, ws1, m, p1, packs1, unpacks1, (nz1, l1, ls1, ok1, le1, q1)) =
      zero_words-ZerosPacked w ws behind l ls p in
    let (ws2, v, p2, packs2, unpacks2, q2, le2, ls2, ok2, some) =
      word-WordPacked w1 ws1 behind l1 nz1 ls1 ok1 short in
    let (p3, packs3, unpacks3) = words-Packed n ws2 behind (omega arith) ls2 ok2 short in
    let all : zeros m ++ (v ++ (flat ws2 ++ behind)) ≡ (w ++ flat ws) ++ behind =
      rw (q1, q2, append_assoc (zeros m) (v ++ flat ws2) behind, append_assoc v (flat ws2) behind)
        refl in
    (
      p1 ++ (p2 ++ p3),
      λ fuel out h. rw (append_assoc w (flat ws) behind) (
          pack_words_round fuel w w1 (flat ws ++ behind) _ (flat ws2 ++ behind) p1 p2 p3 out l
            (rw (← append_assoc w (flat ws) behind) h)
            (omega (
              arith,
              length-append (flat ws) behind,
              length-append (flat ws2) behind,
              length-flat ws ls,
              length-flat ws2 ls2,
            ))
            packs1 packs2 packs3),
      λ fuel out h.
          unpacks1 fuel (p2 ++ p3) out (v ++ (flat ws2 ++ behind))
            (omega (arith, length-append p2 p3)) h
            (λ fuel' out' h'.
              unpack_words_round fuel' p2 v p3 (flat ws2 ++ behind) out' some h' unpacks2 unpacks3)
          ∙ ap (λ b. ok (out ++ b)) all,
    )

-- Words without 256 zero words in a row and without zero words at the end, and fewer than eight bytes
-- behind them, are compressed, and uncompressing gives them back.
pub capn_uncompress-compress :
    (ws : List Bytes) (behind : Bytes)
    → All IsWord ws
    → Packable 0 ws
    → length behind < 8
    → (capn_compress (flat ws ++ behind) >>= capn_uncompress) ≡ ok (flat ws ++ behind)
unfolding capn_compress capp_pack capn_uncompress capp_unpack
capn_uncompress-compress ws behind ls p short =
    let s = flat ws ++ behind in
    let (packed, packs, unpacks) = words-Packed (length ws) ws behind (omega arith) ls p short in
    rw (packs (suc (length s)) [] (omega arith)) (unpacks (length packed) [] (omega arith))
