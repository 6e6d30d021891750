-- ===== src/Compress/Packed.antt =====
-- What the rounds of `capp_pack` write, and that the rounds of `capp_unpack` read it.
use clarion.Prelude.{
  ℕ, zero, suc, ◌+◌, ◌*◌, ◌/◌, ◌%◌, ◌^◌, ◌≤◌, ◌<◌, ◌≡◌, refl, sym, ap, ◌∙◌, List, [], ◌∷◌, ◌++◌,
  length, take, drop, false, ◌==◌, ==_iff, All, arith, Bool-cases, inl, inr, append_assoc,
  length-append, length-drop,
}
use clarion.Prelude.Bits.{two_pow}
use clarion.Stream.{ok, Bytes}
use clarion.Stream.Vector
use clarion.Stream.Input.{copy-append, skip-append}
use clarion.Compress.Pack.{is_zero_word, tag, kept, raw_run, pack_raw_words, pack_word}
use clarion.Compress.Unpack.{unpack_words}
use clarion.Compress.Tags.{bits, tag-bits, bits-lt}
use clarion.Compress.Words.{flat, IsWord, Packable, drop-Packable, no_bits}
use clarion.Compress.Rounds.{raw_words_round, word_round}

kept_all : (w : Bytes) → bits w + 1 ≡ 2 ^ length w → kept w ≡ w
unfolding kept
kept_all [] e = refl
kept_all (b ∷ w) e = elim (Bool-cases (b == 0)) [
  | inl z ↦
      let r : 0 + bits w + 1 ≡ 2 ^ suc (length w) = rw z at e in
      absurd (omega (arith, bits-lt w, two_pow (length w)))
  | inr z ↦
      let r : 2 ^ length w + bits w + 1 ≡ 2 ^ suc (length w) = rw z at e in
      rw (z, kept_all w (omega (arith, two_pow (length w)))) refl
]

raw_run-le : (s : Bytes) → raw_run s ≤ length s
unfolding raw_run
raw_run-le [] = omega arith
raw_run-le (b ∷ s) = ground (arith, raw_run-le s)

pub length-flat : (ws : List Bytes) → All IsWord ws → length (flat ws) ≡ length ws * 8
length-flat [] h = omega arith
length-flat (w ∷ ws) (h, hs) = omega (arith, length-append w (flat ws), length-flat ws hs)

split_words :
    (n : ℕ) (ws : List Bytes)
    → n ≤ length ws
    → All IsWord ws
    → (flat (take n ws) ++ flat (drop n ws) ≡ flat ws)
      × (length (flat (take n ws)) ≡ n * 8)
      × All IsWord (drop n ws)
split_words zero ws h hs = (refl, omega arith, hs)
split_words (suc n) [] h hs = absurd (omega arith)
split_words (suc n) (w ∷ ws) h (hw, hs) =
    let (e, l, d) = split_words n ws (omega arith) hs in
    (
      append_assoc w (flat (take n ws)) (flat (drop n ws)) ∙ ap (λ s. w ++ s) e,
      omega (arith, length-append w (flat (take n ws))),
      d,
    )

-- `p` is what a word, and the words `v` in all, are packed as; `ws'` are left.
abbrev pub WordPacked : Bytes → List Bytes → Bytes → Type 0
WordPacked w ws behind =
    (ws' : List Bytes) × (v : Bytes) × (p : Bytes) × ((out : Bytes)
      → pack_word Vector.sink w (flat ws ++ behind) out ≡ ok (flat ws' ++ behind, out ++ p))
    × ((fuel : ℕ) (rest out : Bytes)
        → unpack_words Vector.sink (suc fuel) (p ++ rest) out
          ≡ unpack_words Vector.sink fuel rest (out ++ v))
    × (w ++ flat ws ≡ v ++ flat ws')
    × (length ws' ≤ length ws)
    × All IsWord ws'
    × Packable 0 ws'
    × (0 < length p)

tag_word : (w : Bytes) → IsWord w → tag w 0 ≡ bits w
tag_word w l = tag-bits w 0 (rw l (omega arith)) ∙ omega arith

bits_positive : (w : Bytes) → is_zero_word w ≡ false → 0 < bits w
unfolding is_zero_word
bits_positive w nz = grind (arith, no_bits w)

pack_raw_words-append :
    (n : ℕ) (raw rest out : Bytes)
    → n ≡ raw_run (raw ++ rest) / 8 % 2 ^ 8
    → length raw ≡ n * 8
    → pack_raw_words Vector.sink 0xff (raw ++ rest) out ≡ ok (rest, out ++ (n ∷ raw))
unfolding pack_raw_words Vector.write
pack_raw_words-append n raw rest out hn hl =
    rw (← hn, ← hl, copy-append raw rest, skip-append raw rest, append_assoc out (n ∷ []) raw) refl

pub word-WordPacked :
    (w : Bytes) (ws : List Bytes) (behind : Bytes)
    → IsWord w
    → is_zero_word w ≡ false
    → All IsWord ws
    → Packable 0 ws
    → length behind < 8
    → WordPacked w ws behind
unfolding pack_word pack_raw_words Vector.write
word-WordPacked w ws behind l nz hs p short = elim (Bool-cases (bits w == 0xff)) [
  | inl full ↦
      let s = flat ws ++ behind in
      let n = raw_run s / 8 % 2 ^ 8 in
      let enough : n ≤ length ws =
        omega (arith, raw_run-le s, length-append (flat ws) behind, length-flat ws hs) in
      let (e, len, d) = split_words n ws enough hs in
      let raw = flat (take n ws) in
      let split : s ≡ raw ++ (flat (drop n ws) ++ behind) =
        ap (λ b. b ++ behind) (sym e) ∙ append_assoc raw (flat (drop n ws)) behind in
      let all : bits w ≡ 255 = (==_iff (bits w) 0xff).0 full in
      let same : kept w ≡ w = kept_all w (rw l (omega arith)) in
      (
        drop n ws,
        w ++ raw,
        0xff ∷ (w ++ (n ∷ raw)),
        λ out.
            rw (tag_word w l, all, same)
              (ap (λ b. pack_raw_words Vector.sink 0xff b (out ++ (0xff ∷ w))) split
                ∙ pack_raw_words-append n raw _ (out ++ (0xff ∷ w))
                    (ap (λ b. raw_run b / 8 % 2 ^ 8) split) len
                ∙ ap (λ b. ok (flat (drop n ws) ++ behind, b))
                    (append_assoc out (0xff ∷ w) (n ∷ raw))),
        λ fuel rest out.
            rw (append_assoc w (n ∷ raw) rest) (raw_words_round fuel n w raw rest out l len),
        ap (λ b. w ++ b) (sym e) ∙ sym (append_assoc w raw (flat (drop n ws))),
        omega (arith, length-drop n ws),
        d,
        drop-Packable n ws 0 p,
        omega arith,
      )
  | inr part ↦ (
    ws,
    w,
    bits w ∷ kept w,
    λ out. rw (tag_word w l, part) refl,
    λ fuel rest out.
        word_round fuel w rest out l (bits_positive w nz)
          (let below : bits w < 2 ^ 8 = rw l at (bits-lt w) in ground arith),
    refl,
    omega arith,
    hs,
    p,
    omega arith,
  )
]
