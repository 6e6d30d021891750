-- ===== src/Compress/Zeros.antt =====
-- The zero words that `capp_pack` skips.
use clarion.Prelude.{
  ℕ, zero, suc, ◌+◌, ◌%◌, ◌^◌, ◌≤◌, ◌<◌, ◌≡◌, refl, sym, ap, ◌∙◌, List, [], ◌∷◌, ◌++◌, length,
  false, All, arith, Bool-cases, inl, inr, append_assoc, append-nil,
}
use clarion.Stream.{ok, Bytes}
use clarion.Stream.Vector
use clarion.Stream.Input.{read-append}
use clarion.Compress.Pack.{is_zero_word, skip_zero_words, pack_zero_words}
use clarion.Compress.Unpack.{zero_word, unpack_words}
use clarion.Compress.Words.{
  flat, IsWord, Packable, zero-Packable, other-Packable, zeros, is_zero_word-zero,
}
use clarion.Compress.Rounds.{zero_words_round}

-- A word that is not zero comes behind `m` zero words.
abbrev pub NextWord : ℕ → Bytes → List Bytes → Bytes → List Bytes → Type 0
NextWord m w ws w' ws' =
    (is_zero_word w' ≡ false)
    × IsWord w'
    × All IsWord ws'
    × Packable 0 ws'
    × (length ws' ≤ length ws)
    × (w ++ flat ws ≡ zeros m ++ (w' ++ flat ws'))

skip_zero_words-NextWord :
    (left num z : ℕ) (w : Bytes) (ws : List Bytes) (behind : Bytes)
    → left + z ≡ 255
    → IsWord w
    → All IsWord ws
    → Packable z (w ∷ ws)
    → (m : ℕ) × (w' : Bytes) × (ws' : List Bytes) × (skip_zero_words left num w (flat ws ++ behind)
        ≡ ok (w', num + m, flat ws' ++ behind))
      × (m ≤ left)
      × NextWord m w ws w' ws'
unfolding skip_zero_words
skip_zero_words-NextWord zero num z w ws behind e l ls p = elim (Bool-cases (is_zero_word w)) [
  | inl zw ↦ absurd (omega (arith, (zero-Packable z w ws zw p).0))
  | inr nz ↦ (
    0,
    w,
    ws,
    ap (λ n. ok (w, n, flat ws ++ behind)) (omega arith),
    omega arith,
    (nz, l, ls, other-Packable z w ws nz p, omega arith, refl),
  )
]
skip_zero_words-NextWord (suc left) num z w [] behind e l ls p =
    elim (Bool-cases (is_zero_word w)) [
      | inl zw ↦ absurd (omega (arith, (zero-Packable z w [] zw p).1))
      | inr nz ↦ (
        0,
        w,
        [],
        rw nz (ap (λ n. ok (w, n, flat [] ++ behind)) (omega arith)),
        omega arith,
        (nz, l, ls, other-Packable z w [] nz p, omega arith, refl),
      )
    ]
skip_zero_words-NextWord (suc left) num z w (v ∷ ws) behind e l (lv, ls) p =
    elim (Bool-cases (is_zero_word w)) [
      | inl zw ↦
          let (m, w', ws', s, b, (nz, l', ls', p', le, q)) =
            skip_zero_words-NextWord left (num + 1) (suc z) v ws behind (omega arith) lv ls
              (zero-Packable z w (v ∷ ws) zw p).1 in
          (
            suc m,
            w',
            ws',
            rw (zw, append_assoc v (flat ws) behind, read-append 8 v (flat ws ++ behind) lv)
                (s ∙ ap (λ n. ok (w', n, flat ws' ++ behind)) (omega arith)),
            omega arith,
            (
              nz,
              l',
              ls',
              p',
              omega arith,
              rw (is_zero_word-zero w l zw, q)
                  (sym (append_assoc zero_word (zeros m) (w' ++ flat ws'))),
            ),
          )
      | inr nz ↦ (
        0,
        w,
        v ∷ ws,
        rw nz (ap (λ n. ok (w, n, flat (v ∷ ws) ++ behind)) (omega arith)),
        omega arith,
        (nz, l, (lv, ls), other-Packable z w (v ∷ ws) nz p, omega arith, refl),
      )
    ]

-- The word that is packed next, behind the zero words `v` that are packed as `p`.
abbrev pub ZerosPacked : Bytes → List Bytes → Bytes → Type 0
ZerosPacked w ws behind =
    (w' : Bytes) × (ws' : List Bytes) × (m : ℕ) × (p : Bytes) × ((out : Bytes)
      → pack_zero_words Vector.sink w (flat ws ++ behind) out
        ≡ ok (w', flat ws' ++ behind, out ++ p))
    × ((fuel : ℕ) (rest out s : Bytes)
        → 0 < length rest
        → length (p ++ rest) ≤ fuel
        → ((fuel' : ℕ) (out' : Bytes)
            → length rest ≤ fuel'
            → unpack_words Vector.sink fuel' rest out' ≡ ok (out' ++ s))
        → unpack_words Vector.sink fuel (p ++ rest) out ≡ ok (out ++ (zeros m ++ s)))
    × NextWord m w ws w' ws'

zeros_unpacked :
    (m fuel : ℕ) (rest out s : Bytes)
    → 0 < length rest
    → length (0 ∷ m ∷ rest) ≤ fuel
    → ((fuel' : ℕ) (out' : Bytes)
        → length rest ≤ fuel'
        → unpack_words Vector.sink fuel' rest out' ≡ ok (out' ++ s))
    → unpack_words Vector.sink fuel (0 ∷ m ∷ rest) out ≡ ok (out ++ (zeros (suc m) ++ s))
zeros_unpacked m zero rest out s some h go = absurd (omega arith)
zeros_unpacked m (suc fuel) rest out s some h go =
    zero_words_round fuel m rest out some
    ∙ go fuel (out ++ zeros (suc m)) (omega arith)
    ∙ ap ok (append_assoc out (zeros (suc m)) s)

pub zero_words-ZerosPacked :
    (w : Bytes) (ws : List Bytes) (behind : Bytes)
    → IsWord w
    → All IsWord ws
    → Packable 0 (w ∷ ws)
    → ZerosPacked w ws behind
unfolding pack_zero_words Vector.write
zero_words-ZerosPacked w [] behind l ls p = elim (Bool-cases (is_zero_word w)) [
  | inl zw ↦ absurd (omega (arith, (zero-Packable 0 w [] zw p).1))
  | inr nz ↦ (
    w,
    [],
    0,
    [],
    λ out. rw nz (ap (λ b. ok (w, behind, b)) (sym (append-nil out))),
    λ fuel rest out s some h go. go fuel out h,
    (nz, l, ls, refl, omega arith, refl),
  )
]
zero_words-ZerosPacked w (v ∷ ws) behind l (lv, ls) p = elim (Bool-cases (is_zero_word w)) [
  | inl zw ↦
      let (m, w', ws', s, b, (nz, l', ls', p', le, q)) =
        skip_zero_words-NextWord 254 0 1 v ws behind refl lv ls
          (zero-Packable 0 w (v ∷ ws) zw p).1 in
      let count : (0 + m) % 2 ^ 8 ≡ m = omega arith in
      (
        w',
        ws',
        suc m,
        0 ∷ m ∷ [],
        λ out.
            rw
              (
                zw,
                append_assoc v (flat ws) behind,
                read-append 8 v (flat ws ++ behind) lv,
                s,
                count,
              )
              (ap (λ b. ok (w', flat ws' ++ behind, b)) (append_assoc out (0 ∷ []) (m ∷ []))),
        λ fuel rest out s some h go. zeros_unpacked m fuel rest out s some h go,
        (
          nz,
          l',
          ls',
          p',
          omega arith,
          rw (is_zero_word-zero w l zw, q)
              (sym (append_assoc zero_word (zeros m) (w' ++ flat ws'))),
        ),
      )
  | inr nz ↦ (
    w,
    v ∷ ws,
    0,
    [],
    λ out. rw nz (ap (λ b. ok (w, flat (v ∷ ws) ++ behind, b)) (sym (append-nil out))),
    λ fuel rest out s some h go. go fuel out h,
    (nz, l, (lv, ls), other-Packable 0 w (v ∷ ws) nz p, omega arith, refl),
  )
]
