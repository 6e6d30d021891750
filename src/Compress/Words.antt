-- ===== src/Compress/Words.antt =====
-- Lists of words, their zero words, and what the rounds of `capp_unpack` write.
use clarion.Prelude.{
  ℕ, zero, suc, ◌+◌, ◌^◌, ◌≤◌, ◌<◌, ◌≡◌, refl, ap, ◌∙◌, List, [], ◌∷◌, ◌++◌, length, replicate,
  drop, true, false, ◌==◌, ==_iff, if◌then◌else◌, arith, Bool-cases, inl, inr,
}
use clarion.Prelude.Bits.{two_pow_pos}
use clarion.Stream.{Bytes}
use clarion.Stream.Memory.{of_le_bytes}
use clarion.Compress.Pack.{is_zero_word}
use clarion.Compress.Unpack.{zero_word}
use clarion.Compress.Tags.{bits}

abbrev pub flat : List Bytes → Bytes
flat [] = []
flat (w ∷ ws) = w ++ flat ws

abbrev pub IsWord : Bytes → Type 0
IsWord w = length w ≡ 8

-- Behind `z` zero words: no 256 zero words in a row, and none at the end.
abbrev pub Packable : ℕ → List Bytes → Type 0
Packable z [] = z ≡ 0
Packable z (w ∷ ws) = if is_zero_word w then (z < 255) × Packable (suc z) ws else Packable 0 ws

module _ (z : ℕ) (w : Bytes) (ws : List Bytes) where
  pub zero-Packable : is_zero_word w ≡ true → Packable z (w ∷ ws) → (z < 255) × Packable (suc z) ws
  zero-Packable e p = rw e at p

  pub other-Packable : is_zero_word w ≡ false → Packable z (w ∷ ws) → Packable 0 ws
  other-Packable e p = rw e at p

Packable-mono : (ws : List Bytes) (z y : ℕ) → y ≤ z → Packable z ws → Packable y ws
Packable-mono [] z y h p = omega arith
Packable-mono (w ∷ ws) z y h p = elim (Bool-cases (is_zero_word w)) [
  | inl e ↦
      let (few, q) = zero-Packable z w ws e p in
      rw e ((omega arith, Packable-mono ws (suc z) (suc y) (omega arith) q))
  | inr e ↦ rw e (other-Packable z w ws e p)
]

pub drop-Packable : (n : ℕ) (ws : List Bytes) (z : ℕ) → Packable z ws → Packable 0 (drop n ws)
drop-Packable zero ws z p = Packable-mono ws z 0 (omega arith) p
drop-Packable (suc n) [] z p = refl
drop-Packable (suc n) (w ∷ ws) z p = elim (Bool-cases (is_zero_word w)) [
  | inl e ↦ drop-Packable n ws (suc z) (zero-Packable z w ws e p).1
  | inr e ↦ drop-Packable n ws 0 (other-Packable z w ws e p)
]

abbrev pub zeros : ℕ → Bytes
zeros zero = []
zeros (suc n) = zero_word ++ zeros n

zero_bytes : (w : Bytes) → of_le_bytes w ≡ 0 → w ≡ replicate (length w) 0
unfolding of_le_bytes
zero_bytes [] e = refl
zero_bytes (b ∷ w) e = let b0 : b ≡ 0 = omega arith in rw (b0, ← zero_bytes w (omega arith)) refl

pub is_zero_word-zero : (w : Bytes) → IsWord w → is_zero_word w ≡ true → w ≡ zero_word
unfolding is_zero_word
is_zero_word-zero w l e = zero_bytes w ((==_iff (of_le_bytes w) 0).0 e) ∙ ap (λ n. replicate n 0) l

pub no_bits : (w : Bytes) → bits w ≡ 0 → of_le_bytes w ≡ 0
unfolding of_le_bytes
no_bits [] e = refl
no_bits (b ∷ w) e = elim (Bool-cases (b == 0)) [
  | inl z ↦
      let r : 0 + bits w ≡ 0 = rw z at e in
      let b0 : b ≡ 0 = (==_iff b 0).0 z in omega (arith, no_bits w (omega arith))
  | inr z ↦
      let r : 2 ^ length w + bits w ≡ 0 = rw z at e in
      absurd (omega (arith, two_pow_pos (length w)))
]
