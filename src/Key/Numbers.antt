-- ===== src/Key/Numbers.antt =====
-- The keys of numbers.
use Prim.Native.Nat.{compare}
use mathlib.Core.List.{reverse, reverse-cons}
use native.Mathlib.Nat.{pow-suc, mod-eq_of_lt, mod-eq-sub-mod, mod-lt}
use clarion.Prelude.{
  ℕ, zero, suc, ◌-◌, ◌+◌, ◌*◌, ◌/◌, ◌%◌, ◌^◌, ◌<◌, ◌≡◌, refl, Bool, true, false, ltb, ltb→lt,
  Bool-cases, inl, inr, arith,
}
use clarion.Stream.Memory.{le_bytes}
use clarion.Key.Types.{also, compare_bool, compare_int}
use clarion.Key.Order.{Compares, Compares-append, Compares-byte, compare-digits}
use clarion.Key.Write.{biased}

-- Bytes of the same number of digits, from the highest.
pub big_endian-Compares :
    (n v w : ℕ)
    → v < 256 ^ n
    → w < 256 ^ n
    → Compares (reverse (le_bytes n v)) (reverse (le_bytes n w)) (compare v w)
unfolding le_bytes
big_endian-Compares zero v w hv hw =
    let ev : v ≡ 0 = omega arith in
    let ew : w ≡ 0 = omega arith in rw (ev, ew) (record { with_rest = λ r r'. refl })
big_endian-Compares (suc n) v w hv hw =
    let hv' : v / 256 < 256 ^ n = omega (arith, pow-suc 256 n) in
    let hw' : w / 256 < 256 ^ n = omega (arith, pow-suc 256 n) in
    rw
      (
        reverse-cons (v % 256) (le_bytes n (v / 256)),
        reverse-cons (w % 256) (le_bytes n (w / 256)),
        ← compare-digits v w,
      )
      (Compares-append _ _ _ _ _ _ (big_endian-Compares n (v / 256) (w / 256) hv' hw')
        (Compares-byte (v % 256) (w % 256)))

-- A number of `n` bytes, moved by half of their range.
moved_low : (m h v : ℕ) → m ≡ 2 * h → v < h → (v + (m - h)) % m ≡ v + h
moved_low m h v e l = grind (arith, mod-eq_of_lt)

moved_high : (m h v : ℕ) → m ≡ 2 * h → h < suc v → v < m → (v + (m - h)) % m ≡ v - h
moved_high m h v e l l' = grind (arith, mod-eq_of_lt, mod-eq-sub-mod)

half : (n : ℕ) → 256 ^ suc n ≡ 2 * (256 ^ suc n / 2)
half n = omega (arith, pow-suc 256 n)

compare-moved :
    (m h v w : ℕ)
    → m ≡ 2 * h
    → v < m
    → w < m
    → compare ((v + (m - h)) % m) ((w + (m - h)) % m)
      ≡ also (compare_bool (ltb v h) (ltb w h)) (compare v w)
compare-moved m h v w e hv hw = elim (Bool-cases (ltb v h)) [
  | inl a ↦ elim (Bool-cases (ltb w h)) [
    | inl b ↦
        rw (a, b, moved_low m h v e (ltb→lt v h a), moved_low m h w e (ltb→lt w h b)) (ground arith)
    | inr b ↦
        rw (a, b, moved_low m h v e (ltb→lt v h a), moved_high m h w e (ground arith) hw)
          (ground arith)
  ]
  | inr a ↦ elim (Bool-cases (ltb w h)) [
    | inl b ↦
        rw (a, b, moved_high m h v e (ground arith) hv, moved_low m h w e (ltb→lt w h b))
          (ground arith)
    | inr b ↦
        rw (a, b, moved_high m h v e (ground arith) hv, moved_high m h w e (ground arith) hw)
          (ground arith)
  ]
]

pub biased-lt : (signed : Bool) (n v : ℕ) → v < 256 ^ suc n → biased signed (suc n) v < 256 ^ suc n
unfolding biased
biased-lt false n v h = h
biased-lt true n v h = mod-lt _ (omega (arith, half n))

pub compare-biased :
    (signed : Bool) (n v w : ℕ)
    → v < 256 ^ suc n
    → w < 256 ^ suc n
    → compare (biased signed (suc n) v) (biased signed (suc n) w) ≡ compare_int signed (suc n) v w
unfolding biased
compare-biased false n v w hv hw = refl
compare-biased true n v w hv hw = compare-moved (256 ^ suc n) (256 ^ suc n / 2) v w (half n) hv hw
