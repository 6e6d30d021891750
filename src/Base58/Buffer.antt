-- ===== src/Base58/Buffer.antt =====
-- `from_base58` into a buffer of the caller's.
use clarion.Prelude.{
  ℕ, zero, suc, ◌≤◌, refl, ◌∷◌, ◌%◌, ◌^◌, ◌<◌, ◌≡◌, sym, ap, ◌∙◌, [], ◌++◌, length, take, drop, All,
  Option, none, some, inl, inr, ltb, Bool-cases, arith, length-append, length-take, length-drop,
}
use clarion.Stream.{Bytes}
use clarion.Base58.Convert.{base58_to_binary, smaller, to_base58, from_base58, ◌>>=◌}
use clarion.Base58.RoundTrip.{base58_to_binary-binary_to_base58}

take_more : (n : ℕ) (s : Bytes) → length s ≤ n → take n s ≡ s
take_more zero [] h = refl
take_more (suc n) [] h = refl
take_more zero (b ∷ s) h = absurd (omega arith)
take_more (suc n) (b ∷ s) h = ap (λ r. b ∷ r) (take_more n s (omega arith))

drop_more : (n : ℕ) (s : Bytes) → length s ≤ n → drop n s ≡ []
drop_more zero [] h = refl
drop_more (suc n) [] h = refl
drop_more zero (b ∷ s) h = absurd (omega arith)
drop_more (suc n) (b ∷ s) h = drop_more n s (omega arith)

filled :
    (bin bytes : Bytes)
    → take (smaller (length bytes) (length bin)) bin
        ++ drop (smaller (length bytes) (length bin)) bytes
      ≡ take (length bytes) bin ++ drop (length bin) bytes
unfolding smaller
filled bin bytes = elim (Bool-cases (ltb (length bin) (length bytes))) [
  | inl e ↦
      let fits : length bin ≤ length bytes = ground arith in
      rw (e, take_more (length bin) bin (omega arith), take_more (length bytes) bin fits) refl
  | inr e ↦
      let fits : length bytes ≤ length bin = ground arith in
      rw (e, drop_more (length bytes) bytes (omega arith), drop_more (length bin) bytes fits) refl
]

-- Every list of fewer than 2^32 bytes has a text in base 58. `from_base58` of that text into a buffer of any
-- size fills the buffer with as many of the bytes as it can take, and leaves what is behind them in the
-- buffer as it is.
pub from_base58-to_base58 :
    (bin bytes : Bytes)
    → All (λ x. x < 256) bin
    → length bin < 2 ^ 32
    → (s : Bytes) × (to_base58 bin ≡ some s)
      × (from_base58 s bytes ≡ some (take (length bytes) bin ++ drop (length bin) bytes))
unfolding to_base58 from_base58
from_base58-to_base58 bin bytes h l =
    let (s, printed, parsed) = base58_to_binary-binary_to_base58 bin [] h in
    let small : length bin % 2 ^ 32 ≡ length bin = omega arith in
    (s, printed, rw (parsed, small) (ap some (filled bin bytes)))

length-filled :
    (n : ℕ) (buf bytes : Bytes)
    → n < suc (length buf)
    → n < suc (length bytes)
    → length (take n buf ++ drop n bytes) ≡ length bytes
length-filled n buf bytes l l' =
    omega (arith, length-append (take n buf) (drop n bytes), length-take n buf, length-drop n bytes)

smaller_lem : (a b : ℕ) → (smaller a b < suc a) × (smaller a b < suc b)
unfolding smaller
smaller_lem a b = elim (Bool-cases (ltb b a)) [
  | inl e ↦ rw e (ground arith)
  | inr e ↦ rw e (ground arith)
]

filled-length :
    (buf bytes out : Bytes)
    → some (
        take (smaller (length bytes) (length buf % 2 ^ 32)) buf
        ++ drop (smaller (length bytes) (length buf % 2 ^ 32)) bytes)
      ≡ some out
    → length out ≡ length bytes
filled-length buf bytes out e =
    let (left, right) = smaller_lem (length bytes) (length buf % 2 ^ 32) in
    let n = smaller (length bytes) (length buf % 2 ^ 32) in
    let same : take n buf ++ drop n bytes ≡ out = cc in
    sym (ap length same) ∙ length-filled n buf bytes (omega arith) left

-- Whatever the text, `from_base58` throws or leaves the size of the buffer as it is: it writes nothing behind it.
pub from_base58-length :
    (b58 bytes out : Bytes) → from_base58 b58 bytes ≡ some out → length out ≡ length bytes
unfolding from_base58
from_base58-length b58 bytes out e = by_buffer (base58_to_binary [] b58) e
  where
    by_buffer :
        (o : Option Bytes)
        → (o >>= λ buf. some (
            take (smaller (length bytes) (length buf % 2 ^ 32)) buf
            ++ drop (smaller (length bytes) (length buf % 2 ^ 32)) bytes))
          ≡ some out
        → length out ≡ length bytes
    by_buffer none e = cc
    by_buffer (some buf) e = filled-length buf bytes out e
