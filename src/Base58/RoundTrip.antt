-- ===== src/Base58/RoundTrip.antt =====
-- `base58_to_binary` reads back what `binary_to_base58` wrote.
use mathlib.Core.List.{reverse, reverse_aux, reverse-reverse, reverse-append}
use mathlib.Core.Path.{subst}
use clarion.Prelude.{
  ℕ, zero, suc, ◌<◌, ◌≡◌, refl, sym, ap, ◌∙◌, List, [], ◌∷◌, ◌++◌, All, replicate, true, some, inl,
  inr, ◌==◌, Bool-cases, arith, All-append,
}
use clarion.Stream.{Bytes}
use clarion.Base58.Convert.{base58_char, base58_to_binary, binary_to_base58, parse_digits, leading}
use clarion.Base58.Chars.{zero_char}
use clarion.Base58.Numbers.{
  value, be_value, Canonical, Canonical-unique, be_value-reverse, be_value-replicate,
  reverse-Canonical, reverse-replicate,
}
use clarion.Base58.Steps.{chars, print_bytes_lem, parse_digits_lem}

abbrev NoZeroFirst : List ℕ → Type 0
NoZeroFirst [] = Unit {0}
NoZeroFirst (x ∷ xs) = 0 < x

-- The zeros at the front, and the rest.
record Split (bin : List ℕ) : Type 0 where
  zeros : ℕ
  others : List ℕ
  whole : bin ≡ replicate zeros 0 ++ others
  marks : (m : ℕ) → leading 0 m bin ≡ replicate zeros m
  no_zero : NoZeroFirst others

split : (bin : List ℕ) → Split bin
unfolding leading
split [] = record { zeros = 0; others = []; whole = refl; marks = λ m. refl; no_zero = tt }
split (x ∷ bin) = elim (Bool-cases (x == 0)) [
  | inl e ↦
      let same : x ≡ 0 = ground arith in
      let rest = split bin in
      record {
        zeros = suc rest.zeros;
        others = rest.others;
        whole = rw same (ap (λ l. 0 ∷ l) rest.whole);
        marks = λ m. rw e (ap (λ l. m ∷ l) (rest.marks m));
        no_zero = rest.no_zero;
      }
  | inr e ↦ record {
    zeros = 0;
    others = x ∷ bin;
    whole = refl;
    marks = λ m. rw e refl;
    no_zero = ground arith;
  }
]

chars-reverse_aux :
    (ds acc : List ℕ) → reverse_aux (chars ds) (chars acc) ≡ chars (reverse_aux ds acc)
chars-reverse_aux [] acc = refl
chars-reverse_aux (d ∷ ds) acc = chars-reverse_aux ds (d ∷ acc)

chars-append : (ds es : List ℕ) → chars (ds ++ es) ≡ chars ds ++ chars es
chars-append [] es = refl
chars-append (d ∷ ds) es = ap (λ l. base58_char d ∷ l) (chars-append ds es)

chars-replicate : (z : ℕ) → chars (replicate z 0) ≡ replicate z b'1'
unfolding base58_char
chars-replicate zero = refl
chars-replicate (suc z) = ap (λ l. b'1' ∷ l) (chars-replicate z)

leading-replicate :
    (mark m z : ℕ) (xs : Bytes)
    → leading mark m xs ≡ []
    → leading mark m (replicate z mark ++ xs) ≡ replicate z m
unfolding leading
leading-replicate mark m zero xs e = e
leading-replicate mark m (suc z) xs e =
    let same : (mark == mark) ≡ true = ground arith in
    rw same (ap (λ l. m ∷ l) (leading-replicate mark m z xs e))

-- The highest digit of a number is not 0.
no_one_first :
    (x : ℕ) (ds acc : List ℕ)
    → Canonical 58 (x ∷ ds)
    → leading b'1' 0 (chars (reverse_aux (x ∷ ds) acc)) ≡ []
unfolding leading
no_one_first x [] acc c = let e = zero_char x (omega (arith, c.1)) c.0 in rw e refl
no_one_first x (y ∷ ds) acc c = no_one_first y ds (x ∷ acc) c.2

reverse_no_one : (ds : List ℕ) → Canonical 58 ds → leading b'1' 0 (chars (reverse ds)) ≡ []
unfolding leading
reverse_no_one [] c = refl
reverse_no_one (x ∷ ds) c = no_one_first x ds [] c

Canonical-All : (b : ℕ) (ds : List ℕ) → Canonical b ds → All (λ d. d < b) ds
Canonical-All b [] c = tt
Canonical-All b (x ∷ ds) c = (c.0, Canonical-All b ds c.2)

reverse_aux-All :
    (b : ℕ) (ds acc : List ℕ)
    → All (λ d. d < b) ds
    → All (λ d. d < b) acc
    → All (λ d. d < b) (reverse_aux ds acc)
reverse_aux-All b [] acc h k = k
reverse_aux-All b (x ∷ ds) acc h k = reverse_aux-All b ds (x ∷ acc) h.1 (h.0, k)

zeros-All : (z : ℕ) → All (λ d. d < 58) (replicate z 0)
zeros-All zero = tt
zeros-All (suc z) = (omega arith, zeros-All z)

append-All : (b : ℕ) (xs ys : List ℕ) → All (λ d. d < b) (xs ++ ys) → All (λ d. d < b) ys
append-All b [] ys h = h
append-All b (x ∷ xs) ys h = append-All b xs ys h.1

others-Canonical :
    (xs : List ℕ) → All (λ d. d < 256) xs → NoZeroFirst xs → Canonical 256 (reverse xs)
others-Canonical [] h p = tt
others-Canonical (x ∷ xs) h p = reverse-Canonical x xs h p

-- The printed text: ones, and the digits of the number, highest first.
printed :
    (ds : List ℕ) (z : ℕ)
    → reverse (chars ds ++ replicate z b'1') ≡ chars (replicate z 0 ++ reverse ds)
printed ds z =
    reverse-append (chars ds) (replicate z b'1')
    ∙ ap (λ l. l ++ reverse (chars ds)) (reverse-replicate z b'1' ∙ sym (chars-replicate z))
    ∙ ap (λ l. chars (replicate z 0) ++ l) (chars-reverse_aux ds [])
    ∙ sym (chars-append (replicate z 0) (reverse ds))

marks_printed :
    (ds : List ℕ) (z : ℕ)
    → Canonical 58 ds
    → leading b'1' 0 (chars (replicate z 0 ++ reverse ds)) ≡ replicate z 0
marks_printed ds z c =
    ap (leading b'1' 0) (
      chars-append (replicate z 0) (reverse ds)
      ∙ ap (λ l. l ++ chars (reverse ds)) (chars-replicate z))
    ∙ leading-replicate b'1' 0 z (chars (reverse ds)) (reverse_no_one ds c)

-- The digits of the bytes behind the zeros give those bytes back.
parsed :
    (bin : List ℕ) (s : Split bin) (ds : List ℕ)
    → All (λ x. x < 256) bin
    → Canonical 58 ds
    → value 58 ds ≡ be_value 256 0 bin
    → parse_digits (chars (replicate s.zeros 0 ++ reverse ds)) [] ≡ some (reverse s.others)
parsed bin s ds h c v =
    let digits =
      All-append (λ d. d < 58) (replicate s.zeros 0) (reverse ds) (zeros-All s.zeros)
        (reverse_aux-All 58 ds [] (Canonical-All 58 ds c) tt) in
    let (cs, e, v', c') = parse_digits_lem (replicate s.zeros 0 ++ reverse ds) [] digits tt in
    let bytes =
      append-All 256 (replicate s.zeros 0) s.others (subst (All (λ x. x < 256)) s.whole h) in
    let number : value 256 cs ≡ value 256 (reverse s.others) =
      v'
      ∙ be_value-replicate 58 s.zeros (reverse ds)
      ∙ be_value-reverse 58 (reverse ds)
      ∙ ap (value 58) (reverse-reverse ds)
      ∙ v
      ∙ ap (be_value 256 0) s.whole
      ∙ be_value-replicate 256 s.zeros s.others
      ∙ be_value-reverse 256 s.others in
    e
    ∙ ap some (
        Canonical-unique cs (reverse s.others) c' (others-Canonical s.others bytes s.no_zero)
          number)

put_together :
    (z : ℕ) (others : List ℕ) → reverse (reverse others ++ replicate z 0) ≡ replicate z 0 ++ others
put_together z others =
    reverse-append (reverse others) (replicate z 0)
    ∙ ap (λ l. l ++ reverse (reverse others)) (reverse-replicate z 0)
    ∙ ap (λ l. replicate z 0 ++ l) (reverse-reverse others)

-- Every list of bytes has a text in base 58, and that text is parsed to those bytes, behind what the
-- result held before.
pub base58_to_binary-binary_to_base58 :
    (bin result : Bytes)
    → All (λ x. x < 256) bin
    → (s : Bytes) × (binary_to_base58 bin ≡ some s)
      × (base58_to_binary result s ≡ some (result ++ bin))
unfolding binary_to_base58 base58_to_binary
base58_to_binary-binary_to_base58 bin result h =
    let s = split bin in
    let (ds, e, v, c) = print_bytes_lem bin [] h tt in
    (
      chars (replicate s.zeros 0 ++ reverse ds),
      rw (e, s.marks b'1') (ap some (printed ds s.zeros)),
      rw (parsed bin s ds h c v, marks_printed ds s.zeros c)
          (ap (λ l. some (result ++ l)) (put_together s.zeros s.others ∙ sym s.whole)),
    )
