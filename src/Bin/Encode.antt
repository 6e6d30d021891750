-- ===== src/Bin/Encode.antt =====
-- The bytes of a value, with no stream, and every stream's writer against them.
use clarion.Prelude.{
  ℕ, ◌^◌, ◌<◌, ◌≡◌, refl, sym, List, [], ◌∷◌, ◌++◌, length, none, some, inl, inr, All,
}
use clarion.Stream.{Result, Bytes, ◌>>=◌}
use clarion.Stream.Sink.{Sink, write_then}
use clarion.Stream.Memory.{le_bytes, block}
use clarion.Varint.Write.{varuint32_to_bin}
use clarion.Varint.Groups.{varuint_bytes, varuint32_to_bin-bytes}
use clarion.Bin.Types.{Ty, Tys, El, Els, Alt, index, IsValid, AreValid, AltIsValid}
use clarion.Bin.Types.{scalar, text, pod_vec, pod_arr, vec, opt, arr, tuple, variant, nil, cons}
use clarion.Bin.Write.{each, to_bin, to_bin_tuple, visit}

-- The encodings one after the other.
abbrev pub joined {ℓ} : {A : Type ℓ} → (A → Bytes) → List A → Bytes
joined f [] = []
joined f (x ∷ xs) = f x ++ joined f xs

unfoldable mutual
  pub encode : (t : Ty) → El t → Bytes
  encode (scalar n) v = le_bytes n v
  encode text v = varuint_bytes (length v) ++ v
  encode (pod_vec n) v = varuint_bytes (length v) ++ block n v
  encode (pod_arr count n) v = varuint_bytes count ++ block n v
  encode (vec t) v = varuint_bytes (length v) ++ joined (encode t) v
  encode (opt t) none = 0 ∷ []
  encode (opt t) (some v) = 1 ∷ encode t v
  encode (arr count t) v = joined (encode t) v
  encode (tuple ts) v = encode_tuple ts v
  encode (variant ts) v = varuint_bytes (index ts v) ++ encode_alt ts v

  pub encode_tuple : (ts : Tys) → Els ts → Bytes
  encode_tuple nil v = []
  encode_tuple (cons t ts) v = encode t v.0 ++ encode_tuple ts v.1

  pub encode_alt : (ts : Tys) → Alt ts → Bytes
  encode_alt nil v = absurd v
  encode_alt (cons t ts) (inl v) = encode t v
  encode_alt (cons t ts) (inr v) = encode_alt ts v

module _ {S : Type 0} (k : Sink S) where
  -- A size, and then what `f` writes.
  sized :
      (n : ℕ) (b : Bytes) (f : S → Result S) (s : S)
      → n < 2 ^ 32
      → ((s' : S) → f s' ≡ k.write b s')
      → (varuint32_to_bin k n s >>= f) ≡ k.write (varuint_bytes n ++ b) s
  sized n b f s h e = rw (varuint32_to_bin-bytes k n s h) (write_then k _ b f s e)

  each-joined {ℓ} :
      {A : Type ℓ} (P : A → Type 0) (f : A → S → Result S) (g : A → Bytes)
      → ((x : A) (s : S) → P x → f x s ≡ k.write (g x) s)
      → (xs : List A) (s : S) → All P xs
      → each f xs s ≡ k.write (joined g xs) s
  unfolding each
  each-joined P f g h [] s _ = sym (k.write-nil s)
  each-joined P f g h (x ∷ xs) s (px, pxs) =
      rw (h x s px) (write_then k (g x) _ (each f xs) s (λ s'. each-joined P f g h xs s' pxs))

  mutual
    unfolding to_bin encode

    to_bin_lem : (t : Ty) (v : El t) (s : S) → IsValid t v → to_bin k t v s ≡ k.write (encode t v) s
    to_bin_lem (scalar n) v s h = refl
    to_bin_lem text v s h = sized _ v _ s h (λ s'. refl)
    to_bin_lem (pod_vec n) v s h = sized _ _ _ s h.0 (λ s'. refl)
    to_bin_lem (pod_arr count n) v s h = sized _ _ _ s h.1 (λ s'. refl)
    to_bin_lem (vec t) v s h =
        sized _ _ _ s h.0
          (λ s'. each-joined (IsValid t) (to_bin k t) (encode t) (to_bin_lem t) v s' h.1)
    to_bin_lem (opt t) none s h = refl
    to_bin_lem (opt t) (some v) s h = write_then k (1 ∷ []) _ _ s (λ s'. to_bin_lem t v s' h)
    to_bin_lem (arr count t) v s h =
        each-joined (IsValid t) (to_bin k t) (encode t) (to_bin_lem t) v s h.1
    to_bin_lem (tuple ts) v s h = to_bin_tuple_lem ts v s h
    to_bin_lem (variant ts) v s h = sized _ _ _ s h.0 (λ s'. visit_lem ts v s' h.1)

    to_bin_tuple_lem :
        (ts : Tys) (v : Els ts) (s : S)
        → AreValid ts v
        → to_bin_tuple k ts v s ≡ k.write (encode_tuple ts v) s
    to_bin_tuple_lem nil v s h = sym (k.write-nil s)
    to_bin_tuple_lem (cons t ts) v s h =
        rw (to_bin_lem t v.0 s h.0) (write_then k _ _ _ s (λ s'. to_bin_tuple_lem ts v.1 s' h.1))

    visit_lem :
        (ts : Tys) (v : Alt ts) (s : S)
        → AltIsValid ts v
        → visit k ts v s ≡ k.write (encode_alt ts v) s
    visit_lem nil v s h = absurd h
    visit_lem (cons t ts) (inl v) s h = to_bin_lem t v s h
    visit_lem (cons t ts) (inr v) s h = visit_lem ts v s h

  -- To any stream, `to_bin` writes the encoding of a valid value.
  pub to_bin-encode :
      (t : Ty) (v : El t) (s : S) → IsValid t v → to_bin k t v s ≡ k.write (encode t v) s
  to_bin-encode t v s h = to_bin_lem t v s h
