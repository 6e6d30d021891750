-- ===== src/Bin/RoundTrip.antt =====
-- `from_bin` reads back what `to_bin` wrote, for every type and every valid value.
use clarion.Prelude.{
  leb, ℕ, zero, suc, ◌-◌, ◌*◌, ◌/◌, ◌%◌, ◌^◌, ◌≤◌, ◌<◌, ◌≡◌, refl, ◌∙◌, ap, List, [], ◌∷◌, ◌++◌,
  length, none, some, inl, inr, All, arith, append_assoc, ◌==◌, true, length-append,
}
use clarion.Stream.{Result, ok, Bytes}
use clarion.Stream.Vector
use clarion.Stream.Input.{InputStream, check_available, read-append}
use clarion.Stream.Memory.{
  le_bytes, of_le_bytes, block, length-le_bytes, of_le_bytes-le_bytes, length-block, of_block-block,
}
use clarion.Varint.Groups.{varuint_bytes}
use clarion.Varint.RoundTrip.{varuint32_from_bin-bytes, varuint64_from_bin-bytes}
use clarion.Bin.Types.{Ty, Tys, El, Els, Alt, index, IsValid, AreValid, AltIsValid}
use clarion.Bin.Types.{scalar, text, pod_vec, pod_arr, vec, opt, arr, tuple, variant, nil, cons}
use clarion.Bin.Write.{to_bin}
use clarion.Bin.Read.{
  repeat, resize, read_into, read_pod_vec, read_pod_arr, from_bin, from_bin_tuple, variant_from_bin,
}
use clarion.Bin.Encode.{joined, encode, encode_tuple, encode_alt, to_bin-encode}
use native.Mathlib.Nat.{mod-eq_of_lt, le-div_iff_mul-le}

available-append : (n : ℕ) (a rest : Bytes) → length a ≡ n → check_available n (a ++ rest) ≡ ok tt
unfolding check_available
available-append n a rest h = ground (arith, length-append a rest)

resize_fits : (n size : ℕ) → 0 < n → size * n < 2 ^ 63 → resize n size ≡ ok tt
unfolding resize
resize_fits n size hn h = ground (arith, size_le)
  where
    size_le : size ≤ (2 ^ 63 - 1) / n
    size_le = (le-div_iff_mul-le hn).1 (omega arith)

read_into-append :
    (room n : ℕ) (a rest : Bytes)
    → length a ≡ n
    → n ≤ room
    → read_into room n (a ++ rest) ≡ ok (a, rest)
unfolding read_into
read_into-append room n a rest h fits =
    let inside : leb n room ≡ true = ground arith in rw (read-append n a rest h, inside) refl

read_pod_vec-block :
    (n : ℕ) (v : List ℕ) (rest : Bytes)
    → IsValid (pod_vec n) v
    → read_pod_vec n (varuint_bytes (length v) ++ (block n v ++ rest)) ≡ ok (v, rest)
unfolding read_pod_vec
read_pod_vec-block n v rest (size, pos, fits, pods) =
    let wrap : length v * n % 2 ^ 64 ≡ length v * n = mod-eq_of_lt (omega arith) in
    rw (varuint64_from_bin-bytes (length v) (block n v ++ rest) size) (
      rw (
        wrap,
        available-append _ (block n v) rest (length-block n v),
        resize_fits n (length v) pos fits,
        read_into-append (length v * n) (length v * n) (block n v) rest (length-block n v)
            (omega arith),
        of_block-block n v pods,
      ))

read_pod_arr-block :
    (count n : ℕ) (v : List ℕ) (rest : Bytes)
    → IsValid (pod_arr count n) v
    → read_pod_arr count n (varuint_bytes count ++ (block n v ++ rest)) ≡ ok (v, rest)
unfolding read_pod_arr
read_pod_arr-block count n v rest (size, small, pods) =
    let same : (count == count) ≡ true = ground arith in
    rw (varuint32_from_bin-bytes count (block n v ++ rest) small, same)
      (rw (
        read_into-append (count * n) (count * n) (block n v) rest
            (length-block n v ∙ ap (λ c. c * n) size) (omega arith),
        ← size,
        of_block-block n v pods,
      ))

repeat-joined {ℓ} :
    {A : Type ℓ} (P : A → Type 0) (f : InputStream → Result (A × InputStream)) (g : A → Bytes)
    → ((x : A) (rest : Bytes) → P x → f (g x ++ rest) ≡ ok (x, rest))
    → (n : ℕ) (xs : List A) (rest : Bytes) → length xs ≡ n
    → All P xs
    → repeat n f (joined g xs ++ rest) ≡ ok (xs, rest)
unfolding repeat
repeat-joined P f g h zero [] rest e _ = refl
repeat-joined P f g h zero (x ∷ xs) rest e _ = absurd (omega arith)
repeat-joined P f g h (suc n) [] rest e _ = absurd (omega arith)
repeat-joined P f g h (suc n) (x ∷ xs) rest e (px, pxs) =
    rw (append_assoc (g x) (joined g xs) rest, h x (joined g xs ++ rest) px)
      (rw (repeat-joined P f g h n xs rest (omega arith) pxs))

mutual
  unfolding from_bin encode of_le_bytes

  from_bin_lem :
      (t : Ty) (v : El t) (rest : Bytes)
      → IsValid t v
      → from_bin t (encode t v ++ rest) ≡ ok (v, rest)
  from_bin_lem (scalar n) v rest h =
      rw (read-append n (le_bytes n v) rest (length-le_bytes n v)) (rw (of_le_bytes-le_bytes n v h))
  from_bin_lem text v rest h =
      rw (append_assoc (varuint_bytes (length v)) v rest, varuint32_from_bin-bytes _ (v ++ rest) h)
        (read-append (length v) v rest refl)
  from_bin_lem (pod_vec n) v rest h =
      rw (append_assoc (varuint_bytes (length v)) (block n v) rest) (read_pod_vec-block n v rest h)
  from_bin_lem (pod_arr count n) v rest h =
      rw (append_assoc (varuint_bytes count) (block n v) rest) (read_pod_arr-block count n v rest h)
  from_bin_lem (vec t) v rest h =
      rw
        (
          append_assoc (varuint_bytes (length v)) _ rest,
          varuint32_from_bin-bytes _ (joined (encode t) v ++ rest) h.0,
        )
        (repeat-joined (IsValid t) (from_bin t) (encode t) (from_bin_lem t) _ v rest refl h.1)
  from_bin_lem (opt t) none rest h = rw (read-append 1 (0 ∷ []) rest refl)
  from_bin_lem (opt t) (some v) rest h =
      rw (read-append 1 (1 ∷ []) (encode t v ++ rest) refl) (rw (from_bin_lem t v rest h))
  from_bin_lem (arr count t) v rest h =
      repeat-joined (IsValid t) (from_bin t) (encode t) (from_bin_lem t) count v rest h.0 h.1
  from_bin_lem (tuple ts) v rest h = from_bin_tuple_lem ts v rest h
  from_bin_lem (variant ts) v rest h =
      rw
        (
          append_assoc (varuint_bytes (index ts v)) _ rest,
          varuint32_from_bin-bytes _ (encode_alt ts v ++ rest) h.0,
        )
        (variant_from_bin_lem ts v rest h.1)

  from_bin_tuple_lem :
      (ts : Tys) (v : Els ts) (rest : Bytes)
      → AreValid ts v
      → from_bin_tuple ts (encode_tuple ts v ++ rest) ≡ ok (v, rest)
  from_bin_tuple_lem nil v rest h = refl
  from_bin_tuple_lem (cons t ts) v rest h =
      rw (append_assoc (encode t v.0) _ rest, from_bin_lem t v.0 (encode_tuple ts v.1 ++ rest) h.0)
        (rw (from_bin_tuple_lem ts v.1 rest h.1))

  variant_from_bin_lem :
      (ts : Tys) (v : Alt ts) (rest : Bytes)
      → AltIsValid ts v
      → variant_from_bin ts (index ts v) (encode_alt ts v ++ rest) ≡ ok (v, rest)
  variant_from_bin_lem nil v rest h = absurd h
  variant_from_bin_lem (cons t ts) (inl v) rest h = rw (from_bin_lem t v rest h)
  variant_from_bin_lem (cons t ts) (inr v) rest h = rw (variant_from_bin_lem ts v rest h)

pub from_bin-encode :
    (t : Ty) (v : El t) (rest : Bytes)
    → IsValid t v
    → from_bin t (encode t v ++ rest) ≡ ok (v, rest)
from_bin-encode t v rest h = from_bin_lem t v rest h

-- Of every type, `from_bin` reads back each valid value that `to_bin` wrote to an empty vector stream,
-- and leaves what follows it unread.
pub from_bin-to_bin :
    (t : Ty) (v : El t) (rest : Bytes)
    → IsValid t v
    → (bin : Bytes) × (to_bin Vector.sink t v [] ≡ ok bin)
      × (from_bin t (bin ++ rest) ≡ ok (v, rest))
unfolding Vector.write
from_bin-to_bin t v rest h =
    (encode t v, to_bin-encode Vector.sink t v [] h, from_bin_lem t v rest h)
