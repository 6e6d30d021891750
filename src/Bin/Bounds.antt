-- ===== src/Bin/Bounds.antt =====
-- `from_bin` on any input: it ends, it never leaves the window that it was given, and it never writes
-- behind what it reads into.
use clarion.Prelude.{
  ℕ, zero, suc, ◌*◌, ◌%◌, ◌^◌, ◌≢◌, none, arith, ◌≡◌, ◌≤◌, true, leb, ==_iff, Bool-cases, inl, inr,
  if◌then◌else◌, ◌==◌,
}
use clarion.Stream.{Result, ok, err, stuck, Bytes, array_size_mismatch}
use clarion.Stream.Input.{InputStream, read, check_available}
use clarion.Stream.Memory.{of_le_bytes}
use clarion.Varint.Read.{varuint32_from_bin, varuint64_from_bin}
use clarion.Bin.Types.{Ty, Tys}
use clarion.Bin.Types.{scalar, text, pod_vec, pod_arr, vec, opt, arr, tuple, variant, nil, cons}
use clarion.Bin.Read.{
  repeat, resize, read_into, read_pod_vec, read_pod_arr, from_bin, from_bin_tuple, variant_from_bin,
}
use clarion.Stream.Leaves.{Leaves, Leaves-bind, Leaves-check, Leaves-if, IsTail-refl, read-Leaves}
use clarion.Varint.Leaves.{varuint32-Leaves, varuint64-Leaves}

repeat-Leaves {ℓ} :
    {A : Type ℓ} (n : ℕ) (f : InputStream → Result (A × InputStream)) (s : Bytes)
    → ((s' : Bytes) → Leaves s' (f s'))
    → Leaves s (repeat n f s)
unfolding repeat
repeat-Leaves zero f s h = IsTail-refl s
repeat-Leaves (suc n) f s h =
    Leaves-bind s (f s) _ (h s)
      (λ r. Leaves-bind r.1 (repeat n f r.1) _ (repeat-Leaves n f r.1 h) (λ q. IsTail-refl q.1))

check-ne-stuck : (n : ℕ) (s : Bytes) → check_available n s ≢ stuck
unfolding check_available
check-ne-stuck n s = ground arith

resize-ne-stuck : (n size : ℕ) → resize n size ≢ stuck
unfolding resize
resize-ne-stuck n size = ground arith

read_into-Leaves : (room n : ℕ) (s : Bytes) → n ≤ room → Leaves s (read_into room n s)
unfolding read_into
read_into-Leaves room n s h =
    let inside : leb n room ≡ true = ground arith in
    Leaves-bind s (read n s) _ (read-Leaves n s) (λ r. rw inside (IsTail-refl r.1))

read_pod_vec-Leaves : (n : ℕ) (s : Bytes) → Leaves s (read_pod_vec n s)
unfolding read_pod_vec
read_pod_vec-Leaves n s = Leaves-bind s (varuint64_from_bin s) _ (varuint64-Leaves s) (λ r.
    Leaves-check r.1 _ _ (check-ne-stuck (r.0 * n % 2 ^ 64) r.1) (λ _.
      Leaves-check r.1 _ _ (resize-ne-stuck n r.0) (λ _.
        Leaves-bind r.1 _ _ (read_into-Leaves (r.0 * n) (r.0 * n % 2 ^ 64) r.1 (omega arith))
          (λ q. IsTail-refl q.1))))

read_pod_arr-Leaves : (count n : ℕ) (s : Bytes) → Leaves s (read_pod_arr count n s)
unfolding read_pod_arr
read_pod_arr-Leaves count n s =
    Leaves-bind s (varuint32_from_bin s) _ (varuint32-Leaves s)
      (λ r. Leaves-bind r.1 _ _ (array r.0 r.1) (λ q. IsTail-refl q.1))
  where
    array :
        (size : ℕ) (s' : Bytes)
        → Leaves s'
            (if size == count then read_into (count * n) (size * n) s' else err array_size_mismatch)
    array size s' = elim (Bool-cases (size == count)) [
      | inl e ↦
          let same : size ≡ count = (==_iff size count).0 e in
          rw e (read_into-Leaves (count * n) (size * n) s' (rw same (omega arith)))
      | inr e ↦ rw e tt
    ]

mutual
  unfolding from_bin

  from_bin-Leaves' : (t : Ty) (s : Bytes) → Leaves s (from_bin t s)
  from_bin-Leaves' (scalar n) s = Leaves-bind s _ _ (read-Leaves n s) (λ r. IsTail-refl r.1)
  from_bin-Leaves' text s = Leaves-bind s _ _ (varuint32-Leaves s) (λ r. read-Leaves r.0 r.1)
  from_bin-Leaves' (pod_vec n) s = read_pod_vec-Leaves n s
  from_bin-Leaves' (pod_arr count n) s = read_pod_arr-Leaves count n s
  from_bin-Leaves' (vec t) s =
      Leaves-bind s _ _ (varuint32-Leaves s)
        (λ r. repeat-Leaves r.0 (from_bin t) r.1 (from_bin-Leaves' t))
  from_bin-Leaves' (opt t) s = Leaves-bind s _ _ (read-Leaves 1 s) (λ r.
      Leaves-if (of_le_bytes r.0 == 0) r.1 (ok (none, r.1)) _ (IsTail-refl r.1)
        (Leaves-bind r.1 (from_bin t r.1) _ (from_bin-Leaves' t r.1) (λ q. IsTail-refl q.1)))
  from_bin-Leaves' (arr count t) s = repeat-Leaves count (from_bin t) s (from_bin-Leaves' t)
  from_bin-Leaves' (tuple ts) s = from_bin_tuple-Leaves ts s
  from_bin-Leaves' (variant ts) s =
      Leaves-bind s _ _ (varuint32-Leaves s) (λ r. variant_from_bin-Leaves ts r.0 r.1)

  from_bin_tuple-Leaves : (ts : Tys) (s : Bytes) → Leaves s (from_bin_tuple ts s)
  from_bin_tuple-Leaves nil s = IsTail-refl s
  from_bin_tuple-Leaves (cons t ts) s =
      Leaves-bind s _ _ (from_bin-Leaves' t s)
        (λ r. Leaves-bind r.1 _ _ (from_bin_tuple-Leaves ts r.1) (λ q. IsTail-refl q.1))

  variant_from_bin-Leaves : (ts : Tys) (i : ℕ) (s : Bytes) → Leaves s (variant_from_bin ts i s)
  variant_from_bin-Leaves nil i s = tt
  variant_from_bin-Leaves (cons t ts) zero s =
      Leaves-bind s _ _ (from_bin-Leaves' t s) (λ r. IsTail-refl r.1)
  variant_from_bin-Leaves (cons t ts) (suc i) s =
      Leaves-bind s _ _ (variant_from_bin-Leaves ts i s) (λ r. IsTail-refl r.1)

-- Whatever the type and the input, `from_bin` returns with a tail of its input left, or throws. It is not
-- `stuck`: it copies nothing from behind its window, and nothing to behind the array or vector it fills.
pub from_bin-Leaves : (t : Ty) (s : Bytes) → Leaves s (from_bin t s)
from_bin-Leaves t s = from_bin-Leaves' t s
