-- ===== src/Bin/Read.antt =====
-- from_bin.hpp: the overloads of `from_bin`, from an input stream.
use clarion.Prelude.{
  ℕ, zero, suc, ◌-◌, ◌*◌, ◌/◌, ◌%◌, ◌^◌, List, [], ◌∷◌, none, some, inl, inr, ltb, leb, ◌==◌,
  if◌then◌else◌,
}
use clarion.Stream.{
  Result, ok, err, length_error, stuck, Bytes, ◌>>=◌, array_size_mismatch, bad_variant_index,
}
use clarion.Stream.Input.{InputStream, read, check_available}
use clarion.Stream.Memory.{of_le_bytes, of_block}
use clarion.Varint.Read.{varuint32_from_bin, varuint64_from_bin}
use clarion.Bin.Types.{Ty, Tys, El, Els, Alt}
use clarion.Bin.Types.{scalar, text, pod_vec, pod_arr, vec, opt, arr, tuple, variant, nil, cons}

-- `for (size_t i = 0; i < size; ++i) from_bin(v[i], stream);`
unfoldable pub repeat {ℓ} :
    {A : Type ℓ}
    → ℕ
    → (InputStream → Result (A × InputStream))
    → InputStream
    → Result (List A × InputStream)
repeat zero f s = ok ([], s)
repeat (suc n) f s = do (x, s') ← f s; (xs, s'') ← repeat n f s'; ok (x ∷ xs, s'')

-- `v.resize(size)` for elements of `n` bytes throws if the vector cannot be that long.
unfoldable pub resize : ℕ → ℕ → Result (Unit {0})
resize n size = if ltb ((2 ^ 63 - 1) / n) size then length_error else ok tt

-- A `read` into an object of `room` bytes: `stuck` where it would write behind the object.
unfoldable pub read_into : ℕ → ℕ → InputStream → Result (Bytes × InputStream)
read_into room size s = do
  (bytes, s') ← read size s
  if leb size room then ok (bytes, s') else stuck

-- The product `size * sizeof(T)` wraps around.
unfoldable pub read_pod_vec : ℕ → InputStream → Result (List ℕ × InputStream)
read_pod_vec n s = do
  (size, s') ← varuint64_from_bin s
  _ ← check_available (size * n % 2 ^ 64) s'
  _ ← resize n size
  (bytes, s'') ← read_into (size * n) (size * n % 2 ^ 64) s'
  ok (of_block n size bytes, s'')

unfoldable pub read_pod_arr : ℕ → ℕ → InputStream → Result (List ℕ × InputStream)
read_pod_arr count n s = do
  (size, s') ← varuint32_from_bin s
  (bytes, s'') ←
      (if size == count then read_into (count * n) (size * n) s' else err array_size_mismatch)
  ok (of_block n size bytes, s'')

unfoldable mutual
  pub from_bin : (t : Ty) → InputStream → Result (El t × InputStream)
  from_bin (scalar n) s = do (bytes, s') ← read n s; ok (of_le_bytes bytes, s')
  from_bin text s = do (size, s') ← varuint32_from_bin s; read size s'
  from_bin (pod_vec n) s = read_pod_vec n s
  from_bin (pod_arr count n) s = read_pod_arr count n s
  from_bin (vec t) s = do (size, s') ← varuint32_from_bin s; repeat size (from_bin t) s'
  from_bin (opt t) s = do
    (present, s') ← read 1 s
    if of_le_bytes present == 0 then ok (none, s') else from_bin t s' >>= λ r. ok (some r.0, r.1)
  from_bin (arr count t) s = repeat count (from_bin t) s
  from_bin (tuple ts) s = from_bin_tuple ts s
  from_bin (variant ts) s = do (i, s') ← varuint32_from_bin s; variant_from_bin ts i s'

  pub from_bin_tuple : (ts : Tys) → InputStream → Result (Els ts × InputStream)
  from_bin_tuple nil s = ok (tt, s)
  from_bin_tuple (cons t ts) s = do
    (x, s') ← from_bin t s
    (xs, s'') ← from_bin_tuple ts s'
    ok ((x, xs), s'')

  pub variant_from_bin : (ts : Tys) → ℕ → InputStream → Result (Alt ts × InputStream)
  variant_from_bin nil i s = err bad_variant_index
  variant_from_bin (cons t ts) zero s = do (x, s') ← from_bin t s; ok (inl x, s')
  variant_from_bin (cons t ts) (suc i) s = do (x, s') ← variant_from_bin ts i s; ok (inr x, s')
