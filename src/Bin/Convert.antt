-- ===== src/Bin/Convert.antt =====
-- `convert_to_bin`: a first pass counts the bytes, a second one fills a buffer of that size.
use clarion.Prelude.{
  ℕ, zero, suc, ◌+◌, ◌≡◌, refl, [], ◌++◌, length, replicate, drop, arith, ltb, false, append-nil,
  length-replicate,
}
use clarion.Stream.{Result, ok, Bytes, ◌>>=◌}
use clarion.Stream.Size
use clarion.Stream.FixedBuf
use clarion.Stream.FixedBuf.{FixedBufStream}
use clarion.Bin.Types.{Ty, El, IsValid}
use clarion.Bin.Write.{to_bin}
use clarion.Bin.Read.{from_bin}
use clarion.Bin.Encode.{encode, to_bin-encode}
use clarion.Bin.RoundTrip.{from_bin-encode}

-- The buffer is the end of `bin`, made longer by zero bytes.
unfoldable pub convert_to_bin : (t : Ty) → El t → Bytes → Result Bytes
convert_to_bin t v bin = do
  size ← to_bin Size.sink t v 0
  fbs ← to_bin FixedBuf.sink t v (record { before = []; after = replicate size 0 })
  ok (bin ++ (fbs.before ++ fbs.after))

unfoldable pub to_bin_vector : (t : Ty) → El t → Result Bytes
to_bin_vector t v = convert_to_bin t v []

-- `from_bin_vec` reads a whole vector.
unfoldable pub from_bin_vec : (t : Ty) → Bytes → Result (El t)
from_bin_vec t bin = from_bin t bin >>= λ r. ok r.0

drop_all-replicate : (n : ℕ) → drop n (replicate {A = ℕ} n 0) ≡ []
drop_all-replicate zero = refl
drop_all-replicate (suc n) = drop_all-replicate n

-- A buffer of the right size is filled up.
pub fill :
    (n : ℕ) (b : Bytes)
    → n ≡ length b
    → FixedBuf.write b (record { before = []; after = replicate n 0 })
      ≡ ok (record { before = b; after = [] })
unfolding FixedBuf.write
fill n b h =
    let enough : ltb (length (replicate {A = ℕ} n 0)) (length b) ≡ false =
      ground (arith, length-replicate {A = ℕ} n 0) in
    rw enough (rw (← h, drop_all-replicate n))

-- The two passes agree: the bytes that are counted are those that are written, the buffer neither
-- overflows nor has room left, and the result is `bin` followed by the encoding.
pub convert_to_bin-encode :
    (t : Ty) (v : El t) (bin : Bytes)
    → IsValid t v
    → convert_to_bin t v bin ≡ ok (bin ++ encode t v)
unfolding convert_to_bin Size.write
convert_to_bin-encode t v bin h = rw (to_bin-encode Size.sink t v 0 h) (
    rw (
      to_bin-encode FixedBuf.sink t v _ h,
      fill (0 + length (encode t v)) (encode t v) (omega arith),
      append-nil,
    ))

-- A vector made by `to_bin` is read back by `from_bin_vec`.
pub from_bin_vec-to_bin_vector :
    (t : Ty) (v : El t) → IsValid t v → (to_bin_vector t v >>= from_bin_vec t) ≡ ok v
unfolding to_bin_vector from_bin_vec
from_bin_vec-to_bin_vector t v h =
    rw (convert_to_bin-encode t v [] h) (rw (← append-nil (encode t v), from_bin-encode t v [] h))
