-- ===== src/Bin/Runs.antt =====
-- Concrete runs, and the theorems at concrete inputs.
use clarion.Prelude.{◌≡◌, refl, [], ◌∷◌, ◌++◌, some, inl, inr, arith}
use clarion.Stream.{ok, err, length_error, bad_variant_index, Bytes, ◌>>=◌}
use clarion.Stream.Vector
use clarion.Stream.FixedBuf
use clarion.Bin.Types.{Ty, El}
use clarion.Bin.Types.{scalar, text, pod_vec, vec, opt, tuple, variant, nil, cons}
use clarion.Bin.Write.{to_bin}
use clarion.Bin.Read.{from_bin, read_pod_vec, resize}
use clarion.Bin.Encode.{encode, to_bin-encode}
use clarion.Bin.RoundTrip.{from_bin-to_bin}
use clarion.Bin.Convert.{
  convert_to_bin, convert_to_bin-encode, to_bin_vector, from_bin_vec, from_bin_vec-to_bin_vector,
}
use clarion.Bin.Bounds.{from_bin-Leaves}
use clarion.Stream.Leaves.{Leaves}
use clarion.Varint.Read.{varuint32_from_bin, varuint64_from_bin, varuint_read}
use clarion.Stream.Input.{read, check_available}

-- struct { uint16_t; optional<string>; vector<string>; variant<uint8_t, vector<uint32_t>> }
abbrev account : Ty
account = tuple (
    cons (scalar 2) (
      cons (opt text)
        (cons (vec text) (cons (variant (cons (scalar 1) (cons (pod_vec 4) nil))) nil))))

abbrev alice : El account
alice = (0x1234, (some (b'a' ∷ b'l' ∷ []), ((b'x' ∷ []) ∷ [] ∷ [], (inr (inl (7 ∷ 8 ∷ [])), tt))))

abbrev room : FixedBuf.FixedBufStream
room = record { before = []; after = 0 ∷ 0 ∷ [] }

bad_index : from_bin (variant (cons (scalar 1) nil)) (3 ∷ 9 ∷ []) ≡ err bad_variant_index
unfolding from_bin varuint32_from_bin varuint_read
bad_index = refl

-- A size whose product with the element's eight bytes wraps around to 0.
huge : Bytes
huge = 0x80 ∷ 0x80 ∷ 0x80 ∷ 0x80 ∷ 0x80 ∷ 0x80 ∷ 0x80 ∷ 0x80 ∷ 0x20 ∷ []

huge_vector : from_bin (pod_vec 8) huge ≡ length_error
unfolding from_bin read_pod_vec varuint64_from_bin varuint_read check_available read resize huge
huge_vector = refl

to_bin-encode_example :
    to_bin FixedBuf.sink (scalar 2) 0x1234 room ≡ FixedBuf.write (encode (scalar 2) 0x1234) room
to_bin-encode_example = to_bin-encode FixedBuf.sink (scalar 2) 0x1234 room (omega arith)

from_bin-to_bin_example :
    (bin : Bytes) × (to_bin Vector.sink account alice [] ≡ ok bin)
    × (from_bin account (bin ++ 1 ∷ []) ≡ ok (alice, 1 ∷ []))
from_bin-to_bin_example = from_bin-to_bin account alice (1 ∷ []) (omega arith)

convert_to_bin-encode_example :
    convert_to_bin account alice (9 ∷ []) ≡ ok (9 ∷ encode account alice)
convert_to_bin-encode_example = convert_to_bin-encode account alice (9 ∷ []) (omega arith)

from_bin_vec-to_bin_vector_example :
    (to_bin_vector account alice >>= from_bin_vec account) ≡ ok alice
from_bin_vec-to_bin_vector_example = from_bin_vec-to_bin_vector account alice (omega arith)

from_bin-Leaves_example : Leaves huge (from_bin account huge)
from_bin-Leaves_example = from_bin-Leaves account huge
