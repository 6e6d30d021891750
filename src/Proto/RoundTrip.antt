-- ===== src/Proto/RoundTrip.antt =====
-- `to_protobuf` and `from_protobuf` on whole vectors.
use clarion.Prelude.{ℕ, ◌≡◌, refl, ap, ◌∙◌, length, arith}
use clarion.Stream.{ok, ◌>>=◌}
use clarion.Stream.Size
use clarion.Stream.FixedBuf
use clarion.Bin.Convert.{fill}
use clarion.Proto.Types.{Ty, El}
use clarion.Proto.Write.{to_protobuf_object, to_protobuf}
use clarion.Proto.Read.{from_protobuf}
use clarion.Proto.Encode.{object_bytes, IsObject, IsProto, IsValid, ReadsBack, IsFresh}
use clarion.Proto.Written.{object-Writes}
use clarion.Proto.Objects.{object-read}

-- For an object whose field numbers differ and fit a key, and that holds what can be sent, `to_protobuf`
-- returns the bytes of the object: the pass that counts and the pass that writes agree, so the buffer
-- neither overflows nor is left unfilled.
pub to_protobuf-object_bytes :
    (t : Ty) (v : El t)
    → IsObject t
    → IsProto t
    → IsValid t v
    → to_protobuf t v ≡ ok (object_bytes t v)
unfolding to_protobuf Size.write
to_protobuf-object_bytes t v o p h =
    let b = object_bytes t v in
    let size : to_protobuf_object t v ℕ Size.sink 0 ≡ ok (length b) =
      object-Writes t v o p h ℕ Size.sink 0 ∙ ap ok (omega arith) in
    rw
      (
        size,
        object-Writes t v o p h FixedBuf.FixedBufStream FixedBuf.sink _,
        fill (length b) b refl,
      )
      refl

-- An object whose field numbers differ and fit a key (`IsProto`), and that holds what can be sent: no
-- negative integer as a varint, no size or varint above 32 bits, no empty vector in a variant
-- (`IsValid`). No part of it is a varuint32 (`ReadsBack`), which is not read as it is written. What
-- `to_protobuf` has written of it, `from_protobuf` reads back into an object whose vectors are empty,
-- whatever else that held.
pub from_protobuf-to_protobuf :
    (t : Ty) (tmp v : El t)
    → IsObject t
    → IsProto t
    → ReadsBack t
    → IsFresh t tmp
    → IsValid t v
    → (to_protobuf t v >>= from_protobuf t tmp) ≡ ok v
unfolding from_protobuf
from_protobuf-to_protobuf t tmp v o p b f h =
    rw (to_protobuf-object_bytes t v o p h, object-read t tmp v o p b f h) refl
