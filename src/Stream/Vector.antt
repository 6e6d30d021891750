-- ===== src/Stream/Vector.antt =====
-- `vector_stream` and `string_stream`: the container that is appended to.
use clarion.Prelude.{◌≡◌, ◌++◌, [], append-nil, append_assoc}
use clarion.Stream.Outcome.{Result, ok, Bytes, ◌>>=◌}
use clarion.Stream.Sink.{Sink}

abbrev pub VectorStream : Type 0
VectorStream = Bytes

unfoldable pub write : Bytes → VectorStream → Result VectorStream
write src s = ok (s ++ src)

pub write-nil : (s : VectorStream) → write [] s ≡ ok s
unfolding write
write-nil s = rw append-nil

pub write-append : (a b : Bytes) (s : VectorStream) → write (a ++ b) s ≡ (write a s >>= write b)
unfolding write
write-append a b s = rw append_assoc

abbrev pub sink : Sink VectorStream
sink = record { write = write; write-nil = write-nil; write-append = write-append }
