-- ===== src/Stream/Size.antt =====
-- `size_stream` counts. (A size_t counts objects that lie in memory, so it does not wrap around.)
use clarion.Prelude.{ℕ, ◌+◌, ◌≡◌, ◌++◌, [], length, arith, length-append}
use clarion.Stream.Outcome.{Result, ok, Bytes, ◌>>=◌}
use clarion.Stream.Sink.{Sink}

abbrev pub SizeStream : Type 0
SizeStream = ℕ

unfoldable pub write : Bytes → SizeStream → Result SizeStream
write src s = ok (s + length src)

pub write-nil : (s : SizeStream) → write [] s ≡ ok s
unfolding write
write-nil s = ground arith

pub write-append : (a b : Bytes) (s : SizeStream) → write (a ++ b) s ≡ (write a s >>= write b)
unfolding write
write-append a b s = ground (arith, length-append a b)

abbrev pub sink : Sink SizeStream
sink = record { write = write; write-nil = write-nil; write-append = write-append }
