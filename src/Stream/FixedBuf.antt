-- ===== src/Stream/FixedBuf.antt =====
-- `fixed_buf_stream`: the buffer up to `pos`, and from `pos` to `end`.
use clarion.Prelude.{
  ℕ, ◌+◌, ◌-◌, ◌≡◌, ◌++◌, [], length, take, drop, ltb, if◌then◌else◌, arith, length-append,
  length-drop, drop-drop, append-nil, append_assoc,
}
use clarion.Prelude.Int.{ℤ, pos, negsuc}
use clarion.Stream.Outcome.{Result, ok, err, overrun, Bytes, ◌>>=◌}
use clarion.Stream.Sink.{Sink}

pub record FixedBufStream : Type 0 where
  pub before : Bytes
  pub after : Bytes

unfoldable pub write : Bytes → FixedBufStream → Result FixedBufStream
write src s =
    if ltb (length s.after) (length src)
    then err overrun
    else ok (record { before = s.before ++ src; after = drop (length src) s.after })

-- `skip` moves `pos` within the buffer, forward or back.
unfoldable pub skip : ℤ → FixedBufStream → Result FixedBufStream
skip (pos n) s =
    if ltb (length s.after) n
    then err overrun
    else ok (record { before = s.before ++ take n s.after; after = drop n s.after })
skip (negsuc n) s =
    let start = length s.before - (n + 1) in
    if ltb (length s.before) (n + 1)
    then err overrun
    else ok (record { before = take start s.before; after = drop start s.before ++ s.after })

unfoldable pub remaining : FixedBufStream → ℕ
remaining s = length s.after

unfoldable pub consumed : FixedBufStream → ℕ
consumed s = length s.before

pub write-nil : (s : FixedBufStream) → write [] s ≡ ok s
unfolding write
write-nil s = ground (arith, append-nil s.before)

pub write-append : (a b : Bytes) (s : FixedBufStream) → write (a ++ b) s ≡ (write a s >>= write b)
unfolding write
write-append a b s = ground (
  arith,
  length-append a b,
  length-drop (length a) s.after,
  append_assoc s.before a b,
  drop-drop (length a) (length b) s.after,
)

abbrev pub sink : Sink FixedBufStream
sink = record { write = write; write-nil = write-nil; write-append = write-append }
