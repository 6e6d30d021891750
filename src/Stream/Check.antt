-- ===== src/Stream/Check.antt =====
-- `check_input_stream`: an input stream that also counts what was read through it.
use clarion.Prelude.{ℕ, ◌+◌, length, take, drop, ltb, if◌then◌else◌}
use clarion.Stream.Outcome.{Result, ok, err, overrun, Bytes}
use clarion.Stream.Input.{InputStream}

pub record CheckInputStream : Type 0 where
  pub rest : InputStream
  pub total_read : ℕ

unfoldable pub open_at : InputStream → CheckInputStream
open_at s = record { rest = s; total_read = 0 }

unfoldable pub checkread : ℕ → CheckInputStream → Result CheckInputStream
checkread size s =
    if ltb (length s.rest) size
    then err overrun
    else ok (record { rest = drop size s.rest; total_read = s.total_read + size })

unfoldable pub read : ℕ → CheckInputStream → Result (Bytes × CheckInputStream)
read size s =
    if ltb (length s.rest) size
    then err overrun
    else ok (take size s.rest, record { rest = drop size s.rest; total_read = s.total_read + size })
