-- ===== src/Stream/Pretty.antt =====
-- `pretty_stream` and the free functions that write JSON's punctuation.
use clarion.Prelude.{ℕ, ◌+◌, ◌-◌, [], ◌∷◌, ltb, if◌then◌else◌, replicate}
use clarion.Stream.Outcome.{Result, ok, err, overrun, ◌>>=◌}
use clarion.Stream.Sink.{Sink}

-- A base stream with an indent. `current_indent` holds spaces only, so its size is kept.
pub record PrettyStream (S : Type 0) : Type 0 where
  pub base : S
  pub indent_size : ℕ
  pub current_indent : ℕ

module _ {S : Type 0} where
  unfoldable pub increase_indent : PrettyStream S → PrettyStream S
  increase_indent s = record s { current_indent = s.current_indent + s.indent_size }

  unfoldable pub decrease_indent : PrettyStream S → Result (PrettyStream S)
  decrease_indent s =
      if ltb s.current_indent s.indent_size
      then err overrun
      else ok (record s { current_indent = s.current_indent - s.indent_size })

  unfoldable pub write_colon : Sink S → PrettyStream S → Result (PrettyStream S)
  write_colon k s = do b ← k.write (b':' ∷ b' ' ∷ []) s.base; ok (record s { base = b })

  unfoldable pub write_newline : Sink S → PrettyStream S → Result (PrettyStream S)
  write_newline k s = do
    b ← k.write (b'\n' ∷ []) s.base
    c ← k.write (replicate s.current_indent b' ') b
    ok (record s { base = c })
