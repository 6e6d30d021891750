-- ===== src/Stream/Sink.antt =====
-- What the serializers rely on of the stream that they write to: writing in pieces is writing at once.
use clarion.Prelude.{◌≡◌, ◌++◌, [], ◌∙◌, ap, sym}
use mathlib.Core.Path.{fun_ext}
use clarion.Stream.Outcome.{Result, ok, Bytes, ◌>>=◌}

pub record Sink (S : Type 0) : Type 0 where
  pub write : Bytes → S → Result S
  pub write-nil : (s : S) → write [] s ≡ ok s
  pub write-append : (a b : Bytes) (s : S) → write (a ++ b) s ≡ (write a s >>= write b)

module _ {S : Type 0} (k : Sink S) where
  -- A writer that goes on after `a`, and that is itself a write of `b`, writes `a ++ b`.
  pub write_then :
      (a b : Bytes) (f : S → Result S) (s : S)
      → ((s' : S) → f s' ≡ k.write b s')
      → (k.write a s >>= f) ≡ k.write (a ++ b) s
  write_then a b f s h = ap (λ g. k.write a s >>= g) (fun_ext h) ∙ sym (k.write-append a b s)
