-- ===== src/Name/Print.antt =====
-- `name_to_string`.
use Prim.Native.Nat.{bit_and}
use clarion.Prelude.{ℕ, zero, suc, ◌/◌, ◌+◌, ◌^◌, [], ◌∷◌, ltb, ◌==◌, if◌then◌else◌}
use clarion.Stream.{Bytes}

-- `charmap[d]`, the table ".12345abcdefghijklmnopqrstuvwxyz".
unfoldable pub charmap : ℕ → ℕ
charmap d = if d == 0 then b'.' else if ltb d 6 then b'0' + d else b'[' + d

-- The characters from the last to the first: `n` are left to be made.
unfoldable pub print_loop : ℕ → ℕ → Bytes → Bytes
print_loop zero tmp str = str
print_loop (suc n) tmp str = print_loop n (tmp / 2 ^ 5) (charmap (bit_and tmp 0x1f) ∷ str)

unfoldable pub cut_dot : ℕ → Bytes → Bytes
cut_dot c [] = if c == b'.' then [] else c ∷ []
cut_dot c (d ∷ rest) = c ∷ d ∷ rest

-- `str.substr(0, str.find_last_not_of('.') + 1)`
unfoldable pub strip : Bytes → Bytes
strip [] = []
strip (c ∷ str) = cut_dot c (strip str)

unfoldable pub name_to_string : ℕ → Bytes
name_to_string name = strip (print_loop 12 (name / 2 ^ 4) (charmap (bit_and name 0x0f) ∷ []))
