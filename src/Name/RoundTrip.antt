-- ===== src/Name/RoundTrip.antt =====
-- Printing a name and reading the text gives the name back.
use clarion.Prelude.{ℕ, ◌^◌, ◌<◌, ◌≡◌, true}
use clarion.Name.Strict.{string_to_name_strict}
use clarion.Name.Print.{name_to_string}
use clarion.Name.Digits.{strict_loop_printed}
use clarion.Name.Trailing.{strict_loop-strip}

-- Every uint64_t is read back by `string_to_name_strict` from the text that `name_to_string` prints of it.
pub string_to_name_strict-name_to_string :
    (v : ℕ) → v < 2 ^ 64 → string_to_name_strict (name_to_string v) ≡ (true, v)
unfolding string_to_name_strict name_to_string
string_to_name_strict-name_to_string v h = strict_loop-strip _ v 0 0 (strict_loop_printed v h)
