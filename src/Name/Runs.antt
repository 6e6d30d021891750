-- ===== src/Name/Runs.antt =====
-- Concrete runs, and the theorems at concrete inputs.
use clarion.Prelude.{◌*◌, ◌^◌, ◌≡◌, refl, [], ◌∷◌, arith, true, false}
use clarion.Name.Strict.{string_to_name_strict, strict_loop, char_to_name_digit_strict}
use clarion.Name.Print.{name_to_string, print_loop, charmap, strip, cut_dot}
use clarion.Name.Lenient.{char_to_name_digit, lenient_loop, string_to_name, string_to_name-strict}
use clarion.Name.Murmur.{murmur64, hash_name}
use clarion.Name.RoundTrip.{string_to_name_strict-name_to_string}
use clarion.Name.Collide.{hash_name-name_to_string, murmur64_collides}

-- "eosio"
eosio : string_to_name_strict (b'e' ∷ b'o' ∷ b's' ∷ b'i' ∷ b'o' ∷ []) ≡ (true, 6138663577826885632)
unfolding string_to_name_strict strict_loop char_to_name_digit_strict
eosio = refl

eosio_printed : name_to_string 6138663577826885632 ≡ b'e' ∷ b'o' ∷ b's' ∷ b'i' ∷ b'o' ∷ []
unfolding name_to_string print_loop charmap strip cut_dot
eosio_printed = refl

-- A refused text leaves what stands before the refused character.
refused : string_to_name_strict (b'a' ∷ b'!' ∷ []) ≡ (false, 6 * 2 ^ 59)
unfolding string_to_name_strict strict_loop char_to_name_digit_strict
refused = refl

string_to_name_strict-name_to_string_example :
    string_to_name_strict (name_to_string 6138663577826885632) ≡ (true, 6138663577826885632)
string_to_name_strict-name_to_string_example =
    string_to_name_strict-name_to_string 6138663577826885632 (omega arith)

hash_name-name_to_string_example :
    hash_name (name_to_string 6138663577826885632) ≡ 6138663577826885632
hash_name-name_to_string_example = hash_name-name_to_string 6138663577826885632 (omega arith)

-- "Transfer" and "transfer".
murmur64_collides_example :
    murmur64 (b'T' ∷ b'r' ∷ b'a' ∷ b'n' ∷ b's' ∷ b'f' ∷ b'e' ∷ b'r' ∷ [])
    ≡ murmur64 (b't' ∷ b'r' ∷ b'a' ∷ b'n' ∷ b's' ∷ b'f' ∷ b'e' ∷ b'r' ∷ [])
murmur64_collides_example = murmur64_collides b'T' b't' b'r' b'a' b'n' b's' b'f' b'e' b'r' []

-- The lenient reader passes over what the strict one refuses.
shrugged : string_to_name (b'a' ∷ b'!' ∷ []) ≡ 6 * 2 ^ 59
unfolding string_to_name lenient_loop char_to_name_digit
shrugged = refl

string_to_name-strict_example :
    string_to_name (b'e' ∷ b'o' ∷ b's' ∷ b'i' ∷ b'o' ∷ []) ≡ 6138663577826885632
string_to_name-strict_example =
    string_to_name-strict (b'e' ∷ b'o' ∷ b's' ∷ b'i' ∷ b'o' ∷ []) 6138663577826885632 eosio
