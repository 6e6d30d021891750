-- ===== src/Stream/Outcome.antt =====
-- `enum class stream_error`, its category's `message`, and the result of code that may throw.
use Prim.Native.String.{String}
use clarion.Prelude.{ℕ, ◌≡◌, ◌<◌, refl, List}

pub data StreamError : Type 0 where
  no_error overrun underrun doubleread float_error varuint_too_big : StreamError
  invalid_varuint_encoding bad_variant_index invalid_asset_format : StreamError
  array_size_mismatch invalid_name_char invalid_name_char13 : StreamError
  name_too_long json_writer_error : StreamError

-- `doubleread` has no case of its own and falls under `default`.
unfoldable pub message : StreamError → String
message no_error = "No error"
message overrun = "Stream overrun"
message underrun = "Stream underrun"
message float_error = "Float error"
message varuint_too_big = "Varuint too big"
message invalid_varuint_encoding = "Invalid varuint encoding"
message bad_variant_index = "Bad variant index"
message invalid_asset_format = "Invalid asset format"
message array_size_mismatch = "T[] size and unpacked size don't match"
message invalid_name_char = "character is not in allowed character set for names"
message invalid_name_char13 = "thirteenth character in name cannot be a letter that comes after j"
message name_too_long = "string is too long to be a valid name"
message json_writer_error = "Error writing json"
message doubleread = "unknown"

-- `err e` is `throw_error(e)`. `length_error` is what the standard library throws when a container is
-- made longer than it can be, `invalid_tuple_index` what tuple_get
-- throws, an error of another category. `stuck` is no outcome of the program: a loop's fuel
-- ran out, memory is touched that is not the program's, or the code does not compile.
pub data Result {ℓ} (A : Type ℓ) : Type ℓ where
  ok : A → Result A
  err : StreamError → Result A
  length_error : Result A
  invalid_tuple_index : Result A
  stuck : Result A

infixl 5 ◌>>=◌
abbrev pub ◌>>=◌ {ℓ κ} : {A : Type ℓ} {B : Type κ} → Result A → (A → Result B) → Result B
ok a >>= f = f a
err e >>= f = err e
length_error >>= f = length_error
invalid_tuple_index >>= f = invalid_tuple_index
stuck >>= f = stuck

pub >>=-assoc {ℓ κ ι} :
    {A : Type ℓ} {B : Type κ} {C : Type ι} (m : Result A) (f : A → Result B) (g : B → Result C)
    → ((m >>= f) >>= g) ≡ (m >>= λ a. f a >>= g)
>>=-assoc (ok a) f g = refl
>>=-assoc (err e) f g = refl
>>=-assoc length_error f g = refl
>>=-assoc invalid_tuple_index f g = refl
>>=-assoc stuck f g = refl

pub >>=-ok {ℓ} : {A : Type ℓ} (m : Result A) → (m >>= ok) ≡ m
>>=-ok (ok a) = refl
>>=-ok (err e) = refl
>>=-ok length_error = refl
>>=-ok invalid_tuple_index = refl
>>=-ok stuck = refl

pub ok_injective {ℓ} : {A : Type ℓ} {a b : A} → ok a ≡ ok b → a ≡ b
ok_injective e = cc

-- What a sequence returns, its second step returns for what the first one returned.
pub >>=-returns {ℓ κ} :
    {A : Type ℓ} {B : Type κ} (m : Result A) (f : A → Result B) (b : B)
    → (m >>= f) ≡ ok b
    → (a : A) × (m ≡ ok a) × (f a ≡ ok b)
>>=-returns (ok a) f b e = (a, refl, e)
>>=-returns (err x) f b e = cc
>>=-returns length_error f b e = cc
>>=-returns invalid_tuple_index f b e = cc
>>=-returns stuck f b e = cc

abbrev pub Bytes : Type 0
Bytes = List ℕ

abbrev pub IsByte : ℕ → Type 0
IsByte b = b < 256
