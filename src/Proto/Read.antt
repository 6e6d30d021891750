-- ===== src/Proto/Read.antt =====
-- from_protobuf.hpp, from an input stream, and `tuple_get` of tuple.hpp.
use Prim.Native.Nat.{bit_and}
use clarion.Prelude.{
  ℕ, zero, suc, ◌*◌, ◌/◌, ◌%◌, ◌^◌, List, [], ◌∷◌, ◌++◌, length, take, not, Option, none, some, inl,
  inr, ltb, ◌==◌, if◌then◌else◌,
}
use mathlib.Core.Option.{map}
use clarion.Stream.{Result, ok, err, stuck, overrun, invalid_tuple_index, Bytes, ◌>>=◌}
use clarion.Stream.Input.{InputStream, read, skip}
use clarion.Stream.Memory.{of_le_bytes, of_block}
use clarion.Varint.Read.{varuint32_from_bin}
use clarion.Proto.Types.{Ty, Tys, El, Els, Alt, initial}
use clarion.Proto.Types.{
  varint, varuint, flag, fixed, text, packed, vec, strct, tuple, variant, nil, cons,
}

abbrev pub Reader : Type 0 → Type 0
Reader A = InputStream → Result (A × InputStream)

-- A wire type with no case of its own skips nothing.
unfoldable pub skip_member : ℕ → InputStream → Result InputStream
skip_member wire s =
    if wire == 0
    then (varuint32_from_bin s >>= λ r. ok r.1)
    else if wire == 1
    then skip 8 s
    else if wire == 2
    then (varuint32_from_bin s >>= λ r. skip r.0 r.1)
    else if wire == 5
    then skip 4 s
    else ok s

-- `uint8_t(key) & 0x07` and `key >> 3`.
unfoldable pub key_wire : ℕ → ℕ
key_wire key = bit_and (key % 2 ^ 8) 0x07

unfoldable pub key_number : ℕ → ℕ
key_number key = key / 2 ^ 3

unfoldable pub read_sized : Reader Bytes
read_sized s = varuint32_from_bin s >>= λ r. read r.0 r.1

-- An object in an object: `objstream` is the next `size` bytes, and the stream goes on behind them.
unfoldable pub read_nested : {A : Type 0} → Reader A → Reader A
read_nested object s = do
  (size, s') ← varuint32_from_bin s
  if ltb (length s') size
      then err overrun
      else (do s'' ← skip size s'; (v, _) ← object (take size s'); ok (v, s''))

-- `size` bytes are read into `size / n` elements: `stuck` where these are fewer bytes.
unfoldable pub read_packed : ℕ → Reader (List ℕ)
read_packed n s = do
  (key, s1) ← varuint32_from_bin s
  if key_number key == 1
      then (do
        (size, s2) ← varuint32_from_bin s1
        (b, s3) ← read size s2
        if (size / n) * n == size then ok (of_block n (size / n) b, s3) else stuck)
      else (skip_member (key_wire key) s1 >>= λ s2. ok ([], s2))

-- `while( stream.remaining() )` with one field a round, on fuel for the rounds.
unfoldable pub read_loop : {A : Type 0} → (A → ℕ → ℕ → Reader A) → ℕ → A → Reader A
read_loop field fuel v [] = ok (v, [])
read_loop field zero v (b ∷ s) = stuck
read_loop field (suc fuel) v (b ∷ s) = do
  (key, s1) ← varuint32_from_bin (b ∷ s)
  (v', s2) ← field v (key_number key) (key_wire key) s1
  read_loop field fuel v' s2

-- As many rounds as there are bytes.
unfoldable pub read_fields : {A : Type 0} → (A → ℕ → ℕ → Reader A) → A → Reader A
read_fields field v s = read_loop field (length s) v s

unfoldable pub item_field : {A : Type 0} → Reader A → List A → ℕ → ℕ → Reader (List A)
item_field member v number wire s =
    if number == 1
    then (member s >>= λ r. ok (v ++ (r.0 ∷ []), r.1))
    else (skip_member wire s >>= λ s'. ok (v, s'))

-- What `reflect<T>::get` returns false for is skipped.
unfoldable pub get_or_skip : {A : Type 0} → Option (Reader A) → A → ℕ → Reader A
get_or_skip none v wire s = skip_member wire s >>= λ s'. ok (v, s')
get_or_skip (some f) v wire s = f s

-- `tuple_get` throws for an index that is not in the tuple.
unfoldable pub get_or_throw : {A : Type 0} → Option (Reader A) → Reader A
get_or_throw none s = invalid_tuple_index
get_or_throw (some f) s = f s

-- What is read into a part of `v`.
unfoldable pub into : {A B : Type 0} → (A → B) → Reader A → Reader B
into put f s = f s >>= λ r. ok (put r.0, r.1)

-- `set_variant` emplaces the alternative of index `field - 1`, which wraps around for the field 0, and an
-- unknown one resets the variant to `v`.
unfoldable pub read_alternative : {A : Type 0} → (ℕ → Option (Reader A)) → A → Reader A
read_alternative get v s = do
  (key, s1) ← varuint32_from_bin s
  get_or_skip (get (key_number key)) v (key_wire key) s1

-- What reflection makes of a varuint32: a struct whose member `value`, the field 1, is a uint32_t.
unfoldable pub read_varuint32 : ℕ → Reader ℕ
read_varuint32 v s =
    read_fields
      (λ w field wire.
        get_or_skip
          (if field == 1 then some (λ s'. read 4 s' >>= λ r. ok (of_le_bytes r.0, r.1)) else none) w
          wire)
      v s

unfoldable mutual
  pub from_protobuf_member : (t : Ty) → El t → Reader (El t)
  from_protobuf_member (varint signed n) v s = varuint32_from_bin s >>= λ r. ok (r.0 % 256 ^ n, r.1)
  from_protobuf_member varuint v s = read_nested (read_varuint32 v) s
  from_protobuf_member flag v s = varuint32_from_bin s >>= λ r. ok (not (r.0 == 0), r.1)
  from_protobuf_member (fixed n) v s = read n s >>= λ r. ok (of_le_bytes r.0, r.1)
  from_protobuf_member text v s = read_sized s
  from_protobuf_member (packed n) v s = read_nested (read_packed n) s
  from_protobuf_member (vec t) v s =
      read_nested (read_fields (item_field (from_protobuf_member t (initial t))) []) s
  from_protobuf_member (strct number ts) v s =
      read_nested
        (read_fields (λ w field wire. get_or_skip (get_member ts w number field) w wire) v) s
  from_protobuf_member (tuple ts) v s =
      read_nested (read_fields (λ w field wire. get_or_throw (get_member ts w suc field)) v) s
  from_protobuf_member (variant t ts) v s =
      read_nested
        (read_alternative
          (λ field.
            if field == 1
            then some (into inl (from_protobuf_member t (initial t)))
            else map (into inr) (get_alternative ts 2 field))
          (inl (initial t)))
        s

  -- The member with the number `field`, read in place.
  pub get_member : (ts : Tys) → Els ts → (ℕ → ℕ) → ℕ → Option (Reader (Els ts))
  get_member nil v number field = none
  get_member (cons t ts) v number field =
      if field == number 0
      then some (into (λ x. (x, v.1)) (from_protobuf_member t v.0))
      else map (into (λ w. (v.0, w))) (get_member ts v.1 (λ i. number (suc i)) field)

  -- The alternative with the number `field`, where the first one has the number `first`.
  pub get_alternative : (ts : Tys) → ℕ → ℕ → Option (Reader (Alt ts))
  get_alternative nil first field = none
  get_alternative (cons t ts) first field =
      if field == first
      then some (into inl (from_protobuf_member t (initial t)))
      else map (into inr) (get_alternative ts (suc first) field)

-- The overloads of `from_protobuf_object`; there is none for the other types.
unfoldable pub from_protobuf_object : (t : Ty) → El t → Reader (El t)
from_protobuf_object (varint signed n) v s = stuck
from_protobuf_object varuint v s = read_varuint32 v s
from_protobuf_object flag v s = stuck
from_protobuf_object (fixed n) v s = stuck
from_protobuf_object text v s = stuck
from_protobuf_object (packed n) v s = read_packed n s
from_protobuf_object (vec t) v s =
    read_fields (item_field (from_protobuf_member t (initial t))) [] s
from_protobuf_object (strct number ts) v s =
    read_fields (λ w field wire. get_or_skip (get_member ts w number field) w wire) v s
from_protobuf_object (tuple ts) v s =
    read_fields (λ w field wire. get_or_throw (get_member ts w suc field)) v s
from_protobuf_object (variant t ts) v s =
    read_alternative
      (λ field.
        if field == 1
        then some (into inl (from_protobuf_member t (initial t)))
        else map (into inr) (get_alternative ts 2 field))
      (inl (initial t)) s

-- `from_protobuf<T>(in)`, where `tmp` is what `T tmp;` leaves in the object.
unfoldable pub from_protobuf : (t : Ty) → El t → Bytes → Result (El t)
from_protobuf t tmp s = from_protobuf_object t tmp s >>= λ r. ok r.0
