-- ===== src/Proto/Encode.antt =====
-- The protobuf of a value, with no stream, and when it can be sent.
use clarion.Prelude.{
  ℕ, zero, suc, ◌+◌, ◌*◌, ◌/◌, ◌^◌, ◌<◌, ◌≡◌, List, [], ◌∷◌, ◌++◌, length, ◌⊎◌, inl, inr, Bool,
  true, false, ◌==◌, if◌then◌else◌, All,
}
use clarion.Stream.{Bytes}
use clarion.Stream.Memory.{le_bytes, block}
use clarion.Varint.Groups.{varuint_bytes}
use clarion.Proto.Types.{Ty, Tys, El, Els, Alt, wire_type, is_empty}
use clarion.Proto.Types.{
  varint, varuint, flag, fixed, text, packed, vec, strct, tuple, variant, nil, cons,
}

abbrev pub sized : Bytes → Bytes
sized b = varuint_bytes (length b) ++ b

abbrev pub key_bytes : ℕ → ℕ → Bytes
key_bytes field wire = varuint_bytes (field * 8 + wire)

abbrev pub field_bytes : ℕ → ℕ → Bool → Bytes → Bytes
field_bytes field wire empty member = if empty then [] else key_bytes field wire ++ member

abbrev pub items_bytes {ℓ} : {A : Type ℓ} → (A → Bytes) → List A → Bytes
items_bytes f [] = []
items_bytes f (x ∷ v) = key_bytes 1 2 ++ (f x ++ items_bytes f v)

abbrev pub packed_bytes : ℕ → List ℕ → Bytes
packed_bytes n v = key_bytes 1 2 ++ sized (block n v)

unfoldable mutual
  pub member_bytes : (t : Ty) → El t → Bytes
  member_bytes (varint signed n) v = varuint_bytes v
  member_bytes varuint v = varuint_bytes v
  member_bytes flag v = varuint_bytes (if v then 1 else 0)
  member_bytes (fixed n) v = le_bytes n v
  member_bytes text v = sized v
  member_bytes (packed n) v = sized (packed_bytes n v)
  member_bytes (vec t) v = sized (items_bytes (member_bytes t) v)
  member_bytes (strct number ts) v = sized (fields_bytes ts v number)
  member_bytes (tuple ts) v = sized (fields_bytes ts v suc)
  member_bytes (variant t ts) (inl v) =
      sized (field_bytes 1 (wire_type t) (is_empty t v) (member_bytes t v))
  member_bytes (variant t ts) (inr v) = sized (alternative_bytes ts v 2)

  pub fields_bytes : (ts : Tys) → Els ts → (ℕ → ℕ) → Bytes
  fields_bytes nil v number = []
  fields_bytes (cons t ts) v number =
      field_bytes (number 0) (wire_type t) (is_empty t v.0) (member_bytes t v.0)
      ++ fields_bytes ts v.1 (λ i. number (suc i))

  pub alternative_bytes : (ts : Tys) → Alt ts → ℕ → Bytes
  alternative_bytes nil v field = absurd v
  alternative_bytes (cons t ts) (inl v) field =
      field_bytes field (wire_type t) (is_empty t v) (member_bytes t v)
  alternative_bytes (cons t ts) (inr v) field = alternative_bytes ts v (suc field)

-- An object alone; the types that are no objects have none.
unfoldable pub object_bytes : (t : Ty) → El t → Bytes
object_bytes (varint signed n) v = []
object_bytes varuint v = field_bytes 1 5 false (le_bytes 4 v)
object_bytes flag v = []
object_bytes (fixed n) v = []
object_bytes text v = []
object_bytes (packed n) v = packed_bytes n v
object_bytes (vec t) v = items_bytes (member_bytes t) v
object_bytes (strct number ts) v = fields_bytes ts v number
object_bytes (tuple ts) v = fields_bytes ts v suc
object_bytes (variant t ts) (inl v) = field_bytes 1 (wire_type t) (is_empty t v) (member_bytes t v)
object_bytes (variant t ts) (inr v) = alternative_bytes ts v 2

abbrev pub IsObject : Ty → Type 0
IsObject (varint signed n) = ⊥
IsObject varuint = Unit {0}
IsObject flag = ⊥
IsObject (fixed n) = ⊥
IsObject text = ⊥
IsObject (packed n) = Unit {0}
IsObject (vec t) = Unit {0}
IsObject (strct number ts) = Unit {0}
IsObject (tuple ts) = Unit {0}
IsObject (variant t ts) = Unit {0}

abbrev pub count : Tys → ℕ
count nil = 0
count (cons t ts) = suc (count ts)

-- `n` different field numbers that fit a key.
abbrev pub Numbered : (ℕ → ℕ) → ℕ → Type 0
Numbered number zero = Unit {0}
Numbered number (suc n) =
    (number 0 < 2 ^ 29)
    × ((i : ℕ) → i < n → (number 0 == number (suc i)) ≡ false)
    × Numbered (λ i. number (suc i)) n

-- Numbers that fit and differ, and arithmetic types of four or eight bytes.
abbrev mutual
  pub IsProto : Ty → Type 0
  IsProto (varint signed n) = Unit {0}
  IsProto varuint = Unit {0}
  IsProto flag = Unit {0}
  IsProto (fixed n) = (n ≡ 4) ⊎ (n ≡ 8)
  IsProto text = Unit {0}
  IsProto (packed n) = 0 < n
  IsProto (vec t) = IsProto t
  IsProto (strct number ts) = Numbered number (count ts) × AreProto ts
  IsProto (tuple ts) = (count ts < 2 ^ 29) × AreProto ts
  IsProto (variant t ts) = (count ts + 2 < 2 ^ 29) × IsProto t × AreProto ts

  pub AreProto : Tys → Type 0
  AreProto nil = Unit {0}
  AreProto (cons t ts) = IsProto t × AreProto ts

-- A value that can be sent: an integer that is sent as a varint is not negative and fits 32 bits,
-- a size fits 32 bits, and a variant does not hold an empty vector.
abbrev mutual
  pub IsValid : (t : Ty) → El t → Type 0
  IsValid (varint false n) v = (v < 256 ^ n) × (v < 2 ^ 32)
  IsValid (varint true n) v = (v < 256 ^ n / 2) × (v < 2 ^ 32)
  IsValid varuint v = v < 2 ^ 32
  IsValid flag v = Unit {0}
  IsValid (fixed n) v = v < 256 ^ n
  IsValid text v = length v < 2 ^ 32
  IsValid (packed n) v = All (λ x. x < 256 ^ n) v × (length (packed_bytes n v) < 2 ^ 32)
  IsValid (vec t) v = All (IsValid t) v × (length (items_bytes (member_bytes t) v) < 2 ^ 32)
  IsValid (strct number ts) v = AreValid ts v × (length (fields_bytes ts v number) < 2 ^ 32)
  IsValid (tuple ts) v = AreValid ts v × (length (fields_bytes ts v suc) < 2 ^ 32)
  IsValid (variant t ts) (inl v) =
      IsValid t v
      × (is_empty t v ≡ false)
      × (length (field_bytes 1 (wire_type t) (is_empty t v) (member_bytes t v)) < 2 ^ 32)
  IsValid (variant t ts) (inr v) =
      AlternativeIsValid ts v × (length (alternative_bytes ts v 2) < 2 ^ 32)

  pub AreValid : (ts : Tys) → Els ts → Type 0
  AreValid nil v = Unit {0}
  AreValid (cons t ts) v = IsValid t v.0 × AreValid ts v.1

  pub AlternativeIsValid : (ts : Tys) → Alt ts → Type 0
  AlternativeIsValid nil v = ⊥
  AlternativeIsValid (cons t ts) (inl v) = IsValid t v × (is_empty t v ≡ false)
  AlternativeIsValid (cons t ts) (inr v) = AlternativeIsValid ts v

-- Types whose members are read as they are written: none of them is a varuint32.
abbrev mutual
  pub ReadsBack : Ty → Type 0
  ReadsBack (varint signed n) = Unit {0}
  ReadsBack varuint = ⊥
  ReadsBack flag = Unit {0}
  ReadsBack (fixed n) = Unit {0}
  ReadsBack text = Unit {0}
  ReadsBack (packed n) = Unit {0}
  ReadsBack (vec t) = ReadsBack t
  ReadsBack (strct number ts) = AllReadBack ts
  ReadsBack (tuple ts) = AllReadBack ts
  ReadsBack (variant t ts) = ReadsBack t × AllReadBack ts

  pub AllReadBack : Tys → Type 0
  AllReadBack nil = Unit {0}
  AllReadBack (cons t ts) = ReadsBack t × AllReadBack ts

-- What an object may hold when it is read into: no vector of it has elements.
abbrev mutual
  pub IsFresh : (t : Ty) → El t → Type 0
  IsFresh (varint signed n) v = Unit {0}
  IsFresh varuint v = Unit {0}
  IsFresh flag v = Unit {0}
  IsFresh (fixed n) v = Unit {0}
  IsFresh text v = Unit {0}
  IsFresh (packed n) v = v ≡ []
  IsFresh (vec t) v = v ≡ []
  IsFresh (strct number ts) v = AreFresh ts v
  IsFresh (tuple ts) v = AreFresh ts v
  IsFresh (variant t ts) v = Unit {0}

  pub AreFresh : (ts : Tys) → Els ts → Type 0
  AreFresh nil v = Unit {0}
  AreFresh (cons t ts) v = IsFresh t v.0 × AreFresh ts v.1
