-- ===== src/Proto/Types.antt =====
-- The C++ types that can be written as protobuf, the values of each, and their wire types.
use clarion.Prelude.{ℕ, List, [], ◌∷◌, Bool, true, false, ◌⊎◌, inl, ◌==◌, if◌then◌else◌}
use clarion.Stream.{Bytes}

-- `varint signed n` is an integer type of `n` bytes that is sent as a varuint32, given by its bit pattern:
-- uint8_t, int8_t, char, uint16_t and int16_t. `varuint` is varuint32, which is sent in the same way but read
-- as what reflection makes of it, a struct whose one member `value` is a uint32_t. `flag` is
-- bool, `fixed n` an arithmetic type of four or eight bytes, `text` std::string and clio::bytes. `packed n`
-- is a vector of an arithmetic type of `n` bytes, `vec` a vector of another type. `strct number` is a
-- reflected struct, whose data members have the field numbers `number 0`, `number 1` and so on.
mutual
  pub data Ty : Type 0 where
    varint : Bool → ℕ → Ty
    varuint : Ty
    flag : Ty
    fixed : ℕ → Ty
    text : Ty
    packed : ℕ → Ty
    vec : Ty → Ty
    strct : (ℕ → ℕ) → Tys → Ty
    tuple : Tys → Ty
    variant : Ty → Tys → Ty

  pub data Tys : Type 0 where
    nil : Tys
    cons : Ty → Tys → Tys

abbrev mutual
  pub El : Ty → Type 0
  El (varint signed n) = ℕ
  El varuint = ℕ
  El flag = Bool
  El (fixed n) = ℕ
  El text = Bytes
  El (packed n) = List ℕ
  El (vec t) = List (El t)
  El (strct number ts) = Els ts
  El (tuple ts) = Els ts
  El (variant t ts) = El t ⊎ Alt ts

  pub Els : Tys → Type 0
  Els nil = Unit {0}
  Els (cons t ts) = El t × Els ts

  pub Alt : Tys → Type 0
  Alt nil = ⊥
  Alt (cons t ts) = El t ⊎ Alt ts

unfoldable pub wire_type : Ty → ℕ
wire_type (varint signed n) = 0
wire_type varuint = 0
wire_type flag = 0
wire_type (fixed n) = if n == 4 then 5 else 1
wire_type text = 2
wire_type (packed n) = 2
wire_type (vec t) = 2
wire_type (strct number ts) = 2
wire_type (tuple ts) = 2
wire_type (variant t ts) = 2

-- `T()`.
unfoldable mutual
  pub initial : (t : Ty) → El t
  initial (varint signed n) = 0
  initial varuint = 0
  initial flag = false
  initial (fixed n) = 0
  initial text = []
  initial (packed n) = []
  initial (vec t) = []
  initial (strct number ts) = initial_members ts
  initial (tuple ts) = initial_members ts
  initial (variant t ts) = inl (initial t)

  pub initial_members : (ts : Tys) → Els ts
  initial_members nil = tt
  initial_members (cons t ts) = (initial t, initial_members ts)

-- A vector with no elements.
unfoldable pub is_empty : (t : Ty) → El t → Bool
is_empty (varint signed n) v = false
is_empty varuint v = false
is_empty flag v = false
is_empty (fixed n) v = false
is_empty text v = false
is_empty (packed n) [] = true
is_empty (packed n) (x ∷ v) = false
is_empty (vec t) [] = true
is_empty (vec t) (x ∷ v) = false
is_empty (strct number ts) v = false
is_empty (tuple ts) v = false
is_empty (variant t ts) v = false
