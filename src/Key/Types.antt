-- ===== src/Key/Types.antt =====
-- The C++ types that have keys, the values of each, and the order of the values.
use Prim.Native.Nat.{compare, Ordering}
use clarion.Prelude.{
  ℕ, suc, ◌/◌, ◌^◌, ◌<◌, ◌≡◌, List, [], ◌∷◌, length, All, Bool, true, false, Option, none, some,
  ◌⊎◌, inl, inr, ltb, leb, ◌%◌, if◌then◌else◌,
}
use clarion.Stream.{Bytes}

-- `flag` is bool; `byte signed` an integer or scoped enumeration of one byte and `integer signed n` one of
-- `n` bytes, given by their bit patterns; `float double` is double or float, by its bit pattern, and `text` is a std::string or a std::string_view; `vec` and `arr` are
-- std::vector and std::array; `tuple` is a std::tuple, a std::pair or a reflected struct.
mutual
  pub data KeyTy : Type 0 where
    flag : KeyTy
    byte : Bool → KeyTy
    integer : Bool → ℕ → KeyTy
    float : Bool → KeyTy
    text : KeyTy
    vec : KeyTy → KeyTy
    opt : KeyTy → KeyTy
    arr : ℕ → KeyTy → KeyTy
    tuple : KeyTys → KeyTy
    variant : KeyTys → KeyTy

  pub data KeyTys : Type 0 where
    nil : KeyTys
    cons : KeyTy → KeyTys → KeyTys

abbrev mutual
  pub El : KeyTy → Type 0
  El flag = Bool
  El (byte signed) = ℕ
  El (integer signed n) = ℕ
  El (float double) = ℕ
  El text = Bytes
  El (vec t) = List (El t)
  El (opt t) = Option (El t)
  El (arr count t) = List (El t)
  El (tuple ts) = Els ts
  El (variant ts) = Alt ts

  pub Els : KeyTys → Type 0
  Els nil = Unit {0}
  Els (cons t ts) = El t × Els ts

  pub Alt : KeyTys → Type 0
  Alt nil = ⊥
  Alt (cons t ts) = El t ⊎ Alt ts

-- `std::variant::index`.
abbrev pub index : (ts : KeyTys) → Alt ts → ℕ
index nil v = absurd v
index (cons t ts) (inl v) = 0
index (cons t ts) (inr v) = suc (index ts v)

-- The second comparison decides where the first finds no difference.
abbrev pub also : Ordering → Ordering → Ordering
also Ordering.lt o = Ordering.lt
also Ordering.eq o = o
also Ordering.gt o = Ordering.gt

-- Lexicographic order.
abbrev pub compare_list {ℓ} : {A : Type ℓ} → (A → A → Ordering) → List A → List A → Ordering
compare_list f [] [] = Ordering.eq
compare_list f [] (y ∷ ys) = Ordering.lt
compare_list f (x ∷ xs) [] = Ordering.gt
compare_list f (x ∷ xs) (y ∷ ys) = also (f x y) (compare_list f xs ys)

-- `none` comes first.
abbrev pub compare_option {ℓ} : {A : Type ℓ} → (A → A → Ordering) → Option A → Option A → Ordering
compare_option f none none = Ordering.eq
compare_option f none (some y) = Ordering.lt
compare_option f (some x) none = Ordering.gt
compare_option f (some x) (some y) = f x y

abbrev pub compare_bytes : Bytes → Bytes → Ordering
compare_bytes a b = compare_list compare a b

abbrev pub compare_bool : Bool → Bool → Ordering
compare_bool false false = Ordering.eq
compare_bool false true = Ordering.lt
compare_bool true false = Ordering.gt
compare_bool true true = Ordering.eq

-- Two's complement numbers of `n` bytes by their bit patterns: the negative ones come first.
abbrev pub compare_int : Bool → ℕ → ℕ → ℕ → Ordering
compare_int false n v w = compare v w
compare_int true n v w =
    also (compare_bool (ltb v (256 ^ n / 2)) (ltb w (256 ^ n / 2))) (compare v w)

abbrev pub float_width : Bool → ℕ
float_width double = if double then 8 else 4

-- A number of sign and magnitude: `half` is the pattern of the negative zero, which is not below zero.
-- (A NaN, which C++ leaves unordered, stands where its bit pattern puts it.)
abbrev pub compare_float : ℕ → ℕ → ℕ → Ordering
compare_float half v w =
    also (compare_bool (leb v half) (leb w half))
      (if leb v half then compare (v % half) (w % half) else compare (w % half) (v % half))

-- The order that C++ gives the values of a type, made total: C++ leaves a NaN unordered, and here it stands where
-- its bit pattern puts it, before or behind all other numbers by its sign.
abbrev mutual
  pub compare_values : (t : KeyTy) → El t → El t → Ordering
  compare_values flag v w = compare_bool v w
  compare_values (byte signed) v w = compare_int signed 1 v w
  compare_values (integer signed n) v w = compare_int signed n v w
  compare_values (float double) v w = compare_float (256 ^ float_width double / 2) v w
  compare_values text v w = compare_bytes v w
  compare_values (vec t) v w = compare_list (compare_values t) v w
  compare_values (opt t) v w = compare_option (compare_values t) v w
  compare_values (arr count t) v w = compare_list (compare_values t) v w
  compare_values (tuple ts) v w = compare_tuples ts v w
  compare_values (variant ts) v w = compare_alts ts v w

  pub compare_tuples : (ts : KeyTys) → Els ts → Els ts → Ordering
  compare_tuples nil v w = Ordering.eq
  compare_tuples (cons t ts) v w = also (compare_values t v.0 w.0) (compare_tuples ts v.1 w.1)

  -- The earlier alternative comes first.
  pub compare_alts : (ts : KeyTys) → Alt ts → Alt ts → Ordering
  compare_alts nil v w = Ordering.eq
  compare_alts (cons t ts) (inl v) (inl w) = compare_values t v w
  compare_alts (cons t ts) (inl v) (inr w) = Ordering.lt
  compare_alts (cons t ts) (inr v) (inl w) = Ordering.gt
  compare_alts (cons t ts) (inr v) (inr w) = compare_alts ts v w

abbrev pub AllOption {ℓ} : {A : Type ℓ} → (A → Type 0) → Option A → Type 0
AllOption P none = Unit {0}
AllOption P (some v) = P v

-- What a value in memory satisfies: a number fits its bytes, and an array has its length.
abbrev mutual
  pub IsValid : (t : KeyTy) → El t → Type 0
  IsValid flag v = Unit {0}
  IsValid (byte signed) v = v < 256
  IsValid (integer signed n) v = (1 < n) × (v < 256 ^ n)
  IsValid (float double) v = v < 256 ^ float_width double
  IsValid text v = Unit {0}
  IsValid (vec t) v = All (IsValid t) v
  IsValid (opt t) v = AllOption (IsValid t) v
  IsValid (arr count t) v = (length v ≡ count) × All (IsValid t) v
  IsValid (tuple ts) v = AreValid ts v
  IsValid (variant ts) v = (index ts v < 2 ^ 32) × AltIsValid ts v

  pub AreValid : (ts : KeyTys) → Els ts → Type 0
  AreValid nil v = Unit {0}
  AreValid (cons t ts) v = IsValid t v.0 × AreValid ts v.1

  pub AltIsValid : (ts : KeyTys) → Alt ts → Type 0
  AltIsValid nil v = ⊥
  AltIsValid (cons t ts) (inl v) = IsValid t v
  AltIsValid (cons t ts) (inr v) = AltIsValid ts v
