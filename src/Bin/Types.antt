-- ===== src/Bin/Types.antt =====
-- The serializable C++ types, and the values of each.
use clarion.Prelude.{
  ℕ, suc, ◌*◌, ◌^◌, ◌<◌, ◌≡◌, List, length, All, Option, none, some, ◌⊎◌, inl, inr,
}
use clarion.Stream.{Bytes}

-- `scalar n` is an arithmetic type or a scoped enumeration of `n` bytes, given by its bit pattern;
-- `pod_vec n` and `pod_arr count n` are std::vector<T> and T[count] of such a T; `vec` is a std::vector of
-- any other type; `text` is a std::string or a std::string_view; `arr` is std::array; `tuple` is a
-- std::tuple, a std::pair or a reflected struct.
mutual
  pub data Ty : Type 0 where
    scalar : ℕ → Ty
    text : Ty
    pod_vec : ℕ → Ty
    pod_arr : ℕ → ℕ → Ty
    vec : Ty → Ty
    opt : Ty → Ty
    arr : ℕ → Ty → Ty
    tuple : Tys → Ty
    variant : Tys → Ty

  pub data Tys : Type 0 where
    nil : Tys
    cons : Ty → Tys → Tys

abbrev mutual
  pub El : Ty → Type 0
  El (scalar n) = ℕ
  El text = Bytes
  El (pod_vec n) = List ℕ
  El (pod_arr count n) = List ℕ
  El (vec t) = List (El t)
  El (opt t) = Option (El t)
  El (arr count t) = List (El t)
  El (tuple ts) = Els ts
  El (variant ts) = Alt ts

  -- The members of a tuple.
  pub Els : Tys → Type 0
  Els nil = Unit {0}
  Els (cons t ts) = El t × Els ts

  -- The alternative that a variant holds.
  pub Alt : Tys → Type 0
  Alt nil = ⊥
  Alt (cons t ts) = El t ⊎ Alt ts

-- `std::variant::index`.
abbrev pub index : (ts : Tys) → Alt ts → ℕ
index nil v = absurd v
index (cons t ts) (inl v) = 0
index (cons t ts) (inr v) = suc (index ts v)

-- What a value in memory satisfies: a scalar fits its bytes, an array has its length, a container's size
-- fits the 32 bits that are written of it, and the block of a pod vector fits the address space.
abbrev mutual
  pub IsValid : (t : Ty) → El t → Type 0
  IsValid (scalar n) v = v < 256 ^ n
  IsValid text v = length v < 2 ^ 32
  IsValid (pod_vec n) v =
      (length v < 2 ^ 32) × (0 < n) × (length v * n < 2 ^ 63) × All (λ x. x < 256 ^ n) v
  IsValid (pod_arr count n) v = (length v ≡ count) × (count < 2 ^ 32) × All (λ x. x < 256 ^ n) v
  IsValid (vec t) v = (length v < 2 ^ 32) × All (IsValid t) v
  IsValid (opt t) none = Unit {0}
  IsValid (opt t) (some v) = IsValid t v
  IsValid (arr count t) v = (length v ≡ count) × All (IsValid t) v
  IsValid (tuple ts) v = AreValid ts v
  IsValid (variant ts) v = (index ts v < 2 ^ 32) × AltIsValid ts v

  pub AreValid : (ts : Tys) → Els ts → Type 0
  AreValid nil v = Unit {0}
  AreValid (cons t ts) v = IsValid t v.0 × AreValid ts v.1

  pub AltIsValid : (ts : Tys) → Alt ts → Type 0
  AltIsValid nil v = ⊥
  AltIsValid (cons t ts) (inl v) = IsValid t v
  AltIsValid (cons t ts) (inr v) = AltIsValid ts v
