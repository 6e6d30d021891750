-- ===== src/Frac/Types.antt =====
-- The C++ types that can be packed, what the templates ask of a type, and the values of each.
use clarion.Prelude.{
  ℕ, suc, ◌+◌, ◌%◌, ◌^◌, List, Bool, true, false, ◌&&◌, ◌||◌, not, Option, ◌⊎◌, inl, inr,
  if◌then◌else◌,
}
use clarion.Stream.{Bytes}

-- `scalar n` is an arithmetic type of `n` bytes, given by its bit pattern; `text` is std::string; `vec`,
-- `opt` and `variant` are the standard library's. `strct final dense` is a reflected struct: whether it is
-- declared final, and whether it can be copied with its reflected members one behind the other from its
-- first byte to its last.
mutual
  pub data FracTy : Type 0 where
    scalar : ℕ → FracTy
    text : FracTy
    vec : FracTy → FracTy
    opt : FracTy → FracTy
    variant : FracTys → FracTy
    strct : Bool → Bool → FracTys → FracTy

  pub data FracTys : Type 0 where
    nil : FracTys
    cons : FracTy → FracTys → FracTys

unfoldable mutual
  pub can_memcpy : FracTy → Bool
  can_memcpy (scalar n) = true
  can_memcpy text = false
  can_memcpy (vec t) = false
  can_memcpy (opt t) = false
  can_memcpy (variant ts) = false
  can_memcpy (strct final dense ts) = final && dense && all_memcpy ts

  pub all_memcpy : FracTys → Bool
  all_memcpy nil = true
  all_memcpy (cons t ts) = can_memcpy t && all_memcpy ts

unfoldable mutual
  pub is_fixed_structure : FracTy → Bool
  is_fixed_structure (scalar n) = true
  is_fixed_structure text = true
  is_fixed_structure (vec t) = true
  is_fixed_structure (opt t) = true
  is_fixed_structure (variant ts) = false
  is_fixed_structure (strct final dense ts) = final && (dense && all_memcpy ts || all_fixed ts)

  pub all_fixed : FracTys → Bool
  all_fixed nil = true
  all_fixed (cons t ts) = is_fixed_structure t && all_fixed ts

unfoldable pub is_ext_structure : FracTy → Bool
is_ext_structure t = not (is_fixed_structure t)

unfoldable mutual
  pub may_use_heap : FracTy → Bool
  may_use_heap (scalar n) = false
  may_use_heap text = true
  may_use_heap (vec t) = true
  may_use_heap (opt t) = true
  may_use_heap (variant ts) = true
  may_use_heap (strct final dense ts) =
      if not final then true else if dense && all_memcpy ts then false else any_heap ts

  pub any_heap : FracTys → Bool
  any_heap nil = false
  any_heap (cons t ts) = may_use_heap t || any_heap ts

-- The bytes of a value in place, and of a member: an offset, or the value itself.
unfoldable mutual
  pub width : FracTy → ℕ
  width (scalar n) = n
  width text = 4
  width (vec t) = 4
  width (opt t) = 4
  width (variant ts) = 4
  width (strct final dense ts) = widths ts

  pub widths : FracTys → ℕ
  widths nil = 0
  widths (cons t ts) = (if may_use_heap t then 4 else width t) + widths ts

-- The sum is a uint16_t.
unfoldable pub fracpack_fixed_size : FracTy → ℕ
fracpack_fixed_size t = width t % 2 ^ 16

abbrev mutual
  pub El : FracTy → Type 0
  El (scalar n) = ℕ
  El text = Bytes
  El (vec t) = List (El t)
  El (opt t) = Option (El t)
  El (variant ts) = Alt ts
  El (strct final dense ts) = Els ts

  pub Els : FracTys → Type 0
  Els nil = Unit {0}
  Els (cons t ts) = El t × Els ts

  pub Alt : FracTys → Type 0
  Alt nil = ⊥
  Alt (cons t ts) = El t ⊎ Alt ts

-- `std::variant::index`.
abbrev pub index : (ts : FracTys) → Alt ts → ℕ
index nil v = absurd v
index (cons t ts) (inl v) = 0
index (cons t ts) (inr v) = suc (index ts v)
