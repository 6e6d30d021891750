-- ===== src/Frac/Size.antt =====
-- `fracpack_size`: `fracpack` to a `size_stream`, which keeps nothing of what is written.
use clarion.Prelude.{
  ℕ, ◌+◌, ◌*◌, ◌%◌, ◌^◌, List, [], ◌∷◌, length, Bool, none, some, inl, inr, if◌then◌else◌,
}
use clarion.Frac.Types.{
  FracTy, FracTys, El, Els, Alt, can_memcpy, may_use_heap, is_ext_structure, fracpack_fixed_size,
}
use clarion.Frac.Types.{scalar, text, vec, opt, variant, strct, nil, cons}
use clarion.Frac.Write.{is_container}

-- `start_heap += fracpack_size(mem)`, with a uint16_t.
unfoldable pub size_on_heap : ℕ → ℕ → ℕ
size_on_heap heapsize start_heap = (start_heap + heapsize) % 2 ^ 16

unfoldable pub size_sized : ℕ → ℕ
size_sized s = (s + 4) % 2 ^ 32

unfoldable pub size_items {ℓ} : {A : Type ℓ} → (A → ℕ → ℕ) → List A → ℕ → ℕ
size_items f [] h = h
size_items f (x ∷ xs) h = size_items f xs (f x h)

unfoldable pub size_vec {ℓ} : {A : Type ℓ} → Bool → ℕ → (A → ℕ → ℕ) → List A → ℕ
size_vec copied fix_size member v =
    if copied
    then size_sized (length v * fix_size % 2 ^ 32)
    else size_items member v ((length v * 4 % 2 ^ 32 + 4) % 2 ^ 16)

unfoldable pub size_strct : FracTy → (ℕ → ℕ) → ℕ
size_strct t members =
    if can_memcpy t
    then fracpack_fixed_size t
    else if is_ext_structure t
    then members ((fracpack_fixed_size t + 2) % 2 ^ 16)
    else members (fracpack_fixed_size t)

unfoldable mutual
  pub fracpack_size : (t : FracTy) → El t → ℕ
  fracpack_size (scalar n) v = n
  fracpack_size text v = size_sized (length v % 2 ^ 32)
  fracpack_size (vec t) v = size_vec (can_memcpy t) (fracpack_fixed_size t) (member_size t) v
  fracpack_size (opt t) v = 0
  fracpack_size (variant ts) v = (1 + alternative_size ts v) % 2 ^ 32
  fracpack_size (strct final dense ts) v = size_strct (strct final dense ts) (members_size ts v)

  pub member_size : (t : FracTy) → El t → ℕ → ℕ
  member_size (scalar n) v h = h
  member_size text [] h = h
  member_size text (c ∷ v) h = size_on_heap (size_sized (length (c ∷ v) % 2 ^ 32)) h
  member_size (vec t) [] h = h
  member_size (vec t) (x ∷ v) h =
      size_on_heap (size_vec (can_memcpy t) (fracpack_fixed_size t) (member_size t) (x ∷ v)) h
  member_size (opt t) none h = h
  member_size (opt t) (some v) h =
      if is_container t then member_size t v h else size_on_heap (fracpack_size t v) h
  member_size (variant ts) v h = size_on_heap ((1 + alternative_size ts v) % 2 ^ 32) h
  member_size (strct final dense ts) v h =
      if may_use_heap (strct final dense ts)
      then size_on_heap (size_strct (strct final dense ts) (members_size ts v)) h
      else h

  pub members_size : (ts : FracTys) → Els ts → ℕ → ℕ
  members_size nil v h = h
  members_size (cons t ts) v h = members_size ts v.1 (member_size t v.0 h)

  pub alternative_size : (ts : FracTys) → Alt ts → ℕ
  alternative_size nil v = absurd v
  alternative_size (cons t ts) (inl v) = fracpack_size t v
  alternative_size (cons t ts) (inr v) = alternative_size ts v
