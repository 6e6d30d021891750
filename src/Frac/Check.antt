-- ===== src/Frac/Check.antt =====
-- `fraccheck` and `fraccheck_member` on a `check_input_stream`.
use clarion.Prelude.{ℕ, zero, suc, ◌+◌, ◌/◌, length, Bool, ltb, leb, if◌then◌else◌}
use clarion.Stream.{Result, ok, stuck, ◌>>=◌}
use clarion.Stream.Memory.{of_le_bytes}
use clarion.Stream.Input.{sub_stream}
use clarion.Stream.Check.{CheckInputStream, open_at, checkread, read}
use clarion.Frac.Types.{
  FracTy, FracTys, can_memcpy, may_use_heap, is_ext_structure, fracpack_fixed_size,
}
use clarion.Frac.Types.{scalar, text, vec, opt, variant, strct, nil, cons}

abbrev pub Checked : Type 0
Checked = Result CheckInputStream

unfoldable pub check_number : ℕ → CheckInputStream → Result (ℕ × CheckInputStream)
check_number n s = read n s >>= λ r. ok (of_le_bytes r.0, r.1)

-- The bytes of a string, and of a vector whose elements are copied.
unfoldable pub check_sized : CheckInputStream → Checked
check_sized s = do (size, s') ← check_number 4 s; if ltb 0 size then checkread size s' else ok s'

unfoldable pub check_items : (CheckInputStream → Checked) → ℕ → CheckInputStream → Checked
check_items f zero s = ok s
check_items f (suc n) s = f s >>= λ s'. check_items f n s'

unfoldable pub check_vec : Bool → (CheckInputStream → Checked) → CheckInputStream → Checked
check_vec copied member s =
    if copied then check_sized s else (check_number 4 s >>= λ r. check_items member (r.0 / 4) r.1)

unfoldable pub check_before_heap : ℕ → ℕ → CheckInputStream → Bool
check_before_heap start_heap opened s = ltb opened (start_heap + length s.rest)

unfoldable pub check_struct :
    Bool → ℕ → ((CheckInputStream → Bool) → CheckInputStream → Checked) → CheckInputStream → Checked
check_struct ext fix_size members s = do
  (start_heap, s') ← (if ext then check_number 2 s else ok (fix_size, s))
  members (check_before_heap start_heap (length s'.rest)) s'

unfoldable pub check_members_of :
    FracTy → ((CheckInputStream → Bool) → CheckInputStream → Checked) → CheckInputStream → Checked
check_members_of t members s =
    if can_memcpy t
    then checkread (fracpack_fixed_size t) s
    else check_struct (is_ext_structure t) (fracpack_fixed_size t) members s

-- The stream at the offset that was read at `s`; what is read through it counts for `s'`.
unfoldable pub check_at :
    (CheckInputStream → Checked) → ℕ → CheckInputStream → CheckInputStream → Checked
check_at f offset s s' = do
  w ← sub_stream offset s.rest
  insubstream ← f (open_at w)
  ok (record s' { total_read = s'.total_read + insubstream.total_read })

-- A string, a vector or an optional: offsets below 4 lead nowhere.
unfoldable pub check_far : (CheckInputStream → Checked) → CheckInputStream → Checked
check_far f s = do
  (offset, s') ← check_number 4 s
  if leb 4 offset then check_at f offset s s' else ok s'

unfoldable pub check_heap : (CheckInputStream → Checked) → CheckInputStream → Checked
check_heap f s = do (offset, s') ← check_number 4 s; check_at f offset s s'

unfoldable pub check_next : Bool → (CheckInputStream → Checked) → CheckInputStream → Checked
check_next more member s = if more then member s else ok s

-- There is no `fraccheck` of a variant, nor of an optional by itself: they do not compile.
unfoldable mutual
  pub fraccheck : FracTy → CheckInputStream → Checked
  fraccheck (scalar n) s = checkread n s
  fraccheck text s = check_sized s
  fraccheck (vec t) s = check_vec (can_memcpy t) (fraccheck_member t) s
  fraccheck (opt t) s = stuck
  fraccheck (variant ts) s = stuck
  fraccheck (strct final dense ts) s =
      check_members_of (strct final dense ts) (fraccheck_members ts) s

  pub fraccheck_member : FracTy → CheckInputStream → Checked
  fraccheck_member (scalar n) s = checkread n s
  fraccheck_member text s = check_far check_sized s
  fraccheck_member (vec t) s = check_far (check_vec (can_memcpy t) (fraccheck_member t)) s
  fraccheck_member (opt t) s = check_far (fraccheck t) s
  fraccheck_member (variant ts) s = stuck
  fraccheck_member (strct final dense ts) s =
      if may_use_heap (strct final dense ts)
      then check_heap (check_members_of (strct final dense ts) (fraccheck_members ts)) s
      else check_members_of (strct final dense ts) (fraccheck_members ts) s

  pub fraccheck_members : FracTys → (CheckInputStream → Bool) → CheckInputStream → Checked
  fraccheck_members nil more s = ok s
  fraccheck_members (cons t ts) more s = do
    s' ← check_next (more s) (fraccheck_member t) s
    fraccheck_members ts more s'
