-- ===== src/Frac/Pointer.antt =====
-- `frac_ptr`: an allocation that holds a size and the packed form of a value.
use clarion.Prelude.{
  ℕ, zero, suc, ◌+◌, ◌^◌, ◌<◌, ◌≡◌, refl, sym, ap, ◌∙◌, [], ◌∷◌, length, Bool, false, leb, inl,
  arith, append-nil,
}
use clarion.Stream.{Result, ok, Bytes, ◌>>=◌}
use clarion.Stream.Memory.{le_bytes, of_le_bytes, length-le_bytes, of_le_bytes-le_bytes}
use clarion.Stream.Check.{open_at}
use clarion.Frac.Types.{FracTy, El}
use clarion.Frac.Memory.{Out, store, Holds, Holds-frame, store-Holds}
use clarion.Frac.Write.{fracpack}
use clarion.Frac.Encode.{pack}
use clarion.Frac.Place.{Filled}
use clarion.Frac.Valid.{WellFormed, IsValid, is_optional}
use clarion.Frac.Packed.{fracpack-pack}
use clarion.Frac.Size.{fracpack_size}
use clarion.Frac.Sized.{fracpack_size-pack}
use clarion.Frac.Read.{fracunpack}
use clarion.Frac.RoundTrip.{fracunpack-pack}
use clarion.Frac.Check.{fraccheck}

pub record Allocation : Type 0 where
  pub cells : ℕ → ℕ
  pub size : ℕ

unfoldable pub load : ℕ → ℕ → (ℕ → ℕ) → Bytes
load p zero cells = []
load p (suc n) cells = cells p ∷ load (suc p) n cells

-- The stream that the constructor packs into: `size` bytes behind the size itself.
unfoldable pub frac_ptr_out : ℕ → (ℕ → ℕ) → Out
frac_ptr_out size cells = record {
  cells = store 0 (le_bytes 4 size) cells;
  size = size + 4;
  begin = 4;
  pos = 4;
  end = 4 + size;
}

-- `frac_ptr(const T&)`, in an allocation with anything in it.
unfoldable pub frac_ptr : (t : FracTy) → El t → (ℕ → ℕ) → Result Allocation
frac_ptr t from cells = do
  let size = fracpack_size t from
  (ps, out) ← fracpack t from (frac_ptr_out size cells)
  ok (record { cells = out.cells; size = size + 4 })

unfoldable pub size : Allocation → ℕ
size a = of_le_bytes (load 0 4 a.cells)

-- `T tmp` may hold anything to begin with.
unfoldable pub unpack : (t : FracTy) → El t → Allocation → Result (El t)
unpack t tmp a = fracunpack t tmp (load 4 (size a) a.cells) >>= λ r. ok r.0

unfoldable pub validate : FracTy → Allocation → Result Bool
validate t a =
    fraccheck t (open_at (load 4 (size a) a.cells)) >>= λ s. ok (leb s.total_read (size a))

load-Holds : (cells : ℕ → ℕ) (p : ℕ) (b : Bytes) → Holds cells p b → load p (length b) cells ≡ b
unfolding load
load-Holds cells p [] h = refl
load-Holds cells p (x ∷ b) h = rw (h.0, load-Holds cells (suc p) b h.1) refl

allocated :
    (t : FracTy) (v : El t) (cells : ℕ → ℕ)
    → WellFormed t
    → is_optional t ≡ false
    → IsValid t v
    → length (pack t v) < 2 ^ 16
    → (o : Out) × (fracpack t v (frac_ptr_out (length (pack t v)) cells)
        ≡ ok (length (pack t v), o))
      × Filled (frac_ptr_out (length (pack t v)) cells) o (pack t v)
unfolding frac_ptr_out
allocated t v cells wf o p l =
    fracpack-pack t v _ wf o p l (record { in_stream = omega arith; in_memory = omega arith }) refl

-- The size stays in front of the packed form.
size_kept :
    (n : ℕ) (b : Bytes) (cells : ℕ → ℕ) (o : Out)
    → Filled (frac_ptr_out n cells) o b
    → Holds o.cells 0 (le_bytes 4 n) × Holds o.cells 4 b
unfolding frac_ptr_out
size_kept n b cells o filled = (
  Holds-frame (store 0 (le_bytes 4 n) cells) o.cells 0 (le_bytes 4 n)
      (λ i l l'. filled.outside i (inl (omega (arith, length-le_bytes 4 n))))
      (store-Holds 0 (le_bytes 4 n) cells),
  filled.holds,
)

-- For a valid value of a well-formed type that is no optional, whose packed form is shorter than 2^16 bytes:
-- the constructor of `frac_ptr` succeeds with an allocation of four bytes more, whatever was in it; the size
-- in it is the length of the packed form, and the bytes behind it are that form.
pub frac_ptr-pack :
    (t : FracTy) (v : El t) (cells : ℕ → ℕ)
    → WellFormed t
    → is_optional t ≡ false
    → IsValid t v
    → length (pack t v) < 2 ^ 16
    → (a : Allocation) × (frac_ptr t v cells ≡ ok a)
      × (a.size ≡ length (pack t v) + 4)
      × (size a ≡ length (pack t v))
      × (load 4 (length (pack t v)) a.cells ≡ pack t v)
unfolding frac_ptr size
frac_ptr-pack t v cells wf n p l =
    let (o, e, filled) = allocated t v cells wf n p l in
    let (front, behind) = size_kept (length (pack t v)) (pack t v) cells o filled in
    let four : load 0 4 o.cells ≡ le_bytes 4 (length (pack t v)) =
      ap (λ k. load 0 k o.cells) (sym (length-le_bytes 4 (length (pack t v))))
      ∙ load-Holds o.cells 0 _ front in
    (
      record { cells = o.cells; size = length (pack t v) + 4 },
      rw (fracpack_size-pack t v wf n l, e) refl,
      refl,
      rw four (of_le_bytes-le_bytes 4 (length (pack t v)) (omega arith)),
      load-Holds o.cells 4 (pack t v) behind,
    )

-- A `frac_ptr` can be made from a valid value of a well-formed type that is no optional, whose packed form is
-- shorter than 2^16 bytes, and `unpack` of it is that value, whatever `tmp` held before.
pub frac_ptr-unpack :
    (t : FracTy) (v tmp : El t) (cells : ℕ → ℕ)
    → WellFormed t
    → is_optional t ≡ false
    → IsValid t v
    → length (pack t v) < 2 ^ 16
    → (a : Allocation) × (frac_ptr t v cells ≡ ok a) × (unpack t tmp a ≡ ok v)
unfolding unpack
frac_ptr-unpack t v tmp cells wf n p l =
    let (a, e, _, size_is, bytes) = frac_ptr-pack t v cells wf n p l in
    let (s, e') = fracunpack-pack t v tmp [] wf n p l in
    (a, e, rw (size_is, bytes, ← append-nil (pack t v), e') refl)
