-- ===== src/Frac/Memory.antt =====
-- The memory that is packed into, byte by byte, and `fixed_buf_stream` over a part of it.
use clarion.Prelude.{
  ℕ, suc, ◌+◌, ◌-◌, ◌≤◌, ◌<◌, ◌≡◌, refl, ◌∙◌, [], ◌∷◌, ◌++◌, ◌⊎◌, inl, inr, length, ltb, ◌==◌,
  if◌then◌else◌, arith, false,
}
use clarion.Stream.{Result, ok, err, stuck, overrun, Bytes}

-- The allocation has `size` bytes, and the stream's pointers are addresses in it.
pub record Out : Type 0 where
  pub cells : ℕ → ℕ
  pub size : ℕ
  pub begin : ℕ
  pub pos : ℕ
  pub end : ℕ

unfoldable pub store : ℕ → Bytes → (ℕ → ℕ) → ℕ → ℕ
store p [] cells i = cells i
store p (x ∷ b) cells i = if i == p then x else store (suc p) b cells i

-- The stream tests its own end. `stuck` is a write behind the allocation, which is undefined.
unfoldable pub write : Bytes → Out → Result Out
write src o =
    if ltb o.end (o.pos + length src)
    then err overrun
    else if ltb o.size (o.pos + length src)
    then stuck
    else ok (record o { cells = store o.pos src o.cells; pos = o.pos + length src })

unfoldable pub consumed : Out → ℕ
consumed o = o.pos - o.begin

-- `fixed_buf_stream substream(pos, size)` in the same memory.
unfoldable pub substream : ℕ → ℕ → Out → Out
substream p n o = record o { begin = p; pos = p; end = p + n }

abbrev pub Holds : (ℕ → ℕ) → ℕ → Bytes → Type 0
Holds cells p [] = Unit {0}
Holds cells p (x ∷ b) = (cells p ≡ x) × Holds cells (suc p) b

pub store_outside :
    (p : ℕ) (b : Bytes) (cells : ℕ → ℕ) (i : ℕ)
    → (i < p) ⊎ (p + length b ≤ i)
    → store p b cells i ≡ cells i
unfolding store
store_outside p [] cells i h = refl
store_outside p (x ∷ b) cells i (inl h) =
    ground (arith, store_outside (suc p) b cells i (inl (omega arith)))
store_outside p (x ∷ b) cells i (inr h) =
    ground (arith, store_outside (suc p) b cells i (inr (omega arith)))

pub Holds-frame :
    (cells cells' : ℕ → ℕ) (p : ℕ) (b : Bytes)
    → ((i : ℕ) → p ≤ i → i < p + length b → cells' i ≡ cells i)
    → Holds cells p b
    → Holds cells' p b
Holds-frame cells cells' p [] same h = tt
Holds-frame cells cells' p (x ∷ b) same h = (
  same p (omega arith) (omega arith) ∙ h.0,
  Holds-frame cells cells' (suc p) b (λ i l l'. same i (omega arith) (omega arith)) h.1,
)

pub store-Holds : (p : ℕ) (b : Bytes) (cells : ℕ → ℕ) → Holds (store p b cells) p b
unfolding store
store-Holds p [] cells = tt
store-Holds p (x ∷ b) cells = (
  ground arith,
  Holds-frame (store (suc p) b cells) (store p (x ∷ b) cells) (suc p) b
      (λ i l l'. let e : (i == p) ≡ false = ground arith in rw e) (store-Holds (suc p) b cells),
)

pub Holds-append :
    (cells : ℕ → ℕ) (p : ℕ) (a b : Bytes)
    → Holds cells p a
    → Holds cells (p + length a) b
    → Holds cells p (a ++ b)
Holds-append cells p [] b ha hb = let e : p ≡ p + 0 = omega arith in rw e hb
Holds-append cells p (x ∷ a) b ha hb =
    let e : suc p + length a ≡ p + suc (length a) = omega arith in
    (ha.0, Holds-append cells (suc p) a b ha.1 (rw e hb))
