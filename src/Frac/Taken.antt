-- ===== src/Frac/Taken.antt =====
-- How a member is taken out of the window that it was packed into, and one member after the other.
use clarion.Prelude.{
  ℕ, ◌+◌, ◌^◌, ◌<◌, ◌≤◌, ◌≡◌, refl, sym, ap, ◌∙◌, List, [], ◌++◌, length, true, false, none, some,
  ltb, leb, ◌==◌, arith, length-append, append_assoc, drop_all-append,
}
use clarion.Stream.{Result, ok, Bytes}
use clarion.Stream.Memory.{le_bytes, length-le_bytes, of_le_bytes-le_bytes}
use clarion.Stream.Input.{InputStream, sub_stream, read-append}
use clarion.Frac.Encode.{Part, inline, mark, heap, piece, heap_of, slot, slots, heaps, fixed}
use clarion.Frac.Read.{
  Unpacked, unpack_number, unpack_at, unpack_container, unpack_optional, unpack_heap,
}

-- A reader that takes the bytes of a value, and one that finds the value at the front of its stream.
abbrev pub Reads : {A : Type 0} → (A → InputStream → Unpacked A) → Bytes → A → Type 0
Reads {A} f b v = (w : A) (rest : Bytes) → length b < 2 ^ 16 → f w (b ++ rest) ≡ ok (v, rest)

abbrev pub Opens : {A : Type 0} → (A → InputStream → Unpacked A) → Bytes → A → Type 0
Opens {A} f b v =
    (w : A) (rest : Bytes) → length b < 2 ^ 16 → (s : InputStream) × (f w (b ++ rest) ≡ ok (v, s))

pub Reads-Opens :
    {A : Type 0} (f : A → InputStream → Unpacked A) (b : Bytes) (v : A) → Reads f b v → Opens f b v
Reads-Opens f b v r w rest l = (rest, r w rest l)

-- The piece in front of its own heap, with `gap` between the two.
abbrev pub Takes : {A : Type 0} → (InputStream → Unpacked A) → Part → A → Type 0
Takes {A} r q v =
    (gap rest : Bytes) (d : ℕ)
    → d ≡ slot q + length gap
    → d + length (heap_of q) < 2 ^ 16
    → r (piece d q ++ (gap ++ (heap_of q ++ rest))) ≡ ok (v, gap ++ (heap_of q ++ rest))

-- The same for several; `opened` and `start` say where the heap begins for the reader.
abbrev pub TakesAll : {A : Type 0} → ℕ → ℕ → (InputStream → Unpacked A) → List Part → A → Type 0
TakesAll {A} start opened r qs v =
    (gap rest : Bytes) (d : ℕ)
    → d ≡ slots qs + length gap
    → d + length (heaps qs) < 2 ^ 16
    → opened + slots qs ≤ start + (d + length (heaps qs) + length rest)
    → r (fixed d qs ++ (gap ++ (heaps qs ++ rest))) ≡ ok (v, gap ++ (heaps qs ++ rest))

pub unpack_number-le_bytes :
    (n v : ℕ) (rest : Bytes) → v < 256 ^ n → unpack_number n (le_bytes n v ++ rest) ≡ ok (v, rest)
unfolding unpack_number
unpack_number-le_bytes n v rest h =
    rw (read-append n (le_bytes n v) rest (length-le_bytes n v), of_le_bytes-le_bytes n v h) refl

pub sub_stream-append : (c x : Bytes) (n : ℕ) → n ≡ length c → sub_stream n (c ++ x) ≡ ok x
unfolding sub_stream
sub_stream-append c x n e =
    let enough : ltb (length (c ++ x)) (length c) ≡ false = ground (arith, length-append c x) in
    rw (e, enough, drop_all-append c x)

-- What an offset of `d` in front of a gap leads to.
pub unpack_at-offset :
    {A : Type 0} (f : A → InputStream → Unpacked A) (b : Bytes) (v w : A) (gap rest : Bytes) (d : ℕ)
    → Opens f b v
    → d ≡ 4 + length gap
    → length b < 2 ^ 16
    → unpack_at f d w (le_bytes 4 d ++ (gap ++ (b ++ rest))) ≡ ok v
unfolding unpack_at
unpack_at-offset f b v w gap rest d opens e l =
    let (s, e') = opens w rest l in
    let len : d ≡ length (le_bytes 4 d ++ gap) =
      omega (arith, length-append (le_bytes 4 d) gap, length-le_bytes 4 d) in
    rw
      (
        ← append_assoc (le_bytes 4 d) gap (b ++ rest),
        sub_stream-append (le_bytes 4 d ++ gap) (b ++ rest) d len,
        e',
      )
      refl

-- An offset that its 32 bits hold, in front of anything.
offset-read :
    (d : ℕ) (rest : Bytes) → d < 2 ^ 16 → unpack_number 4 (le_bytes 4 d ++ rest) ≡ ok (d, rest)
offset-read d rest l = unpack_number-le_bytes 4 d rest (omega arith)

pub inline-Takes :
    {A : Type 0} (f : A → InputStream → Unpacked A) (b : Bytes) (v w : A)
    → Reads f b v
    → Takes (f w) (inline b) v
inline-Takes f b v w reads gap rest d e l = reads w (gap ++ rest) (omega arith)

pub heap-Takes :
    {A : Type 0} (f : A → InputStream → Unpacked A) (b : Bytes) (v w : A)
    → Opens f b v
    → Takes (unpack_heap f w) (heap b) v
unfolding unpack_heap
heap-Takes f b v w opens gap rest d e l =
    rw
      (
        offset-read d (gap ++ (b ++ rest)) (omega arith),
        unpack_at-offset f b v w gap rest d opens e (omega arith),
      )
      refl

module _ {A : Type 0} (f : List A → InputStream → Unpacked (List A)) (w : List A) where
  pub container-Takes :
      (b : Bytes) (v : List A) → Opens f b v → Takes (unpack_container f w) (heap b) v
  unfolding unpack_container
  container-Takes b v opens gap rest d e l =
      let far : leb 4 d ≡ true = ground arith in
      rw
        (
          offset-read d (gap ++ (b ++ rest)) (omega arith),
          far,
          unpack_at-offset f b v w gap rest d opens e (omega arith),
        )
        refl

  pub empty-Takes : Takes (unpack_container f w) (mark 0) []
  unfolding unpack_container
  empty-Takes gap rest d e l = rw (offset-read 0 (gap ++ rest) (omega arith)) refl

module _ {A : Type 0} (f : A → InputStream → Unpacked A) (x : A) (init : Result A)
    (there : init ≡ ok x) where
  pub optional-Takes :
      (b : Bytes) (v : A) → Opens f b v → Takes (unpack_optional f init) (heap b) (some v)
  unfolding unpack_optional
  optional-Takes b v opens gap rest d e l =
      let far : leb 4 d ≡ true = ground arith in
      let not_empty : (d == 0) ≡ false = ground arith in
      rw
        (
          offset-read d (gap ++ (b ++ rest)) (omega arith),
          not_empty,
          far,
          there,
          unpack_at-offset f b v x gap rest d opens e (omega arith),
        )
        refl

  pub absent-Takes : Takes (unpack_optional f init) (mark 1) none
  unfolding unpack_optional
  absent-Takes gap rest d e l = rw (offset-read 1 (gap ++ rest) (omega arith)) refl

  pub fresh-Takes : Takes (unpack_optional f init) (mark 0) (some x)
  unfolding unpack_optional
  fresh-Takes gap rest d e l = rw (offset-read 0 (gap ++ rest) (omega arith), there) refl

pub none-TakesAll :
    {A : Type 0} (start opened : ℕ) (v : A) → TakesAll start opened (λ s. ok (v, s)) [] v
none-TakesAll start opened v gap rest d e l o = refl

-- The window of several members, seen by the first one, and by the others behind it.
pub window_first :
    (q : Part) (qs : List Part) (gap rest : Bytes) (d d' : ℕ)
    → (piece d q ++ fixed d' qs) ++ (gap ++ ((heap_of q ++ heaps qs) ++ rest))
      ≡ piece d q ++ ((fixed d' qs ++ gap) ++ (heap_of q ++ (heaps qs ++ rest)))
window_first q qs gap rest d d' =
    append_assoc (piece d q) (fixed d' qs) _
    ∙ ap (λ b. piece d q ++ b)
        (sym (append_assoc (fixed d' qs) gap _)
          ∙ ap (λ b. (fixed d' qs ++ gap) ++ b) (append_assoc (heap_of q) (heaps qs) rest))

pub window_others :
    (q : Part) (qs : List Part) (gap rest : Bytes) (d' : ℕ)
    → (fixed d' qs ++ gap) ++ (heap_of q ++ (heaps qs ++ rest))
      ≡ fixed d' qs ++ ((gap ++ heap_of q) ++ (heaps qs ++ rest))
window_others q qs gap rest d' =
    append_assoc (fixed d' qs) gap _
    ∙ ap (λ b. fixed d' qs ++ b) (sym (append_assoc gap (heap_of q) (heaps qs ++ rest)))

pub window_behind :
    (q : Part) (qs : List Part) (gap rest : Bytes)
    → (gap ++ heap_of q) ++ (heaps qs ++ rest) ≡ gap ++ ((heap_of q ++ heaps qs) ++ rest)
window_behind q qs gap rest =
    append_assoc gap (heap_of q) (heaps qs ++ rest)
    ∙ ap (λ b. gap ++ b) (sym (append_assoc (heap_of q) (heaps qs) rest))
