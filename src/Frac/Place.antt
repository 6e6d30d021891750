-- ===== src/Frac/Place.antt =====
-- How packers fill memory: a value at one place, and members at two.
use mathlib.Core.Path.{subst}
use clarion.Prelude.{
  ℕ, ◌+◌, ◌-◌, ◌%◌, ◌^◌, ◌<◌, ◌≤◌, ◌≡◌, refl, ap, ◌∙◌, List, [], ◌∷◌, ◌++◌, length, false, inl, inr,
  ◌⊎◌, ltb, arith, length-append,
}
use clarion.Stream.{ok, Bytes, ◌>>=◌}
use clarion.Stream.Memory.{le_bytes, length-le_bytes}
use clarion.Frac.Memory.{
  Out, write, consumed, substream, store, Holds, store_outside, store-Holds, Holds-frame,
  Holds-append,
}
use clarion.Frac.Write.{Packed, pack_on_heap, pack_mark, pack_inline}
use clarion.Frac.Encode.{
  Part, inline, mark, heap, piece, heap_of, slot, slots, heaps, fixed, length-piece, length-fixed,
}

-- The memory that a stream may use is unchanged but for `n` bytes at `p`.
abbrev pub Outside : ℕ → ℕ → (ℕ → ℕ) → (ℕ → ℕ) → Type 0
Outside p n cells cells' = (i : ℕ) → (i < p) ⊎ (p + n ≤ i) → cells' i ≡ cells i

pub record Fits (o : Out) (n : ℕ) : Type 0 where
  pub in_stream : o.pos + n ≤ o.end
  pub in_memory : o.pos + n ≤ o.size

pub record Filled (o o' : Out) (b : Bytes) : Type 0 where
  pub size_kept : o'.size ≡ o.size
  pub holds : Holds o'.cells o.pos b
  pub outside : Outside o.pos (length b) o.cells o'.cells

pub record Moved (o o' : Out) (n : ℕ) : Type 0 where
  pub pos_moved : o'.pos ≡ o.pos + n
  pub begin_kept : o'.begin ≡ o.begin
  pub end_kept : o'.end ≡ o.end

-- A packer that writes where the stream stands, and moves it on.
abbrev pub Writes : (Out → Packed) → Bytes → Type 0
Writes f b =
    (o : Out)
    → Fits o (length b)
    → length b < 2 ^ 16
    → (o' : Out) × (f o ≡ ok (length b, o')) × Filled o o' b × Moved o o' (length b)

-- A packer that fills what lies before a stream that has just been opened.
abbrev pub Fills : (Out → Packed) → Bytes → Type 0
Fills f b =
    (o : Out)
    → Fits o (length b)
    → o.begin ≡ o.pos
    → length b < 2 ^ 16
    → (o' : Out) × (f o ≡ ok (length b, o')) × Filled o o' b

pub Writes-Fills : (f : Out → Packed) (b : Bytes) → Writes f b → Fills f b
Writes-Fills f b w o fits e l = let (o', e', filled, moved) = w o fits l in (o', e', filled)

-- Room for `n` bytes in place and `k` in the heap.
pub record Room (o : Out) (h n k : ℕ) : Type 0 where
  pub behind : o.begin ≤ o.pos
  pub before : o.pos + n ≤ o.begin + h
  pub in_stream : o.begin + h + k ≤ o.end
  pub in_memory : o.begin + h + k ≤ o.size
  pub in_word : h + k < 2 ^ 16

pub record Placed (o o' : Out) (h : ℕ) (b c : Bytes) : Type 0 where
  pub moved : Moved o o' (length b)
  pub size_kept : o'.size ≡ o.size
  pub in_place : Holds o'.cells o.pos b
  pub in_heap : Holds o'.cells (o.begin + h) c
  pub outside :
      (i : ℕ)
      → (i < o.pos) ⊎ (o.pos + length b ≤ i)
      → (i < o.begin + h) ⊎ (o.begin + h + length c ≤ i)
      → o'.cells i ≡ o.cells i

abbrev pub Places : (ℕ → Out → Packed) → Part → Type 0
Places m q =
    (o : Out) (h : ℕ)
    → Room o h (slot q) (length (heap_of q))
    → (o' : Out) × (m h o ≡ ok (h + length (heap_of q), o'))
      × Placed o o' h (piece (o.begin + h - o.pos) q) (heap_of q)

abbrev pub PlacesAll : (ℕ → Out → Packed) → List Part → Type 0
PlacesAll m qs =
    (o : Out) (h : ℕ)
    → Room o h (slots qs) (length (heaps qs))
    → (o' : Out) × (m h o ≡ ok (h + length (heaps qs), o'))
      × Placed o o' h (fixed (o.begin + h - o.pos) qs) (heaps qs)

pub write-Filled :
    (b : Bytes) (o : Out)
    → Fits o (length b)
    → (o' : Out) × (write b o ≡ ok o') × Filled o o' b × Moved o o' (length b)
unfolding write
write-Filled b o fits =
    let e : ltb o.end (o.pos + length b) ≡ false = ground arith in
    let e' : ltb o.size (o.pos + length b) ≡ false = ground arith in
    (
      record o { cells = store o.pos b o.cells; pos = o.pos + length b },
      rw (e, e'),
      record {
        size_kept = refl;
        holds = store-Holds o.pos b o.cells;
        outside = λ i h. store_outside o.pos b o.cells i h;
      },
      record { pos_moved = refl; begin_kept = refl; end_kept = refl },
    )

pub pack_inline-Places :
    (f : Out → Packed) (b : Bytes) → Writes f b → Places (pack_inline f) (inline b)
unfolding pack_inline
pack_inline-Places f b w o h room =
    let (o', e, filled, moved) = w o (omega arith) (omega arith) in
    (
      o',
      rw e (ap (λ n. ok (n, o')) (omega arith)),
      record {
        moved = moved;
        size_kept = filled.size_kept;
        in_place = filled.holds;
        in_heap = tt;
        outside = λ i l r. filled.outside i l;
      },
    )

pub pack_mark-Places : (n : ℕ) → Places (pack_mark n) (mark n)
unfolding pack_mark
pack_mark-Places n o h room =
    let (o', e, filled, moved) =
      write-Filled (le_bytes 4 n) o (omega (arith, length-le_bytes 4 n)) in
    (
      o',
      rw e (ap (λ n. ok (n, o')) (omega arith)),
      record {
        moved = moved;
        size_kept = filled.size_kept;
        in_place = filled.holds;
        in_heap = tt;
        outside = λ i l r. filled.outside i l;
      },
    )

-- The offset that `pack_on_heap` writes.
offset_lem :
    (o : Out) (h : ℕ)
    → o.begin ≤ o.pos
    → o.pos ≤ o.begin + h
    → h < 2 ^ 16
    → (h + 2 ^ 64 - consumed o) % 2 ^ 32 ≡ o.begin + h - o.pos
unfolding consumed
offset_lem o h l l' k = omega arith

pub pack_on_heap-Places :
    (f : Out → Packed) (b : Bytes) → Fills f b → Places (pack_on_heap f) (heap b)
unfolding pack_on_heap substream
pack_on_heap-Places f b w o h room =
    let d = o.begin + h - o.pos in
    let len = length-le_bytes 4 d in
    let (o1, e1, filled, moved) = write-Filled (le_bytes 4 d) o (omega (arith, len)) in
    let there : o1.pos + d - 4 ≡ o.begin + h = omega (arith, moved.pos_moved, len) in
    let pos = moved.pos_moved in
    let end = moved.end_kept in
    let size = filled.size_kept in
    let sub = substream (o1.pos + d - 4) (o1.end - o1.pos) o1 in
    let (o2, e2, filled2) =
      w sub (record { in_stream = omega (arith, len); in_memory = omega (arith, len) }) refl
        (omega arith) in
    (
      record o1 { cells = o2.cells },
      rw (offset_lem o h room.behind (omega arith) (omega arith), e1, e2)
          (ap (λ n. ok (n, record o1 { cells = o2.cells })) (omega arith)),
      record {
        moved = record { pos_moved = pos; begin_kept = moved.begin_kept; end_kept = end };
        size_kept = filled.size_kept;
        in_place =
            Holds-frame o1.cells o2.cells o.pos (le_bytes 4 d)
              (λ i l l'. filled2.outside i (inl (omega (arith, len)))) filled.holds;
        in_heap = subst (λ p. Holds o2.cells p b) there filled2.holds;
        outside = λ i l r. filled2.outside i (ground (arith, len)) ∙ filled.outside i l;
      },
    )

pub none-PlacesAll : PlacesAll (λ h o. ok (h, o)) []
none-PlacesAll o h room = (
  o,
  ap (λ n. ok (n, o)) (omega arith),
  record {
    moved = record { pos_moved = omega arith; begin_kept = refl; end_kept = refl };
    size_kept = refl;
    in_place = tt;
    in_heap = tt;
    outside = λ i l r. refl;
  },
)

-- Placing twice: the pieces stand side by side, and so do their heaps.
Placed-append :
    (o o1 o2 : Out) (h : ℕ) (b c b' c' : Bytes)
    → o.pos + length b + length b' ≤ o.begin + h
    → Placed o o1 h b c
    → Placed o1 o2 (h + length c) b' c'
    → Placed o o2 h (b ++ b') (c ++ c')
Placed-append o o1 o2 h b c b' c' room p q =
    let lb = length-append b b' in
    let lc = length-append c c' in
    let pos = p.moved.pos_moved in
    let begin = p.moved.begin_kept in
    let there : o1.begin + (h + length c) ≡ o.begin + h + length c = omega (arith, begin) in
    record {
      moved = record {
        pos_moved = omega (arith, pos, q.moved.pos_moved, lb);
        begin_kept = q.moved.begin_kept ∙ begin;
        end_kept = q.moved.end_kept ∙ p.moved.end_kept;
      };
      size_kept = q.size_kept ∙ p.size_kept;
      in_place =
          Holds-append o2.cells o.pos b b'
            (Holds-frame o1.cells o2.cells o.pos b
              (λ i l l'. q.outside i (inl (omega (arith, pos))) (inl (omega (arith, there))))
              p.in_place)
            (subst (λ a. Holds o2.cells a b') pos q.in_place);
      in_heap =
          Holds-append o2.cells (o.begin + h) c c'
            (Holds-frame o1.cells o2.cells (o.begin + h) c
              (λ i l l'. q.outside i (inr (omega (arith, pos))) (inl (omega (arith, there))))
              p.in_heap)
            (subst (λ a. Holds o2.cells a c') there q.in_heap);
      outside = λ i l r.
          q.outside i (ground arith) (ground arith) ∙ p.outside i (ground arith) (ground arith);
    }

pub next-PlacesAll :
    (m : ℕ → Out → Packed) (rest : ℕ → Out → Packed) (q : Part) (qs : List Part)
    → Places m q
    → PlacesAll rest qs
    → PlacesAll (λ h o. m h o >>= λ r. rest r.0 r.1) (q ∷ qs)
next-PlacesAll m rest q qs first others o h room =
    let total = length-append (heap_of q) (heaps qs) in
    let d = o.begin + h - o.pos in
    let len = length-piece d q in
    let (o1, e1, p1) = first o h (omega (arith, total)) in
    let pos = p1.moved.pos_moved in
    let begin = p1.moved.begin_kept in
    let end = p1.moved.end_kept in
    let size = p1.size_kept in
    let (o2, e2, p2) = others o1 (h + length (heap_of q)) (omega (arith, total, len)) in
    let same : o1.begin + (h + length (heap_of q)) - o1.pos ≡ d + length (heap_of q) - slot q =
      omega (arith, len) in
    let p2' = subst (λ n. Placed o1 o2 (h + length (heap_of q)) (fixed n qs) (heaps qs)) same p2 in
    (
      o2,
      rw (e1, e2) (ap (λ n. ok (n, o2)) (omega (arith, total))),
      Placed-append o o1 o2 h (piece d q) (heap_of q) _ (heaps qs)
          (omega (arith, len, length-fixed (d + length (heap_of q) - slot q) qs)) p1 p2',
    )
