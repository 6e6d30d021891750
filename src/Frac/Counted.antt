-- ===== src/Frac/Counted.antt =====
-- How the checker goes through what was packed, and what it counts.
use clarion.Prelude.{
  ℕ, ◌+◌, ◌-◌, ◌^◌, ◌<◌, ◌≤◌, ◌≡◌, refl, sym, ap, ◌∙◌, List, [], ◌∷◌, ◌++◌, length, true, false,
  ltb, leb, arith, length-append, append_assoc, take, drop, take_all-append, drop_all-append,
}
use clarion.Stream.{ok, Bytes, ◌>>=◌}
use clarion.Stream.Memory.{le_bytes, length-le_bytes, of_le_bytes-le_bytes}
use clarion.Stream.Check
use clarion.Stream.Check.{CheckInputStream, open_at, checkread}
use clarion.Frac.Encode.{
  Part, inline, mark, heap, piece, heap_of, slot, slots, heaps, fixed, length-piece, length-fixed,
}
use clarion.Frac.Check.{Checked, check_number, check_at, check_far, check_heap}
use clarion.Frac.Taken.{sub_stream-append, window_first, window_others, window_behind}

abbrev pub at : Bytes → ℕ → CheckInputStream
at b n = record { rest = b; total_read = n }

-- The checker takes all the bytes, or opens a value in front of its stream; either way it counts all of them.
abbrev pub Counts : (CheckInputStream → Checked) → Bytes → Type 0
Counts c b =
    (rest : Bytes) (n : ℕ) → length b < 2 ^ 16 → c (at (b ++ rest) n) ≡ ok (at rest (n + length b))

abbrev pub CountsOpen : (CheckInputStream → Checked) → Bytes → Type 0
CountsOpen c b =
    (rest : Bytes) (n : ℕ)
    → length b < 2 ^ 16
    → (s : Bytes) × (c (at (b ++ rest) n) ≡ ok (at s (n + length b)))

abbrev pub CountsPart : (CheckInputStream → Checked) → Part → Type 0
CountsPart c q =
    (gap rest : Bytes) (d n : ℕ)
    → d ≡ slot q + length gap
    → d + length (heap_of q) < 2 ^ 16
    → c (at (piece d q ++ (gap ++ (heap_of q ++ rest))) n)
      ≡ ok (at (gap ++ (heap_of q ++ rest)) (n + slot q + length (heap_of q)))

abbrev pub CountsAll : ℕ → ℕ → (CheckInputStream → Checked) → List Part → Type 0
CountsAll start opened c qs =
    (gap rest : Bytes) (d n : ℕ)
    → d ≡ slots qs + length gap
    → d + length (heaps qs) < 2 ^ 16
    → opened + slots qs ≤ start + (d + length (heaps qs) + length rest)
    → c (at (fixed d qs ++ (gap ++ (heaps qs ++ rest))) n)
      ≡ ok (at (gap ++ (heaps qs ++ rest)) (n + slots qs + length (heaps qs)))

pub Counts-Open : (c : CheckInputStream → Checked) (b : Bytes) → Counts c b → CountsOpen c b
Counts-Open c b h rest n l = (rest, h rest n l)

pub checkread-append :
    (m : ℕ) (a rest : Bytes) (n : ℕ)
    → length a ≡ m
    → checkread m (at (a ++ rest) n) ≡ ok (at rest (n + length a))
unfolding checkread
checkread-append m a rest n e =
    let enough : ltb (length (a ++ rest)) (length a) ≡ false =
      ground (arith, length-append a rest) in
    rw (← e, enough, drop_all-append a rest) refl

pub check_number-le_bytes :
    (m v : ℕ) (rest : Bytes) (n : ℕ)
    → v < 256 ^ m
    → check_number m (at (le_bytes m v ++ rest) n) ≡ ok (v, at rest (n + m))
unfolding check_number Check.read
check_number-le_bytes m v rest n h =
    let len = length-le_bytes m v in
    let enough : ltb (length (le_bytes m v ++ rest)) m ≡ false =
      ground (arith, length-append (le_bytes m v) rest, len) in
    let front : take m (le_bytes m v ++ rest) ≡ le_bytes m v =
      ap (λ k. take k (le_bytes m v ++ rest)) (sym len) ∙ take_all-append (le_bytes m v) rest in
    let behind : drop m (le_bytes m v ++ rest) ≡ rest =
      ap (λ k. drop k (le_bytes m v ++ rest)) (sym len) ∙ drop_all-append (le_bytes m v) rest in
    rw (enough, front, behind, of_le_bytes-le_bytes m v h) refl

-- The count, written another way.
pub count : (s : Bytes) (n m : ℕ) → n ≡ m → ok (at s n) ≡ ok (at s m)
count s n m e = ap (λ k. ok (at s k)) e

pub inline-CountsPart :
    (c : CheckInputStream → Checked) (b : Bytes) → Counts c b → CountsPart c (inline b)
inline-CountsPart c b h gap rest d n e l =
    h (gap ++ rest) n (omega arith) ∙ count (gap ++ rest) _ _ (omega arith)

check_at-counted :
    (c : CheckInputStream → Checked) (b gap rest : Bytes) (d n : ℕ)
    → CountsOpen c b
    → d ≡ 4 + length gap
    → length b < 2 ^ 16
    → check_at c d (at (le_bytes 4 d ++ (gap ++ (b ++ rest))) n) (at (gap ++ (b ++ rest)) (n + 4))
      ≡ ok (at (gap ++ (b ++ rest)) (n + 4 + length b))
unfolding check_at open_at
check_at-counted c b gap rest d n h e l =
    let (s, e') = h rest 0 l in
    let len : d ≡ length (le_bytes 4 d ++ gap) =
      omega (arith, length-append (le_bytes 4 d) gap, length-le_bytes 4 d) in
    rw
      (
        ← append_assoc (le_bytes 4 d) gap (b ++ rest),
        sub_stream-append (le_bytes 4 d ++ gap) (b ++ rest) d len,
        e',
      )
      (count (gap ++ (b ++ rest)) _ _ (omega arith))

pub heap-CountsPart :
    (c : CheckInputStream → Checked) (b : Bytes)
    → CountsOpen c b
    → CountsPart (check_heap c) (heap b)
unfolding check_heap
heap-CountsPart c b h gap rest d n e l =
    rw (check_number-le_bytes 4 d (gap ++ (b ++ rest)) n (omega arith))
      (check_at-counted c b gap rest d n h e (omega arith))

pub far-CountsPart :
    (c : CheckInputStream → Checked) (b : Bytes)
    → CountsOpen c b
    → CountsPart (check_far c) (heap b)
unfolding check_far
far-CountsPart c b h gap rest d n e l =
    let far : leb 4 d ≡ true = ground arith in
    rw (check_number-le_bytes 4 d (gap ++ (b ++ rest)) n (omega arith), far)
      (check_at-counted c b gap rest d n h e (omega arith))

pub mark-CountsPart :
    (c : CheckInputStream → Checked) (m : ℕ) → m < 4 → CountsPart (check_far c) (mark m)
unfolding check_far
mark-CountsPart c m small gap rest d n e l =
    let near : leb 4 m ≡ false = ground arith in
    rw (check_number-le_bytes 4 m (gap ++ rest) n (omega arith), near)
      (count (gap ++ rest) _ _ (omega arith))

pub none-CountsAll : (start opened : ℕ) → CountsAll start opened (λ s. ok s) []
none-CountsAll start opened gap rest d n e l o = count (gap ++ rest) _ _ (omega arith)

pub next-CountsAll :
    (start opened : ℕ) (c c' cs : CheckInputStream → Checked) (q : Part) (qs : List Part)
    → ((s : Bytes) (n : ℕ) → opened + slot q ≤ start + length s → c (at s n) ≡ c' (at s n))
    → CountsPart c' q
    → CountsAll start opened cs qs
    → CountsAll start opened (λ s. c s >>= cs) (q ∷ qs)
next-CountsAll start opened c c' cs q qs same first others gap rest d n e l before =
    let d' = d + length (heap_of q) - slot q in
    let total = length-append (heap_of q) (heaps qs) in
    let gap_first = length-append (fixed d' qs) gap in
    let gap_others = length-append gap (heap_of q) in
    let pieces = length-fixed d' qs in
    let window = (fixed d' qs ++ gap) ++ (heap_of q ++ (heaps qs ++ rest)) in
    let size : length (piece d q ++ window)
        ≡ d + length (heap_of q) + length (heaps qs) + length rest =
      omega (
        arith,
        length-append (piece d q) window,
        length-piece d q,
        length-append (fixed d' qs ++ gap) (heap_of q ++ (heaps qs ++ rest)),
        gap_first,
        pieces,
        length-append (heap_of q) (heaps qs ++ rest),
        length-append (heaps qs) rest,
      ) in
    let here = same (piece d q ++ window) n (omega (arith, total, size)) in
    let taken =
      first (fixed d' qs ++ gap) (heaps qs ++ rest) d n (omega (arith, gap_first, pieces))
        (omega (arith, total)) in
    let n' = n + slot q + length (heap_of q) in
    let behind =
      others (gap ++ heap_of q) rest d' n' (omega (arith, gap_others)) (omega (arith, total))
        (omega (arith, total)) in
    rw
      (
        window_first q qs gap rest d d',
        here,
        taken,
        window_others q qs gap rest d',
        behind,
        window_behind q qs gap rest,
      )
      (count (gap ++ ((heap_of q ++ heaps qs) ++ rest)) _ _ (omega (arith, total)))
