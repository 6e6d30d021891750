-- ===== src/Frac/TakenAll.antt =====
-- Members one after the other out of their window.
use clarion.Prelude.{ℕ, ◌+◌, ◌-◌, ◌≤◌, ◌≡◌, refl, List, ◌∷◌, ◌++◌, length, arith, length-append}
use clarion.Stream.{ok, Bytes, ◌>>=◌}
use clarion.Stream.Input.{InputStream}
use clarion.Frac.Encode.{Part, piece, heap_of, slot, heaps, fixed, length-piece, length-fixed}
use clarion.Frac.Read.{Unpacked}
use clarion.Frac.Taken.{Takes, TakesAll, window_first, window_others, window_behind}

-- The first reader need only take its part while the stream stands before the heap.
pub next-TakesAll :
    {A B C : Type 0} (k : A → B → C) (start opened : ℕ) (r r' : InputStream → Unpacked A)
    (rs : InputStream → Unpacked B) (q : Part) (qs : List Part) (x : A) (xs : B)
    → ((s : Bytes) → opened + slot q ≤ start + length s → r s ≡ r' s)
    → Takes r' q x
    → TakesAll start opened rs qs xs
    → TakesAll start opened
        (λ s. r s >>= λ a. rs a.1 >>= λ b. ok (k a.0 b.0, b.1))
        (q ∷ qs)
        (k x xs)
next-TakesAll k start opened r r' rs q qs x xs same first others gap rest d e l before =
    let d' = d + length (heap_of q) - slot q in
    let total = length-append (heap_of q) (heaps qs) in
    let gap_first = length-append (fixed d' qs) gap in
    let gap_others = length-append gap (heap_of q) in
    let pieces = length-fixed d' qs in
    let size : length (piece d q ++ ((fixed d' qs ++ gap) ++ (heap_of q ++ (heaps qs ++ rest))))
        ≡ d + length (heap_of q) + length (heaps qs) + length rest =
      omega (
        arith,
        length-append (piece d q) ((fixed d' qs ++ gap) ++ (heap_of q ++ (heaps qs ++ rest))),
        length-piece d q,
        length-append (fixed d' qs ++ gap) (heap_of q ++ (heaps qs ++ rest)),
        gap_first,
        pieces,
        length-append (heap_of q) (heaps qs ++ rest),
        length-append (heaps qs) rest,
      ) in
    let here =
      same (piece d q ++ ((fixed d' qs ++ gap) ++ (heap_of q ++ (heaps qs ++ rest))))
        (omega (arith, total, size)) in
    let taken =
      first (fixed d' qs ++ gap) (heaps qs ++ rest) d (omega (arith, gap_first, pieces))
        (omega (arith, total)) in
    let behind =
      others (gap ++ heap_of q) rest d' (omega (arith, gap_others)) (omega (arith, total))
        (omega (arith, total)) in
    rw
      (
        window_first q qs gap rest d d',
        here,
        taken,
        window_others q qs gap rest d',
        behind,
        window_behind q qs gap rest,
      )
      refl
