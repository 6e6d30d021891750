-- ===== src/Frac/Versions.antt =====
-- A struct that is not final can get more members: readers of either version read both.
use clarion.Prelude.{
  ℕ, ◌+◌, ◌-◌, ◌^◌, ◌<◌, ◌≤◌, ◌≡◌, refl, sym, ap, ◌∙◌, List, [], ◌∷◌, ◌++◌, length, Bool, false,
  arith, length-append, append_assoc,
}
use clarion.Stream.{ok, Bytes, >>=-returns, ok_injective}
use clarion.Stream.Memory.{le_bytes, length-le_bytes}
use clarion.Stream.Input.{InputStream}
use clarion.Frac.Types.{
  FracTys, Els, can_memcpy, is_fixed_structure, is_ext_structure, fracpack_fixed_size,
}
use clarion.Frac.Types.{strct, nil, cons}
use clarion.Frac.Encode.{
  Part, piece, heap_of, slot, slots, heaps, fixed, body, header, pack, part, parts, length-fixed,
}
use clarion.Frac.Valid.{WellFormed, AllWellFormed, AreValid}
use clarion.Frac.Slots.{slots-parts, strct_size}
use clarion.Frac.Read.{
  Unpacked, before_heap, unpack_struct, unpack_members_of, unpack_next, fracunpack,
  fracunpack_member, fracunpack_members,
}
use clarion.Frac.Taken.{TakesAll, unpack_number-le_bytes}
use clarion.Frac.Opened.{body-taken, length-body}
use clarion.Frac.RoundTrip.{members-taken}

-- The members of a struct, and more behind them.
abbrev pub extend : FracTys → FracTys → FracTys
extend nil us = us
extend (cons t ts) us = cons t (extend ts us)

abbrev pub join_members : (ts us : FracTys) → Els ts → Els us → Els (extend ts us)
join_members nil us v u = u
join_members (cons t ts) us v u = (v.0, join_members ts us v.1 u)

-- The members that are not before the heap keep their values.
behind-heap :
    (us : FracTys) (u : Els us) (more : InputStream → Bool) (s : InputStream)
    → more s ≡ false
    → fracunpack_members us u more s ≡ ok (u, s)
unfolding fracunpack_members unpack_next
behind-heap nil u more s e = refl
behind-heap (cons t us) u more s e = rw (e, behind-heap us u.1 more s e) refl

extended_members :
    (ts us : FracTys) (v w : Els ts) (u : Els us) (more : InputStream → Bool) (s s' : InputStream)
    → fracunpack_members ts w more s ≡ ok (v, s')
    → more s' ≡ false
    → fracunpack_members (extend ts us) (join_members ts us w u) more s
      ≡ ok (join_members ts us v u, s')
unfolding fracunpack_members
extended_members nil us v w u more s s' e b =
    let same : s ≡ s' = ap (λ r. r.1) (ok_injective e) in rw (same, behind-heap us u more s' b) refl
extended_members (cons t ts) us v w u more s s' e b =
    let (x, here, e') =
      >>=-returns (unpack_next (more s) (fracunpack_member t) w.0 s) _ (v, s') e in
    let (xs, there, e'') = >>=-returns (fracunpack_members ts w.1 more x.1) _ (v, s') e' in
    let first : x.0 ≡ v.0 = ap (λ r. r.0.0) (ok_injective e'') in
    let others : xs ≡ (v.1, s') = ap (λ r. (r.0.1, r.1)) (ok_injective e'') in
    rw (here, extended_members ts us v.1 w.1 u more x.1 s' (there ∙ ap ok others) b, first) refl

extend-AllWellFormed : (ts us : FracTys) → AllWellFormed (extend ts us) → AllWellFormed ts
extend-AllWellFormed nil us w = tt
extend-AllWellFormed (cons t ts) us w = (w.0, extend-AllWellFormed ts us w.1)

parts-extend :
    (ts us : FracTys) (v : Els ts) (u : Els us)
    → parts (extend ts us) (join_members ts us v u) ≡ parts ts v ++ parts us u
unfolding parts
parts-extend nil us v u = refl
parts-extend (cons t ts) us v u = ap (λ qs. part t v.0 ∷ qs) (parts-extend ts us v.1 u)

slots-append : (qs qs' : List Part) → slots (qs ++ qs') ≡ slots qs + slots qs'
slots-append [] qs' = omega arith
slots-append (q ∷ qs) qs' = omega (arith, slots-append qs qs')

heaps-append : (qs qs' : List Part) → heaps (qs ++ qs') ≡ heaps qs ++ heaps qs'
heaps-append [] qs' = refl
heaps-append (q ∷ qs) qs' =
    rw (heaps-append qs qs', append_assoc (heap_of q) (heaps qs) (heaps qs')) refl

fixed-append :
    (d : ℕ) (qs qs' : List Part) → (d' : ℕ) × (fixed d (qs ++ qs') ≡ fixed d qs ++ fixed d' qs')
fixed-append d [] qs' = (d, refl)
fixed-append d (q ∷ qs) qs' =
    let (d', e) = fixed-append (d + length (heap_of q) - slot q) qs qs' in
    (
      d',
      rw (e, append_assoc (piece d q) (fixed (d + length (heap_of q) - slot q) qs) (fixed d' qs'))
          refl,
    )

-- The first members of a body, out of a body that has more.
body-prefix :
    {A : Type 0} (start opened : ℕ) (r : InputStream → Unpacked A) (qs qs' : List Part) (v : A)
    (rest : Bytes)
    → TakesAll start opened r qs v
    → length (body (qs ++ qs')) < 2 ^ 16
    → opened + slots qs ≤ start + (length (body (qs ++ qs')) + length rest)
    → (s : InputStream) × (r (body (qs ++ qs') ++ rest) ≡ ok (v, s))
body-prefix start opened r qs qs' v rest takes l before =
    let total = slots-append qs qs' in
    let heap_size = length-append (heaps qs) (heaps qs') in
    let tail_size = length-append (heaps qs') rest in
    let size = length-body (qs ++ qs') in
    let same = heaps-append qs qs' in
    let heap_total = ap length same in
    let (d', e) = fixed-append (slots (qs ++ qs')) qs qs' in
    let gap = length-fixed d' qs' in
    (
      fixed d' qs' ++ (heaps qs ++ (heaps qs' ++ rest)),
      rw
          (
            e,
            same,
            append_assoc (fixed (slots (qs ++ qs')) qs ++ fixed d' qs') (heaps qs ++ heaps qs')
                rest,
            append_assoc (fixed (slots (qs ++ qs')) qs) (fixed d' qs')
                ((heaps qs ++ heaps qs') ++ rest),
            append_assoc (heaps qs) (heaps qs') rest,
          )
          (takes (fixed d' qs') (heaps qs' ++ rest) (slots (qs ++ qs')) (omega (arith, total, gap))
            (omega (arith, size, heap_total, heap_size))
            (omega (arith, size, heap_total, heap_size, tail_size))),
    )

-- The form of a struct that is not final, and what a reader does with it first.
open_pack :
    (dense : Bool) (ts : FracTys) (v : Els ts)
    → pack (strct false dense ts) v
      ≡ le_bytes 2 (fracpack_fixed_size (strct false dense ts)) ++ body (parts ts v)
unfolding pack can_memcpy header is_ext_structure is_fixed_structure
open_pack dense ts v = refl

open_read :
    (dense : Bool) (ts : FracTys) (w : Els ts) (n : ℕ) (b : Bytes)
    → n < 2 ^ 16
    → fracunpack (strct false dense ts) w (le_bytes 2 n ++ b)
      ≡ fracunpack_members ts w (before_heap n (length b)) b
unfolding fracunpack unpack_members_of unpack_struct can_memcpy is_ext_structure is_fixed_structure
open_read dense ts w n b l = rw (unpack_number-le_bytes 2 n b (omega arith)) refl

at_heap : (n opened : ℕ) (s : Bytes) → n + length s ≤ opened → before_heap n opened s ≡ false
unfolding before_heap
at_heap n opened s l = ground arith

-- A struct that is not final and has a well-formed type, packed from valid members into less than 2^16
-- bytes, is read by a version of the struct that has more members behind: the members that were packed
-- get their values, and the others keep the values that they had, optionals included.
pub fracunpack-newer :
    (dense dense' : Bool) (ts us : FracTys) (v w : Els ts) (u : Els us) (rest : Bytes)
    → WellFormed (strct false dense ts)
    → AreValid ts v
    → length (pack (strct false dense ts) v) < 2 ^ 16
    → (s : InputStream) × (fracunpack
          (strct false dense' (extend ts us))
          (join_members ts us w u)
          (pack (strct false dense ts) v ++ rest)
        ≡ ok (join_members ts us v u, s))
fracunpack-newer dense dense' ts us v w u rest wf p l =
    let n = fracpack_fixed_size (strct false dense ts) in
    let qs = parts ts v in
    let size : slots qs ≡ n = slots-parts ts v wf.0 ∙ sym (strct_size false dense ts wf.1) in
    let form = open_pack dense ts v in
    let len = ap length form in
    let total = length-append (le_bytes 2 n) (body qs) in
    let two = length-le_bytes 2 n in
    let total' = length-body qs in
    let window = length-append (body qs) rest in
    let window' = length-append (heaps qs) rest in
    let opened = length (body qs ++ rest) in
    let taken =
      body-taken n opened (fracunpack_members ts w (before_heap n opened)) qs v rest
        (members-taken ts v wf.0 p n opened w) (omega (arith, len, total, total'))
        (omega (arith, total', window, size)) in
    (
      heaps qs ++ rest,
      rw
          (
            form,
            append_assoc (le_bytes 2 n) (body qs) rest,
            open_read dense' (extend ts us) (join_members ts us w u) n (body qs ++ rest)
                (omega (arith, len, total, total', size)),
          )
          (extended_members ts us v w u (before_heap n opened) (body qs ++ rest) (heaps qs ++ rest)
            taken
            (at_heap n opened (heaps qs ++ rest) (omega (arith, size, total', window, window')))),
    )

older_form :
    (ts : FracTys) (w : Els ts) (b : Bytes) (n : ℕ) (c rest : Bytes) (dense : Bool)
    → b ≡ le_bytes 2 n ++ c
    → fracunpack (strct false dense ts) w (b ++ rest)
      ≡ fracunpack (strct false dense ts) w (le_bytes 2 n ++ (c ++ rest))
older_form ts w b n c rest dense e =
    ap (λ x. fracunpack (strct false dense ts) w x)
      (ap (λ x. x ++ rest) e ∙ append_assoc (le_bytes 2 n) c rest)

-- A struct that is not final and has a well-formed type, packed from members of which the first ones are
-- valid into less than 2^16 bytes, is read by a version of the struct that has only those first members,
-- and they get their values.
pub fracunpack-older :
    (dense dense' : Bool) (ts us : FracTys) (v w : Els ts) (u : Els us) (rest : Bytes)
    → WellFormed (strct false dense (extend ts us))
    → AreValid ts v
    → length (pack (strct false dense (extend ts us)) (join_members ts us v u)) < 2 ^ 16
    → (s : InputStream) × (fracunpack
          (strct false dense' ts)
          w
          (pack (strct false dense (extend ts us)) (join_members ts us v u) ++ rest)
        ≡ ok (v, s))
fracunpack-older dense dense' ts us v w u rest wf p l =
    let n = fracpack_fixed_size (strct false dense (extend ts us)) in
    let qs = parts ts v in
    let qs' = parts us u in
    let same = parts-extend ts us v u in
    let size : slots (parts (extend ts us) (join_members ts us v u)) ≡ n =
      slots-parts (extend ts us) (join_members ts us v u) wf.0
      ∙ sym (strct_size false dense (extend ts us) wf.1) in
    let size' = ap slots same in
    let both = slots-append qs qs' in
    let form =
      open_pack dense (extend ts us) (join_members ts us v u)
      ∙ ap (λ ps. le_bytes 2 n ++ body ps) same in
    let len = ap length form in
    let total = length-append (le_bytes 2 n) (body (qs ++ qs')) in
    let total' = length-body (qs ++ qs') in
    let two = length-le_bytes 2 n in
    let window = length-append (body (qs ++ qs')) rest in
    let opened = length (body (qs ++ qs') ++ rest) in
    let (s, taken) =
      body-prefix n opened (fracunpack_members ts w (before_heap n opened)) qs qs' v rest
        (members-taken ts v (extend-AllWellFormed ts us wf.0) p n opened w)
        (omega (arith, len, total)) (omega (arith, window, size, size', both)) in
    let opening =
      open_read dense' ts w n (body (qs ++ qs') ++ rest)
        (omega (arith, len, total, total', size, size')) in
    (
      s,
      older_form ts w (pack (strct false dense (extend ts us)) (join_members ts us v u)) n
            (body (qs ++ qs')) rest dense' form
          ∙ opening
          ∙ taken,
    )
