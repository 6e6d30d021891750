-- ===== src/Frac/Pieces.antt =====
-- What the parts of `fracpack` write.
use mathlib.Core.Path.{subst}
use clarion.Prelude.{
  ℕ, ◌+◌, ◌-◌, ◌*◌, ◌%◌, ◌^◌, ◌<◌, ◌≡◌, refl, sym, ap, ◌∙◌, List, [], ◌∷◌, ◌++◌, length, take, Bool,
  true, false, inl, ltb, if◌then◌else◌, arith, length-append, append-nil, take_all-append,
}
use clarion.Stream.{ok, Bytes, ◌>>=◌}
use clarion.Stream.Memory.{le_bytes, length-le_bytes}
use clarion.Frac.Memory.{Out, write, Holds, Holds-frame, Holds-append}
use clarion.Frac.Write.{
  Packed, pack_object, pack_sized, pack_offsets, pack_items, pack_struct, pack_variant,
}
use clarion.Frac.Encode.{Part, slots, heaps, fixed, body, sized, length-fixed}
use clarion.Frac.Place.{Fits, Filled, Moved, Writes, Fills, Placed, PlacesAll, write-Filled}

take-length {ℓ} : {A : Type ℓ} (xs : List A) → take (length xs) xs ≡ xs
take-length xs = let e = append-nil xs in ap (take (length xs)) (sym e) ∙ take_all-append xs []

-- Filling two neighbouring places.
Filled-append :
    (o o1 o2 : Out) (b c : Bytes)
    → Filled o o1 b
    → Moved o o1 (length b)
    → Filled o1 o2 c
    → Filled o o2 (b ++ c)
Filled-append o o1 o2 b c p m q =
    let len = length-append b c in
    let pos = m.pos_moved in
    record {
      size_kept = q.size_kept ∙ p.size_kept;
      holds =
          Holds-append o2.cells o.pos b c
            (Holds-frame o1.cells o2.cells o.pos b
              (λ i l l'. q.outside i (inl (omega (arith, pos)))) p.holds)
            (subst (λ a. Holds o2.cells a c) pos q.holds);
      outside = λ i h. q.outside i (ground arith) ∙ p.outside i (ground arith);
    }

Moved-append :
    (o o1 o2 : Out) (b c : Bytes)
    → Moved o o1 (length b)
    → Moved o1 o2 (length c)
    → Moved o o2 (length (b ++ c))
Moved-append o o1 o2 b c m m' = record {
  pos_moved = omega (arith, length-append b c, m.pos_moved, m'.pos_moved);
  begin_kept = m'.begin_kept ∙ m.begin_kept;
  end_kept = m'.end_kept ∙ m.end_kept;
}

pub pack_object-Writes : (n : ℕ) (b : Bytes) → length b ≡ n → Writes (pack_object n b) b
unfolding pack_object
pack_object-Writes n b e o fits small =
    let (o', e', filled, moved) = write-Filled b o fits in
    (o', rw e' (ap (λ n. ok (n, o')) (sym e)), filled, moved)

write_some :
    (b : Bytes) (o : Out)
    → Fits o (length b)
    → (o' : Out) × ((if ltb 0 (length b) then write (take (length b) b) o else ok o) ≡ ok o')
      × Filled o o' b
      × Moved o o' (length b)
write_some [] o fits = (
  o,
  refl,
  record { size_kept = refl; holds = tt; outside = λ i h. refl },
  record { pos_moved = omega arith; begin_kept = refl; end_kept = refl },
)
write_some (c ∷ b) o fits =
    let (o', e, filled, moved) = write-Filled (c ∷ b) o fits in
    let some_bytes : ltb 0 (length (c ∷ b)) ≡ true = ground arith in
    (o', rw (some_bytes, take-length (c ∷ b), e), filled, moved)

pack_sized_lem :
    (b : Bytes) (o : Out)
    → Fits o (length (sized (length b) b))
    → length (sized (length b) b) < 2 ^ 16
    → (o' : Out) × (pack_sized (length b) b o ≡ ok (length (sized (length b) b), o'))
      × Filled o o' (sized (length b) b)
      × Moved o o' (length (sized (length b) b))
unfolding pack_sized sized
pack_sized_lem b o fits small =
    let n = length b in
    let len = length-append (le_bytes 4 n) b in
    let len4 = length-le_bytes 4 n in
    let (o1, e1, p, m) = write-Filled (le_bytes 4 n) o (omega (arith, len)) in
    let pos = m.pos_moved in
    let end = m.end_kept in
    let size = p.size_kept in
    let (o2, e2, q, m') = write_some b o1 (omega (arith, len)) in
    (
      o2,
      rw (e1, e2) (ap (λ k. ok (k, o2)) (omega (arith, len, len4))),
      Filled-append o o1 o2 (le_bytes 4 n) b p m q,
      Moved-append o o1 o2 (le_bytes 4 n) b m m',
    )

length-sized : (n : ℕ) (b : Bytes) → length (sized n b) ≡ 4 + length b
unfolding sized
length-sized n b = omega (arith, length-append (le_bytes 4 n) b, length-le_bytes 4 n)

pub pack_sized-Writes : (b : Bytes) → Writes (pack_sized (length b % 2 ^ 32) b) (sized (length b) b)
pack_sized-Writes b o fits small =
    let same : length b % 2 ^ 32 ≡ length b = omega (arith, length-sized (length b) b) in
    rw same (pack_sized_lem b o fits small)

pub pack_variant-Writes :
    (i : ℕ) (f : Out → Packed) (b : Bytes)
    → i < 256
    → Writes f b
    → Writes (pack_variant i f) (i ∷ b)
unfolding pack_variant
pack_variant-Writes i f b h w o fits small =
    let same : i % 256 ≡ i = omega arith in
    let (o1, e1, p, m) = write-Filled (i ∷ []) o (omega arith) in
    let pos = m.pos_moved in
    let end = m.end_kept in
    let size = p.size_kept in
    let (o2, e2, q, m') = w o1 (omega arith) (omega arith) in
    (
      o2,
      rw (same, e1, e2) (ap (λ k. ok (k, o2)) (omega arith)),
      Filled-append o o1 o2 (i ∷ []) b p m q,
      Moved-append o o1 o2 (i ∷ []) b m m',
    )

adjacent-Filled :
    (o o' : Out) (h : ℕ) (b c : Bytes)
    → o.begin + h ≡ o.pos + length b
    → Placed o o' h b c
    → Filled o o' (b ++ c)
adjacent-Filled o o' h b c e p =
    let len = length-append b c in
    record {
      size_kept = p.size_kept;
      holds =
          Holds-append o'.cells o.pos b c p.in_place (subst (λ a. Holds o'.cells a c) e p.in_heap);
      outside = λ i l. p.outside i (ground arith) (ground arith);
    }

-- Members behind `b`, with their heap behind them.
members_after :
    (b : Bytes) (m : ℕ → Out → Packed) (qs : List Part) (h : ℕ) (o o1 : Out)
    → PlacesAll m qs
    → h ≡ length b + slots qs
    → Fits o (length (b ++ body qs))
    → o.begin ≡ o.pos
    → length (b ++ body qs) < 2 ^ 16
    → Filled o o1 b
    → Moved o o1 (length b)
    → (o' : Out) × (m h o1 ≡ ok (length (b ++ body qs), o')) × Filled o o' (b ++ body qs)
members_after b m qs h o o1 w e fits begin small p moved =
    let len = length-append b (body qs) in
    let len' = length-append (fixed (slots qs) qs) (heaps qs) in
    let lenf = length-fixed (slots qs) qs in
    let pos = moved.pos_moved in
    let end = moved.end_kept in
    let begin' = moved.begin_kept in
    let size = p.size_kept in
    let (o2, e2, q) = w o1 h (omega (arith, len, len', lenf)) in
    let same : o1.begin + h - o1.pos ≡ slots qs = omega arith in
    let q' = subst (λ n. Placed o1 o2 h (fixed n qs) (heaps qs)) same q in
    (
      o2,
      rw e2 (ap (λ k. ok (k, o2)) (omega (arith, len, len', lenf))),
      Filled-append o o1 o2 b (body qs) p moved
          (adjacent-Filled o1 o2 h _ (heaps qs) (omega (arith, lenf)) q'),
    )

members-Fills :
    (b : Bytes) (m : ℕ → Out → Packed) (qs : List Part) (h : ℕ) (o : Out)
    → PlacesAll m qs
    → h ≡ length b + slots qs
    → Fits o (length (b ++ body qs))
    → o.begin ≡ o.pos
    → length (b ++ body qs) < 2 ^ 16
    → (o' : Out) × ((write b o >>= m h) ≡ ok (length (b ++ body qs), o'))
      × Filled o o' (b ++ body qs)
members-Fills b m qs h o w e fits begin small =
    let (o1, e1, p, moved) = write-Filled b o (omega (arith, length-append b (body qs))) in
    let (o2, e2, q) = members_after b m qs h o o1 w e fits begin small p moved in
    (o2, rw (e1, e2), q)

pub pack_offsets-Fills {ℓ} :
    {A : Type ℓ} (f : A → ℕ → Out → Packed) (v : List A) (qs : List Part)
    → PlacesAll (pack_items f v) qs
    → slots qs ≡ length v * 4
    → Fills (pack_offsets f v) (sized (length v * 4) (body qs))
unfolding pack_offsets sized
pack_offsets-Fills f v qs w e o fits begin small =
    let n = length v * 4 in
    let len = length-append (le_bytes 4 n) (body qs) in
    let len4 = length-le_bytes 4 n in
    let len' = length-append (fixed (slots qs) qs) (heaps qs) in
    let lenf = length-fixed (slots qs) qs in
    let same : n % 2 ^ 32 ≡ n = omega (arith, len, len', lenf) in
    let start : (n + 4) % 2 ^ 16 ≡ n + 4 = omega (arith, len, len4, len', lenf) in
    rw (same, start)
      (members-Fills (le_bytes 4 n) (pack_items f v) qs (n + 4) o w (omega (arith, len4)) fits begin
        small)

pub pack_struct-Fills :
    (ext : Bool) (start : ℕ) (m : ℕ → Out → Packed) (qs : List Part)
    → PlacesAll m qs
    → slots qs ≡ start
    → Fills (pack_struct ext start m) ((if ext then le_bytes 2 start else []) ++ body qs)
unfolding pack_struct
pack_struct-Fills true start m qs w e o fits begin small =
    let len = length-append (le_bytes 2 start) (body qs) in
    let len2 = length-le_bytes 2 start in
    let len' = length-append (fixed (slots qs) qs) (heaps qs) in
    let lenf = length-fixed (slots qs) qs in
    let same : (start + 2) % 2 ^ 16 ≡ start + 2 = omega (arith, len, len2, len', lenf) in
    rw same
      (members-Fills (le_bytes 2 start) m qs (start + 2) o w (omega (arith, len2)) fits begin small)
pack_struct-Fills false start m qs w e o fits begin small =
    members_after [] m qs start o o w (omega arith) fits begin small
      (record { size_kept = refl; holds = tt; outside = λ i h. refl })
      (record { pos_moved = omega arith; begin_kept = refl; end_kept = refl })
