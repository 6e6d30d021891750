-- ===== src/Proto/Loops.antt =====
-- The rounds of the readers' loops, one after the other, and what each part of the format is read as.
use clarion.Prelude.{
  ℕ, zero, suc, ◌+◌, ◌*◌, ◌/◌, ◌%◌, ◌^◌, ◌≤◌, ◌<◌, ◌≡◌, refl, sym, ap, ◌∙◌, List, [], ◌∷◌, ◌++◌,
  length, true, false, ◌==◌, ==_iff, ltb, All, arith, length-append, append_assoc, append-nil,
  take_all-append,
}
use native.Mathlib.Nat.{mul-div_cancel}
use clarion.Prelude.Bits.{bit_and_mask}
use clarion.Stream.{Result, ok, Bytes, ◌>>=◌}
use clarion.Stream.Input.{skip-append, read, read-append}
use clarion.Stream.Memory.{block, length-block, of_block-block}
use clarion.Varint.Read.{varuint32_from_bin}
use clarion.Varint.RoundTrip.{varuint32_from_bin-bytes}
use clarion.Varint.Groups.{varuint_bytes, length-groups}
use clarion.Proto.Read.{
  Reader, key_wire, key_number, read_sized, read_nested, read_packed, read_loop, read_fields,
  item_field,
}
use clarion.Proto.Encode.{sized, key_bytes, items_bytes, packed_bytes}

-- The reader takes `b` and leaves what follows.
abbrev pub Reads : {A : Type 0} → Reader A → Bytes → A → Type 0
Reads r b v = (rest : Bytes) → r (b ++ rest) ≡ ok (v, rest)

-- The rounds on `b` take the object from `v` to `v'`, and the loop goes on behind `b`.
abbrev pub Goes : {A : Type 0} → (A → ℕ → ℕ → Reader A) → Bytes → A → A → Type 0
Goes {A} field b v v' =
    (rest : Bytes) (fuel : ℕ) (r : Result (A × Bytes))
    → length (b ++ rest) ≤ fuel
    → ((fuel' : ℕ) → length rest ≤ fuel' → read_loop field fuel' v' rest ≡ r)
    → read_loop field fuel v (b ++ rest) ≡ r

pub Goes-nil : {A : Type 0} (field : A → ℕ → ℕ → Reader A) (v : A) → Goes field [] v v
Goes-nil field v rest fuel r h go = go fuel h

pub Goes-append :
    {A : Type 0} (field : A → ℕ → ℕ → Reader A) (a b : Bytes) (v v' v'' : A)
    → Goes field a v v'
    → Goes field b v' v''
    → Goes field (a ++ b) v v''
Goes-append field a b v v' v'' ha hb rest fuel r h go =
    rw (append_assoc a b rest)
      (ha (b ++ rest) fuel r (rw (← append_assoc a b rest) h) (λ fuel' h'. hb rest fuel' r h' go))

pub key_wire_lem : (field wire : ℕ) → wire < 8 → key_wire (field * 8 + wire) ≡ wire
unfolding key_wire
key_wire_lem field wire h = bit_and_mask 3 ((field * 8 + wire) % 2 ^ 8) ∙ omega arith

pub key_number_lem : (field wire : ℕ) → wire < 8 → key_number (field * 8 + wire) ≡ field
unfolding key_number
key_number_lem field wire h = omega arith

read_loop-round :
    {A : Type 0} (field : A → ℕ → ℕ → Reader A) (fuel : ℕ) (v : A) (s : Bytes)
    → 1 ≤ length s
    → read_loop field (suc fuel) v s ≡ (
        varuint32_from_bin s >>= λ k.
        field v (key_number k.0) (key_wire k.0) k.1 >>= λ w. read_loop field fuel w.0 w.1)
unfolding read_loop
read_loop-round field fuel v [] h = absurd (omega arith)
read_loop-round field fuel v (b ∷ s) h = refl

length-keyed : (key : ℕ) (b : Bytes) → length b < length (varuint_bytes key ++ b)
length-keyed key b = omega (arith, length-append (varuint_bytes key) b, length-groups 4 key)

-- A key is read as the number and the wire type of its field.
pub key_bytes-Reads :
    (number wire : ℕ)
    → number < 2 ^ 29
    → wire < 8
    → Reads varuint32_from_bin (key_bytes number wire) (number * 8 + wire)
key_bytes-Reads number wire hn hw rest =
    varuint32_from_bin-bytes (number * 8 + wire) rest (omega arith)

-- One field.
pub Goes-field :
    {A : Type 0} (field : A → ℕ → ℕ → Reader A) (number wire : ℕ) (b : Bytes) (v v' : A)
    → number < 2 ^ 29
    → wire < 8
    → Reads (field v number wire) b v'
    → Goes field (key_bytes number wire ++ b) v v'
Goes-field field number wire b v v' hn hw h rest zero r fits go = absurd (
    omega
      (arith, length-keyed (number * 8 + wire) b, length-append (key_bytes number wire ++ b) rest))
Goes-field field number wire b v v' hn hw h rest (suc fuel) r fits go =
    let longer = length-keyed (number * 8 + wire) (b ++ rest) in
    let assoc : (key_bytes number wire ++ b) ++ rest ≡ key_bytes number wire ++ (b ++ rest) =
      append_assoc (key_bytes number wire) b rest in
    let room : length (key_bytes number wire ++ (b ++ rest)) ≤ suc fuel = rw (← assoc) fits in
    rw
      (
        assoc,
        read_loop-round field fuel v (key_bytes number wire ++ (b ++ rest)) (omega arith),
        key_bytes-Reads number wire hn hw (b ++ rest),
        key_number_lem number wire hw,
        key_wire_lem number wire hw,
        h rest,
      )
      (go fuel (omega (arith, length-append b rest)))

pub read_fields-Goes :
    {A : Type 0} (field : A → ℕ → ℕ → Reader A) (b : Bytes) (v v' : A)
    → Goes field b v v'
    → read_fields field v b ≡ ok (v', [])
unfolding read_fields read_loop
read_fields-Goes field b v v' h =
    rw (← append-nil b) (h [] (length (b ++ [])) (ok (v', [])) (omega arith) (λ fuel _. refl))

pub read_sized-Reads : (b : Bytes) → length b < 2 ^ 32 → Reads read_sized (sized b) b
unfolding read_sized
read_sized-Reads b h rest =
    rw
      (
        append_assoc (varuint_bytes (length b)) b rest,
        varuint32_from_bin-bytes (length b) (b ++ rest) h,
      )
      (read-append (length b) b rest refl)

pub read_nested-Reads :
    {A : Type 0} (object : Reader A) (b left : Bytes) (v : A)
    → length b < 2 ^ 32
    → object b ≡ ok (v, left)
    → Reads (read_nested object) (sized b) v
unfolding read_nested
read_nested-Reads object b left v h e rest =
    let enough : ltb (length (b ++ rest)) (length b) ≡ false =
      ground (arith, length-append b rest) in
    rw
      (
        append_assoc (varuint_bytes (length b)) b rest,
        varuint32_from_bin-bytes (length b) (b ++ rest) h,
        enough,
        skip-append b rest,
        take_all-append b rest,
        e,
      )
      refl

pub read_packed-bytes :
    (n : ℕ) (v : List ℕ)
    → 0 < n
    → All (λ x. x < 256 ^ n) v
    → length (packed_bytes n v) < 2 ^ 32
    → read_packed n (packed_bytes n v) ≡ ok (v, [])
unfolding read_packed
read_packed-bytes n v hn h fits =
    let b = block n v in
    let size : length b < 2 ^ 32 = omega (
      arith,
      length-append (key_bytes 1 2) (sized b),
      length-append (varuint_bytes (length b)) b,
    ) in
    let whole : read (length b) b ≡ ok (b, []) =
      ap (read (length b)) (sym (append-nil b)) ∙ read-append (length b) b [] refl in
    let elements : length b / n ≡ length v = rw (length-block n v) (mul-div_cancel (length v) hn) in
    let exact : (length v * n == length b) ≡ true = (==_iff _ _).1 (sym (length-block n v)) in
    rw
      (
        key_bytes-Reads 1 2 (omega arith) (omega arith) (sized b),
        key_number_lem 1 2 (omega arith),
        varuint32_from_bin-bytes (length b) b size,
        whole,
        elements,
        exact,
        of_block-block n v h,
      )
      refl

pub Goes-items :
    {A : Type 0} (P : A → Type 0) (member : Reader A) (f : A → Bytes)
    → ((x : A) → P x → Reads member (f x) x)
    → (acc v : List A) → All P v
    → Goes (item_field member) (items_bytes f v) acc (acc ++ v)
unfolding item_field
Goes-items P member f h acc [] hv = rw (append-nil acc) (Goes-nil (item_field member) acc)
Goes-items P member f h acc (x ∷ v) (hx, hv) =
    let appended : Reads (item_field member acc 1 2) (f x) (acc ++ (x ∷ [])) =
      (λ rest. rw (h x hx rest) refl) in
    rw (← append_assoc (key_bytes 1 2) (f x) (items_bytes f v), ← append_assoc acc (x ∷ []) v)
      (Goes-append (item_field member) (key_bytes 1 2 ++ f x) _ acc (acc ++ (x ∷ [])) _
        (Goes-field (item_field member) 1 2 (f x) acc _ (omega arith) (omega arith) appended)
        (Goes-items P member f h (acc ++ (x ∷ [])) v hv))
