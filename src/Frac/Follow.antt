-- ===== src/Frac/Follow.antt =====
-- A reader that goes where a checker went before: steps of both, one beside the other.
use clarion.Prelude.{
  ℕ, zero, suc, ◌≡◌, refl, sym, ap, ◌∙◌, List, [], ◌∷◌, length, take, Bool, true, false, inl, inr,
  ltb, if◌then◌else◌, arith, Bool-cases,
}
use clarion.Stream.{
  Result, ok, err, overrun, length_error, invalid_tuple_index, stuck, ◌>>=◌, >>=-returns,
  ok_injective,
}
use clarion.Stream.Memory.{of_le_bytes}
use clarion.Stream.Input.{read-fits, InputStream, read, sub_stream}
use clarion.Stream.Check
use clarion.Stream.Check.{CheckInputStream, open_at, checkread}
use clarion.Frac.Read.{Unpacked, unpack_number, unpack_text, unpack_items, unpack_at, unpack_heap}
use clarion.Frac.Check.{Checked, check_number, check_sized, check_items, check_at, check_heap}

-- No exception.
abbrev pub Quiet {ℓ} : {A : Type ℓ} → Result A → Type 0
Quiet (ok a) = Unit {0}
Quiet (err e) = ⊥
Quiet length_error = ⊥
Quiet invalid_tuple_index = ⊥
Quiet stuck = Unit {0}

-- No exception, and the stream is left at `s`.
abbrev pub LeavesAt {ℓ} : {A : Type ℓ} → InputStream → Result (A × InputStream) → Type 0
LeavesAt s (ok r) = r.1 ≡ s
LeavesAt s (err e) = ⊥
LeavesAt s length_error = ⊥
LeavesAt s invalid_tuple_index = ⊥
LeavesAt s stuck = Unit {0}

abbrev pub Follows :
    {A : Type 0} → (InputStream → Unpacked A) → (CheckInputStream → Checked) → Type 0
Follows r c = (s s' : CheckInputStream) → c s ≡ ok s' → LeavesAt s'.rest (r s.rest)

abbrev pub Quieted :
    {A : Type 0} → (InputStream → Unpacked A) → (CheckInputStream → Checked) → Type 0
Quieted r c = (s s' : CheckInputStream) → c s ≡ ok s' → Quiet (r s.rest)

pub LeavesAt-Quiet : {A : Type 0} (s : InputStream) (m : Unpacked A) → LeavesAt s m → Quiet m
LeavesAt-Quiet s (ok r) l = tt
LeavesAt-Quiet s (err e) l = l
LeavesAt-Quiet s length_error l = l
LeavesAt-Quiet s invalid_tuple_index l = l
LeavesAt-Quiet s stuck l = tt

pub Follows-Quieted :
    {A : Type 0} (r : InputStream → Unpacked A) (c : CheckInputStream → Checked)
    → Follows r c
    → Quieted r c
Follows-Quieted r c f s s' e = LeavesAt-Quiet s'.rest (r s.rest) (f s s' e)

pub >>=-Quiet {ℓ κ} :
    {A : Type ℓ} {B : Type κ} (m : Result A) (f : A → Result B)
    → Quiet m
    → ((a : A) → m ≡ ok a → Quiet (f a))
    → Quiet (m >>= f)
>>=-Quiet (ok a) f q h = h a refl
>>=-Quiet (err e) f q h = q
>>=-Quiet length_error f q h = q
>>=-Quiet invalid_tuple_index f q h = q
>>=-Quiet stuck f q h = tt

pub >>=-LeavesAt {ℓ κ} :
    {A : Type ℓ} {B : Type κ} (s : InputStream) (m : Result A) (f : A → Result (B × InputStream))
    → Quiet m
    → ((a : A) → m ≡ ok a → LeavesAt s (f a))
    → LeavesAt s (m >>= f)
>>=-LeavesAt s (ok a) f q h = h a refl
>>=-LeavesAt s (err e) f q h = q
>>=-LeavesAt s length_error f q h = q
>>=-LeavesAt s invalid_tuple_index f q h = q
>>=-LeavesAt s stuck f q h = tt

-- The next step starts where the first one leaves the stream.
pub then-LeavesAt :
    {A B : Type 0} (s s' : InputStream) (m : Unpacked A) (f : A × InputStream → Unpacked B)
    → LeavesAt s m
    → ((a : A) → LeavesAt s' (f (a, s)))
    → LeavesAt s' (m >>= f)
then-LeavesAt s s' (ok (a, t)) f l h = rw l (h a)
then-LeavesAt s s' (err e) f l h = l
then-LeavesAt s s' length_error f l h = l
then-LeavesAt s s' invalid_tuple_index f l h = l
then-LeavesAt s s' stuck f l h = tt

guarded {ℓ} :
    {A : Type ℓ} {x y : A} (b : Bool)
    → (if b then err overrun else ok x) ≡ ok y
    → (b ≡ false) × (x ≡ y)
guarded true e = cc
guarded false e = (refl, ok_injective e)

pub checkread-read :
    (n : ℕ) (s s' : CheckInputStream)
    → checkread n s ≡ ok s'
    → read n s.rest ≡ ok (take n s.rest, s'.rest)
unfolding checkread
checkread-read n s s' e =
    let (fits, same) = guarded (ltb (length s.rest) n) e in
    rw (read-fits n s.rest fits) (ap (λ c. ok (take n s.rest, c.rest)) same)

pub check_number-unpack_number :
    (n : ℕ) (s : CheckInputStream) (k : ℕ) (s' : CheckInputStream)
    → check_number n s ≡ ok (k, s')
    → unpack_number n s.rest ≡ ok (k, s'.rest)
unfolding check_number unpack_number Check.read
check_number-unpack_number n s k s' e =
    let (r, e1, e2) = >>=-returns (Check.read n s) _ (k, s') e in
    let (fits, same) = guarded (ltb (length s.rest) n) e1 in
    rw (read-fits n s.rest fits) (
      ap (λ x. ok (of_le_bytes x.0, x.1.rest)) same
      ∙ ap {B = Unpacked ℕ} (λ x. ok (x.0, x.1.rest)) (ok_injective e2))

pub number-Follows : (n : ℕ) → Follows (unpack_number n) (checkread n)
unfolding unpack_number
number-Follows n s s' e = rw (checkread-read n s s' e) refl

pub sized-Follows : Follows unpack_text check_sized
unfolding unpack_text check_sized
sized-Follows s s' e =
    let ((size, s1), e1, e2) = >>=-returns (check_number 4 s) _ s' e in
    rw (check_number-unpack_number 4 s size s1 e1) (elim (Bool-cases (ltb 0 size)) [
      | inl some_bytes ↦
          let e3 : checkread size s1 ≡ ok s' = rw some_bytes at e2 in
          rw (some_bytes, checkread-read size s1 s' e3) refl
      | inr none_left ↦
          let e3 : ok s1 ≡ ok s' = rw none_left at e2 in
          rw none_left (ap (λ c. c.rest) (ok_injective e3))
    ])

pub items-Follows :
    {A : Type 0} (f : A → InputStream → Unpacked A) (c : CheckInputStream → Checked)
    → ((x : A) → Follows (f x) c)
    → (n : ℕ) (v : List A) → length v ≡ n
    → Follows (unpack_items f v) (check_items c n)
unfolding unpack_items check_items
items-Follows f c h zero [] e s s' e' = ap (λ x. x.rest) (ok_injective e')
items-Follows f c h zero (x ∷ v) e s s' e' = absurd (omega arith)
items-Follows f c h (suc n) [] e s s' e' = absurd (omega arith)
items-Follows f c h (suc n) (x ∷ v) e s s' e' =
    let (s1, e1, e2) = >>=-returns (c s) _ s' e' in
    then-LeavesAt s1.rest s'.rest (f x s.rest) _ (h x s s1 e1) (λ y.
      then-LeavesAt s'.rest s'.rest (unpack_items f v s1.rest) _
        (items-Follows f c h n v (omega arith) s1 s' e2) (λ ys. refl))

-- A stream that an offset leads to, and the value there.
pub at-Quiet :
    {A : Type 0} (f : A → InputStream → Unpacked A) (c : CheckInputStream → Checked) (v : A)
    (offset : ℕ) (s s1 s' : CheckInputStream)
    → Quieted (f v) c
    → check_at c offset s s1 ≡ ok s'
    → Quiet (unpack_at f offset v s.rest) × (s'.rest ≡ s1.rest)
unfolding check_at unpack_at open_at
at-Quiet f c v offset s s1 s' q e =
    let (w, e1, e2) = >>=-returns (sub_stream offset s.rest) _ s' e in
    let (i, e3, e4) = >>=-returns (c (open_at w)) _ s' e2 in
    (
      rw e1 (>>=-Quiet (f v w) _ (q (open_at w) i e3) (λ a _. tt)),
      sym (ap (λ x. x.rest) (ok_injective e4)),
    )

pub heap-Follows :
    {A : Type 0} (f : A → InputStream → Unpacked A) (c : CheckInputStream → Checked) (v : A)
    → Quieted (f v) c
    → Follows (unpack_heap f v) (check_heap c)
unfolding unpack_heap check_heap
heap-Follows f c v q s s' e =
    let ((offset, s1), e1, e2) = >>=-returns (check_number 4 s) _ s' e in
    let (quiet, same) = at-Quiet f c v offset s s1 s' q e2 in
    rw (check_number-unpack_number 4 s offset s1 e1)
      (>>=-LeavesAt s'.rest (unpack_at f offset v s.rest) _ quiet (λ a _. sym same))
