-- ===== src/Name/Trailing.antt =====
-- Dots at the end of a text.
use Prim.Native.Nat.{bit_and}
use clarion.Prelude.{
  ℕ, ◌+◌, ◌-◌, ◌*◌, ◌%◌, ◌^◌, ◌<◌, ◌≡◌, refl, sym, ◌∙◌, ap, [], ◌∷◌, arith, true, ltb, ◌==◌,
  Bool-cases, Option-cases, inl, inr, ==_iff, ltb→lt,
}
use clarion.Prelude.Bits.{bit_or-zero}
use clarion.Stream.{Bytes}
use clarion.Name.Strict.{char_to_name_digit_strict, last_digit, is_empty, strict_loop}
use clarion.Name.Print.{cut_dot, strip}
use clarion.Name.Steps.{strict_loop_digit, strict_loop_refused, strict_loop_last}

is_empty-strip : (str : Bytes) → is_empty str ≡ true → is_empty (strip str) ≡ true
unfolding is_empty strip
is_empty-strip [] h = refl
is_empty-strip (c ∷ str) h = cc

-- `t` may stand for `str` behind any character, for the reader that ends with `v`.
abbrev Serves : Bytes → Bytes → ℕ → Type 0
Serves t str v =
    ((i name : ℕ) → strict_loop i str name ≡ (true, v) → strict_loop i t name ≡ (true, v))
    × (is_empty str ≡ true → is_empty t ≡ true)

last_digit-Serves :
    (c : ℕ) (t str : Bytes) (name v : ℕ)
    → Serves t str v
    → last_digit c str name ≡ (true, v)
    → last_digit c t name ≡ (true, v)
unfolding last_digit
last_digit-Serves c t str name v s e = ground (arith, s.1)

keep_character :
    (c : ℕ) (t str : Bytes) (i name v : ℕ)
    → Serves t str v
    → strict_loop i (c ∷ str) name ≡ (true, v)
    → strict_loop i (c ∷ t) name ≡ (true, v)
keep_character c t str i name v s e = elim (Bool-cases (ltb i 12)) [
  | inr past ↦
      strict_loop_last i c t name past
      ∙ last_digit-Serves c t str name v s (sym (strict_loop_last i c str name past) ∙ e)
  | inl within ↦ elim (Option-cases (char_to_name_digit_strict c)) [
    | inl refused ↦ cc (strict_loop_refused i c str name (ltb→lt i 12 within) refused)
    | inr (x, found) ↦
        strict_loop_digit i c x t name (ltb→lt i 12 within) found
        ∙ s.0 (i + 1) _ (sym (strict_loop_digit i c x str name (ltb→lt i 12 within) found) ∙ e)
  ]
]

strict_loop_end : (i name v : ℕ) → strict_loop i [] name ≡ (true, v) → name ≡ v
unfolding strict_loop
strict_loop_end i name v e = cc

-- A dot adds nothing.
dot_round :
    (i : ℕ) (str : Bytes) (name : ℕ)
    → i < 12
    → strict_loop i (b'.' ∷ str) name ≡ strict_loop (i + 1) str name
dot_round i str name h =
    let nothing : bit_and 0 0x1f * 2 ^ (64 - 5 * (i + 1)) % 2 ^ 64 ≡ 0 = omega arith in
    strict_loop_digit i b'.' 0 str name h (unfold char_to_name_digit_strict in refl)
    ∙ ap (strict_loop (i + 1) str) (rw nothing (bit_or-zero name))

last_dot : (str : Bytes) (name v : ℕ) → last_digit b'.' str name ≡ (true, v) → name ≡ v
unfolding last_digit char_to_name_digit_strict
last_dot str name v e = cc (bit_or-zero name)

drop_dot :
    (str : Bytes) (i name v : ℕ)
    → Serves [] str v
    → strict_loop i (b'.' ∷ str) name ≡ (true, v)
    → name ≡ v
drop_dot str i name v s e = elim (Bool-cases (ltb i 12)) [
  | inr past ↦ last_dot str name v (sym (strict_loop_last i b'.' str name past) ∙ e)
  | inl within ↦
      strict_loop_end (i + 1) name v
        (s.0 (i + 1) name (sym (dot_round i str name (ltb→lt i 12 within)) ∙ e))
]

cut_dot-Serves :
    (c : ℕ) (t str : Bytes) (v : ℕ)
    → Serves t str v
    → (i name : ℕ) → strict_loop i (c ∷ str) name ≡ (true, v)
    → strict_loop i (cut_dot c t) name ≡ (true, v)
unfolding cut_dot
cut_dot-Serves c (d ∷ rest) str v s i name e = keep_character c (d ∷ rest) str i name v s e
cut_dot-Serves c [] str v s i name e = elim (Bool-cases (c == b'.')) [
  | inr other ↦ rw other (keep_character c [] str i name v s e)
  | inl dot ↦
      let same : c ≡ b'.' = (==_iff c b'.').0 dot in
      rw dot (unfold strict_loop in ap (λ n. (true, n)) (drop_dot str i name v s (rw same at e)))
]

-- A text that is read keeps its value when the dots at its end are cut off.
pub strict_loop-strip :
    (str : Bytes) (v i name : ℕ)
    → strict_loop i str name ≡ (true, v)
    → strict_loop i (strip str) name ≡ (true, v)
unfolding strip
strict_loop-strip [] v i name e = e
strict_loop-strip (c ∷ str) v i name e =
    cut_dot-Serves c (strip str) str v (strict_loop-strip str v, is_empty-strip str) i name e
