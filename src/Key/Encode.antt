-- ===== src/Key/Encode.antt =====
-- The key of a value, and that `to_key` writes it to any stream.
use Prim.Native.Nat.{bit_and}
use mathlib.Core.List.{reverse}
use clarion.Prelude.{
  ℕ, zero, suc, ◌-◌, ◌*◌, ◌/◌, ◌^◌, ◌≡◌, refl, sym, ap, ◌∙◌, append_assoc, List, [], ◌∷◌, ◌++◌,
  Bool, true, false, Option, none, some, inl, inr, ◌==◌, if◌then◌else◌,
}
use clarion.Stream.{Result, ok, Bytes, ◌>>=◌}
use clarion.Stream.Sink.{Sink, write_then}
use clarion.Stream.Memory.{le_bytes}
use clarion.Bin.Write.{each}
use clarion.Key.Types.{KeyTy, KeyTys, El, Els, Alt, index, float_width}
use clarion.Key.Types.{flag, byte, integer, float, text, vec, opt, arr, tuple, variant, nil, cons}
use clarion.Key.Write.{
  biased, float_to_key, num_bytes, first_byte, low_bytes_to_key, to_key_varuint32, text_to_key,
  byte_to_key_optional, other_to_key_optional, to_key, to_key_optional, to_key_tuple, visit,
}

unfoldable pub joined {ℓ} : {A : Type ℓ} → (A → Bytes) → List A → Bytes
joined f [] = []
joined f (x ∷ xs) = f x ++ joined f xs

unfoldable pub low_bytes : ℕ → ℕ → Bytes
low_bytes zero v = []
low_bytes (suc i) v = bit_and (v / 2 ^ (i * 8)) 0xff ∷ low_bytes i v

unfoldable pub varuint_key : ℕ → Bytes
varuint_key v = first_byte (num_bytes v) v ∷ low_bytes (num_bytes v - 1) v

-- One byte, with an escape byte behind a zero; and two zeros for none.
unfoldable pub byte_key : Option ℕ → Bytes
byte_key none = 0 ∷ 0 ∷ []
byte_key (some c) = c ∷ (if c == 0 then 1 ∷ [] else [])

unfoldable pub other_key {ℓ} : {A : Type ℓ} → (A → Bytes) → Option A → Bytes
other_key f none = 0 ∷ []
other_key f (some v) = 1 ∷ f v

-- A sequence of elements, and its end.
unfoldable pub range_key {ℓ} : {A : Type ℓ} → (Option A → Bytes) → List A → Bytes
range_key f xs = joined (λ x. f (some x)) xs ++ f none

unfoldable pub option_key : (t : KeyTy) → (El t → Bytes) → Option (El t) → Bytes
option_key flag f none = byte_key none
option_key flag f (some v) = byte_key (some (if v then 1 else 0))
option_key (byte signed) f none = byte_key none
option_key (byte signed) f (some v) = byte_key (some (biased signed 1 v))
option_key t f o = other_key f o

unfoldable mutual
  pub key : (t : KeyTy) → El t → Bytes
  key flag v = (if v then 1 else 0) ∷ []
  key (byte signed) v = reverse (le_bytes 1 (biased signed 1 v))
  key (integer signed n) v = reverse (le_bytes n (biased signed n v))
  key (float double) v =
      reverse (le_bytes (float_width double) (float_to_key (float_width double) v))
  key text v = range_key byte_key v
  key (vec t) v = range_key (option_key t (key t)) v
  key (opt t) v = option_key t (key t) v
  key (arr count t) v = joined (key t) v
  key (tuple ts) v = tuple_key ts v
  key (variant ts) v = varuint_key (index ts v) ++ alt_key ts v

  pub tuple_key : (ts : KeyTys) → Els ts → Bytes
  tuple_key nil v = []
  tuple_key (cons t ts) v = key t v.0 ++ tuple_key ts v.1

  pub alt_key : (ts : KeyTys) → Alt ts → Bytes
  alt_key nil v = absurd v
  alt_key (cons t ts) (inl v) = key t v
  alt_key (cons t ts) (inr v) = alt_key ts v

module _ {S : Type 0} (k : Sink S) where
  each-joined {ℓ} :
      {A : Type ℓ} (f : A → S → Result S) (g : A → Bytes)
      → ((x : A) (s : S) → f x s ≡ k.write (g x) s)
      → (xs : List A) (s : S) → each f xs s ≡ k.write (joined g xs) s
  unfolding each joined
  each-joined f g h [] s = sym (k.write-nil s)
  each-joined f g h (x ∷ xs) s =
      rw (h x s) (write_then k (g x) _ (each f xs) s (λ s'. each-joined f g h xs s'))

  low_bytes_to_key_lem : (i v : ℕ) (s : S) → low_bytes_to_key k i v s ≡ k.write (low_bytes i v) s
  unfolding low_bytes_to_key low_bytes
  low_bytes_to_key_lem zero v s = sym (k.write-nil s)
  low_bytes_to_key_lem (suc i) v s = write_then k (_ ∷ []) _ _ s (λ s'. low_bytes_to_key_lem i v s')

  -- A byte, with an escape byte behind it if `b`.
  escape_lem :
      (c : ℕ) (b : Bool) (s : S)
      → (k.write (c ∷ []) s >>= λ s'. (if b then k.write (1 ∷ []) s' else ok s'))
        ≡ k.write (c ∷ (if b then 1 ∷ [] else [])) s
  escape_lem c true s = write_then k (c ∷ []) (1 ∷ []) _ s (λ s'. refl)
  escape_lem c false s = write_then k (c ∷ []) [] _ s (λ s'. sym (k.write-nil s'))

  escape_then :
      (c : ℕ) (b : Bool) (r : Bytes) (f : S → Result S) (s : S)
      → ((s' : S) → f s' ≡ k.write r s')
      → (k.write (c ∷ []) s >>= λ s'. (if b then k.write (1 ∷ []) s' else ok s') >>= f)
        ≡ k.write ((c ∷ (if b then 1 ∷ [] else [])) ++ r) s
  escape_then c true r f s h =
      write_then k (c ∷ []) (1 ∷ r) _ s (λ s'. write_then k (1 ∷ []) r f s' h)
  escape_then c false r f s h = write_then k (c ∷ []) r f s h

  byte_to_key_optional_lem :
      (o : Option ℕ) (s : S) → byte_to_key_optional k o s ≡ k.write (byte_key o) s
  unfolding byte_to_key_optional byte_key
  byte_to_key_optional_lem none s = refl
  byte_to_key_optional_lem (some c) s = escape_lem c (c == 0) s

  text_to_key_lem : (v : Bytes) (s : S) → text_to_key k v s ≡ k.write (range_key byte_key v) s
  unfolding text_to_key range_key joined byte_key
  text_to_key_lem [] s = refl
  text_to_key_lem (c ∷ v) s =
      escape_then c (c == 0) (range_key byte_key v) (text_to_key k v) s (text_to_key_lem v)
      ∙ ap (λ b. k.write b s) (sym (append_assoc (byte_key (some c)) _ _))

  range_lem {ℓ} :
      {A : Type ℓ} (f : Option A → S → Result S) (g : Option A → Bytes)
      → ((o : Option A) (s : S) → f o s ≡ k.write (g o) s)
      → (xs : List A) (s : S)
      → (each (λ x. f (some x)) xs s >>= f none) ≡ k.write (range_key g xs) s
  unfolding range_key
  range_lem f g h xs s =
      rw (each-joined (λ x. f (some x)) (λ x. g (some x)) (λ x s'. h (some x) s') xs s)
        (write_then k (joined (λ x. g (some x)) xs) (g none) (f none) s (h none))

  module _ {ℓ} {A : Type ℓ} (f : A → S → Result S) (g : A → Bytes)
      (h : (v : A) (s : S) → f v s ≡ k.write (g v) s) where
    other_to_key_optional_lem :
        (o : Option A) (s : S) → other_to_key_optional k f o s ≡ k.write (other_key g o) s
    unfolding other_to_key_optional other_key
    other_to_key_optional_lem none s = refl
    other_to_key_optional_lem (some v) s = write_then k (1 ∷ []) (g v) _ s (λ s'. h v s')

  to_key_optional_lem :
      (t : KeyTy) (f : El t → S → Result S) (g : El t → Bytes)
      → ((v : El t) (s : S) → f v s ≡ k.write (g v) s)
      → (o : Option (El t)) (s : S) → to_key_optional k t f o s ≡ k.write (option_key t g o) s
  unfolding to_key_optional option_key
  to_key_optional_lem flag f g h none s = byte_to_key_optional_lem none s
  to_key_optional_lem flag f g h (some v) s = byte_to_key_optional_lem _ s
  to_key_optional_lem (byte signed) f g h none s = byte_to_key_optional_lem none s
  to_key_optional_lem (byte signed) f g h (some v) s = byte_to_key_optional_lem _ s
  to_key_optional_lem (integer signed n) f g h o s = other_to_key_optional_lem f g h o s
  to_key_optional_lem (float double) f g h o s = other_to_key_optional_lem f g h o s
  to_key_optional_lem text f g h o s = other_to_key_optional_lem f g h o s
  to_key_optional_lem (vec t) f g h o s = other_to_key_optional_lem f g h o s
  to_key_optional_lem (opt t) f g h o s = other_to_key_optional_lem f g h o s
  to_key_optional_lem (arr count t) f g h o s = other_to_key_optional_lem f g h o s
  to_key_optional_lem (tuple ts) f g h o s = other_to_key_optional_lem f g h o s
  to_key_optional_lem (variant ts) f g h o s = other_to_key_optional_lem f g h o s

  to_key_varuint32_then :
      (v : ℕ) (b : Bytes) (f : S → Result S) (s : S)
      → ((s' : S) → f s' ≡ k.write b s')
      → (to_key_varuint32 k v s >>= f) ≡ k.write (varuint_key v ++ b) s
  unfolding to_key_varuint32 varuint_key
  to_key_varuint32_then v b f s h =
      rw
        (write_then k (first_byte (num_bytes v) v ∷ []) _ _ s
          (low_bytes_to_key_lem (num_bytes v - 1) v))
        (write_then k _ b f s h)

  mutual
    unfolding to_key key

    to_key_lem : (t : KeyTy) (v : El t) (s : S) → to_key k t v s ≡ k.write (key t v) s
    to_key_lem flag v s = refl
    to_key_lem (byte signed) v s = refl
    to_key_lem (integer signed n) v s = refl
    to_key_lem (float double) v s = refl
    to_key_lem text v s = text_to_key_lem v s
    to_key_lem (vec t) v s =
        range_lem (to_key_optional k t (to_key k t)) (option_key t (key t))
          (to_key_optional_lem t (to_key k t) (key t) (to_key_lem t)) v s
    to_key_lem (opt t) v s = to_key_optional_lem t _ _ (to_key_lem t) v s
    to_key_lem (arr count t) v s = each-joined (to_key k t) (key t) (to_key_lem t) v s
    to_key_lem (tuple ts) v s = to_key_tuple_lem ts v s
    to_key_lem (variant ts) v s = to_key_varuint32_then _ _ _ s (visit_lem ts v)

    to_key_tuple_lem :
        (ts : KeyTys) (v : Els ts) (s : S) → to_key_tuple k ts v s ≡ k.write (tuple_key ts v) s
    to_key_tuple_lem nil v s = sym (k.write-nil s)
    to_key_tuple_lem (cons t ts) v s =
        rw (to_key_lem t v.0 s) (write_then k _ _ _ s (to_key_tuple_lem ts v.1))

    visit_lem : (ts : KeyTys) (v : Alt ts) (s : S) → visit k ts v s ≡ k.write (alt_key ts v) s
    visit_lem nil v s = absurd v
    visit_lem (cons t ts) (inl v) s = to_key_lem t v s
    visit_lem (cons t ts) (inr v) s = visit_lem ts v s

  -- To any stream, `to_key` writes the key of the value.
  pub to_key-key : (t : KeyTy) (v : El t) (s : S) → to_key k t v s ≡ k.write (key t v) s
  to_key-key t v s = to_key_lem t v s
