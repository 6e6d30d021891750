-- ===== src/Key/Convert.antt =====
-- `convert_to_key`: a first pass counts the bytes, a second one fills a buffer of that size.
use Prim.Native.Nat.{compare, Ordering}
use clarion.Prelude.{
  ◌+◌, ◌≡◌, refl, sym, ap, ◌∙◌, [], ◌∷◌, ◌++◌, length, replicate, ◌==◌, if◌then◌else◌, arith,
  append-nil,
}
use clarion.Stream.{Result, ok, err, underrun, Bytes, ◌>>=◌}
use clarion.Stream.Size
use clarion.Stream.FixedBuf
use clarion.Stream.FixedBuf.{FixedBufStream}
use clarion.Bin.Convert.{fill}
use clarion.Key.Types.{KeyTy, El, IsValid, also, compare_values, compare_bytes}
use clarion.Key.Write.{to_key}
use clarion.Key.Encode.{key, to_key-key}
use clarion.Key.Order.{Compares}
use clarion.Key.Compare.{key-Compares}

-- The buffer is the end of `bin`, made longer by zero bytes.
unfoldable pub convert_to_key : (t : KeyTy) → El t → Bytes → Result Bytes
convert_to_key t v bin = do
  size ← to_key Size.sink t v 0
  fbs ← to_key FixedBuf.sink t v (record { before = []; after = replicate size 0 })
  if length fbs.after == 0 then ok (bin ++ (fbs.before ++ fbs.after)) else err underrun

-- The two passes of `convert_to_key` agree, the check behind them never fails, and the result is `bin`
-- followed by what `to_key` writes.
pub convert_to_key-key :
    (t : KeyTy) (v : El t) (bin : Bytes) → convert_to_key t v bin ≡ ok (bin ++ key t v)
unfolding convert_to_key Size.write
convert_to_key-key t v bin = rw (to_key-key Size.sink t v 0) (
    rw (
      to_key-key FixedBuf.sink t v _,
      fill (0 + length (key t v)) (key t v) (omega arith),
      append-nil,
    ))

also_eq : (o : Ordering) → also o Ordering.eq ≡ o
also_eq Ordering.lt = refl
also_eq Ordering.eq = refl
also_eq Ordering.gt = refl

alone :
    (t : KeyTy) (v w : El t)
    → Compares (key t v) (key t w) (compare_values t v w)
    → compare_bytes (key t v) (key t w) ≡ compare_values t v w
alone t v w c =
    ap (λ l. compare_bytes l (key t w)) (sym (append-nil (key t v)))
    ∙ ap (λ l. compare_bytes (key t v ++ []) l) (sym (append-nil (key t w)))
    ∙ c.with_rest [] []
    ∙ also_eq _

-- Keys of valid values compare as bytes the way the values compare (a NaN, which C++ leaves unordered, by its
-- bit pattern), and whatever follows the keys decides only between values that are equal.
pub convert_to_key_order :
    (t : KeyTy) (v w : El t) (r r' : Bytes)
    → IsValid t v
    → IsValid t w
    → (a : Bytes) × (b : Bytes) × (convert_to_key t v [] ≡ ok a)
      × (convert_to_key t w [] ≡ ok b)
      × (compare_bytes a b ≡ compare_values t v w)
      × (compare_bytes (a ++ r) (b ++ r') ≡ also (compare_values t v w) (compare_bytes r r'))
convert_to_key_order t v w r r' p q =
    let c = key-Compares t v w p q in
    (
      key t v,
      key t w,
      convert_to_key-key t v [],
      convert_to_key-key t w [],
      alone t v w c,
      c.with_rest r r',
    )

compare_bytes_self : (a : Bytes) → compare_bytes a a ≡ Ordering.eq
compare_bytes_self [] = refl
compare_bytes_self (x ∷ a) =
    let e : compare x x ≡ Ordering.eq = ground arith in rw (e, compare_bytes_self a)

same_or_prefix :
    (o : Ordering) (r : Bytes)
    → also o (compare_bytes r []) ≡ Ordering.eq
    → (o ≡ Ordering.eq) × (r ≡ [])
same_or_prefix Ordering.eq [] e = (refl, refl)
same_or_prefix Ordering.eq (x ∷ r) e = cc
same_or_prefix Ordering.lt r e = cc
same_or_prefix Ordering.gt r e = cc

-- No key of a valid value is a proper prefix of the key of a valid value of its type, and only values that
-- compare equal have one key.
pub convert_to_key_prefix :
    (t : KeyTy) (v w : El t) (a r : Bytes)
    → IsValid t v
    → IsValid t w
    → convert_to_key t v [] ≡ ok a
    → convert_to_key t w [] ≡ ok (a ++ r)
    → (compare_values t v w ≡ Ordering.eq) × (r ≡ [])
convert_to_key_prefix t v w a r p q e e' =
    let ea : key t v ≡ a = let k = convert_to_key-key t v [] in cc in
    let eb : key t w ≡ a ++ r = let k = convert_to_key-key t w [] in cc in
    let c = key-Compares t v w p q in
    let same : compare_bytes (key t v ++ r) (key t w ++ []) ≡ Ordering.eq =
      rw (append-nil (key t w), ea, eb) (compare_bytes_self (a ++ r)) in
    same_or_prefix _ r (sym (c.with_rest r []) ∙ same)
