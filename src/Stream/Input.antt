-- ===== src/Stream/Input.antt =====
-- `input_stream`: a window of bytes, from `pos` up to `end`.
use clarion.Prelude.{
  ℕ, ◌≡◌, refl, ◌++◌, length, take, drop, ltb, leb, if◌then◌else◌, true, false, arith,
  length-append, take_all-append, drop_all-append,
}
use clarion.Stream.Outcome.{Result, ok, err, stuck, overrun, Bytes}

-- The bytes in [pos, end). The constructors from a vector or a string view give all of its bytes.
abbrev pub InputStream : Type 0
InputStream = Bytes

unfoldable pub remaining : InputStream → ℕ
remaining s = length s

unfoldable pub check_available : ℕ → InputStream → Result (Unit {0})
check_available size s = if ltb (length s) size then err overrun else ok tt

-- `memcpy(dest, pos, size); pos += size;`. Behind `end` there is no memory of the stream's.
unfoldable pub copy : ℕ → InputStream → Result (Bytes × InputStream)
copy size s = if leb size (length s) then ok (take size s, drop size s) else stuck

-- `pos += size;`
unfoldable pub advance : ℕ → InputStream → Result InputStream
advance size s = if leb size (length s) then ok (drop size s) else stuck

-- `read` copies the bytes out, `skip` and `checkread` only move `pos`, and `read_reuse_storage`
-- returns a view of them; the same test guards each.
unfoldable pub read : ℕ → InputStream → Result (Bytes × InputStream)
read size s = if ltb (length s) size then err overrun else copy size s

unfoldable pub skip : ℕ → InputStream → Result InputStream
skip size s = if ltb (length s) size then err overrun else advance size s

-- The constructor over [pos + offset, end) throws if `end` lies before that position.
unfoldable pub sub_stream : ℕ → InputStream → Result InputStream
sub_stream offset s = if ltb (length s) offset then err overrun else ok (drop offset s)

within : (n : ℕ) (s : Bytes) → ltb (length s) n ≡ false → leb n (length s) ≡ true
within n s h = ground arith

pub copy-fits : (n : ℕ) (s : Bytes) → ltb (length s) n ≡ false → copy n s ≡ ok (take n s, drop n s)
unfolding copy
copy-fits n s h = rw (within n s h) refl

pub read-fits : (n : ℕ) (s : Bytes) → ltb (length s) n ≡ false → read n s ≡ ok (take n s, drop n s)
unfolding read
read-fits n s h = rw (h, copy-fits n s h) refl

pub skip-fits : (n : ℕ) (s : Bytes) → ltb (length s) n ≡ false → skip n s ≡ ok (drop n s)
unfolding skip advance
skip-fits n s h = rw (h, within n s h) refl

pub copy-append : (b rest : Bytes) → copy (length b) (b ++ rest) ≡ ok (b, rest)
unfolding copy
copy-append b rest =
    let enough : leb (length b) (length (b ++ rest)) ≡ true =
      ground (arith, length-append b rest) in
    rw (enough, take_all-append b rest, drop_all-append b rest) refl

pub read-append : (n : ℕ) (a rest : Bytes) → length a ≡ n → read n (a ++ rest) ≡ ok (a, rest)
unfolding read
read-append n a rest h =
    let enough : ltb (length (a ++ rest)) (length a) ≡ false =
      ground (arith, length-append a rest) in
    rw (← h, enough, copy-append a rest) refl

pub skip-append : (b rest : Bytes) → skip (length b) (b ++ rest) ≡ ok rest
skip-append b rest =
    let enough : ltb (length (b ++ rest)) (length b) ≡ false =
      ground (arith, length-append b rest) in
    rw (skip-fits (length b) (b ++ rest) enough, drop_all-append b rest) refl
