-- ===== src/Proto/Unknown.antt =====
-- A reader whose struct has fewer members than the writer's.
use clarion.Prelude.{
  ℕ, ◌^◌, ◌<◌, ◌≡◌, refl, sym, ap, ◌∙◌, ◌++◌, length, inl, inr, true, false, arith, append_assoc,
}
use clarion.Stream.{ok, Bytes}
use clarion.Stream.Input.{skip-append, skip}
use clarion.Stream.Memory.{le_bytes, length-le_bytes}
use clarion.Varint.Groups.{varuint_bytes}
use clarion.Varint.RoundTrip.{varuint32_from_bin-bytes}
use clarion.Proto.Types.{Ty, El, wire_type}
use clarion.Proto.Types.{varint, varuint, flag, fixed, text, packed, vec, strct, tuple, variant}
use clarion.Proto.Read.{skip_member}
use clarion.Proto.Encode.{sized, member_bytes, IsProto, IsValid}

skip-sized : (b rest : Bytes) → length b < 2 ^ 32 → skip_member 2 (sized b ++ rest) ≡ ok rest
unfolding skip_member
skip-sized b rest h =
    rw
      (
        append_assoc (varuint_bytes (length b)) b rest,
        varuint32_from_bin-bytes (length b) (b ++ rest) h,
      )
      (skip-append b rest)

skip-varint :
    (v : ℕ) (rest : Bytes) → v < 2 ^ 32 → skip_member 0 (varuint_bytes v ++ rest) ≡ ok rest
unfolding skip_member
skip-varint v rest h = rw (varuint32_from_bin-bytes v rest h) refl

skip-fixed : (n v : ℕ) (rest : Bytes) → skip n (le_bytes n v ++ rest) ≡ ok rest
skip-fixed n v rest =
    ap (λ m. skip m (le_bytes n v ++ rest)) (sym (length-le_bytes n v))
    ∙ skip-append (le_bytes n v) rest

-- `skip_member` skips a member of any type by its wire type.
pub skip_member-bytes :
    (t : Ty) (v : El t) (rest : Bytes)
    → IsProto t
    → IsValid t v
    → skip_member (wire_type t) (member_bytes t v ++ rest) ≡ ok rest
unfolding wire_type member_bytes skip_member
skip_member-bytes (varint false n) v rest p h = skip-varint v rest h.1
skip_member-bytes (varint true n) v rest p h = skip-varint v rest h.1
skip_member-bytes varuint v rest p h = skip-varint v rest h
skip_member-bytes flag true rest p h = skip-varint 1 rest (omega arith)
skip_member-bytes flag false rest p h = skip-varint 0 rest (omega arith)
skip_member-bytes (fixed n) v rest (inl e) h = rw e (skip-fixed 4 v rest)
skip_member-bytes (fixed n) v rest (inr e) h = rw e (skip-fixed 8 v rest)
skip_member-bytes text v rest p h = skip-sized v rest h
skip_member-bytes (packed n) v rest p h = skip-sized _ rest h.1
skip_member-bytes (vec t) v rest p h = skip-sized _ rest h.1
skip_member-bytes (strct number ts) v rest p h = skip-sized _ rest h.1
skip_member-bytes (tuple ts) v rest p h = skip-sized _ rest h.1
skip_member-bytes (variant t ts) (inl v) rest p (hv, he, hs) = skip-sized _ rest hs
skip_member-bytes (variant t ts) (inr v) rest p h = skip-sized _ rest h.1
