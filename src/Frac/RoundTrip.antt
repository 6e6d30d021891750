-- ===== src/Frac/RoundTrip.antt =====
-- `fracunpack` reads back what `fracpack` wrote.
use clarion.Prelude.{
  ℕ, ◌+◌, ◌*◌, ◌^◌, ◌<◌, ◌≡◌, refl, [], ◌∷◌, ◌++◌, length, true, false, none, some, inl, inr, arith,
  Bool-cases,
}
use clarion.Stream.{ok, Bytes}
use clarion.Stream.Memory.{le_bytes, of_le_bytes}
use clarion.Stream.Input.{InputStream, read-append}
use clarion.Frac.Types.{FracTy, FracTys, El, Els, Alt, index}
use clarion.Frac.Types.{scalar, text, vec, opt, variant, strct, nil, cons}
use clarion.Frac.Write.{is_container}
use clarion.Frac.Encode.{pack, part, parts, pack_alt}
use clarion.Frac.Valid.{
  WellFormed, AllWellFormed, AltsWellFormed, IsValid, AreValid, AltIsValid, is_optional,
  is_in_place,
}
use clarion.Frac.Read.{
  initial, unpack_number, unpack_text, init_type, init_variant_by_index, unpack_variant,
  unpack_optional, fracunpack, fracunpack_member, fracunpack_members, visit_unpack,
}
use clarion.Frac.Objects.{initial-exists}
use clarion.Frac.Taken.{
  Reads, Opens, Takes, Reads-Opens, unpack_number-le_bytes, inline-Takes, heap-Takes,
  container-Takes, empty-Takes, optional-Takes, absent-Takes, fresh-Takes, none-TakesAll,
}
use clarion.Frac.Opened.{text-Reads, copied_vec-Reads, vec-Opens}
use clarion.Frac.Structs.{MembersTaken, strct-Opens, strct-Takes, copied_strct-Reads, next-member}

scalar-Reads : (n v : ℕ) → v < 256 ^ n → Reads (λ w s. unpack_number n s) (le_bytes n v) v
scalar-Reads n v h w rest l = unpack_number-le_bytes n v rest h

-- An optional string or vector: an empty one is packed as an empty member.
optional_container-Takes :
    (t : FracTy) (v : El t)
    → is_container t ≡ true
    → Opens (fracunpack t) (pack t v) v
    → Takes (unpack_optional (fracunpack t) (initial t)) (part t v) (some v)
unfolding is_container part pack initial
optional_container-Takes (scalar n) v e opens = cc
optional_container-Takes text [] e opens = fresh-Takes (fracunpack text) [] (ok []) refl
optional_container-Takes text (c ∷ v) e opens =
    optional-Takes (fracunpack text) [] (ok []) refl _ (c ∷ v) opens
optional_container-Takes (vec t) [] e opens = fresh-Takes (fracunpack (vec t)) [] (ok []) refl
optional_container-Takes (vec t) (x ∷ v) e opens =
    optional-Takes (fracunpack (vec t)) [] (ok []) refl _ (x ∷ v) opens
optional_container-Takes (opt t) v e opens = cc
optional_container-Takes (variant ts) v e opens = cc
optional_container-Takes (strct final dense ts) v e opens = cc

-- The alternative that the index selects, and what it is then read as.
abbrev Visited : (ts : FracTys) → Alt ts → Type 0
Visited ts v =
    (w : Alt ts) × (init_type ts (index ts v) ≡ ok (some w))
    × ((rest : Bytes)
        → length (pack_alt ts v) < 2 ^ 16
        → visit_unpack ts w (pack_alt ts v ++ rest) ≡ ok (v, rest))

variant-Reads :
    (ts : FracTys) (v : Alt ts)
    → Visited ts v
    → Reads (unpack_variant ts (visit_unpack ts)) (index ts v ∷ pack_alt ts v) v
unfolding unpack_variant unpack_number of_le_bytes init_variant_by_index
variant-Reads ts v (w', init, visits) w rest l =
    let one : index ts v + 256 * 0 ≡ index ts v = omega arith in
    rw (read-append 1 (index ts v ∷ []) (pack_alt ts v ++ rest) refl, one, init)
      (visits rest (omega arith))

mutual
  unfolding fracunpack fracunpack_member fracunpack_members visit_unpack pack part parts pack_alt
      init_type

  unpack_lem :
      (t : FracTy) (v : El t)
      → WellFormed t
      → is_optional t ≡ false
      → IsValid t v
      → Opens (fracunpack t) (pack t v) v
  unpack_lem (scalar n) v wf o p =
      Reads-Opens (λ w. unpack_number n) (le_bytes n v) v (scalar-Reads n v p)
  unpack_lem text v wf o p = Reads-Opens (λ w. unpack_text) _ v (text-Reads v)
  unpack_lem (vec t) v wf o p =
      vec-Opens t v (fracunpack_member t) wf (λ x w px. member_lem t x w wf.0 px) p
  unpack_lem (opt t) v wf o p = cc
  unpack_lem (variant ts) v wf o p =
      Reads-Opens (unpack_variant ts (visit_unpack ts)) (index ts v ∷ pack_alt ts v) v
        (variant-Reads ts v (visit_lem ts v wf.1 p.1))
  unpack_lem (strct final dense ts) v wf o p =
      strct-Opens final dense ts v wf p (λ start opened w. members_lem ts v wf.0 p start opened w)

  in_place_lem :
      (t : FracTy) (v : El t)
      → WellFormed t
      → is_in_place t ≡ true
      → IsValid t v
      → Reads (fracunpack t) (pack t v) v
  in_place_lem (scalar n) v wf e p = scalar-Reads n v p
  in_place_lem text v wf e p = text-Reads v
  in_place_lem (vec t) v wf e p = copied_vec-Reads t v (fracunpack_member t) wf e p
  in_place_lem (opt t) v wf e p = cc
  in_place_lem (variant ts) v wf e p = variant-Reads ts v (visit_lem ts v wf.1 p.1)
  in_place_lem (strct final dense ts) v wf e p = copied_strct-Reads final dense ts v wf e p

  member_lem :
      (t : FracTy) (v w : El t)
      → WellFormed t
      → IsValid t v
      → Takes (fracunpack_member t w) (part t v) v
  member_lem (scalar n) v w wf p =
      inline-Takes (λ u. unpack_number n) (le_bytes n v) v w (scalar-Reads n v p)
  member_lem text [] w wf p = empty-Takes (λ u. unpack_text) w
  member_lem text (c ∷ v) w wf p =
      container-Takes (λ u. unpack_text) w _ (c ∷ v)
        (Reads-Opens (λ u. unpack_text) _ (c ∷ v) (text-Reads (c ∷ v)))
  member_lem (vec t) [] w wf p = empty-Takes (fracunpack (vec t)) w
  member_lem (vec t) (x ∷ v) w wf p =
      container-Takes (fracunpack (vec t)) w _ (x ∷ v)
        (vec-Opens t (x ∷ v) (fracunpack_member t) wf (λ y u py. member_lem t y u wf.0 py) p)
  member_lem (opt t) none w wf p =
      let (d, init) = initial-exists t wf.0 in absent-Takes (fracunpack t) d (initial t) init
  member_lem (opt t) (some v) w wf p = elim (Bool-cases (is_container t)) [
    | inl e ↦ rw e (optional_container-Takes t v e (unpack_lem t v wf.0 wf.1 p))
    | inr e ↦
        let (d, init) = initial-exists t wf.0 in
        rw e (
          optional-Takes (fracunpack t) d (initial t) init (pack t v) v
            (unpack_lem t v wf.0 wf.1 p))
  ]
  member_lem (variant ts) v w wf p =
      heap-Takes (unpack_variant ts (visit_unpack ts)) (index ts v ∷ pack_alt ts v) v w (
        Reads-Opens (unpack_variant ts (visit_unpack ts)) (index ts v ∷ pack_alt ts v) v
          (variant-Reads ts v (visit_lem ts v wf.1 p.1)))
  member_lem (strct final dense ts) v w wf p =
      strct-Takes final dense ts v w wf p (λ start opened u. members_lem ts v wf.0 p start opened u)

  members_lem : (ts : FracTys) (v : Els ts) → AllWellFormed ts → AreValid ts v → MembersTaken ts v
  members_lem nil v wf p start opened w = none-TakesAll start opened tt
  members_lem (cons t ts) v wf p start opened w =
      next-member t ts v.0 w.0 v.1 w.1 start opened wf.0 (member_lem t v.0 w.0 wf.0 p.0)
        (members_lem ts v.1 wf.1 p.1 start opened w.1)

  visit_lem : (ts : FracTys) (v : Alt ts) → AltsWellFormed ts → AltIsValid ts v → Visited ts v
  visit_lem nil v wf p = absurd p
  visit_lem (cons t ts) (inl v) wf p =
      let (d, init) = initial-exists t wf.0 in
      (inl d, rw init, λ rest l. rw (in_place_lem t v wf.0 wf.1 p d rest l) refl)
  visit_lem (cons t ts) (inr v) wf p =
      let (w, init, visits) = visit_lem ts v wf.2 p in
      (inr w, rw init, λ rest l. rw (visits rest l) refl)

-- `fracunpack` of a packed form is the value, for a valid value of a well-formed type that is no optional, if
-- the form is shorter than 2^16 bytes: whatever object is unpacked into and whatever bytes follow.
pub fracunpack-pack :
    (t : FracTy) (v w : El t) (rest : Bytes)
    → WellFormed t
    → is_optional t ≡ false
    → IsValid t v
    → length (pack t v) < 2 ^ 16
    → (s : InputStream) × (fracunpack t w (pack t v ++ rest) ≡ ok (v, s))
fracunpack-pack t v w rest wf o p l = unpack_lem t v wf o p w rest l

pub members-taken :
    (ts : FracTys) (v : Els ts) → AllWellFormed ts → AreValid ts v → MembersTaken ts v
members-taken ts v wf p start opened w = members_lem ts v wf p start opened w
