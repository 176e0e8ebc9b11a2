-- ===== src/TypeHandler/Signedness.antt =====
-- toggleSignedness, setSigned and setUnsigned: what they do to the ten basic types, and that they
-- leave every other type alone.
use llvm2c.Prelude.{Bool, true, false, not, ◌≡◌, refl, sym, subst, some, inl, inr, ◌⊎◌, Bool-cases}
use llvm2c.Types.{CType, same_type, same_type_iff}
use llvm2c.Types.Kinds.{integer_signedness}
use llvm2c.TypeHandler.{
  uint, uchar, ushort, ulong, ulonglong, sint, schar, sshort, slong, slonglong, toggle_pair,
  toggle_signedness, set_pair, set_signed, set_unsigned,
}

-- `Q` holds of each pair of the TYPES lines, an unsigned type and its signed partner.
pub record EachPair (Q : CType → CType → Type 0) : Type 0 where
  pub of_int : Q uint sint
  pub of_char : Q uchar schar
  pub of_short : Q ushort sshort
  pub of_long : Q ulong slong
  pub of_long_long : Q ulonglong slonglong

-- The type is none of the ten.
abbrev pub IsUnpaired : CType → Type 0
IsUnpaired t = EachPair (λ u s. (same_type t u ≡ false) × (same_type t s ≡ false))

module _ {ℓ} (Q : CType → Type ℓ) where
  toggle_pair-cases :
      (u s ty rest : CType)
      → (ty ≡ s → Q u)
      → (ty ≡ u → Q s)
      → (same_type ty u ≡ false → same_type ty s ≡ false → Q rest)
      → Q (toggle_pair u s ty rest)
  unfolding toggle_pair
  toggle_pair-cases u s ty rest hs hu hr = elim (Bool-cases (same_type ty s)) [
    | inl e ↦ rw e (hs ((same_type_iff ty s).0 e))
    | inr ne ↦ rw ne (elim (Bool-cases (same_type ty u)) [
      | inl e ↦ rw e (hu ((same_type_iff ty u).0 e))
      | inr ne' ↦ rw ne' (hr ne' ne)
    ])
  ]

  set_pair-cases :
      (from to ty rest : CType)
      → (ty ≡ from → Q to)
      → (same_type ty from ≡ false → Q rest)
      → Q (set_pair from to ty rest)
  unfolding set_pair
  set_pair-cases from to ty rest hf hr = elim (Bool-cases (same_type ty from)) [
    | inl e ↦ rw e (hf ((same_type_iff ty from).0 e))
    | inr ne ↦ rw ne (hr ne)
  ]

-- A relation between a type and its toggled type holds when it holds of each pair both ways, and
-- of an unpaired type and itself.
pub toggle_signedness-cases :
    (P : CType → CType → Type 0)
    → EachPair (λ u s. P u s × P s u)
    → ((t : CType) → IsUnpaired t → P t t)
    → (t : CType) → P t (toggle_signedness t)
unfolding toggle_signedness
toggle_signedness-cases P each other t =
    toggle_pair-cases (P t) uint sint t _ (up each.of_int.1) (up each.of_int.0) λ iu is.
      toggle_pair-cases (P t) uchar schar t _ (up each.of_char.1) (up each.of_char.0) λ cu cs.
        toggle_pair-cases (P t) ushort sshort t _ (up each.of_short.1) (up each.of_short.0) λ su ss.
          toggle_pair-cases (P t) ulong slong t _ (up each.of_long.1) (up each.of_long.0) λ lu ls.
            toggle_pair-cases (P t) ulonglong slonglong t _ (up each.of_long_long.1)
              (up each.of_long_long.0)
              λ llu lls. other t (record {
                of_int = (iu, is);
                of_char = (cu, cs);
                of_short = (su, ss);
                of_long = (lu, ls);
                of_long_long = (llu, lls);
              })
  where
    up : {a b : CType} → P a b → t ≡ a → P t b
    up {a} {b} h e = subst (λ x. P x b) (sym e) h

-- A statement about a type is checked at the ten paired types, and for an unpaired one.
pub signedness-cases :
    (P : CType → Type 0)
    → EachPair (λ u s. P u × P s)
    → ((t : CType) → IsUnpaired t → P t)
    → (t : CType) → P t
signedness-cases P each other t = toggle_signedness-cases (λ a _. P a) each other t

pub toggle_signedness-unpaired : (t : CType) → IsUnpaired t → toggle_signedness t ≡ t
unfolding toggle_signedness
toggle_signedness-unpaired t h = simp (
  h.of_int.0, h.of_int.1, h.of_char.0, h.of_char.1, h.of_short.0, h.of_short.1, h.of_long.0,
  h.of_long.1, h.of_long_long.0, h.of_long_long.1,
)

set_signed-unpaired : (t : CType) → IsUnpaired t → set_signed t ≡ t
unfolding set_signed
set_signed-unpaired t h =
    simp (h.of_int.0, h.of_char.0, h.of_short.0, h.of_long.0, h.of_long_long.0)

set_unsigned-unpaired : (t : CType) → IsUnpaired t → set_unsigned t ≡ t
unfolding set_unsigned
set_unsigned-unpaired t h =
    simp (h.of_int.1, h.of_char.1, h.of_short.1, h.of_long.1, h.of_long_long.1)

abbrev pub SignLaws : CType → Type 0
SignLaws t =
    (toggle_signedness (toggle_signedness t) ≡ t)
    × (set_signed (toggle_signedness t) ≡ set_signed t)
    × (set_unsigned (toggle_signedness t) ≡ set_unsigned t)
    × (set_signed (set_unsigned t) ≡ set_signed t)
    × (set_unsigned (set_signed t) ≡ set_unsigned t)

SignLaws-paired : EachPair (λ u s. SignLaws u × SignLaws s)
unfolding toggle_signedness set_signed set_unsigned same_type
SignLaws-paired = record {
  of_int = ((refl, refl, refl, refl, refl), (refl, refl, refl, refl, refl));
  of_char = ((refl, refl, refl, refl, refl), (refl, refl, refl, refl, refl));
  of_short = ((refl, refl, refl, refl, refl), (refl, refl, refl, refl, refl));
  of_long = ((refl, refl, refl, refl, refl), (refl, refl, refl, refl, refl));
  of_long_long = ((refl, refl, refl, refl, refl), (refl, refl, refl, refl, refl));
}

SignLaws-unpaired : (t : CType) → IsUnpaired t → SignLaws t
SignLaws-unpaired t h =
    let a = toggle_signedness-unpaired t h in
    let b = set_signed-unpaired t h in
    let c = set_unsigned-unpaired t h in (simp (a, a), simp a, simp a, simp (c, b), simp (b, c))

-- For every type: toggling twice gives the type back, setSigned and setUnsigned do not depend on
-- the signedness that the type had, whether it was toggled or set before.
pub toggle_signedness-laws :
    (t : CType)
    → (toggle_signedness (toggle_signedness t) ≡ t)
      × (set_signed (toggle_signedness t) ≡ set_signed t)
      × (set_unsigned (toggle_signedness t) ≡ set_unsigned t)
      × (set_signed (set_unsigned t) ≡ set_signed t)
      × (set_unsigned (set_signed t) ≡ set_unsigned t)
toggle_signedness-laws = signedness-cases SignLaws SignLaws-paired SignLaws-unpaired

-- What the three functions do to a type.
abbrev pub SignEffect : CType → Type 0
SignEffect t =
    ((toggle_signedness t ≡ t) × (set_signed t ≡ t) × (set_unsigned t ≡ t) × IsUnpaired t)
    ⊎ ((integer_signedness (set_signed t) ≡ some false)
        × (integer_signedness (set_unsigned t) ≡ some true)
        × ((u : Bool) × (integer_signedness t ≡ some u)
            × (integer_signedness (toggle_signedness t) ≡ some (not u))))

SignEffect-paired : EachPair (λ u s. SignEffect u × SignEffect s)
unfolding toggle_signedness set_signed set_unsigned same_type integer_signedness
SignEffect-paired = record {
  of_int = (inr (refl, refl, (true, refl, refl)), inr (refl, refl, (false, refl, refl)));
  of_char = (inr (refl, refl, (true, refl, refl)), inr (refl, refl, (false, refl, refl)));
  of_short = (inr (refl, refl, (true, refl, refl)), inr (refl, refl, (false, refl, refl)));
  of_long = (inr (refl, refl, (true, refl, refl)), inr (refl, refl, (false, refl, refl)));
  of_long_long = (inr (refl, refl, (true, refl, refl)), inr (refl, refl, (false, refl, refl)));
}

SignEffect-unpaired : (t : CType) → IsUnpaired t → SignEffect t
SignEffect-unpaired t h =
    inl (toggle_signedness-unpaired t h, set_signed-unpaired t h, set_unsigned-unpaired t h, h)

-- A type in none of the pairs (`_Bool` and `__int128` among the integers) is left alone by all three
-- functions; any other becomes signed by setSigned, unsigned by setUnsigned, and the opposite of
-- what it was by toggleSignedness.
pub toggle_signedness-effect : (t : CType) → SignEffect t
toggle_signedness-effect = signedness-cases SignEffect SignEffect-paired SignEffect-unpaired
