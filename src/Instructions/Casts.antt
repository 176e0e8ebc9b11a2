-- ===== src/Instructions/Casts.antt =====
-- Casts: the value that the double cast for SExt and ZExt gives, and the sign of FPToUI's cast.
use llvm2c.Prelude.{
  ℕ, Bool, true, false, ◌≡◌, refl, ap, ◌∙◌, some, arith, ◌≤◌, ◌<◌, ◌^◌, ◌-◌, ltb, suc,
  if◌then◌else◌, ◌==◌, leb,
}
use llvm2c.Types.{
  same_type, CType, integer, IntegerClass, char_type, int_type, bool_type, short_type, long_type,
  long_long_type, int128,
}
use llvm2c.Types.Kinds.{integer_signedness}
use llvm2c.TypeHandler.{
  bool_object, int128_type, uchar, ushort, uint, ulonglong, get_integer_type, set_signed,
  set_unsigned, toggle_signedness,
}
use llvm2c.Exprs.{make_cast, Expr}
use llvm2c.CInt.{ℤ, pos, negsuc, convert, width, residue, of_residue}
use llvm2c.CInt.Laws.{convert_wider, convert-convert}
use llvm2c.RedundantCasts.Values.{Leaves, eval}
use llvm2c.Instructions.{
  is_asm_expr, parse_sext, CastInst, CastOpcode, sext, zext, fp_to_ui, recast, parse_cast,
}

choose :
    (P : CType → Type 0) (b : Bool) (x y : CType)
    → (b ≡ true → P x)
    → (b ≡ false → P y)
    → P (if b then x else y)
choose P true x y f g = f refl
choose P false x y f g = g refl

-- The types that getType makes of the widths from 2 to 64.
width_cases :
    (P : CType → Type 0) (w : ℕ)
    → 2 ≤ w
    → w ≤ 64
    → P uchar
    → P ushort
    → P uint
    → P ulonglong
    → P (get_integer_type w)
unfolding get_integer_type
width_cases P w lo hi c s i l =
    choose P (w == 1) bool_object _ (λ e. absurd (one w lo e))
      λ _.
        choose P (leb w 8) uchar _ (λ _. c)
          λ _.
            choose P (leb w 16) ushort _ (λ _. s)
              λ _.
                choose P (leb w 32) uint _ (λ _. i)
                  λ _. choose P (leb w 64) ulonglong int128_type (λ _. l) λ e. absurd (large w hi e)
  where
    one : (w : ℕ) → 2 ≤ w → (w == 1) ≡ true → ⊥
    one w lo e = ground arith

    large : (w : ℕ) → w ≤ 64 → leb w 64 ≡ false → ⊥
    large w hi e = ground arith

-- An unsigned type of one class becomes signed, and stays in its class; or it stays as it is.
record Extends (t : CType) : Type 0 where
  signed :
      (a : ℕ) (c : IntegerClass)
      → t ≡ integer a c true
      → (b : ℕ) × (set_signed t ≡ integer b c false)
  unsigned : set_unsigned t ≡ t
  toggled : integer_signedness (toggle_signedness t) ≡ some false

class-integer : (a b : ℕ) (c d : IntegerClass) (u v : Bool) → integer a c u ≡ integer b d v → c ≡ d
class-integer a b c d u v h = cc

width-Extends : (w : ℕ) → 2 ≤ w → w ≤ 64 → Extends (get_integer_type w)
unfolding set_signed set_unsigned toggle_signedness integer_signedness same_type
width-Extends w lo hi =
    width_cases Extends w lo hi
      (record {
        signed = λ a c h. (6, ap (λ x. integer 6 x false) (class-integer _ _ _ _ _ _ h));
        unsigned = refl;
        toggled = refl;
      })
      (record {
        signed = λ a c h. (7, ap (λ x. integer 7 x false) (class-integer _ _ _ _ _ _ h));
        unsigned = refl;
        toggled = refl;
      })
      (record {
        signed = λ a c h. (5, ap (λ x. integer 5 x false) (class-integer _ _ _ _ _ _ h));
        unsigned = refl;
        toggled = refl;
      })
      (record {
        signed = λ a c h. (9, ap (λ x. integer 9 x false) (class-integer _ _ _ _ _ _ h));
        unsigned = refl;
        toggled = refl;
      })

-- LLVM's reading of the `w` bits of a number as a signed one, by the highest bit.
abbrev pub signed_number : ℕ → ℕ → ℤ
signed_number w n = if ltb n (2 ^ (w - 1)) then pos n else negsuc (2 ^ w - suc n)

residue_below : (c : IntegerClass) (v : ℤ) → residue (width c) v < 2 ^ width c
residue_below char_type v = ground arith
residue_below int_type v = ground arith
residue_below bool_type v = ground arith
residue_below short_type v = ground arith
residue_below long_type v = ground arith
residue_below long_long_type v = ground arith
residue_below int128 v = ground arith

-- What is read as a signed number of a class is kept by every signed class that is no narrower.
sign_kept :
    (c c' : IntegerClass) (n : ℕ)
    → n < 2 ^ width c
    → 2 ≤ width c
    → width c ≤ width c'
    → convert c' false (of_residue (width c) n) ≡ signed_number (width c) n
unfolding convert
sign_kept char_type c' n h lo wide = ground arith
sign_kept int_type c' n h lo wide = ground arith
sign_kept bool_type c' n h lo wide = absurd (omega arith)
sign_kept short_type c' n h lo wide = ground arith
sign_kept long_type c' n h lo wide = ground arith
sign_kept long_long_type c' n h lo wide = ground arith
sign_kept int128 c' n h lo wide = ground arith

sign_extended :
    (c c' : IntegerClass) (v : ℤ)
    → 2 ≤ width c
    → width c ≤ width c'
    → convert c' false (convert c false v) ≡ signed_number (width c) (residue (width c) v)
unfolding convert
sign_extended bool_type c' v lo wide = absurd (omega arith)
sign_extended c c' v lo wide = sign_kept c c' (residue (width c) v) (residue_below c v) lo wide

zero_extended :
    (c c' : IntegerClass) (v : ℤ)
    → 2 ≤ width c
    → width c ≤ width c'
    → convert c' true (convert c true v) ≡ pos (residue (width c) v)
unfolding convert
zero_extended bool_type c' v lo wide = absurd (omega arith)
zero_extended c bool_type v lo wide = absurd (omega arith)
zero_extended c c' v lo wide = convert_wider c c' (pos (residue (width c) v)) wide (kept c v lo)
  where
    kept :
        (c : IntegerClass) (v : ℤ)
        → 2 ≤ width c
        → convert c true (pos (residue (width c) v)) ≡ pos (residue (width c) v)
    kept bool_type v lo = absurd (omega arith)
    kept c v lo = convert-convert c true v

-- A cast between integers of the given widths, none of them one.
abbrev pub extension : CastOpcode → ℕ → ℕ → Bool → CastInst
extension opcode w w' to_integer = record {
  opcode = opcode;
  source_type = get_integer_type w;
  dest_type = get_integer_type w';
  source_is_i1 = false;
  dest_is_integer = to_integer;
}

module _ (m : Leaves) (e : Expr) (no_asm : is_asm_expr e ≡ false) where
  -- The cast exists and has the value given.
  abbrev pub CastsTo : CastInst → ℤ → Type 0
  CastsTo ins v = (made : Expr) × (parse_cast ins e ≡ some made) × (eval m made ≡ v)

  eval-recast :
      (set : CType → CType) (t t' : CType) (b b' : ℕ) (c c' : IntegerClass) (u : Bool)
      → set t ≡ integer b c u
      → set t' ≡ integer b' c' u
      → eval m (recast set t t' e) ≡ convert c' u (convert c u (eval m e))
  unfolding recast eval
  eval-recast set t t' b b' c c' u h h' = rw (h, h') refl

  -- SExt and ZExt of an integer of 8, 16, 32 or 64 bits to one of them that is no narrower: if the
  -- operand's value in C has the given bits, then the casts that are built for SExt have the value that
  -- these bits are read as by their highest bit, and the ones for ZExt the bits' value as an unsigned
  -- number, as LLVM extends them.
  pub eval-parse_cast_extension :
      (w w' a a' : ℕ) (c c' : IntegerClass) (to_integer : Bool) (n : ℕ)
      → 2 ≤ w
      → w ≤ w'
      → w' ≤ 64
      → get_integer_type w ≡ integer a c true
      → get_integer_type w' ≡ integer a' c' true
      → width c ≡ w
      → width c' ≡ w'
      → residue w (eval m e) ≡ n
      → CastsTo (extension sext w w' to_integer) (signed_number w n)
        × CastsTo (extension zext w w' to_integer) (pos n)
  unfolding parse_cast parse_sext
  eval-parse_cast_extension w w' a a' c c' to_integer n lo wide hi' h h' full full' bits =
      let s = width-Extends w lo (omega arith) in
      let s' = width-Extends w' (omega arith) hi' in
      let (b, eb) = s.signed a c h in
      let (b', eb') = s'.signed a' c' h' in
      let value_signed : convert c' false (convert c false (eval m e)) ≡ signed_number w n =
        sign_extended c c' (eval m e) (omega arith) (omega arith) ∙ rw (full, bits) refl in
      let value_unsigned : convert c' true (convert c true (eval m e)) ≡ pos n =
        zero_extended c c' (eval m e) (omega arith) (omega arith) ∙ rw (full, bits) refl in
      rw no_asm (
        (_, refl, eval-recast set_signed _ _ b b' c c' false eb eb' ∙ value_signed),
        (
          _,
          refl,
          eval-recast set_unsigned _ _ a a' c c' true (s.unsigned ∙ h) (s'.unsigned ∙ h')
              ∙ value_unsigned,
        ),
      )

  -- FPToUI to an integer of 2 to 64 bits casts to a signed type.
  pub parse_cast-fp_to_ui :
      (w : ℕ) (source : CType) (from_i1 to_integer : Bool)
      → 2 ≤ w
      → w ≤ 64
      → (t : CType) × (parse_cast
            (record {
              opcode = fp_to_ui;
              source_type = source;
              dest_type = get_integer_type w;
              source_is_i1 = from_i1;
              dest_is_integer = to_integer;
            })
            e
          ≡ some (make_cast e t))
        × (integer_signedness t ≡ some false)
  unfolding parse_cast
  parse_cast-fp_to_ui w source from_i1 to_integer lo hi =
      rw no_asm (_, refl, (width-Extends w lo hi).toggled)
