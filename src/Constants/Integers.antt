-- ===== src/Constants/Integers.antt =====
-- Reading the text of a constant integer gives the number that the constant stands for.
use llvm2c.Prelude.{
  ℕ, zero, suc, ◌≤◌, ◌==◌, ltb, Bool, true, false, if◌then◌else◌, ◌≡◌, refl, ap, ◌∙◌, [], ◌∷◌, Text,
  arith, read_digits, to_decimal-read, IsDigit, to_decimal-IsDigit, All, to_decimal,
}
use llvm2c.Types.{CType}
use llvm2c.TypeHandler.{set_signed}
use llvm2c.Exprs.{make_value}
use llvm2c.CInt.{ℤ, pos, negsuc, of_residue}
use llvm2c.Constants.{to_string, shown_value, starts_with_minus, create_int}

-- The number of a decimal text with or without a minus.
abbrev pub negated : ℕ → ℤ
negated zero = pos zero
negated (suc n) = negsuc n

abbrev pub read_number : Text → ℤ
read_number [] = pos 0
read_number (c ∷ s) = if c == b'-' then negated (read_digits 0 s) else pos (read_digits 0 (c ∷ s))

abbrev pub is_negative : ℤ → Bool
is_negative (pos n) = false
is_negative (negsuc n) = true

no_minus : (s : Text) → All IsDigit s → starts_with_minus s ≡ false
unfolding starts_with_minus
no_minus [] h = refl
no_minus (c ∷ s) ((lo, hi), h) = ground arith

read_number-digits : (s : Text) → All IsDigit s → read_number s ≡ pos (read_digits 0 s)
read_number-digits [] h = refl
read_number-digits (c ∷ s) ((lo, hi), h) = rw (digit c lo) refl
  where
    digit : (c : ℕ) → 48 ≤ c → (c == b'-') ≡ false
    digit c lo = ground arith

read_number-to_string : (v : ℤ) → read_number (to_string v) ≡ v
unfolding to_string
read_number-to_string (pos n) =
    read_number-digits (to_decimal n) (to_decimal-IsDigit n) ∙ ap pos (to_decimal-read n)
read_number-to_string (negsuc n) = ap negated (to_decimal-read (suc n))

starts_with_minus-to_string : (v : ℤ) → starts_with_minus (to_string v) ≡ is_negative v
unfolding to_string
starts_with_minus-to_string (pos n) = no_minus (to_decimal n) (to_decimal-IsDigit n)
starts_with_minus-to_string (negsuc n) = unfold starts_with_minus in refl

-- The value of a ConstantInt: an `i1` is 0 or 1, and other bits stand for a signed number.
abbrev pub signed_value : ℕ → ℕ → ℤ
signed_value width bits = if width == 1 then pos bits else of_residue width bits

-- The expression for a ConstantInt of at most 64 bits is a Value whose text, read as a decimal number,
-- is the number that the constant stands for, and which has the type given or, if that number is
-- negative, its signed partner.
pub create_int-read :
    (width bits : ℕ) (t : CType)
    → width ≤ 64
    → (text : Text) × (create_int width bits t
        ≡ make_value text (if is_negative (signed_value width bits) then set_signed t else t))
      × (read_number text ≡ signed_value width bits)
unfolding create_int shown_value make_value
create_int-read width bits t h =
    rw (narrow width h, starts_with_minus-to_string (signed_value width bits))
      (to_string (signed_value width bits), refl, read_number-to_string (signed_value width bits))
  where
    narrow : (width : ℕ) → width ≤ 64 → ltb 64 width ≡ false
    narrow width h = ground arith
