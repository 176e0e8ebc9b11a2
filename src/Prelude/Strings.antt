-- ===== src/Prelude/Strings.antt =====
-- Text: the bytes of a `std::string`, its equality test, and `std::to_decimal` on unsigned numbers.
use Prim.Native.Nat.{ℕ, zero, suc, ◌+◌, ◌-◌, ◌*◌, ◌/◌, ◌%◌, ◌≤◌, ◌<◌}
use Prim.Native.Char.{code}
use Prim.Native.String.{String}
use mathlib.Core.Path.{◌≡◌, refl, ap, ◌∙◌}
use mathlib.Core.Logic.{◌↔◌, inl, inr}
use mathlib.Core.Bool.{Bool, true, false, ◌&&◌}
use mathlib.Core.List.{List, [], ◌∷◌}
use native.Mathlib.Omega.{arith}
use llvm2c.Prelude.Lists.{All}
use llvm2c.Prelude.Tests.{◌==◌, ltb, Bool-cases}

abbrev pub Text : Type 0
Text = List ℕ

-- The bytes of an ASCII literal.
abbrev pub codes : String → Text
codes String.[] = []
codes (String.◌∷◌ c s) = code c ∷ codes s

unfoldable pub text_eq : Text → Text → Bool
text_eq [] [] = true
text_eq [] (y ∷ ys) = false
text_eq (x ∷ xs) [] = false
text_eq (x ∷ xs) (y ∷ ys) = x == y && text_eq xs ys

pub text_eq_iff : (xs ys : Text) → (text_eq xs ys ≡ true) ↔ (xs ≡ ys)
unfolding text_eq
text_eq_iff [] [] = (λ _. refl, λ _. refl)
text_eq_iff [] (y ∷ ys) = (λ h. cc, λ h. cc)
text_eq_iff (x ∷ xs) [] = (λ h. cc, λ h. cc)
text_eq_iff (x ∷ xs) (y ∷ ys) =
    (λ h. ground (arith, text_eq_iff xs ys), λ h. ground (arith, text_eq_iff xs ys))

pub text_eq_refl : (xs : Text) → text_eq xs xs ≡ true
text_eq_refl xs = (text_eq_iff xs xs).1 refl

-- `std::to_decimal` of an unsigned number; the number itself is fuel enough for its digits.
digits_onto : ℕ → ℕ → Text → Text
digits_onto zero n rest = (48 + n % 10) ∷ rest
digits_onto (suc fuel) n rest = elim (ltb n 10) [
  | true ↦ (48 + n) ∷ rest
  | false ↦ digits_onto fuel (n / 10) ((48 + n % 10) ∷ rest)
]

unfoldable pub to_decimal : ℕ → Text
unfolding digits_onto
to_decimal n = digits_onto n n []

to_decimal_run : to_decimal 4096 ≡ codes "4096"
unfolding to_decimal
to_decimal_run = refl

-- The number that a text of digits stands for, after the digits of `acc`.
abbrev pub read_digits : ℕ → Text → ℕ
read_digits acc [] = acc
read_digits acc (c ∷ cs) = read_digits (acc * 10 + (c - 48)) cs

last_digit :
    (fuel n : ℕ) (rest : Text) → ltb n 10 ≡ true → digits_onto (suc fuel) n rest ≡ (48 + n) ∷ rest
unfolding digits_onto
last_digit fuel n rest e = rw (e, digits_onto) refl

next_digit :
    (fuel n : ℕ) (rest : Text)
    → ltb n 10 ≡ false
    → digits_onto (suc fuel) n rest ≡ digits_onto fuel (n / 10) ((48 + n % 10) ∷ rest)
unfolding digits_onto
next_digit fuel n rest e = rw (e, digits_onto) refl

digits_onto-read :
    (fuel n : ℕ) (rest : Text)
    → n ≤ fuel
    → read_digits 0 (digits_onto fuel n rest) ≡ read_digits n rest
unfolding digits_onto
digits_onto-read zero n rest h = ap (λ x. read_digits x rest) (small n h)
  where
    small : (n : ℕ) → n ≤ 0 → 0 * 10 + ((48 + n % 10) - 48) ≡ n
    small n h = omega arith
digits_onto-read (suc fuel) n rest h = elim (Bool-cases (ltb n 10)) [
  | inl e ↦ ap (read_digits 0) (last_digit fuel n rest e) ∙ ap (λ x. read_digits x rest) (one n)
  | inr e ↦
      ap (read_digits 0) (next_digit fuel n rest e)
      ∙ (digits_onto-read fuel (n / 10) ((48 + n % 10) ∷ rest) (shorter n fuel h e)
          ∙ ap (λ x. read_digits x rest) (both n))
]
  where
    one : (n : ℕ) → 0 * 10 + ((48 + n) - 48) ≡ n
    one n = omega arith

    both : (n : ℕ) → n / 10 * 10 + ((48 + n % 10) - 48) ≡ n
    both n = omega arith

    shorter : (n fuel : ℕ) → n ≤ suc fuel → ltb n 10 ≡ false → n / 10 ≤ fuel
    shorter n fuel h e = ground arith

-- The decimal digits of a number read as that number, so two numbers have different digits.
pub to_decimal-read : (n : ℕ) → read_digits 0 (to_decimal n) ≡ n
unfolding to_decimal
to_decimal-read n = digits_onto-read n n [] (omega arith)

abbrev pub IsDigit : ℕ → Type 0
IsDigit c = (48 ≤ c) × (c < 58)

digits_onto-IsDigit :
    (fuel n : ℕ) (rest : Text) → All IsDigit rest → All IsDigit (digits_onto fuel n rest)
unfolding digits_onto
digits_onto-IsDigit zero n rest h = (omega arith, h)
digits_onto-IsDigit (suc fuel) n rest h = elim (Bool-cases (ltb n 10)) [
  | inl e ↦ rw (e, digits_onto) ((omega arith, ground arith), h)
  | inr e ↦
      rw (e, digits_onto)
        (digits_onto-IsDigit fuel (n / 10) ((48 + n % 10) ∷ rest) ((omega arith, omega arith), h))
]

pub to_decimal-IsDigit : (n : ℕ) → All IsDigit (to_decimal n)
unfolding to_decimal
to_decimal-IsDigit n = digits_onto-IsDigit n n [] tt
