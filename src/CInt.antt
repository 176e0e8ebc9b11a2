-- ===== src/CInt.antt =====
-- The values of C's integer types on the x86_64 target that the translation is fitted to: the
-- conversions, the usual arithmetic conversions and the comparison operators, as the C standard
-- gives them. This is the specification that the passes over integer casts are measured by.
pub mod Laws
use llvm2c.Prelude.{
  ℕ, zero, suc, ◌+◌, ◌-◌, ◌%◌, ◌^◌, ◌==◌, ltb, Bool, true, false, not, ◌||◌, if◌then◌else◌, Text,
  codes, text_eq, ◌≡◌,
}
use llvm2c.Types.{
  IntegerClass, char_type, int_type, bool_type, short_type, long_type, long_long_type, int128,
}

-- `negsuc n` is -(n + 1).
pub data ℤ : Type 0 where
  pos : ℕ → ℤ
  negsuc : ℕ → ℤ

abbrev pub is_zero : ℤ → Bool
is_zero (pos zero) = true
is_zero _ = false

abbrev pub eq_ℤ : ℤ → ℤ → Bool
eq_ℤ (pos a) (pos b) = a == b
eq_ℤ (negsuc a) (negsuc b) = a == b
eq_ℤ _ _ = false

abbrev pub lt_ℤ : ℤ → ℤ → Bool
lt_ℤ (pos a) (pos b) = ltb a b
lt_ℤ (pos a) (negsuc b) = false
lt_ℤ (negsuc a) (pos b) = true
lt_ℤ (negsuc a) (negsuc b) = ltb b a

-- The truth value of a comparison or a logical operation, an `int`.
abbrev pub truth : Bool → ℤ
truth true = pos 1
truth false = pos 0

abbrev pub width : IntegerClass → ℕ
width char_type = 8
width int_type = 32
width bool_type = 1
width short_type = 16
width long_type = 64
width long_long_type = 64
width int128 = 128

-- The residue of a value, and the value of a residue in two's complement.
abbrev pub residue : ℕ → ℤ → ℕ
residue w (pos n) = n % 2 ^ w
residue w (negsuc n) = 2 ^ w - suc (n % 2 ^ w)

abbrev pub of_residue : ℕ → ℕ → ℤ
of_residue w r = if ltb (r + r) (2 ^ w) then pos r else negsuc (2 ^ w - suc r)

-- The conversion of a value to an integer type, unsigned if the flag is set.
unfoldable pub convert : IntegerClass → Bool → ℤ → ℤ
convert bool_type u v = truth (not (is_zero v))
convert c true v = pos (residue (width c) v)
convert c false v = of_residue (width c) (residue (width c) v)

-- The value is one of the type's.
abbrev pub IsValueOf : IntegerClass → Bool → ℤ → Type 0
IsValueOf c u v = convert c u v ≡ v

-- Integer promotion.
abbrev pub promote : IntegerClass → Bool → IntegerClass × Bool
promote char_type u = (int_type, false)
promote short_type u = (int_type, false)
promote bool_type u = (int_type, false)
promote c u = (c, u)

-- The common type of two promoted types: the wider one, and of two of one width the unsigned one.
abbrev pub join : IntegerClass × Bool → IntegerClass × Bool → IntegerClass × Bool
join (c, u) (c', u') =
    if ltb (width c) (width c')
    then (c', u')
    else (if ltb (width c') (width c) then (c, u) else (c, u || u'))

abbrev pub common : IntegerClass × Bool → IntegerClass × Bool → IntegerClass × Bool
common (c, u) (c', u') = join (promote c u) (promote c' u')

-- A comparison operator on two values; an unknown text never holds.
unfoldable pub compare_values : Text → ℤ → ℤ → Bool
unfolding text_eq
compare_values op a b =
    if text_eq op (codes "==")
    then eq_ℤ a b
    else (if text_eq op (codes "!=")
        then not (eq_ℤ a b)
        else (if text_eq op (codes "<")
            then lt_ℤ a b
            else (if text_eq op (codes "<=")
                then not (lt_ℤ b a)
                else (if text_eq op (codes ">")
                    then lt_ℤ b a
                    else (if text_eq op (codes ">=") then not (lt_ℤ a b) else false)))))

-- A comparison of two typed values: both are converted to the common type first.
unfoldable pub compare_at : Text → IntegerClass × Bool → IntegerClass × Bool → ℤ → ℤ → Bool
compare_at op s s' a b =
    let (c, u) = common s s' in compare_values op (convert c u a) (convert c u b)
