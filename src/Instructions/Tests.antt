-- ===== src/Instructions/Tests.antt =====
-- The translation of concrete instructions.
use llvm2c.Prelude.{
  Bool, true, false, not, ◌≡◌, ◌≢◌, refl, some, none, Text, codes, arith, text_eq, Option,
  Bool-cases, inl, inr, if◌then◌else◌, zero,
}
use llvm2c.Types.{int_type, long_long_type, double_type, same_type, same_type_iff}
use llvm2c.TypeHandler.{
  uint, double_object, float_object, toggle_signedness, get_integer_type, sint,
}
use llvm2c.Exprs.{Expr, get_type, value, unary, cast_expr, call_expr, nil, cons, make_call}
use llvm2c.CInt.{ℤ, pos, negsuc, truth, convert}
use llvm2c.Predicates.{icmp_slt, fcmp_ult}
use llvm2c.Predicates.Meaning.{holds, holds_integer, unordered}
use llvm2c.RedundantCasts.{same_ref}
use llvm2c.RedundantCasts.Values.{Leaves, eval}
use llvm2c.SignCasts.{visit, toggle_ref}
use llvm2c.SignCasts.Signs.{HasPartner}
use llvm2c.SignCasts.Compare.{IsOperand}
use llvm2c.Instructions.{
  PredicateQueries, build_is_nan, parse_fcmp, parse_icmp, sext, zext, is_asm_expr,
}
use llvm2c.Instructions.Comparisons.{
  Float, nan, number, AnswersQueries, IsFloating, AreFloats, IsTranslation, eval-parse_fcmp,
  float_operator, order,
}
use llvm2c.Instructions.{BinaryOperator, sdiv}
use llvm2c.Instructions.Integers.{HasValue, readings, eval-parse_icmp}
use llvm2c.Instructions.Shifts.{IsCastOf}
use llvm2c.Instructions.Casts.{CastsTo, extension, eval-parse_cast_extension}

-- LLVM's queries, by the value of the predicate on a NaN.
abbrev answer : Option Bool → Bool
answer none = false
answer (some b) = b

abbrev queries : PredicateQueries
queries = record {
  is_ordered = λ p. not (answer (holds p unordered));
  is_unordered = λ p. answer (holds p unordered);
}

queries-AnswersQueries : AnswersQueries queries
queries-AnswersQueries = record {
  of_ordered = λ p ne e. rw e;
  of_unordered = λ p ne e. rw e (refl, refl);
}

-- `x` is a NaN, `y` is 2, and the NaN test tells them apart.
abbrev x : Expr
x = value (codes "x") (some double_object)

abbrev y : Expr
y = value (codes "y") (some double_object)

abbrev leaf_value : Expr → ℤ
leaf_value (value name t) =
    if text_eq name (codes "x")
    then negsuc 0
    else (if text_eq name (codes "y")
        then pos 2
        else (if text_eq name (codes "1") then pos 1 else pos 0))
leaf_value (call_expr f name (cons (value v t) nil) t') = truth (text_eq v (codes "x"))
leaf_value e = pos 0

abbrev float_of : ℤ → Float
float_of (negsuc zero) = nan
float_of v = number v

abbrev floats : Leaves
floats = record {
  leaf = leaf_value;
  compare_other = λ op a b. float_operator op (order (float_of a) (float_of b));
}

double_is_no_float : same_type double_object float_object ≡ false
double_is_no_float = elim (Bool-cases (same_type double_object float_object)) [
  | inl e ↦ cc ((same_type_iff double_object float_object).0 e)
  | inr e ↦ e
]

test_double :
    (name : Text)
    → build_is_nan (value name (some double_object))
      ≡ make_call (codes "__isnan") (cons (value name (some double_object)) nil) sint
unfolding build_is_nan same_ref get_type
test_double name = rw double_is_no_float refl

floats-IsFloating : IsFloating floats float_of x y
unfolding text_eq eval make_call
floats-IsFloating = record {
  zero_value = refl;
  one_value = refl;
  comparison = λ op a b. refl;
  left_nan = rw (test_double (codes "x")) refl;
  right_nan = rw (test_double (codes "y")) refl;
}

floats-AreFloats : AreFloats floats float_of x y floats-IsFloating
unfolding get_type
floats-AreFloats = (13, 13, double_type, double_type, refl, refl)

ult-floating : holds fcmp_ult unordered ≢ none
unfolding holds
ult-floating e = cc

-- `fcmp ult x, y` with a NaN for `x`.
eval-parse_fcmp_example :
    IsTranslation floats float_of x y floats-IsFloating queries queries-AnswersQueries
      floats-AreFloats fcmp_ult
      (parse_fcmp queries fcmp_ult x y).0
eval-parse_fcmp_example =
    eval-parse_fcmp floats float_of x y floats-IsFloating queries queries-AnswersQueries
      floats-AreFloats fcmp_ult ult-floating

abbrev i : Expr
i = value (codes "i") (some uint)

abbrev j : Expr
j = value (codes "j") (some uint)

-- `i` is 2^32 - 1, which is -1, and `j` is 0.
abbrev integer_leaf : Expr → ℤ
integer_leaf (value name t) = if text_eq name (codes "i") then pos 4294967295 else pos 0
integer_leaf e = pos 0

abbrev integers : Leaves
integers = record { leaf = integer_leaf; compare_other = λ op a b. false }

uint-partner : (u : Bool) → HasPartner u (some uint)
unfolding toggle_ref toggle_signedness same_type
uint-partner u h e = cc

i-IsOperand : (u : Bool) → IsOperand integers int_type u (visit i)
unfolding visit get_type eval convert text_eq
i-IsOperand u = (0, true, refl, uint-partner u, refl)

j-IsOperand : (u : Bool) → IsOperand integers int_type u (visit j)
unfolding visit get_type eval convert text_eq
j-IsOperand u = (0, true, refl, uint-partner u, refl)

slt-integer : (a b : ℤ × ℤ) → holds_integer icmp_slt a b ≢ none
unfolding holds_integer
slt-integer a b e = cc

eval-parse_icmp_example : HasValue integers int_type i j (parse_icmp icmp_slt i j) (
    holds_integer icmp_slt
      (readings int_type (eval integers (visit i)))
      (readings int_type (eval integers (visit j))))
eval-parse_icmp_example =
    eval-parse_icmp integers int_type i j icmp_slt slt-integer (λ u e. i-IsOperand u)
      (λ u e. j-IsOperand u)

-- `i` as a signed number is below `j`.
icmp_slt_run :
    holds_integer icmp_slt
      (readings int_type (eval integers (visit i)))
      (readings int_type (eval integers (visit j)))
    ≡ some true
unfolding holds_integer eval visit convert text_eq
icmp_slt_run = refl

i-no_asm : is_asm_expr i ≡ false
unfolding is_asm_expr
i-no_asm = refl

-- The bits of -1 from `i32` to `i64`: -1 for SExt, 2^32 - 1 for ZExt.
eval-parse_cast_extension_example :
    CastsTo integers i i-no_asm (extension sext 32 64 true) (negsuc 0)
    × CastsTo integers i i-no_asm (extension zext 32 64 true) (pos 4294967295)
unfolding get_integer_type eval text_eq
eval-parse_cast_extension_example =
    eval-parse_cast_extension integers i i-no_asm 32 64 0 4 int_type long_long_type true 4294967295
      (omega arith) (omega arith) (omega arith) refl refl refl refl refl

-- `(unsigned)63`
abbrev amount : Expr
amount = unary cast_expr (value (codes "63") (some uint)) (some uint)

amount-IsCastOf : IsCastOf (codes "63") (some uint) amount
unfolding IsCastOf
amount-IsCastOf = refl

-- `sdiv i, j`
abbrev division : BinaryOperator
division = record {
  opcode = sdiv;
  has_nsw = false;
  is_i1 = false;
  is_float = false;
  const0 = none;
  const1 = none;
}
