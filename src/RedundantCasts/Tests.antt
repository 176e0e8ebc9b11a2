-- ===== src/RedundantCasts/Tests.antt =====
-- The pass on concrete expressions.
use llvm2c.Prelude.{true, false, ◌≡◌, refl, some, none, codes, text_eq, if◌then◌else◌, arith}
use llvm2c.Types.{integer, int_type, long_long_type}
use llvm2c.TypeHandler.{uint, bool_object}
use llvm2c.Exprs.{Expr, get_type, value, unary, cast_expr}
use llvm2c.CInt.{ℤ, pos, convert}
use llvm2c.RedundantCasts.{is_bool, simplify}
use llvm2c.Types.Kinds.{is_bool_type}
use llvm2c.RedundantCasts.Values.{Leaves, eval, IsBoolean}
use llvm2c.RedundantCasts.Casts.{eval-simplify_integer_cast}
use llvm2c.RedundantCasts.Comparisons.{compare_casts, eval-simplify_widening}

-- `x` is 256, and everything else is 0.
abbrev leaf_value : Expr → ℤ
leaf_value (value name (some (integer addr int_type u))) =
    if text_eq name (codes "x") then pos 256 else pos 0
leaf_value e = pos 0

abbrev leaves : Leaves
leaves = record { leaf = leaf_value; compare_other = λ op a b. false }

abbrev x : Expr
x = value (codes "x") (some uint)

abbrev y : Expr
y = value (codes "y") (some uint)

leaves-IsBoolean : IsBoolean leaves
unfolding is_bool get_type is_bool_type
leaves-IsBoolean (value name (some (integer addr int_type u))) p h = cc
leaves-IsBoolean e p h = (false, refl)

-- `(unsigned)(_Bool)x`
eval-simplify_integer_cast_example :
    eval leaves (simplify (unary cast_expr (unary cast_expr x (some bool_object)) (some uint)))
    ≡ eval leaves (unary cast_expr (unary cast_expr x (some bool_object)) (some uint))
eval-simplify_integer_cast_example =
    eval-simplify_integer_cast leaves (unary cast_expr x (some bool_object)) 0 int_type true
      leaves-IsBoolean refl

-- `(unsigned long long)x < (unsigned long long)y`
eval-simplify_widening_example :
    eval leaves
      (simplify (compare_casts (codes "<") true (some (integer 4 long_long_type true)) x y none))
    ≡ eval leaves (compare_casts (codes "<") true (some (integer 4 long_long_type true)) x y none)
unfolding get_type convert eval text_eq
eval-simplify_widening_example =
    eval-simplify_widening leaves (codes "<") true 0 4 int_type long_long_type x y none refl refl
      refl refl (omega arith)
