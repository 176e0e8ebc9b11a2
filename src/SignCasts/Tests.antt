-- ===== src/SignCasts/Tests.antt =====
-- The pass on concrete comparisons.
use llvm2c.Prelude.{true, false, ◌≡◌, refl, some, none, codes}
use llvm2c.Types.{int_type, same_type}
use llvm2c.Types.Kinds.{integer_signedness}
use llvm2c.TypeHandler.{uint, sint, int128_type, toggle_signedness}
use llvm2c.TypeHandler.Signedness.{IsUnpaired}
use llvm2c.Exprs.{Expr, get_type, value, unary, cast_expr, binary, cmp_expr}
use llvm2c.CInt.{pos, truth, convert, compare_values}
use llvm2c.RedundantCasts.Values.{Leaves, eval}
use llvm2c.SignCasts.{visit, toggle_ref, cast_operand, cast_to}
use llvm2c.SignCasts.Signs.{HasPartner}
use llvm2c.SignCasts.Settle.{sign_of, Operands, Fits, CanFit, visit-Fits}
use llvm2c.SignCasts.Compare.{IsOperand, eval-visit_cmp}

abbrev x : Expr
x = value (codes "x") (some uint)

abbrev wide : Expr
wide = value (codes "w") (some int128_type)

-- `x < x` as a signed comparison.
abbrev signed_cmp : Expr
signed_cmp = binary (cmp_expr (codes "<") false) x x none

-- Every variable is 2^32 - 1.
abbrev leaves : Leaves
leaves = record { leaf = λ e. pos 4294967295; compare_other = λ op a b. false }

visit_run :
    visit signed_cmp
    ≡ binary
        (cmp_expr (codes "<") false)
        (unary cast_expr x (some sint))
        (unary cast_expr x (some sint))
        none
unfolding visit cast_operand cast_to toggle_ref toggle_signedness same_type integer_signedness
visit_run = refl

uint-partner : HasPartner false (some uint)
unfolding toggle_ref toggle_signedness same_type
uint-partner h e = cc

signed_cmp-CanFit : Operands CanFit signed_cmp
unfolding Operands CanFit sign_of get_type
signed_cmp-CanFit = (tt, tt, uint-partner, uint-partner)

x-IsOperand : IsOperand leaves int_type false (visit x)
unfolding visit get_type eval convert
x-IsOperand = (0, true, refl, uint-partner, refl)

int128-IsUnpaired : IsUnpaired int128_type
unfolding same_type
int128-IsUnpaired = record {
  of_int = (refl, refl);
  of_char = (refl, refl);
  of_short = (refl, refl);
  of_long = (refl, refl);
  of_long_long = (refl, refl);
}

visit-Fits_example : Operands Fits (visit signed_cmp)
visit-Fits_example = visit-Fits signed_cmp signed_cmp-CanFit

eval-visit_cmp_example :
    eval leaves (visit signed_cmp)
    ≡ truth (
        compare_values
          (codes "<")
          (convert int_type false (eval leaves (visit x)))
          (convert int_type false (eval leaves (visit x))))
eval-visit_cmp_example =
    eval-visit_cmp leaves int_type (codes "<") false x x none x-IsOperand x-IsOperand
