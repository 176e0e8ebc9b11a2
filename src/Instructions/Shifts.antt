-- ===== src/Instructions/Shifts.antt =====
-- Shifts: where a shift becomes another operation.
use llvm2c.Prelude.{Bool, true, false, ◌≡◌, refl, Text, codes, text_eq_refl}
use llvm2c.Exprs.{Expr, TypeRef, get_type, value, unary, cast_expr, make_binary, cmp_expr}
use llvm2c.Instructions.{lshr, remove_casts, is_value_named, parse_shift}

-- The Value of that name and type, under any number of casts.
unfoldable pub IsCastOf : Text → TypeRef → Expr → Type 0
IsCastOf name t (unary cast_expr e _) = IsCastOf name t e
IsCastOf name t e = e ≡ value name t

-- removeCastsFromExpr finds the Value under the casts, and has nothing left to remove.
pub remove_casts-value :
    (name : Text) (t : TypeRef) (e : Expr) → IsCastOf name t e → remove_casts e ≡ value name t
unfolding remove_casts IsCastOf
remove_casts-value name t (unary cast_expr e t') h = remove_casts-value name t e h
remove_casts-value name t e h = h

is_value_named_refl : (name : Text) (t : TypeRef) → is_value_named name (value name t) ≡ true
unfolding is_value_named
is_value_named_refl name t = text_eq_refl name

-- A logical shift right by a Value `63`, which stands for the test of the sign of the number that is
-- shifted, becomes the test of the sign of the shift amount: the number that is shifted, `val0`, is not
-- in the result.
pub parse_shift-lshr_63 :
    (nsw : Bool) (val0 val1 : Expr) (t : TypeRef)
    → IsCastOf (codes "63") t val1
    → parse_shift lshr nsw val0 val1
      ≡ make_binary (cmp_expr (codes "<") false) val1 (value (codes "0") t)
unfolding parse_shift get_type
parse_shift-lshr_63 nsw val0 val1 t h =
    rw (remove_casts-value (codes "63") t val1 h, is_value_named_refl (codes "63") t) refl
