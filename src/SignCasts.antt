-- ===== src/SignCasts.antt =====
-- parser/addSignCasts.cpp: the pass that casts the operands of an operation to its signedness.
pub mod Signs
pub mod Settle
pub mod Compare
pub mod Tests
use llvm2c.Prelude.{Bool, true, false, not, if◌then◌else◌, Option, none, some, List, map}
use llvm2c.Types.{CType}
use llvm2c.TypeHandler.{toggle_signedness}
use llvm2c.Exprs.{
  Expr, MaybeExpr, Exprs, TypeRef, get_type, aggregate_element, array_element, extract_value,
  gep_expr, if_expr, switch_expr, call_expr, pointer_shift, select_expr, unary, UnaryKind, ref_expr,
  deref_expr, cast_expr, minus_expr, logical_not, ret_expr, binary, BinaryKind, add_expr, sub_expr,
  mul_expr, div_expr, rem_expr, shl_expr, cmp_expr, assign_expr, and_expr, or_expr, xor_expr,
  ashr_expr, lshr_expr, null, just, nil, cons,
}
use llvm2c.RedundantCasts.{signedness}
use llvm2c.Visitor.{Code}

unfoldable pub toggle_ref : TypeRef → TypeRef
unfolding toggle_signedness
toggle_ref none = none
toggle_ref (some t) = some (toggle_signedness t)

-- The condition of castIfNeeded, `IT && IT->unsignedType != isUnsigned`.
unfoldable pub needs_cast : Option Bool → Bool → Bool
needs_cast none is_unsigned = false
needs_cast (some true) is_unsigned = not is_unsigned
needs_cast (some false) is_unsigned = is_unsigned

-- SignCastsVisitor::castIfNeeded
unfoldable pub cast_if_needed : Expr → Bool → Expr
unfolding get_type toggle_ref needs_cast signedness
cast_if_needed e is_unsigned =
    if needs_cast (signedness (get_type e)) is_unsigned
    then unary cast_expr e (toggle_ref (get_type e))
    else e

-- The signedness to which a BinaryExpr's visit casts its operands, if it casts them.
unfoldable pub cast_to : BinaryKind → Option Bool
cast_to (add_expr u) = some u
cast_to (sub_expr u) = some u
cast_to (mul_expr u) = some u
cast_to (div_expr u) = some u
cast_to (rem_expr u) = some u
cast_to (shl_expr u) = some u
cast_to (cmp_expr op u) = some u
cast_to _ = none

unfoldable pub cast_operand : Option Bool → Expr → Expr
unfolding cast_if_needed
cast_operand none e = e
cast_operand (some u) e = cast_if_needed e u

-- The overridden visits; the visits of the other classes are ExprVisitor's, which do nothing.
unfoldable mutual
  pub visit : Expr → Expr
  visit (aggregate_element e n t) = aggregate_element (visit e) n t
  visit (array_element e i t) = array_element (visit e) (visit i) t
  visit (extract_value indices t) = extract_value (visit_list indices) t
  visit (if_expr cmp yes_list no_list) = if_expr (visit cmp) yes_list no_list
  visit (switch_expr cmp def cases) = switch_expr (visit cmp) def cases
  visit (call_expr func_value name params t) =
      call_expr (visit_maybe func_value) name (visit_list params) t
  visit (pointer_shift ptr_type p move t) = pointer_shift ptr_type (visit p) (visit move) t
  visit (gep_expr indices t) = gep_expr (visit_list indices) t
  visit (select_expr left right comp negate t) =
      select_expr (visit left) (visit right) (visit comp) negate t
  visit (unary ref_expr e t) = unary ref_expr (visit e) t
  visit (unary deref_expr e t) = unary deref_expr (visit e) t
  visit (unary cast_expr e t) = unary cast_expr (visit e) t
  visit (ret_expr e t) = ret_expr (visit_maybe e) t
  visit (binary ashr_expr l r t) = binary ashr_expr l r t
  visit (binary lshr_expr l r t) = binary lshr_expr l r t
  visit (binary k l r t) =
      binary k (cast_operand (cast_to k) (visit l)) (cast_operand (cast_to k) (visit r)) t
  visit e = e

  pub visit_maybe : MaybeExpr → MaybeExpr
  visit_maybe null = null
  visit_maybe (just e) = just (visit e)

  pub visit_list : Exprs → Exprs
  visit_list nil = nil
  visit_list (cons e es) = cons (visit e) (visit_list es)

-- addSignCasts
unfoldable pub add_sign_casts : Code → Code
unfolding visit
add_sign_casts code = map (map (map visit)) code
