-- ===== src/RedundantCasts.antt =====
-- parser/deleteRedundantCasts.cpp: the pass that drops casts.
pub mod Values
pub mod Casts
pub mod Comparisons
pub mod Tests
use llvm2c.Prelude.{
  Bool, true, false, ◌&&◌, ◌||◌, Option, none, some, if◌then◌else◌, Text, codes, text_eq,
}
use llvm2c.Types.{CType, same_type}
use llvm2c.Types.Kinds.{is_integer_type, is_bool_type, integer_signedness}
use llvm2c.Exprs.{
  Expr, TypeRef, get_type, unary, cast_expr, logical_not, binary, BinaryKind, cmp_expr, logical_and,
  logical_or,
}
use llvm2c.Visitor.{Code, run_visitor}

-- `isa<IntegerType>` and `isa<BoolType>` on a `Type*`, and `==`.
unfoldable pub is_integer : TypeRef → Bool
is_integer none = false
is_integer (some t) = is_integer_type t

unfoldable pub is_bool : TypeRef → Bool
is_bool none = false
is_bool (some t) = is_bool_type t

unfoldable pub same_ref : TypeRef → TypeRef → Bool
same_ref none none = true
same_ref none (some t) = false
same_ref (some t) none = false
same_ref (some t) (some t') = same_type t t'

-- `dyn_cast_or_null<IntegerType>(t)`, then `unsignedType`; `none` is the null pointer.
unfoldable pub signedness : TypeRef → Option Bool
signedness none = none
signedness (some t) = integer_signedness t

-- A comparison, a logical operation, or any expression of boolean type.
unfoldable pub is_boolean_expr : Expr → Bool
is_boolean_expr (binary (cmp_expr _ _) _ _ _) = true
is_boolean_expr (logical_and _ _ _) = true
is_boolean_expr (logical_or _ _ _) = true
is_boolean_expr (unary logical_not _ _) = true
is_boolean_expr e = is_bool (get_type e)

unfoldable pub is_bool_cast : Expr → Bool
is_bool_cast (unary cast_expr _ t) = is_bool t
is_bool_cast _ = false

-- (T)(T)(X) => (T)(X): the operand that the outer cast has afterwards.
unfoldable pub collapse : TypeRef → Expr → Expr
collapse t (unary cast_expr e t') = if same_ref t' t then e else unary cast_expr e t'
collapse t e = e

unfoldable pub simplify_cast : TypeRef → Expr → Expr
simplify_cast t inner =
    if is_integer t && is_bool_cast inner
    then inner
    else (if is_integer t && is_boolean_expr inner
        then inner
        else (if is_bool t && is_boolean_expr inner then inner else unary cast_expr inner t))

-- The two rules on a comparison of two casts to one integer type.
unfoldable pub drops_equality : Text → TypeRef → TypeRef → Bool
drops_equality op lt rt =
    (text_eq op (codes "==") || text_eq op (codes "!=")) && (is_integer lt && is_integer rt)

unfoldable pub is_unsigned : TypeRef → Bool
is_unsigned t = elim (signedness t) [ none ↦ false | some u ↦ u ]

unfoldable pub drops_order : Bool → TypeRef → TypeRef → TypeRef → Bool
drops_order u t lt rt =
    (u && is_unsigned lt) && (is_unsigned t && (is_unsigned rt && same_ref lt rt))

unfoldable pub simplify_cmp : Text → Bool → Expr → Expr → TypeRef → Expr
simplify_cmp op u (unary cast_expr a ta) (unary cast_expr b tb) t =
    if same_ref ta tb && is_integer ta
    then (if drops_equality op (get_type a) (get_type b)
          || drops_order u ta (get_type a) (get_type b)
        then binary (cmp_expr op u) a b t
        else binary (cmp_expr op u) (unary cast_expr a ta) (unary cast_expr b tb) t)
    else binary (cmp_expr op u) (unary cast_expr a ta) (unary cast_expr b tb) t
simplify_cmp op u l r t = binary (cmp_expr op u) l r t

-- RedundantCastsVisitor::simplify
unfoldable pub simplify : Expr → Expr
simplify (unary cast_expr e t) = simplify_cast t (collapse t e)
simplify (binary (cmp_expr op u) l r t) = simplify_cmp op u l r t
simplify e = e

-- deleteRedundantCasts
unfoldable pub delete_redundant_casts : Code → Code
unfolding run_visitor simplify
delete_redundant_casts code = run_visitor simplify code
