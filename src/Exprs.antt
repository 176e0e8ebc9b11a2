-- ===== src/Exprs.antt =====
-- expr/Expr.h, expr/UnaryExpr.h, expr/BinaryExpr.h and their .cpp files: the expressions of the
-- translated program, their constructors, and the queries isZero, isSimple and getType. An
-- expression owns its operands here; a pass that changes an operand in place returns the changed
-- expression.
use llvm2c.Prelude.{ℕ, Bool, true, false, Option, none, some, Text, codes, text_eq}
use llvm2c.Types.{CType, pointer}
use llvm2c.Types.Kinds.{pointed_type}
use llvm2c.TypeHandler.{get_binary_type, cmp_bool_object}

-- A `Type*` field; `none` where no constructor sets it, or where it is null.
abbrev pub TypeRef : Type 0
TypeRef = Option CType

-- The subclasses of UnaryExpr, but for RetExpr, whose operand may be null.
pub data UnaryKind : Type 0 where
  ref_expr deref_expr cast_expr minus_expr logical_not : UnaryKind

-- The subclasses of BinaryExpr with their own fields: `isUnsigned`, and the operator's text of a
-- CmpExpr.
pub data BinaryKind : Type 0 where
  add_expr sub_expr mul_expr div_expr rem_expr shl_expr : Bool → BinaryKind
  assign_expr and_expr or_expr xor_expr ashr_expr lshr_expr : BinaryKind
  cmp_expr : Text → Bool → BinaryKind

-- The label of a case, an `int`.
pub data Label : Type 0 where
  positive negative : ℕ → Label

mutual
  pub data Expr : Type 0 where
    value global_value : Text → TypeRef → Expr
    aggregate_element arrow_expr : Expr → ℕ → TypeRef → Expr
    array_element : Expr → Expr → TypeRef → Expr
    extract_value gep_expr aggregate_initializer : Exprs → TypeRef → Expr
    if_expr : Expr → Expr → Expr → Expr
    goto_expr : ℕ → Expr
    latch_expr : ℕ → Bool → Expr
    switch_expr : Expr → Expr → Cases → Expr
    asm_expr : Text → Operands → Operands → Text → Expr
    call_expr : MaybeExpr → Text → Exprs → TypeRef → Expr
    pointer_shift : TypeRef → Expr → Expr → TypeRef → Expr
    select_expr : Expr → Expr → Expr → Bool → TypeRef → Expr
    stack_alloc : Text → TypeRef → TypeRef → Expr
    unary : UnaryKind → Expr → TypeRef → Expr
    ret_expr : MaybeExpr → TypeRef → Expr
    binary : BinaryKind → Expr → Expr → TypeRef → Expr
    logical_and logical_or : Expr → Expr → TypeRef → Expr
    expr_list : Exprs → Expr
    do_while : Expr → Expr → Bool → Expr

  -- An `Expr*` that may be null.
  pub data MaybeExpr : Type 0 where
    null : MaybeExpr
    just : Expr → MaybeExpr

  pub data Exprs : Type 0 where
    nil : Exprs
    cons : Expr → Exprs → Exprs

  -- The cases of a switch, in the order of the map.
  pub data Cases : Type 0 where
    no_case : Cases
    case : Label → Expr → Cases → Cases

  -- Constraint and expression, for the operands of inline assembly.
  pub data Operands : Type 0 where
    no_operand : Operands
    operand : Text → MaybeExpr → Operands → Operands

-- Expr::getType
unfoldable pub get_type : Expr → TypeRef
get_type (value _ t) = t
get_type (global_value _ t) = t
get_type (aggregate_element _ _ t) = t
get_type (arrow_expr _ _ t) = t
get_type (array_element _ _ t) = t
get_type (extract_value _ t) = t
get_type (gep_expr _ t) = t
get_type (aggregate_initializer _ t) = t
get_type (call_expr _ _ _ t) = t
get_type (pointer_shift _ _ _ t) = t
get_type (select_expr _ _ _ _ t) = t
get_type (stack_alloc _ _ t) = t
get_type (unary _ _ t) = t
get_type (ret_expr _ t) = t
get_type (binary _ _ _ t) = t
get_type (logical_and _ _ t) = t
get_type (logical_or _ _ t) = t
get_type _ = none

-- Expr::isZero, with Value's override.
unfoldable pub is_zero : Expr → Bool
is_zero (value name _) = text_eq name (codes "0")
is_zero (global_value name _) = text_eq name (codes "0")
is_zero _ = false

-- Expr::isSimple, with the overrides of Value, GlobalValue and CallExpr.
unfoldable pub is_simple : Expr → Bool
is_simple (value _ _) = true
is_simple (global_value _ _) = true
is_simple (call_expr _ _ _ _) = true
is_simple _ = false

-- `dyn_cast_or_null<PointerType>(e->getType())` followed by `->type`.
unfoldable pub pointed_by : TypeRef → TypeRef
unfolding pointed_type
pointed_by none = none
pointed_by (some t) = pointed_type t

-- The constructors that compute the type.
-- RefExpr::RefExpr, CastExpr::CastExpr
unfoldable pub make_ref : Expr → CType → Expr
make_ref e t = unary ref_expr e (some t)

unfoldable pub make_cast : Expr → CType → Expr
make_cast e t = unary cast_expr e (some t)

-- The type that DerefExpr's constructor sets: the pointed type, or that of the operand.
unfoldable pub deref_type : TypeRef → TypeRef
deref_type none = none
deref_type (some (pointer _ t _)) = some t
deref_type (some t) = some t

unfoldable pub make_deref : Expr → Expr
unfolding get_type deref_type
make_deref e = unary deref_expr e (deref_type (get_type e))

-- MinusExpr::MinusExpr, LogicalNot::LogicalNot
unfoldable pub make_minus : Expr → Expr
unfolding get_type
make_minus e = unary minus_expr e (get_type e)

unfoldable pub make_not : Expr → Expr
unfolding get_type
make_not e = unary logical_not e (get_type e)

-- BinaryExpr::BinaryExpr, and the type that CmpExpr sets afterwards.
unfoldable pub make_binary : BinaryKind → Expr → Expr → Expr
unfolding get_type get_binary_type
make_binary (cmp_expr op u) l r = binary (cmp_expr op u) l r (some cmp_bool_object)
make_binary k l r = binary k l r (get_binary_type (get_type l) (get_type r))

unfoldable pub make_logical_and : Expr → Expr → Expr
unfolding get_type get_binary_type
make_logical_and l r = logical_and l r (get_binary_type (get_type l) (get_type r))

unfoldable pub make_logical_or : Expr → Expr → Expr
unfolding get_type get_binary_type
make_logical_or l r = logical_or l r (get_binary_type (get_type l) (get_type r))

-- SelectExpr::SelectExpr(comp, l, r, negateCondition)
unfoldable pub make_select : Expr → Expr → Expr → Bool → Expr
unfolding get_type
make_select comp l r negate = select_expr l r comp negate (get_type l)

-- CallExpr::CallExpr without a function value, Value::Value
unfoldable pub make_call : Text → Exprs → CType → Expr
make_call name params t = call_expr null name params (some t)

unfoldable pub make_value : Text → CType → Expr
make_value name t = value name (some t)
