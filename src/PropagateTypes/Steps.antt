-- ===== src/PropagateTypes/Steps.antt =====
-- What the visits of parser/propagateTypes.cpp do after those of the operands.
use llvm2c.Prelude.{ℕ, Bool, true, false, Option, none, some, ◌∷◌, if◌then◌else◌}
use llvm2c.Types.{pointer, array}
use llvm2c.Types.Kinds.{is_aggregate_type, is_struct_type, integer_signedness, pointed_type}
use llvm2c.TypeHandler.{pointer_to}
use llvm2c.Exprs.{
  Expr, Exprs, TypeRef, aggregate_element, arrow_expr, array_element, call_expr, pointer_shift,
  select_expr, unary, UnaryKind, ref_expr, deref_expr, cast_expr, ret_expr, binary, BinaryKind,
  add_expr, sub_expr, mul_expr, div_expr, rem_expr, assign_expr, cmp_expr, just, nil, cons,
  pointed_by,
}
use llvm2c.Arrowify.{Items}
use llvm2c.FuncState.{contains}
use llvm2c.PropagateTypes.State.{
  PropagateState, find_refined, object_of, object_name, type_of, fail,
}

-- The type of a binary expression: that of the left operand, or that of the right one if it is null.
abbrev pub first_type : TypeRef → TypeRef → TypeRef
first_type (some t) r = some t
first_type none r = r

-- `if (auto IT = dyn_cast_or_null<IntegerType>(t)) isUnsigned = IT->unsignedType`
abbrev pub updated : Bool → TypeRef → Bool
updated u none = u
updated u (some t) = elim (integer_signedness t) [ none ↦ u | some v ↦ v ]

abbrev pub with_flag : BinaryKind → TypeRef → BinaryKind
with_flag (add_expr u) t = add_expr (updated u t)
with_flag (sub_expr u) t = sub_expr (updated u t)
with_flag (mul_expr u) t = mul_expr (updated u t)
with_flag (div_expr u) t = div_expr (updated u t)
with_flag (rem_expr u) t = rem_expr (updated u t)
with_flag k t = k

abbrev pub is_call : Expr → Bool
is_call (call_expr _ _ _ _) = true
is_call _ = false

abbrev pub Visited : Type 0
Visited = Expr × PropagateState

-- The end of visit(AssignExpr&), after its operands: the variable on the left gets the type on the
-- right, if it is ready for that and has not got one yet.
unfoldable pub refine : Expr → Expr → PropagateState → PropagateState
unfolding type_of object_of find_refined contains object_name
refine l r s = if is_call r then s else elim (object_of l) [
  | none ↦ s
  | some o ↦ elim (find_refined o s.refined) [
    | some _ ↦ s
    | none ↦
        if contains (object_name o) s.ready
        then record s { refined = (o, type_of s r) ∷ s.refined }
        else s
  ]
]

-- visit of a BinaryExpr, after its operands. A CmpExpr has no visit here.
unfoldable pub finish_binary : BinaryKind → Expr → Expr → TypeRef → PropagateState → Visited
unfolding type_of refine integer_signedness
finish_binary assign_expr l r t s = (binary assign_expr l r t, refine l r s)
finish_binary (cmp_expr op u) l r t s = (binary (cmp_expr op u) l r t, s)
finish_binary k l r t s =
    let t' = first_type (type_of s l) (type_of s r) in (binary (with_flag k t') l r t', s)

-- The visits after the operands, by the operand's type; each sets the type of the expression.
-- visit(RefExpr&)
unfoldable pub set_reference : Expr → TypeRef → PropagateState → TypeRef → Visited
unfolding fail pointer_to
set_reference e t s none = (unary ref_expr e t, fail s)
set_reference e t s (some pointed) =
    let made = pointer_to pointed s.handler in
    (unary ref_expr e (some made.0), record s { handler = made.1 })

-- visit of a RefExpr, a DerefExpr, a MinusExpr or a LogicalNot; a CastExpr has none here.
unfoldable pub finish_unary : UnaryKind → Expr → TypeRef → PropagateState → Visited
unfolding type_of set_reference pointed_type
finish_unary ref_expr e t s = set_reference e t s (type_of s e)
finish_unary deref_expr e t s =
    (unary deref_expr e (elim (pointed_by (type_of s e)) [ none ↦ t | some p ↦ some p ]), s)
finish_unary cast_expr e t s = (unary cast_expr e t, s)
finish_unary k e t s = (unary k e (type_of s e), s)

-- visit(PointerShift&)
unfoldable pub set_shift : TypeRef → Expr → Expr → TypeRef → PropagateState → TypeRef → Visited
unfolding fail pointer_to
set_shift ptr_type p move t s none = (pointer_shift ptr_type p move t, fail s)
set_shift ptr_type p move t s (some (pointer _ pointed _)) =
    let made = pointer_to pointed s.handler in
    (pointer_shift (some made.0) p move (some pointed), record s { handler = made.1 })
set_shift ptr_type p move t s (some _) = (pointer_shift ptr_type p move t, s)

abbrev pub ref_signedness : TypeRef → Option Bool
ref_signedness none = none
ref_signedness (some t) = integer_signedness t

-- visit(SelectExpr&): the signedness of its own type, if that is an integer type, decides whether
-- that of the left operand is looked at, which is then taken for an integer type.
unfoldable pub set_select :
    Expr → Expr → Expr → Bool → TypeRef → PropagateState → Option Bool → Option Bool → Visited
unfolding type_of fail
set_select l r c negate t s none left = (select_expr l r c negate (type_of s l), s)
set_select l r c negate t s (some _) none = (select_expr l r c negate t, fail s)
set_select l r c negate t s (some _) (some true) = (select_expr l r c negate (type_of s r), s)
set_select l r c negate t s (some _) (some false) = (select_expr l r c negate (type_of s l), s)

-- visit(AggregateElement&), by `dyn_cast<AggregateType>` of the operand's type.
unfoldable pub set_element : Items → Expr → ℕ → TypeRef → PropagateState → TypeRef → Visited
unfolding fail is_aggregate_type
set_element items e n t s none = (aggregate_element e n t, fail s)
set_element items e n t s (some a) =
    if is_aggregate_type a
    then (aggregate_element e n (items a n), s)
    else (aggregate_element e n t, fail s)

-- visit(ArrowExpr&), by the type that the operand points to.
unfoldable pub set_arrow : Items → Expr → ℕ → TypeRef → PropagateState → TypeRef → Visited
unfolding fail is_struct_type
set_arrow items e n t s none = (arrow_expr e n t, fail s)
set_arrow items e n t s (some a) =
    if is_struct_type a then (arrow_expr e n (items a n), s) else (arrow_expr e n t, fail s)

-- visit(ArrayElement&), whose operand's type is taken for an ArrayType.
unfoldable pub set_array : Expr → Expr → TypeRef → PropagateState → TypeRef → Visited
unfolding fail
set_array e i t s (some (array _ element _ _)) = (array_element e i (some element), s)
set_array e i t s _ = (array_element e i t, fail s)

-- `indices.back()->getType()`
unfoldable pub last_type : PropagateState → Exprs → Option TypeRef
unfolding type_of
last_type s nil = none
last_type s (cons e nil) = some (type_of s e)
last_type s (cons e (cons e' es)) = last_type s (cons e' es)

-- visit(ExtractValueExpr&) and visit(GepExpr&)
unfoldable pub set_indices :
    (Exprs → TypeRef → Expr) → Exprs → TypeRef → PropagateState → Option TypeRef → Visited
unfolding fail
set_indices made es t s none = (made es t, fail s)
set_indices made es t s (some t') = (made es t', s)

-- visit(RetExpr&)
unfoldable pub finish_return : Expr → PropagateState → Visited
unfolding type_of
finish_return e s = (ret_expr (just e) (type_of s e), s)
