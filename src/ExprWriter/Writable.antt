-- ===== src/ExprWriter/Writable.antt =====
-- What an expression needs for writer/ExprWriter.cpp to print it.
use llvm2c.Prelude.{ℕ, Bool, true, Text}
use llvm2c.Exprs.{
  Expr, MaybeExpr, Exprs, Cases, Operands, value, global_value, aggregate_element, arrow_expr,
  array_element, extract_value, gep_expr, aggregate_initializer, if_expr, goto_expr, latch_expr,
  switch_expr, asm_expr, call_expr, pointer_shift, select_expr, stack_alloc, unary, UnaryKind,
  cast_expr, ret_expr, binary, logical_and, logical_or, expr_list, do_while, null, just, nil, cons,
  no_case, case, no_operand, operand, get_type, TypeRef,
}
use llvm2c.ExprWriter.{ItemNames, is_va_func}
use llvm2c.ExprWriter.Brackets.{Balanced}
use llvm2c.ExprWriter.Pieces.{NamedType, HasItem, PointsToItem, PointerNamed, OperatorFits}

-- The type that a cast or a declaration prints.
abbrev pub CastNamed : UnaryKind → TypeRef → Type 0
CastNamed cast_expr t = NamedType t
CastNamed _ t = Unit

-- `va_start` and `va_end` have an argument.
abbrev pub HasVaArgument : Bool → Exprs → Type 0
HasVaArgument true nil = ⊥
HasVaArgument _ _ = Unit

module _ (names : ItemNames) (Allowed : ℕ → Type 0) where
  -- The expression has the types, the items and the operands that the writer needs, the brackets
  -- match in each of its names, and its latches are allowed.
  unfoldable mutual
    unfolding get_type is_va_func

    pub IsWritable : Expr → Type 0
    IsWritable (value name _) = Balanced name
    IsWritable (global_value name _) = Balanced name
    IsWritable (aggregate_element e n _) = IsWritable e × HasItem names (get_type e) n
    IsWritable (arrow_expr e n _) = IsWritable e × PointsToItem names (get_type e) n
    IsWritable (array_element e i _) = IsWritable e × IsWritable i
    IsWritable (extract_value indices _) = IsWritableLast indices
    IsWritable (gep_expr indices _) = IsWritableLast indices
    IsWritable (aggregate_initializer values _) = AreWritable values
    IsWritable (if_expr c a b) = IsWritable c × IsWritable a × IsWritable b
    IsWritable (goto_expr _) = Unit
    IsWritable (latch_expr target _) = Allowed target
    IsWritable (switch_expr c d cases) = IsWritable c × IsWritable d × CasesWritable cases
    IsWritable (asm_expr inst output input clobbers) =
        Balanced inst × OutputsWritable output × InputsWritable input × Balanced clobbers
    IsWritable (call_expr func_value name params _) =
        CalleeWritable func_value name × AreWritable params × HasVaArgument (is_va_func name) params
    IsWritable (pointer_shift ptr_type p move _) =
        PointerNamed ptr_type × IsWritable p × IsWritable move
    IsWritable (select_expr l r c _ _) = IsWritable l × IsWritable r × IsWritable c
    IsWritable (stack_alloc name _ t) = NamedType t × Balanced name
    IsWritable (unary k e t) = CastNamed k t × IsWritable e
    IsWritable (ret_expr e _) = ResultWritable e
    IsWritable (binary k l r _) =
        IsWritable l × IsWritable r × OperatorFits k (get_type l) (get_type r)
    IsWritable (logical_and l r _) = IsWritable l × IsWritable r
    IsWritable (logical_or l r _) = IsWritable l × IsWritable r
    IsWritable (expr_list es) = AreWritable es
    IsWritable (do_while body cond _) = IsWritable body × IsWritable cond

    pub IsWritableLast : Exprs → Type 0
    IsWritableLast nil = ⊥
    IsWritableLast (cons e nil) = IsWritable e
    IsWritableLast (cons e (cons e' es)) = IsWritableLast (cons e' es)

    pub AreWritable : Exprs → Type 0
    AreWritable nil = Unit
    AreWritable (cons e es) = IsWritable e × AreWritable es

    pub CasesWritable : Cases → Type 0
    CasesWritable no_case = Unit
    CasesWritable (case _ e cases) = IsWritable e × CasesWritable cases

    -- Up to the first null.
    pub OutputsWritable : Operands → Type 0
    OutputsWritable no_operand = Unit
    OutputsWritable (operand text null rest) = Unit
    OutputsWritable (operand text (just e) rest) =
        Balanced text × IsWritable e × OutputsWritable rest

    pub InputsWritable : Operands → Type 0
    InputsWritable no_operand = Unit
    InputsWritable (operand text null rest) = ⊥
    InputsWritable (operand text (just e) rest) = Balanced text × IsWritable e × InputsWritable rest

    pub CalleeWritable : MaybeExpr → Text → Type 0
    CalleeWritable null name = Balanced name
    CalleeWritable (just e) name = IsWritable e

    pub ResultWritable : MaybeExpr → Type 0
    ResultWritable null = Unit
    ResultWritable (just e) = IsWritable e
