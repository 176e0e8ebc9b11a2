-- ===== src/Visitor.antt =====
-- parser/SimplifyingExprVisitor.h and .cpp: the traversal that five passes share. Every operand is
-- visited and then replaced by what `simplify` makes of it; the visited expression itself is only
-- changed inside. An expression that two others share is visited once for each, so a pass has to
-- give the same result a second time: the passes' own modules prove that where it holds.
pub mod Meaning
pub mod Stable
pub mod Settle
pub mod Typing
use llvm2c.Prelude.{List, map}
use llvm2c.Exprs.{
  Expr, MaybeExpr, Exprs, Cases, Operands, value, global_value, aggregate_element, arrow_expr,
  array_element, extract_value, gep_expr, aggregate_initializer, if_expr, goto_expr, latch_expr,
  switch_expr, asm_expr, call_expr, pointer_shift, select_expr, stack_alloc, unary, ret_expr,
  binary, logical_and, logical_or, expr_list, do_while, null, just, nil, cons, no_case, case,
  no_operand, operand,
}

module _ (simplify : Expr → Expr) where
  -- `for (auto& v : expr.values) v = simplify(v)`, with no visit before it.
  unfoldable pub simplify_each : Exprs → Exprs
  simplify_each nil = nil
  simplify_each (cons e es) = cons (simplify e) (simplify_each es)

  unfoldable mutual
    pub accept : Expr → Expr
    accept (aggregate_element e n t) = aggregate_element (simplify (accept e)) n t
    accept (array_element e i t) = array_element (simplify (accept e)) (simplify (accept i)) t
    accept (extract_value indices t) = extract_value (accept_each indices) t
    accept (if_expr cmp yes_list no_list) =
        if_expr (simplify (accept cmp)) (simplify (accept yes_list)) (simplify (accept no_list))
    accept (switch_expr cmp def cases) =
        switch_expr (simplify (accept cmp)) (simplify (accept def)) (accept_cases cases)
    accept (asm_expr inst output input clobbers) =
        asm_expr inst (accept_operands output) (accept_operands input) clobbers
    accept (call_expr func_value name params t) =
        call_expr (accept_maybe func_value) name (accept_list params) t
    accept (pointer_shift ptr_type p move t) =
        pointer_shift ptr_type (simplify (accept p)) (simplify (accept move)) t
    accept (gep_expr indices t) = gep_expr (accept_list indices) t
    accept (select_expr left right comp negate t) =
        select_expr (simplify (accept left)) (simplify (accept right)) (simplify (accept comp))
          negate t
    accept (unary k e t) = unary k (simplify (accept e)) t
    accept (ret_expr e t) = ret_expr (accept_maybe e) t
    accept (binary k l r t) = binary k (simplify (accept l)) (simplify (accept r)) t
    accept (aggregate_initializer values t) = aggregate_initializer (simplify_each values) t
    accept (expr_list es) = expr_list (accept_list es)
    accept (arrow_expr e n t) = arrow_expr (simplify (accept e)) n t
    accept (logical_and l r t) = logical_and (simplify (accept l)) (simplify (accept r)) t
    accept (logical_or l r t) = logical_or (simplify (accept l)) (simplify (accept r)) t
    accept (do_while body cond negate) =
        do_while (simplify (accept body)) (simplify (accept cond)) negate
    accept (value name t) = value name t
    accept (global_value name t) = global_value name t
    accept (goto_expr target) = goto_expr target
    accept (latch_expr target head_edge) = latch_expr target head_edge
    accept (stack_alloc name vt t) = stack_alloc name vt t

    -- `if (e) { e->accept(*this); e = simplify(e); }`
    pub accept_maybe : MaybeExpr → MaybeExpr
    accept_maybe null = null
    accept_maybe (just e) = just (simplify (accept e))

    -- Visits each element and leaves it in its place.
    pub accept_each : Exprs → Exprs
    accept_each nil = nil
    accept_each (cons e es) = cons (accept e) (accept_each es)

    -- Visits each element and simplifies it.
    pub accept_list : Exprs → Exprs
    accept_list nil = nil
    accept_list (cons e es) = cons (simplify (accept e)) (accept_list es)

    pub accept_cases : Cases → Cases
    accept_cases no_case = no_case
    accept_cases (case label e cases) = case label (simplify (accept e)) (accept_cases cases)

    pub accept_operands : Operands → Operands
    accept_operands no_operand = no_operand
    accept_operands (operand c e ops) = operand c (accept_maybe e) (accept_operands ops)

-- The expressions of a module: its functions, their blocks, and each block's expressions in order.
abbrev pub Code : Type 0
Code = List (List (List Expr))

-- The loops of a pass over functions, blocks and `myBlock->expressions`: each expression accepts the
-- visitor, and is not itself replaced.
unfoldable pub run_visitor : (Expr → Expr) → Code → Code
unfolding accept
run_visitor simplify code = map (map (map (accept simplify))) code
