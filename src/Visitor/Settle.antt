-- ===== src/Visitor/Settle.antt =====
-- A visit settles an expression, so that a second visit changes nothing.
use llvm2c.Prelude.{ℕ, ◌≡◌}
use llvm2c.Exprs.{
  Expr, MaybeExpr, Exprs, Cases, Operands, value, global_value, aggregate_element, arrow_expr,
  array_element, extract_value, gep_expr, aggregate_initializer, if_expr, goto_expr, latch_expr,
  switch_expr, asm_expr, call_expr, pointer_shift, select_expr, stack_alloc, unary, ret_expr,
  binary, logical_and, logical_or, expr_list, do_while, null, just, nil, cons, no_case, case,
  no_operand, operand,
}
use llvm2c.Visitor.{accept, accept_maybe, accept_each, accept_list, accept_cases, accept_operands}
use llvm2c.Visitor.Stable.{
  GoesTo, MaybeGoesTo, AllGoTo, CasesGoTo, OperandsGoTo, HasNoInitializer, IsSettled,
  IsSettledMaybe, AreSettledEach, AreSettled, AreSettledCases, AreSettledOperands, accept-IsSettled,
}

-- The target of a goto, if the expression is one.
abbrev pub HeadGoesTo : (ℕ → Type 0) → Expr → Type 0
HeadGoesTo Target (goto_expr target) = Target target
HeadGoesTo Target _ = Unit

HeadGoesTo-accept :
    (Target : ℕ → Type 0) (simplify : Expr → Expr) (e : Expr)
    → GoesTo Target e
    → HeadGoesTo Target (accept simplify e)
unfolding accept GoesTo
HeadGoesTo-accept Target simplify (goto_expr target) h = h
HeadGoesTo-accept Target simplify _ h = tt

-- A pass whose `simplify` gives what is settled for `settled`, on expressions whose operands are.
module _ (Target : ℕ → Type 0) (simplify settled : Expr → Expr)
    (settles : (e : Expr)
      → HeadGoesTo Target e
      → IsSettled settled e
      → IsSettled settled (simplify e) × (settled (simplify e) ≡ simplify e)) where
  operand-IsSettled :
      (e : Expr)
      → GoesTo Target e
      → IsSettled settled (accept simplify e)
      → IsSettled settled (simplify (accept simplify e))
        × (settled (simplify (accept simplify e)) ≡ simplify (accept simplify e))
  operand-IsSettled e h s = settles (accept simplify e) (HeadGoesTo-accept Target simplify e h) s

  mutual
    unfolding accept IsSettled GoesTo

    visit : (e : Expr) → GoesTo Target e → IsSettled settled (accept simplify e)
    visit (aggregate_element e n t) h = operand-IsSettled e h (visit e h)
    visit (arrow_expr e n t) h = operand-IsSettled e h (visit e h)
    visit (array_element e i t) (h, k) =
        let (a, b) = operand-IsSettled e h (visit e h) in
        let (c, d) = operand-IsSettled i k (visit i k) in (a, b, c, d)
    visit (extract_value es t) h = visit_each es h
    visit (gep_expr es t) h = visit_list es h
    visit (aggregate_initializer es t) h = absurd h
    visit (if_expr x y z) (h, k, l) =
        let (a, b) = operand-IsSettled x h (visit x h) in
        let (c, d) = operand-IsSettled y k (visit y k) in
        let (e, f) = operand-IsSettled z l (visit z l) in (a, b, c, d, e, f)
    visit (switch_expr x y cases) (h, k, l) =
        let (a, b) = operand-IsSettled x h (visit x h) in
        let (c, d) = operand-IsSettled y k (visit y k) in (a, b, c, d, visit_cases cases l)
    visit (asm_expr _ output input _) (h, k) = (visit_operands output h, visit_operands input k)
    visit (call_expr f _ es t) (h, k) = (visit_maybe f h, visit_list es k)
    visit (pointer_shift _ p move t) (h, k) =
        let (a, b) = operand-IsSettled p h (visit p h) in
        let (c, d) = operand-IsSettled move k (visit move k) in (a, b, c, d)
    visit (select_expr x y z _ t) (h, k, l) =
        let (a, b) = operand-IsSettled x h (visit x h) in
        let (c, d) = operand-IsSettled y k (visit y k) in
        let (e, f) = operand-IsSettled z l (visit z l) in (a, b, c, d, e, f)
    visit (unary k e t) h = operand-IsSettled e h (visit e h)
    visit (ret_expr e t) h = visit_maybe e h
    visit (binary _ x y t) (h, k) =
        let (a, b) = operand-IsSettled x h (visit x h) in
        let (c, d) = operand-IsSettled y k (visit y k) in (a, b, c, d)
    visit (logical_and x y t) (h, k) =
        let (a, b) = operand-IsSettled x h (visit x h) in
        let (c, d) = operand-IsSettled y k (visit y k) in (a, b, c, d)
    visit (logical_or x y t) (h, k) =
        let (a, b) = operand-IsSettled x h (visit x h) in
        let (c, d) = operand-IsSettled y k (visit y k) in (a, b, c, d)
    visit (expr_list es) h = visit_list es h
    visit (do_while x y _) (h, k) =
        let (a, b) = operand-IsSettled x h (visit x h) in
        let (c, d) = operand-IsSettled y k (visit y k) in (a, b, c, d)
    visit (value _ _) h = tt
    visit (global_value _ _) h = tt
    visit (goto_expr _) h = tt
    visit (latch_expr _ _) h = tt
    visit (stack_alloc _ _ _) h = tt

    visit_maybe :
        (e : MaybeExpr) → MaybeGoesTo Target e → IsSettledMaybe settled (accept_maybe simplify e)
    visit_maybe null h = tt
    visit_maybe (just e) h = operand-IsSettled e h (visit e h)

    visit_each : (es : Exprs) → AllGoTo Target es → AreSettledEach settled (accept_each simplify es)
    visit_each nil h = tt
    visit_each (cons e es) (h, k) = (visit e h, visit_each es k)

    visit_list : (es : Exprs) → AllGoTo Target es → AreSettled settled (accept_list simplify es)
    visit_list nil h = tt
    visit_list (cons e es) (h, k) =
        let (a, b) = operand-IsSettled e h (visit e h) in (a, b, visit_list es k)

    visit_cases :
        (cases : Cases)
        → CasesGoTo Target cases
        → AreSettledCases settled (accept_cases simplify cases)
    visit_cases no_case h = tt
    visit_cases (case _ e cases) (h, k) =
        let (a, b) = operand-IsSettled e h (visit e h) in (a, b, visit_cases cases k)

    visit_operands :
        (ops : Operands)
        → OperandsGoTo Target ops
        → AreSettledOperands settled (accept_operands simplify ops)
    visit_operands no_operand h = tt
    visit_operands (operand _ e ops) (h, k) = (visit_maybe e h, visit_operands ops k)

  -- What a visit returns is settled.
  pub IsSettled-visit : (e : Expr) → GoesTo Target e → IsSettled settled (accept simplify e)
  IsSettled-visit e h = visit e h

  -- So is what `simplify` makes of it.
  pub IsSettled-simplify :
      (e : Expr)
      → GoesTo Target e
      → IsSettled settled (simplify (accept simplify e))
        × (settled (simplify (accept simplify e)) ≡ simplify (accept simplify e))
  IsSettled-simplify e h = operand-IsSettled e h (visit e h)

module _ (simplify : Expr → Expr)
    (settles : (e : Expr)
      → IsSettled simplify e
      → IsSettled simplify (simplify e) × (simplify (simplify e) ≡ simplify e)) where
  -- What a visit returns is settled, and a second visit returns it unchanged.
  pub IsSettled-accept :
      (e : Expr)
      → HasNoInitializer e
      → IsSettled simplify (accept simplify e)
        × (accept simplify (accept simplify e) ≡ accept simplify e)
  IsSettled-accept e h =
      let done = IsSettled-visit (λ _. Unit) simplify simplify (λ e _. settles e) e h in
      (done, accept-IsSettled simplify (accept simplify e) done)
