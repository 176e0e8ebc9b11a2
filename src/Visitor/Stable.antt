-- ===== src/Visitor/Stable.antt =====
-- When a second visit changes nothing. An expression is settled when `simplify` leaves every operand
-- in it alone; a visit settles an expression if `simplify` settles what has settled operands.
-- The elements of an ExtractValueExpr are visited without being simplified, and those of an
-- AggregateInitializer are simplified without being visited: an expression with initializers in it
-- is left out.
use llvm2c.Prelude.{ℕ, ◌≡◌, refl}
use llvm2c.Exprs.{
  Expr, MaybeExpr, Exprs, Cases, Operands, value, global_value, aggregate_element, arrow_expr,
  array_element, extract_value, gep_expr, aggregate_initializer, if_expr, goto_expr, latch_expr,
  switch_expr, asm_expr, call_expr, pointer_shift, select_expr, stack_alloc, unary, ret_expr,
  binary, logical_and, logical_or, expr_list, do_while, null, just, nil, cons, no_case, case,
  no_operand, operand,
}
use llvm2c.Visitor.{accept, accept_maybe, accept_each, accept_list, accept_cases, accept_operands}

module _ (Target : ℕ → Type 0) where
  -- No AggregateInitializer stands in the expression, and every goto in it has such a target.
  unfoldable mutual
    pub GoesTo : Expr → Type 0
    GoesTo (aggregate_element e n t) = GoesTo e
    GoesTo (arrow_expr e n t) = GoesTo e
    GoesTo (array_element e i t) = GoesTo e × GoesTo i
    GoesTo (extract_value es t) = AllGoTo es
    GoesTo (gep_expr es t) = AllGoTo es
    GoesTo (aggregate_initializer es t) = ⊥
    GoesTo (if_expr c a b) = GoesTo c × GoesTo a × GoesTo b
    GoesTo (switch_expr c d cases) = GoesTo c × GoesTo d × CasesGoTo cases
    GoesTo (asm_expr _ output input _) = OperandsGoTo output × OperandsGoTo input
    GoesTo (call_expr f _ es t) = MaybeGoesTo f × AllGoTo es
    GoesTo (pointer_shift _ p move t) = GoesTo p × GoesTo move
    GoesTo (select_expr l r c _ t) = GoesTo l × GoesTo r × GoesTo c
    GoesTo (unary k e t) = GoesTo e
    GoesTo (ret_expr e t) = MaybeGoesTo e
    GoesTo (binary k l r t) = GoesTo l × GoesTo r
    GoesTo (logical_and l r t) = GoesTo l × GoesTo r
    GoesTo (logical_or l r t) = GoesTo l × GoesTo r
    GoesTo (expr_list es) = AllGoTo es
    GoesTo (do_while body c _) = GoesTo body × GoesTo c
    GoesTo (value _ _) = Unit
    GoesTo (global_value _ _) = Unit
    GoesTo (goto_expr target) = Target target
    GoesTo (latch_expr _ _) = Unit
    GoesTo (stack_alloc _ _ _) = Unit

    pub MaybeGoesTo : MaybeExpr → Type 0
    MaybeGoesTo null = Unit
    MaybeGoesTo (just e) = GoesTo e

    pub AllGoTo : Exprs → Type 0
    AllGoTo nil = Unit
    AllGoTo (cons e es) = GoesTo e × AllGoTo es

    pub CasesGoTo : Cases → Type 0
    CasesGoTo no_case = Unit
    CasesGoTo (case _ e cases) = GoesTo e × CasesGoTo cases

    pub OperandsGoTo : Operands → Type 0
    OperandsGoTo no_operand = Unit
    OperandsGoTo (operand _ e ops) = MaybeGoesTo e × OperandsGoTo ops

-- No AggregateInitializer stands in the expression.
abbrev pub HasNoInitializer : Expr → Type 0
HasNoInitializer = GoesTo (λ _. Unit)

module _ (simplify : Expr → Expr) where
  unfoldable mutual
    -- `simplify` leaves every operand in the expression alone.
    pub IsSettled : Expr → Type 0
    IsSettled (aggregate_element e n t) = IsSettled e × (simplify e ≡ e)
    IsSettled (arrow_expr e n t) = IsSettled e × (simplify e ≡ e)
    IsSettled (array_element e i t) =
        IsSettled e × (simplify e ≡ e) × IsSettled i × (simplify i ≡ i)
    IsSettled (extract_value es t) = AreSettledEach es
    IsSettled (gep_expr es t) = AreSettled es
    IsSettled (aggregate_initializer es t) = ⊥
    IsSettled (if_expr c a b) =
        IsSettled c
        × (simplify c ≡ c)
        × IsSettled a
        × (simplify a ≡ a)
        × IsSettled b
        × (simplify b ≡ b)
    IsSettled (switch_expr c d cases) =
        IsSettled c × (simplify c ≡ c) × IsSettled d × (simplify d ≡ d) × AreSettledCases cases
    IsSettled (asm_expr _ output input _) = AreSettledOperands output × AreSettledOperands input
    IsSettled (call_expr f _ es t) = IsSettledMaybe f × AreSettled es
    IsSettled (pointer_shift _ p move t) =
        IsSettled p × (simplify p ≡ p) × IsSettled move × (simplify move ≡ move)
    IsSettled (select_expr l r c _ t) =
        IsSettled l
        × (simplify l ≡ l)
        × IsSettled r
        × (simplify r ≡ r)
        × IsSettled c
        × (simplify c ≡ c)
    IsSettled (unary k e t) = IsSettled e × (simplify e ≡ e)
    IsSettled (ret_expr e t) = IsSettledMaybe e
    IsSettled (binary k l r t) = IsSettled l × (simplify l ≡ l) × IsSettled r × (simplify r ≡ r)
    IsSettled (logical_and l r t) = IsSettled l × (simplify l ≡ l) × IsSettled r × (simplify r ≡ r)
    IsSettled (logical_or l r t) = IsSettled l × (simplify l ≡ l) × IsSettled r × (simplify r ≡ r)
    IsSettled (expr_list es) = AreSettled es
    IsSettled (do_while body c _) =
        IsSettled body × (simplify body ≡ body) × IsSettled c × (simplify c ≡ c)
    IsSettled (value _ _) = Unit
    IsSettled (global_value _ _) = Unit
    IsSettled (goto_expr _) = Unit
    IsSettled (latch_expr _ _) = Unit
    IsSettled (stack_alloc _ _ _) = Unit

    pub IsSettledMaybe : MaybeExpr → Type 0
    IsSettledMaybe null = Unit
    IsSettledMaybe (just e) = IsSettled e × (simplify e ≡ e)

    pub AreSettledEach : Exprs → Type 0
    AreSettledEach nil = Unit
    AreSettledEach (cons e es) = IsSettled e × AreSettledEach es

    pub AreSettled : Exprs → Type 0
    AreSettled nil = Unit
    AreSettled (cons e es) = IsSettled e × (simplify e ≡ e) × AreSettled es

    pub AreSettledCases : Cases → Type 0
    AreSettledCases no_case = Unit
    AreSettledCases (case _ e cases) = IsSettled e × (simplify e ≡ e) × AreSettledCases cases

    pub AreSettledOperands : Operands → Type 0
    AreSettledOperands no_operand = Unit
    AreSettledOperands (operand _ e ops) = IsSettledMaybe e × AreSettledOperands ops

  mutual
    unfolding accept IsSettled

    settled : (e : Expr) → IsSettled e → accept simplify e ≡ e
    settled (aggregate_element e n t) (h, s) = rw (settled e h, s)
    settled (arrow_expr e n t) (h, s) = rw (settled e h, s)
    settled (array_element e i t) (h, s, h', s') = rw (settled e h, s, settled i h', s')
    settled (extract_value es t) h = rw (settled_each es h)
    settled (gep_expr es t) h = rw (settled_list es h)
    settled (aggregate_initializer es t) h = absurd h
    settled (if_expr c a b) (h, s, h', s', h'', s'') =
        rw (settled c h, s, settled a h', s', settled b h'', s'')
    settled (switch_expr c d cases) (h, s, h', s', h'') =
        rw (settled c h, s, settled d h', s', settled_cases cases h'')
    settled (asm_expr _ output input _) (h, h') =
        rw (settled_operands output h, settled_operands input h')
    settled (call_expr f _ es t) (h, h') = rw (settled_maybe f h, settled_list es h')
    settled (pointer_shift _ p move t) (h, s, h', s') = rw (settled p h, s, settled move h', s')
    settled (select_expr l r c _ t) (h, s, h', s', h'', s'') =
        rw (settled l h, s, settled r h', s', settled c h'', s'')
    settled (unary k e t) (h, s) = rw (settled e h, s)
    settled (ret_expr e t) h = rw (settled_maybe e h)
    settled (binary k l r t) (h, s, h', s') = rw (settled l h, s, settled r h', s')
    settled (logical_and l r t) (h, s, h', s') = rw (settled l h, s, settled r h', s')
    settled (logical_or l r t) (h, s, h', s') = rw (settled l h, s, settled r h', s')
    settled (expr_list es) h = rw (settled_list es h)
    settled (do_while body c _) (h, s, h', s') = rw (settled body h, s, settled c h', s')
    settled (value _ _) h = refl
    settled (global_value _ _) h = refl
    settled (goto_expr _) h = refl
    settled (latch_expr _ _) h = refl
    settled (stack_alloc _ _ _) h = refl

    settled_maybe : (e : MaybeExpr) → IsSettledMaybe e → accept_maybe simplify e ≡ e
    settled_maybe null h = refl
    settled_maybe (just e) (h, s) = rw (settled e h, s)

    settled_each : (es : Exprs) → AreSettledEach es → accept_each simplify es ≡ es
    settled_each nil h = refl
    settled_each (cons e es) (h, h') = rw (settled e h, settled_each es h')

    settled_list : (es : Exprs) → AreSettled es → accept_list simplify es ≡ es
    settled_list nil h = refl
    settled_list (cons e es) (h, s, h') = rw (settled e h, s, settled_list es h')

    settled_cases : (cases : Cases) → AreSettledCases cases → accept_cases simplify cases ≡ cases
    settled_cases no_case h = refl
    settled_cases (case _ e cases) (h, s, h') = rw (settled e h, s, settled_cases cases h')

    settled_operands :
        (ops : Operands) → AreSettledOperands ops → accept_operands simplify ops ≡ ops
    settled_operands no_operand h = refl
    settled_operands (operand _ e ops) (h, h') = rw (settled_maybe e h, settled_operands ops h')

  -- A visit changes nothing in a settled expression.
  pub accept-IsSettled : (e : Expr) → IsSettled e → accept simplify e ≡ e
  accept-IsSettled e h = settled e h
