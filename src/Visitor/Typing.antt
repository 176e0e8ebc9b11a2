-- ===== src/Visitor/Typing.antt =====
-- That a pass keeps the types of expressions right. What makes the type of an expression right is a
-- parameter: a rule on the expression's shape, with its own type, and the types of its operands.
use llvm2c.Prelude.{none, some, List, [], ◌∷◌, map, ◌≡◌, refl, ◌∙◌, All}
use llvm2c.Types.{CType, pointer, array}
use llvm2c.Exprs.{
  Expr, MaybeExpr, Exprs, Cases, Operands, TypeRef, value, global_value, aggregate_element,
  arrow_expr, array_element, extract_value, gep_expr, aggregate_initializer, if_expr, goto_expr,
  latch_expr, switch_expr, asm_expr, call_expr, pointer_shift, select_expr, stack_alloc, unary,
  ret_expr, binary, logical_and, logical_or, expr_list, do_while, null, just, nil, cons, no_case,
  case, no_operand, operand, get_type,
}
use llvm2c.Visitor.{
  Code, run_visitor, accept, accept_maybe, accept_each, accept_list, accept_cases, accept_operands,
  simplify_each,
}
use llvm2c.Visitor.Meaning.{
  Shape, of_value, of_global_value, of_aggregate_element, of_arrow, of_array_element,
  of_extract_value, of_gep, of_initializer, of_logical_and, of_logical_or, of_if, of_list, of_goto,
  of_latch, of_pointer_shift, of_select, of_stack_alloc, of_unary, of_binary, of_do_while,
}

-- Two pointer types or two array types that differ in their addresses only are one type in C.
unfoldable pub c_type : CType → CType
c_type (pointer _ t f) = pointer 0 (c_type t) f
c_type (array _ t size f) = array 0 (c_type t) size f
c_type t = t

abbrev pub c_type_ref : TypeRef → TypeRef
c_type_ref none = none
c_type_ref (some t) = some (c_type t)

-- The C type of an expression.
unfoldable pub type_of : Expr → TypeRef
unfolding get_type
type_of e = c_type_ref (get_type e)

abbrev types_of : Exprs → List TypeRef
types_of nil = []
types_of (cons e es) = type_of e ∷ types_of es

module _ (Rule : Shape → List TypeRef → Type 0) where
  -- The rule holds of every expression in it; those of calls, returns, switches and inline assembly
  -- need only have such operands.
  unfoldable mutual
    pub IsTyped : Expr → Type 0
    IsTyped (value name t) = Rule (of_value name t) []
    IsTyped (global_value name t) = Rule (of_global_value name t) []
    IsTyped (aggregate_element e n t) = Rule (of_aggregate_element n t) (type_of e ∷ []) × IsTyped e
    IsTyped (arrow_expr e n t) = Rule (of_arrow n t) (type_of e ∷ []) × IsTyped e
    IsTyped (array_element e i t) =
        Rule (of_array_element t) (type_of e ∷ type_of i ∷ []) × IsTyped e × IsTyped i
    IsTyped (extract_value es t) = Rule (of_extract_value t) (types_of es) × AreTyped es
    IsTyped (gep_expr es t) = Rule (of_gep t) (types_of es) × AreTyped es
    IsTyped (aggregate_initializer es t) = Rule (of_initializer t) (types_of es) × AreTyped es
    IsTyped (if_expr c a b) =
        Rule of_if (type_of c ∷ type_of a ∷ type_of b ∷ []) × IsTyped c × IsTyped a × IsTyped b
    IsTyped (goto_expr b) = Rule (of_goto b) []
    IsTyped (latch_expr b head_edge) = Rule (of_latch b head_edge) []
    IsTyped (switch_expr c d cases) = IsTyped c × IsTyped d × CasesTyped cases
    IsTyped (asm_expr _ output input _) = OperandsTyped output × OperandsTyped input
    IsTyped (call_expr f name es t) = MaybeTyped f × AreTyped es
    IsTyped (pointer_shift pt p move t) =
        Rule (of_pointer_shift pt t) (type_of p ∷ type_of move ∷ []) × IsTyped p × IsTyped move
    IsTyped (select_expr l r c negate t) =
        Rule (of_select negate t) (type_of l ∷ type_of r ∷ type_of c ∷ [])
        × IsTyped l
        × IsTyped r
        × IsTyped c
    IsTyped (stack_alloc name vt t) = Rule (of_stack_alloc name vt t) []
    IsTyped (unary k e t) = Rule (of_unary k t) (type_of e ∷ []) × IsTyped e
    IsTyped (ret_expr e t) = MaybeTyped e
    IsTyped (binary k l r t) =
        Rule (of_binary k t) (type_of l ∷ type_of r ∷ []) × IsTyped l × IsTyped r
    IsTyped (logical_and l r t) =
        Rule (of_logical_and t) (type_of l ∷ type_of r ∷ []) × IsTyped l × IsTyped r
    IsTyped (logical_or l r t) =
        Rule (of_logical_or t) (type_of l ∷ type_of r ∷ []) × IsTyped l × IsTyped r
    IsTyped (expr_list es) = Rule of_list (types_of es) × AreTyped es
    IsTyped (do_while body c negate) =
        Rule (of_do_while negate) (type_of body ∷ type_of c ∷ []) × IsTyped body × IsTyped c

    pub MaybeTyped : MaybeExpr → Type 0
    MaybeTyped null = Unit
    MaybeTyped (just e) = IsTyped e

    pub AreTyped : Exprs → Type 0
    AreTyped nil = Unit
    AreTyped (cons e es) = IsTyped e × AreTyped es

    pub CasesTyped : Cases → Type 0
    CasesTyped no_case = Unit
    CasesTyped (case _ e cases) = IsTyped e × CasesTyped cases

    pub OperandsTyped : Operands → Type 0
    OperandsTyped no_operand = Unit
    OperandsTyped (operand _ e ops) = MaybeTyped e × OperandsTyped ops

  abbrev pub CodeTyped : Code → Type 0
  CodeTyped code = All (All (All IsTyped)) code

  -- A `simplify` that keeps the types right, and the type of what it simplifies.
  abbrev pub KeepsTypes : (Expr → Expr) → Type 0
  KeepsTypes simplify =
      (e : Expr) → IsTyped e → IsTyped (simplify e) × (type_of (simplify e) ≡ type_of e)

  module _ (simplify : Expr → Expr) (keeps : KeepsTypes simplify) where
    type_of-accept : (e : Expr) → type_of (accept simplify e) ≡ type_of e
    unfolding accept type_of
    type_of-accept (value _ _) = refl
    type_of-accept (extract_value _ _) = refl
    type_of-accept _ = refl

    operand-IsTyped :
        (e : Expr)
        → IsTyped (accept simplify e)
        → IsTyped (simplify (accept simplify e))
          × (type_of (simplify (accept simplify e)) ≡ type_of e)
    operand-IsTyped e h = let (a, q) = keeps (accept simplify e) h in (a, q ∙ type_of-accept e)

    each-AreTyped :
        (es : Exprs)
        → AreTyped es
        → AreTyped (simplify_each simplify es)
          × (types_of (simplify_each simplify es) ≡ types_of es)
    unfolding simplify_each IsTyped
    each-AreTyped nil h = (tt, refl)
    each-AreTyped (cons e es) (h, k) =
        let (a, q) = keeps e h in let (b, r) = each-AreTyped es k in ((a, b), rw (q, r) refl)

    mutual
      unfolding accept IsTyped

      typed : (e : Expr) → IsTyped e → IsTyped (accept simplify e)
      typed (value _ _) h = h
      typed (global_value _ _) h = h
      typed (goto_expr _) h = h
      typed (latch_expr _ _) h = h
      typed (stack_alloc _ _ _) h = h
      typed (aggregate_element e n t) (r, h) =
          let (a, p) = operand-IsTyped e (typed e h) in (rw p r, a)
      typed (arrow_expr e n t) (r, h) = let (a, p) = operand-IsTyped e (typed e h) in (rw p r, a)
      typed (array_element e i t) (r, h, k) =
          let (a, p) = operand-IsTyped e (typed e h) in
          let (b, q) = operand-IsTyped i (typed i k) in (rw (p, q) r, a, b)
      typed (extract_value es t) (r, h) = let (a, p) = typed_each es h in (rw p r, a)
      typed (gep_expr es t) (r, h) = let (a, p) = typed_list es h in (rw p r, a)
      typed (aggregate_initializer es t) (r, h) = let (a, p) = each-AreTyped es h in (rw p r, a)
      typed (if_expr c x y) (r, h, k, l) =
          let (a, p) = operand-IsTyped c (typed c h) in
          let (b, q) = operand-IsTyped x (typed x k) in
          let (d, s) = operand-IsTyped y (typed y l) in (rw (p, q, s) r, a, b, d)
      typed (switch_expr c d cases) (h, k, l) = (
        (operand-IsTyped c (typed c h)).0,
        (operand-IsTyped d (typed d k)).0,
        typed_cases cases l,
      )
      typed (asm_expr _ output input _) (h, k) = (typed_operands output h, typed_operands input k)
      typed (call_expr f name es t) (h, k) = (typed_maybe f h, (typed_list es k).0)
      typed (pointer_shift pt e move t) (r, h, k) =
          let (a, p) = operand-IsTyped e (typed e h) in
          let (b, q) = operand-IsTyped move (typed move k) in (rw (p, q) r, a, b)
      typed (select_expr x y c negate t) (r, h, k, l) =
          let (a, p) = operand-IsTyped x (typed x h) in
          let (b, q) = operand-IsTyped y (typed y k) in
          let (d, s) = operand-IsTyped c (typed c l) in (rw (p, q, s) r, a, b, d)
      typed (unary k e t) (r, h) = let (a, p) = operand-IsTyped e (typed e h) in (rw p r, a)
      typed (ret_expr e t) h = typed_maybe e h
      typed (binary k x y t) (r, h, l) =
          let (a, p) = operand-IsTyped x (typed x h) in
          let (b, q) = operand-IsTyped y (typed y l) in (rw (p, q) r, a, b)
      typed (logical_and x y t) (r, h, l) =
          let (a, p) = operand-IsTyped x (typed x h) in
          let (b, q) = operand-IsTyped y (typed y l) in (rw (p, q) r, a, b)
      typed (logical_or x y t) (r, h, l) =
          let (a, p) = operand-IsTyped x (typed x h) in
          let (b, q) = operand-IsTyped y (typed y l) in (rw (p, q) r, a, b)
      typed (expr_list es) (r, h) = let (a, p) = typed_list es h in (rw p r, a)
      typed (do_while x c negate) (r, h, l) =
          let (a, p) = operand-IsTyped x (typed x h) in
          let (b, q) = operand-IsTyped c (typed c l) in (rw (p, q) r, a, b)

      typed_maybe : (e : MaybeExpr) → MaybeTyped e → MaybeTyped (accept_maybe simplify e)
      typed_maybe null h = tt
      typed_maybe (just e) h = (operand-IsTyped e (typed e h)).0

      typed_each :
          (es : Exprs)
          → AreTyped es
          → AreTyped (accept_each simplify es) × (types_of (accept_each simplify es) ≡ types_of es)
      typed_each nil h = (tt, refl)
      typed_each (cons e es) (h, k) =
          let (b, q) = typed_each es k in ((typed e h, b), rw (type_of-accept e, q) refl)

      typed_list :
          (es : Exprs)
          → AreTyped es
          → AreTyped (accept_list simplify es) × (types_of (accept_list simplify es) ≡ types_of es)
      typed_list nil h = (tt, refl)
      typed_list (cons e es) (h, k) =
          let (a, p) = operand-IsTyped e (typed e h) in
          let (b, q) = typed_list es k in ((a, b), rw (p, q) refl)

      typed_cases : (cases : Cases) → CasesTyped cases → CasesTyped (accept_cases simplify cases)
      typed_cases no_case h = tt
      typed_cases (case _ e cases) (h, k) = ((operand-IsTyped e (typed e h)).0, typed_cases cases k)

      typed_operands :
          (ops : Operands) → OperandsTyped ops → OperandsTyped (accept_operands simplify ops)
      typed_operands no_operand h = tt
      typed_operands (operand _ e ops) (h, k) = (typed_maybe e h, typed_operands ops k)

    All-map :
        {A : Type 0} (P : A → Type 0) (f : A → A)
        → ((a : A) → P a → P (f a))
        → (xs : List A) → All P xs
        → All P (map f xs)
    All-map P f h [] k = tt
    All-map P f h (x ∷ xs) (k, l) = (h x k, All-map P f h xs l)

    -- A pass whose `simplify` keeps the types right keeps them right in the whole module.
    pub CodeTyped-run_visitor :
        (code : Code) → CodeTyped code → CodeTyped (run_visitor simplify code)
    unfolding run_visitor
    CodeTyped-run_visitor =
        All-map (All (All IsTyped)) (map (map (accept simplify)))
          (All-map (All IsTyped) (map (accept simplify)) (All-map IsTyped (accept simplify) typed))
