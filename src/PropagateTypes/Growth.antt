-- ===== src/PropagateTypes/Growth.antt =====
-- How the pass changes the types of variables: only of those that are ready for it, and of each once.
use llvm2c.Prelude.{List, [], ◌∷◌}
use llvm2c.Exprs.{
  Expr, MaybeExpr, Exprs, Cases, Operands, value, aggregate_element, arrow_expr, array_element,
  extract_value, gep_expr, if_expr, switch_expr, asm_expr, call_expr, pointer_shift, select_expr,
  unary, ret_expr, binary, logical_and, logical_or, expr_list, do_while, null, just, nil, cons,
  no_case, case, no_operand, operand, pointed_by,
}
use llvm2c.Arrowify.{Items}
use llvm2c.PropagateTypes.State.{PropagateState, type_of}
use llvm2c.PropagateTypes.Steps.{
  ref_signedness, finish_binary, finish_unary, set_shift, set_select, set_element, set_arrow,
  set_array, set_indices, last_type, finish_return,
}
use llvm2c.PropagateTypes.{visit, visit_maybe, visit_list, visit_cases, visit_operands, visit_block}
use llvm2c.PropagateTypes.Extends.{
  Extends, Extends-refl, Extends-trans, unary-Extends, binary-Extends, shift-Extends,
  select-Extends, element-Extends, arrow-Extends, array-Extends, indices-Extends,
}

module _ (items : Items) where
  mutual
    unfolding visit finish_return

    visit-Extends : (s : PropagateState) (e : Expr) → Extends s (visit items s e).1
    visit-Extends s (value _ _) = Extends-refl s
    visit-Extends s (aggregate_element e n t) =
        let v = visit items s e in
        Extends-trans s v.1 (set_element items v.0 n t v.1 (type_of v.1 v.0)).1 (visit-Extends s e)
          (element-Extends items v.0 n t v.1 (type_of v.1 v.0))
    visit-Extends s (arrow_expr e n t) =
        let v = visit items s e in
        let p = pointed_by (type_of v.1 v.0) in
        Extends-trans s v.1 (set_arrow items v.0 n t v.1 p).1 (visit-Extends s e)
          (arrow-Extends items v.0 n t v.1 p)
    visit-Extends s (array_element e i t) =
        let v = visit items s e in
        let w = visit items v.1 i in
        let o = type_of w.1 v.0 in
        Extends-trans s v.1 (set_array v.0 w.0 t w.1 o).1 (visit-Extends s e) (
          Extends-trans v.1 w.1 (set_array v.0 w.0 t w.1 o).1 (visit-Extends v.1 i)
            (array-Extends v.0 w.0 t w.1 o))
    visit-Extends s (extract_value es t) =
        let v = visit_list items s es in
        let o = last_type v.1 v.0 in
        Extends-trans s v.1 (set_indices extract_value v.0 t v.1 o).1 (list-Extends s es)
          (indices-Extends extract_value v.0 t v.1 o)
    visit-Extends s (gep_expr es t) =
        let v = visit_list items s es in
        let o = last_type v.1 v.0 in
        Extends-trans s v.1 (set_indices gep_expr v.0 t v.1 o).1 (list-Extends s es)
          (indices-Extends gep_expr v.0 t v.1 o)
    visit-Extends s (if_expr c _ _) = visit-Extends s c
    visit-Extends s (switch_expr c d cases) =
        let v = visit items s c in
        let w = visit_cases items v.1 cases in
        let u = visit items w.1 d in
        Extends-trans s v.1 u.1 (visit-Extends s c)
          (Extends-trans v.1 w.1 u.1 (cases-Extends v.1 cases) (visit-Extends w.1 d))
    visit-Extends s (asm_expr _ output input _) =
        let v = visit_operands items s output in
        Extends-trans s v.1 (visit_operands items v.1 input).1 (operands-Extends s output)
          (operands-Extends v.1 input)
    visit-Extends s (call_expr f _ es _) =
        let v = visit_maybe items s f in
        Extends-trans s v.1 (visit_list items v.1 es).1 (maybe-Extends s f) (list-Extends v.1 es)
    visit-Extends s (pointer_shift pt p move t) =
        let v = visit items s p in
        let w = visit items v.1 move in
        let o = type_of w.1 v.0 in
        Extends-trans s v.1 (set_shift pt v.0 w.0 t w.1 o).1 (visit-Extends s p) (
          Extends-trans v.1 w.1 (set_shift pt v.0 w.0 t w.1 o).1 (visit-Extends v.1 move)
            (shift-Extends pt v.0 w.0 t w.1 o))
    visit-Extends s (select_expr l r c negate t) =
        let v = visit items s l in
        let w = visit items v.1 r in
        let u = visit items w.1 c in
        let own = ref_signedness t in
        let left = ref_signedness (type_of u.1 v.0) in
        let z = set_select v.0 w.0 u.0 negate t u.1 own left in
        Extends-trans s v.1 z.1 (visit-Extends s l) (
          Extends-trans v.1 w.1 z.1 (visit-Extends v.1 r) (
            Extends-trans w.1 u.1 z.1 (visit-Extends w.1 c)
              (select-Extends v.0 w.0 u.0 negate t u.1 own left)))
    visit-Extends s (unary k e t) =
        let v = visit items s e in
        Extends-trans s v.1 (finish_unary k v.0 t v.1).1 (visit-Extends s e)
          (unary-Extends k v.0 t v.1)
    visit-Extends s (ret_expr null _) = Extends-refl s
    visit-Extends s (ret_expr (just e) _) = visit-Extends s e
    visit-Extends s (binary k l r t) =
        let v = visit items s l in
        let w = visit items v.1 r in
        Extends-trans s v.1 (finish_binary k v.0 w.0 t w.1).1 (visit-Extends s l) (
          Extends-trans v.1 w.1 (finish_binary k v.0 w.0 t w.1).1 (visit-Extends v.1 r)
            (binary-Extends k v.0 w.0 t w.1))
    visit-Extends s (logical_and l r _) =
        let v = visit items s l in
        Extends-trans s v.1 (visit items v.1 r).1 (visit-Extends s l) (visit-Extends v.1 r)
    visit-Extends s (logical_or l r _) =
        let v = visit items s l in
        Extends-trans s v.1 (visit items v.1 r).1 (visit-Extends s l) (visit-Extends v.1 r)
    visit-Extends s (expr_list es) = list-Extends s es
    visit-Extends s (do_while body cond _) =
        let v = visit items s cond in
        Extends-trans s v.1 (visit items v.1 body).1 (visit-Extends s cond) (visit-Extends v.1 body)
    visit-Extends s _ = Extends-refl s

    maybe-Extends : (s : PropagateState) (e : MaybeExpr) → Extends s (visit_maybe items s e).1
    maybe-Extends s null = Extends-refl s
    maybe-Extends s (just e) = visit-Extends s e

    list-Extends : (s : PropagateState) (es : Exprs) → Extends s (visit_list items s es).1
    list-Extends s nil = Extends-refl s
    list-Extends s (cons e es) =
        let v = visit items s e in
        Extends-trans s v.1 (visit_list items v.1 es).1 (visit-Extends s e) (list-Extends v.1 es)

    cases-Extends : (s : PropagateState) (cs : Cases) → Extends s (visit_cases items s cs).1
    cases-Extends s no_case = Extends-refl s
    cases-Extends s (case _ e cs) =
        let v = visit items s e in
        Extends-trans s v.1 (visit_cases items v.1 cs).1 (visit-Extends s e) (cases-Extends v.1 cs)

    operands-Extends :
        (s : PropagateState) (ops : Operands) → Extends s (visit_operands items s ops).1
    operands-Extends s no_operand = Extends-refl s
    operands-Extends s (operand _ e ops) =
        let v = visit_maybe items s e in
        Extends-trans s v.1 (visit_operands items v.1 ops).1 (maybe-Extends s e)
          (operands-Extends v.1 ops)

  -- Over the expressions of a block, the pass changes the type of a variable at most once, and only
  -- of a variable that was ready for it: a type changed before stays, and a variable that has one
  -- afterwards either had it before, or had none and was ready.
  pub visit_block-Extends :
      (s : PropagateState) (es : List Expr) → Extends s (visit_block items s es).1
  unfolding visit_block
  visit_block-Extends s [] = Extends-refl s
  visit_block-Extends s (e ∷ es) =
      let v = visit items s e in
      Extends-trans s v.1 (visit_block items v.1 es).1 (visit-Extends s e)
        (visit_block-Extends v.1 es)
