-- ===== src/ExprWriter/Balance.antt =====
-- What ExprWriter writes for an expression has matching brackets: the expression must have the types
-- and items that the writer asks for, and the names in it must have matching brackets themselves.
use llvm2c.Prelude.{
  ℕ, ◌+◌, ◌≡◌, refl, Bool, true, false, some, List, [], ◌∷◌, Text, All, Bool-cases, inl, inr,
  if◌then◌else◌,
}
use llvm2c.Exprs.{
  Expr, MaybeExpr, Exprs, Cases, Operands, value, global_value, aggregate_element, arrow_expr,
  array_element, extract_value, gep_expr, aggregate_initializer, if_expr, goto_expr, latch_expr,
  switch_expr, asm_expr, call_expr, pointer_shift, select_expr, stack_alloc, unary, ref_expr,
  deref_expr, cast_expr, minus_expr, logical_not, ret_expr, binary, and_expr, lshr_expr, cmp_expr,
  logical_and, logical_or, expr_list, do_while, null, just, nil, cons, no_case, case, no_operand,
  operand, get_type, is_simple, is_zero,
}
use llvm2c.ExprWriter.{
  Out, put, ItemNames, indent, is_va_func, is_empty_list, stands_alone, parens_if_not_simple, visit,
  visit_last, visit_values, visit_cases, visit_output, visit_input, visit_callee, visit_function,
  visit_params, visit_result, visit_list, visit_block,
}
use llvm2c.ExprWriter.Brackets.{
  scan_out, scan_out-<<, Balanced, WritesBalanced, indent-WritesBalanced,
}
use llvm2c.ExprWriter.Pieces.{
  parens-WritesBalanced, cast_type-WritesBalanced, shift_type-WritesBalanced,
  element-WritesBalanced, pointed_item-WritesBalanced, and-WritesBalanced, unsigned-opens,
  declaration-WritesBalanced, label-WritesBalanced,
}
use llvm2c.ExprWriter.Writable.{
  IsWritable, IsWritableLast, AreWritable, CasesWritable, OutputsWritable, InputsWritable,
  CalleeWritable, ResultWritable, HasVaArgument,
}

lead-WritesBalanced : (i : ℕ) (first : Bool) → WritesBalanced (if first then put "" else indent i)
unfolding scan_out
lead-WritesBalanced i true due = refl
lead-WritesBalanced i false due = indent-WritesBalanced i due

semicolon-WritesBalanced : (alone : Bool) → WritesBalanced (if alone then put "" else put ";\n")
unfolding scan_out
semicolon-WritesBalanced true due = refl
semicolon-WritesBalanced false due = refl

module _ (no_casts : Bool) (names : ItemNames) (Allowed : ℕ → Type 0) (block_name : ℕ → Text)
    (latch : ℕ → ℕ → Out) (named : (target : ℕ) → Balanced (block_name target))
    (latched : (i target : ℕ) → Allowed target → WritesBalanced (latch i target)) where
  abbrev written : ℕ → Expr → Out
  written i e = visit no_casts names block_name latch i e

  enclosed :
      (i : ℕ) (e : Expr)
      → WritesBalanced (written i e)
      → WritesBalanced (parens_if_not_simple (is_simple e) (written i e))
  enclosed i e h = parens-WritesBalanced (is_simple e) (written i e) h

  mutual
    unfolding visit IsWritable scan_out

    pub visit-WritesBalanced :
        (i : ℕ) (e : Expr) → IsWritable names Allowed e → WritesBalanced (written i e)
    visit-WritesBalanced i (value name _) h due = h due
    visit-WritesBalanced i (global_value name _) h due = h due
    visit-WritesBalanced i (aggregate_element e n _) h due = simp (
      scan_out-<<,
      enclosed i e (visit-WritesBalanced i e h.0),
      element-WritesBalanced names (get_type e) n h.1,
    )
    visit-WritesBalanced i (arrow_expr e n _) h due = simp (
      scan_out-<<,
      enclosed i e (visit-WritesBalanced i e h.0),
      pointed_item-WritesBalanced names (get_type e) n h.1,
    )
    visit-WritesBalanced i (array_element e n _) h due =
        simp
          (scan_out-<<, enclosed i e (visit-WritesBalanced i e h.0), visit-WritesBalanced i n h.1)
    visit-WritesBalanced i (extract_value indices _) h due = last-WritesBalanced i indices h due
    visit-WritesBalanced i (gep_expr indices _) h due = last-WritesBalanced i indices h due
    visit-WritesBalanced i (aggregate_initializer values _) h due =
        simp (scan_out-<<, values-WritesBalanced i values h)
    visit-WritesBalanced i (if_expr c a b) h due = simp (
      scan_out-<<,
      indent-WritesBalanced,
      visit-WritesBalanced i c h.0,
      visit-WritesBalanced (i + 1) a h.1,
      visit-WritesBalanced (i + 1) b h.2,
    )
    visit-WritesBalanced i (goto_expr target) h due = named target due
    visit-WritesBalanced i (latch_expr target _) h due = latched i target h due
    visit-WritesBalanced i (switch_expr c d cases) h due = simp (
      scan_out-<<,
      indent-WritesBalanced,
      visit-WritesBalanced i c h.0,
      visit-WritesBalanced (i + 2) d h.1,
      cases-WritesBalanced i cases h.2,
    )
    visit-WritesBalanced i (asm_expr inst output input clobbers) h due = simp (
      scan_out-<<,
      indent-WritesBalanced,
      h.0,
      outputs-WritesBalanced (i + 1) true output h.1,
      inputs-WritesBalanced (i + 1) true input h.2,
      h.3,
    )
    visit-WritesBalanced i (call_expr f name params _) h due = elim (Bool-cases (is_va_func name)) [
      | inl e ↦ rw e (
          simp (
            scan_out-<<,
            callee-WritesBalanced i f name h.0,
            va_params-close i params h.1 (rw e at h.2),
          ))
      | inr e ↦ rw e (
          simp (
            scan_out-<<,
            callee-WritesBalanced i f name h.0,
            first_params-WritesBalanced i params h.1,
          ))
    ]
    visit-WritesBalanced i (pointer_shift ptr_type p move _) h due =
        elim (Bool-cases (is_zero move)) [
          | inl e ↦ rw e (visit-WritesBalanced i p h.1 due)
          | inr e ↦ rw e (
              simp (
                scan_out-<<,
                shift_type-WritesBalanced ptr_type h.0,
                visit-WritesBalanced i p h.1,
                enclosed i move (visit-WritesBalanced i move h.2),
              ))
        ]
    visit-WritesBalanced i (select_expr l r c true _) h due = simp (
      scan_out-<<,
      enclosed i l (visit-WritesBalanced i l h.0),
      enclosed i r (visit-WritesBalanced i r h.1),
      enclosed i c (visit-WritesBalanced i c h.2),
    )
    visit-WritesBalanced i (select_expr l r c false _) h due = simp (
      scan_out-<<,
      enclosed i l (visit-WritesBalanced i l h.0),
      enclosed i r (visit-WritesBalanced i r h.1),
      enclosed i c (visit-WritesBalanced i c h.2),
    )
    visit-WritesBalanced i (stack_alloc name _ t) h due =
        declaration-WritesBalanced t name h.0 h.1 due
    visit-WritesBalanced i (unary ref_expr e _) h due =
        simp (scan_out-<<, enclosed i e (visit-WritesBalanced i e h.1))
    visit-WritesBalanced i (unary deref_expr e _) h due =
        simp (scan_out-<<, enclosed i e (visit-WritesBalanced i e h.1))
    visit-WritesBalanced i (unary cast_expr e t) h due =
        simp
          (scan_out-<<, cast_type-WritesBalanced t h.0, enclosed i e (visit-WritesBalanced i e h.1))
    visit-WritesBalanced i (unary minus_expr e _) h due =
        simp (scan_out-<<, enclosed i e (visit-WritesBalanced i e h.1))
    visit-WritesBalanced i (unary logical_not e _) h due =
        simp (scan_out-<<, enclosed i e (visit-WritesBalanced i e h.1))
    visit-WritesBalanced i (ret_expr e _) h due = simp (scan_out-<<, result-WritesBalanced i e h)
    visit-WritesBalanced i (binary and_expr l r _) h due = simp (
      scan_out-<<,
      enclosed i l (visit-WritesBalanced i l h.0),
      enclosed i r (visit-WritesBalanced i r h.1),
      and-WritesBalanced (get_type l) (get_type r) h.2,
    )
    visit-WritesBalanced i (binary lshr_expr l r _) h due = simp (
      scan_out-<<,
      visit-WritesBalanced i l h.0,
      visit-WritesBalanced i r h.1,
      unsigned-opens (get_type l) due h.2,
    )
    visit-WritesBalanced i (binary (cmp_expr op _) l r _) h due = simp (
      scan_out-<<,
      enclosed i l (visit-WritesBalanced i l h.0),
      enclosed i r (visit-WritesBalanced i r h.1),
      h.2,
    )
    visit-WritesBalanced i (binary _ l r _) h due = simp (
      scan_out-<<,
      enclosed i l (visit-WritesBalanced i l h.0),
      enclosed i r (visit-WritesBalanced i r h.1),
    )
    visit-WritesBalanced i (logical_and l r _) h due = simp (
      scan_out-<<,
      enclosed i l (visit-WritesBalanced i l h.0),
      enclosed i r (visit-WritesBalanced i r h.1),
    )
    visit-WritesBalanced i (logical_or l r _) h due = simp (
      scan_out-<<,
      enclosed i l (visit-WritesBalanced i l h.0),
      enclosed i r (visit-WritesBalanced i r h.1),
    )
    visit-WritesBalanced i (expr_list es) h due = list-WritesBalanced i true es h due
    visit-WritesBalanced i (do_while body c true) h due = simp (
      scan_out-<<,
      indent-WritesBalanced,
      visit-WritesBalanced (i + 1) body h.0,
      visit-WritesBalanced i c h.1,
    )
    visit-WritesBalanced i (do_while body c false) h due = simp (
      scan_out-<<,
      indent-WritesBalanced,
      visit-WritesBalanced (i + 1) body h.0,
      visit-WritesBalanced i c h.1,
    )

    last-WritesBalanced :
        (i : ℕ) (es : Exprs)
        → IsWritableLast names Allowed es
        → WritesBalanced (visit_last no_casts names block_name latch i es)
    last-WritesBalanced i nil h due = absurd h
    last-WritesBalanced i (cons e nil) h due = visit-WritesBalanced i e h due
    last-WritesBalanced i (cons e (cons e' es)) h due = last-WritesBalanced i (cons e' es) h due

    values-WritesBalanced :
        (i : ℕ) (es : Exprs)
        → AreWritable names Allowed es
        → WritesBalanced (visit_values no_casts names block_name latch i es)
    values-WritesBalanced i nil h due = refl
    values-WritesBalanced i (cons e es) h due =
        simp (scan_out-<<, visit-WritesBalanced i e h.0, values-WritesBalanced i es h.1)

    cases-WritesBalanced :
        (i : ℕ) (cases : Cases)
        → CasesWritable names Allowed cases
        → WritesBalanced (visit_cases no_casts names block_name latch i cases)
    cases-WritesBalanced i no_case h due = refl
    cases-WritesBalanced i (case label e cases) h due = simp (
      scan_out-<<,
      indent-WritesBalanced,
      label-WritesBalanced label,
      visit-WritesBalanced (i + 2) e h.0,
      cases-WritesBalanced i cases h.1,
    )

    outputs-WritesBalanced :
        (i : ℕ) (first : Bool) (ops : Operands)
        → OutputsWritable names Allowed ops
        → WritesBalanced (visit_output no_casts names block_name latch i first ops)
    outputs-WritesBalanced i first no_operand h due = refl
    outputs-WritesBalanced i first (operand text null rest) h due = refl
    outputs-WritesBalanced i true (operand text (just e) rest) h due =
        simp
          (scan_out-<<, h.0, visit-WritesBalanced i e h.1, outputs-WritesBalanced i false rest h.2)
    outputs-WritesBalanced i false (operand text (just e) rest) h due =
        simp
          (scan_out-<<, h.0, visit-WritesBalanced i e h.1, outputs-WritesBalanced i false rest h.2)

    inputs-WritesBalanced :
        (i : ℕ) (first : Bool) (ops : Operands)
        → InputsWritable names Allowed ops
        → WritesBalanced (visit_input no_casts names block_name latch i first ops)
    inputs-WritesBalanced i first no_operand h due = refl
    inputs-WritesBalanced i first (operand text null rest) h due = absurd h
    inputs-WritesBalanced i true (operand text (just e) rest) h due =
        simp
          (scan_out-<<, h.0, visit-WritesBalanced i e h.1, inputs-WritesBalanced i false rest h.2)
    inputs-WritesBalanced i false (operand text (just e) rest) h due =
        simp
          (scan_out-<<, h.0, visit-WritesBalanced i e h.1, inputs-WritesBalanced i false rest h.2)

    callee-WritesBalanced :
        (i : ℕ) (f : MaybeExpr) (name : Text)
        → CalleeWritable names Allowed f name
        → WritesBalanced (visit_callee no_casts names block_name latch i f name)
    callee-WritesBalanced i null name h due = h due
    callee-WritesBalanced i (just e) name h due =
        function-WritesBalanced i e (parens_if_not_simple (is_simple e) (written i e)) h
          (enclosed i e (visit-WritesBalanced i e h)) due

    function-WritesBalanced :
        (i : ℕ) (e : Expr) (w : Out)
        → IsWritable names Allowed e
        → WritesBalanced w
        → WritesBalanced (visit_function no_casts names block_name latch i e w)
    function-WritesBalanced i (unary cast_expr e t) w h hw due = elim (Bool-cases no_casts) [
      | inl c ↦ rw c (
          function-WritesBalanced i e (parens_if_not_simple (is_simple e) (written i e)) h.1
            (enclosed i e (visit-WritesBalanced i e h.1)) due)
      | inr c ↦ rw c (hw due)
    ]
    function-WritesBalanced i _ w h hw due = hw due

    -- The parameters after the first, and those of a call of another function.
    params-WritesBalanced :
        (i : ℕ) (va : Bool) (es : Exprs)
        → AreWritable names Allowed es
        → WritesBalanced (visit_params no_casts names block_name latch i va false es)
    params-WritesBalanced i va nil h due = refl
    params-WritesBalanced i va (cons e es) h due =
        simp (scan_out-<<, visit-WritesBalanced i e h.0, params-WritesBalanced i va es h.1)

    first_params-WritesBalanced :
        (i : ℕ) (es : Exprs)
        → AreWritable names Allowed es
        → WritesBalanced (visit_params no_casts names block_name latch i false true es)
    first_params-WritesBalanced i nil h due = refl
    first_params-WritesBalanced i (cons e es) h due =
        simp (scan_out-<<, visit-WritesBalanced i e h.0, params-WritesBalanced i false es h.1)

    -- The first argument of `va_start` closes the parenthesis of its cast.
    va_params-close :
        (i : ℕ) (es : Exprs)
        → AreWritable names Allowed es
        → HasVaArgument true es
        → (due : List ℕ)
        → scan_out (visit_params no_casts names block_name latch i true true es) (41 ∷ due)
          ≡ some due
    va_params-close i nil h va due = absurd va
    va_params-close i (cons e es) h va due =
        simp (scan_out-<<, visit-WritesBalanced i e h.0, params-WritesBalanced i true es h.1)

    result-WritesBalanced :
        (i : ℕ) (e : MaybeExpr)
        → ResultWritable names Allowed e
        → WritesBalanced (visit_result no_casts names block_name latch i e)
    result-WritesBalanced i null h due = refl
    result-WritesBalanced i (just e) h due = simp (scan_out-<<, visit-WritesBalanced i e h)

    list-WritesBalanced :
        (i : ℕ) (first : Bool) (es : Exprs)
        → AreWritable names Allowed es
        → WritesBalanced (visit_list no_casts names block_name latch i first es)
    list-WritesBalanced i first nil h due = refl
    list-WritesBalanced i first (cons e es) h due = elim (Bool-cases (is_empty_list e)) [
      | inl s ↦ rw s (list-WritesBalanced i first es h.1 due)
      | inr s ↦ rw s (
          simp (
            scan_out-<<,
            lead-WritesBalanced i first,
            visit-WritesBalanced i e h.0,
            semicolon-WritesBalanced (stands_alone e),
            list-WritesBalanced i false es h.1,
          ))
    ]

  pub block-WritesBalanced :
      (i : ℕ) (es : List Expr)
      → All (IsWritable names Allowed) es
      → WritesBalanced (visit_block no_casts names block_name latch i es)
  unfolding visit_block scan_out
  block-WritesBalanced i [] h due = refl
  block-WritesBalanced i (e ∷ es) h due = simp (
    scan_out-<<,
    indent-WritesBalanced,
    visit-WritesBalanced i e h.0,
    block-WritesBalanced i es h.1,
  )
