-- ===== src/Visitor/Meaning.antt =====
-- What a compositional meaning of expressions is, and that a pass keeps it as soon as `simplify`
-- does. The meaning is a parameter: C's semantics is not part of the program.
use llvm2c.Prelude.{ℕ, Bool, ◌≡◌, refl, Option, none, some, List, [], ◌∷◌, map, Text}
use llvm2c.Exprs.{
  Expr, MaybeExpr, Exprs, Cases, Operands, Label, TypeRef, UnaryKind, BinaryKind, value,
  global_value, aggregate_element, arrow_expr, array_element, extract_value, gep_expr,
  aggregate_initializer, if_expr, goto_expr, latch_expr, switch_expr, asm_expr, call_expr,
  pointer_shift, select_expr, stack_alloc, unary, ret_expr, binary, logical_and, logical_or,
  expr_list, do_while, null, just, nil, cons, no_case, case, no_operand, operand,
}
use llvm2c.Visitor.{
  Code, run_visitor, accept, accept_maybe, accept_each, accept_list, accept_cases, accept_operands,
  simplify_each,
}

-- A constructor with all its fields but the operands.
pub data Shape : Type 0 where
  of_value of_global_value : Text → TypeRef → Shape
  of_aggregate_element of_arrow : ℕ → TypeRef → Shape
  of_array_element of_extract_value of_gep of_initializer of_logical_and of_logical_or :
      TypeRef → Shape
  of_if of_list : Shape
  of_goto : ℕ → Shape
  of_latch : ℕ → Bool → Shape
  of_pointer_shift : TypeRef → TypeRef → Shape
  of_select : Bool → TypeRef → Shape
  of_stack_alloc : Text → TypeRef → TypeRef → Shape
  of_unary : UnaryKind → TypeRef → Shape
  of_binary : BinaryKind → TypeRef → Shape
  of_do_while : Bool → Shape

-- The meaning of an expression is made from the meanings of its operands.
pub record Meaning (V : Type 0) : Type 0 where
  pub of_shape : Shape → List V → V
  pub of_call : Text → TypeRef → Option V → List V → V
  pub of_ret : TypeRef → Option V → V
  pub of_switch : V → V → List (Label × V) → V
  pub of_asm : Text → Text → List (Text × Option V) → List (Text × Option V) → V

module _ {V : Type 0} (m : Meaning V) where
  unfoldable mutual
    pub meaning : Expr → V
    meaning (value name t) = m.of_shape (of_value name t) []
    meaning (global_value name t) = m.of_shape (of_global_value name t) []
    meaning (aggregate_element e n t) = m.of_shape (of_aggregate_element n t) (meaning e ∷ [])
    meaning (arrow_expr e n t) = m.of_shape (of_arrow n t) (meaning e ∷ [])
    meaning (array_element e i t) = m.of_shape (of_array_element t) (meaning e ∷ meaning i ∷ [])
    meaning (extract_value es t) = m.of_shape (of_extract_value t) (meanings es)
    meaning (gep_expr es t) = m.of_shape (of_gep t) (meanings es)
    meaning (aggregate_initializer es t) = m.of_shape (of_initializer t) (meanings es)
    meaning (if_expr c a b) = m.of_shape of_if (meaning c ∷ meaning a ∷ meaning b ∷ [])
    meaning (goto_expr b) = m.of_shape (of_goto b) []
    meaning (latch_expr b head_edge) = m.of_shape (of_latch b head_edge) []
    meaning (switch_expr c d cases) = m.of_switch (meaning c) (meaning d) (meaning_cases cases)
    meaning (asm_expr inst output input clobbers) =
        m.of_asm inst clobbers (meaning_operands output) (meaning_operands input)
    meaning (call_expr f name es t) = m.of_call name t (meaning_maybe f) (meanings es)
    meaning (pointer_shift pt p move t) =
        m.of_shape (of_pointer_shift pt t) (meaning p ∷ meaning move ∷ [])
    meaning (select_expr l r c negate t) =
        m.of_shape (of_select negate t) (meaning l ∷ meaning r ∷ meaning c ∷ [])
    meaning (stack_alloc name vt t) = m.of_shape (of_stack_alloc name vt t) []
    meaning (unary k e t) = m.of_shape (of_unary k t) (meaning e ∷ [])
    meaning (ret_expr e t) = m.of_ret t (meaning_maybe e)
    meaning (binary k l r t) = m.of_shape (of_binary k t) (meaning l ∷ meaning r ∷ [])
    meaning (logical_and l r t) = m.of_shape (of_logical_and t) (meaning l ∷ meaning r ∷ [])
    meaning (logical_or l r t) = m.of_shape (of_logical_or t) (meaning l ∷ meaning r ∷ [])
    meaning (expr_list es) = m.of_shape of_list (meanings es)
    meaning (do_while body c negate) =
        m.of_shape (of_do_while negate) (meaning body ∷ meaning c ∷ [])

    pub meaning_maybe : MaybeExpr → Option V
    meaning_maybe null = none
    meaning_maybe (just e) = some (meaning e)

    pub meanings : Exprs → List V
    meanings nil = []
    meanings (cons e es) = meaning e ∷ meanings es

    pub meaning_cases : Cases → List (Label × V)
    meaning_cases no_case = []
    meaning_cases (case label e cases) = (label, meaning e) ∷ meaning_cases cases

    pub meaning_operands : Operands → List (Text × Option V)
    meaning_operands no_operand = []
    meaning_operands (operand c e ops) = (c, meaning_maybe e) ∷ meaning_operands ops

module _ {V : Type 0} (m : Meaning V) (simplify : Expr → Expr)
    (keeps : (e : Expr) → meaning m (simplify e) ≡ meaning m e) where
  meanings-simplify_each : (es : Exprs) → meanings m (simplify_each simplify es) ≡ meanings m es
  unfolding simplify_each meaning
  meanings-simplify_each nil = refl
  meanings-simplify_each (cons e es) = rw (keeps e, meanings-simplify_each es)

  mutual
    unfolding accept meaning

    accept-meaning : (e : Expr) → meaning m (accept simplify e) ≡ meaning m e
    accept-meaning (aggregate_element e n t) = simp (keeps, accept-meaning e)
    accept-meaning (array_element e i t) = simp (keeps, accept-meaning e, accept-meaning i)
    accept-meaning (extract_value es t) = simp (accept_each-meaning es)
    accept-meaning (if_expr c a b) =
        simp (keeps, accept-meaning c, accept-meaning a, accept-meaning b)
    accept-meaning (switch_expr c d cases) =
        simp (keeps, accept-meaning c, accept-meaning d, accept_cases-meaning cases)
    accept-meaning (asm_expr inst output input clobbers) =
        simp (accept_operands-meaning output, accept_operands-meaning input)
    accept-meaning (call_expr f name es t) = simp (accept_maybe-meaning f, accept_list-meaning es)
    accept-meaning (pointer_shift pt p move t) = simp (keeps, accept-meaning p, accept-meaning move)
    accept-meaning (gep_expr es t) = simp (accept_list-meaning es)
    accept-meaning (select_expr l r c negate t) =
        simp (keeps, accept-meaning l, accept-meaning r, accept-meaning c)
    accept-meaning (unary k e t) = simp (keeps, accept-meaning e)
    accept-meaning (ret_expr e t) = simp (accept_maybe-meaning e)
    accept-meaning (binary k l r t) = simp (keeps, accept-meaning l, accept-meaning r)
    accept-meaning (aggregate_initializer es t) = simp (meanings-simplify_each es)
    accept-meaning (expr_list es) = simp (accept_list-meaning es)
    accept-meaning (arrow_expr e n t) = simp (keeps, accept-meaning e)
    accept-meaning (logical_and l r t) = simp (keeps, accept-meaning l, accept-meaning r)
    accept-meaning (logical_or l r t) = simp (keeps, accept-meaning l, accept-meaning r)
    accept-meaning (do_while body c negate) = simp (keeps, accept-meaning body, accept-meaning c)
    accept-meaning _ = refl

    accept_maybe-meaning :
        (e : MaybeExpr) → meaning_maybe m (accept_maybe simplify e) ≡ meaning_maybe m e
    accept_maybe-meaning null = refl
    accept_maybe-meaning (just e) = simp (keeps, accept-meaning e)

    accept_each-meaning : (es : Exprs) → meanings m (accept_each simplify es) ≡ meanings m es
    accept_each-meaning nil = refl
    accept_each-meaning (cons e es) = simp (accept-meaning e, accept_each-meaning es)

    accept_list-meaning : (es : Exprs) → meanings m (accept_list simplify es) ≡ meanings m es
    accept_list-meaning nil = refl
    accept_list-meaning (cons e es) = simp (keeps, accept-meaning e, accept_list-meaning es)

    accept_cases-meaning :
        (cases : Cases) → meaning_cases m (accept_cases simplify cases) ≡ meaning_cases m cases
    accept_cases-meaning no_case = refl
    accept_cases-meaning (case label e cases) =
        simp (keeps, accept-meaning e, accept_cases-meaning cases)

    accept_operands-meaning :
        (ops : Operands)
        → meaning_operands m (accept_operands simplify ops) ≡ meaning_operands m ops
    accept_operands-meaning no_operand = refl
    accept_operands-meaning (operand c e ops) =
        simp (accept_maybe-meaning e, accept_operands-meaning ops)

  -- If `simplify` keeps the meaning of every expression, then visiting an expression keeps its
  -- meaning, whatever the meaning is, as long as it is made from the operands' meanings.
  pub meaning-accept : (e : Expr) → meaning m (accept simplify e) ≡ meaning m e
  meaning-accept e = accept-meaning e

-- The meanings of a module's expressions.
abbrev pub code_meaning : {V : Type 0} → Meaning V → Code → List (List (List V))
code_meaning m code = map (map (map (meaning m))) code

map-map_eq {ℓ κ} :
    {A : Type ℓ} {B : Type κ} (f : A → A) (g : A → B)
    → ((a : A) → g (f a) ≡ g a)
    → (xs : List A) → map g (map f xs) ≡ map g xs
map-map_eq f g h [] = refl
map-map_eq f g h (x ∷ xs) = rw (h x, map-map_eq f g h xs)

-- A pass whose `simplify` keeps meanings keeps them in the whole module.
pub code_meaning-run_visitor :
    {V : Type 0} (m : Meaning V) (simplify : Expr → Expr)
    → ((e : Expr) → meaning m (simplify e) ≡ meaning m e)
    → (code : Code) → code_meaning m (run_visitor simplify code) ≡ code_meaning m code
unfolding run_visitor
code_meaning-run_visitor m simplify keeps =
    map-map_eq _ _ (map-map_eq _ _ (map-map_eq _ _ (meaning-accept m simplify keeps)))
