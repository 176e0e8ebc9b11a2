-- ===== src/PropagateTypes.antt =====
-- parser/propagateTypes.cpp: the pass that gives expressions the types of their operands, and
-- variables the type of what is assigned to them first. A variable is one object that many
-- expressions share, so its changed type is kept in the state and read from there; the types in the
-- other expressions are their own.
pub mod State
pub mod Steps
pub mod Flags
pub mod Extends
pub mod Growth
pub mod Ready
pub mod Tests
use llvm2c.Prelude.{
  ℕ, Bool, true, false, Option, none, some, List, [], ◌∷◌, Text, if◌then◌else◌, text_eq,
}
use llvm2c.Types.{CType, pointer, array}
use llvm2c.Types.Kinds.{is_aggregate_type, is_struct_type, integer_signedness, pointed_type}
use llvm2c.TypeHandler.{TypeHandler, pointer_to}
use llvm2c.Exprs.{
  Expr, MaybeExpr, Exprs, Cases, Operands, TypeRef, value, global_value, aggregate_element,
  arrow_expr, array_element, extract_value, gep_expr, aggregate_initializer, if_expr, goto_expr,
  latch_expr, switch_expr, asm_expr, call_expr, pointer_shift, select_expr, stack_alloc, unary,
  UnaryKind, ref_expr, deref_expr, cast_expr, minus_expr, logical_not, ret_expr, binary, BinaryKind,
  add_expr, sub_expr, mul_expr, div_expr, rem_expr, shl_expr, assign_expr, and_expr, or_expr,
  xor_expr, ashr_expr, lshr_expr, cmp_expr, logical_and, logical_or, expr_list, do_while, null,
  just, nil, cons, no_case, case, no_operand, operand, pointed_by,
}
use llvm2c.Arrowify.{Items}
use llvm2c.FuncState.{contains}
use llvm2c.PropagateTypes.State.{
  Object, local, global, Refined, PropagateState, find_refined, object_of, object_name, type_of,
  fail,
}
use llvm2c.PropagateTypes.Steps.{
  first_type, updated, with_flag, is_call, Visited, ref_signedness, refine, finish_binary,
  set_reference, finish_unary, set_shift, set_select, set_element, set_arrow, set_array, last_type,
  set_indices, finish_return,
}

module _ (items : Items) where
  unfoldable mutual
    unfolding finish_binary finish_unary set_shift set_select set_element set_arrow set_array
        set_indices last_type finish_return type_of pointed_type integer_signedness

    pub visit : PropagateState → Expr → Visited
    visit s (value name t) = (value name t, s)
    visit s (global_value name t) = (global_value name t, s)
    visit s (goto_expr target) = (goto_expr target, s)
    visit s (latch_expr target head_edge) = (latch_expr target head_edge, s)
    visit s (aggregate_element e n t) =
        let (e', s1) = visit s e in set_element items e' n t s1 (type_of s1 e')
    visit s (arrow_expr e n t) =
        let (e', s1) = visit s e in set_arrow items e' n t s1 (pointed_by (type_of s1 e'))
    visit s (array_element e i t) =
        let (e', s1) = visit s e in
        let (i', s2) = visit s1 i in set_array e' i' t s2 (type_of s2 e')
    visit s (extract_value es t) =
        let (es', s1) = visit_list s es in set_indices extract_value es' t s1 (last_type s1 es')
    visit s (gep_expr es t) =
        let (es', s1) = visit_list s es in set_indices gep_expr es' t s1 (last_type s1 es')
    visit s (aggregate_initializer es t) = (aggregate_initializer es t, s)
    visit s (if_expr c a b) = let (c', s1) = visit s c in (if_expr c' a b, s1)
    visit s (switch_expr c d cases) =
        let (c', s1) = visit s c in
        let (cases', s2) = visit_cases s1 cases in
        let (d', s3) = visit s2 d in (switch_expr c' d' cases', s3)
    visit s (asm_expr inst output input clobbers) =
        let (output', s1) = visit_operands s output in
        let (input', s2) = visit_operands s1 input in (asm_expr inst output' input' clobbers, s2)
    visit s (call_expr f name es t) =
        let (f', s1) = visit_maybe s f in
        let (es', s2) = visit_list s1 es in (call_expr f' name es' t, s2)
    visit s (pointer_shift pt p move t) =
        let (p', s1) = visit s p in
        let (move', s2) = visit s1 move in set_shift pt p' move' t s2 (type_of s2 p')
    visit s (select_expr l r c negate t) =
        let (l', s1) = visit s l in
        let (r', s2) = visit s1 r in
        let (c', s3) = visit s2 c in
        set_select l' r' c' negate t s3 (ref_signedness t) (ref_signedness (type_of s3 l'))
    visit s (stack_alloc name vt t) = (stack_alloc name vt (type_of s (value name vt)), s)
    visit s (unary k e t) = let (e', s1) = visit s e in finish_unary k e' t s1
    visit s (ret_expr null t) = (ret_expr null t, s)
    visit s (ret_expr (just e) t) = let (e', s1) = visit s e in finish_return e' s1
    visit s (binary k l r t) =
        let (l', s1) = visit s l in let (r', s2) = visit s1 r in finish_binary k l' r' t s2
    visit s (logical_and l r t) =
        let (l', s1) = visit s l in
        let (r', s2) = visit s1 r in
        (logical_and l' r' (first_type (type_of s2 l') (type_of s2 r')), s2)
    visit s (logical_or l r t) =
        let (l', s1) = visit s l in
        let (r', s2) = visit s1 r in
        (logical_or l' r' (first_type (type_of s2 l') (type_of s2 r')), s2)
    visit s (expr_list es) = let (es', s1) = visit_list s es in (expr_list es', s1)
    visit s (do_while body cond negate) =
        let (cond', s1) = visit s cond in
        let (body', s2) = visit s1 body in (do_while body' cond' negate, s2)

    pub visit_maybe : PropagateState → MaybeExpr → MaybeExpr × PropagateState
    visit_maybe s null = (null, s)
    visit_maybe s (just e) = let (e', s1) = visit s e in (just e', s1)

    pub visit_list : PropagateState → Exprs → Exprs × PropagateState
    visit_list s nil = (nil, s)
    visit_list s (cons e es) =
        let (e', s1) = visit s e in let (es', s2) = visit_list s1 es in (cons e' es', s2)

    pub visit_cases : PropagateState → Cases → Cases × PropagateState
    visit_cases s no_case = (no_case, s)
    visit_cases s (case label e cases) =
        let (e', s1) = visit s e in
        let (cases', s2) = visit_cases s1 cases in (case label e' cases', s2)

    pub visit_operands : PropagateState → Operands → Operands × PropagateState
    visit_operands s no_operand = (no_operand, s)
    visit_operands s (operand text e ops) =
        let (e', s1) = visit_maybe s e in
        let (ops', s2) = visit_operands s1 ops in (operand text e' ops', s2)

-- The parts of a Func that the pass reads.
pub record FunctionCode : Type 0 where
  pub variables : List Text
  pub parameters : List Text
  pub blocks : List (List Expr)

-- The loop over `function->variables`: neither a parameter nor a variable of the metadata.
unfoldable pub collect_ready : List Text → List Text → List Text → List Text → List Text
unfolding contains
collect_ready metadata parameters [] ready = ready
collect_ready metadata parameters (var ∷ vars) ready = collect_ready metadata parameters vars (
    if contains var parameters
    then ready
    else (if contains var metadata then ready else var ∷ ready))

-- The variables of another function are other objects; the global ones are the same.
unfoldable pub only_globals : Refined → Refined
only_globals [] = []
only_globals ((local x, t) ∷ rest) = only_globals rest
only_globals ((global x, t) ∷ rest) = (global x, t) ∷ only_globals rest

-- The state in which the expressions of a function are visited.
unfoldable pub enter_function : List Text → FunctionCode → PropagateState → PropagateState
unfolding collect_ready only_globals
enter_function metadata f s = record s {
  ready = collect_ready metadata f.parameters f.variables s.ready;
  refined = only_globals s.refined;
}

module _ (items : Items) where
  unfoldable pub visit_block : PropagateState → List Expr → List Expr × PropagateState
  unfolding visit
  visit_block s [] = ([], s)
  visit_block s (e ∷ es) =
      let (e', s1) = visit items s e in let (es', s2) = visit_block s1 es in (e' ∷ es', s2)

  unfoldable pub visit_blocks :
      PropagateState → List (List Expr) → List (List Expr) × PropagateState
  unfolding visit_block
  visit_blocks s [] = ([], s)
  visit_blocks s (b ∷ bs) =
      let (b', s1) = visit_block s b in let (bs', s2) = visit_blocks s1 bs in (b' ∷ bs', s2)

  -- One function with the types that its variables got, for each function of the module.
  unfoldable pub propagate_types :
      List Text → PropagateState → List FunctionCode → List (FunctionCode × Refined)
  unfolding visit_blocks enter_function
  propagate_types metadata s [] = []
  propagate_types metadata s (f ∷ fs) =
      let (blocks', s1) = visit_blocks (enter_function metadata f s) f.blocks in
      (record f { blocks = blocks' }, s1.refined) ∷ propagate_types metadata s1 fs
