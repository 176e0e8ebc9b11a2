-- ===== src/ExprWriter.antt =====
-- writer/ExprWriter.cpp: the text of an expression. `indentCount` goes down as an argument, since
-- every visit leaves it as it found it; the names of struct items are a table, and so is the text
-- of the block that a LatchExpr names, until `write` ties the knot.
mod Output
mod Parts
pub mod Brackets
pub mod TypeText
pub mod Pieces
pub mod Writable
pub mod Balance
pub mod Latches
pub mod Tests
use llvm2c.Prelude.{
  ℕ, zero, suc, ◌+◌, Bool, true, false, ◌||◌, Option, none, some, List, [], ◌∷◌, ◌++◌, Text, codes,
  text_eq, to_decimal, if◌then◌else◌,
}
use llvm2c.Types.{CType, pointer, integer}
use llvm2c.Types.Kinds.{is_aggregate_type, is_pointer_type, is_bool_type}
use llvm2c.Types.Print.{to_string, surround_name, stars}
use llvm2c.Exprs.{
  Expr, MaybeExpr, Exprs, Cases, Operands, TypeRef, Label, positive, negative, value, global_value,
  aggregate_element, arrow_expr, array_element, extract_value, gep_expr, aggregate_initializer,
  if_expr, goto_expr, latch_expr, switch_expr, asm_expr, call_expr, pointer_shift, select_expr,
  stack_alloc, unary, ref_expr, deref_expr, cast_expr, minus_expr, logical_not, ret_expr, binary,
  BinaryKind, add_expr, sub_expr, mul_expr, div_expr, rem_expr, shl_expr, assign_expr, and_expr,
  or_expr, xor_expr, ashr_expr, lshr_expr, cmp_expr, logical_and, logical_or, expr_list, do_while,
  null, just, nil, cons, no_case, case, no_operand, operand, get_type, is_simple, is_zero,
}
use llvm2c.Blocks.{BlockState, Blocks}
pub use Output.{Out, ◌<<◌, put}
unfoldable pub use Output.{indent}
pub use Parts.{
  write_if, write_switch, write_asm, write_call, write_shift, write_select, write_do_while,
  ItemNames, put_type, put_array_stars, write_cast_type, put_shift_type, put_item, put_element,
  put_pointed_item, put_and, put_unsigned, put_declaration, operator, put_label, after_label,
  parens_if_not_simple,
}
unfoldable pub use Parts.{stands_alone, is_empty_list, is_va_func}

module _ (no_func_casts : Bool) (names : ItemNames) (block_name : ℕ → Text)
    (latch : ℕ → ℕ → Out) where
  unfoldable mutual
    unfolding get_type is_simple is_zero stands_alone is_empty_list is_va_func indent

    pub visit : ℕ → Expr → Out
    visit i (value name _) = some name
    visit i (global_value name _) = some name
    visit i (aggregate_element e n _) =
        parens_if_not_simple (is_simple e) (visit i e) << put_element names (get_type e) n
    visit i (arrow_expr e n _) =
        parens_if_not_simple (is_simple e) (visit i e)
        << put "->"
        << put_pointed_item names (get_type e) n
    visit i (array_element e element _) =
        parens_if_not_simple (is_simple e) (visit i e) << put "[" << visit i element << put "]"
    visit i (extract_value indices _) = visit_last i indices
    visit i (gep_expr indices _) = visit_last i indices
    visit i (aggregate_initializer values _) = put "{" << visit_values i values << put "}"
    visit i (if_expr cmp true_list false_list) =
        write_if i (visit i cmp) (visit (i + 1) true_list) (visit (i + 1) false_list)
    visit i (goto_expr target) = put "goto " << some (block_name target)
    visit i (latch_expr target _) = latch i target
    visit i (switch_expr cmp def cases) =
        write_switch i (visit i cmp) (visit_cases i cases) (visit (i + 2) def)
    visit i (asm_expr inst output input clobbers) =
        write_asm i inst (visit_output (i + 1) true output) (visit_input (i + 1) true input)
          clobbers
    visit i (call_expr func_value name params _) =
        write_call (is_va_func name) (visit_callee i func_value name)
          (visit_params i (is_va_func name) true params)
    visit i (pointer_shift ptr_type p move _) =
        write_shift (is_zero move) ptr_type (visit i p)
          (parens_if_not_simple (is_simple move) (visit i move))
    visit i (select_expr left right comp negate _) =
        write_select negate (parens_if_not_simple (is_simple comp) (visit i comp))
          (parens_if_not_simple (is_simple left) (visit i left))
          (parens_if_not_simple (is_simple right) (visit i right))
    visit i (stack_alloc name _ t) = put_declaration t name
    visit i (unary ref_expr e _) = put "&" << parens_if_not_simple (is_simple e) (visit i e)
    visit i (unary deref_expr e _) = put "*" << parens_if_not_simple (is_simple e) (visit i e)
    visit i (unary cast_expr e t) =
        write_cast_type t << parens_if_not_simple (is_simple e) (visit i e)
    visit i (unary minus_expr e _) = put "-" << parens_if_not_simple (is_simple e) (visit i e)
    visit i (unary logical_not e _) = put "!" << parens_if_not_simple (is_simple e) (visit i e)
    visit i (ret_expr e _) = put "return" << visit_result i e
    visit i (binary and_expr l r _) =
        parens_if_not_simple (is_simple l) (visit i l)
        << put_and (get_type l) (get_type r)
        << parens_if_not_simple (is_simple r) (visit i r)
    visit i (binary lshr_expr l r _) =
        put_unsigned (get_type l) << visit i l << put ") >> (" << visit i r << put ")"
    visit i (binary k l r _) =
        parens_if_not_simple (is_simple l) (visit i l)
        << operator k
        << parens_if_not_simple (is_simple r) (visit i r)
    visit i (logical_and l r _) =
        parens_if_not_simple (is_simple l) (visit i l)
        << put " && "
        << parens_if_not_simple (is_simple r) (visit i r)
    visit i (logical_or l r _) =
        parens_if_not_simple (is_simple l) (visit i l)
        << put " || "
        << parens_if_not_simple (is_simple r) (visit i r)
    visit i (expr_list es) = visit_list i true es
    visit i (do_while body cond negate) =
        write_do_while i negate (visit (i + 1) body) (visit i cond)

    -- `indices.back()->accept(*this)`
    pub visit_last : ℕ → Exprs → Out
    visit_last i nil = none
    visit_last i (cons e nil) = visit i e
    visit_last i (cons e (cons e' es)) = visit_last i (cons e' es)

    pub visit_values : ℕ → Exprs → Out
    visit_values i nil = put ""
    visit_values i (cons e es) = visit i e << put "," << visit_values i es

    pub visit_cases : ℕ → Cases → Out
    visit_cases i no_case = put ""
    visit_cases i (case label e cases) =
        indent (i + 1)
        << put "case "
        << put_label label
        << put ":\n"
        << indent (i + 2)
        << visit (i + 2) e
        << visit_cases i cases

    -- The outputs of inline assembly, up to the first that is null.
    pub visit_output : ℕ → Bool → Operands → Out
    visit_output i first no_operand = put ""
    visit_output i first (operand text null rest) = put ""
    visit_output i first (operand text (just e) rest) =
        (if first then put "" else put ", ")
        << some text
        << put " ("
        << visit i e
        << put ")"
        << visit_output i false rest

    pub visit_input : ℕ → Bool → Operands → Out
    visit_input i first no_operand = put ""
    visit_input i first (operand text null rest) = none
    visit_input i first (operand text (just e) rest) =
        (if first then put "" else put ", ")
        << some text
        << put " ("
        << visit i e
        << put ")"
        << visit_input i false rest

    pub visit_callee : ℕ → MaybeExpr → Text → Out
    visit_callee i null name = some name
    visit_callee i (just e) name =
        visit_function i e (parens_if_not_simple (is_simple e) (visit i e))

    -- The called expression, under no casts if `noFuncCasts` is set; `written` is what is written if
    -- there is nothing to strip.
    pub visit_function : ℕ → Expr → Out → Out
    visit_function i (unary cast_expr e _) written =
        if no_func_casts
        then visit_function i e (parens_if_not_simple (is_simple e) (visit i e))
        else written
    visit_function i e written = written

    pub visit_params : ℕ → Bool → Bool → Exprs → Out
    visit_params i va first nil = put ""
    visit_params i va true (cons e es) =
        visit i e << (if va then put ")" else put "") << visit_params i va false es
    visit_params i va false (cons e es) = put ", " << visit i e << visit_params i va false es

    pub visit_result : ℕ → MaybeExpr → Out
    visit_result i null = put ""
    visit_result i (just e) = put " " << visit i e

    pub visit_list : ℕ → Bool → Exprs → Out
    visit_list i first nil = put ""
    visit_list i first (cons e es) =
        if is_empty_list e
        then visit_list i first es
        else (if first then put "" else indent i)
          << visit i e
          << (if stands_alone e then put "" else put ";\n")
          << visit_list i false es

  -- The loop over the expressions of a latch block.
  unfoldable pub visit_block : ℕ → List Expr → Out
  visit_block i [] = put ""
  visit_block i (e ∷ es) = indent i << visit i e << put ";\n" << visit_block i es

abbrev pub target_name : Blocks → ℕ → Text
target_name blocks target = (blocks target).block_name

module _ (no_func_casts : Bool) (names : ItemNames) (blocks : Blocks) where
  -- visit(LatchExpr&), with fuel for the latches in the latch block's own expressions.
  unfoldable pub write_latch : ℕ → ℕ → ℕ → Out
  unfolding visit_block
  write_latch zero i target = none
  write_latch (suc fuel) i target =
      some (blocks target).block_name
      << put ":"
      << after_label (blocks target).expressions
      << visit_block no_func_casts names (target_name blocks) (write_latch fuel) i
          (blocks target).expressions

  -- `expr->accept(writer)`
  unfoldable pub write : ℕ → ℕ → Expr → Out
  unfolding visit write_latch
  write fuel = visit no_func_casts names (target_name blocks) (write_latch fuel)
