-- ===== src/Statements.antt =====
-- parser/createExpressions.cpp: which instructions become part of their user's expression (canInline),
-- and the statement for a switch (parseSwitchInstruction).
pub mod Inline
pub mod Switch
pub mod Tests
use llvm2c.Prelude.{ℕ, suc, ◌==◌, Bool, true, false, not, if◌then◌else◌, List, [], ◌∷◌}
use llvm2c.Types.{int_type}
use llvm2c.Exprs.{
  Expr, Exprs, nil, cons, Cases, no_case, case, Label, positive, negative, goto_expr, expr_list,
  switch_expr,
}
use llvm2c.CInt.{ℤ, pos, negsuc, eq_ℤ, lt_ℤ, convert}
use llvm2c.FuncState.{Func, create_block_if_not_exist}

-- The opcodes of the table `read_only`, and the other ones.
pub data InstOpcode : Type 0 where
  op_add op_fadd op_sub op_fsub op_mul op_fmul op_udiv op_fdiv op_sdiv op_urem op_frem : InstOpcode
  op_srem op_and op_or op_xor op_load op_icmp op_fcmp op_shl op_lshr op_ashr op_sext : InstOpcode
  op_zext op_fp_to_si op_si_to_fp op_fp_trunc op_fp_ext op_fp_to_ui op_ui_to_fp : InstOpcode
  op_ptr_to_int op_int_to_ptr op_trunc op_bit_cast op_get_element_ptr op_extract_value : InstOpcode
  op_phi op_store op_call op_other : InstOpcode

unfoldable pub read_only : InstOpcode → Bool
read_only op_store = false
read_only op_call = false
read_only op_other = false
read_only opcode = true

-- An instruction that is not for debugging, by its address and its opcode.
pub record Instruction : Type 0 where
  pub address : ℕ
  pub opcode : InstOpcode

-- What canInline asks of a value: an instruction has its users and the instructions after it in its
-- block.
pub data LlvmOperand : Type 0 where
  constant other_operand : LlvmOperand
  instruction : List ℕ → List Instruction → LlvmOperand

-- The loop of canInline.
unfoldable pub reaches_user : ℕ → List Instruction → Bool
unfolding read_only
reaches_user user [] = false
reaches_user user (cur ∷ rest) =
    let further = reaches_user user rest in
    if cur.address == user then true else (if not (read_only cur.opcode) then false else further)

-- canInline
unfoldable pub can_inline : LlvmOperand → Bool
unfolding reaches_user
can_inline constant = true
can_inline (instruction (user ∷ []) rest) = reaches_user user rest
can_inline (instruction users rest) = false
can_inline other_operand = false

-- createListOfOneGoto
unfoldable pub list_of_one_goto : ℕ → Expr
list_of_one_goto target = expr_list (cons (goto_expr target) nil)

-- `cases[label] = e` on a std::map<int, Expr*>.
unfoldable pub set_case : ℤ → Expr → List (ℤ × Expr) → List (ℤ × Expr)
set_case label e [] = (label, e) ∷ []
set_case label e ((key, old) ∷ rest) =
    let further = set_case label e rest in
    if eq_ℤ label key
    then (key, e) ∷ rest
    else (if lt_ℤ label key then (label, e) ∷ ((key, old) ∷ rest) else (key, old) ∷ further)

-- The loop over the cases, whose 64-bit values become keys of type `int`.
unfoldable pub add_cases : List (ℤ × ℕ) → List (ℤ × Expr) → Func → List (ℤ × Expr) × Func
unfolding set_case list_of_one_goto create_block_if_not_exist convert
add_cases [] cases f = (cases, f)
add_cases ((value, successor) ∷ rest) cases f =
    add_cases rest (set_case (convert int_type false value) (list_of_one_goto successor) cases)
      (create_block_if_not_exist successor f).1

-- The map of the SwitchExpr.
unfoldable pub to_label : ℤ → Label
to_label (pos n) = positive n
to_label (negsuc n) = negative (suc n)

unfoldable pub to_cases : List (ℤ × Expr) → Cases
unfolding to_label
to_cases [] = no_case
to_cases ((label, e) ∷ rest) = case (to_label label) e (to_cases rest)

-- parseSwitchInstruction, on the condition, the default block and the cases.
unfoldable pub parse_switch : Expr → ℕ → List (ℤ × ℕ) → Func → Expr × Func
unfolding add_cases to_cases list_of_one_goto create_block_if_not_exist
parse_switch cmp def cases f =
    let (table, f') = add_cases cases [] (create_block_if_not_exist def f).1 in
    (switch_expr cmp (list_of_one_goto def) (to_cases table), f')
