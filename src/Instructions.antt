-- ===== src/Instructions.antt =====
-- parser/createExpressions.cpp: the expressions for comparisons, arithmetic, shifts and casts. The
-- operands' expressions are given; `Option` stands for the exceptions and failed assertions.
pub mod Comparisons
pub mod Integers
pub mod Casts
pub mod Shifts
pub mod Binary
pub mod Tests
use llvm2c.Prelude.{
  Bool, true, false, not, ◌&&◌, if◌then◌else◌, Option, none, some, ◌>>=◌, Text, codes, text_eq,
}
use llvm2c.Types.{CType}
use llvm2c.TypeHandler.{sint, float_object, set_signed, set_unsigned, toggle_signedness}
use llvm2c.Exprs.{
  Expr, TypeRef, get_type, value, unary, cast_expr, asm_expr, nil, cons, make_call, make_cast,
  make_not, make_minus, make_binary, make_logical_and, make_logical_or, make_select, make_value,
  add_expr, sub_expr, mul_expr, div_expr, rem_expr, shl_expr, and_expr, or_expr, xor_expr,
  ashr_expr, lshr_expr, cmp_expr,
}
use llvm2c.RedundantCasts.{same_ref}
use llvm2c.Predicates.{
  Predicate, fcmp_false, fcmp_true, fcmp_ord, fcmp_uno, is_integer_compare_unsigned,
  get_compare_predicate,
}

-- buildIsNan
unfoldable pub build_is_nan : Expr → Expr
unfolding same_ref get_type make_call
build_is_nan val =
    if same_ref (get_type val) (some float_object)
    then make_call (codes "__isnanf") (cons val nil) sint
    else make_call (codes "__isnan") (cons val nil) sint

-- `isAllOrdered` of parseFCmpInstruction.
unfoldable pub is_all_ordered : Expr → Expr → Expr
unfolding build_is_nan make_not make_logical_and
is_all_ordered val0 val1 =
    make_logical_and (make_not (build_is_nan val0)) (make_not (build_is_nan val1))

-- LLVM's CmpInst::isOrdered and CmpInst::isUnordered.
pub record PredicateQueries : Type 0 where
  pub is_ordered : Predicate → Bool
  pub is_unordered : Predicate → Bool

module _ (llvm : PredicateQueries) where
  -- The expression for an operator, with the test for NaNs that the predicate asks for.
  unfoldable pub guard_order : Predicate → Expr → Expr → Option Text → Option Expr
  unfolding is_all_ordered make_binary make_logical_and make_logical_or make_not
  guard_order p val0 val1 none = none
  guard_order p val0 val1 (some pred) =
      let cmp = make_binary (cmp_expr pred false) val0 val1 in
      if llvm.is_ordered p
      then some (make_logical_and (is_all_ordered val0 val1) cmp)
      else (if llvm.is_unordered p
          then some (make_logical_or (make_not (is_all_ordered val0 val1)) cmp)
          else none)

  -- parseFCmpInstruction: the expression, and `program.hasCMath` afterwards.
  unfoldable pub parse_fcmp : Predicate → Expr → Expr → Option Expr × Bool
  unfolding is_all_ordered make_not make_value guard_order get_compare_predicate
  parse_fcmp fcmp_false val0 val1 = (some (make_value (codes "0") sint), true)
  parse_fcmp fcmp_true val0 val1 = (some (make_value (codes "1") sint), true)
  parse_fcmp fcmp_ord val0 val1 = (some (is_all_ordered val0 val1), true)
  parse_fcmp fcmp_uno val0 val1 = (some (make_not (is_all_ordered val0 val1)), true)
  parse_fcmp p val0 val1 = (guard_order p val0 val1 (get_compare_predicate p), true)

-- parseICmpInstruction
unfoldable pub parse_icmp : Predicate → Expr → Expr → Option Expr
unfolding get_compare_predicate is_integer_compare_unsigned make_binary
parse_icmp p val0 val1 = do
  pred ← get_compare_predicate p
  u ← is_integer_compare_unsigned p
  some (make_binary (cmp_expr pred u) val0 val1)

-- parseFnegInstruction
unfoldable pub parse_fneg : Expr → Expr
unfolding make_minus
parse_fneg val = make_minus val

-- toSigned, toUnsigned
unfoldable pub set_signed_ref : TypeRef → TypeRef
unfolding set_signed
set_signed_ref none = none
set_signed_ref (some t) = some (set_signed t)

unfoldable pub set_unsigned_ref : TypeRef → TypeRef
unfolding set_unsigned
set_unsigned_ref none = none
set_unsigned_ref (some t) = some (set_unsigned t)

unfoldable pub to_signed : Expr → Expr
unfolding set_signed_ref get_type
to_signed e = unary cast_expr e (set_signed_ref (get_type e))

unfoldable pub to_unsigned : Expr → Expr
unfolding set_unsigned_ref get_type
to_unsigned e = unary cast_expr e (set_unsigned_ref (get_type e))

-- The opcodes of binary instructions, those of shifts left out.
pub data Opcode : Type 0 where
  add fadd sub fsub mul fmul udiv sdiv fdiv urem srem frem and or xor : Opcode

-- What parseBinaryInstruction reads of its instruction: `const0` and `const1` say whether an operand
-- is a ConstantInt, and whether it is one.
pub record BinaryOperator : Type 0 where
  pub opcode : Opcode
  pub has_nsw : Bool
  pub is_i1 : Bool
  pub is_float : Bool
  pub const0 : Option Bool
  pub const1 : Option Bool

-- The operations whose operands are cast to signed types.
unfoldable pub is_signed_operation : Opcode → Bool → Bool
is_signed_operation sdiv nsw = true
is_signed_operation fdiv nsw = true
is_signed_operation srem nsw = true
is_signed_operation frem nsw = true
is_signed_operation _ nsw = nsw

-- The Xor case: a negation on one bit, if the operand that is looked at is the constant one.
unfoldable pub parse_xor : Bool → Option Bool → Option Bool → Expr → Expr → Expr
unfolding make_not make_binary
parse_xor true (some true) const1 val0 val1 = make_not val1
parse_xor true none (some true) val0 val1 = make_not val0
parse_xor is_i1 const0 const1 val0 val1 = make_binary xor_expr val0 val1

unfoldable pub parse_operation : BinaryOperator → Expr → Expr → Expr
unfolding make_binary parse_xor
parse_operation ins val0 val1 = elim ins.opcode [
  | add ↦ make_binary (add_expr (not ins.has_nsw)) val0 val1
  | fadd ↦ make_binary (add_expr (not ins.has_nsw)) val0 val1
  | sub ↦ make_binary (sub_expr (not ins.has_nsw)) val0 val1
  | fsub ↦ make_binary (sub_expr (not ins.has_nsw)) val0 val1
  | mul ↦ make_binary (mul_expr (not ins.has_nsw)) val0 val1
  | fmul ↦ make_binary (mul_expr (not ins.has_nsw)) val0 val1
  | udiv ↦ make_binary (div_expr true) val0 val1
  | sdiv ↦ make_binary (div_expr false) val0 val1
  | fdiv ↦ make_binary (div_expr false) val0 val1
  | urem ↦ make_binary (rem_expr true) val0 val1
  | srem ↦ make_binary (rem_expr false) val0 val1
  | frem ↦ make_binary (rem_expr false) val0 val1
  | and ↦ make_binary and_expr val0 val1
  | or ↦ make_binary or_expr val0 val1
  | xor ↦ parse_xor ins.is_i1 ins.const0 ins.const1 val0 val1
]

-- parseBinaryInstruction
unfoldable pub parse_binary : BinaryOperator → Expr → Expr → Expr
unfolding is_signed_operation parse_operation to_signed make_cast
parse_binary ins val0 val1 =
    let signed = is_signed_operation ins.opcode ins.has_nsw in
    let e =
      parse_operation ins (if signed then to_signed val0 else val0)
        (if signed then to_signed val1 else val1) in
    if ins.is_float then make_cast e float_object else e

-- removeCastsFromExpr
unfoldable pub remove_casts : Expr → Expr
remove_casts (unary cast_expr e t) = remove_casts e
remove_casts e = e

-- Whether the operand without its casts is the Value of that name.
unfoldable pub is_value_named : Text → Expr → Bool
unfolding text_eq
is_value_named name (value n t) = text_eq n name
is_value_named name e = false

pub data Shift : Type 0 where
  shl lshr ashr : Shift

-- parseShiftInstruction
unfoldable pub parse_shift : Shift → Bool → Expr → Expr → Expr
unfolding to_signed to_unsigned remove_casts is_value_named get_type make_binary
parse_shift shl nsw val0 val1 =
    let v0 = if nsw then to_signed val0 else val0 in
    let v1 = if nsw then to_signed val1 else val1 in
    if is_value_named (codes "1") (remove_casts v1)
    then make_binary (mul_expr (not nsw)) v0 (value (codes "2") (get_type (remove_casts v1)))
    else make_binary (shl_expr (not nsw)) v0 (to_unsigned v1)
parse_shift lshr nsw val0 val1 =
    if is_value_named (codes "63") (remove_casts val1)
    then make_binary (cmp_expr (codes "<") false) val1
        (value (codes "0") (get_type (remove_casts val1)))
    else make_binary lshr_expr val0 val1
parse_shift ashr nsw val0 val1 = make_binary ashr_expr val0 (to_unsigned val1)

-- The cast instructions that parseCastInstruction tells apart.
pub data CastOpcode : Type 0 where
  sext zext fp_to_ui fp_to_si other_cast : CastOpcode

-- What it reads of its instruction: the types that program.getType gives for the operand's type and
-- for the result's, and whether these are the one-bit integer and an integer.
pub record CastInst : Type 0 where
  pub opcode : CastOpcode
  pub source_type : CType
  pub dest_type : CType
  pub source_is_i1 : Bool
  pub dest_is_integer : Bool

-- The double cast of SExt and ZExt.
unfoldable pub recast : (CType → CType) → CType → CType → Expr → Expr
unfolding make_cast
recast set source dest e = make_cast (make_cast e (set source)) (set dest)

-- `isa<AsmExpr>(expr)`
unfoldable pub is_asm_expr : Expr → Bool
is_asm_expr (asm_expr _ _ _ _) = true
is_asm_expr e = false

-- The part of parseCastInstruction for SExt.
unfoldable pub parse_sext : CastInst → Expr → Expr
unfolding make_select make_value recast set_signed
parse_sext ins e =
    if ins.source_is_i1 && ins.dest_is_integer
    then make_select e (make_value (codes "-1") ins.dest_type)
        (make_value (codes "0") ins.dest_type) false
    else recast set_signed ins.source_type ins.dest_type e

-- parseCastInstruction, once the operand's expression is known; `none` is the null pointer.
unfoldable pub parse_cast : CastInst → Expr → Option Expr
unfolding make_cast recast is_asm_expr parse_sext set_signed set_unsigned toggle_signedness
parse_cast ins e =
    if is_asm_expr e
    then none
    else some (elim ins.opcode [
      | sext ↦ parse_sext ins e
      | zext ↦ recast set_unsigned ins.source_type ins.dest_type e
      | fp_to_ui ↦ make_cast e (toggle_signedness ins.dest_type)
      | fp_to_si ↦ make_cast e (set_signed ins.dest_type)
      | other_cast ↦ make_cast e ins.dest_type
    ])
