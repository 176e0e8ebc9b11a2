-- ===== src/Memcpy.antt =====
-- parser/memcpyToAssign.cpp: the pass that writes an assignment for a call of memcpy that copies one
-- whole object. LLVM's values are a data type with the two kinds that stripCast looks through;
-- the sizes of LLVM's types and the expression of a
-- value are parameters.
pub mod Meaning
pub mod Calls
pub mod Tests
use llvm2c.Prelude.{
  ℕ, Bool, true, false, ◌&&◌, Option, none, some, List, [], ◌∷◌, Text, codes, text_eq, ◌==◌,
  if◌then◌else◌, map,
}
use llvm2c.Types.{CType, pointer}
use llvm2c.Types.Kinds.{is_pointer_type}
use llvm2c.Exprs.{
  Expr, TypeRef, unary, ref_expr, deref_expr, cast_expr, assign_expr, get_type, pointed_by,
  make_deref, make_binary,
}
use llvm2c.CFunctions.{trim_prefix}
use llvm2c.TypeHandler.{substr}

-- `dyn_cast_or_null<PointerType>(t)` as a condition.
unfoldable pub is_pointer : TypeRef → Bool
unfolding is_pointer_type
is_pointer none = false
is_pointer (some t) = is_pointer_type t

-- The lambda `unwrapExpr`: no casts, and one `&` of several.
unfoldable pub unwrap_expr : Expr → Expr
unwrap_expr (unary cast_expr e _) = unwrap_expr e
unwrap_expr (unary ref_expr (unary ref_expr e t) _) = unwrap_expr (unary ref_expr e t)
unwrap_expr e = e

-- The lambda `getInnerExpr`, from `ref->expr` on.
unfoldable pub get_inner_expr : Expr → Expr
get_inner_expr (unary ref_expr e _) = get_inner_expr e
get_inner_expr (unary deref_expr e _) = get_inner_expr e
get_inner_expr e = e

-- What is assigned from or to for the address `ref`, of type `t`, of what `inner` is; the loops that
-- take more `&` and `*` off `inner` find none.
unfoldable pub assign_inner : TypeRef → Expr → Expr
unfolding is_pointer get_type make_deref
assign_inner (some (pointer _ pointed _)) inner =
    if is_pointer_type pointed then make_deref inner else inner
assign_inner t inner = if is_pointer (get_type inner) then make_deref inner else inner

-- `dstForAssign` and `srcForAssign` from an unwrapped expression; the code is written twice.
unfoldable pub assign_operand : Expr → Expr
unfolding assign_inner get_inner_expr is_pointer get_type make_deref
assign_operand (unary ref_expr e t) = assign_inner t (get_inner_expr e)
assign_operand (unary deref_expr e t) = unary deref_expr e t
assign_operand e = if is_pointer (get_type e) then make_deref e else e

-- The assignment for a call with the given destination and source.
unfoldable pub make_assignment : Expr → Expr → Expr
unfolding assign_operand unwrap_expr make_binary
make_assignment dst src =
    make_binary assign_expr (assign_operand (unwrap_expr dst)) (assign_operand (unwrap_expr src))

-- A type of LLVM: a pointer to a type, or another one, by a number.
pub data LlvmType : Type 0 where
  pointer_to : LlvmType → LlvmType
  other_type : ℕ → LlvmType

unfoldable pub same_llvm_type : LlvmType → LlvmType → Bool
same_llvm_type (pointer_to t) (pointer_to u) = same_llvm_type t u
same_llvm_type (other_type m) (other_type n) = m == n
same_llvm_type _ _ = false

-- A value of LLVM with its type: a bitcast instruction, a constant expression with the instruction
-- that `toInst` makes of it, a constant integer, or another value.
pub data LlvmValue : Type 0 where
  bit_cast_inst : LlvmValue → LlvmType → LlvmValue
  constant_expr : LlvmValue → LlvmType → LlvmValue
  constant_int : ℕ → LlvmValue
  other_value : ℕ → LlvmType → LlvmValue

unfoldable pub type_of : LlvmValue → LlvmType
type_of (bit_cast_inst _ t) = t
type_of (constant_expr _ t) = t
type_of (constant_int n) = other_type 0
type_of (other_value _ t) = t

unfoldable pub strip_cast : LlvmValue → Option LlvmValue
strip_cast (bit_cast_inst v _) = some v
strip_cast (constant_expr inst _) = strip_cast inst
strip_cast _ = none

-- `if (!dst) dst = dstVal`
unfoldable pub stripped : LlvmValue → LlvmValue
unfolding strip_cast
stripped v = elim (strip_cast v) [ none ↦ v | some w ↦ w ]

-- A call instruction: the called function, if it is called by its name, and the arguments that the
-- pass reads; `address` is that of the expression which createExpressions made of it, and `made` the
-- one that the assignment gets.
pub record CallInst : Type 0 where
  pub called : Option Text
  pub dst : LlvmValue
  pub src : LlvmValue
  pub size : LlvmValue
  pub address : ℕ
  pub made : ℕ

-- An expression of a block with its address, by which the passes find it.
abbrev pub Statement : Type 0
Statement = ℕ × Expr

-- `std::replace` on the expressions of a block.
unfoldable pub replace : ℕ → Statement → List Statement → List Statement
replace address new [] = []
replace address new ((a, e) ∷ rest) =
    (if a == address then new else (a, e)) ∷ replace address new rest

module _ (alloc_size : LlvmType → ℕ) (get_expr : LlvmValue → Expr) where
  -- The name without the prefix of an intrinsic.
  unfoldable pub is_memcpy : Text → Bool
  unfolding text_eq trim_prefix
  is_memcpy name =
      text_eq (if text_eq (substr 4 name) (codes "llvm") then trim_prefix name else name)
        (codes "memcpy")

  -- Both operands point to one type, and the size is the size of that type.
  unfoldable pub copies_type : LlvmType → LlvmType → LlvmValue → Bool
  unfolding same_llvm_type
  copies_type (pointer_to t) src_type (constant_int n) =
      same_llvm_type (pointer_to t) src_type && (alloc_size t == n)
  copies_type _ _ _ = false

  unfoldable pub copies_object : CallInst → Bool
  unfolding copies_type stripped type_of is_memcpy
  copies_object call = elim call.called [
    | none ↦ false
    | some name ↦
        is_memcpy name
        && copies_type (type_of (stripped call.dst)) (type_of (stripped call.src)) call.size
  ]

  -- The body of the loop over the instructions of a block, at a call.
  unfoldable pub replace_call : CallInst → List Statement → List Statement
  unfolding copies_object make_assignment replace
  replace_call call block =
      if copies_object call
      then replace call.address (call.made, make_assignment (get_expr call.dst) (get_expr call.src))
          block
      else block

  -- memcpyToAssignment on one block.
  unfoldable pub memcpy_to_assignment : List CallInst → List Statement → List Statement
  unfolding replace_call
  memcpy_to_assignment [] block = block
  memcpy_to_assignment (call ∷ calls) block = memcpy_to_assignment calls (replace_call call block)
