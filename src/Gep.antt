-- ===== src/Gep.antt =====
-- parser/createExpressions.cpp, parseGepInstruction: the chain of element accesses for a
-- getelementptr. The types of struct items are a table; `Option` stands for the exception, the failed
-- assertions, the null pointers that the constructors of the expressions would follow, and a last
-- element without a type.
pub mod Index
pub mod Address
pub mod Tests
use llvm2c.Prelude.{ℕ, Bool, true, false, if◌then◌else◌, Option, none, some, ◌>>=◌, List, [], ◌∷◌}
use llvm2c.Types.{CType, pointer, integer}
use llvm2c.Types.Kinds.{is_aggregate_type}
use llvm2c.TypeHandler.{TypeHandler, pointer_to, slong, ulonglong}
use llvm2c.Exprs.{
  Expr, Exprs, TypeRef, nil, cons, unary, binary, sub_expr, ref_expr, array_element,
  aggregate_element, pointer_shift, gep_expr, get_type, is_zero, make_cast, make_deref, make_minus,
  make_ref,
}
use llvm2c.Arrowify.{Items}
use llvm2c.Instructions.{remove_casts}

-- The cast of an index, to the type for its signedness.
unfoldable pub cast_index : TypeRef → Expr → Expr
unfolding make_cast
cast_index (some (integer _ _ true)) idx = make_cast idx ulonglong
cast_index t idx = make_cast idx slong

-- The lambda `normalizeIndexForPointerShift`; a subtraction from zero becomes a negation.
unfoldable pub normalize_index : Expr → Expr
unfolding cast_index is_zero make_minus make_cast remove_casts get_type
normalize_index (binary (sub_expr u) l r t) =
    if is_zero l
    then make_minus (make_cast (remove_casts r) slong)
    else cast_index t (binary (sub_expr u) l r t)
normalize_index idx = cast_index (get_type idx) idx

-- One index of the instruction, by the type that it indexes: a pointer or an array, with the type
-- that program.getType gives for the pointer or for the array's elements, a struct, with the number
-- if the index is a constant integer, or another type.
pub data Step : Type 0 where
  through_pointer into_array : CType → Expr → Step
  into_struct : Option ℕ → Step
  into_other : Step

-- `makeExpr<PointerShift>`, whose constructor takes the type for a PointerType.
unfoldable pub make_pointer_shift : CType → Expr → Expr → Option Expr
make_pointer_shift (pointer a pointed f) e move =
    some (pointer_shift (some (pointer a pointed f)) e move (some pointed))
make_pointer_shift t e move = none

-- `makeExpr<AggregateElement>`, whose constructor takes the operand's type for an AggregateType.
unfoldable pub make_element : Items → TypeRef → Expr → ℕ → Option Expr
unfolding is_aggregate_type
make_element items none e n = none
make_element items (some t) e n =
    if is_aggregate_type t then some (aggregate_element e n (items t n)) else none

-- The expression that the loop appends for an index.
unfoldable pub parse_step : Items → Expr → Step → Option Expr
unfolding is_zero make_deref make_pointer_shift normalize_index make_element get_type
parse_step items prev (through_pointer t idx) =
    if is_zero idx then some (make_deref prev) else make_pointer_shift t prev (normalize_index idx)
parse_step items prev (into_array elem idx) = some (array_element prev idx (some elem))
parse_step items prev (into_struct none) = none
parse_step items prev (into_struct (some n)) = make_element items (get_type prev) prev n
parse_step items prev into_other = none

-- The loop over the indices. The flag says whether there is a last element: for a type that is not
-- indexed nothing is appended, and the last element is read again.
unfoldable pub parse_steps : Items → Bool → Expr → List Step → Option Exprs
unfolding parse_step
parse_steps items appended prev [] = some nil
parse_steps items appended prev (into_other ∷ steps) =
    let rest = parse_steps items appended prev steps in if appended then rest else none
parse_steps items appended prev (step ∷ steps) = do
  e ← parse_step items prev step
  es ← parse_steps items true e steps
  some (cons e es)

-- The type that GepExpr's constructor sets, that of the last element.
unfoldable pub type_of_last : TypeRef → Exprs → TypeRef
unfolding get_type
type_of_last t nil = t
type_of_last t (cons e es) = type_of_last (get_type e) es

-- The base, cast to its type if it is the null pointer.
unfoldable pub gep_base : CType → Expr → Expr
unfolding is_zero make_cast
gep_base pointer_type expr = if is_zero expr then make_cast expr pointer_type else expr

-- parseGepInstruction, on the type and the expression of the first operand and the indices.
unfoldable pub parse_gep :
    Items → CType → Expr → List Step → TypeHandler → Option (Expr × TypeHandler)
unfolding gep_base parse_steps type_of_last pointer_to make_ref
parse_gep items pointer_type expr steps h = do
  indices ← parse_steps items false (gep_base pointer_type expr) steps
  t ← type_of_last none indices
  let made = pointer_to t h
  some (make_ref (gep_expr indices (some t)) made.0, made.1)
