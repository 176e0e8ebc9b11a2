-- ===== src/Allocas.antt =====
-- parser/extractVars.cpp: the pass that takes the allocations of variables out of the blocks. An
-- expression is found by its address.
pub mod Extract
pub mod Tests
use llvm2c.Prelude.{
  ℕ, Bool, true, false, not, ◌&&◌, Option, none, some, List, [], ◌∷◌, ◌++◌, Text, if◌then◌else◌,
  ◌==◌,
}
use llvm2c.Types.{CType, array}
use llvm2c.Exprs.{Expr, TypeRef, stack_alloc}
use llvm2c.Memcpy.{Statement}

-- deleteExprFromBlock: the first expression with the address goes.
unfoldable pub delete_expr_from_block : ℕ → List Statement → List Statement
delete_expr_from_block address [] = []
delete_expr_from_block address (s ∷ rest) =
    if s.0 == address then rest else s ∷ delete_expr_from_block address rest

-- The variable of an allocation, a Value.
abbrev pub Variable : Type 0
Variable = Text × TypeRef

-- `arrTy && arrTy->dynSize`
unfoldable pub has_dynamic_size : TypeRef → Bool
has_dynamic_size (some (array _ _ _ f)) = elim f.dyn_size [ none ↦ false | some _ ↦ true ]
has_dynamic_size _ = false

-- The variable of an expression that is moved to the function: a StackAlloc, but for a VLA's.
unfoldable pub moved_variable : Expr → Option Variable
unfolding has_dynamic_size
moved_variable (stack_alloc name vt _) = if has_dynamic_size vt then none else some (name, vt)
moved_variable _ = none

-- The allocations of a block that are moved, in order, with their addresses.
unfoldable pub find_allocas : List Statement → List (ℕ × Variable)
unfolding moved_variable
find_allocas [] = []
find_allocas ((a, e) ∷ rest) = elim (moved_variable e) [
  | none ↦ find_allocas rest
  | some v ↦ (a, v) ∷ find_allocas rest
]

-- The loop over the allocations: each is deleted from the block and its variable added.
unfoldable pub move_each :
    List (ℕ × Variable) → List Statement → List Variable → List Statement × List Variable
unfolding delete_expr_from_block
move_each [] block variables = (block, variables)
move_each ((a, v) ∷ rest) block variables =
    move_each rest (delete_expr_from_block a block) (variables ++ v ∷ [])

-- extractVars on a block, with the variables of the function so far.
unfoldable pub extract_vars : List Statement → List Variable → List Statement × List Variable
unfolding find_allocas move_each
extract_vars block variables = move_each (find_allocas block) block variables
