-- ===== src/PropagateTypes/State.antt =====
-- The fields of PropagateTypesVisitor, and the types of variables that it has changed.
use llvm2c.Prelude.{
  Bool, true, false, Option, none, some, List, [], ◌∷◌, Text, text_eq, if◌then◌else◌,
}
use llvm2c.TypeHandler.{TypeHandler}
use llvm2c.Exprs.{Expr, TypeRef, value, global_value, get_type}

-- The Value object of a variable of the function, or of a global one, by its name.
pub data Object : Type 0 where
  local global : Text → Object

unfoldable pub same_object : Object → Object → Bool
unfolding text_eq
same_object (local x) (local y) = text_eq x y
same_object (global x) (global y) = text_eq x y
same_object _ _ = false

unfoldable pub object_name : Object → Text
object_name (local x) = x
object_name (global x) = x

-- `dyn_cast_or_null<Value>(e)`
unfoldable pub object_of : Expr → Option Object
object_of (value x _) = some (local x)
object_of (global_value x _) = some (global x)
object_of _ = none

-- `exprsWithChangedType`, each with the type that it was given.
abbrev pub Refined : Type 0
Refined = List (Object × TypeRef)

unfoldable pub find_refined : Object → Refined → Option TypeRef
unfolding same_object
find_refined o [] = none
find_refined o ((x, t) ∷ rest) = if same_object x o then some t else find_refined o rest

-- `failed` is set where the code follows a null pointer or a failing assertion.
pub record PropagateState : Type 0 where
  pub handler : TypeHandler
  pub ready : List Text
  pub refined : Refined
  pub failed : Bool

unfoldable pub fail : PropagateState → PropagateState
fail s = record s { failed = true }

-- `e->getType()`
unfoldable pub type_of : PropagateState → Expr → TypeRef
unfolding get_type object_of find_refined
type_of s e = elim (object_of e) [
  | none ↦ get_type e
  | some o ↦ elim (find_refined o s.refined) [ none ↦ get_type e | some t ↦ t ]
]
