-- ===== src/Allocas/Tests.antt =====
-- The pass on a small block, and the theorem at it.
use llvm2c.Prelude.{◌≡◌, refl, none, some, List, [], ◌∷◌, codes, arith}
use llvm2c.TypeHandler.{sint}
use llvm2c.Types.{make_vla}
use llvm2c.Exprs.{value, stack_alloc, binary, assign_expr, ret_expr, null}
use llvm2c.Memcpy.{Statement}
use llvm2c.Allocas.{Variable, extract_vars}
use llvm2c.Allocas.Extract.{Splits, extract_vars-exact}

-- `int x; int v[n]; x = y; return;`
abbrev block : List Statement
block =
    (1, stack_alloc (codes "x") (some sint) (some sint))
    ∷ (2, stack_alloc (codes "v") (some (make_vla 50 sint (codes "n"))) none)
    ∷ (3, binary assign_expr (value (codes "x") (some sint)) (value (codes "y") (some sint)) none)
    ∷ (4, ret_expr null none)
    ∷ []

extract_vars_run : extract_vars block [] ≡ (
  (2, stack_alloc (codes "v") (some (make_vla 50 sint (codes "n"))) none)
      ∷ (3, binary assign_expr (value (codes "x") (some sint)) (value (codes "y") (some sint)) none)
      ∷ (4, ret_expr null none)
      ∷ [],
  (codes "x", some sint) ∷ [],
)
unfolding extract_vars make_vla
extract_vars_run = refl

extract_vars-exact_example :
    (stays : List Statement) × (gone : List Variable) × Splits block stays gone
    × (extract_vars block [] ≡ (stays, gone))
extract_vars-exact_example = extract_vars-exact block [] (omega arith)
