-- ===== src/PropagateTypes/Tests.antt =====
-- The pass on a small function, and the theorems at it.
use llvm2c.Prelude.{◌≡◌, refl, true, false, none, some, List, [], ◌∷◌, codes, text_eq, All}
use llvm2c.TypeHandler.{sint, uint}
use llvm2c.Exprs.{Expr, value, binary, add_expr, assign_expr, ret_expr, just}
use llvm2c.Arrowify.{Items}
use llvm2c.PropagateTypes.State.{PropagateState, local}
use llvm2c.PropagateTypes.{FunctionCode, visit_block, enter_function}
use llvm2c.PropagateTypes.Flags.{FlagsFit, visit_block-FlagsFit}
use llvm2c.PropagateTypes.Extends.{Extends}
use llvm2c.PropagateTypes.Growth.{visit_block-Extends}

abbrev x : Expr
x = value (codes "x") (some sint)

abbrev y : Expr
y = value (codes "y") (some uint)

-- `x = y + y; return x + x;`, with `int x` and `unsigned y`.
abbrev body : List Expr
body =
    binary assign_expr x (binary (add_expr false) y y (some sint)) (some sint)
    ∷ ret_expr (just (binary (add_expr false) x x (some sint))) none
    ∷ []

abbrev no_items : Items
no_items t n = none

abbrev start : PropagateState
start = record {
  handler = record { pointer_types = []; type_def_count = 0; next_addr = 40 };
  ready = codes "x" ∷ [];
  refined = [];
  failed = false;
}

-- The variable becomes unsigned, and the second sum with it.
body_run : visit_block no_items start body ≡ (
  binary assign_expr x (binary (add_expr true) y y (some uint)) (some sint)
      ∷ ret_expr (just (binary (add_expr true) x x (some uint))) (some uint)
      ∷ [],
  record start { refined = (local (codes "x"), some uint) ∷ [] },
)
unfolding visit_block
body_run = refl

visit_block-FlagsFit_example : All FlagsFit (visit_block no_items start body).0
visit_block-FlagsFit_example = visit_block-FlagsFit no_items start body

visit_block-Extends_example : Extends start (visit_block no_items start body).1
visit_block-Extends_example = visit_block-Extends no_items start body

abbrev first : FunctionCode
first = record { variables = codes "x" ∷ []; parameters = []; blocks = [] }

abbrev second : FunctionCode
second = record { variables = codes "x" ∷ []; parameters = codes "x" ∷ []; blocks = [] }

-- The name of a variable stays ready in the next function, where it is a parameter.
second_ready :
    (enter_function [] second (enter_function [] first (record start { ready = [] }))).ready
    ≡ codes "x" ∷ []
unfolding enter_function text_eq
second_ready = refl
