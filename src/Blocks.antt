-- ===== src/Blocks.antt =====
-- core/Block.h: the basic blocks of a function as the later passes and the writer see them. A
-- `Block*` is a number, and a table of blocks gives what it points to.
use llvm2c.Prelude.{ℕ, Bool, List, Text}
use llvm2c.Exprs.{Expr}

pub record BlockState : Type 0 where
  pub block_name : Text
  pub expressions : List Expr
  pub do_inline : Bool
  pub is_first : Bool

abbrev pub Blocks : Type 0
Blocks = ℕ → BlockState
