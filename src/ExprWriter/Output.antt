-- ===== src/ExprWriter/Output.antt =====
-- The stream of writer/ExprWriter.cpp: what the code has written, or `none` once it has followed a
-- null pointer, asked a type for what it does not have, or met a failing `dyn_cast`.
use llvm2c.Prelude.{ℕ, zero, suc, Option, none, some, ◌++◌, [], String, Text, codes}

abbrev pub Out : Type 0
Out = Option Text

-- `ss << a << b`
infixl 20 ◌<<◌
abbrev pub ◌<<◌ : Out → Out → Out
none << b = none
some a << none = none
some a << some b = some (a ++ b)

abbrev pub put : String → Out
put s = some (codes s)

-- ExprWriter::indent
unfoldable pub indent : ℕ → Out
indent zero = some []
indent (suc n) = put "    " << indent n
