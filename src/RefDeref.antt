-- ===== src/RefDeref.antt =====
-- parser/refDeref.cpp: the pass that removes `&*` and `*&`.
pub mod Proofs
pub mod Tests
use llvm2c.Exprs.{Expr, unary, ref_expr, deref_expr}
use llvm2c.Visitor.{Code, run_visitor}

-- RefDerefVisitor::simplify
unfoldable pub simplify : Expr → Expr
simplify (unary ref_expr (unary deref_expr e _) _) = e
simplify (unary deref_expr (unary ref_expr e _) _) = e
simplify e = e

-- refDeref
unfoldable pub ref_deref : Code → Code
unfolding run_visitor simplify
ref_deref code = run_visitor simplify code
