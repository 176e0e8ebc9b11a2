-- ===== src/RefDeref/Proofs.antt =====
-- refDeref keeps every meaning in which `&` and `*` undo each other, and leaves none of the two
-- pairs behind at an operand.
use llvm2c.Prelude.{◌≡◌, refl, sym, [], ◌∷◌}
use llvm2c.Exprs.{Expr, TypeRef, unary, ref_expr, deref_expr}
use llvm2c.Visitor.{Code, accept}
use llvm2c.Visitor.Meaning.{Meaning, of_unary, meaning, code_meaning, code_meaning-run_visitor}
use llvm2c.Visitor.Stable.{HasNoInitializer, IsSettled}
use llvm2c.Visitor.Settle.{IsSettled-accept}
use llvm2c.RefDeref.{simplify, ref_deref}

-- `&*v` and `*&v` are `v`, whatever types the nodes carry.
abbrev pub IsInverse : {V : Type 0} → Meaning V → Type 0
IsInverse {V} m =
    (v : V) (t t' : TypeRef)
    → (m.of_shape (of_unary ref_expr t) (m.of_shape (of_unary deref_expr t') (v ∷ []) ∷ []) ≡ v)
      × (m.of_shape (of_unary deref_expr t) (m.of_shape (of_unary ref_expr t') (v ∷ []) ∷ []) ≡ v)

meaning-simplify :
    {V : Type 0} (m : Meaning V) → IsInverse m → (e : Expr) → meaning m (simplify e) ≡ meaning m e
unfolding simplify meaning
meaning-simplify m inv (unary ref_expr (unary deref_expr e t') t) = sym (inv (meaning m e) t t').0
meaning-simplify m inv (unary deref_expr (unary ref_expr e t') t) = sym (inv (meaning m e) t t').1
meaning-simplify m inv e = refl

-- The pass keeps the meaning of every expression of the module, for each compositional meaning in
-- which `&*v` and `*&v` are `v`.
pub code_meaning-ref_deref :
    {V : Type 0} (m : Meaning V) (code : Code)
    → IsInverse m
    → code_meaning m (ref_deref code) ≡ code_meaning m code
unfolding ref_deref
code_meaning-ref_deref m code inv =
    code_meaning-run_visitor m simplify (meaning-simplify m inv) code

simplify-settles :
    (e : Expr)
    → IsSettled simplify e
    → IsSettled simplify (simplify e) × (simplify (simplify e) ≡ simplify e)
unfolding simplify IsSettled
simplify-settles (unary ref_expr (unary deref_expr e t') t) ((h, s), _) = (h, s)
simplify-settles (unary deref_expr (unary ref_expr e t') t) ((h, s), _) = (h, s)
simplify-settles e h = (h, refl)

-- After the pass has visited an expression without aggregate initializers, no operand in it is a
-- pair `&*` or `*&` any more, and visiting it again changes nothing. So it does not matter how
-- often a shared expression is visited.
pub accept-ref_deref_settled :
    (e : Expr)
    → HasNoInitializer e
    → IsSettled simplify (accept simplify e)
      × (accept simplify (accept simplify e) ≡ accept simplify e)
accept-ref_deref_settled = IsSettled-accept simplify simplify-settles
