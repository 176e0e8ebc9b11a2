-- ===== src/Arrowify/Proofs.antt =====
-- arrowify keeps every meaning in which `v->f` is `(*v).f`, and leaves no `(*v).f` behind.
use llvm2c.Prelude.{ℕ, ◌≡◌, refl, [], ◌∷◌, sym, ap, ◌∙◌, some, some_injective, Bool-cases, inl, inr}
use llvm2c.Exprs.{Expr, TypeRef, aggregate_element, unary, deref_expr}
use llvm2c.Visitor.{Code, accept, run_visitor}
use llvm2c.Visitor.Meaning.{
  Meaning, of_unary, of_arrow, of_aggregate_element, meaning, code_meaning,
  code_meaning-run_visitor,
}
use llvm2c.Visitor.Stable.{HasNoInitializer, IsSettled}
use llvm2c.Visitor.Settle.{IsSettled-accept}
use llvm2c.Arrowify.{Items, simplify, code_holds, arrowify}

-- `v->f` is `(*v).f`, whatever types the nodes carry.
abbrev pub IsArrow : {V : Type 0} → Meaning V → Type 0
IsArrow {V} m =
    (v : V) (n : ℕ) (t t' t'' : TypeRef)
    → m.of_shape (of_arrow n t) (v ∷ [])
      ≡ m.of_shape (of_aggregate_element n t') (m.of_shape (of_unary deref_expr t'') (v ∷ []) ∷ [])

meaning-simplify :
    {V : Type 0} (m : Meaning V) (items : Items)
    → IsArrow m
    → (e : Expr) → meaning m (simplify items e) ≡ meaning m e
unfolding simplify meaning
meaning-simplify m items law (aggregate_element (unary deref_expr e t') n t) =
    law (meaning m e) n _ t t'
meaning-simplify m items law e = refl

-- Where no assertion of ArrowExpr's constructor fails, which has to find a pointer to a struct with
-- such an item, so that the pass comes to its end, it keeps the meaning of every expression of the
-- module, for each compositional meaning in which `v->f` is `(*v).f`.
pub code_meaning-arrowify :
    {V : Type 0} (m : Meaning V) (items : Items) (code made : Code)
    → IsArrow m
    → arrowify items code ≡ some made
    → code_meaning m made ≡ code_meaning m code
unfolding arrowify
code_meaning-arrowify m items code made law h =
    elim (Bool-cases (code_holds (run_visitor (simplify items) code))) [
      | inl e ↦
          ap (code_meaning m) (sym (some_injective _ made (rw e at h)))
          ∙ code_meaning-run_visitor m (simplify items) (meaning-simplify m items law) code
      | inr e ↦ cc (rw e at h)
    ]

simplify-settles :
    (items : Items) (e : Expr)
    → IsSettled (simplify items) e
    → IsSettled (simplify items) (simplify items e)
      × (simplify items (simplify items e) ≡ simplify items e)
unfolding simplify IsSettled
simplify-settles items (aggregate_element (unary deref_expr e t') n t) (h, _) = (h, refl)
simplify-settles items e h = (h, refl)

-- After the pass has visited an expression without aggregate initializers, no operand in it has the
-- form `(*v).f` any more, and visiting it again changes nothing.
pub accept-arrowify_settled :
    (items : Items) (e : Expr)
    → HasNoInitializer e
    → IsSettled (simplify items) (accept (simplify items) e)
      × (accept (simplify items) (accept (simplify items) e) ≡ accept (simplify items) e)
accept-arrowify_settled items = IsSettled-accept (simplify items) (simplify-settles items)
