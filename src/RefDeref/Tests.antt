-- ===== src/RefDeref/Tests.antt =====
-- The pass on a small module.
use llvm2c.Prelude.{Bool, true, false, not, ◌≡◌, refl, some, none, [], ◌∷◌, List, codes, text_eq}
use llvm2c.Exprs.{Expr, value, unary, ref_expr, deref_expr, ret_expr, just}
use llvm2c.TypeHandler.{sint}
use llvm2c.Visitor.{Code, accept}
use llvm2c.Visitor.Meaning.{Shape, of_value, of_unary, Meaning, code_meaning}
use llvm2c.Visitor.Stable.{GoesTo, IsSettled}
use llvm2c.RefDeref.{simplify, ref_deref}
use llvm2c.RefDeref.Proofs.{IsInverse, code_meaning-ref_deref, accept-ref_deref_settled}

-- A toy meaning: the parity of the number of `&` and `*` over a variable.
abbrev parity_shape : Shape → List Bool → Bool
parity_shape (of_unary ref_expr t) (v ∷ []) = not v
parity_shape (of_unary deref_expr t) (v ∷ []) = not v
parity_shape (of_value name t) [] = text_eq name (codes "x")
parity_shape _ (v ∷ vs) = v
parity_shape _ [] = false

abbrev parity : Meaning Bool
parity = record {
  of_shape = parity_shape;
  of_call = λ name t f args. false;
  of_ret = λ t v. elim v [ none ↦ false | some b ↦ b ];
  of_switch = λ c d cases. c;
  of_asm = λ inst clobbers output input. false;
}

parity-IsInverse : IsInverse parity
parity-IsInverse true t t' = (refl, refl)
parity-IsInverse false t t' = (refl, refl)

-- `return *&*&x;`
abbrev returned : Expr
returned =
    ret_expr
      (just (
        unary deref_expr
          (unary ref_expr
            (unary deref_expr (unary ref_expr (value (codes "x") (some sint)) none) none) none)
          (some sint)))
      none

abbrev module_code : Code
module_code = ((returned ∷ []) ∷ []) ∷ []

ref_deref_run :
    ref_deref module_code ≡ ((ret_expr (just (value (codes "x") (some sint))) none ∷ []) ∷ []) ∷ []
unfolding ref_deref
ref_deref_run = refl

code_meaning-ref_deref_example :
    code_meaning parity (ref_deref module_code) ≡ code_meaning parity module_code
code_meaning-ref_deref_example = code_meaning-ref_deref parity module_code parity-IsInverse

accept-ref_deref_settled_example :
    IsSettled simplify (accept simplify returned)
    × (accept simplify (accept simplify returned) ≡ accept simplify returned)
unfolding GoesTo
accept-ref_deref_settled_example = accept-ref_deref_settled returned tt
