-- ===== src/RedundantCasts/Casts.antt =====
-- The rules on a cast keep the value of the expression.
use llvm2c.Prelude.{
  ℕ, Bool, true, false, ◌&&◌, ◌≡◌, refl, sym, ap, ◌∙◌, some, none, inl, inr, Bool-cases,
  if◌then◌else◌,
}
use llvm2c.Types.{integer, IntegerClass, same_type_iff}
use llvm2c.Exprs.{Expr, TypeRef, unary, cast_expr, get_type}
use llvm2c.CInt.{convert}
use llvm2c.CInt.Laws.{convert-truth, convert-convert}
use llvm2c.RedundantCasts.{
  is_bool, is_integer, same_ref, is_boolean_expr, is_bool_cast, collapse, simplify_cast, simplify,
}
use llvm2c.RedundantCasts.Values.{Leaves, eval, IsBoolean, is_computed, eval-boolean}

same_ref→eq : (t t' : TypeRef) → same_ref t t' ≡ true → t ≡ t'
unfolding same_ref
same_ref→eq none none h = refl
same_ref→eq none (some t') h = cc
same_ref→eq (some t) none h = cc
same_ref→eq (some t) (some t') h = ap some ((same_type_iff t t').0 h)

is_bool_cast→is_boolean_expr : (e : Expr) → is_bool_cast e ≡ true → is_boolean_expr e ≡ true
unfolding is_bool_cast is_boolean_expr get_type
is_bool_cast→is_boolean_expr (unary cast_expr e t) h = h
is_bool_cast→is_boolean_expr e h = cc

if_eq {ℓ κ} :
    {A : Type ℓ} {B : Type κ} (f : A → B) (c : Bool) (x y : A)
    → (c ≡ true → f x ≡ f y)
    → f (if c then x else y) ≡ f y
if_eq f true x y h = h refl
if_eq f false x y h = refl

&&-right : (a b : Bool) → (a && b) ≡ true → b ≡ true
&&-right true b h = h
&&-right false b h = cc

module _ (m : Leaves) where
  eval-collapse :
      (e : Expr) (addr : ℕ) (c : IntegerClass) (u : Bool)
      → let t = some (integer addr c u) in
        eval m (unary cast_expr (collapse t e) t) ≡ eval m (unary cast_expr e t)
  unfolding collapse eval
  eval-collapse (unary cast_expr e t') addr c u =
      let t = some (integer addr c u) in
      if_eq (λ x. eval m (unary cast_expr x t)) (same_ref t' t) e (unary cast_expr e t')
        λ h. rw (same_ref→eq t' t h) (sym (convert-convert c u (eval m e)))
  eval-collapse e addr c u = refl

  module _ (booleans : IsBoolean m) where
    -- A boolean operand has the value that the cast would give it.
    eval-boolean_cast :
        (e : Expr) (addr : ℕ) (c : IntegerClass) (u : Bool)
        → is_computed m e ≡ false
        → is_boolean_expr e ≡ true
        → eval m e ≡ eval m (unary cast_expr e (some (integer addr c u)))
    unfolding eval
    eval-boolean_cast e addr c u plain h =
        let (b, p) = eval-boolean m booleans e plain h in
        p ∙ sym (ap (convert c u) p ∙ convert-truth c u b)

    eval-simplify_cast :
        (e : Expr) (addr : ℕ) (c : IntegerClass) (u : Bool)
        → is_computed m e ≡ false
        → let t = some (integer addr c u) in
          eval m (simplify_cast t e) ≡ eval m (unary cast_expr e t)
    unfolding simplify_cast
    eval-simplify_cast e addr c u plain =
        let t = some (integer addr c u) in
        let keep = eval-boolean_cast e addr c u plain in
        elim (Bool-cases (is_integer t && is_bool_cast e)) [
          | inl h ↦ rw h (keep (is_bool_cast→is_boolean_expr e (&&-right (is_integer t) _ h)))
          | inr h ↦ rw h (elim (Bool-cases (is_integer t && is_boolean_expr e)) [
            | inl k ↦ rw k (keep (&&-right (is_integer t) _ k))
            | inr k ↦ rw k (elim (Bool-cases (is_bool t && is_boolean_expr e)) [
              | inl l ↦ rw l (keep (&&-right (is_bool t) _ l))
              | inr l ↦ rw l
            ])
          ])
        ]

-- The expression without a cast in front.
abbrev pub without_cast : Expr → Expr
without_cast (unary cast_expr e _) = e
without_cast e = e

collapse-plain :
    (m : Leaves) (t : TypeRef) (e : Expr)
    → is_computed m (without_cast e) ≡ false
    → is_computed m (collapse t e) ≡ false
unfolding collapse
collapse-plain m t (unary cast_expr e t') h = elim (Bool-cases (same_ref t' t)) [
  | inl same ↦ rw same h
  | inr other ↦ rw other refl
]
collapse-plain m t e h = h

-- What the pass makes of a cast to an integer type has the value of that cast: one of two equal
-- casts goes, and so does a cast of an expression that can only be 0 or 1. The operand, without a
-- cast in front of it, is no arithmetic operation, negation or select: C may compute one of type
-- `_Bool` as an `int` of another value than 0 and 1.
pub eval-simplify_integer_cast :
    (m : Leaves) (e : Expr) (addr : ℕ) (c : IntegerClass) (u : Bool)
    → IsBoolean m
    → is_computed m (without_cast e) ≡ false
    → eval m (simplify (unary cast_expr e (some (integer addr c u))))
      ≡ eval m (unary cast_expr e (some (integer addr c u)))
unfolding simplify
eval-simplify_integer_cast m e addr c u booleans plain =
    eval-simplify_cast m booleans (collapse (some (integer addr c u)) e) addr c u
      (collapse-plain m (some (integer addr c u)) e plain)
    ∙ eval-collapse m e addr c u
