-- ===== src/RedundantCasts/Values.antt =====
-- What dropping casts does to the values of integer expressions.
use llvm2c.Prelude.{Bool, true, false, not, ◌&&◌, ◌||◌, ◌≡◌, refl, none, some, Text}
use llvm2c.Types.{
  integer, char_type, int_type, bool_type, short_type, long_type, long_long_type, int128,
}
use llvm2c.Types.Kinds.{is_bool_type}
use llvm2c.Exprs.{
  Expr, TypeRef, UnaryKind, BinaryKind, get_type, unary, binary, logical_and, logical_or, cast_expr,
  logical_not, cmp_expr, ref_expr, deref_expr, minus_expr, assign_expr, select_expr,
}
use llvm2c.CInt.{ℤ, convert, truth, is_zero, compare_at}
use llvm2c.RedundantCasts.{is_bool, is_boolean_expr}

-- The values of the expressions that are no casts to integers, comparisons or logical operations,
-- and the comparison of operands that are no integers.
pub record Leaves : Type 0 where
  pub leaf : Expr → ℤ
  pub compare_other : Text → ℤ → ℤ → Bool

module _ (m : Leaves) where
  unfoldable pub eval_unary : UnaryKind → TypeRef → Expr → ℤ → ℤ
  eval_unary cast_expr (some (integer _ c u)) self v = convert c u v
  eval_unary logical_not t self v = truth (is_zero v)
  eval_unary k t self v = m.leaf self

  unfoldable pub eval_cmp : Text → TypeRef → TypeRef → ℤ → ℤ → ℤ
  eval_cmp op (some (integer _ c u)) (some (integer _ c' u')) a b =
      truth (compare_at op (c, u) (c', u') a b)
  eval_cmp op t t' a b = truth (m.compare_other op a b)

  unfoldable pub eval_binary : BinaryKind → TypeRef → TypeRef → Expr → ℤ → ℤ → ℤ
  unfolding eval_cmp
  eval_binary (cmp_expr op u) t t' self a b = eval_cmp op t t' a b
  eval_binary k t t' self a b = m.leaf self

  -- The value of an expression in C.
  unfoldable pub eval : Expr → ℤ
  unfolding eval_unary eval_binary get_type
  eval (unary k e t) = eval_unary k t (unary k e t) (eval e)
  eval (binary k l r t) = eval_binary k (get_type l) (get_type r) (binary k l r t) (eval l) (eval r)
  eval (logical_and l r t) = truth (not (is_zero (eval l)) && not (is_zero (eval r)))
  eval (logical_or l r t) = truth (not (is_zero (eval l)) || not (is_zero (eval r)))
  eval e = m.leaf e

  -- What C computes from its operands in a type that may be wider than the expression's own: the
  -- sum of two values of type `_Bool` is an `int`, and may be 2.
  abbrev pub is_computed : Expr → Bool
  is_computed (unary minus_expr _ _) = true
  is_computed (binary assign_expr _ _ _) = false
  is_computed (binary (cmp_expr _ _) _ _ _) = false
  is_computed (binary _ _ _ _) = true
  is_computed (select_expr _ _ _ _ _) = true
  is_computed e = false

  -- Any other leaf of type `_Bool` holds 0 or 1.
  abbrev pub IsBoolean : Type 0
  IsBoolean =
      (e : Expr)
      → is_computed e ≡ false
      → is_bool (get_type e) ≡ true
      → (b : Bool) × (m.leaf e ≡ truth b)

  module _ (booleans : IsBoolean) where
    eval_unary-boolean :
        (k : UnaryKind) (e : Expr) (t : TypeRef)
        → is_computed (unary k e t) ≡ false
        → is_boolean_expr (unary k e t) ≡ true
        → (b : Bool) × (eval_unary k t (unary k e t) (eval e) ≡ truth b)
    unfolding eval_unary is_boolean_expr get_type is_bool is_bool_type convert
    eval_unary-boolean logical_not e t p h = (is_zero (eval e), refl)
    eval_unary-boolean cast_expr e none p h = cc
    eval_unary-boolean cast_expr e (some (integer a bool_type u)) p h =
        (not (is_zero (eval e)), refl)
    eval_unary-boolean cast_expr e (some (integer a char_type u)) p h = cc
    eval_unary-boolean cast_expr e (some (integer a int_type u)) p h = cc
    eval_unary-boolean cast_expr e (some (integer a short_type u)) p h = cc
    eval_unary-boolean cast_expr e (some (integer a long_type u)) p h = cc
    eval_unary-boolean cast_expr e (some (integer a long_long_type u)) p h = cc
    eval_unary-boolean cast_expr e (some (integer a int128 u)) p h = cc
    eval_unary-boolean cast_expr e (some t) p h = booleans (unary cast_expr e (some t)) refl h
    eval_unary-boolean ref_expr e t p h = booleans (unary ref_expr e t) refl h
    eval_unary-boolean deref_expr e t p h = booleans (unary deref_expr e t) refl h
    eval_unary-boolean minus_expr e t p h = cc

    eval_cmp-boolean :
        (op : Text) (t t' : TypeRef) (a b : ℤ) → (c : Bool) × (eval_cmp op t t' a b ≡ truth c)
    unfolding eval_cmp
    eval_cmp-boolean op (some (integer _ c u)) (some (integer _ c' u')) a b =
        (compare_at op (c, u) (c', u') a b, refl)
    eval_cmp-boolean op t t' a b = (m.compare_other op a b, refl)

    pub eval-boolean :
        (e : Expr)
        → is_computed e ≡ false
        → is_boolean_expr e ≡ true
        → (b : Bool) × (eval e ≡ truth b)
    unfolding eval is_boolean_expr eval_binary
    eval-boolean (unary k e t) p h = eval_unary-boolean k e t p h
    eval-boolean (binary (cmp_expr op u) l r t) p h =
        eval_cmp-boolean op (get_type l) (get_type r) (eval l) (eval r)
    eval-boolean (binary k l r t) p h = booleans (binary k l r t) p h
    eval-boolean (logical_and l r t) p h = (not (is_zero (eval l)) && not (is_zero (eval r)), refl)
    eval-boolean (logical_or l r t) p h = (not (is_zero (eval l)) || not (is_zero (eval r)), refl)
    eval-boolean e p h = booleans e p h
