-- ===== src/RedundantCasts/Comparisons.antt =====
-- The rules on a comparison of two casts to one unsigned type: they keep the value where the casts
-- widen, and change it where they narrow.
use llvm2c.Prelude.{
  ℕ, Bool, true, false, ◌≡◌, ◌≢◌, ◌≤◌, ◌<◌, ◌^◌, refl, sym, ap, ◌∙◌, none, some, if◌then◌else◌,
  Text, codes, text_eq,
}
use llvm2c.Types.{integer, IntegerClass, same_type_iff, char_type, bool_type}
use llvm2c.Types.Kinds.{is_integer_type}
use llvm2c.Exprs.{Expr, TypeRef, value, unary, cast_expr, binary, cmp_expr, get_type}
use llvm2c.CInt.{pos, width, convert, truth, compare_values}
use llvm2c.CInt.Laws.{convert-truth, convert_wider, compare_at-same, convert_overflow, convert_fits}
use llvm2c.RedundantCasts.{is_integer, same_ref, drops_equality, simplify_cmp, simplify}
use llvm2c.RedundantCasts.Values.{Leaves, eval, eval_cmp}

-- `(K)a op (K)b`, for an unsigned type `K`.
abbrev pub compare_casts : Text → Bool → TypeRef → Expr → Expr → TypeRef → Expr
compare_casts op u k a b t = binary (cmp_expr op u) (unary cast_expr a k) (unary cast_expr b k) t

either {ℓ κ} :
    {A : Type ℓ} {B : Type κ} (f : A → B) (c d : Bool) (x y : A)
    → f x ≡ f y
    → f (if c then (if d then x else y) else y) ≡ f y
either f true true x y h = h
either f true false x y h = refl
either f false d x y h = refl

-- Where the operands have one unsigned type, and the casts go to an unsigned type that is no
-- narrower, the simplified comparison has the value of the original.
pub eval-simplify_widening :
    (m : Leaves) (op : Text) (u : Bool) (addr addr' : ℕ) (s k : IntegerClass) (a b : Expr)
    (t : TypeRef)
    → get_type a ≡ some (integer addr s true)
    → get_type b ≡ some (integer addr s true)
    → convert s true (eval m a) ≡ eval m a
    → convert s true (eval m b) ≡ eval m b
    → width s ≤ width k
    → eval m (simplify (compare_casts op u (some (integer addr' k true)) a b t))
      ≡ eval m (compare_casts op u (some (integer addr' k true)) a b t)
unfolding simplify simplify_cmp
eval-simplify_widening m op u addr addr' s k a b t ta tb ra rb wide =
    either (eval m) _ _ (binary (cmp_expr op u) a b t) _ same
  where
    same :
        eval m (binary (cmp_expr op u) a b t)
        ≡ eval m (compare_casts op u (some (integer addr' k true)) a b t)
    same =
        unfold eval eval_cmp in
        rw (ta, tb, convert_wider s k (eval m a) wide ra, convert_wider s k (eval m b) wide rb)
          (ap truth (
            compare_at-same op s true (eval m a) (eval m b) ra rb
            ∙ sym (
                compare_at-same op k true (eval m a) (eval m b)
                  (convert_wider s k (eval m a) wide ra) (convert_wider s k (eval m b) wide rb))))

is_integer_type-integer :
    (addr : ℕ) (c : IntegerClass) (u : Bool) → is_integer_type (integer addr c u) ≡ true
unfolding is_integer_type
is_integer_type-integer addr char_type u = refl
is_integer_type-integer addr c u = refl

same_ref_refl : (t : TypeRef) → same_ref t t ≡ true
unfolding same_ref
same_ref_refl none = refl
same_ref_refl (some t) = (same_type_iff t t).1 refl

overflow_ne_zero :
    (k : IntegerClass) → compare_values (codes "==") (pos (2 ^ width k)) (pos 0) ≡ false
unfolding compare_values
overflow_ne_zero char_type = refl
overflow_ne_zero k = refl

-- `(K)x == (K)y` becomes `x == y` for variables of an integer type.
simplify-equality :
    (addr addr' : ℕ) (s k : IntegerClass) (x y : Text) (t : TypeRef)
    → let st = some (integer addr s true) in
      simplify
        (compare_casts (codes "==") true (some (integer addr' k true)) (value x st) (value y st) t)
      ≡ binary (cmp_expr (codes "==") true) (value x st) (value y st) t
unfolding simplify simplify_cmp drops_equality is_integer get_type text_eq
simplify-equality addr addr' s k x y t = simp (
  same_ref_refl (some (integer addr' k true)),
  is_integer_type-integer addr' k true,
  is_integer_type-integer addr s true,
)

narrow_before :
    (m : Leaves) (addr' : ℕ) (k : IntegerClass) (a b : Expr) (t : TypeRef)
    → k ≢ bool_type
    → eval m a ≡ pos (2 ^ width k)
    → eval m b ≡ pos 0
    → eval m (compare_casts (codes "==") true (some (integer addr' k true)) a b t) ≡ pos 1
unfolding eval compare_values
narrow_before m addr' k a b t nb ha hb =
    rw (ha, hb, convert_overflow k nb, convert-truth k true false)
      (ap truth (
        compare_at-same (codes "==") k true (pos 0) (pos 0) (convert-truth k true false)
          (convert-truth k true false)))

narrow_after :
    (m : Leaves) (addr : ℕ) (s k : IntegerClass) (x y : Text) (t : TypeRef)
    → let st = some (integer addr s true) in
      width k < width s
      → m.leaf (value x st) ≡ pos (2 ^ width k)
      → m.leaf (value y st) ≡ pos 0
      → eval m (binary (cmp_expr (codes "==") true) (value x st) (value y st) t) ≡ pos 0
unfolding eval
narrow_after m addr s k x y t narrow hx hy =
    rw (hx, hy)
      (ap truth (
        compare_at-same (codes "==") s true (pos (2 ^ width k)) (pos 0) (convert_fits k s narrow)
          (convert-truth s true false)
        ∙ overflow_ne_zero k))

-- Where the casts narrow, the rule for `==` changes the value: for variables `x` and `y` of an unsigned
-- type, and a narrower unsigned type `K` of w bits that is not `_Bool`, `(K)x == (K)y` is 1 and
-- `x == y`, which the pass makes of it, is 0 where `x` is 2 to the w and `y` is 0.
pub eval-simplify_narrowing :
    (m : Leaves) (addr addr' : ℕ) (s k : IntegerClass) (x y : Text) (t : TypeRef)
    → k ≢ bool_type
    → width k < width s
    → m.leaf (value x (some (integer addr s true))) ≡ pos (2 ^ width k)
    → m.leaf (value y (some (integer addr s true))) ≡ pos 0
    → let e =
        compare_casts
          (codes "==")
          true
          (some (integer addr' k true))
          (value x (some (integer addr s true)))
          (value y (some (integer addr s true)))
          t in
      (eval m e ≡ pos 1) × (eval m (simplify e) ≡ pos 0)
unfolding eval
eval-simplify_narrowing m addr addr' s k x y t nb narrow hx hy =
    let st = some (integer addr s true) in
    (
      narrow_before m addr' k (value x st) (value y st) t nb hx hy,
      rw (simplify-equality addr addr' s k x y t) (narrow_after m addr s k x y t narrow hx hy),
    )
