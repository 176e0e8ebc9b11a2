-- ===== src/SignCasts/Compare.antt =====
-- The comparison that the pass leaves compares the operands the way LLVM's predicate does: as signed
-- or as unsigned numbers of their width, whatever the types that the operands had.
use llvm2c.Prelude.{
  arith, ℕ, Bool, true, false, ◌≡◌, refl, sym, ap, ap₂, subst, ◌∙◌, Option, none, some, inl, inr,
  Bool-cases, Text,
}
use llvm2c.Types.{CType, integer, IntegerClass}
use llvm2c.Types.Kinds.{integer_signedness}
use llvm2c.TypeHandler.{toggle_signedness}
use llvm2c.TypeHandler.Signedness.{toggle_signedness-cases}
use llvm2c.Exprs.{Expr, TypeRef, get_type, unary, cast_expr, binary, cmp_expr}
use llvm2c.CInt.{ℤ, convert, truth, compare_values}
use llvm2c.CInt.Laws.{convert-convert, compare_at-same}
use llvm2c.RedundantCasts.{signedness}
use llvm2c.RedundantCasts.Values.{Leaves, eval, eval_cmp}
use llvm2c.SignCasts.{toggle_ref, needs_cast, cast_if_needed, cast_operand, cast_to, visit}
use llvm2c.SignCasts.Signs.{HasPartner, toggle_ref-fits}

class_of : CType → Option IntegerClass
class_of (integer _ c _) = some c
class_of _ = none

toggle_signedness-class : (t : CType) → class_of (toggle_signedness t) ≡ class_of t
unfolding class_of
toggle_signedness-class =
    toggle_signedness-cases (λ a b. class_of b ≡ class_of a)
      (record {
        of_int = (refl, refl);
        of_char = (refl, refl);
        of_short = (refl, refl);
        of_long = (refl, refl);
        of_long_long = (refl, refl);
      })
      (λ t un. refl)

-- The type is an integer type of the given class and signedness.
abbrev pub IsInteger : IntegerClass → Bool → TypeRef → Type 0
IsInteger c u t = (addr : ℕ) × (t ≡ some (integer addr c u))

integer_of :
    (t : CType) (c : IntegerClass)
    → class_of t ≡ some c
    → (addr : ℕ) × (v : Bool) × (t ≡ integer addr c v)
unfolding class_of
integer_of (integer addr d v) c h = (addr, v, cc)
integer_of t c h = cc

class_toggled :
    (addr : ℕ) (c : IntegerClass) (v : Bool)
    → class_of (toggle_signedness (integer addr c v)) ≡ some c
unfolding class_of
class_toggled addr c v = toggle_signedness-class (integer addr c v)

fits-same : (v u : Bool) → needs_cast (some v) u ≡ false → v ≡ u
unfolding needs_cast
fits-same true u h = ground (arith)
fits-same false u h = ground (arith)

toggled :
    (addr : ℕ) (c : IntegerClass) (v u : Bool)
    → HasPartner u (some (integer addr c v))
    → needs_cast (some v) u ≡ true
    → IsInteger c u (toggle_ref (some (integer addr c v)))
unfolding toggle_ref signedness integer_signedness
toggled addr c v u p h =
    let (a, w, e) = integer_of (toggle_signedness (integer addr c v)) c (class_toggled addr c v) in
    (
      a,
      ap some (
          e
          ∙ ap (integer a c) (
              fits-same w u (
                subst (λ x. needs_cast (integer_signedness x) u ≡ false) e
                  (toggle_ref-fits (some (integer addr c v)) u p h)))),
    )

-- The value of an operand after castIfNeeded, and its type.
module _ (m : Leaves) (c : IntegerClass) where
  -- The operand has an integer type of class `c`, whose values it keeps to.
  abbrev pub IsOperand : Bool → Expr → Type 0
  IsOperand u e =
      (addr : ℕ) × (v : Bool) × (get_type e ≡ some (integer addr c v))
      × HasPartner u (get_type e)
      × (convert c v (eval m e) ≡ eval m e)

  casts :
      (e : Expr) (u : Bool) (addr : ℕ) (v : Bool)
      → get_type e ≡ some (integer addr c v)
      → HasPartner u (some (integer addr c v))
      → needs_cast (some v) u ≡ true
      → (a : ℕ) × (cast_if_needed e u ≡ unary cast_expr e (some (integer a c u)))
  unfolding cast_if_needed signedness integer_signedness
  casts e u addr v te p h =
      let (a, ta) = toggled addr c v u p h in (a, rw (te, h) (ap (unary cast_expr e) ta))

  keeps :
      (e : Expr) (u : Bool) (addr : ℕ) (v : Bool)
      → get_type e ≡ some (integer addr c v)
      → needs_cast (some v) u ≡ false
      → cast_if_needed e u ≡ e
  unfolding cast_if_needed signedness integer_signedness
  keeps e u addr v te h = rw (te, h) refl

  cast_value :
      (e : Expr) (u : Bool) (a : ℕ)
      → eval m (unary cast_expr e (some (integer a c u))) ≡ convert c u (eval m e)
  unfolding eval
  cast_value e u a = refl

  cast_type : (e : Expr) (t : TypeRef) → get_type (unary cast_expr e t) ≡ t
  unfolding get_type
  cast_type e t = refl

  cast_if_needed-value :
      (e : Expr) (u : Bool)
      → IsOperand u e
      → IsInteger c u (get_type (cast_if_needed e u))
        × (eval m (cast_if_needed e u) ≡ convert c u (eval m e))
  cast_if_needed-value e u (addr, v, te, p, r) = elim (Bool-cases (needs_cast (some v) u)) [
    | inl h ↦
        let (a, ea) = casts e u addr v te (subst (HasPartner u) te p) h in
        rw ea ((a, cast_type e _), cast_value e u a)
    | inr h ↦
        let vu = fits-same v u h in
        rw (keeps e u addr v te h) (
          (addr, te ∙ ap (λ x. some (integer addr c x)) vu),
          sym (subst (λ x. convert c x (eval m e) ≡ eval m e) vu r),
        )
  ]

  eval-compare :
      (op : Text) (u : Bool) (l r : Expr) (t : TypeRef)
      → IsInteger c u (get_type l)
      → IsInteger c u (get_type r)
      → convert c u (eval m l) ≡ eval m l
      → convert c u (eval m r) ≡ eval m r
      → eval m (binary (cmp_expr op u) l r t) ≡ truth (compare_values op (eval m l) (eval m r))
  unfolding eval eval_cmp
  eval-compare op u l r t (al, tl) (ar, tr) hl hr =
      rw (tl, tr) (ap truth (compare_at-same op c u (eval m l) (eval m r) hl hr))

  visit-cmp :
      (op : Text) (u : Bool) (l r : Expr) (t : TypeRef)
      → visit (binary (cmp_expr op u) l r t)
        ≡ binary (cmp_expr op u) (cast_if_needed (visit l) u) (cast_if_needed (visit r) u) t
  unfolding visit cast_operand cast_to
  visit-cmp op u l r t = refl

  in_range : (u : Bool) (v w : ℤ) → v ≡ convert c u w → convert c u v ≡ v
  in_range u v w h = rw (h, convert-convert c u w) refl

  -- A comparison of two operands of one class of integers, each of a type with a partner or of the right
  -- signedness, evaluates after the pass to the operator applied to the operands' values, read as
  -- unsigned numbers if the comparison is unsigned, and as signed numbers otherwise.
  pub eval-visit_cmp :
      (op : Text) (u : Bool) (l r : Expr) (t : TypeRef)
      → IsOperand u (visit l)
      → IsOperand u (visit r)
      → eval m (visit (binary (cmp_expr op u) l r t))
        ≡ truth
            (compare_values op (convert c u (eval m (visit l))) (convert c u (eval m (visit r))))
  eval-visit_cmp op u l r t hl hr =
      let (tl, vl) = cast_if_needed-value (visit l) u hl in
      let (tr, vr) = cast_if_needed-value (visit r) u hr in
      rw (visit-cmp op u l r t) (
        eval-compare op u _ _ t tl tr (in_range u _ _ vl) (in_range u _ _ vr)
        ∙ ap₂ (λ a b. truth (compare_values op a b)) vl vr)
