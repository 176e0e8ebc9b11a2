-- ===== src/SignCasts/Settle.antt =====
-- What the visit of an expression establishes: every operand that the pass looks at has the signedness
-- of its operation, and a second visit changes nothing.
use llvm2c.Prelude.{
  Bool, true, false, ◌≡◌, refl, sym, ap₂, subst, if◌then◌else◌, Option, none, some,
}
use llvm2c.Exprs.{
  Expr, MaybeExpr, Exprs, TypeRef, BinaryKind, get_type, aggregate_element, array_element,
  extract_value, gep_expr, if_expr, switch_expr, call_expr, pointer_shift, select_expr, unary,
  ref_expr, deref_expr, cast_expr, ret_expr, binary, add_expr, sub_expr, mul_expr, div_expr,
  rem_expr, shl_expr, cmp_expr, assign_expr, and_expr, or_expr, xor_expr, ashr_expr, lshr_expr,
  null, just, nil, cons,
}
use llvm2c.RedundantCasts.{signedness}
use llvm2c.SignCasts.{
  needs_cast, toggle_ref, cast_if_needed, cast_to, cast_operand, visit, visit_maybe, visit_list,
}
use llvm2c.SignCasts.Signs.{HasPartner, cast_if_needed-fits, cast_if_needed-fitting}

-- The operand's type is no integer type of the other signedness.
unfoldable pub Fits : Option Bool → TypeRef → Type 0
Fits none t = Unit
Fits (some u) t = needs_cast (signedness t) u ≡ false

unfoldable pub CanFit : Option Bool → TypeRef → Type 0
CanFit none t = Unit
CanFit (some u) t = HasPartner u t

-- The signedness that the operator of a BinaryExpr gives its operands: the arithmetic operators, the
-- shift to the left and the comparisons have one, the bitwise operators and the assignment have none.
unfoldable pub sign_of : BinaryKind → Option Bool
sign_of assign_expr = none
sign_of and_expr = none
sign_of or_expr = none
sign_of xor_expr = none
sign_of ashr_expr = none
sign_of lshr_expr = none
sign_of (add_expr u) = some u
sign_of (sub_expr u) = some u
sign_of (mul_expr u) = some u
sign_of (div_expr u) = some u
sign_of (rem_expr u) = some u
sign_of (shl_expr u) = some u
sign_of (cmp_expr op u) = some u

-- `Q` holds of the operation's signedness and the type of each operand of the operations in the
-- expressions that the pass visits.
module _ (Q : Option Bool → TypeRef → Type 0) where
  unfoldable mutual
    pub Operands : Expr → Type 0
    Operands (aggregate_element e n t) = Operands e
    Operands (array_element e i t) = Operands e × Operands i
    Operands (extract_value indices t) = OperandsList indices
    Operands (if_expr cmp yes_list no_list) = Operands cmp
    Operands (switch_expr cmp def cases) = Operands cmp
    Operands (call_expr f name params t) = OperandsMaybe f × OperandsList params
    Operands (pointer_shift ptr_type p move t) = Operands p × Operands move
    Operands (gep_expr indices t) = OperandsList indices
    Operands (select_expr l r c negate t) = Operands l × Operands r × Operands c
    Operands (unary ref_expr e t) = Operands e
    Operands (unary deref_expr e t) = Operands e
    Operands (unary cast_expr e t) = Operands e
    Operands (ret_expr e t) = OperandsMaybe e
    Operands (binary ashr_expr l r t) = Unit
    Operands (binary lshr_expr l r t) = Unit
    Operands (binary k l r t) =
        Operands l × Operands r × Q (sign_of k) (get_type l) × Q (sign_of k) (get_type r)
    Operands e = Unit

    pub OperandsMaybe : MaybeExpr → Type 0
    OperandsMaybe null = Unit
    OperandsMaybe (just e) = Operands e

    pub OperandsList : Exprs → Type 0
    OperandsList nil = Unit
    OperandsList (cons e es) = Operands e × OperandsList es

-- The pass casts operands, and never an expression itself.
get_type-visit : (e : Expr) → get_type (visit e) ≡ get_type e
unfolding get_type visit
get_type-visit (unary ref_expr e t) = refl
get_type-visit (unary deref_expr e t) = refl
get_type-visit (unary cast_expr e t) = refl
get_type-visit (binary ashr_expr l r t) = refl
get_type-visit (binary lshr_expr l r t) = refl
get_type-visit (binary k l r t) = refl
get_type-visit e = refl

cast_operand-Fits :
    (c : Option Bool) (e : Expr)
    → CanFit c (get_type e)
    → Fits c (get_type (cast_operand c (visit e)))
unfolding cast_operand Fits CanFit
cast_operand-Fits none e h = tt
cast_operand-Fits (some u) e h =
    cast_if_needed-fits (visit e) u (subst (HasPartner u) (sym (get_type-visit e)) h)

cast_operand-Operands :
    (c : Option Bool) (e : Expr) → Operands Fits e → Operands Fits (cast_operand c e)
unfolding cast_operand cast_if_needed Operands
cast_operand-Operands none e h = h
cast_operand-Operands (some u) e h =
    elim (needs_cast (signedness (get_type e)) u)
      as (λ b. Operands Fits (if b then unary cast_expr e (toggle_ref (get_type e)) else e)) [
        | true ↦ h
        | false ↦ h
      ]

cast_operand-fitting : (c : Option Bool) (e : Expr) → Fits c (get_type e) → cast_operand c e ≡ e
unfolding cast_operand Fits
cast_operand-fitting none e h = refl
cast_operand-fitting (some u) e h = cast_if_needed-fitting e u h

operand-Fits :
    (c : Option Bool) (e : Expr)
    → Operands Fits (visit e)
    → CanFit c (get_type e)
    → Operands Fits (cast_operand c (visit e)) × Fits c (get_type (cast_operand c (visit e)))
operand-Fits c e h k = (cast_operand-Operands c (visit e) h, cast_operand-Fits c e k)

regroup : {A B C D : Type 0} → A × C → B × D → A × B × C × D
regroup x y = (x.0, y.0, x.1, y.1)

mutual
  unfolding visit Operands cast_to sign_of

  visited-Fits : (e : Expr) → Operands CanFit e → Operands Fits (visit e)
  visited-Fits (aggregate_element e n t) h = visited-Fits e h
  visited-Fits (array_element e i t) h = (visited-Fits e h.0, visited-Fits i h.1)
  visited-Fits (extract_value indices t) h = visit_list-Fits indices h
  visited-Fits (if_expr cmp yes_list no_list) h = visited-Fits cmp h
  visited-Fits (switch_expr cmp def cases) h = visited-Fits cmp h
  visited-Fits (call_expr f name params t) h = (visit_maybe-Fits f h.0, visit_list-Fits params h.1)
  visited-Fits (pointer_shift ptr_type p move t) h = (visited-Fits p h.0, visited-Fits move h.1)
  visited-Fits (gep_expr indices t) h = visit_list-Fits indices h
  visited-Fits (select_expr l r c negate t) h =
      (visited-Fits l h.0, visited-Fits r h.1, visited-Fits c h.2)
  visited-Fits (unary ref_expr e t) h = visited-Fits e h
  visited-Fits (unary deref_expr e t) h = visited-Fits e h
  visited-Fits (unary cast_expr e t) h = visited-Fits e h
  visited-Fits (ret_expr e t) h = visit_maybe-Fits e h
  visited-Fits (binary ashr_expr l r t) h = tt
  visited-Fits (binary lshr_expr l r t) h = tt
  visited-Fits (binary k l r t) h =
      regroup (operand-Fits (sign_of k) l (visited-Fits l h.0) h.2)
        (operand-Fits (sign_of k) r (visited-Fits r h.1) h.3)
  visited-Fits e h = tt

  visit_maybe-Fits : (e : MaybeExpr) → OperandsMaybe CanFit e → OperandsMaybe Fits (visit_maybe e)
  visit_maybe-Fits null h = tt
  visit_maybe-Fits (just e) h = visited-Fits e h

  visit_list-Fits : (es : Exprs) → OperandsList CanFit es → OperandsList Fits (visit_list es)
  visit_list-Fits nil h = tt
  visit_list-Fits (cons e es) h = (visited-Fits e h.0, visit_list-Fits es h.1)

-- This is about the operations that the pass comes to: those that are not inside the operand of a
-- logical operation, a negation, an arrow or a shift to the right, nor in a list of expressions, a do-while, an
-- initializer, inline assembly, or what an if or a switch leads to. Where every operand of such an
-- arithmetic operation, shift to the left or comparison that needs a cast to the operation's
-- signedness has a type with a partner of that signedness, none needs one after the visit: each is of
-- the operation's signedness, or is no integer.
pub visit-Fits : (e : Expr) → Operands CanFit e → Operands Fits (visit e)
visit-Fits e h = visited-Fits e h

stays :
    (c : Option Bool) (e : Expr) → visit e ≡ e → Fits c (get_type e) → cast_operand c (visit e) ≡ e
stays c e h k = rw h (cast_operand-fitting c e k)

mutual
  unfolding visit Operands cast_to sign_of

  -- An expression whose operands fit is left alone.
  pub visit-fitting : (e : Expr) → Operands Fits e → visit e ≡ e
  visit-fitting (aggregate_element e n t) h = rw (visit-fitting e h) refl
  visit-fitting (array_element e i t) h = rw (visit-fitting e h.0, visit-fitting i h.1) refl
  visit-fitting (extract_value indices t) h = rw (visit_list-fitting indices h) refl
  visit-fitting (if_expr cmp yes_list no_list) h = rw (visit-fitting cmp h) refl
  visit-fitting (switch_expr cmp def cases) h = rw (visit-fitting cmp h) refl
  visit-fitting (call_expr f name params t) h =
      rw (visit_maybe-fitting f h.0, visit_list-fitting params h.1) refl
  visit-fitting (pointer_shift ptr_type p move t) h =
      rw (visit-fitting p h.0, visit-fitting move h.1) refl
  visit-fitting (gep_expr indices t) h = rw (visit_list-fitting indices h) refl
  visit-fitting (select_expr l r c negate t) h =
      rw (visit-fitting l h.0, visit-fitting r h.1, visit-fitting c h.2) refl
  visit-fitting (unary ref_expr e t) h = rw (visit-fitting e h) refl
  visit-fitting (unary deref_expr e t) h = rw (visit-fitting e h) refl
  visit-fitting (unary cast_expr e t) h = rw (visit-fitting e h) refl
  visit-fitting (ret_expr e t) h = rw (visit_maybe-fitting e h) refl
  visit-fitting (binary ashr_expr l r t) h = refl
  visit-fitting (binary lshr_expr l r t) h = refl
  visit-fitting (binary k l r t) h =
      ap₂ (λ x y. binary k x y t) (stays (sign_of k) l (visit-fitting l h.0) h.2)
        (stays (sign_of k) r (visit-fitting r h.1) h.3)
  visit-fitting e h = refl

  visit_maybe-fitting : (e : MaybeExpr) → OperandsMaybe Fits e → visit_maybe e ≡ e
  visit_maybe-fitting null h = refl
  visit_maybe-fitting (just e) h = rw (visit-fitting e h) refl

  visit_list-fitting : (es : Exprs) → OperandsList Fits es → visit_list es ≡ es
  visit_list-fitting nil h = refl
  visit_list-fitting (cons e es) h = rw (visit-fitting e h.0, visit_list-fitting es h.1) refl

-- Where every operand that needs a cast has a type with a partner, a second visit changes nothing.
pub visit_settled : (e : Expr) → Operands CanFit e → visit (visit e) ≡ visit e
visit_settled e h = visit-fitting (visit e) (visit-Fits e h)
