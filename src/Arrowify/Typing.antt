-- ===== src/Arrowify/Typing.antt =====
-- refDeref and arrowify, one after the other, keep the types of expressions right.
use llvm2c.Prelude.{
  Option, true, Option-cases, inl, inr, All, map, Bool, subst, ℕ, none, some, List, [], ◌∷◌, ◌≡◌,
  refl, sym, ◌∙◌, ap, Text,
}
use llvm2c.Types.{
  CType, pointer, make_pointer, array, function_pointer, struct_of, union_of, void, integer,
  floating,
}
use llvm2c.Exprs.{
  Expr, MaybeExpr, null, just, Exprs, nil, cons, Cases, no_case, case, Operands, no_operand,
  operand, Label, value, global_value, goto_expr, latch_expr, stack_alloc, arrow_expr,
  array_element, extract_value, gep_expr, aggregate_initializer, if_expr, switch_expr, asm_expr,
  call_expr, pointer_shift, select_expr, ret_expr, binary, logical_and, logical_or, expr_list,
  do_while, TypeRef, get_type, aggregate_element, unary, ref_expr, deref_expr,
}
use llvm2c.Visitor.{Code}
use llvm2c.Visitor.Meaning.{
  meaning, meaning_maybe, meanings, meaning_cases, meaning_operands, Shape, of_aggregate_element,
  of_arrow, of_unary,
}
use llvm2c.Visitor.Typing.{
  c_type, c_type_ref, type_of, IsTyped, MaybeTyped, AreTyped, CasesTyped, OperandsTyped, CodeTyped,
  KeepsTypes, CodeTyped-run_visitor,
}
use llvm2c.RefDeref
use llvm2c.RefDeref.{ref_deref}
use llvm2c.Arrowify
use llvm2c.Arrowify.{
  Items, arrow_type, make_arrow, arrowify, assertions, all_hold, maybe_holds, shape_holds,
  code_holds,
}

-- The C type of pointers to a type.
abbrev pub pointer_to_ref : TypeRef → TypeRef
pointer_to_ref none = none
pointer_to_ref (some t) = some (make_pointer 0 t)

-- What a rule on types has to say of `&e`, `*e`, `e.f` and `e->f`, as in C: `&e` has the type of
-- pointers to the type of `e`, the type of `e` is that of pointers to the type of `*e`, `e.f` has the
-- type of the item of a struct `e`, and `e->f` may have that of the item of the struct that `e`
-- points to; no item has no type.
pub record IsTypeRule (items : Items) (Rule : Shape → List TypeRef → Type 0) : Type 0 where
  pub ref_type :
      (t v : TypeRef) → Rule (of_unary ref_expr t) (v ∷ []) → c_type_ref t ≡ pointer_to_ref v
  pub deref_type :
      (t v : TypeRef) → Rule (of_unary deref_expr t) (v ∷ []) → v ≡ pointer_to_ref (c_type_ref t)
  pub item_type :
      (n : ℕ) (t v : TypeRef)
      → Rule (of_aggregate_element n t) (v ∷ [])
      → (addr : ℕ) × (name : Text) × (v ≡ some (struct_of addr name))
        × (c_type_ref t ≡ c_type_ref (items (struct_of addr name) n))
  pub item_exists : (n : ℕ) (v : TypeRef) → Rule (of_aggregate_element n none) (v ∷ []) → ⊥
  pub arrow_exists : (n : ℕ) (vs : List TypeRef) → Rule (of_arrow n none) vs → ⊥
  pub arrow_rule :
      (n : ℕ) (t : CType) (addr : ℕ) (name : Text)
      → c_type_ref (some t) ≡ c_type_ref (items (struct_of addr name) n)
      → Rule (of_arrow n (some t)) (some (make_pointer 0 (struct_of addr name)) ∷ [])

pointed : TypeRef → TypeRef
pointed (some (pointer _ t _)) = some t
pointed _ = none

pointer_to_ref_injective : (a b : TypeRef) → pointer_to_ref a ≡ pointer_to_ref b → a ≡ b
unfolding pointed make_pointer
pointer_to_ref_injective none none h = refl
pointer_to_ref_injective none (some b) h = cc
pointer_to_ref_injective (some a) none h = cc
pointer_to_ref_injective (some a) (some b) h = ap pointed h

module _ (items : Items) (Rule : Shape → List TypeRef → Type 0) (rule : IsTypeRule items Rule) where
  ref_deref-KeepsTypes : KeepsTypes Rule RefDeref.simplify
  unfolding RefDeref.simplify IsTyped type_of
  ref_deref-KeepsTypes (unary ref_expr (unary deref_expr e t') t) (r, (r', h)) =
      (h, rule.deref_type t' (type_of e) r' ∙ sym (rule.ref_type t (c_type_ref t') r))
  ref_deref-KeepsTypes (unary deref_expr (unary ref_expr e t') t) (r, (r', h)) = (
    h,
    pointer_to_ref_injective (type_of e) (c_type_ref t)
        (sym (rule.ref_type t' (type_of e) r') ∙ rule.deref_type t (c_type_ref t') r),
  )
  ref_deref-KeepsTypes e h = (h, refl)

  -- The type that ArrowExpr's constructor sets, where it finds a pointer to a struct.
  arrow_type-pointer :
      (t : TypeRef) (n addr : ℕ) (name : Text)
      → c_type_ref t ≡ some (make_pointer 0 (struct_of addr name))
      → arrow_type items t n ≡ items (struct_of addr name) n
  unfolding arrow_type c_type make_pointer pointed
  arrow_type-pointer none n addr name h = cc
  arrow_type-pointer (some (pointer _ (struct_of _ _) _)) n addr name h =
      ap (λ u. elim u [ none ↦ none | some s ↦ items s n ]) (ap pointed h)
  arrow_type-pointer (some (pointer _ (pointer _ _ _) _)) n addr name h = cc
  arrow_type-pointer (some (pointer _ (array _ _ _ _) _)) n addr name h = cc
  arrow_type-pointer (some (pointer _ (function_pointer _ _ _ _) _)) n addr name h = cc
  arrow_type-pointer (some (pointer _ (union_of _ _) _)) n addr name h = cc
  arrow_type-pointer (some (pointer _ (void _) _)) n addr name h = cc
  arrow_type-pointer (some (pointer _ (integer _ _ _) _)) n addr name h = cc
  arrow_type-pointer (some (pointer _ (floating _ _) _)) n addr name h = cc
  arrow_type-pointer (some (array _ _ _ _)) n addr name h = cc
  arrow_type-pointer (some (function_pointer _ _ _ _)) n addr name h = cc
  arrow_type-pointer (some (struct_of _ _)) n addr name h = cc
  arrow_type-pointer (some (union_of _ _)) n addr name h = cc
  arrow_type-pointer (some (void _)) n addr name h = cc
  arrow_type-pointer (some (integer _ _ _)) n addr name h = cc
  arrow_type-pointer (some (floating _ _)) n addr name h = cc

  found_item :
      (n addr : ℕ) (name : Text) (t : TypeRef)
      → (t ≡ none → ⊥)
      → c_type_ref t ≡ c_type_ref (items (struct_of addr name) n)
      → (u : CType) × (items (struct_of addr name) n ≡ some u)
  found_item n addr name none exists h = absurd (exists refl)
  found_item n addr name (some t) exists h = elim (Option-cases (items (struct_of addr name) n)) [
    | inl e ↦ cc (rw e at h)
    | inr (u, e) ↦ (u, e)
  ]

  arrowify-KeepsTypes : KeepsTypes Rule (Arrowify.simplify items)
  unfolding Arrowify.simplify IsTyped type_of make_arrow
  arrowify-KeepsTypes (aggregate_element (unary deref_expr e t') n t) (r, (r', h)) =
      let (addr, name, struct, same) = rule.item_type n t (c_type_ref t') r in
      let at : type_of e ≡ some (make_pointer 0 (struct_of addr name)) =
        rule.deref_type t' (type_of e) r' ∙ ap pointer_to_ref struct in
      let (u, item) =
        found_item n addr name t
          (λ missing.
            rule.item_exists n (c_type_ref t')
              (subst (λ x. Rule (of_aggregate_element n x) (c_type_ref t' ∷ [])) missing r))
          same in
      let found = arrow_type-pointer (get_type e) n addr name at ∙ item in
      (
        (rw (at, found) (rule.arrow_rule n u addr name (sym (ap c_type_ref item))), h),
        rw found (sym (same ∙ ap c_type_ref item)),
      )
  arrowify-KeepsTypes e h = (h, refl)

  -- In what is typed no assertion has failed.
  mutual
    unfolding meaning IsTyped shape_holds

    holds : (e : Expr) → IsTyped Rule e → meaning assertions e ≡ true
    holds (value _ _) h = refl
    holds (global_value _ _) h = refl
    holds (goto_expr _) h = refl
    holds (latch_expr _ _) h = refl
    holds (stack_alloc _ _ _) h = refl
    holds (aggregate_element e n t) (r, h) = rw (holds e h) refl
    holds (arrow_expr e n none) (r, h) = absurd (rule.arrow_exists n _ r)
    holds (arrow_expr e n (some t)) (r, h) = rw (holds e h) refl
    holds (array_element e i t) (r, h, k) = rw (holds e h, holds i k) refl
    holds (extract_value es t) (r, h) = holds_list es h
    holds (gep_expr es t) (r, h) = holds_list es h
    holds (aggregate_initializer es t) (r, h) = holds_list es h
    holds (if_expr c a b) (r, h, k, l) = rw (holds c h, holds a k, holds b l) refl
    holds (switch_expr c d cases) (h, k, l) = rw (holds c h, holds d k) (holds_cases cases l)
    holds (asm_expr _ output input _) (h, k) = rw (holds_operands output h) (holds_operands input k)
    holds (call_expr f name es t) (h, k) = rw (holds_maybe f h) (holds_list es k)
    holds (pointer_shift pt p move t) (r, h, k) = rw (holds p h, holds move k) refl
    holds (select_expr l r c negate t) (q, h, k, o) = rw (holds l h, holds r k, holds c o) refl
    holds (unary k e t) (r, h) = rw (holds e h) refl
    holds (ret_expr e t) h = holds_maybe e h
    holds (binary k x y t) (r, h, l) = rw (holds x h, holds y l) refl
    holds (logical_and x y t) (r, h, l) = rw (holds x h, holds y l) refl
    holds (logical_or x y t) (r, h, l) = rw (holds x h, holds y l) refl
    holds (expr_list es) (r, h) = holds_list es h
    holds (do_while x c negate) (r, h, l) = rw (holds x h, holds c l) refl

    holds_maybe :
        (e : MaybeExpr) → MaybeTyped Rule e → maybe_holds (meaning_maybe assertions e) ≡ true
    holds_maybe null h = refl
    holds_maybe (just e) h = holds e h

    holds_list : (es : Exprs) → AreTyped Rule es → all_hold (meanings assertions es) ≡ true
    holds_list nil h = refl
    holds_list (cons e es) (h, k) = rw (holds e h) (holds_list es k)

    holds_cases :
        (cases : Cases)
        → CasesTyped Rule cases
        → all_hold (map (λ (p : Label × Bool). p.1) (meaning_cases assertions cases)) ≡ true
    holds_cases no_case h = refl
    holds_cases (case _ e cases) (h, k) = rw (holds e h) (holds_cases cases k)

    holds_operands :
        (ops : Operands)
        → OperandsTyped Rule ops
        → all_hold
            (map (λ (p : Text × Option Bool). maybe_holds p.1) (meaning_operands assertions ops))
          ≡ true
    holds_operands no_operand h = refl
    holds_operands (operand _ e ops) (h, k) = rw (holds_maybe e h) (holds_operands ops k)

  all_hold-map :
      {A : Type 0} (P : A → Type 0) (f : A → Bool)
      → ((a : A) → P a → f a ≡ true)
      → (xs : List A) → All P xs
      → all_hold (map f xs) ≡ true
  all_hold-map P f h [] k = refl
  all_hold-map P f h (x ∷ xs) (k, l) = rw (h x k) (all_hold-map P f h xs l)

  code_holds-CodeTyped : (code : Code) → CodeTyped Rule code → code_holds code ≡ true
  unfolding code_holds
  code_holds-CodeTyped =
      all_hold-map (All (All (IsTyped Rule))) _
        (all_hold-map (All (IsTyped Rule)) _ (all_hold-map (IsTyped Rule) _ holds))

  -- Where each expression of the module has the type that a rule in the manner of C gives it from
  -- the types of its operands, pointer types being compared by what they point to, this is so after
  -- refDeref; then arrowify fails no assertion, and it is so for what arrowify makes.
  pub CodeTyped-arrowify-ref_deref :
      (code : Code)
      → CodeTyped Rule code
      → (made : Code) × (arrowify items (ref_deref code) ≡ some made)
        × CodeTyped Rule (ref_deref code)
        × CodeTyped Rule made
  unfolding ref_deref arrowify
  CodeTyped-arrowify-ref_deref code h =
      let first = CodeTyped-run_visitor Rule RefDeref.simplify ref_deref-KeepsTypes code h in
      let second =
        CodeTyped-run_visitor Rule (Arrowify.simplify items) arrowify-KeepsTypes (ref_deref code)
          first in
      (_, rw (code_holds-CodeTyped _ second) refl, first, second)
