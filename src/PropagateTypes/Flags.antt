-- ===== src/PropagateTypes/Flags.antt =====
-- After the pass, the signedness of every arithmetic operation that it visits is that of its type.
use llvm2c.Prelude.{
  ℕ, true, false, Bool, ◌≡◌, Option, none, some, List, [], ◌∷◌, All, Bool-cases, inl, inr,
}
use llvm2c.Types.{pointer, array}
use llvm2c.Types.Kinds.{is_aggregate_type, is_struct_type, integer_signedness}
use llvm2c.Exprs.{
  Expr, MaybeExpr, Exprs, Cases, Operands, TypeRef, value, aggregate_element, arrow_expr,
  array_element, extract_value, gep_expr, if_expr, switch_expr, asm_expr, call_expr, pointer_shift,
  select_expr, unary, UnaryKind, ref_expr, ret_expr, binary, BinaryKind, add_expr, sub_expr,
  mul_expr, div_expr, rem_expr, assign_expr, cmp_expr, logical_and, logical_or, expr_list, do_while,
  null, just, nil, cons, no_case, case, no_operand, operand, pointed_by,
}
use llvm2c.Arrowify.{Items}
use llvm2c.PropagateTypes.State.{PropagateState, type_of}
use llvm2c.PropagateTypes.Steps.{
  ref_signedness, with_flag, first_type, updated, finish_binary, finish_unary, set_reference,
  set_shift, set_select, set_element, set_arrow, set_array, set_indices,
}
use llvm2c.PropagateTypes.{visit, visit_maybe, visit_list, visit_cases, visit_operands, visit_block}

-- If the type is an integer type, the flag says whether it is unsigned.
abbrev pub FlagFits : Bool → TypeRef → Type 0
FlagFits u t = (v : Bool) → ref_signedness t ≡ some v → u ≡ v

abbrev pub KindFits : BinaryKind → TypeRef → Type 0
KindFits (add_expr u) t = FlagFits u t
KindFits (sub_expr u) t = FlagFits u t
KindFits (mul_expr u) t = FlagFits u t
KindFits (div_expr u) t = FlagFits u t
KindFits (rem_expr u) t = FlagFits u t
KindFits _ t = Unit

-- Every +, -, *, / and % in the expression has the signedness of its type, but for those in the
-- branches of an IfExpr and in aggregate initializers, which the pass does not visit.
unfoldable mutual
  unfolding integer_signedness

  pub FlagsFit : Expr → Type 0
  FlagsFit (aggregate_element e _ _) = FlagsFit e
  FlagsFit (arrow_expr e _ _) = FlagsFit e
  FlagsFit (array_element e i _) = FlagsFit e × FlagsFit i
  FlagsFit (extract_value es _) = ListFits es
  FlagsFit (gep_expr es _) = ListFits es
  FlagsFit (if_expr c _ _) = FlagsFit c
  FlagsFit (switch_expr c d cases) = FlagsFit c × FlagsFit d × CasesFit cases
  FlagsFit (asm_expr _ output input _) = OperandsFit output × OperandsFit input
  FlagsFit (call_expr f _ es _) = MaybeFits f × ListFits es
  FlagsFit (pointer_shift _ p move _) = FlagsFit p × FlagsFit move
  FlagsFit (select_expr l r c _ _) = FlagsFit l × FlagsFit r × FlagsFit c
  FlagsFit (unary _ e _) = FlagsFit e
  FlagsFit (ret_expr e _) = MaybeFits e
  FlagsFit (binary k l r t) = FlagsFit l × FlagsFit r × KindFits k t
  FlagsFit (logical_and l r _) = FlagsFit l × FlagsFit r
  FlagsFit (logical_or l r _) = FlagsFit l × FlagsFit r
  FlagsFit (expr_list es) = ListFits es
  FlagsFit (do_while body cond _) = FlagsFit body × FlagsFit cond
  FlagsFit _ = Unit

  pub MaybeFits : MaybeExpr → Type 0
  MaybeFits null = Unit
  MaybeFits (just e) = FlagsFit e

  pub ListFits : Exprs → Type 0
  ListFits nil = Unit
  ListFits (cons e es) = FlagsFit e × ListFits es

  pub CasesFit : Cases → Type 0
  CasesFit no_case = Unit
  CasesFit (case _ e cases) = FlagsFit e × CasesFit cases

  pub OperandsFit : Operands → Type 0
  OperandsFit no_operand = Unit
  OperandsFit (operand _ e ops) = MaybeFits e × OperandsFit ops

updated-FlagFits : (u : Bool) (t : TypeRef) → FlagFits (updated u t) t
updated-FlagFits u none v h = cc
updated-FlagFits u (some t) v h = rw (h, updated)

with_flag-KindFits : (k : BinaryKind) (t : TypeRef) → KindFits (with_flag k t) t
with_flag-KindFits (add_expr u) t = updated-FlagFits u t
with_flag-KindFits (sub_expr u) t = updated-FlagFits u t
with_flag-KindFits (mul_expr u) t = updated-FlagFits u t
with_flag-KindFits (div_expr u) t = updated-FlagFits u t
with_flag-KindFits (rem_expr u) t = updated-FlagFits u t
with_flag-KindFits _ t = tt

binary-FlagsFit :
    (k : BinaryKind) (l r : Expr) (t : TypeRef) (s : PropagateState)
    → FlagsFit l
    → FlagsFit r
    → FlagsFit (finish_binary k l r t s).0
unfolding finish_binary FlagsFit
binary-FlagsFit assign_expr l r t s hl hr = (hl, hr, tt)
binary-FlagsFit (cmp_expr op u) l r t s hl hr = (hl, hr, tt)
binary-FlagsFit k l r t s hl hr =
    (hl, hr, with_flag-KindFits k (first_type (type_of s l) (type_of s r)))

reference-FlagsFit :
    (e : Expr) (t : TypeRef) (s : PropagateState) (o : TypeRef)
    → FlagsFit e
    → FlagsFit (set_reference e t s o).0
unfolding set_reference FlagsFit
reference-FlagsFit e t s none h = h
reference-FlagsFit e t s (some _) h = h

unary-FlagsFit :
    (k : UnaryKind) (e : Expr) (t : TypeRef) (s : PropagateState)
    → FlagsFit e
    → FlagsFit (finish_unary k e t s).0
unfolding finish_unary FlagsFit
unary-FlagsFit ref_expr e t s h = reference-FlagsFit e t s (type_of s e) h
unary-FlagsFit _ e t s h = h

shift-FlagsFit :
    (pt : TypeRef) (p move : Expr) (t : TypeRef) (s : PropagateState) (o : TypeRef)
    → FlagsFit p
    → FlagsFit move
    → FlagsFit (set_shift pt p move t s o).0
unfolding set_shift FlagsFit
shift-FlagsFit pt p move t s none hp hm = (hp, hm)
shift-FlagsFit pt p move t s (some (pointer _ _ _)) hp hm = (hp, hm)
shift-FlagsFit pt p move t s (some _) hp hm = (hp, hm)

select-FlagsFit :
    (l r c : Expr) (negate : Bool) (t : TypeRef) (s : PropagateState) (own left : Option Bool)
    → FlagsFit l
    → FlagsFit r
    → FlagsFit c
    → FlagsFit (set_select l r c negate t s own left).0
unfolding set_select FlagsFit
select-FlagsFit l r c negate t s none left hl hr hc = (hl, hr, hc)
select-FlagsFit l r c negate t s (some _) none hl hr hc = (hl, hr, hc)
select-FlagsFit l r c negate t s (some _) (some true) hl hr hc = (hl, hr, hc)
select-FlagsFit l r c negate t s (some _) (some false) hl hr hc = (hl, hr, hc)

element-FlagsFit :
    (items : Items) (e : Expr) (n : ℕ) (t : TypeRef) (s : PropagateState) (o : TypeRef)
    → FlagsFit e
    → FlagsFit (set_element items e n t s o).0
unfolding set_element FlagsFit
element-FlagsFit items e n t s none h = h
element-FlagsFit items e n t s (some a) h = elim (Bool-cases (is_aggregate_type a)) [
  | inl b ↦ rw b h
  | inr b ↦ rw b h
]

arrow-FlagsFit :
    (items : Items) (e : Expr) (n : ℕ) (t : TypeRef) (s : PropagateState) (o : TypeRef)
    → FlagsFit e
    → FlagsFit (set_arrow items e n t s o).0
unfolding set_arrow FlagsFit
arrow-FlagsFit items e n t s none h = h
arrow-FlagsFit items e n t s (some a) h = elim (Bool-cases (is_struct_type a)) [
  | inl b ↦ rw b h
  | inr b ↦ rw b h
]

array-FlagsFit :
    (e i : Expr) (t : TypeRef) (s : PropagateState) (o : TypeRef)
    → FlagsFit e
    → FlagsFit i
    → FlagsFit (set_array e i t s o).0
unfolding set_array FlagsFit
array-FlagsFit e i t s (some (array _ _ _ _)) he hi = (he, hi)
array-FlagsFit e i t s _ he hi = (he, hi)

extract-FlagsFit :
    (es : Exprs) (t : TypeRef) (s : PropagateState) (o : Option TypeRef)
    → ListFits es
    → FlagsFit (set_indices extract_value es t s o).0
unfolding set_indices FlagsFit
extract-FlagsFit es t s none h = h
extract-FlagsFit es t s (some _) h = h

gep-FlagsFit :
    (es : Exprs) (t : TypeRef) (s : PropagateState) (o : Option TypeRef)
    → ListFits es
    → FlagsFit (set_indices gep_expr es t s o).0
unfolding set_indices FlagsFit
gep-FlagsFit es t s none h = h
gep-FlagsFit es t s (some _) h = h

module _ (items : Items) where
  mutual
    unfolding visit FlagsFit

    visit-FlagsFit : (s : PropagateState) (e : Expr) → FlagsFit (visit items s e).0
    visit-FlagsFit s (value _ _) = tt
    visit-FlagsFit s (aggregate_element e n t) =
        let v = visit items s e in
        element-FlagsFit items v.0 n t v.1 (type_of v.1 v.0) (visit-FlagsFit s e)
    visit-FlagsFit s (arrow_expr e n t) =
        let v = visit items s e in
        arrow-FlagsFit items v.0 n t v.1 (pointed_by (type_of v.1 v.0)) (visit-FlagsFit s e)
    visit-FlagsFit s (array_element e i t) =
        array-FlagsFit _ _ t _ _ (visit-FlagsFit s e) (visit-FlagsFit _ i)
    visit-FlagsFit s (extract_value es t) = extract-FlagsFit _ t _ _ (list-FlagsFit s es)
    visit-FlagsFit s (gep_expr es t) = gep-FlagsFit _ t _ _ (list-FlagsFit s es)
    visit-FlagsFit s (if_expr c _ _) = visit-FlagsFit s c
    visit-FlagsFit s (switch_expr c d cases) =
        (visit-FlagsFit s c, visit-FlagsFit _ d, cases-FlagsFit _ cases)
    visit-FlagsFit s (asm_expr _ output input _) =
        (operands-FlagsFit s output, operands-FlagsFit _ input)
    visit-FlagsFit s (call_expr f _ es _) = (maybe-FlagsFit s f, list-FlagsFit _ es)
    visit-FlagsFit s (pointer_shift pt p move t) =
        shift-FlagsFit pt _ _ t _ _ (visit-FlagsFit s p) (visit-FlagsFit _ move)
    visit-FlagsFit s (select_expr l r c negate t) =
        select-FlagsFit _ _ _ negate t _ _ _ (visit-FlagsFit s l) (visit-FlagsFit _ r)
          (visit-FlagsFit _ c)
    visit-FlagsFit s (unary k e t) = unary-FlagsFit k _ t _ (visit-FlagsFit s e)
    visit-FlagsFit s (ret_expr null _) = tt
    visit-FlagsFit s (ret_expr (just e) _) = visit-FlagsFit s e
    visit-FlagsFit s (binary k l r t) =
        binary-FlagsFit k _ _ t _ (visit-FlagsFit s l) (visit-FlagsFit _ r)
    visit-FlagsFit s (logical_and l r _) = (visit-FlagsFit s l, visit-FlagsFit _ r)
    visit-FlagsFit s (logical_or l r _) = (visit-FlagsFit s l, visit-FlagsFit _ r)
    visit-FlagsFit s (expr_list es) = list-FlagsFit s es
    visit-FlagsFit s (do_while body cond _) = (visit-FlagsFit _ body, visit-FlagsFit s cond)
    visit-FlagsFit s _ = tt

    maybe-FlagsFit : (s : PropagateState) (e : MaybeExpr) → MaybeFits (visit_maybe items s e).0
    maybe-FlagsFit s null = tt
    maybe-FlagsFit s (just e) = visit-FlagsFit s e

    list-FlagsFit : (s : PropagateState) (es : Exprs) → ListFits (visit_list items s es).0
    list-FlagsFit s nil = tt
    list-FlagsFit s (cons e es) = (visit-FlagsFit s e, list-FlagsFit _ es)

    cases-FlagsFit : (s : PropagateState) (cs : Cases) → CasesFit (visit_cases items s cs).0
    cases-FlagsFit s no_case = tt
    cases-FlagsFit s (case _ e cs) = (visit-FlagsFit s e, cases-FlagsFit _ cs)

    operands-FlagsFit :
        (s : PropagateState) (ops : Operands) → OperandsFit (visit_operands items s ops).0
    operands-FlagsFit s no_operand = tt
    operands-FlagsFit s (operand _ e ops) = (maybe-FlagsFit s e, operands-FlagsFit _ ops)

  -- After the pass has visited the expressions of a block, each +, -, *, / and % in them whose type
  -- is an integer type has the signedness of that type, whatever it had before; those in the branches
  -- of an IfExpr and in aggregate initializers, which the pass does not visit, are left out.
  pub visit_block-FlagsFit :
      (s : PropagateState) (es : List Expr) → All FlagsFit (visit_block items s es).0
  unfolding visit_block
  visit_block-FlagsFit s [] = tt
  visit_block-FlagsFit s (e ∷ es) =
      (visit-FlagsFit s e, visit_block-FlagsFit (visit items s e).1 es)
