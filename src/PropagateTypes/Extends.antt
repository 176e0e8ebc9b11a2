-- ===== src/PropagateTypes/Extends.antt =====
-- How one step of the pass may change the types of variables, and that every step does so.
use llvm2c.Prelude.{
  ℕ, Bool, true, false, ◌≡◌, refl, ◌∙◌, ap, ◌⊎◌, inl, inr, ◌↔◌, Option, none, some, ◌∷◌,
  text_eq_iff, Bool-cases, Option-cases, if◌then◌else◌,
}
use llvm2c.Types.{pointer, array}
use llvm2c.Types.Kinds.{is_aggregate_type, is_struct_type}
use llvm2c.Exprs.{Expr, Exprs, TypeRef, UnaryKind, ref_expr, BinaryKind, assign_expr, cmp_expr}
use llvm2c.Arrowify.{Items}
use llvm2c.FuncState.{contains}
use llvm2c.PropagateTypes.State.{
  Object, local, global, PropagateState, same_object, find_refined, object_of, object_name, type_of,
}
use llvm2c.PropagateTypes.Steps.{
  is_call, refine, finish_binary, finish_unary, set_reference, set_shift, set_select, set_element,
  set_arrow, set_array, set_indices,
}

same_object_iff : (a b : Object) → (same_object a b ≡ true) ↔ (a ≡ b)
unfolding same_object
same_object_iff (local x) (local y) =
    (λ h. ap local ((text_eq_iff x y).0 h), λ h. (text_eq_iff x y).1 (cc))
same_object_iff (global x) (global y) =
    (λ h. ap global ((text_eq_iff x y).0 h), λ h. (text_eq_iff x y).1 (cc))
same_object_iff (local x) (global y) = (λ h. cc, λ h. cc)
same_object_iff (global x) (local y) = (λ h. cc, λ h. cc)

-- From the first state to the second, a changed type stays, and a new one is that of a variable that
-- was ready.
abbrev pub Extends : PropagateState → PropagateState → Type 0
Extends s s' =
    (s'.ready ≡ s.ready)
    × ((o : Object) (t : TypeRef)
        → find_refined o s.refined ≡ some t
        → find_refined o s'.refined ≡ some t)
    × ((o : Object) (t : TypeRef)
        → find_refined o s'.refined ≡ some t
        → (find_refined o s.refined ≡ some t)
          ⊎ ((find_refined o s.refined ≡ none) × (contains (object_name o) s.ready ≡ true)))

pub Extends-refl : (s : PropagateState) → Extends s s
Extends-refl s = (refl, λ o t h. h, λ o t h. inl h)

pub Extends-trans : (s s' s'' : PropagateState) → Extends s s' → Extends s' s'' → Extends s s''
Extends-trans s s' s'' (ready, kept, found) (ready', kept', found') =
    (ready' ∙ ready, λ o t h. kept' o t (kept o t h), λ o t h. back o t (found' o t h))
  where
    back :
        (o : Object) (t : TypeRef)
        → (find_refined o s'.refined ≡ some t)
          ⊎ ((find_refined o s'.refined ≡ none) × (contains (object_name o) s'.ready ≡ true))
        → (find_refined o s.refined ≡ some t)
          ⊎ ((find_refined o s.refined ≡ none) × (contains (object_name o) s.ready ≡ true))
    back o t (inl h) = found o t h
    back o t (inr (h, r)) = elim (Option-cases (find_refined o s.refined)) [
      | inl e ↦ inr (e, rw (← ready) r)
      | inr (t', e) ↦ cc (kept o t' e)
    ]

-- A variable without a changed type that is ready for one gets it.
pub add-Extends :
    (s : PropagateState) (o : Object) (t : TypeRef)
    → find_refined o s.refined ≡ none
    → contains (object_name o) s.ready ≡ true
    → Extends s (record s { refined = (o, t) ∷ s.refined })
unfolding find_refined
add-Extends s o t fresh ready = (refl, λ o' t' h. kept o' t' h, λ o' t' h. found o' t' h)
  where
    kept :
        (o' : Object) (t' : TypeRef)
        → find_refined o' s.refined ≡ some t'
        → (if same_object o o' then some t else find_refined o' s.refined) ≡ some t'
    kept o' t' h = elim (Bool-cases (same_object o o')) [
      | inl e ↦ cc ((same_object_iff o o').0 e)
      | inr e ↦ rw e h
    ]

    found :
        (o' : Object) (t' : TypeRef)
        → (if same_object o o' then some t else find_refined o' s.refined) ≡ some t'
        → (find_refined o' s.refined ≡ some t')
          ⊎ ((find_refined o' s.refined ≡ none) × (contains (object_name o') s.ready ≡ true))
    found o' t' h = elim (Bool-cases (same_object o o')) [
      | inl e ↦
          let same : o ≡ o' = (same_object_iff o o').0 e in
          inr (rw (← same) fresh, rw (← same) ready)
      | inr e ↦ inl (rw e at h)
    ]

pub refine-Extends : (l r : Expr) (s : PropagateState) → Extends s (refine l r s)
unfolding refine
refine-Extends l r s = elim (Bool-cases (is_call r)) [
  | inl c ↦ rw c (Extends-refl s)
  | inr c ↦ rw c (elim (Option-cases (object_of l)) [
    | inl none_o ↦ rw none_o (Extends-refl s)
    | inr (o, some_o) ↦ elim (Option-cases (find_refined o s.refined)) [
      | inr (t, known) ↦ rw (some_o, known) (Extends-refl s)
      | inl new ↦ elim (Bool-cases (contains (object_name o) s.ready)) [
        | inl ready ↦ rw (some_o, new, ready) (add-Extends s o (type_of s r) new ready)
        | inr unready ↦ rw (some_o, new, unready) (Extends-refl s)
      ]
    ]
  ])
]

pub reference-Extends :
    (e : Expr) (t : TypeRef) (s : PropagateState) (o : TypeRef)
    → Extends s (set_reference e t s o).1
unfolding set_reference
reference-Extends e t s none = Extends-refl s
reference-Extends e t s (some _) = Extends-refl s

pub unary-Extends :
    (k : UnaryKind) (e : Expr) (t : TypeRef) (s : PropagateState)
    → Extends s (finish_unary k e t s).1
unfolding finish_unary
unary-Extends ref_expr e t s = reference-Extends e t s (type_of s e)
unary-Extends _ e t s = Extends-refl s

pub binary-Extends :
    (k : BinaryKind) (l r : Expr) (t : TypeRef) (s : PropagateState)
    → Extends s (finish_binary k l r t s).1
unfolding finish_binary
binary-Extends assign_expr l r t s = refine-Extends l r s
binary-Extends (cmp_expr op u) l r t s = Extends-refl s
binary-Extends _ l r t s = Extends-refl s

pub shift-Extends :
    (pt : TypeRef) (p move : Expr) (t : TypeRef) (s : PropagateState) (o : TypeRef)
    → Extends s (set_shift pt p move t s o).1
unfolding set_shift
shift-Extends pt p move t s none = Extends-refl s
shift-Extends pt p move t s (some (pointer _ _ _)) = Extends-refl s
shift-Extends pt p move t s (some _) = Extends-refl s

pub select-Extends :
    (l r c : Expr) (negate : Bool) (t : TypeRef) (s : PropagateState) (own left : Option Bool)
    → Extends s (set_select l r c negate t s own left).1
unfolding set_select
select-Extends l r c negate t s none left = Extends-refl s
select-Extends l r c negate t s (some _) none = Extends-refl s
select-Extends l r c negate t s (some _) (some true) = Extends-refl s
select-Extends l r c negate t s (some _) (some false) = Extends-refl s

pub element-Extends :
    (items : Items) (e : Expr) (n : ℕ) (t : TypeRef) (s : PropagateState) (o : TypeRef)
    → Extends s (set_element items e n t s o).1
unfolding set_element
element-Extends items e n t s none = Extends-refl s
element-Extends items e n t s (some a) = elim (Bool-cases (is_aggregate_type a)) [
  | inl b ↦ rw b (Extends-refl s)
  | inr b ↦ rw b (Extends-refl s)
]

pub arrow-Extends :
    (items : Items) (e : Expr) (n : ℕ) (t : TypeRef) (s : PropagateState) (o : TypeRef)
    → Extends s (set_arrow items e n t s o).1
unfolding set_arrow
arrow-Extends items e n t s none = Extends-refl s
arrow-Extends items e n t s (some a) = elim (Bool-cases (is_struct_type a)) [
  | inl b ↦ rw b (Extends-refl s)
  | inr b ↦ rw b (Extends-refl s)
]

pub array-Extends :
    (e i : Expr) (t : TypeRef) (s : PropagateState) (o : TypeRef)
    → Extends s (set_array e i t s o).1
unfolding set_array
array-Extends e i t s (some (array _ _ _ _)) = Extends-refl s
array-Extends e i t s _ = Extends-refl s

pub indices-Extends :
    (made : Exprs → TypeRef → Expr) (es : Exprs) (t : TypeRef) (s : PropagateState)
    (o : Option TypeRef)
    → Extends s (set_indices made es t s o).1
unfolding set_indices
indices-Extends made es t s none = Extends-refl s
indices-Extends made es t s (some _) = Extends-refl s
