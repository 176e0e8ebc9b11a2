-- ===== src/PropagateTypes/Ready.antt =====
-- Which variables are ready for a change of their type: the set is never emptied.
use llvm2c.Prelude.{
  true, false, ◌≡◌, refl, ◌∙◌, List, [], ◌∷◌, Text, text_eq, text_eq_iff, Bool-cases, or_right, inl,
  inr, if◌then◌else◌,
}
use llvm2c.Exprs.{Expr}
use llvm2c.Arrowify.{Items}
use llvm2c.FuncState.{contains}
use llvm2c.PropagateTypes.State.{PropagateState}
use llvm2c.PropagateTypes.{FunctionCode, collect_ready, enter_function, visit_block, visit_blocks}
use llvm2c.PropagateTypes.Growth.{visit_block-Extends}

-- The set after one variable.
abbrev step : List Text → List Text → Text → List Text → List Text
step metadata parameters var ready =
    if contains var parameters
    then ready
    else (if contains var metadata then ready else var ∷ ready)

contains-step :
    (metadata parameters : List Text) (var name : Text) (ready : List Text)
    → contains name ready ≡ true
    → contains name (step metadata parameters var ready) ≡ true
unfolding contains
contains-step metadata parameters var name ready h = elim (Bool-cases (contains var parameters)) [
  | inl p ↦ rw p h
  | inr p ↦ elim (Bool-cases (contains var metadata)) [
    | inl m ↦ rw (p, m) h
    | inr m ↦ rw (p, m, h) (or_right (text_eq var name) true refl)
  ]
]

collect_ready-keeps :
    (metadata parameters vars : List Text) (name : Text) (ready : List Text)
    → contains name ready ≡ true
    → contains name (collect_ready metadata parameters vars ready) ≡ true
unfolding collect_ready
collect_ready-keeps metadata parameters [] name ready h = h
collect_ready-keeps metadata parameters (var ∷ vars) name ready h =
    collect_ready-keeps metadata parameters vars name (step metadata parameters var ready)
      (contains-step metadata parameters var name ready h)

collect_ready-adds :
    (metadata parameters vars : List Text) (name : Text) (ready : List Text)
    → contains name vars ≡ true
    → contains name parameters ≡ false
    → contains name metadata ≡ false
    → contains name (collect_ready metadata parameters vars ready) ≡ true
unfolding collect_ready contains
collect_ready-adds metadata parameters [] name ready h p m = cc
collect_ready-adds metadata parameters (var ∷ vars) name ready h p m =
    elim (Bool-cases (text_eq var name)) [
      | inl e ↦
          let same : var ≡ name = (text_eq_iff var name).0 e in
          collect_ready-keeps metadata parameters vars name (step metadata parameters var ready)
            (rw (same, p, m, (text_eq_iff name name).1 refl) refl)
      | inr e ↦
          collect_ready-adds metadata parameters vars name (step metadata parameters var ready)
            (rw e at h) p m
    ]

module _ (items : Items) where
  ready-visit_blocks :
      (s : PropagateState) (bs : List (List Expr)) → (visit_blocks items s bs).1.ready ≡ s.ready
  unfolding visit_blocks
  ready-visit_blocks s [] = refl
  ready-visit_blocks s (b ∷ bs) =
      ready-visit_blocks (visit_block items s b).1 bs ∙ (visit_block-Extends items s b).0

  -- A variable of one function that is neither a parameter of that function nor in the metadata is
  -- still ready for a change of its type in the next function, so a variable of that name is, even
  -- if it is a parameter there.
  pub ready_across_functions :
      (metadata : List Text) (f g : FunctionCode) (s : PropagateState) (name : Text)
      → contains name f.variables ≡ true
      → contains name f.parameters ≡ false
      → contains name metadata ≡ false
      → contains name
          (enter_function metadata g
            (visit_blocks items (enter_function metadata f s) f.blocks).1).ready
        ≡ true
  unfolding enter_function
  ready_across_functions metadata f g s name h p m =
      collect_ready-keeps metadata g.parameters g.variables name _ (
        rw (ready-visit_blocks (enter_function metadata f s) f.blocks)
          (collect_ready-adds metadata f.parameters f.variables name s.ready h p m))
