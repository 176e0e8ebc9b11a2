-- ===== src/Allocas/Extract.antt =====
-- extractVars takes exactly the allocations that are no VLA's out of a block.
use llvm2c.Prelude.{
  ℕ, ◌≡◌, ◌≢◌, refl, ap, ◌∙◌, none, some, List, [], ◌∷◌, ◌++◌, append_assoc, append-nil,
  Option-cases, Bool-cases, true, sym, subst, some_injective, Text, inl, inr, All, ==_iff, arith,
}
use llvm2c.Memcpy.{Statement}
use llvm2c.Types.{CType, array, ArrayFields}
use llvm2c.Exprs.{Expr, TypeRef, stack_alloc}
use llvm2c.Allocas.{
  has_dynamic_size, Variable, delete_expr_from_block, moved_variable, find_allocas, move_each,
  extract_vars,
}

-- No two expressions of the block have one address.
abbrev pub HasDistinct : List Statement → Type 0
HasDistinct [] = Unit
HasDistinct (s ∷ rest) = All (λ t. t.0 ≢ s.0) rest × HasDistinct rest

-- The block without the allocations that are moved, and their variables.
abbrev kept : List Statement → List Statement
kept [] = []
kept ((a, e) ∷ rest) = elim (moved_variable e) [ none ↦ (a, e) ∷ kept rest | some _ ↦ kept rest ]

abbrev moved : List Statement → List Variable
moved [] = []
moved ((a, e) ∷ rest) = elim (moved_variable e) [ none ↦ moved rest | some v ↦ v ∷ moved rest ]

find_allocas-avoid :
    (s : Statement) (rest : List Statement)
    → All (λ t. t.0 ≢ s.0) rest
    → All (λ p. p.0 ≢ s.0) (find_allocas rest)
unfolding find_allocas
find_allocas-avoid s [] h = tt
find_allocas-avoid s ((a, e) ∷ rest) h = elim (Option-cases (moved_variable e)) [
  | inl o ↦ rw (o, find_allocas) (find_allocas-avoid s rest h.1)
  | inr (v, o) ↦ rw (o, find_allocas) (h.0, find_allocas-avoid s rest h.1)
]

pub delete_self :
    (s : Statement) (rest : List Statement) → delete_expr_from_block s.0 (s ∷ rest) ≡ rest
unfolding delete_expr_from_block
delete_self s rest = rw ((==_iff s.0 s.0).1 refl)

pub delete-other :
    (a : ℕ) (s : Statement) (rest : List Statement)
    → a ≢ s.0
    → delete_expr_from_block a (s ∷ rest) ≡ s ∷ delete_expr_from_block a rest
unfolding delete_expr_from_block
delete-other a s rest ne = ground arith

-- An expression at another address stays in front.
move_each-other :
    (found : List (ℕ × Variable)) (s : Statement) (block : List Statement) (vs : List Variable)
    → All (λ p. p.0 ≢ s.0) found
    → move_each found (s ∷ block) vs
      ≡ (s ∷ (move_each found block vs).0, (move_each found block vs).1)
unfolding move_each
move_each-other [] s block vs h = refl
move_each-other ((a, v) ∷ found) s block vs h =
    rw (delete-other a s block h.0)
      (move_each-other found s (delete_expr_from_block a block) (vs ++ v ∷ []) h.1)

move_kept :
    (s : Statement) (rest : List Statement) (vs : List Variable)
    → moved_variable s.1 ≡ none
    → HasDistinct (s ∷ rest)
    → move_each (find_allocas (s ∷ rest)) (s ∷ rest) vs
      ≡ (s ∷ (move_each (find_allocas rest) rest vs).0, (move_each (find_allocas rest) rest vs).1)
move_kept s rest vs o h =
    ap (λ found. move_each found (s ∷ rest) vs) (find_none s rest o)
    ∙ move_each-other (find_allocas rest) s rest vs (find_allocas-avoid s rest h.0)
  where
    find_none :
        (s : Statement) (rest : List Statement)
        → moved_variable s.1 ≡ none
        → find_allocas (s ∷ rest) ≡ find_allocas rest
    find_none s rest o = unfold find_allocas in rw (o, find_allocas) refl

move_found :
    (s : Statement) (rest : List Statement) (vs : List Variable) (v : Variable)
    → moved_variable s.1 ≡ some v
    → move_each (find_allocas (s ∷ rest)) (s ∷ rest) vs
      ≡ move_each (find_allocas rest) rest (vs ++ v ∷ [])
unfolding move_each find_allocas
move_found s rest vs v o =
    rw (o, find_allocas)
      (ap (λ block. move_each (find_allocas rest) block (vs ++ v ∷ [])) (delete_self s rest))

move_each-exact :
    (block : List Statement) (vs : List Variable)
    → HasDistinct block
    → move_each (find_allocas block) block vs ≡ (kept block, vs ++ moved block)
move_each-exact [] vs h = unfold find_allocas in unfold move_each in rw append-nil
move_each-exact ((a, e) ∷ rest) vs h = elim (Option-cases (moved_variable e)) [
  | inl o ↦
      move_kept (a, e) rest vs o h
      ∙ (ap (λ (p : List Statement × List Variable). ((a, e) ∷ p.0, p.1))
            (move_each-exact rest vs h.1)
          ∙ rw (o, kept, moved) refl)
  | inr (v, o) ↦
      move_found (a, e) rest vs v o
      ∙ (move_each-exact rest (vs ++ v ∷ []) h.1 ∙ rw (o, kept, moved, append_assoc) refl)
]

-- An array type with a size that is an expression.
abbrev pub IsVla : TypeRef → Type 0
IsVla t =
    (addr : ℕ) × (element : CType) × (size : ℕ) × (f : ArrayFields) × (text : Text) × (t
      ≡ some (array addr element size f))
    × (f.dyn_size ≡ some text)

-- A block splits into what stays, in order, and the variables of the allocations that go: exactly
-- those that are no VLAs.
pub data Splits : List Statement → List Statement → List Variable → Type 0 where
  nothing : Splits [] [] []
  goes :
      {rest stays : List Statement} {vs : List Variable} (a : ℕ) (e : Expr) (name : Text)
      (vt t : TypeRef)
      → e ≡ stack_alloc name vt t
      → (IsVla vt → ⊥)
      → Splits rest stays vs
      → Splits ((a, e) ∷ rest) stays ((name, vt) ∷ vs)
  remains :
      {rest stays : List Statement} {vs : List Variable} (a : ℕ) (e : Expr)
      → ((name : Text) (vt t : TypeRef) → e ≡ stack_alloc name vt t → IsVla vt)
      → Splits rest stays vs
      → Splits ((a, e) ∷ rest) ((a, e) ∷ stays) vs

has_dynamic_size-IsVla : (t : TypeRef) → has_dynamic_size t ≡ true → IsVla t
unfolding has_dynamic_size
has_dynamic_size-IsVla none h = cc
has_dynamic_size-IsVla (some (array addr element size f)) h = elim (Option-cases f.dyn_size) [
  | inl e ↦ cc (rw e at h)
  | inr (text, e) ↦ (addr, element, size, f, text, refl, e)
]
has_dynamic_size-IsVla (some _) h = cc

IsVla-has_dynamic_size : (t : TypeRef) → IsVla t → has_dynamic_size t ≡ true
unfolding has_dynamic_size
IsVla-has_dynamic_size t (addr, element, size, f, text, e, dyn) = rw (e, has_dynamic_size, dyn) refl

moved_variable-goes :
    (e : Expr) (v : Variable)
    → moved_variable e ≡ some v
    → (name : Text) × (vt : TypeRef) × (t : TypeRef) × (e ≡ stack_alloc name vt t)
      × (v ≡ (name, vt))
      × (IsVla vt → ⊥)
unfolding moved_variable
moved_variable-goes (stack_alloc name vt t) v h = elim (Bool-cases (has_dynamic_size vt)) [
  | inl d ↦ cc (rw d at h)
  | inr d ↦ (
    name,
    vt,
    t,
    refl,
    sym (some_injective (name, vt) v (rw d at h)),
    λ k. cc (IsVla-has_dynamic_size vt k),
  )
]
moved_variable-goes _ v h = cc

moved_variable-remains :
    (name : Text) (vt t : TypeRef) → moved_variable (stack_alloc name vt t) ≡ none → IsVla vt
unfolding moved_variable
moved_variable-remains name vt t h = elim (Bool-cases (has_dynamic_size vt)) [
  | inl d ↦ has_dynamic_size-IsVla vt d
  | inr d ↦ cc (rw d at h)
]

splits : (block : List Statement) → Splits block (kept block) (moved block)
splits [] = nothing
splits ((a, e) ∷ rest) = elim (Option-cases (moved_variable e)) [
  | inl o ↦
      rw (o, kept, moved)
        (remains a e (λ name vt t same. moved_variable-remains name vt t (rw same at o))
          (splits rest))
  | inr (v, o) ↦
      let (name, vt, t, alloc, same, fixed) = moved_variable-goes e v o in
      rw (o, kept, moved)
        (subst (λ w. Splits ((a, e) ∷ rest) (kept rest) (w ∷ moved rest)) (sym same)
          (goes a e name vt t alloc fixed (splits rest)))
]

-- In a block without two expressions at one address, exactly the allocations of variables that are
-- no arrays with a dynamic size are taken out, and their variables are added to the function's in
-- the same order; what stays keeps its order.
pub extract_vars-exact :
    (block : List Statement) (variables : List Variable)
    → HasDistinct block
    → (stays : List Statement) × (gone : List Variable) × Splits block stays gone
      × (extract_vars block variables ≡ (stays, variables ++ gone))
unfolding extract_vars
extract_vars-exact block variables h =
    (kept block, moved block, splits block, move_each-exact block variables h)
