-- ===== src/ParseBreaks/Run.antt =====
-- What the statements do when they run: assignments to variables, gotos and conditionals. The values
-- of expressions are a parameter.
use llvm2c.Prelude.{
  ℕ, Bool, false, if◌then◌else◌, ◌≡◌, refl, sym, ap, ◌∙◌, Option, none, some, List, [], ◌∷◌, ◌++◌,
  Text, text_eq, All,
}
use llvm2c.Exprs.{
  Expr, Exprs, value, nil, cons, binary, assign_expr, goto_expr, if_expr, expr_list, make_binary,
}
use llvm2c.ParseBreaks.{to_exprs, assign_each}

-- The values of expressions for given values of the variables, and when they count as true.
pub record Reading (V : Type 0) : Type 0 where
  pub read : (Text → V) → Expr → V
  pub is_true : V → Bool

abbrev pub Store : Type 0 → Type 0
Store V = Text → V

-- The values after some statements, and the block that is gone to.
abbrev pub Outcome : Type 0 → Type 0
Outcome V = Store V × Option ℕ

module _ {V : Type 0} where
  unfoldable pub set_var : Text → V → Store V → Store V
  set_var name v s k = if text_eq k name then v else s k

  abbrev pub then_run : Outcome V → (Store V → Outcome V) → Outcome V
  then_run (s, none) next = next s
  then_run (s, some block) next = (s, some block)

  then_run_cong :
      (o : Outcome V) {f g : Store V → Outcome V}
      → ((s : Store V) → f s ≡ g s)
      → then_run o f ≡ then_run o g
  then_run_cong (s, none) h = h s
  then_run_cong (s, some block) h = refl

  then_run_end : (o : Outcome V) → then_run o (λ s. (s, none)) ≡ o
  then_run_end (s, none) = refl
  then_run_end (s, some block) = refl

  then_run_assoc :
      (o : Outcome V) (f g : Store V → Outcome V)
      → then_run (then_run o f) g ≡ then_run o (λ s. then_run (f s) g)
  then_run_assoc (s, none) f g = refl
  then_run_assoc (s, some block) f g = refl

-- The variables of the moves are variables.
abbrev pub AreVariables : List (Expr × Expr) → Type 0
AreVariables [] = Unit
AreVariables ((value name t, e) ∷ moves) = AreVariables moves
AreVariables ((_, e) ∷ moves) = ⊥

abbrev pub name_of : Expr → Text
name_of (value name t) = name
name_of e = []

module _ {V : Type 0} (m : Reading V) where
  unfoldable mutual
    unfolding set_var

    pub run : Expr → Store V → Outcome V
    run (binary assign_expr (value name t) e t') s = (set_var name (m.read s e) s, none)
    run (goto_expr block) s = (s, some block)
    run (if_expr cond e e') s = if m.is_true (m.read s cond) then run e s else run e' s
    run (expr_list es) s = run_list es s
    run e s = (s, none)

    pub run_list : Exprs → Store V → Outcome V
    run_list nil s = (s, none)
    run_list (cons e es) s = then_run (run e s) (run_list es)

  pub run_list-append :
      (es fs : List Expr) (s : Store V)
      → run_list (to_exprs (es ++ fs)) s
        ≡ then_run (run_list (to_exprs es) s) (run_list (to_exprs fs))
  unfolding run to_exprs
  run_list-append [] fs s = refl
  run_list-append (e ∷ es) fs s =
      then_run_cong (run e s) (λ s'. run_list-append es fs s')
      ∙ sym (then_run_assoc (run e s) (run_list (to_exprs es)) (run_list (to_exprs fs)))

  pub run-single : (e : Expr) (s : Store V) → run_list (to_exprs (e ∷ [])) s ≡ run e s
  unfolding run to_exprs
  run-single e s = then_run_end (run e s)

  pub run-if :
      (cond e e' : Expr) (s : Store V) (b : Bool)
      → m.is_true (m.read s cond) ≡ b
      → run (if_expr cond e e') s ≡ (if b then run e s else run e' s)
  unfolding run
  run-if cond e e' s b h = rw h refl

  -- The moves done at once: all values are read from the first store.
  abbrev pub parallel : Store V → List (Expr × Expr) → Store V → Store V
  parallel before [] s = s
  parallel before ((var, e) ∷ moves) s =
      parallel before moves (set_var (name_of var) (m.read before e) s)

  -- The two stores differ at most at the given names.
  abbrev pub AgreeBut : List Text → Store V → Store V → Type 0
  AgreeBut names s s' = (k : Text) → All (λ n. text_eq k n ≡ false) names → s k ≡ s' k

  -- The value of the expression does not depend on the given variables.
  abbrev pub IsFreeOf : List Text → Expr → Type 0
  IsFreeOf names e = (s s' : Store V) → AgreeBut names s s' → m.read s e ≡ m.read s' e

  -- No value depends on a variable that an earlier move sets.
  abbrev pub IsOrdered : List Text → List (Expr × Expr) → Type 0
  IsOrdered names [] = Unit
  IsOrdered names ((var, e) ∷ moves) = IsFreeOf names e × IsOrdered (name_of var ∷ names) moves

  pub AgreeBut-set_var :
      (names : List Text) (n : Text) (v : V) (s s' : Store V)
      → AgreeBut names s s'
      → AgreeBut (n ∷ names) s (set_var n v s')
  unfolding set_var
  AgreeBut-set_var names n v s s' h k (ne, other) = h k other ∙ sym (rw ne refl)

  -- One after the other, ordered moves give what they give at once.
  run_moves :
      (names : List Text) (moves : List (Expr × Expr)) (before s : Store V)
      → AreVariables moves
      → IsOrdered names moves
      → AgreeBut names before s
      → run_list (to_exprs (assign_each moves)) s ≡ (parallel before moves s, none)
  unfolding run to_exprs assign_each make_binary
  run_moves names [] before s variables ordered agree = refl
  run_moves names ((value n t, e) ∷ moves) before s variables (free, ordered) agree =
      run_moves (n ∷ names) moves before (set_var n (m.read s e) s) variables ordered
        (AgreeBut-set_var names n (m.read s e) before s agree)
      ∙ ap (λ v. (parallel before moves (set_var n v s), none)) (sym (free before s agree))
  run_moves names ((_, e) ∷ moves) before s variables ordered agree = absurd variables

  pub run-assign_each :
      (moves : List (Expr × Expr)) (s : Store V)
      → AreVariables moves
      → IsOrdered [] moves
      → run_list (to_exprs (assign_each moves)) s ≡ (parallel s moves s, none)
  run-assign_each moves s variables ordered = run_moves [] moves s s variables ordered (λ k h. refl)
