-- ===== src/ParseBreaks/Loops.antt =====
-- A do-while goes on and ends where LLVM's latch branches, with the phi nodes that it sets there.
use llvm2c.Prelude.{
  ℕ, ◌==◌, Bool, true, false, Bool-cases, not, if◌then◌else◌, ◌≡◌, refl, sym, ap, ◌∙◌, inl, inr,
  ◌⊎◌, subst, some_injective, arith, none, some, List, [], ◌∷◌, Text, text_eq, text_eq_iff, All,
}
use llvm2c.Exprs.{Expr, TypeRef, value, select_expr, make_binary, make_select}
use llvm2c.ParseBreaks.{
  Cfg, branch, phi_moves, select_each, to_exprs, generate_loop_assignments, list_of_one_goto,
  negates_condition, after_do_while,
}
use llvm2c.ParseBreaks.Run.{
  Reading, Store, Outcome, set_var, then_run, run, run_list, AreVariables, name_of, parallel,
  AgreeBut, IsFreeOf, IsOrdered, AgreeBut-set_var,
}
use llvm2c.ParseBreaks.Edges.{successor, edge, IsSequential, run-list_of_one_goto}

-- A condition that may be negated, as a loop and a select test it.
abbrev pub tests : Bool → Bool → Bool
tests negated b = if negated then not b else b

goes_back :
    (header false_block true_block next : ℕ) (b : Bool)
    → (false_block == header) ≡ not (true_block == header)
    → (if b then true_block else false_block) ≡ next
    → tests (not (true_block == header)) b ≡ true
    → next ≡ header
goes_back header false_block true_block next true one e on = ground arith
goes_back header false_block true_block next false one e on = ground arith

leaves :
    (header false_block true_block next : ℕ) (b : Bool)
    → (false_block == header) ≡ not (true_block == header)
    → (if b then true_block else false_block) ≡ next
    → tests (not (true_block == header)) b ≡ false
    → next ≡ (if false_block == header then true_block else false_block)
leaves header false_block true_block next true one e off = ground arith
leaves header false_block true_block next false one e off = ground arith

module _ {V : Type 0} (m : Reading V) where
  abbrev pub goes_on : Expr → Bool → Store V → Bool
  goes_on cond negated s = tests negated (m.is_true (m.read s cond))

  -- In C a variable has its value, and a select that of the operand that its condition selects.
  abbrev pub ReadsVariables : Type 0
  ReadsVariables = (s : Store V) (name : Text) (t : TypeRef) → m.read s (value name t) ≡ s name

  abbrev pub ReadsSelects : Type 0
  ReadsSelects =
      (s : Store V) (l r cond : Expr) (negated : Bool) (t : TypeRef)
      → m.read s (select_expr l r cond negated t)
        ≡ m.read s (if goes_on cond negated s then l else r)

  -- The names that moves set, in front of given ones.
  abbrev pub names_after : List Text → List (Expr × Expr) → List Text
  names_after names [] = names
  names_after names ((var, e) ∷ moves) = names_after (name_of var ∷ names) moves

  set_var_same : (name : Text) (s : Store V) → set_var name (s name) s ≡ s
  unfolding set_var
  set_var_same name s = λ i k. same k (Bool-cases (text_eq k name)) i
    where
      same :
          (k : Text)
          → (text_eq k name ≡ true) ⊎ (text_eq k name ≡ false)
          → (if text_eq k name then s name else s k) ≡ s k
      same k (inl e) = rw e (ap s (sym ((text_eq_iff k name).0 e)))
      same k (inr e) = rw e refl

  All-names_after :
      (k : Text) (names : List Text) (moves : List (Expr × Expr))
      → All (λ n. text_eq k n ≡ false) (names_after names moves)
      → All (λ n. text_eq k n ≡ false) names
  All-names_after k names [] h = h
  All-names_after k names ((var, e) ∷ moves) h = (All-names_after k (name_of var ∷ names) moves h).1

  AgreeBut-names_after :
      (names : List Text) (moves : List (Expr × Expr)) (s s' : Store V)
      → AgreeBut m names s s'
      → AgreeBut m (names_after names moves) s s'
  AgreeBut-names_after names moves s s' h k other = h k (All-names_after k names moves other)

  AgreeBut-parallel :
      (names : List Text) (moves : List (Expr × Expr)) (before s : Store V)
      → AgreeBut m names before s
      → AgreeBut m (names_after names moves) before (parallel m before moves s)
  AgreeBut-parallel names [] before s h = h
  AgreeBut-parallel names ((var, e) ∷ moves) before s h =
      AgreeBut-parallel (name_of var ∷ names) moves before
        (set_var (name_of var) (m.read before e) s)
        (AgreeBut-set_var m names (name_of var) (m.read before e) before s h)

  goes_on-free :
      (cond : Expr) (negated : Bool) (names : List Text) (s s' : Store V)
      → IsFreeOf m names cond
      → AgreeBut m names s s'
      → goes_on cond negated s' ≡ goes_on cond negated s
  goes_on-free cond negated names s s' free agree =
      ap (λ v. tests negated (m.is_true v)) (sym (free s s' agree))

  module _ (cfg : Cfg) (latch header : ℕ) (cond : Expr) where
    abbrev pub run_test : Bool → ℕ → Store V → Outcome V
    run_test negated after s =
        if goes_on cond negated s
        then (s, some header)
        else run m (list_of_one_goto cfg latch after) s

    -- The end of a round of the do-while: the assignments at the end of its body, its test, and what
    -- follows the loop.
    abbrev run_round : Bool → ℕ → Store V → Outcome V
    run_round negated after s =
        then_run (run_list m (to_exprs (generate_loop_assignments cfg cond latch header negated)) s)
          (run_test negated after)

    -- The condition does not depend on the header's phi nodes.
    abbrev pub IsFreeOfPhis : Type 0
    IsFreeOfPhis = IsFreeOf m (names_after [] (phi_moves latch (cfg.phis header))) cond

  module _ (variables : ReadsVariables) (selects : ReadsSelects) where
    -- Where the loop goes on, the assignments are the moves.
    run_selects_on :
        (cond : Expr) (negated : Bool) (names : List Text) (moves : List (Expr × Expr))
        (before s : Store V)
        → goes_on cond negated before ≡ true
        → AreVariables moves
        → IsOrdered m names moves
        → IsFreeOf m (names_after names moves) cond
        → AgreeBut m names before s
        → run_list m (to_exprs (select_each cond negated moves)) s
          ≡ (parallel m before moves s, none)
    unfolding run to_exprs select_each make_binary make_select
    run_selects_on cond negated names [] before s on vs ordered free agree = refl
    run_selects_on cond negated names ((value n t, e) ∷ moves) before s on vs (fe, ordered) free
          agree =
        ap (λ v. run_list m (to_exprs (select_each cond negated moves)) (set_var n v s)) selected
        ∙ run_selects_on cond negated (n ∷ names) moves before (set_var n (m.read before e) s) on vs
            ordered free (AgreeBut-set_var m names n (m.read before e) before s agree)
      where
        still_on : goes_on cond negated s ≡ true
        still_on =
            goes_on-free cond negated (names_after (n ∷ names) moves) before s free
              (AgreeBut-names_after names ((value n t, e) ∷ moves) before s agree)
            ∙ on

        selected : m.read s (make_select cond e (value n t) negated) ≡ m.read before e
        selected =
            selects s e (value n t) cond negated _
            ∙ (ap (λ b. m.read s (if b then e else value n t)) still_on ∙ sym (fe before s agree))
    run_selects_on cond negated names ((_, e) ∷ moves) before s on vs ordered free agree = absurd vs

    -- Where it ends, they change nothing.
    run_selects_off :
        (cond : Expr) (negated : Bool) (moves : List (Expr × Expr)) (s : Store V)
        → goes_on cond negated s ≡ false
        → AreVariables moves
        → run_list m (to_exprs (select_each cond negated moves)) s ≡ (s, none)
    unfolding run to_exprs select_each make_binary make_select
    run_selects_off cond negated [] s off vs = refl
    run_selects_off cond negated ((value n t, e) ∷ moves) s off vs =
        ap (run_list m (to_exprs (select_each cond negated moves)))
          (ap (λ v. set_var n v s) kept ∙ set_var_same n s)
        ∙ run_selects_off cond negated moves s off vs
      where
        kept : m.read s (make_select cond e (value n t) negated) ≡ s n
        kept =
            selects s e (value n t) cond negated _
            ∙ (ap (λ b. m.read s (if b then e else value n t)) off ∙ variables s n t)
    run_selects_off cond negated ((_, e) ∷ moves) s off vs = absurd vs

    module _ (cfg : Cfg) (latch header : ℕ) (cond : Expr) where
      run_round-on :
          (negated : Bool) (after : ℕ) (s : Store V)
          → goes_on cond negated s ≡ true
          → IsSequential m cfg latch header
          → IsFreeOfPhis cfg latch header cond
          → run_round cfg latch header cond negated after s ≡ edge m cfg latch header s
      unfolding generate_loop_assignments
      run_round-on negated after s on (vs, ordered) free =
          let moves = phi_moves latch (cfg.phis header) in
          ap (λ o. then_run o (run_test cfg latch header cond negated after))
            (run_selects_on cond negated [] moves s s on vs ordered free (λ k h. refl))
          ∙ ap
              (λ b.
                if b
                then (parallel m s moves s, some header)
                else run m (list_of_one_goto cfg latch after) (parallel m s moves s))
              (goes_on-free cond negated (names_after [] moves) s (parallel m s moves s) free
                  (AgreeBut-parallel [] moves s s (λ k h. refl))
                ∙ on)

      run_round-off :
          (negated : Bool) (after : ℕ) (s : Store V)
          → goes_on cond negated s ≡ false
          → IsSequential m cfg latch header
          → IsSequential m cfg latch after
          → run_round cfg latch header cond negated after s ≡ edge m cfg latch after s
      unfolding generate_loop_assignments
      run_round-off negated after s off (vs, ordered) leaving =
          ap (λ o. then_run o (run_test cfg latch header cond negated after))
            (run_selects_off cond negated (phi_moves latch (cfg.phis header)) s off vs)
          ∙ (ap (λ b. if b then (s, some header) else run m (list_of_one_goto cfg latch after) s)
                off
              ∙ run-list_of_one_goto m cfg latch after s leaving)

      pub run_round-edge :
          (false_block true_block next : ℕ) (s : Store V)
          → (false_block == header) ≡ not (true_block == header)
          → successor m cfg (branch cond false_block true_block) s ≡ some next
          → IsSequential m cfg latch header
          → IsSequential m cfg latch (after_do_while header false_block true_block)
          → IsFreeOfPhis cfg latch header cond
          → run_round cfg latch header cond
              (negates_condition header true_block)
              (after_do_while header false_block true_block)
              s
            ≡ edge m cfg latch next s
      unfolding negates_condition after_do_while
      run_round-edge false_block true_block next s one e back leaving free =
          let negated = negates_condition header true_block in
          let after = after_do_while header false_block true_block in
          elim (Bool-cases (goes_on cond negated s)) [
            | inl on ↦
                subst (λ n. run_round cfg latch header cond negated after s ≡ edge m cfg latch n s)
                  (sym (
                    goes_back header false_block true_block next (m.is_true (m.read s cond)) one
                      (some_injective _ next e) on))
                  (run_round-on negated after s on back free)
            | inr off ↦
                subst (λ n. run_round cfg latch header cond negated after s ≡ edge m cfg latch n s)
                  (sym (
                    leaves header false_block true_block next (m.is_true (m.read s cond)) one
                      (some_injective _ next e) off))
                  (run_round-off negated after s off back leaving)
          ]
