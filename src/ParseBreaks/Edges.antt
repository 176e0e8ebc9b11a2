-- ===== src/ParseBreaks/Edges.antt =====
-- The statements for a branch go where LLVM's branch goes, and set the phi nodes of the block there.
use llvm2c.Prelude.{
  ℕ, ==_iff, subst, some_injective, Bool, true, false, if◌then◌else◌, ◌≡◌, refl, ap, ◌∙◌, Option,
  none, some, [], ◌∷◌, ◌++◌,
}
use llvm2c.Exprs.{Expr, goto_expr}
use llvm2c.InlineBlocks.{update}
use llvm2c.ParseBreaks.{
  Cfg, Terminator, ret, branch, jump, other_terminator, State, phi_moves, assign_each, to_exprs,
  generate_phi_assignments, list_of_one_goto, branch_statements, add_exprs, parse_block,
}
use llvm2c.ParseBreaks.Run.{
  Reading, Store, Outcome, then_run, run, run_list, run_list-append, run-single, run-if,
  AreVariables, parallel, IsOrdered, run-assign_each,
}

module _ {V : Type 0} (m : Reading V) (cfg : Cfg) where
  -- The block that LLVM's branch goes to.
  abbrev pub successor : Terminator → Store V → Option ℕ
  successor (branch cond false_block true_block) s =
      some (if m.is_true (m.read s cond) then true_block else false_block)
  successor (jump target) s = some target
  successor t s = none

  -- What LLVM's edge does: the phi nodes of the next block get their values all at once.
  abbrev pub edge : ℕ → ℕ → Store V → Outcome V
  edge block next s = (parallel m s (phi_moves block (cfg.phis next)) s, some next)

  -- The phi nodes have variables, and none of the values for this edge depends on a phi node that
  -- stands before its own.
  abbrev pub IsSequential : ℕ → ℕ → Type 0
  IsSequential block next =
      AreVariables (phi_moves block (cfg.phis next))
      × IsOrdered m [] (phi_moves block (cfg.phis next))

  pub run-goto :
      (block next : ℕ) (s : Store V)
      → IsSequential block next
      → run_list m (to_exprs (generate_phi_assignments cfg block next ++ (goto_expr next ∷ []))) s
        ≡ edge block next s
  unfolding generate_phi_assignments run to_exprs
  run-goto block next s (variables, ordered) =
      run_list-append m (assign_each (phi_moves block (cfg.phis next))) (goto_expr next ∷ []) s
      ∙ ap (λ o. then_run o (run_list m (to_exprs (goto_expr next ∷ []))))
          (run-assign_each m (phi_moves block (cfg.phis next)) s variables ordered)

  pub run-list_of_one_goto :
      (block next : ℕ) (s : Store V)
      → IsSequential block next
      → run m (list_of_one_goto cfg block next) s ≡ edge block next s
  unfolding run list_of_one_goto
  run-list_of_one_goto block next s h = run-goto block next s h

  -- The statements for a branch run like the edge that LLVM's branch takes.
  RunsEdge : ℕ → Terminator → Store V → ℕ → Type 0
  RunsEdge block t s next =
      IsSequential block next
      → run_list m (to_exprs (branch_statements cfg block t)) s ≡ edge block next s

  run_conditional :
      (block : ℕ) (cond : Expr) (false_block true_block : ℕ) (s : Store V) (b : Bool)
      → m.is_true (m.read s cond) ≡ b
      → RunsEdge block
          (branch cond false_block true_block)
          s
          (if b then true_block else false_block)
  unfolding branch_statements RunsEdge
  run_conditional block cond false_block true_block s true b h =
      run-single m _ s ∙ (run-if m cond _ _ s true b ∙ run-list_of_one_goto block true_block s h)
  run_conditional block cond false_block true_block s false b h =
      run-single m _ s ∙ (run-if m cond _ _ s false b ∙ run-list_of_one_goto block false_block s h)

  pub run-branch_statements :
      (block next : ℕ) (t : Terminator) (s : Store V)
      → successor t s ≡ some next
      → IsSequential block next
      → run_list m (to_exprs (branch_statements cfg block t)) s ≡ edge block next s
  unfolding branch_statements RunsEdge
  run-branch_statements block next (jump target) s e h =
      subst (RunsEdge block (jump target) s) (some_injective target next e)
        (run-goto block target s) h
  run-branch_statements block next (branch cond false_block true_block) s e h =
      subst (RunsEdge block (branch cond false_block true_block) s) (some_injective _ next e)
        (run_conditional block cond false_block true_block s (m.is_true (m.read s cond)) refl) h
  run-branch_statements block next (ret result) s e h = cc
  run-branch_statements block next (other_terminator successors) s e h = cc

  -- If the statements that a block has before it is parsed run to their end, then the parsed block,
  -- whose terminator is a branch, runs on like the edge that LLVM's branch takes: it goes to the same
  -- block and gives that block's phi nodes the values that they have there. The condition is that no
  -- value for this edge depends on a phi node that stands before its own.
  pub run-parse_block :
      (block next : ℕ) (st : State) (before s : Store V)
      → run_list m (to_exprs (st.blocks block).expressions) before ≡ (s, none)
      → successor (cfg.terminator block) s ≡ some next
      → IsSequential block next
      → run_list m (to_exprs ((parse_block cfg block st).blocks block).expressions) before
        ≡ edge block next s
  unfolding parse_block add_exprs update
  run-parse_block block next st before s old e h = rw ((==_iff block block).1 refl) (
      split
      ∙ (ap
            (λ o.
              then_run o
                (run_list m (to_exprs (branch_statements cfg block (cfg.terminator block)))))
            old
          ∙ run-branch_statements block next (cfg.terminator block) s e h))
    where
      split :
          run_list m
            (to_exprs
              ((st.blocks block).expressions ++ branch_statements cfg block (cfg.terminator block)))
            before
          ≡ then_run
              (run_list m (to_exprs (st.blocks block).expressions) before)
              (run_list m (to_exprs (branch_statements cfg block (cfg.terminator block))))
      split =
          run_list-append m (st.blocks block).expressions
            (branch_statements cfg block (cfg.terminator block)) before
