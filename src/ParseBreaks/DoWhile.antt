-- ===== src/ParseBreaks/DoWhile.antt =====
-- The do-while that parseLoop makes for a loop in rotated form.
use llvm2c.Prelude.{ℕ, ◌==◌, ==_iff, Bool, not, if◌then◌else◌, ◌≡◌, refl, some, List, [], ◌∷◌, ◌++◌}
use llvm2c.Exprs.{Expr, do_while, goto_expr, expr_list}
use llvm2c.InlineBlocks.{update}
use llvm2c.ParseBreaks.{
  Cfg, branch, jump, State, LoopInfo, to_exprs, generate_phi_assignments, loop_body, after_do_while,
  make_do_while,
}
use llvm2c.ParseBreaks.Run.{Reading, Store, Outcome, then_run, run}
use llvm2c.ParseBreaks.Edges.{successor, edge, IsSequential}
use llvm2c.ParseBreaks.Entry.{parsed_preheader}
use llvm2c.ParseBreaks.Loops.{goes_on, ReadsVariables, ReadsSelects, IsFreeOfPhis, run_round-edge}

-- How a round of the loop ends: the statement at the end of the body, the test, and what follows the
-- do-while.
abbrev pub run_end : {V : Type 0} → Reading V → ℕ → Expr → Expr → Bool → Expr → Store V → Outcome V
run_end m header at_end cond negated after s =
    then_run (run m at_end s)
      λ s'. if goes_on m cond negated s' then (s', some header) else run m after s'

-- The statements end in a do-while whose body goes to the header, and whose rounds end like the
-- outcome says.
abbrev pub EndsInLoop :
    {V : Type 0} → Reading V → ℕ → Store V → Outcome V → List Expr → List Expr → Type 0
EndsInLoop m header s outcome entered es =
    (front : List Expr) × (rest : List Expr) × (at_end : Expr) × (cond : Expr) × (negated : Bool)
    × (after : Expr) × (es
        ≡ entered
          ++ (do_while
                (expr_list (to_exprs (front ++ ((goto_expr header ∷ rest) ++ (at_end ∷ []))))) cond
                negated
              ∷ after
              ∷ []))
    × (run_end m header at_end cond negated after s ≡ outcome)

-- The part of parseLoop that makes a do-while, for a preheader that leads to the header and the latch's
-- branch, of whose two blocks exactly one is the header: it finishes without a failed assertion, and
-- the preheader then has its earlier statements, the values of the header's phi nodes from there, a
-- do-while whose body goes to the header, and one statement after it. From any values at the end of a
-- round, the last statement of that body, the do-while's test and the statement after it end like
-- LLVM's branch: they go on with the header or leave to the other block, and give the phi nodes of
-- that block their values. The conditions are that no value for the two edges depends on a phi node in
-- front of its own, and that the branch's condition does not depend on the header's phi nodes.
pub make_do_while-edge :
    {V : Type 0} (m : Reading V) (cfg : Cfg) (info : LoopInfo) (preheader : ℕ) (cond : Expr)
    (false_block true_block next : ℕ) (state : State) (s : Store V)
    → ReadsVariables m
    → ReadsSelects m
    → cfg.terminator preheader ≡ jump info.header
    → (false_block == info.header) ≡ not (true_block == info.header)
    → successor m cfg (branch cond false_block true_block) s ≡ some next
    → IsSequential m cfg info.latch info.header
    → IsSequential m cfg info.latch (if false_block == info.header then true_block else false_block)
    → IsFreeOfPhis m cfg info.latch info.header cond
    → (made : State) × (make_do_while cfg info preheader (branch cond false_block true_block) state
        ≡ some made)
      × EndsInLoop m info.header s
          (edge m cfg info.latch next s)
          ((state.blocks preheader).expressions
            ++ generate_phi_assignments cfg preheader info.header)
          (made.blocks preheader).expressions
unfolding make_do_while loop_body update after_do_while run
make_do_while-edge m cfg info preheader cond false_block true_block next state s variables selects
      leads one e back leaving free =
    rw (parsed_preheader cfg preheader info.header state leads) (
      _,
      refl,
      rw ((==_iff preheader preheader).1 refl) (
        _,
        _,
        _,
        _,
        _,
        _,
        refl,
        run_round-edge m variables selects cfg info.latch info.header cond false_block true_block
            next s one e back leaving free,
      ),
    )
