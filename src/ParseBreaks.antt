-- ===== src/ParseBreaks.antt =====
-- parser/parseBreaks.cpp: the statements for branches, returns and loops. LLVM's terminators, phi
-- nodes and loops are arguments, with the expressions that the program has for their operands.
-- createBlocks has made all blocks, so createBlockIfNotExist only finds them here. `Option` stands
-- for null pointers and failed assertions.
pub mod Run
pub mod Edges
pub mod Entry
pub mod Loops
pub mod DoWhile
pub mod Handled
pub mod Tests
use llvm2c.Prelude.{
  ℕ, ◌==◌, Bool, true, false, not, ◌&&◌, ◌||◌, if◌then◌else◌, Option, none, some, ◌>>=◌, List, [],
  ◌∷◌, ◌++◌,
}
use llvm2c.Exprs.{
  Expr, MaybeExpr, null, just, TypeRef, get_type, Exprs, nil, cons, ret_expr, if_expr, goto_expr,
  latch_expr, expr_list, do_while, assign_expr, make_binary, make_select,
}
use llvm2c.Blocks.{BlockState, Blocks}
use llvm2c.InlineBlocks.{update, set_inline}

-- A phi node: its variable, and the blocks it has incoming values from.
pub record Phi : Type 0 where
  pub var : Expr
  pub incoming : List (ℕ × Expr)

-- The end of a block: a return, a branch on a condition, with the blocks for false and for true as in
-- the order of its operands, a branch, or another terminator with its successors.
pub data Terminator : Type 0 where
  ret : MaybeExpr → Terminator
  branch : Expr → ℕ → ℕ → Terminator
  jump : ℕ → Terminator
  other_terminator : List ℕ → Terminator

pub record Cfg : Type 0 where
  pub phis : ℕ → List Phi
  pub terminator : ℕ → Terminator

-- The blocks of the function, and the field brHandled of each.
pub record State : Type 0 where
  pub blocks : Blocks
  pub br_handled : ℕ → Bool

-- The incoming values of phi nodes for the block, each with the node's variable.
unfoldable pub moves_of : ℕ → Expr → List (ℕ × Expr) → List (Expr × Expr)
moves_of ending var [] = []
moves_of ending var ((block, e) ∷ incoming) =
    let rest = moves_of ending var incoming in if block == ending then (var, e) ∷ rest else rest

unfoldable pub phi_moves : ℕ → List Phi → List (Expr × Expr)
unfolding moves_of
phi_moves ending [] = []
phi_moves ending (phi ∷ phis) = moves_of ending phi.var phi.incoming ++ phi_moves ending phis

-- generatePhiAssignments without `isLoop`.
unfoldable pub assign_each : List (Expr × Expr) → List Expr
unfolding make_binary
assign_each [] = []
assign_each ((var, e) ∷ moves) = make_binary assign_expr var e ∷ assign_each moves

unfoldable pub generate_phi_assignments : Cfg → ℕ → ℕ → List Expr
unfolding phi_moves assign_each
generate_phi_assignments cfg ending next = assign_each (phi_moves ending (cfg.phis next))

-- generatePhiAssignments with `isLoop`, for the condition of the block's branch: the variable keeps
-- its value where the loop ends.
unfoldable pub select_each : Expr → Bool → List (Expr × Expr) → List Expr
unfolding make_binary make_select
select_each cond negated [] = []
select_each cond negated ((var, e) ∷ moves) =
    make_binary assign_expr var (make_select cond e var negated) ∷ select_each cond negated moves

unfoldable pub generate_loop_assignments : Cfg → Expr → ℕ → ℕ → Bool → List Expr
unfolding phi_moves select_each
generate_loop_assignments cfg cond ending next negated =
    select_each cond negated (phi_moves ending (cfg.phis next))

unfoldable pub to_exprs : List Expr → Exprs
to_exprs [] = nil
to_exprs (e ∷ es) = cons e (to_exprs es)

-- createListOfOneGoto
unfoldable pub list_of_one_goto : Cfg → ℕ → ℕ → Expr
unfolding to_exprs generate_phi_assignments
list_of_one_goto cfg container target =
    expr_list (to_exprs (generate_phi_assignments cfg container target ++ (goto_expr target ∷ [])))

-- The type that RetExpr's constructor sets.
unfoldable pub result_type : MaybeExpr → TypeRef
unfolding get_type
result_type null = none
result_type (just e) = get_type e

-- What parseRETURN, parseIF and parseUncondBranch make for a terminator, and whether it is one of
-- these.
unfoldable pub branch_statements : Cfg → ℕ → Terminator → List Expr
unfolding list_of_one_goto generate_phi_assignments result_type
branch_statements cfg block (ret result) = ret_expr result (result_type result) ∷ []
branch_statements cfg block (branch cond false_block true_block) =
    if_expr cond (list_of_one_goto cfg block true_block) (list_of_one_goto cfg block false_block)
    ∷ []
branch_statements cfg block (jump target) =
    generate_phi_assignments cfg block target ++ (goto_expr target ∷ [])
branch_statements cfg block (other_terminator successors) = []

unfoldable pub is_parsed : Terminator → Bool
is_parsed (other_terminator successors) = false
is_parsed t = true

-- `block->addExpr(expr)` for each, and `block->brHandled = true`.
unfoldable pub add_exprs : ℕ → List Expr → Blocks → Blocks
unfolding update
add_exprs block es blocks =
    update block (record (blocks block) { expressions = (blocks block).expressions ++ es }) blocks

unfoldable pub set_handled : ℕ → Bool → (ℕ → Bool) → ℕ → Bool
set_handled block value handled i = if i == block then value else handled i

-- parseBlock
unfoldable pub parse_block : Cfg → ℕ → State → State
unfolding branch_statements is_parsed add_exprs set_handled
parse_block cfg block s = record {
  blocks = add_exprs block (branch_statements cfg block (cfg.terminator block)) s.blocks;
  br_handled =
      if is_parsed (cfg.terminator block)
      then set_handled block true s.br_handled
      else s.br_handled;
}

-- `if (!func->getBlock(b)->brHandled) parseBlock(func, b)` for each block.
unfoldable pub parse_unhandled : Cfg → List ℕ → State → State
unfolding parse_block
parse_unhandled cfg [] s = s
parse_unhandled cfg (b ∷ bs) s =
    parse_unhandled cfg bs (if s.br_handled b then s else parse_block cfg b s)

-- A loop of LLVM, and the loops inside of it. LLVM has a loop in rotated form only if it has a latch.
pub record LoopInfo : Type 0 where
  pub is_rotated : Bool
  pub preheader : Option ℕ
  pub header : ℕ
  pub latch : ℕ
  pub loop_blocks : List ℕ

mutual
  pub data LoopNest : Type 0 where
    nest : LoopInfo → LoopNests → LoopNest

  pub data LoopNests : Type 0 where
    no_nests : LoopNests
    and_nest : LoopNest → LoopNests → LoopNests

-- The expressions without the last one; a goto at the end has to lead to the header.
unfoldable pub remove_goto : ℕ → List Expr → Option (List Expr)
remove_goto header [] = none
remove_goto header (goto_expr target ∷ []) = if target == header then some [] else none
remove_goto header (e ∷ []) = some []
remove_goto header (e ∷ d ∷ es) = remove_goto header (d ∷ es) >>= λ rest. some (e ∷ rest)

-- `getNumSuccessors() == 1 && getSuccessor(0) == latch`
unfoldable pub goes_to : ℕ → Terminator → Bool
goes_to latch (jump target) = target == latch
goes_to latch (other_terminator (target ∷ [])) = target == latch
goes_to latch t = false

-- The body of the do-while: the header's statements, the path from there to the latch, and the
-- values of the phi nodes, those of the latch at the front.
unfoldable pub loop_body : Cfg → LoopInfo → Expr → Bool → Exprs
unfolding generate_phi_assignments generate_loop_assignments to_exprs goes_to
loop_body cfg info cond negated =
    let is_own_latch = info.header == info.latch in
    let wrapped =
      if not is_own_latch && not (goes_to info.latch (cfg.terminator info.header))
      then latch_expr info.latch false ∷ []
      else [] in
    let at_front =
      if not is_own_latch
      then expr_list (to_exprs (generate_phi_assignments cfg info.header info.latch)) ∷ []
      else [] in
    let at_end =
      expr_list (to_exprs (generate_loop_assignments cfg cond info.latch info.header negated)) in
    to_exprs (at_front ++ ((goto_expr info.header ∷ wrapped) ++ (at_end ∷ [])))

-- Whether the condition of the do-while is negated, and the block after it.
unfoldable pub negates_condition : ℕ → ℕ → Bool
negates_condition header true_block = not (true_block == header)

unfoldable pub after_do_while : ℕ → ℕ → ℕ → ℕ
after_do_while header false_block true_block =
    if false_block == header then true_block else false_block

-- The part of parseLoop for a loop in rotated form, on its preheader and its latch's branch, up to the
-- blocks that are left.
unfoldable pub make_do_while : Cfg → LoopInfo → ℕ → Terminator → State → Option State
unfolding parse_block remove_goto loop_body list_of_one_goto negates_condition after_do_while
    set_inline update set_handled
make_do_while cfg info preheader (branch cond false_block true_block) s =
    let parsed = parse_block cfg preheader s in
    let negated = negates_condition info.header true_block in
    let after = after_do_while info.header false_block true_block in
    remove_goto info.header (parsed.blocks preheader).expressions >>= λ es.
    let blocks = set_inline info.header true parsed.blocks in
    some (record {
      blocks =
          update preheader
            (record (blocks preheader) {
              expressions =
                  es
                  ++ (do_while (expr_list (loop_body cfg info cond negated)) cond negated
                      ∷ list_of_one_goto cfg info.latch after
                      ∷ []);
            })
            blocks;
      br_handled = set_handled info.latch true parsed.br_handled;
    })
make_do_while cfg info preheader t s = none

unfoldable pub parse_rotated : Cfg → LoopInfo → State → Option State
unfolding make_do_while
parse_rotated cfg info s =
    info.preheader >>= λ preheader. make_do_while cfg info preheader (cfg.terminator info.latch) s

-- parseLoop
unfoldable mutual
  unfolding parse_rotated parse_unhandled

  pub parse_loop : Cfg → LoopNest → State → Option State
  parse_loop cfg (nest info subs) s = parse_loops cfg subs s >>= λ inner.
      (if info.is_rotated then parse_rotated cfg info inner else some inner) >>= λ made.
      some (parse_unhandled cfg info.loop_blocks made)

  pub parse_loops : Cfg → LoopNests → State → Option State
  parse_loops cfg no_nests s = some s
  parse_loops cfg (and_nest l ls) s = parse_loop cfg l s >>= λ made. parse_loops cfg ls made

-- parseBreakRec, on a function that is defined.
unfoldable pub parse_function : Cfg → LoopNests → List ℕ → State → Option State
unfolding parse_loops parse_unhandled
parse_function cfg loops ids s =
    parse_loops cfg loops s >>= λ made. some (parse_unhandled cfg ids made)
