-- ===== src/InlineBlocks.antt =====
-- parser/identifyInlinableBlocks.cpp and parser/inlineBlocks.cpp: the passes that put the contents of
-- a block in place of the goto to it. LLVM's blocks are numbers, and what LLVM says of them and of
-- its loops is a parameter. Inlining a block also changes the operands of its own expressions in
-- place; they change in the same way when the block's turn comes, so that only this is modelled.
pub mod Meaning
pub mod Settled
pub mod Identify
pub mod Tests
use llvm2c.Prelude.{ℕ, zero, suc, Bool, true, false, ◌||◌, List, [], ◌∷◌, map, if◌then◌else◌, ◌==◌}
use llvm2c.Exprs.{Expr, Exprs, goto_expr, expr_list, ret_expr, nil, cons}
use llvm2c.Visitor.{accept}
use llvm2c.Blocks.{BlockState, Blocks}

unfoldable pub update : ℕ → BlockState → Blocks → Blocks
update i b blocks j = if i == j then b else blocks j

-- `block->expressions.size() == 1` and the only one is a RetExpr.
unfoldable pub only_returns : List Expr → Bool
only_returns (ret_expr _ _ ∷ []) = true
only_returns _ = false

-- isSafeToInline, with what `getSinglePredecessor` says.
unfoldable pub is_safe_to_inline : Bool → BlockState → Bool
unfolding only_returns
is_safe_to_inline has_single_predecessor b = has_single_predecessor || only_returns b.expressions

module _ (has_single_predecessor : ℕ → Bool) where
  -- The loop over the blocks of a function.
  unfoldable pub identify_each : List ℕ → Blocks → Blocks
  unfolding is_safe_to_inline update
  identify_each [] blocks = blocks
  identify_each (i ∷ rest) blocks =
      let b = blocks i in
      identify_each rest (
        if b.do_inline
        then blocks
        else update i (record b { do_inline = is_safe_to_inline (has_single_predecessor i) b })
            blocks)

  -- identifyInlinableBlocks on the blocks of a function, the first one first.
  unfoldable pub identify_inlinable_blocks : List ℕ → Blocks → Blocks
  unfolding identify_each update
  identify_inlinable_blocks [] blocks = blocks
  identify_inlinable_blocks (first ∷ rest) blocks =
      let marked = identify_each (first ∷ rest) blocks in
      update first (record (marked first) { do_inline = false; is_first = true }) marked

-- The expressions of an inlined block, each replaced.
unfoldable pub inline_each : (Expr → Expr) → List Expr → Exprs
inline_each f [] = nil
inline_each f (e ∷ es) = cons (f e) (inline_each f es)

-- InliningVisitor::simplify; without fuel a goto stays. The fuel bounds how deep inlined blocks nest.
unfoldable pub simplify : Blocks → ℕ → Expr → Expr
unfolding accept inline_each
simplify blocks (suc fuel) (goto_expr target) =
    if (blocks target).do_inline
    then expr_list (
        inline_each (λ e. simplify blocks fuel (accept (simplify blocks fuel) e))
          (blocks target).expressions)
    else goto_expr target
simplify blocks _ e = e

-- `expr->accept(iv); expr = iv.simplify(expr);`
unfoldable pub inline : Blocks → ℕ → Expr → Expr
unfolding simplify accept
inline blocks fuel e = simplify blocks fuel (accept (simplify blocks fuel) e)

-- The loop over the blocks: each sees the blocks before it as they are by then.
unfoldable pub inline_each_block : ℕ → List ℕ → Blocks → Blocks
unfolding inline update
inline_each_block fuel [] blocks = blocks
inline_each_block fuel (i ∷ rest) blocks =
    let b = blocks i in
    inline_each_block fuel rest
      (update i (record b { expressions = map (inline blocks fuel) b.expressions }) blocks)

-- A loop of LLVM: whether it is in rotated form, its header and its latch, whether the header ends in
-- a branch to the latch only, and its subloops.
mutual
  pub data Loop : Type 0 where
    loop : Bool → ℕ → ℕ → Bool → Loops → Loop

  pub data Loops : Type 0 where
    no_loops : Loops
    and_loop : Loop → Loops → Loops

-- `fun->getBlock(latch)->doInline = value`
unfoldable pub set_inline : ℕ → Bool → Blocks → Blocks
unfolding update
set_inline i value blocks = update i (record (blocks i) { do_inline = value }) blocks

unfoldable mutual
  unfolding set_inline

  -- doNotInlineSubloopLatchBlockIntoGotoLatch
  pub do_not_inline_latch : Loop → Blocks → Blocks
  do_not_inline_latch (loop is_rotated header latch header_goes_to_latch sub) blocks =
      do_not_inline_latches sub (
        if is_rotated
        then set_inline latch (latch == header || header_goes_to_latch) blocks
        else blocks)

  -- doNotInlineLatchBlocksIntoGotoLatch
  pub do_not_inline_latches : Loops → Blocks → Blocks
  do_not_inline_latches no_loops blocks = blocks
  do_not_inline_latches (and_loop l ls) blocks =
      do_not_inline_latches ls (do_not_inline_latch l blocks)

unfoldable mutual
  unfolding set_inline

  -- markLatchBlockAsInlined, on a loop and on all loops.
  pub mark_latch : Loop → Blocks → Blocks
  mark_latch (loop is_rotated header latch _ sub) blocks =
      mark_latches sub (if is_rotated then set_inline latch true blocks else blocks)

  pub mark_latches : Loops → Blocks → Blocks
  mark_latches no_loops blocks = blocks
  mark_latches (and_loop l ls) blocks = mark_latches ls (mark_latch l blocks)

-- inlineBlocks on a function that is defined.
unfoldable pub inline_blocks : ℕ → Loops → List ℕ → Blocks → Blocks
unfolding mark_latches inline_each_block do_not_inline_latches
inline_blocks fuel loops ids blocks =
    mark_latches loops (inline_each_block fuel ids (do_not_inline_latches loops blocks))
