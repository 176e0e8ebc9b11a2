-- ===== src/InlineBlocks/Tests.antt =====
-- The passes on a small function, and the theorems at it.
use llvm2c.Prelude.{
  ℕ, zero, suc, ◌≡◌, refl, Bool, true, false, ◌||◌, none, some, List, [], ◌∷◌, codes, ◌==◌, arith,
}
use llvm2c.TypeHandler.{sint}
use llvm2c.Exprs.{Expr, value, if_expr, goto_expr, ret_expr, expr_list, just, nil, cons}
use llvm2c.Visitor.{accept}
use llvm2c.Visitor.Meaning.{Shape, of_goto, Meaning, meaning}
use llvm2c.Visitor.Stable.{GoesTo, IsSettled}
use llvm2c.Blocks.{BlockState}
use llvm2c.InlineBlocks.{
  inline, inline_blocks, identify_inlinable_blocks, no_loops, and_loop, loop, Loops,
}
use llvm2c.InlineBlocks.Meaning.{block_meaning, GotoRuns, block_meaning-inline_blocks}
use llvm2c.InlineBlocks.Settled.{is_done, RankBelow, IsAcyclic, inline-IsSettled}
use llvm2c.InlineBlocks.Identify.{IsIdentified, identify_inlinable_blocks-exact}

abbrev x : Expr
x = value (codes "x") (some sint)

abbrev branch : Expr
branch = if_expr x (expr_list (cons (goto_expr 1) nil)) (expr_list (cons (goto_expr 2) nil))

-- The entry branches to the blocks 1 and 2; 1 goes on to 2, and 2 returns.
abbrev blocks : ℕ → BlockState
blocks zero = record {
  block_name = codes "entry";
  expressions = branch ∷ [];
  do_inline = false;
  is_first = true;
}
blocks (suc zero) = record {
  block_name = codes "block1";
  expressions = goto_expr 2 ∷ [];
  do_inline = true;
  is_first = false;
}
blocks (suc (suc _)) = record {
  block_name = codes "block2";
  expressions = ret_expr (just x) none ∷ [];
  do_inline = true;
  is_first = false;
}

abbrev returned : Expr
returned = expr_list (cons (ret_expr (just x) none) nil)

inline_run :
    inline blocks 3 branch
    ≡ if_expr x
        (expr_list (cons (expr_list (cons returned nil)) nil))
        (expr_list (cons returned nil))
unfolding inline
inline_run = refl

abbrev block_rank : ℕ → ℕ
block_rank zero = 2
block_rank (suc zero) = 1
block_rank (suc (suc _)) = 0

blocks-IsAcyclic : IsAcyclic blocks block_rank
unfolding GoesTo
blocks-IsAcyclic zero h = cc
blocks-IsAcyclic (suc zero) h = ((λ _. omega arith), tt)
blocks-IsAcyclic (suc (suc _)) h = (tt, tt)

branch-GoesTo : GoesTo (RankBelow blocks block_rank 2) branch
unfolding GoesTo
branch-GoesTo = (tt, ((λ _. omega arith), tt), ((λ _. omega arith), tt))

inline-IsSettled_example :
    IsSettled (is_done blocks) (inline blocks 2 branch)
    × (is_done blocks (inline blocks 2 branch) ≡ inline blocks 2 branch)
    × (accept (is_done blocks) (inline blocks 2 branch) ≡ inline blocks 2 branch)
inline-IsSettled_example =
    inline-IsSettled blocks block_rank blocks-IsAcyclic 2 branch branch-GoesTo

-- A toy meaning: whether a return is reached.
abbrev any : List Bool → Bool
any [] = false
any (b ∷ bs) = b || any bs

abbrev reaches_shape : Shape → List Bool → Bool
reaches_shape (of_goto t) vs = true
reaches_shape _ vs = any vs

abbrev reaches : Meaning Bool
reaches = record {
  of_shape = reaches_shape;
  of_call = λ name t f args. false;
  of_ret = λ t v. true;
  of_switch = λ c d cases. c;
  of_asm = λ inst clobbers output input. false;
}

reaches-GotoRuns : GotoRuns reaches blocks
unfolding meaning
reaches-GotoRuns zero = refl
reaches-GotoRuns (suc zero) = refl
reaches-GotoRuns (suc (suc _)) = refl

abbrev loops : Loops
loops = and_loop (loop true 1 2 false no_loops) no_loops

block_meaning-inline_blocks_example :
    block_meaning reaches (inline_blocks 3 loops (0 ∷ 1 ∷ 2 ∷ []) blocks) 0
    ≡ block_meaning reaches blocks 0
block_meaning-inline_blocks_example =
    block_meaning-inline_blocks reaches 3 loops (0 ∷ 1 ∷ 2 ∷ []) blocks reaches-GotoRuns 0

-- The block 1 has a single predecessor.
identify_inlinable_blocks-exact_example :
    (identify_inlinable_blocks (λ t. t == 1) (0 ∷ 1 ∷ 2 ∷ []) blocks 0
      ≡ record (blocks 0) { do_inline = false; is_first = true })
    × ((t : ℕ)
        → (0 == t) ≡ false
        → IsIdentified
            (λ t. t == 1)
            (1 ∷ 2 ∷ [])
            t
            (blocks t)
            (identify_inlinable_blocks (λ t. t == 1) (0 ∷ 1 ∷ 2 ∷ []) blocks t))
identify_inlinable_blocks-exact_example =
    identify_inlinable_blocks-exact (λ t. t == 1) 0 (1 ∷ 2 ∷ []) blocks
