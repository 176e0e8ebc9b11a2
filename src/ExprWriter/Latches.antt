-- ===== src/ExprWriter/Latches.antt =====
-- Printing an expression ends, with matching brackets, where the latch blocks do not name each other
-- in a circle.
use llvm2c.Prelude.{ℕ, zero, suc, ◌<◌, ◌≡◌, refl, Bool, some, List, [], ◌∷◌, Text, All, arith}
use llvm2c.Exprs.{Expr}
use llvm2c.Blocks.{Blocks}
use llvm2c.ExprWriter.{ItemNames, after_label, target_name, write_latch, write}
use llvm2c.ExprWriter.Brackets.{scan_out, scan_out-<<, Balanced, WritesBalanced, written-Balanced}
use llvm2c.ExprWriter.Writable.{IsWritable}
use llvm2c.ExprWriter.Balance.{visit-WritesBalanced, block-WritesBalanced}

-- The brackets match in the block's name, and its expressions can be written, with latches of a
-- smaller rank only.
abbrev pub BlocksWritable : ItemNames → Blocks → (ℕ → ℕ) → Type 0
BlocksWritable names blocks rank =
    (target : ℕ)
    → Balanced (blocks target).block_name
      × All (IsWritable names (λ inner. rank inner < rank target)) (blocks target).expressions

after_label-WritesBalanced : (es : List Expr) → WritesBalanced (after_label es)
unfolding scan_out
after_label-WritesBalanced [] due = refl
after_label-WritesBalanced (_ ∷ _) due = refl

module _ (no_casts : Bool) (names : ItemNames) (blocks : Blocks) (rank : ℕ → ℕ)
    (writable : BlocksWritable names blocks rank) where
  latch-WritesBalanced :
      (fuel i target : ℕ)
      → rank target < fuel
      → WritesBalanced (write_latch no_casts names blocks fuel i target)
  unfolding write_latch scan_out
  latch-WritesBalanced zero i target h due = absurd (omega arith)
  latch-WritesBalanced (suc fuel) i target h due = simp (
    scan_out-<<,
    (writable target).0,
    after_label-WritesBalanced (blocks target).expressions,
    block-WritesBalanced no_casts names (λ inner. rank inner < rank target) (target_name blocks)
        (write_latch no_casts names blocks fuel) (λ t. (writable t).0)
        (λ j inner lt. latch-WritesBalanced fuel j inner (omega arith)) i
        (blocks target).expressions (writable target).1,
  )

  -- If the expression has the types and items that the writer asks for, if the brackets match in its
  -- names, and if the latch blocks, which must be so too, have ranks that fall from a block to the
  -- latches in it, then fuel above the ranks of the expression's own latches is enough: the writer
  -- gives a text, follows no null pointer, and every parenthesis, bracket and brace in the text is
  -- closed by its own kind.
  pub write-Balanced :
      (fuel i : ℕ) (e : Expr)
      → IsWritable names (λ target. rank target < fuel) e
      → (t : Text) × (write no_casts names blocks fuel i e ≡ some t) × Balanced t
  unfolding write
  write-Balanced fuel i e h = written-Balanced (write no_casts names blocks fuel i e) (
      visit-WritesBalanced no_casts names (λ target. rank target < fuel) (target_name blocks)
        (write_latch no_casts names blocks fuel) (λ t. (writable t).0)
        (λ j target lt. latch-WritesBalanced fuel j target lt) i e h)
