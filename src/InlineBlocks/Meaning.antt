-- ===== src/InlineBlocks/Meaning.antt =====
-- Inlining keeps the meaning of every block.
use llvm2c.Prelude.{
  ◌||◌, ℕ, zero, suc, Bool, true, false, ◌≡◌, refl, sym, ap, ◌∙◌, List, [], ◌∷◌, map, if◌then◌else◌,
  ◌==◌, ==_iff, Bool-cases, inl, inr,
}
use llvm2c.Exprs.{Expr, goto_expr}
use llvm2c.Visitor.{accept}
use llvm2c.Visitor.Meaning.{Meaning, of_goto, of_list, meaning, meanings, meaning-accept}
use llvm2c.Blocks.{BlockState, Blocks}
use llvm2c.InlineBlocks.{
  update, inline_each, simplify, inline, inline_each_block, Loop, Loops, loop, no_loops, and_loop,
  set_inline, do_not_inline_latch, do_not_inline_latches, mark_latch, mark_latches, inline_blocks,
}

module _ {V : Type 0} (m : Meaning V) where
  -- The meanings of a block's expressions.
  abbrev pub block_meaning : Blocks → ℕ → List V
  block_meaning blocks target = map (meaning m) (blocks target).expressions

  -- A goto means what the block that it names means.
  abbrev pub GotoRuns : Blocks → Type 0
  GotoRuns blocks =
      (target : ℕ)
      → m.of_shape (of_goto target) [] ≡ m.of_shape of_list (block_meaning blocks target)

  meanings-inline_each :
      (f : Expr → Expr)
      → ((e : Expr) → meaning m (f e) ≡ meaning m e)
      → (es : List Expr) → meanings m (inline_each f es) ≡ map (meaning m) es
  unfolding inline_each meaning
  meanings-inline_each f keeps [] = refl
  meanings-inline_each f keeps (e ∷ es) = rw (keeps e, meanings-inline_each f keeps es)

  meaning-simplify :
      (blocks : Blocks)
      → GotoRuns blocks
      → (fuel : ℕ) (e : Expr) → meaning m (simplify blocks fuel e) ≡ meaning m e
  unfolding simplify meaning
  meaning-simplify blocks runs (suc fuel) (goto_expr target) =
      elim (Bool-cases (blocks target).do_inline) [
        | inl b ↦ rw b (
            ap (m.of_shape of_list) (
              meanings-inline_each _
                (λ e.
                  meaning-simplify blocks runs fuel (accept (simplify blocks fuel) e)
                  ∙ meaning-accept m (simplify blocks fuel) (meaning-simplify blocks runs fuel) e)
                (blocks target).expressions)
            ∙ sym (runs target))
        | inr b ↦ rw b
      ]
  meaning-simplify blocks runs zero e = refl
  meaning-simplify blocks runs (suc _) _ = refl

  meaning-inline :
      (blocks : Blocks)
      → GotoRuns blocks
      → (fuel : ℕ) (e : Expr) → meaning m (inline blocks fuel e) ≡ meaning m e
  unfolding inline
  meaning-inline blocks runs fuel e =
      meaning-simplify blocks runs fuel (accept (simplify blocks fuel) e)
      ∙ meaning-accept m (simplify blocks fuel) (meaning-simplify blocks runs fuel) e

  -- The two tables have blocks of the same meanings.
  abbrev SameMeanings : Blocks → Blocks → Type 0
  SameMeanings old new = (t : ℕ) → block_meaning new t ≡ block_meaning old t

  GotoRuns-same : (old new : Blocks) → SameMeanings old new → GotoRuns old → GotoRuns new
  GotoRuns-same old new same runs target = runs target ∙ ap (m.of_shape of_list) (sym (same target))

  update-same :
      (i : ℕ) (b : BlockState) (blocks : Blocks)
      → map (meaning m) b.expressions ≡ block_meaning blocks i
      → SameMeanings blocks (update i b blocks)
  unfolding update
  update-same i b blocks h t = elim (Bool-cases (i == t)) [
    | inl e ↦ let same : i ≡ t = (==_iff i t).0 e in rw e (h ∙ ap (block_meaning blocks) same)
    | inr e ↦ rw e
  ]

  map-inline :
      (blocks : Blocks)
      → GotoRuns blocks
      → (fuel : ℕ) (es : List Expr)
      → map (meaning m) (map (inline blocks fuel) es) ≡ map (meaning m) es
  map-inline blocks runs fuel [] = refl
  map-inline blocks runs fuel (e ∷ es) =
      rw (meaning-inline blocks runs fuel e, map-inline blocks runs fuel es)

  inline_each_block-same :
      (fuel : ℕ) (ids : List ℕ) (blocks : Blocks)
      → GotoRuns blocks
      → SameMeanings blocks (inline_each_block fuel ids blocks)
  unfolding inline_each_block
  inline_each_block-same fuel [] blocks runs t = refl
  inline_each_block-same fuel (i ∷ rest) blocks runs t =
      let b = blocks i in
      let b' : BlockState = record b { expressions = map (inline blocks fuel) b.expressions } in
      let first = update-same i b' blocks (map-inline blocks runs fuel b.expressions) in
      inline_each_block-same fuel rest (update i b' blocks)
        (GotoRuns-same blocks (update i b' blocks) first runs) t
      ∙ first t

  set_inline-same :
      (i : ℕ) (inlined : Bool) (blocks : Blocks) → SameMeanings blocks (set_inline i inlined blocks)
  unfolding set_inline
  set_inline-same i inlined blocks =
      update-same i (record (blocks i) { do_inline = inlined }) blocks refl

  if-same :
      (c : Bool) (old new : Blocks)
      → SameMeanings old new
      → SameMeanings old (if c then new else old)
  if-same true old new h t = h t
  if-same false old new h t = refl

  mutual
    unfolding do_not_inline_latch

    do_not_inline_latch-same :
        (l : Loop) (blocks : Blocks) → SameMeanings blocks (do_not_inline_latch l blocks)
    do_not_inline_latch-same (loop rotated header latch goes sub) blocks t =
        do_not_inline_latches-same sub _ t
        ∙ if-same rotated blocks _ (set_inline-same latch (latch == header || goes) blocks) t

    do_not_inline_latches-same :
        (ls : Loops) (blocks : Blocks) → SameMeanings blocks (do_not_inline_latches ls blocks)
    do_not_inline_latches-same no_loops blocks t = refl
    do_not_inline_latches-same (and_loop l ls) blocks t =
        do_not_inline_latches-same ls (do_not_inline_latch l blocks) t
        ∙ do_not_inline_latch-same l blocks t

  mutual
    unfolding mark_latch

    mark_latch-same : (l : Loop) (blocks : Blocks) → SameMeanings blocks (mark_latch l blocks)
    mark_latch-same (loop rotated header latch goes sub) blocks t =
        mark_latches-same sub _ t ∙ if-same rotated blocks _ (set_inline-same latch true blocks) t

    mark_latches-same :
        (ls : Loops) (blocks : Blocks) → SameMeanings blocks (mark_latches ls blocks)
    mark_latches-same no_loops blocks t = refl
    mark_latches-same (and_loop l ls) blocks t =
        mark_latches-same ls (mark_latch l blocks) t ∙ mark_latch-same l blocks t

  -- The pass keeps the meanings of the expressions of every block, for any fuel and whatever loops the
  -- function has, in every compositional meaning in which a goto means what the block it names means.
  pub block_meaning-inline_blocks :
      (fuel : ℕ) (loops : Loops) (ids : List ℕ) (blocks : Blocks)
      → GotoRuns blocks
      → (t : ℕ) → block_meaning (inline_blocks fuel loops ids blocks) t ≡ block_meaning blocks t
  unfolding inline_blocks
  block_meaning-inline_blocks fuel loops ids blocks runs t =
      let start = do_not_inline_latches loops blocks in
      let same = do_not_inline_latches-same loops blocks in
      mark_latches-same loops (inline_each_block fuel ids start) t
      ∙ (inline_each_block-same fuel ids start (GotoRuns-same blocks start same runs) t ∙ same t)
