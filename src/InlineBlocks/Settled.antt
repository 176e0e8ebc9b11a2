-- ===== src/InlineBlocks/Settled.antt =====
-- With fuel above the ranks of the blocks that are inlined, no goto to such a block is left.
use llvm2c.Prelude.{
  ℕ, zero, suc, ◌<◌, true, false, ◌≡◌, refl, sym, subst, List, [], ◌∷◌, All, Bool-cases, inl, inr,
  arith,
}
use llvm2c.Exprs.{Expr, goto_expr}
use llvm2c.Visitor.{accept}
use llvm2c.Visitor.Stable.{GoesTo, IsSettled, AreSettled, accept-IsSettled}
use llvm2c.Visitor.Settle.{HeadGoesTo, IsSettled-simplify}
use llvm2c.Blocks.{Blocks}
use llvm2c.InlineBlocks.{inline_each, simplify, inline}

-- If the block is inlined at all, its rank is below the bound.
abbrev pub RankBelow : Blocks → (ℕ → ℕ) → ℕ → ℕ → Type 0
RankBelow blocks rank bound target = (blocks target).do_inline ≡ true → rank target < bound

-- In an inlined block, every goto to a block that is inlined too names one of a smaller rank.
abbrev pub IsAcyclic : Blocks → (ℕ → ℕ) → Type 0
IsAcyclic blocks rank =
    (target : ℕ)
    → (blocks target).do_inline ≡ true
    → All (GoesTo (RankBelow blocks rank (rank target))) (blocks target).expressions

-- The expression is no goto to a block that is inlined.
abbrev pub is_done : Blocks → Expr → Expr
is_done blocks = simplify blocks 1

module _ (blocks : Blocks) (rank : ℕ → ℕ) (acyclic : IsAcyclic blocks rank) where
  HeadGoesTo-weaken :
      (m n : ℕ) (e : Expr)
      → m < suc n
      → HeadGoesTo (RankBelow blocks rank m) e
      → HeadGoesTo (RankBelow blocks rank n) e
  HeadGoesTo-weaken m n (goto_expr target) lt h = λ i. omega (arith, h i)
  HeadGoesTo-weaken m n _ lt h = tt

  goto_stays :
      (n target : ℕ)
      → (blocks target).do_inline ≡ false
      → simplify blocks n (goto_expr target) ≡ goto_expr target
  unfolding simplify
  goto_stays zero target b = refl
  goto_stays (suc n) target b = rw b

  goto-settles :
      (n target : ℕ)
      → (blocks target).do_inline ≡ false
      → IsSettled (is_done blocks) (simplify blocks n (goto_expr target))
        × (is_done blocks (simplify blocks n (goto_expr target))
            ≡ simplify blocks n (goto_expr target))
  unfolding IsSettled
  goto-settles n target b =
      subst (λ e. IsSettled (is_done blocks) e × (is_done blocks e ≡ e))
        (sym (goto_stays n target b)) (tt, goto_stays 1 target b)

  inline_each-AreSettled :
      (f : Expr → Expr) (P : Expr → Type 0)
      → ((e : Expr) → P e → IsSettled (is_done blocks) (f e) × (is_done blocks (f e) ≡ f e))
      → (es : List Expr) → All P es
      → AreSettled (is_done blocks) (inline_each f es)
  unfolding inline_each IsSettled
  inline_each-AreSettled f P h [] all = tt
  inline_each-AreSettled f P h (e ∷ es) all =
      let (a, b) = h e all.0 in (a, b, inline_each-AreSettled f P h es all.1)

  simplify-settles :
      (n : ℕ) (e : Expr)
      → HeadGoesTo (RankBelow blocks rank n) e
      → IsSettled (is_done blocks) e
      → IsSettled (is_done blocks) (simplify blocks n e)
        × (is_done blocks (simplify blocks n e) ≡ simplify blocks n e)
  unfolding simplify IsSettled
  simplify-settles zero (goto_expr target) h s = elim (Bool-cases (blocks target).do_inline) [
    | inl b ↦ absurd (omega (arith, h b))
    | inr b ↦ goto-settles zero target b
  ]
  simplify-settles zero e h s = (s, refl)
  simplify-settles (suc n) (goto_expr target) h s = elim (Bool-cases (blocks target).do_inline) [
    | inl b ↦ rw b (
      inline_each-AreSettled _ (GoesTo (RankBelow blocks rank (rank target)))
          (IsSettled-simplify (RankBelow blocks rank (rank target)) (simplify blocks n)
            (is_done blocks)
            (λ e head settled.
              simplify-settles n e (HeadGoesTo-weaken (rank target) n e (h b) head) settled))
          (blocks target).expressions (acyclic target b),
      refl,
    )
    | inr b ↦ goto-settles (suc n) target b
  ]
  simplify-settles (suc n) e h s = (s, refl)

  -- For an expression without aggregate initializers, and blocks that are inlined without any: if these
  -- blocks do not name each other in a circle, fuel above the ranks of those that the expression names
  -- is enough: what the pass makes of the expression is no goto to a block
  -- that is inlined, no operand in it is one, and a further visit changes nothing.
  pub inline-IsSettled :
      (fuel : ℕ) (e : Expr)
      → GoesTo (RankBelow blocks rank fuel) e
      → IsSettled (is_done blocks) (inline blocks fuel e)
        × (is_done blocks (inline blocks fuel e) ≡ inline blocks fuel e)
        × (accept (is_done blocks) (inline blocks fuel e) ≡ inline blocks fuel e)
  unfolding inline
  inline-IsSettled fuel e h =
      let (settled, done) =
        IsSettled-simplify (RankBelow blocks rank fuel) (simplify blocks fuel) (is_done blocks)
          (simplify-settles fuel) e h in
      (
        settled,
        done,
        accept-IsSettled (is_done blocks) (simplify blocks fuel (accept (simplify blocks fuel) e))
            settled,
      )
