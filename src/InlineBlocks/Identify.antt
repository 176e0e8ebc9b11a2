-- ===== src/InlineBlocks/Identify.antt =====
-- Which blocks are marked for inlining.
use llvm2c.Prelude.{
  ℕ, Bool, true, false, ◌≡◌, refl, ◌∙◌, ◌||◌, ◌&&◌, List, [], ◌∷◌, Bool-cases, inl, inr, arith, ap,
  sym, subst, or_left, or_right, or_cases, ◌⊎◌, ◌↔◌, ==_iff, ◌==◌, if◌then◌else◌,
}
use llvm2c.Exprs.{Expr, MaybeExpr, TypeRef, ret_expr}
use llvm2c.Blocks.{BlockState, Blocks}
use llvm2c.InlineBlocks.{
  only_returns, update, is_safe_to_inline, identify_each, identify_inlinable_blocks,
}

abbrev pub is_among : ℕ → List ℕ → Bool
is_among t [] = false
is_among t (i ∷ ids) = i == t || is_among t ids

-- The block, marked in addition if the test holds.
abbrev marked_if : Bool → BlockState → BlockState
marked_if safe b = record b { do_inline = b.do_inline || safe }

module _ (has_single_predecessor : ℕ → Bool) where
  abbrev is_safe : ℕ → BlockState → Bool
  is_safe t b = is_safe_to_inline (has_single_predecessor t) b

  -- The block `t` after the loop: whether it is marked in addition.
  abbrev identified : List ℕ → Blocks → ℕ → BlockState
  identified ids blocks t = marked_if (is_among t ids && is_safe t (blocks t)) (blocks t)

  -- The blocks after one step of the loop.
  abbrev step : ℕ → Blocks → Blocks
  step i blocks =
      if (blocks i).do_inline
      then blocks
      else update i (record (blocks i) { do_inline = is_safe i (blocks i) }) blocks

  step-other : (i t : ℕ) (blocks : Blocks) → (i == t) ≡ false → step i blocks t ≡ blocks t
  unfolding update
  step-other i t blocks ne = ground arith

  step-own :
      (i : ℕ) (blocks : Blocks) → step i blocks i ≡ marked_if (is_safe i (blocks i)) (blocks i)
  unfolding update
  step-own i blocks = ground arith

  marked_if_twice :
      (b : BlockState) (safe more : Bool)
      → marked_if (more && safe) (marked_if safe b) ≡ marked_if safe b
  marked_if_twice b true more = ground arith
  marked_if_twice b false more = ground arith

  unmarked : (b : BlockState) → b ≡ marked_if false b
  unmarked b = ground arith

  identify_each-effect :
      (ids : List ℕ) (blocks : Blocks) (t : ℕ)
      → identify_each has_single_predecessor ids blocks t ≡ identified ids blocks t
  unfolding identify_each is_safe_to_inline
  identify_each-effect [] blocks t = unmarked (blocks t)
  identify_each-effect (i ∷ ids) blocks t = elim (Bool-cases (i == t)) [
    | inl e ↦
        let same : i ≡ t = (==_iff i t).0 e in
        let own : step i blocks t ≡ marked_if (is_safe t (blocks t)) (blocks t) =
          rw same (step-own t blocks) in
        identify_each-effect ids (step i blocks) t
        ∙ rw (e, own) (marked_if_twice (blocks t) (is_safe t (blocks t)) (is_among t ids))
    | inr e ↦ identify_each-effect ids (step i blocks) t ∙ rw (e, step-other i t blocks e) refl
  ]

  first_own :
      (first : ℕ) (safe : Bool) (blocks marked : Blocks)
      → marked first ≡ marked_if safe (blocks first)
      → update first (record (marked first) { do_inline = false; is_first = true }) marked first
        ≡ record (blocks first) { do_inline = false; is_first = true }
  unfolding update
  first_own first safe blocks marked h = rw ((==_iff first first).1 refl, h)

  first_other :
      (first t : ℕ) (b : BlockState) (marked : Blocks)
      → (first == t) ≡ false
      → update first b marked t ≡ marked t
  unfolding update
  first_other first t b marked ne = rw ne

  -- The block has a single predecessor, or a return as its only expression.
  abbrev pub IsReason : ℕ → BlockState → Type 0
  IsReason t b =
      (has_single_predecessor t ≡ true)
      ⊎ ((result : MaybeExpr) × (type : TypeRef) × (b.expressions ≡ ret_expr result type ∷ []))

  only_returns-reason :
      (es : List Expr)
      → only_returns es ≡ true
      → (result : MaybeExpr) × (type : TypeRef) × (es ≡ ret_expr result type ∷ [])
  unfolding only_returns
  only_returns-reason [] h = cc
  only_returns-reason (ret_expr result type ∷ []) h = (result, type, refl)
  only_returns-reason (e ∷ []) h = cc
  only_returns-reason (ret_expr result type ∷ d ∷ es) h = cc
  only_returns-reason (e ∷ d ∷ es) h = cc

  is_safe_iff : (t : ℕ) (b : BlockState) → (is_safe t b ≡ true) ↔ IsReason t b
  unfolding is_safe_to_inline only_returns
  is_safe_iff t b = (
    λ h. elim (or_cases (has_single_predecessor t) (only_returns b.expressions) h) [
      | inl single ↦ inl single
      | inr returns ↦ inr (only_returns-reason b.expressions returns)
    ],
    λ r. elim r [
      | inl single ↦ or_left (has_single_predecessor t) (only_returns b.expressions) single
      | inr (result, type, e) ↦
          or_right (has_single_predecessor t) (only_returns b.expressions) (ap only_returns e)
    ],
  )

  marked_iff : (d a s : Bool) → ((d || (a && s)) ≡ true) ↔ ((d ≡ true) ⊎ ((a ≡ true) × (s ≡ true)))
  marked_iff true a s = (λ h. inl refl, λ h. refl)
  marked_iff false true s = (λ h. inr (refl, h), λ h. elim h [ inl f ↦ cc | inr (_, k) ↦ k ])
  marked_iff false false s = (λ h. cc, λ h. elim h [ inl f ↦ cc | inr (f, _) ↦ cc ])

  -- The block is as it was but for its mark, which it has exactly if it had it, or if it is among
  -- the given ones and there is a reason.
  abbrev pub IsIdentified : List ℕ → ℕ → BlockState → BlockState → Type 0
  IsIdentified ids t before after =
      (after ≡ record before { do_inline = after.do_inline })
      × ((after.do_inline ≡ true)
          ↔ ((before.do_inline ≡ true) ⊎ ((is_among t ids ≡ true) × IsReason t before)))

  identified-IsIdentified :
      (ids : List ℕ) (blocks : Blocks) (t : ℕ)
      → IsIdentified ids t (blocks t) (identified ids blocks t)
  identified-IsIdentified ids blocks t =
      let b = blocks t in
      let m = marked_iff b.do_inline (is_among t ids) (is_safe t b) in
      (
        refl,
        (
          λ h. elim (m.0 h) [
            | inl old ↦ inl old
            | inr (among, safe) ↦ inr (among, (is_safe_iff t b).0 safe)
          ],
          λ r. elim r [
            | inl old ↦ m.1 (inl old)
            | inr (among, reason) ↦ m.1 (inr (among, (is_safe_iff t b).1 reason))
          ],
        ),
      )

  -- Of the blocks of a function, the first is not inlined and is known as the first; any other is
  -- inlined exactly if it was marked before, or has a single predecessor, or has a return as its
  -- only expression; apart from the marks every block stays as it was, and no other block changes.
  pub identify_inlinable_blocks-exact :
      (first : ℕ) (rest : List ℕ) (blocks : Blocks)
      → let result = identify_inlinable_blocks has_single_predecessor (first ∷ rest) blocks in
        (result first ≡ record (blocks first) { do_inline = false; is_first = true })
        × ((t : ℕ) → (first == t) ≡ false → IsIdentified rest t (blocks t) (result t))
  unfolding identify_inlinable_blocks
  identify_inlinable_blocks-exact first rest blocks =
      let marked = identify_each has_single_predecessor (first ∷ rest) blocks in
      (
        first_own first (is_among first (first ∷ rest) && is_safe first (blocks first)) blocks
            marked (identify_each-effect (first ∷ rest) blocks first),
        λ t ne.
            subst (IsIdentified rest t (blocks t))
              (sym (
                first_other first t _ marked ne
                ∙ (identify_each-effect (first ∷ rest) blocks t ∙ rw ne refl)))
              (identified-IsIdentified rest blocks t),
      )
