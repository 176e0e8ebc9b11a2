-- ===== src/ParseBreaks/Handled.antt =====
-- The pass translates every block exactly once.
use llvm2c.Prelude.{
  ℕ, ◌==◌, ==_iff, Bool, true, false, Bool-cases, if◌then◌else◌, ◌≡◌, ◌≢◌, refl, sym, subst, ap,
  ◌∙◌, inl, inr, ◌⊎◌, Option, some, ◌>>=◌, List, [], ◌∷◌, ◌++◌,
}
use mathlib.Core.List.{Memᴰ}
use mathlib.Core.List.Memᴰ
use llvm2c.Exprs.{Expr}
use llvm2c.Blocks.{BlockState, Blocks}
use llvm2c.InlineBlocks.{update, set_inline}
use llvm2c.ParseBreaks.Entry.{parsed_preheader}
use llvm2c.ParseBreaks.{
  Cfg, branch, jump, State, branch_statements, is_parsed, add_exprs, set_handled, parse_block,
  parse_unhandled, LoopInfo, LoopNest, LoopNests, nest, no_nests, and_nest, make_do_while,
  parse_rotated, parse_loop, parse_loops, parse_function,
}

ne_test : (x y : ℕ) → x ≢ y → (x == y) ≡ false
ne_test x y h = elim (Bool-cases (x == y)) [ inl e ↦ absurd (h ((==_iff x y).0 e)) | inr e ↦ e ]

set_inline-expressions :
    (header b : ℕ) (blocks : Blocks)
    → (set_inline header true blocks b).expressions ≡ (blocks b).expressions
unfolding set_inline update
set_inline-expressions header b blocks = elim (Bool-cases (header == b)) [
  | inl e ↦ rw e (ap (λ x. (blocks x).expressions) ((==_iff header b).0 e))
  | inr e ↦ rw e refl
]

module _ (cfg : Cfg) (b : ℕ) where
  -- A loop in rotated form has a preheader, which leads to the header only, and the latch ends in a
  -- branch on a condition; the block is neither of them.
  abbrev pub IsRotatedLoop : LoopInfo → Type 0
  IsRotatedLoop info =
      ((p : ℕ) × (info.preheader ≡ some p) × (cfg.terminator p ≡ jump info.header) × (p ≢ b))
      × ((cond : Expr) × (f : ℕ) × (t : ℕ) × (cfg.terminator info.latch ≡ branch cond f t)
          × (info.latch ≢ b))

  abbrev mutual
    pub AreLoops : LoopNests → Type 0
    AreLoops no_nests = Unit
    AreLoops (and_nest l ls) = IsLoop l × AreLoops ls

    pub IsLoop : LoopNest → Type 0
    IsLoop (nest info subs) = (info.is_rotated ≡ true → IsRotatedLoop info) × AreLoops subs

  module _ (parsed : is_parsed (cfg.terminator b) ≡ true) (before : List Expr) where
    abbrev statements : List Expr
    statements = branch_statements cfg b (cfg.terminator b)

    -- The block is as it was before, or it is translated, once.
    abbrev Seen : Bool → List Expr → Type 0
    Seen handled es =
        ((handled ≡ false) × (es ≡ before)) ⊎ ((handled ≡ true) × (es ≡ before ++ statements))

    abbrev IsSeen : State → Type 0
    IsSeen s = Seen (s.br_handled b) (s.blocks b).expressions

    parse_block-own : (s : State) → s.br_handled b ≡ false → IsSeen s → IsSeen (parse_block cfg b s)
    unfolding parse_block add_exprs update set_handled
    parse_block-own s fresh (inl (h, e)) =
        rw ((==_iff b b).1 refl, parsed, e) (inr (rw ((==_iff b b).1 refl) refl, refl))
    parse_block-own s fresh (inr (h, e)) = cc

    parse_block-other : (c : ℕ) (s : State) → c ≢ b → IsSeen s → IsSeen (parse_block cfg c s)
    unfolding parse_block add_exprs update set_handled
    parse_block-other c s other seen =
        rw (ne_test c b other) (handled (is_parsed (cfg.terminator c)))
      where
        handled :
            (t : Bool)
            → Seen
                ((if t then set_handled c true s.br_handled else s.br_handled) b)
                (s.blocks b).expressions
        handled true = rw (ne_test b c (λ e. other (sym e))) seen
        handled false = seen

    step : ℕ → State → State
    step c s = if s.br_handled c then s else parse_block cfg c s

    step-IsSeen : (c : ℕ) (s : State) → IsSeen s → IsSeen (step c s)
    unfolding step
    step-IsSeen c s seen = elim (Bool-cases (s.br_handled c)) [
      | inl e ↦ rw e seen
      | inr e ↦ rw e (elim (Bool-cases (c == b)) [
        | inl same ↦
            let eq : b ≡ c = sym ((==_iff c b).0 same) in
            subst (λ x. IsSeen (parse_block cfg x s)) eq
              (parse_block-own s (ap s.br_handled eq ∙ e) seen)
        | inr ne ↦ parse_block-other c s (λ eq. cc (rw ((==_iff c b).1 eq) at ne)) seen
      ])
    ]

    parse_unhandled-IsSeen :
        (bs : List ℕ) (s : State) → IsSeen s → IsSeen (parse_unhandled cfg bs s)
    unfolding parse_unhandled step
    parse_unhandled-IsSeen [] s seen = seen
    parse_unhandled-IsSeen (c ∷ bs) s seen =
        parse_unhandled-IsSeen bs (step c s) (step-IsSeen c s seen)

    -- The operation succeeds, and the block stays so.
    abbrev Makes : State → Option State → Type 0
    Makes s made = (s' : State) × (made ≡ some s') × (IsSeen s → IsSeen s')

    elsewhere :
        (p latch header : ℕ) (x : BlockState) (s : State)
        → p ≢ b
        → latch ≢ b
        → IsSeen s
        → Seen
            (set_handled latch true s.br_handled b)
            (update p x (set_inline header true s.blocks) b).expressions
    unfolding update set_handled
    elsewhere p latch header x s not_p not_latch seen =
        rw
          (
            ne_test p b not_p,
            ne_test b latch (λ e. not_latch (sym e)),
            set_inline-expressions header b s.blocks,
          )
          seen

    make_do_while-Makes :
        (info : LoopInfo) (p : ℕ) (cond : Expr) (f t : ℕ) (s : State)
        → cfg.terminator p ≡ jump info.header
        → p ≢ b
        → info.latch ≢ b
        → Makes s (make_do_while cfg info p (branch cond f t) s)
    unfolding make_do_while
    make_do_while-Makes info p cond f t s e not_p not_latch =
        rw (parsed_preheader cfg p info.header s e) (
          _,
          refl,
          λ seen.
              elsewhere p info.latch info.header _ (parse_block cfg p s) not_p not_latch
                (parse_block-other p s not_p seen),
        )

    parse_rotated-Makes :
        (info : LoopInfo) (s : State) → IsRotatedLoop info → Makes s (parse_rotated cfg info s)
    unfolding parse_rotated
    parse_rotated-Makes info s ((p, found, leads, not_p), (cond, f, t, latch, not_latch)) =
        rw (found, latch) (make_do_while-Makes info p cond f t s leads not_p not_latch)

    Makes-bind :
        (s : State) (made : Option State) (next : State → Option State)
        → Makes s made
        → ((s' : State) → Makes s' (next s'))
        → Makes s (made >>= next)
    Makes-bind s made next (s', e, keeps) h =
        let (s'', e', keeps') = h s' in
        (s'', ap (λ o. o >>= next) e ∙ e', λ seen. keeps' (keeps seen))

    rotated-Makes :
        (info : LoopInfo) (r : Bool) (s : State)
        → (r ≡ true → IsRotatedLoop info)
        → Makes s (if r then parse_rotated cfg info s else some s)
    rotated-Makes info true s h = parse_rotated-Makes info s (h refl)
    rotated-Makes info false s h = (s, refl, λ seen. seen)

    mutual
      unfolding parse_loop

      parse_loop-Makes : (l : LoopNest) (s : State) → IsLoop l → Makes s (parse_loop cfg l s)
      parse_loop-Makes (nest info subs) s (rotated, inner) =
          Makes-bind s (parse_loops cfg subs s) _ (parse_loops-Makes subs s inner) λ s'.
            Makes-bind s' (if info.is_rotated then parse_rotated cfg info s' else some s') _
              (rotated-Makes info info.is_rotated s' rotated)
              λ s''. (
                parse_unhandled cfg info.loop_blocks s'',
                refl,
                parse_unhandled-IsSeen info.loop_blocks s'',
              )

      parse_loops-Makes :
          (ls : LoopNests) (s : State) → AreLoops ls → Makes s (parse_loops cfg ls s)
      parse_loops-Makes no_nests s h = (s, refl, λ seen. seen)
      parse_loops-Makes (and_nest l ls) s (h, hs) =
          Makes-bind s (parse_loop cfg l s) (parse_loops cfg ls) (parse_loop-Makes l s h)
            (λ s'. parse_loops-Makes ls s' hs)

    step-own : (s : State) → IsSeen s → (step b s).br_handled b ≡ true
    unfolding step parse_block set_handled
    step-own s seen = elim (Bool-cases (s.br_handled b)) [
      | inl e ↦ rw e e
      | inr e ↦ rw (e, parsed, (==_iff b b).1 refl) refl
    ]

    -- A block that is handled stays so.
    stays-handled : (c : ℕ) (s : State) → s.br_handled b ≡ true → (step c s).br_handled b ≡ true
    unfolding step parse_block set_handled
    stays-handled c s h = elim (Bool-cases (s.br_handled c)) [
      | inl e ↦ rw e h
      | inr e ↦ rw e (kept (is_parsed (cfg.terminator c)) (Bool-cases (b == c)))
    ]
      where
        kept :
            (t : Bool)
            → ((b == c) ≡ true) ⊎ ((b == c) ≡ false)
            → (if t then set_handled c true s.br_handled else s.br_handled) b ≡ true
        kept true (inl e) = rw e refl
        kept true (inr e) = rw e h
        kept false e = h

    unhandled-stays :
        (bs : List ℕ) (s : State)
        → s.br_handled b ≡ true
        → (parse_unhandled cfg bs s).br_handled b ≡ true
    unfolding parse_unhandled step
    unhandled-stays [] s h = h
    unhandled-stays (c ∷ bs) s h = unhandled-stays bs (step c s) (stays-handled c s h)

    reached :
        (bs : List ℕ) (s : State)
        → IsSeen s
        → Memᴰ b bs
        → (parse_unhandled cfg bs s).br_handled b ≡ true
    unfolding parse_unhandled step
    reached [] s seen m = absurd (Memᴰ.not-nil m)
    reached (c ∷ bs) s seen m = elim (Memᴰ.cases_cons m) [
      | inl same ↦
          unhandled-stays bs (step c s)
            (subst (λ x. (step x s).br_handled b ≡ true) same (step-own s seen))
      | inr further ↦ reached bs (step c s) (step-IsSeen c s seen) further
    ]

    translated :
        (s : State)
        → IsSeen s
        → s.br_handled b ≡ true
        → (s.blocks b).expressions ≡ before ++ statements
    translated s (inl (h, e)) handled = cc
    translated s (inr (h, e)) handled = e

-- A block of the function that ends in a return or a branch, is not handled yet, and is neither the
-- preheader nor the latch of a loop in rotated form, where every such loop has a preheader that leads
-- to the header only and a latch with a branch on a condition: the pass finishes without a failed
-- assertion, and then the block is handled, and has the statements that parseBlock alone gives it, once
-- and nothing else, whatever the loops are that it is in.
pub parse_function-handles :
    (cfg : Cfg) (b : ℕ) (loops : LoopNests) (ids : List ℕ) (s : State)
    → is_parsed (cfg.terminator b) ≡ true
    → s.br_handled b ≡ false
    → Memᴰ b ids
    → AreLoops cfg b loops
    → (s' : State) × (parse_function cfg loops ids s ≡ some s')
      × (s'.br_handled b ≡ true)
      × ((s'.blocks b).expressions ≡ ((parse_block cfg b s).blocks b).expressions)
unfolding parse_function parse_block add_exprs update
parse_function-handles cfg b loops ids s parsed fresh among h =
    let before = (s.blocks b).expressions in
    let (made, e, keeps) = parse_loops-Makes cfg b parsed before loops s h in
    let seen = keeps (inl (fresh, refl)) in
    let handled = reached cfg b parsed before ids made seen among in
    (
      parse_unhandled cfg ids made,
      ap (λ o. o >>= λ t. some (parse_unhandled cfg ids t)) e,
      handled,
      translated cfg b parsed before (parse_unhandled cfg ids made)
            (parse_unhandled-IsSeen cfg b parsed before ids made seen) handled
          ∙ rw ((==_iff b b).1 refl) refl,
    )
