-- ===== src/ParseBreaks/Entry.antt =====
-- The statements that the preheader of a loop has before the do-while.
use llvm2c.Prelude.{
  ℕ, ==_iff, ◌≡◌, refl, sym, ap, ◌∙◌, some, ◌>>=◌, List, [], ◌∷◌, ◌++◌, append_assoc,
}
use llvm2c.Exprs.{Expr, goto_expr}
use llvm2c.InlineBlocks.{update}
use llvm2c.ParseBreaks.{
  Cfg, jump, State, generate_phi_assignments, branch_statements, add_exprs, parse_block,
  remove_goto,
}

remove_goto-last :
    (header : ℕ) (es : List Expr) → remove_goto header (es ++ (goto_expr header ∷ [])) ≡ some es
unfolding remove_goto
remove_goto-last header [] = rw ((==_iff header header).1 refl) refl
remove_goto-last header (e ∷ []) = rw ((==_iff header header).1 refl) refl
remove_goto-last header (e ∷ d ∷ es) =
    ap (λ o. o >>= λ rest. some (e ∷ rest)) (remove_goto-last header (d ∷ es))

-- The statements of a block that is parsed and leads to the header, without the goto.
pub parsed_preheader :
    (cfg : Cfg) (p header : ℕ) (s : State)
    → cfg.terminator p ≡ jump header
    → remove_goto header ((parse_block cfg p s).blocks p).expressions
      ≡ some ((s.blocks p).expressions ++ generate_phi_assignments cfg p header)
unfolding parse_block add_exprs update branch_statements
parsed_preheader cfg p header s e =
    rw ((==_iff p p).1 refl, e)
      (ap (remove_goto header) (
          sym (
            append_assoc (s.blocks p).expressions (generate_phi_assignments cfg p header)
              (goto_expr header ∷ [])))
        ∙ remove_goto-last header
            ((s.blocks p).expressions ++ generate_phi_assignments cfg p header))
