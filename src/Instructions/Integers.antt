-- ===== src/Instructions/Integers.antt =====
-- The expression for an integer comparison, once addSignCasts has visited it, evaluates to what LLVM's
-- comparison gives.
use llvm2c.Prelude.{Bool, true, false, ◌≡◌, ◌≢◌, refl, ap, Option, none, some, Text, codes, ◌>>=◌}
use llvm2c.Types.{IntegerClass}
use llvm2c.Exprs.{Expr, cmp_expr, make_binary}
use llvm2c.CInt.{ℤ, pos, convert, truth, compare_values}
use llvm2c.Predicates.{
  Predicate, icmp_eq, icmp_ne, icmp_ugt, icmp_uge, icmp_ult, icmp_ule, icmp_sgt, icmp_sge, icmp_slt,
  icmp_sle, is_integer_compare_unsigned, get_compare_predicate,
}
use llvm2c.Predicates.Meaning.{holds_integer}
use llvm2c.RedundantCasts.Values.{Leaves, eval}
use llvm2c.SignCasts.{visit}
use llvm2c.SignCasts.Compare.{IsOperand, eval-visit_cmp}
use llvm2c.Instructions.{parse_icmp}

-- An operand's value, read as an unsigned number of its width and as a signed one.
abbrev pub readings : IntegerClass → ℤ → ℤ × ℤ
readings c v = (convert c true v, convert c false v)

module _ (m : Leaves) (c : IntegerClass) (l r : Expr) where
  -- The translated comparison exists, and has after addSignCasts the value given.
  abbrev pub HasValue : Option Expr → Option Bool → Type 0
  HasValue made value =
      (e : Expr) × (made ≡ some e) × (some (eval m (visit e)) ≡ (value >>= λ b. some (truth b)))

  translated :
      (op : Text) (u : Bool)
      → IsOperand m c u (visit l)
      → IsOperand m c u (visit r)
      → HasValue (some (make_binary (cmp_expr op u) l r)) (
          some
            (compare_values op (convert c u (eval m (visit l))) (convert c u (eval m (visit r)))))
  unfolding make_binary
  translated op u hl hr = (_, refl, ap some (eval-visit_cmp m c op u l r _ hl hr))

  -- For every integer predicate, and operands of one class of integers whose types have the partners
  -- that the predicate's signedness needs, the translated comparison evaluates after addSignCasts to
  -- what the predicate says of the operands' values, read as unsigned or as signed numbers.
  pub eval-parse_icmp :
      (p : Predicate)
      → ((a b : ℤ × ℤ) → holds_integer p a b ≢ none)
      → ((u : Bool) → is_integer_compare_unsigned p ≡ some u → IsOperand m c u (visit l))
      → ((u : Bool) → is_integer_compare_unsigned p ≡ some u → IsOperand m c u (visit r))
      → HasValue
          (parse_icmp p l r)
          (holds_integer p (readings c (eval m (visit l))) (readings c (eval m (visit r))))
  unfolding parse_icmp holds_integer compare_values get_compare_predicate
      is_integer_compare_unsigned
  eval-parse_icmp icmp_eq h hl hr = translated (codes "==") true (hl true refl) (hr true refl)
  eval-parse_icmp icmp_ne h hl hr = translated (codes "!=") true (hl true refl) (hr true refl)
  eval-parse_icmp icmp_ugt h hl hr = translated (codes ">") true (hl true refl) (hr true refl)
  eval-parse_icmp icmp_uge h hl hr = translated (codes ">=") true (hl true refl) (hr true refl)
  eval-parse_icmp icmp_ult h hl hr = translated (codes "<") true (hl true refl) (hr true refl)
  eval-parse_icmp icmp_ule h hl hr = translated (codes "<=") true (hl true refl) (hr true refl)
  eval-parse_icmp icmp_sgt h hl hr = translated (codes ">") false (hl false refl) (hr false refl)
  eval-parse_icmp icmp_sge h hl hr = translated (codes ">=") false (hl false refl) (hr false refl)
  eval-parse_icmp icmp_slt h hl hr = translated (codes "<") false (hl false refl) (hr false refl)
  eval-parse_icmp icmp_sle h hl hr = translated (codes "<=") false (hl false refl) (hr false refl)
  eval-parse_icmp p h hl hr = absurd (h (pos 0, pos 0) (pos 0, pos 0) refl)
