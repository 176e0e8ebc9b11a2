-- ===== src/ExprWriter/Tests.antt =====
-- Printed expressions, and the theorem on their brackets at one of them.
use llvm2c.Prelude.{
  ℕ, zero, suc, ◌<◌, ◌≡◌, refl, true, false, none, some, [], ◌∷◌, Text, codes, text_eq, arith,
}
use llvm2c.Types.Print.{to_string}
use llvm2c.TypeHandler.{sint, uint, bool_object}
use llvm2c.Exprs.{
  Expr, value, if_expr, goto_expr, latch_expr, call_expr, unary, ref_expr, ret_expr, binary,
  add_expr, assign_expr, lshr_expr, cmp_expr, expr_list, do_while, null, just, nil, cons,
}
use llvm2c.Blocks.{BlockState}
use llvm2c.ExprWriter.{Out, ItemNames, put, write}
use llvm2c.ExprWriter.Brackets.{Balanced, scan}
use llvm2c.ExprWriter.Latches.{BlocksWritable, write-Balanced}
use llvm2c.ExprWriter.Writable.{IsWritable}

abbrev x : Expr
x = value (codes "x") (some sint)

abbrev y : Expr
y = value (codes "y") (some uint)

abbrev sum : Expr
sum = binary (add_expr false) x y (some sint)

abbrev no_items : ItemNames
no_items t n = none

-- The block of number 0 is the latch of a loop.
abbrev block : ℕ → BlockState
block zero = record {
  block_name = codes "latch";
  expressions = binary assign_expr x sum (some sint) ∷ [];
  do_inline = true;
  is_first = false;
}
block (suc _) = record {
  block_name = codes "entry";
  expressions = [];
  do_inline = false;
  is_first = true;
}

abbrev block_rank : ℕ → ℕ
block_rank target = 0

-- A loop with its latch, and a conditional with an early return.
abbrev loop : Expr
loop =
    do_while
      (expr_list (
        cons
          (if_expr (binary (cmp_expr (codes "<") false) x y (some bool_object)) (goto_expr 1)
            (ret_expr (just sum) none))
          (cons (call_expr null (codes "va_end") (cons (unary ref_expr x none) nil) none)
            (cons (latch_expr 0 false) nil))))
      (binary (cmp_expr (codes "!=") true) x sum (some bool_object)) true

show : Expr → Out
unfolding write
show e = write false no_items block 1 0 e

nested :
    show (binary assign_expr x (binary lshr_expr x sum (some sint)) (some sint))
    ≡ put "x = ((unsigned int)(x) >> (x + y))"
unfolding show write to_string
nested = refl

loop_text :
    show loop
    ≡ put
        "do {\n    if (x < y) {\n        goto entry    } else {\n        return x + y    }\n    va_end((void*)(&x));\n    latch:\n    x = (x + y);\n} while ( !(x != (x + y) ))"
unfolding show write text_eq
loop_text = refl

block-BlocksWritable : BlocksWritable no_items block block_rank
unfolding scan IsWritable
block-BlocksWritable zero = (λ due. refl, ((λ due. refl, (λ due. refl, λ due. refl, tt), tt), tt))
block-BlocksWritable (suc n) = (λ due. refl, tt)

loop-IsWritable : IsWritable no_items (λ target. block_rank target < 1) loop
unfolding scan IsWritable text_eq
loop-IsWritable = (
  (
    ((λ due. refl, λ due. refl, λ due. refl), tt, (λ due. refl, λ due. refl, tt)),
    ((λ due. refl, ((tt, λ due. refl), tt), tt), (omega arith, tt)),
  ),
  (λ due. refl, (λ due. refl, λ due. refl, tt), λ due. refl),
)

write-Balanced_example : (t : Text) × (write false no_items block 1 0 loop ≡ some t) × Balanced t
write-Balanced_example =
    write-Balanced false no_items block block_rank block-BlocksWritable 1 0 loop loop-IsWritable
