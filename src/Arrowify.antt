-- ===== src/Arrowify.antt =====
-- parser/arrowify.cpp: the pass that writes `p->f` for `(*p).f`.
pub mod Proofs
pub mod Typing
pub mod Tests
use llvm2c.Prelude.{
  ℕ, Text, Option, none, some, Bool, true, false, ◌&&◌, if◌then◌else◌, List, [], ◌∷◌, map,
}
use llvm2c.Types.{CType, pointer, struct_of}
use llvm2c.Exprs.{Expr, Label, TypeRef, get_type, aggregate_element, arrow_expr, unary, deref_expr}
use llvm2c.Visitor.{Code, run_visitor}
use llvm2c.Visitor.Meaning.{Shape, of_arrow, Meaning, meaning}

-- The item types of the program's structs, by struct and position.
abbrev pub Items : Type 0
Items = CType → ℕ → TypeRef

-- The type that ArrowExpr's constructor sets; `none` where it asserts a pointer to a struct.
unfoldable pub arrow_type : Items → TypeRef → ℕ → TypeRef
arrow_type items (some (pointer _ (struct_of addr name) _)) n = items (struct_of addr name) n
arrow_type items _ n = none

-- ArrowExpr::ArrowExpr
unfoldable pub make_arrow : Items → Expr → ℕ → Expr
unfolding arrow_type get_type
make_arrow items e n = arrow_expr e n (arrow_type items (get_type e) n)

-- ArrowifyVisitor::simplify
unfoldable pub simplify : Items → Expr → Expr
unfolding make_arrow
simplify items (aggregate_element (unary deref_expr e _) n _) = make_arrow items e n
simplify items e = e

-- Whether the assertions of ArrowExpr's constructor hold in what is made of an expression: an arrow
-- has a type then, and none where one of them fails.
abbrev pub all_hold : List Bool → Bool
all_hold [] = true
all_hold (b ∷ bs) = b && all_hold bs

abbrev pub maybe_holds : Option Bool → Bool
maybe_holds none = true
maybe_holds (some b) = b

unfoldable pub shape_holds : Shape → List Bool → Bool
shape_holds (of_arrow n none) bs = false
shape_holds s bs = all_hold bs

abbrev pub assertions : Meaning Bool
assertions = record {
  of_shape = shape_holds;
  of_call = λ name t f args. maybe_holds f && all_hold args;
  of_ret = λ t b. maybe_holds b;
  of_switch = λ c d cases. c && (d && all_hold (map (λ (p : Label × Bool). p.1) cases));
  of_asm = λ inst clobbers output input.
      all_hold (map (λ (p : Text × Option Bool). maybe_holds p.1) output)
      && all_hold (map (λ (p : Text × Option Bool). maybe_holds p.1) input);
}

-- The loops over functions, blocks and expressions.
unfoldable pub code_holds : Code → Bool
unfolding meaning shape_holds
code_holds code =
    all_hold
      (map (λ blocks. all_hold (map (λ es. all_hold (map (meaning assertions) es)) blocks)) code)

-- arrowify; `none` stands for a failed assertion.
unfoldable pub arrowify : Items → Code → Option Code
unfolding run_visitor simplify code_holds
arrowify items code =
    let made = run_visitor (simplify items) code in if code_holds made then some made else none
