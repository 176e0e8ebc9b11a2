-- ===== src/ParseBreaks/Tests.antt =====
-- A function with a loop of one block, and the edges of two phi nodes that swap their values.
use llvm2c.Prelude.{
  ℕ, zero, suc, ◌==◌, Bool, true, false, not, if◌then◌else◌, ◌≡◌, refl, some, List, [], ◌∷◌, Text,
  codes, text_eq, All,
}
use mathlib.Core.List.Memᴰ
use llvm2c.TypeHandler.{sint}
use llvm2c.Exprs.{Expr, value, select_expr, null}
use llvm2c.ParseBreaks.{
  Phi, Terminator, ret, branch, jump, Cfg, State, LoopInfo, nest, no_nests, and_nest, to_exprs,
  phi_moves, generate_phi_assignments, parse_block, parse_function, make_do_while, is_parsed,
  LoopNests,
}
use llvm2c.ParseBreaks.Run.{Reading, Store, set_var, run_list, IsFreeOf}
use llvm2c.ParseBreaks.Edges.{edge, run-parse_block}
use llvm2c.ParseBreaks.Loops.{tests, ReadsSelects}
use llvm2c.ParseBreaks.DoWhile.{EndsInLoop, make_do_while-edge}
use llvm2c.ParseBreaks.Handled.{parse_function-handles}

abbrev var : Text → Expr
var name = value name (some sint)

-- Variables have their values, and selects those of their operands.
abbrev read_value : (Text → ℕ) → Expr → ℕ
read_value s (value name t) = s name
read_value s (select_expr l r cond negated t) =
    if tests negated (not (read_value s cond == 0)) then read_value s l else read_value s r
read_value s e = 0

abbrev reading : Reading ℕ
reading = record { read = read_value; is_true = λ v. not (v == 0) }

if_read :
    (s : Store ℕ) (b : Bool) (l r : Expr)
    → (if b then read_value s l else read_value s r) ≡ read_value s (if b then l else r)
if_read s true l r = refl
if_read s false l r = refl

reading-ReadsSelects : ReadsSelects reading
reading-ReadsSelects s l r cond negated t =
    if_read s (tests negated (not (read_value s cond == 0))) l r

-- Block 0 leads to the loop of block 1, which goes on while `c` holds and leaves to block 2; `i` is
-- set to `j` on the way back.
abbrev terminators : ℕ → Terminator
terminators zero = jump 1
terminators (suc zero) = branch (var (codes "c")) 2 1
terminators (suc (suc _)) = ret null

abbrev phi_nodes : ℕ → List Phi
phi_nodes (suc zero) =
    record { var = var (codes "i"); incoming = (0, var (codes "n")) ∷ (1, var (codes "j")) ∷ [] }
    ∷ []
phi_nodes _ = []

abbrev cfg : Cfg
cfg = record { phis = phi_nodes; terminator = terminators }

abbrev start : State
start = record {
  blocks = λ b. record {
    block_name = codes "block";
    expressions = [];
    do_inline = false;
    is_first = false;
  };
  br_handled = λ b. false;
}

abbrev info : LoopInfo
info = record { is_rotated = true; preheader = some 0; header = 1; latch = 1; loop_blocks = 1 ∷ [] }

abbrev loops : LoopNests
loops = and_nest (nest info no_nests) no_nests

-- The block 2, behind the loop.
parse_function-handles_example :
    (s' : State) × (parse_function cfg loops (0 ∷ 1 ∷ 2 ∷ []) start ≡ some s')
    × (s'.br_handled 2 ≡ true)
    × ((s'.blocks 2).expressions ≡ ((parse_block cfg 2 start).blocks 2).expressions)
unfolding is_parsed
parse_function-handles_example =
    parse_function-handles cfg 2 loops (0 ∷ 1 ∷ 2 ∷ []) start refl refl
      (Memᴰ.tail (Memᴰ.tail (Memᴰ.head refl)))
      ((λ r. ((0, refl, refl, λ e. cc), (var (codes "c"), 2, 1, refl, λ e. cc)), tt), tt)

free_value :
    (names : List Text) (name : Text)
    → All (λ n. text_eq name n ≡ false) names
    → IsFreeOf reading names (var name)
free_value names name h s s' agree = agree name h

abbrev store : Store ℕ
store name = if text_eq name (codes "c") then 1 else (if text_eq name (codes "j") then 7 else 3)

run-parse_block_example :
    run_list reading (to_exprs ((parse_block cfg 1 start).blocks 1).expressions) store
    ≡ edge reading cfg 1 1 store
unfolding text_eq run_list to_exprs phi_moves
run-parse_block_example =
    run-parse_block reading cfg 1 1 start store store refl refl
      (tt, (free_value [] (codes "j") tt, tt))

make_do_while-edge_example :
    (made : State) × (make_do_while cfg info 0 (branch (var (codes "c")) 2 1) start ≡ some made)
    × EndsInLoop reading 1 store
        (edge reading cfg 1 1 store)
        (generate_phi_assignments cfg 0 1)
        (made.blocks 0).expressions
unfolding text_eq phi_moves
make_do_while-edge_example =
    make_do_while-edge reading cfg info 0 (var (codes "c")) 2 1 1 start store (λ s name t. refl)
      reading-ReadsSelects refl refl refl (tt, (free_value [] (codes "j") tt, tt)) (tt, tt)
      (free_value (codes "i" ∷ []) (codes "c") (refl, tt))

-- Two phi nodes that swap their values on the edge from block 4 to block 5.
abbrev swapping : Cfg
swapping = record {
  phis = λ b.
      record { var = var (codes "x"); incoming = (4, var (codes "y")) ∷ [] }
      ∷ record { var = var (codes "y"); incoming = (4, var (codes "x")) ∷ [] }
      ∷ [];
  terminator = λ b. jump 5;
}

abbrev pair : Store ℕ
pair name = if text_eq name (codes "x") then 1 else 2

-- LLVM gives `y` the value 1, and the assignments 2.
swap_test :
    ((edge reading swapping 4 5 pair).0 (codes "y") ≡ 1)
    × ((run_list reading (to_exprs (generate_phi_assignments swapping 4 5)) pair).0 (codes "y") ≡ 2)
unfolding run_list generate_phi_assignments to_exprs text_eq set_var
swap_test = (refl, refl)
