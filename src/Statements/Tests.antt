-- ===== src/Statements/Tests.antt =====
-- A switch and an instruction with a single user.
use llvm2c.Prelude.{ℕ, ◌≡◌, refl, true, false, ◌↔◌, List, [], ◌∷◌, codes}
use llvm2c.TypeHandler.{uint}
use llvm2c.Exprs.{Expr, make_value}
use llvm2c.Types.{int_type, long_type, char_type}
use llvm2c.CInt.{convert, ℤ, pos, negsuc, convert}
use llvm2c.FuncState.{Func}
use llvm2c.Statements.{
  Instruction, op_load, op_store, op_add, instruction, can_inline, list_of_one_goto, parse_switch,
}
use llvm2c.Statements.Inline.{ReachesUser, can_inline-exact}
use llvm2c.Statements.Switch.{target, run_switch, run_switch-parse_switch}

abbrev load : Instruction
load = record { address = 2; opcode = op_load }

abbrev store : Instruction
store = record { address = 3; opcode = op_store }

abbrev add : Instruction
add = record { address = 4; opcode = op_add }

can_inline-exact_example :
    (can_inline (instruction (4 ∷ []) (load ∷ add ∷ [])) ≡ true)
    ↔ ((user : ℕ) × ((4 ∷ []) ≡ user ∷ []) × ReachesUser user (load ∷ add ∷ []))
can_inline-exact_example = can_inline-exact (4 ∷ []) (load ∷ add ∷ [])

can_inline-load_test : can_inline (instruction (4 ∷ []) (load ∷ add ∷ [])) ≡ true
unfolding can_inline
can_inline-load_test = refl

can_inline-store_test : can_inline (instruction (4 ∷ []) (store ∷ add ∷ [])) ≡ false
unfolding can_inline
can_inline-store_test = refl

abbrev func : Func
func = record { var_count = 0; metadata_var_names = []; block_count = 0; block_map = [] }

abbrev cases : List (ℤ × ℕ)
cases = (pos 5, 10) ∷ (negsuc 0, 11) ∷ []

abbrev condition : Expr
condition = make_value (codes "x") uint

run_switch-parse_switch_example :
    run_switch int_type true
      (convert int_type true (negsuc 0))
      (parse_switch condition 12 cases func).0
    ≡ list_of_one_goto (target (negsuc 0) 12 cases)
unfolding convert
run_switch-parse_switch_example =
    run_switch-parse_switch int_type true (negsuc 0) condition 12 cases func refl refl
      ((refl, refl), ((refl, refl), tt))

-- The cases 0 and 2^32 get one key, and the first of the two is lost.
lost_case_test :
    run_switch long_type false
      (pos 0)
      (parse_switch condition 12 ((pos 0, 10) ∷ (pos 4294967296, 11) ∷ []) func).0
    ≡ list_of_one_goto 11
unfolding parse_switch convert
lost_case_test = refl

-- A condition of eight bits is promoted to 255, and the case -1 is missed.
promoted_test :
    run_switch char_type true (pos 255) (parse_switch condition 12 ((negsuc 0, 10) ∷ []) func).0
    ≡ list_of_one_goto 12
unfolding parse_switch convert
promoted_test = refl
