-- ===== src/GlobalOrder.antt =====
-- parser/computeGlobalVarsOrder.cpp: the order in which global variables are defined, by a
-- depth-first search through their initializers.
pub mod Order
pub mod Steps
pub mod Fuel
pub mod Sorted
pub mod Tests
use llvm2c.Prelude.{
  ℕ, zero, suc, ◌+◌, ◌==◌, Bool, true, false, if◌then◌else◌, Option, none, some, ◌>>=◌, List, [],
  ◌∷◌, ◌++◌,
}

-- A constant of LLVM: a global variable, or another constant with those of its operands that are
-- constants. Apart from global variables, constants contain each other without cycles.
mutual
  pub data Constant : Type 0 where
    variable : ℕ → Constant
    other : Constants → Constant

  pub data Constants : Type 0 where
    no_constant : Constants
    constant : Constant → Constants → Constants

-- `order` and `visited`.
pub record Search : Type 0 where
  pub order : List ℕ
  pub visited : ℕ → Bool

-- `visited.insert(gvar)`
abbrev pub insert : ℕ → (ℕ → Bool) → ℕ → Bool
insert v visited w = if w == v then true else visited w

-- `order.push_back(gvar)`
unfoldable pub push_back : ℕ → Search → Search
push_back v s = record s { order = s.order ++ (v ∷ []) }

-- The two local variables of computeGlobalVarsOrder at the start.
abbrev pub empty_search : Search
empty_search = record { order = []; visited = λ v. false }

-- The loop over `con->operands()`, where `enter` is what is done at a global variable.
module _ (enter : ℕ → Search → Option Search) where
  unfoldable mutual
    pub walk : Constant → Search → Option Search
    walk (variable v) s = enter v s
    walk (other cs) s = walk_operands cs s

    pub walk_operands : Constants → Search → Option Search
    walk_operands no_constant s = some s
    walk_operands (constant c cs) s = do after ← walk c s; walk_operands cs after

module _ (operands : ℕ → Constants) where
  -- computeTopo at a global variable. The fuel is used up by the variables that are visited for the
  -- first time, and `none` stands for fuel that runs out.
  unfoldable pub enter : ℕ → ℕ → Search → Option Search
  unfolding walk push_back
  enter zero v s = if s.visited v then some s else none
  enter (suc fuel) v s =
      let visit =
        (walk_operands (enter fuel) (operands v) (record s { visited = insert v s.visited })
          >>= λ after. some (push_back v after)) in
      if s.visited v then some s else visit

  -- computeTopo
  unfoldable pub compute_topo : ℕ → Constant → Search → Option Search
  unfolding walk enter
  compute_topo fuel con s = walk (enter fuel) con s

  -- The loop of computeGlobalVarsOrder over the module's global variables.
  unfoldable pub compute_each : ℕ → List ℕ → Search → Option Search
  unfolding compute_topo
  compute_each fuel [] s = some s
  compute_each fuel (v ∷ vs) s =
      (if s.visited v then some s else compute_topo fuel (variable v) s) >>= compute_each fuel vs

  -- computeGlobalVarsOrder, up to the order that it computes.
  unfoldable pub compute_global_vars_order : ℕ → List ℕ → Option (List ℕ)
  unfolding compute_each
  compute_global_vars_order fuel globals = do
    after ← compute_each fuel globals empty_search
    some after.order
