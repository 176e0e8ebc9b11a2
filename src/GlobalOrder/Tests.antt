-- ===== src/GlobalOrder/Tests.antt =====
-- The search on small modules.
use llvm2c.Prelude.{ℕ, zero, suc, ◌≡◌, refl, some, List, [], ◌∷◌, ◌<◌, ◌-◌, arith}
use mathlib.Core.List.{Memᴰ}
use llvm2c.GlobalOrder.{
  Constants, variable, other, no_constant, constant, compute_global_vars_order,
}
use llvm2c.GlobalOrder.Order.{AnyMentions, IsAcyclic, IsOrdered, IsOnce}
use llvm2c.GlobalOrder.Sorted.{compute_global_vars_order-topological}

-- `g0 = {g1, {g2}}`, `g1 = &g2`
abbrev chain : ℕ → Constants
chain zero =
    constant
      (other
        (constant (variable 1) (constant (other (constant (variable 2) no_constant)) no_constant)))
      no_constant
chain (suc zero) = constant (variable 2) no_constant
chain (suc (suc n)) = no_constant

-- `g0 = &g1`, `g1 = &g0`
abbrev cycle : ℕ → Constants
cycle zero = constant (variable 1) no_constant
cycle (suc zero) = constant (variable 0) no_constant
cycle (suc (suc n)) = no_constant

chain_run : compute_global_vars_order chain 3 (0 ∷ 1 ∷ 2 ∷ []) ≡ some (2 ∷ 1 ∷ 0 ∷ [])
unfolding compute_global_vars_order
chain_run = refl

cycle_run : compute_global_vars_order cycle 2 (0 ∷ 1 ∷ []) ≡ some (1 ∷ 0 ∷ [])
unfolding compute_global_vars_order
cycle_run = refl

abbrev rank : ℕ → ℕ
rank v = 3 - v

chain-IsAcyclic : IsAcyclic chain rank
unfolding AnyMentions
chain-IsAcyclic zero d m = ground arith
chain-IsAcyclic (suc zero) d m = ground arith
chain-IsAcyclic (suc (suc n)) d m = ground arith

chain-closed : (v d : ℕ) → AnyMentions d (chain v) → d < 3
unfolding AnyMentions
chain-closed zero d m = ground arith
chain-closed (suc zero) d m = ground arith
chain-closed (suc (suc n)) d m = ground arith

cycle-closed : (v d : ℕ) → AnyMentions d (cycle v) → d < 2
unfolding AnyMentions
cycle-closed zero d m = ground arith
cycle-closed (suc zero) d m = ground arith
cycle-closed (suc (suc n)) d m = ground arith

compute_global_vars_order-topological_example :
    (order : List ℕ) × (compute_global_vars_order chain 3 (0 ∷ 1 ∷ 2 ∷ []) ≡ some order)
    × IsOrdered chain [] order
    × IsOnce order
    × ((v : ℕ) → Memᴰ v (0 ∷ 1 ∷ 2 ∷ []) → Memᴰ v order)
compute_global_vars_order-topological_example =
    compute_global_vars_order-topological chain rank chain-IsAcyclic 3 (0 ∷ 1 ∷ 2 ∷ []) chain-closed
      (omega arith, (omega arith, (omega arith, tt)))
