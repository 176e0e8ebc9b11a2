-- ===== src/GlobalOrder/Sorted.antt =====
-- The whole order: for global variables whose initializers mention each other without cycles, each
-- stands once in the order, after those that its initializer mentions.
use llvm2c.Prelude.{
  ℕ, suc, true, Bool-cases, some, bind-some, some_injective, List, [], ◌∷◌, ◌≡◌, sym, subst, inl,
  inr, ◌<◌, arith, if◌then◌else◌, All,
}
use mathlib.Core.List.{Memᴰ}
use mathlib.Core.List.Memᴰ
use llvm2c.GlobalOrder.{
  Constants, variable, Search, empty_search, walk, enter, compute_topo, compute_each,
  compute_global_vars_order,
}
use llvm2c.GlobalOrder.Fuel.{compute_global_vars_order-total}
use llvm2c.GlobalOrder.Order.{AnyMentions, IsAcyclic, IsOrdered, IsOnce, IsSound, Extends}
use llvm2c.GlobalOrder.Steps.{Step, nothing_done, enter-Step}

module _ (operands : ℕ → Constants) (rank : ℕ → ℕ) (acyclic : IsAcyclic operands rank) where
  -- Between two searches every visited variable is in the order.
  abbrev IsFinished : Search → Type 0
  IsFinished s = (w : ℕ) → s.visited w ≡ true → Memᴰ w s.order

  visit_one-Step :
      (fuel v : ℕ) (s s' : Search)
      → IsSound operands s
      → IsFinished s
      → (if s.visited v then some s else compute_topo operands fuel (variable v) s) ≡ some s'
      → Step operands rank acyclic (λ d. d ≡ v) s s'
  unfolding compute_topo walk
  visit_one-Step fuel v s s' sound done h = elim (Bool-cases (s.visited v)) [
    | inl e ↦
        nothing_done operands rank acyclic (λ d. d ≡ v) s s'
          (subst (λ b. (if b then some s else enter operands fuel v s) ≡ some s') e h) sound
          (λ d eq. subst (λ x. Memᴰ x s.order) (sym eq) (done v e))
    | inr e ↦
        enter-Step operands rank acyclic fuel (suc (rank v)) v s s' (omega arith) sound
          (λ w k. inl (done w k))
          (subst (λ b. (if b then some s else enter operands fuel v s) ≡ some s') e h)
  ]

  IsFinished-step : (s t : Search) → IsFinished s → Extends operands s t → IsFinished t
  IsFinished-step s t done x w h = elim (x.visited_new w h) [
    | inl k ↦ x.order_mono w (done w k)
    | inr m ↦ m
  ]

  -- What the loop makes of the state.
  abbrev Sorts : List ℕ → Search → Search → Type 0
  Sorts vs s s' =
      IsSound operands s'
      × ((w : ℕ) → Memᴰ w s.order → Memᴰ w s'.order)
      × ((w : ℕ) → Memᴰ w vs → Memᴰ w s'.order)

  compute_each-Sorts :
      (fuel : ℕ) (vs : List ℕ) (s s' : Search)
      → IsSound operands s
      → IsFinished s
      → compute_each operands fuel vs s ≡ some s'
      → Sorts vs s s'
  unfolding compute_each
  compute_each-Sorts fuel [] s s' sound done h =
      subst (Sorts [] s) (some_injective s s' h) (sound, λ w m. m, λ w m. absurd (Memᴰ.not-nil m))
  compute_each-Sorts fuel (v ∷ vs) s s' sound done h =
      let (t, e, k) =
        bind-some (if s.visited v then some s else compute_topo operands fuel (variable v) s)
          (compute_each operands fuel vs) s' h in
      let first = visit_one-Step fuel v s t sound done e in
      let (sound', mono, reached) =
        compute_each-Sorts fuel vs t s' first.sound (IsFinished-step s t done first.extends) k in
      (
        sound',
        λ w m. mono w (first.extends.order_mono w m),
        λ w m. elim (Memᴰ.cases_cons m) [
          | inl eq ↦ mono w (first.reached w eq)
          | inr n ↦ reached w n
        ],
      )

  empty-IsSound : IsSound operands empty_search
  unfolding IsOrdered IsOnce
  empty-IsSound = record { ordered = tt; once = tt; listed = λ v m. absurd (Memᴰ.not-nil m) }

  compute_global_vars_order-sorted :
      (fuel : ℕ) (globals order : List ℕ)
      → compute_global_vars_order operands fuel globals ≡ some order
      → IsOrdered operands [] order × IsOnce order × ((v : ℕ) → Memᴰ v globals → Memᴰ v order)
  unfolding compute_global_vars_order
  compute_global_vars_order-sorted fuel globals order h =
      let (after, e, k) =
        bind-some (compute_each operands fuel globals empty_search) (λ s. some s.order) order h in
      let (sound, _, reached) =
        compute_each-Sorts fuel globals empty_search after empty-IsSound (λ w f. cc f) e in
      subst (λ xs. IsOrdered operands [] xs × IsOnce xs × ((v : ℕ) → Memᴰ v globals → Memᴰ v xs))
        (some_injective after.order order k) (sound.ordered, sound.once, reached)

  -- For the global variables of a module, whose initializers mention variables of the module only, and
  -- no variable mentions itself, directly or through others, computeGlobalVarsOrder computes an order
  -- that lists each of them, none twice, and each after those that its initializer mentions.
  pub compute_global_vars_order-topological :
      (n : ℕ) (globals : List ℕ)
      → ((v d : ℕ) → AnyMentions d (operands v) → d < n)
      → All (λ v. v < n) globals
      → (order : List ℕ) × (compute_global_vars_order operands n globals ≡ some order)
        × IsOrdered operands [] order
        × IsOnce order
        × ((v : ℕ) → Memᴰ v globals → Memᴰ v order)
  compute_global_vars_order-topological n globals closed lt =
      let (order, e) = compute_global_vars_order-total n operands closed globals lt in
      let (ordered, once, complete) = compute_global_vars_order-sorted n globals order e in
      (order, e, ordered, once, complete)
