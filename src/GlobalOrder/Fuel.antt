-- ===== src/GlobalOrder/Fuel.antt =====
-- The search ends: fuel for as many visits as there are global variables is enough, whether or not
-- their initializers mention each other in cycles.
use llvm2c.Prelude.{
  ℕ, zero, suc, ◌+◌, ◌==◌, ==_iff, Bool, true, false, Bool-cases, Option, some, ◌>>=◌, List, [],
  ◌∷◌, ◌≡◌, refl, sym, subst, inl, inr, ◌<◌, ◌≤◌, arith, if◌then◌else◌, All,
}
use llvm2c.GlobalOrder.{
  Constant, Constants, empty_search, variable, other, no_constant, constant, Search, insert,
  push_back, walk, walk_operands, enter, compute_topo, compute_each, compute_global_vars_order,
}
use llvm2c.GlobalOrder.Order.{Mentions, AnyMentions, insert_old}

-- The number of variables below `n` that are not visited.
abbrev one_if_new : Bool → ℕ
one_if_new true = 0
one_if_new false = 1

unvisited : ℕ → (ℕ → Bool) → ℕ
unvisited zero vis = 0
unvisited (suc n) vis = one_if_new (vis n) + unvisited n vis

one_if_new_mono : (a b : Bool) → (a ≡ true → b ≡ true) → one_if_new b ≤ one_if_new a
one_if_new_mono true true h = omega arith
one_if_new_mono true false h = cc (h refl)
one_if_new_mono false true h = omega arith
one_if_new_mono false false h = omega arith

unvisited_mono :
    (n : ℕ) (vis vis' : ℕ → Bool)
    → ((w : ℕ) → vis w ≡ true → vis' w ≡ true)
    → unvisited n vis' ≤ unvisited n vis
unfolding unvisited
unvisited_mono zero vis vis' h = omega arith
unvisited_mono (suc n) vis vis' h =
    omega (arith, one_if_new_mono (vis n) (vis' n) (h n), unvisited_mono n vis vis' h)

unvisited-insert :
    (n v : ℕ) (vis : ℕ → Bool)
    → v < n
    → vis v ≡ false
    → suc (unvisited n (insert v vis)) ≤ unvisited n vis
unfolding unvisited
unvisited-insert zero v vis lt h = ground arith
unvisited-insert (suc n) v vis lt h = elim (Bool-cases (n == v)) [
  | inl e ↦
      rw (e, subst (λ x. vis x ≡ false) (sym ((==_iff n v).0 e)) h)
        (omega (arith, unvisited_mono n vis (insert v vis) (λ w k. insert_old v w vis k)))
  | inr e ↦ rw e (omega (arith, unvisited-insert n v vis (below n v lt e) h))
]
  where
    below : (n v : ℕ) → v < suc n → (n == v) ≡ false → v < n
    below n v lt e = ground arith

-- A search goes on from another one and has a result.
abbrev pub HasResult : Search → Option Search → Type 0
HasResult s found =
    (s' : Search) × (found ≡ some s') × ((w : ℕ) → s.visited w ≡ true → s'.visited w ≡ true)

some-result : (s : Search) → HasResult s (some s)
some-result s = (s, refl, λ w h. h)

chain-result :
    (s : Search) (found : Option Search) (f : Search → Option Search)
    → HasResult s found
    → ((t : Search) → ((w : ℕ) → s.visited w ≡ true → t.visited w ≡ true) → HasResult t (f t))
    → HasResult s (found >>= f)
chain-result s found f (t, e, mono) g =
    let (u, e', mono') = g t mono in (u, rw e e', λ w h. mono' w (mono w h))

module _ (n : ℕ) where
  module _ (fuel : ℕ) (enter_one : ℕ → Search → Option Search)
      (enters : (v : ℕ) (s : Search)
        → v < n
        → unvisited n s.visited ≤ fuel
        → HasResult s (enter_one v s)) where
    mutual
      unfolding walk Mentions

      walk-result :
          (c : Constant) (s : Search)
          → ((d : ℕ) → Mentions d c → d < n)
          → unvisited n s.visited ≤ fuel
          → HasResult s (walk enter_one c s)
      walk-result (variable v) s closed enough = enters v s (closed v refl) enough
      walk-result (other cs) s closed enough = walk_operands-result cs s closed enough

      walk_operands-result :
          (cs : Constants) (s : Search)
          → ((d : ℕ) → AnyMentions d cs → d < n)
          → unvisited n s.visited ≤ fuel
          → HasResult s (walk_operands enter_one cs s)
      walk_operands-result no_constant s closed enough = some-result s
      walk_operands-result (constant c cs) s closed enough =
          chain-result s (walk enter_one c s) (walk_operands enter_one cs)
            (walk-result c s (λ d m. closed d (inl m)) enough)
            λ t mono.
              walk_operands-result cs t (λ d m. closed d (inr m))
                (omega (arith, unvisited_mono n s.visited t.visited mono))

  module _ (operands : ℕ → Constants)
      (closed : (v d : ℕ) → AnyMentions d (operands v) → d < n) where
    enter-result :
        (fuel v : ℕ) (s : Search)
        → v < n
        → unvisited n s.visited ≤ fuel
        → HasResult s (enter operands fuel v s)
    unfolding enter push_back
    enter-result zero v s lt enough = elim (Bool-cases (s.visited v)) [
      | inl e ↦ rw e (some-result s)
      | inr e ↦ absurd (none_left (unvisited-insert n v s.visited lt e) enough)
    ]
      where
        none_left : {a b : ℕ} → suc a ≤ b → b ≤ 0 → ⊥
        none_left p q = omega arith
    enter-result (suc fuel) v s lt enough = elim (Bool-cases (s.visited v)) [
      | inl e ↦ rw e (some-result s)
      | inr e ↦
          let (t, et, mono) =
            walk_operands-result fuel (enter operands fuel)
              (λ w u lt' enough'. enter-result fuel w u lt' enough') (operands v)
              (record s { visited = insert v s.visited }) (λ d m. closed v d m)
              (omega (arith, unvisited-insert n v s.visited lt e, enough)) in
          rw (e, et) (push_back v t, refl, λ w h. mono w (insert_old v w s.visited h))
    ]

    compute_each-result :
        (fuel : ℕ) (vs : List ℕ) (s : Search)
        → All (λ v. v < n) vs
        → unvisited n s.visited ≤ fuel
        → HasResult s (compute_each operands fuel vs s)
    unfolding compute_each compute_topo walk
    compute_each-result fuel [] s lt enough = some-result s
    compute_each-result fuel (v ∷ vs) s lt enough =
        chain-result s (if s.visited v then some s else enter operands fuel v s)
          (compute_each operands fuel vs)
          (elim (Bool-cases (s.visited v)) [
            | inl e ↦ rw e (some-result s)
            | inr e ↦ rw e (enter-result fuel v s lt.0 enough)
          ])
          λ t mono.
            compute_each-result fuel vs t lt.1
              (omega (arith, unvisited_mono n s.visited t.visited mono))

    unvisited-all : (k : ℕ) → unvisited k (λ v. false) ≤ k
    unfolding unvisited
    unvisited-all zero = omega arith
    unvisited-all (suc k) = omega (arith, unvisited-all k)

    -- With as much fuel as there are global variables, the order is computed, for all initializers
    -- that mention these variables only.
    pub compute_global_vars_order-total :
        (globals : List ℕ)
        → All (λ v. v < n) globals
        → (order : List ℕ) × (compute_global_vars_order operands n globals ≡ some order)
    unfolding compute_global_vars_order
    compute_global_vars_order-total globals lt =
        let (s, e, _) = compute_each-result n globals empty_search lt (unvisited-all n) in
        (s.order, rw e refl)
