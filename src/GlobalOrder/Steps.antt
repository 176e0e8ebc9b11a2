-- ===== src/GlobalOrder/Steps.antt =====
-- One step of the search: what it adds to the order, and that it keeps the order one.
use llvm2c.Prelude.{
  ℕ, zero, suc, true, false, Bool-cases, Option, none, some, bind-some, some_injective, ◌>>=◌, [],
  ◌∷◌, ◌≡◌, refl, sym, subst, ◌⊎◌, inl, inr, ◌<◌, ◌≤◌, arith, if◌then◌else◌,
}
use mathlib.Core.List.{Memᴰ}
use mathlib.Core.List.Memᴰ
use llvm2c.GlobalOrder.{
  Constant, Constants, variable, other, no_constant, constant, Search, insert, push_back, walk,
  walk_operands, enter,
}
use llvm2c.GlobalOrder.Order.{
  Mentions, AnyMentions, IsAcyclic, IsSound, Extends, IsOrdered-push_back, IsOnce-push_back,
  insert_self, insert_old, insert_cases, insert_new, Extends_refl, Extends_trans,
}

module _ (operands : ℕ → Constants) (rank : ℕ → ℕ) (acyclic : IsAcyclic operands rank) where
  -- Each visited variable of a rank below `r` is in the order already; the others may be those
  -- whose initializers the search is in.
  abbrev pub IsDone : ℕ → Search → Type 0
  IsDone r s = (w : ℕ) → s.visited w ≡ true → Memᴰ w s.order ⊎ r ≤ rank w

  -- A step of the search that puts the variables of `T` into the order.
  pub record Step (T : ℕ → Type 0) (s s' : Search) : Type 0 where
    pub extends : Extends operands s s'
    pub sound : IsSound operands s'
    pub reached : (d : ℕ) → T d → Memᴰ d s'.order

  IsDone-step : (r : ℕ) (s s' : Search) → IsDone r s → Extends operands s s' → IsDone r s'
  IsDone-step r s s' h x w v = elim (x.visited_new w v) [
    | inr m ↦ inl m
    | inl k ↦ elim (h w k) [ inl m ↦ inl (x.order_mono w m) | inr l ↦ inr l ]
  ]

  pub nothing_done :
      (T : ℕ → Type 0) (s s' : Search)
      → some s ≡ some s'
      → IsSound operands s
      → ((d : ℕ) → T d → Memᴰ d s.order)
      → Step T s s'
  nothing_done T s s' h sound m =
      subst (Step T s) (some_injective s s' h)
        (record { extends = Extends_refl operands s; sound = sound; reached = m })

  both_done :
      (T U : ℕ → Type 0) (s t u : Search) → Step T s t → Step U t u → Step (λ d. T d ⊎ U d) s u
  both_done T U s t u a b = record {
    extends = Extends_trans operands s t u a.extends b.extends;
    sound = b.sound;
    reached =
        λ d m. elim m [ inl k ↦ b.extends.order_mono d (a.reached d k) | inr k ↦ b.reached d k ];
  }

  module _ (r : ℕ) (enter_one : ℕ → Search → Option Search)
      (enters : (v : ℕ) (s s' : Search)
        → rank v < r
        → IsSound operands s
        → IsDone r s
        → enter_one v s ≡ some s'
        → Step (λ d. d ≡ v) s s') where
    mutual
      unfolding walk Mentions

      walk-Step :
          (c : Constant) (s s' : Search)
          → ((d : ℕ) → Mentions d c → rank d < r)
          → IsSound operands s
          → IsDone r s
          → walk enter_one c s ≡ some s'
          → Step (λ d. Mentions d c) s s'
      walk-Step (variable v) s s' below sound done h = enters v s s' (below v refl) sound done h
      walk-Step (other cs) s s' below sound done h = walk_operands-Step cs s s' below sound done h

      walk_operands-Step :
          (cs : Constants) (s s' : Search)
          → ((d : ℕ) → AnyMentions d cs → rank d < r)
          → IsSound operands s
          → IsDone r s
          → walk_operands enter_one cs s ≡ some s'
          → Step (λ d. AnyMentions d cs) s s'
      walk_operands-Step no_constant s s' below sound done h =
          nothing_done (λ d. ⊥) s s' h sound (λ d m. absurd m)
      walk_operands-Step (constant c cs) s s' below sound done h =
          let (t, e, k) = bind-some (walk enter_one c s) (walk_operands enter_one cs) s' h in
          let first = walk-Step c s t (λ d m. below d (inl m)) sound done e in
          both_done (λ d. Mentions d c) (λ d. AnyMentions d cs) s t s' first
            (walk_operands-Step cs t s' (λ d m. below d (inr m)) first.sound
              (IsDone-step r s t done first.extends) k)

  seen_before :
      (r v : ℕ) (s s' : Search)
      → rank v < r
      → IsSound operands s
      → IsDone r s
      → s.visited v ≡ true
      → some s ≡ some s'
      → Step (λ d. d ≡ v) s s'
  seen_before r v s s' low sound done e h =
      nothing_done (λ d. d ≡ v) s s' h sound
        λ d eq. elim (done v e) [
          | inl m ↦ subst (λ x. Memᴰ x s.order) (sym eq) m
          | inr le ↦ absurd (too_high low le)
        ]
    where
      too_high : {a b : ℕ} → a < b → b ≤ a → ⊥
      too_high lt le = omega arith

  -- The state in which a variable's initializer is visited.
  abbrev pub entering : ℕ → Search → Search
  entering v s = record s { visited = insert v s.visited }

  pushes :
      (v : ℕ) (s t : Search)
      → IsSound operands s
      → s.visited v ≡ false
      → Step (λ d. AnyMentions d (operands v)) (entering v s) t
      → Step (λ d. d ≡ v) s (push_back v t)
  unfolding push_back
  pushes v s t sound new a = record {
    extends = record {
      order_mono = λ w m. Memᴰ.append_left (v ∷ []) (a.extends.order_mono w m);
      visited_mono = λ w h. a.extends.visited_mono w (insert_old v w s.visited h);
      visited_new = λ w h. elim (a.extends.visited_new w h) [
        | inr m ↦ inr (Memᴰ.append_left (v ∷ []) m)
        | inl k ↦ elim (insert_cases v w s.visited k) [
          | inl e ↦ inr (Memᴰ.append_right t.order (Memᴰ.head e))
          | inr o ↦ inl o
        ]
      ];
      order_new = λ w m. elim (Memᴰ.append_cases t.order m) [
        | inl k ↦ elim (a.extends.order_new w k) [
          | inl o ↦ inl o
          | inr f ↦ inr (insert_new v w s.visited f)
        ]
        | inr k ↦ inr (subst (λ x. s.visited x ≡ false) (sym (Memᴰ.eq_of_singleton k)) new)
      ];
    };
    sound = record {
      ordered = IsOrdered-push_back operands [] t.order v a.sound.ordered a.reached;
      once = IsOnce-push_back t.order v a.sound.once λ m. elim (a.extends.order_new v m) [
        | inl o ↦ cc (sound.listed v o)
        | inr f ↦ cc (insert_self v s.visited)
      ];
      listed = λ w m. elim (Memᴰ.append_cases t.order m) [
        | inl k ↦ a.sound.listed w k
        | inr k ↦
            subst (λ x. t.visited x ≡ true) (sym (Memᴰ.eq_of_singleton k))
              (a.extends.visited_mono v (insert_self v s.visited))
      ];
    };
    reached = λ d e. Memᴰ.append_right t.order (Memᴰ.head e);
  }

  entering-IsSound : (v : ℕ) (s : Search) → IsSound operands s → IsSound operands (entering v s)
  entering-IsSound v s h = record {
    ordered = h.ordered;
    once = h.once;
    listed = λ w m. insert_old v w s.visited (h.listed w m);
  }

  entering-IsDone :
      (r v : ℕ) (s : Search) → rank v < r → IsDone r s → IsDone (rank v) (entering v s)
  entering-IsDone r v s low done w h = elim (insert_cases v w s.visited h) [
    | inl e ↦ inr (subst (λ x. rank v ≤ rank x) (sym e) (omega arith))
    | inr o ↦ elim (done w o) [ inl m ↦ inl m | inr le ↦ inr (below low le) ]
  ]
    where
      below : {a b c : ℕ} → a < b → b ≤ c → a ≤ c
      below p q = omega arith

  pub enter-Step :
      (fuel r v : ℕ) (s s' : Search)
      → rank v < r
      → IsSound operands s
      → IsDone r s
      → enter operands fuel v s ≡ some s'
      → Step (λ d. d ≡ v) s s'
  unfolding enter
  enter-Step zero r v s s' low sound done h = elim (Bool-cases (s.visited v)) [
    | inl e ↦
        seen_before r v s s' low sound done e
          (subst (λ b. (if b then some s else none) ≡ some s') e h)
    | inr e ↦ cc (subst (λ b. (if b then some s else none) ≡ some s') e h)
  ]
  enter-Step (suc fuel) r v s s' low sound done h =
      let visit =
        (walk_operands (enter operands fuel) (operands v) (entering v s) >>= λ after.
        some (push_back v after)) in
      elim (Bool-cases (s.visited v)) [
        | inl e ↦
            seen_before r v s s' low sound done e
              (subst (λ b. (if b then some s else visit) ≡ some s') e h)
        | inr e ↦
            let (t, et, k) =
              bind-some (walk_operands (enter operands fuel) (operands v) (entering v s))
                (λ after. some (push_back v after)) s'
                (subst (λ b. (if b then some s else visit) ≡ some s') e h) in
            subst (Step (λ d. d ≡ v) s) (some_injective (push_back v t) s' k) (
              pushes v s t sound e (
                walk_operands-Step (rank v) (enter operands fuel)
                  (λ w a b low' sound' done' h'.
                    enter-Step fuel (rank v) w a b low' sound' done' h')
                  (operands v) (entering v s) t (λ d m. acyclic v d m) (entering-IsSound v s sound)
                  (entering-IsDone r v s low done) et))
      ]
