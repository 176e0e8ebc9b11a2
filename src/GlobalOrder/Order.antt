-- ===== src/GlobalOrder/Order.antt =====
-- The order that the search computes: every global variable once, after those that its initializer
-- mentions.
use llvm2c.Prelude.{
  ℕ, ◌==◌, ==_iff, Bool, true, false, Bool-cases, if_keeps, List, [], ◌∷◌, ◌++◌, append_assoc,
  append-nil, ◌≡◌, refl, sym, subst, ◌⊎◌, inl, inr, ◌<◌, if◌then◌else◌,
}
use mathlib.Core.List.{Memᴰ}
use mathlib.Core.List.Memᴰ
use llvm2c.GlobalOrder.{Constant, Constants, variable, other, no_constant, constant, Search, insert}

-- The variable stands in the constant, not under another variable.
unfoldable mutual
  pub Mentions : ℕ → Constant → Type 0
  Mentions d (variable v) = d ≡ v
  Mentions d (other cs) = AnyMentions d cs

  pub AnyMentions : ℕ → Constants → Type 0
  AnyMentions d no_constant = ⊥
  AnyMentions d (constant c cs) = Mentions d c ⊎ AnyMentions d cs

-- No variable stands in the list twice.
unfoldable pub IsOnce : List ℕ → Type 0
IsOnce [] = Unit
IsOnce (x ∷ xs) = (Memᴰ x xs → ⊥) × IsOnce xs

pub IsOnce-push_back : (xs : List ℕ) (v : ℕ) → IsOnce xs → (Memᴰ v xs → ⊥) → IsOnce (xs ++ (v ∷ []))
unfolding IsOnce
IsOnce-push_back [] v h k = (λ m. Memᴰ.not-nil m, tt)
IsOnce-push_back (x ∷ xs) v h k = (
  λ m. elim (Memᴰ.append_cases xs m) [
    | inl n ↦ h.0 n
    | inr n ↦ k (Memᴰ.head (sym (Memᴰ.eq_of_singleton n)))
  ],
  IsOnce-push_back xs v h.1 (λ m. k (Memᴰ.tail m)),
)

if_true_cases : (c b : Bool) → (if c then true else b) ≡ true → (c ≡ true) ⊎ (b ≡ true)
if_true_cases true b h = inl refl
if_true_cases false b h = inr h

pub insert_self : (v : ℕ) (vis : ℕ → Bool) → insert v vis v ≡ true
insert_self v vis = rw ((==_iff v v).1 refl) refl

pub insert_old : (v w : ℕ) (vis : ℕ → Bool) → vis w ≡ true → insert v vis w ≡ true
insert_old v w vis h = if_keeps (w == v) (vis w) h

pub insert_cases : (v w : ℕ) (vis : ℕ → Bool) → insert v vis w ≡ true → (w ≡ v) ⊎ (vis w ≡ true)
insert_cases v w vis h = elim (if_true_cases (w == v) (vis w) h) [
  | inl e ↦ inl ((==_iff w v).0 e)
  | inr e ↦ inr e
]

pub insert_new : (v w : ℕ) (vis : ℕ → Bool) → insert v vis w ≡ false → vis w ≡ false
insert_new v w vis h = elim (Bool-cases (vis w)) [ inl e ↦ cc (insert_old v w vis e) | inr e ↦ e ]

module _ (operands : ℕ → Constants) where
  -- Each variable of the list comes after the variables that its initializer mentions, which stand
  -- before it in the list or in `seen`.
  unfoldable pub IsOrdered : List ℕ → List ℕ → Type 0
  unfolding Mentions
  IsOrdered seen [] = Unit
  IsOrdered seen (v ∷ vs) =
      ((d : ℕ) → AnyMentions d (operands v) → Memᴰ d seen) × IsOrdered (seen ++ (v ∷ [])) vs

  -- Initializers mention only variables of a smaller rank, so no variable mentions itself, directly or
  -- through others.
  abbrev pub IsAcyclic : (ℕ → ℕ) → Type 0
  IsAcyclic rank = (v d : ℕ) → AnyMentions d (operands v) → rank d < rank v

  pub IsOrdered-push_back :
      (seen xs : List ℕ) (v : ℕ)
      → IsOrdered seen xs
      → ((d : ℕ) → AnyMentions d (operands v) → Memᴰ d (seen ++ xs))
      → IsOrdered seen (xs ++ (v ∷ []))
  unfolding IsOrdered
  IsOrdered-push_back seen [] v h k = (λ d m. subst (Memᴰ d) (append-nil seen) (k d m), tt)
  IsOrdered-push_back seen (x ∷ xs) v h k = (
    h.0,
    IsOrdered-push_back (seen ++ (x ∷ [])) xs v h.1
        λ d m. subst (Memᴰ d) (sym (append_assoc seen (x ∷ []) xs)) (k d m),
  )

  -- What the search keeps: the order is one, and it holds visited variables only.
  pub record IsSound (s : Search) : Type 0 where
    pub ordered : IsOrdered [] s.order
    pub once : IsOnce s.order
    pub listed : (v : ℕ) → Memᴰ v s.order → s.visited v ≡ true

  -- What a step of the search does to the state.
  pub record Extends (s s' : Search) : Type 0 where
    pub order_mono : (v : ℕ) → Memᴰ v s.order → Memᴰ v s'.order
    pub visited_mono : (v : ℕ) → s.visited v ≡ true → s'.visited v ≡ true
    pub visited_new : (v : ℕ) → s'.visited v ≡ true → (s.visited v ≡ true) ⊎ Memᴰ v s'.order
    pub order_new : (v : ℕ) → Memᴰ v s'.order → Memᴰ v s.order ⊎ (s.visited v ≡ false)

  pub Extends_refl : (s : Search) → Extends s s
  Extends_refl s = record {
    order_mono = λ v m. m;
    visited_mono = λ v h. h;
    visited_new = λ v h. inl h;
    order_new = λ v m. inl m;
  }

  pub Extends_trans : (s t u : Search) → Extends s t → Extends t u → Extends s u
  Extends_trans s t u a b = record {
    order_mono = λ v m. b.order_mono v (a.order_mono v m);
    visited_mono = λ v h. b.visited_mono v (a.visited_mono v h);
    visited_new = λ v h. elim (b.visited_new v h) [
      | inr m ↦ inr m
      | inl k ↦ elim (a.visited_new v k) [ inl l ↦ inl l | inr m ↦ inr (b.order_mono v m) ]
    ];
    order_new =
        λ v m. elim (b.order_new v m) [ inl k ↦ a.order_new v k | inr f ↦ inr (unvisited v f) ];
  }
    where
      unvisited : (v : ℕ) → t.visited v ≡ false → s.visited v ≡ false
      unvisited v f = elim (Bool-cases (s.visited v)) [
        | inl h ↦ cc (a.visited_mono v h)
        | inr h ↦ h
      ]
