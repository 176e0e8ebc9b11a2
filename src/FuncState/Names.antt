-- ===== src/FuncState/Names.antt =====
-- getVarName: the name is new, and the search for it ends.
use llvm2c.Prelude.{
  ℕ, zero, suc, ◌+◌, ◌==◌, ==_iff, ◌⊎◌, Bool, true, false, Bool-cases, some, List, [], ◌∷◌, ◌≡◌,
  refl, sym, ap, subst, ◌∙◌, inl, inr, ◌<◌, ◌≤◌, arith, Text, text_eq, text_eq_iff, read_digits,
  to_decimal-read, length, leb, ◌&&◌, ◌||◌,
}
use llvm2c.FuncState.{Func, var_name, contains, next_count, get_var_name}

-- The number in a name, from its fourth byte on.
abbrev name_number : Text → ℕ
name_number (a ∷ b ∷ c ∷ digits) = read_digits 0 digits
name_number _ = 0

name_number-var_name : (n : ℕ) → name_number (var_name n) ≡ n
name_number-var_name n = to_decimal-read n

pub var_name_injective : (n k : ℕ) → var_name n ≡ var_name k → n ≡ k
var_name_injective n k e =
    sym (name_number-var_name n) ∙ (ap name_number e ∙ name_number-var_name k)

-- The names from a number on that the metadata has taken.
one_if : Bool → ℕ
one_if true = 1
one_if false = 0

is_taken : ℕ → Text → Bool
is_taken n x = text_eq x (var_name (name_number x)) && leb n (name_number x)

taken : ℕ → List Text → ℕ
taken n [] = 0
taken n (x ∷ xs) = one_if (is_taken n x) + taken n xs

one_if_mono : (a b : Bool) → (b ≡ true → a ≡ true) → one_if b ≤ one_if a
unfolding one_if
one_if_mono true b h = ground arith
one_if_mono false true h = cc (h refl)
one_if_mono false false h = omega arith

is_taken_mono : (n : ℕ) (x : Text) → is_taken (n + 1) x ≡ true → is_taken n x ≡ true
unfolding is_taken
is_taken_mono n x h = ground arith

taken_mono : (n : ℕ) (xs : List Text) → taken (n + 1) xs ≤ taken n xs
unfolding taken
taken_mono n [] = omega arith
taken_mono n (x ∷ xs) =
    omega
      (arith, one_if_mono (is_taken n x) (is_taken (n + 1) x) (is_taken_mono n x), taken_mono n xs)

number_of : (n : ℕ) (x : Text) → text_eq x (var_name n) ≡ true → name_number x ≡ n
number_of n x h = ap name_number ((text_eq_iff x (var_name n)).0 h) ∙ name_number-var_name n

is_taken_at :
    (n k : ℕ) (x : Text)
    → text_eq x (var_name k) ≡ true
    → is_taken n x ≡ (text_eq x (var_name k) && leb n k)
unfolding is_taken
is_taken_at n k x h = ap (λ m. text_eq x (var_name m) && leb n m) (number_of k x h)

leb_self : (n : ℕ) → leb n n ≡ true
leb_self n = ground arith

leb_below : (n : ℕ) → leb (n + 1) n ≡ false
leb_below n = ground arith

taken_here : (n : ℕ) (x : Text) → text_eq x (var_name n) ≡ true → is_taken n x ≡ true
taken_here n x h = is_taken_at n n x h ∙ (ap (λ b. b && leb n n) h ∙ leb_self n)

taken_next : (n : ℕ) (x : Text) → text_eq x (var_name n) ≡ true → is_taken (n + 1) x ≡ false
taken_next n x h = is_taken_at (n + 1) n x h ∙ (ap (λ b. b && leb (n + 1) n) h ∙ leb_below n)

taken-contains :
    (n : ℕ) (xs : List Text) → contains (var_name n) xs ≡ true → suc (taken (n + 1) xs) ≤ taken n xs
unfolding contains taken one_if
taken-contains n [] h = cc
taken-contains n (x ∷ xs) h = elim (Bool-cases (text_eq x (var_name n))) [
  | inl e ↦ rw (taken_here n x e, taken_next n x e) (omega (arith, taken_mono n xs))
  | inr e ↦ omega (
    arith,
    one_if_mono (is_taken n x) (is_taken (n + 1) x) (is_taken_mono n x),
    taken-contains n xs (subst (λ b. (b || contains (var_name n) xs) ≡ true) e h),
  )
]

taken-length : (n : ℕ) (xs : List Text) → taken n xs ≤ length xs
unfolding taken one_if
taken-length n [] = omega arith
taken-length n (x ∷ xs) = omega (arith, one_if_le (is_taken n x), taken-length n xs)
  where
    one_if_le : (b : Bool) → one_if b ≤ 1
    one_if_le true = omega arith
    one_if_le false = omega arith

-- The first number from `n` on whose name is not taken.
abbrev pub IsNext : ℕ → List Text → ℕ → Type 0
IsNext n names k =
    (n ≤ k)
    × (contains (var_name k) names ≡ false)
    × ((j : ℕ) → n ≤ j → j < k → contains (var_name j) names ≡ true)

next_count-IsNext :
    (fuel : ℕ) (names : List Text) (n : ℕ)
    → taken n names ≤ fuel
    → (k : ℕ) × (next_count fuel names n ≡ some k) × IsNext n names k
unfolding next_count
next_count-IsNext zero names n enough = elim (Bool-cases (contains (var_name n) names)) [
  | inl e ↦ absurd (none_left (taken-contains n names e) enough)
  | inr e ↦ rw e (n, refl, (omega arith, e, λ j le lt. absurd (apart le lt)))
]
  where
    none_left : {a b : ℕ} → suc a ≤ b → b ≤ 0 → ⊥
    none_left p q = omega arith

    apart : {a b : ℕ} → a ≤ b → b < a → ⊥
    apart p q = omega arith
next_count-IsNext (suc fuel) names n enough = elim (Bool-cases (contains (var_name n) names)) [
  | inl e ↦
      let (k, ek, (le, free, before)) =
        next_count-IsNext fuel names (n + 1) (omega (arith, taken-contains n names e, enough)) in
      rw e (
        k,
        ek,
        (
          omega (arith, le),
          free,
          λ j low lt. elim (Bool-cases (n == j)) [
            | inl eq ↦ subst (λ x. contains (var_name x) names ≡ true) ((==_iff n j).0 eq) e
            | inr ne ↦ before j (above n j low ne) lt
          ],
        ),
      )
  | inr e ↦ rw e (n, refl, (omega arith, e, λ j low lt. absurd (apart low lt)))
]
  where
    above : (n j : ℕ) → n ≤ j → (n == j) ≡ false → n + 1 ≤ j
    above n j low ne = ground arith

    apart : {a b : ℕ} → a ≤ b → b < a → ⊥
    apart p q = omega arith

-- A name that getVarName has made before, or may have.
abbrev pub IsMade : Func → Text → Type 0
IsMade f x = (j : ℕ) × (j < f.var_count) × (x ≡ var_name j)

-- With fuel for the names that the metadata has taken, getVarName gives a name that the metadata does
-- not have and that it has not made before; it counts as made afterwards, and what was made before
-- still does, so no two calls give one name. It is the first such name from the count on.
pub get_var_name-fresh :
    (f : Func)
    → (name : Text) × (after : Func) × (get_var_name (length f.metadata_var_names) f
        ≡ some (name, after))
      × (contains name after.metadata_var_names ≡ false)
      × (IsMade f name → ⊥)
      × IsMade after name
      × ((x : Text) → IsMade f x → IsMade after x)
      × ((j : ℕ)
          → f.var_count ≤ j
          → j < after.var_count
          → (var_name j ≡ name) ⊎ (contains (var_name j) f.metadata_var_names ≡ true))
unfolding get_var_name
get_var_name-fresh f =
    let names = f.metadata_var_names in
    let (k, e, (le, free, before)) =
      next_count-IsNext (length names) names f.var_count (taken-length f.var_count names) in
    rw e (
      var_name k,
      record f { var_count = k + 1 },
      refl,
      free,
      (λ m. older m.0 m.1 le (var_name_injective k m.0 m.2)),
      (k, omega arith, refl),
      (λ x m. (m.0, later m.1 le, m.2)),
      λ j low lt. elim (Bool-cases (j == k)) [
        | inl eq ↦ inl (ap var_name ((==_iff j k).0 eq))
        | inr ne ↦ inr (before j low (under j k lt ne))
      ],
    )
  where
    older : {n k : ℕ} (j : ℕ) → j < n → n ≤ k → k ≡ j → ⊥
    older j p q r = omega arith

    later : {j n k : ℕ} → j < n → n ≤ k → j < k + 1
    later p q = omega arith

    under : (j k : ℕ) → j < k + 1 → (j == k) ≡ false → j < k
    under j k lt ne = ground arith
