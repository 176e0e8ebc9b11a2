-- ===== src/FuncState/Blocks.antt =====
-- createBlockIfNotExist and getBlock: one block for each LLVM block, with a name of its own.
use llvm2c.Prelude.{
  ℕ, ◌+◌, ◌==◌, ==_iff, false, Bool-cases, none, some, Option-cases, some_injective, ◌∷◌, ◌≡◌, refl,
  sym, ap, subst, ◌∙◌, inl, inr, ◌<◌, arith, Text, read_digits, to_decimal-read,
}
use llvm2c.FuncState.{
  Func, Block, block_name_of, find_block, get_block, create_with, create_block_if_not_exist,
}

abbrev block_number : Text → ℕ
block_number (a ∷ b ∷ c ∷ d ∷ e ∷ digits) = read_digits 0 digits
block_number _ = 0

block_name_of_injective : (n k : ℕ) → block_name_of n ≡ block_name_of k → n ≡ k
block_name_of_injective n k e = sym (to_decimal-read n) ∙ (ap block_number e ∙ to_decimal-read k)

-- The block found for an LLVM block is that block's, is named by a number below the count, and shares
-- its name with no other.
pub record IsBlockMap (f : Func) : Type 0 where
  pub own : (b : ℕ) (v : Block) → get_block b f ≡ some v → v.block ≡ b
  pub numbered :
      (b : ℕ) (v : Block)
      → get_block b f ≡ some v
      → (j : ℕ) × (j < f.block_count) × (v.block_name ≡ block_name_of j)
  pub distinct :
      (b c : ℕ) (v w : Block)
      → get_block b f ≡ some v
      → get_block c f ≡ some w
      → v.block_name ≡ w.block_name
      → b ≡ c

-- The Func after a new block.
abbrev made_for : ℕ → Func → Block
made_for b f = record { block_name = block_name_of f.block_count; block = b }

abbrev with_block : ℕ → Func → Func
with_block b f = record f {
  block_map = (b, made_for b f) ∷ f.block_map;
  block_count = f.block_count + 1;
}

create-some :
    (b : ℕ) (f : Func) (v : Block) → get_block b f ≡ some v → create_block_if_not_exist b f ≡ (v, f)
unfolding create_block_if_not_exist create_with get_block
create-some b f v h = rw h refl

create-none :
    (b : ℕ) (f : Func)
    → get_block b f ≡ none
    → create_block_if_not_exist b f ≡ (made_for b f, with_block b f)
unfolding create_block_if_not_exist create_with get_block
create-none b f h = rw h refl

get_block-here : (b : ℕ) (f : Func) → get_block b (with_block b f) ≡ some (made_for b f)
unfolding get_block find_block
get_block-here b f = rw ((==_iff b b).1 refl) refl

get_block-other :
    (b c : ℕ) (f : Func) → (b == c) ≡ false → get_block c (with_block b f) ≡ get_block c f
unfolding get_block find_block
get_block-other b c f h = rw h refl

-- A block found in the longer map is the new one or an old one.
get_block-cases :
    {P : Type 0} (b c : ℕ) (f : Func) (v : Block)
    → get_block c (with_block b f) ≡ some v
    → (b ≡ c → made_for b f ≡ v → P)
    → (get_block c f ≡ some v → P)
    → P
get_block-cases b c f v h here there = elim (Bool-cases (b == c)) [
  | inl e ↦
      let eq = (==_iff b c).0 e in
      here eq (
        some_injective (made_for b f) v (
          sym (get_block-here b f) ∙ subst (λ x. get_block x (with_block b f) ≡ some v) (sym eq) h))
  | inr e ↦ there (sym (get_block-other b c f e) ∙ h)
]

with_block-IsBlockMap : (b : ℕ) (f : Func) → IsBlockMap f → IsBlockMap (with_block b f)
with_block-IsBlockMap b f inv = record {
  own = λ c v h.
      get_block-cases b c f v h (λ e m. sym (ap (λ x. x.block) m) ∙ e) (λ k. inv.own c v k);
  numbered = λ c v h.
      get_block-cases b c f v h
        (λ e m. (f.block_count, omega arith, sym (ap (λ x. x.block_name) m)))
        (λ k. let (j, lt, e) = inv.numbered c v k in (j, later lt, e));
  distinct = λ c d v w h k same.
      get_block-cases b c f v h
        (λ e m.
          get_block-cases b d f w k (λ e' m'. sym e ∙ e')
            (λ old. absurd (fresh d w old (ap (λ x. x.block_name) m ∙ same))))
        (λ old.
          get_block-cases b d f w k
            (λ e' m'. absurd (fresh c v old (ap (λ x. x.block_name) m' ∙ sym same)))
            (λ old'. inv.distinct c d v w old old' same));
}
  where
    later : {j n : ℕ} → j < n → j < n + 1
    later lt = omega arith

    apart : {j n : ℕ} → j < n → n ≡ j → ⊥
    apart lt e = omega arith

    fresh :
        (d : ℕ) (w : Block)
        → get_block d f ≡ some w
        → block_name_of f.block_count ≡ w.block_name
        → ⊥
    fresh d w old e =
        let (j, lt, ej) = inv.numbered d w old in
        apart lt (block_name_of_injective f.block_count j (e ∙ ej))

-- What createBlockIfNotExist promises of its result.
abbrev pub IsBlockOf : ℕ → Func → Block × Func → Type 0
IsBlockOf b f (made, after) =
    IsBlockMap after
    × (get_block b after ≡ some made)
    × (made.block ≡ b)
    × (create_block_if_not_exist b after ≡ (made, after))
    × ((c : ℕ) (v : Block) → get_block c f ≡ some v → get_block c after ≡ some v)

-- From a map in which each block is that of its LLVM block and has a name of its own,
-- createBlockIfNotExist returns the block of the LLVM block and keeps the map so: getBlock finds the
-- block afterwards, asking again returns it and changes nothing, and every block that was in the map
-- is still found.
pub create_block_if_not_exist-IsBlockOf :
    (b : ℕ) (f : Func) → IsBlockMap f → IsBlockOf b f (create_block_if_not_exist b f)
create_block_if_not_exist-IsBlockOf b f inv = elim (Option-cases (get_block b f)) [
  | inr (v, e) ↦ rw (create-some b f v e) (inv, e, inv.own b v e, create-some b f v e, λ c w h. h)
  | inl e ↦ rw (create-none b f e) (
    with_block-IsBlockMap b f inv,
    get_block-here b f,
    refl,
    create-some b (with_block b f) (made_for b f) (get_block-here b f),
    λ c v h. elim (Bool-cases (b == c)) [
      | inl q ↦ cc (sym e ∙ subst (λ x. get_block x f ≡ some v) (sym ((==_iff b c).0 q)) h)
      | inr q ↦ get_block-other b c f q ∙ h
    ],
  )
]
