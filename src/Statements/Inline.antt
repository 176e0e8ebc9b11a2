-- ===== src/Statements/Inline.antt =====
-- An instruction is inlined exactly where this keeps it from being moved over a write.
use llvm2c.Prelude.{
  ℕ, ◌==◌, ==_iff, Bool, true, false, Bool-cases, if_keeps, not, if◌then◌else◌, ◌≡◌, refl, ap, ◌↔◌,
  inl, inr, List, [], ◌∷◌, ◌++◌, All,
}
use llvm2c.Statements.{Instruction, read_only, instruction, reaches_user, can_inline}

-- The list holds the user, and only read-only instructions in front of it.
abbrev pub ReachesUser : ℕ → List Instruction → Type 0
ReachesUser user rest =
    (before : List Instruction) × (cur : Instruction) × (after : List Instruction) × (rest
      ≡ before ++ (cur ∷ after))
    × (cur.address ≡ user)
    × All (λ i. read_only i.opcode ≡ true) before

both_true : (b r : Bool) → (if not b then false else r) ≡ true → (b ≡ true) × (r ≡ true)
both_true true r h = (refl, h)
both_true false r h = cc

ReachesUser-after :
    (user : ℕ) (cur : Instruction) (rest : List Instruction)
    → read_only cur.opcode ≡ true
    → ReachesUser user rest
    → ReachesUser user (cur ∷ rest)
ReachesUser-after user cur rest r (before, found, after, split, here, all) =
    (cur ∷ before, found, after, ap (λ l. cur ∷ l) split, here, (r, all))

reaches→ReachesUser :
    (user : ℕ) (rest : List Instruction) → reaches_user user rest ≡ true → ReachesUser user rest
unfolding reaches_user
reaches→ReachesUser user [] h = cc
reaches→ReachesUser user (cur ∷ rest) h = elim (Bool-cases (cur.address == user)) [
  | inl e ↦ ([], cur, rest, refl, (==_iff cur.address user).0 e, tt)
  | inr e ↦
      let (r, further) = both_true (read_only cur.opcode) (reaches_user user rest) (rw e at h) in
      ReachesUser-after user cur rest r (reaches→ReachesUser user rest further)
]

reached :
    (user : ℕ) (before : List Instruction) (cur : Instruction) (after : List Instruction)
    → cur.address ≡ user
    → All (λ i. read_only i.opcode ≡ true) before
    → reaches_user user (before ++ (cur ∷ after)) ≡ true
unfolding reaches_user
reached user [] cur after here all = rw ((==_iff cur.address user).1 here) refl
reached user (i ∷ before) cur after here (r, all) =
    rw (r, reached user before cur after here all) (if_keeps (i.address == user) true refl)

-- canInline accepts an instruction exactly if it has a single user, which follows it in its block, and
-- all instructions between the two are in the table of those that only read.
pub can_inline-exact :
    (users : List ℕ) (rest : List Instruction)
    → (can_inline (instruction users rest) ≡ true)
      ↔ ((user : ℕ) × (users ≡ user ∷ []) × ReachesUser user rest)
unfolding can_inline
can_inline-exact users rest = (forth users, back users)
  where
    forth :
        (users : List ℕ)
        → can_inline (instruction users rest) ≡ true
        → (user : ℕ) × (users ≡ user ∷ []) × ReachesUser user rest
    forth [] h = cc
    forth (user ∷ []) h = (user, refl, reaches→ReachesUser user rest h)
    forth (user ∷ v ∷ vs) h = cc

    back :
        (users : List ℕ)
        → (user : ℕ) × (users ≡ user ∷ []) × ReachesUser user rest
        → can_inline (instruction users rest) ≡ true
    back users (user, e, (before, cur, after, split, here, all)) =
        rw (e, split) (reached user before cur after here all)
