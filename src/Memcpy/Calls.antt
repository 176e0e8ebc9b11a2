-- ===== src/Memcpy/Calls.antt =====
-- Which expressions of a block the pass replaces.
use llvm2c.Prelude.{
  ℕ, zero, suc, ◌≡◌, ◌≢◌, some, List, [], ◌∷◌, ◌++◌, All, get_elem?, if◌then◌else◌, arith,
  Bool-cases, inl, inr, Option-cases, Bool, true, false, ◌&&◌, ◌==◌, ==_iff, ◌↔◌, refl, sym, ap,
  subst, Text,
}
use llvm2c.Exprs.{Expr}
use llvm2c.Memcpy.{
  LlvmType, LlvmValue, pointer_to, other_type, constant_int, type_of, stripped, is_memcpy,
  copies_type, same_llvm_type, CallInst, Statement, replace, make_assignment, copies_object,
  replace_call, memcpy_to_assignment,
}

get_elem?-replace_other :
    (address : ℕ) (new : Statement) (block : List Statement) (i a : ℕ) (e : Expr)
    → a ≢ address
    → get_elem? block i ≡ some (a, e)
    → get_elem? (replace address new block) i ≡ some (a, e)
unfolding replace
get_elem?-replace_other address new [] i a e ne h = cc
get_elem?-replace_other address new (st ∷ rest) zero a e ne h = ground arith
get_elem?-replace_other address new (st ∷ rest) (suc i) a e ne h =
    get_elem?-replace_other address new rest i a e ne h

get_elem?-replace_same :
    (address : ℕ) (new : Statement) (block : List Statement) (i : ℕ) (e : Expr)
    → get_elem? block i ≡ some (address, e)
    → get_elem? (replace address new block) i ≡ some new
unfolding replace
get_elem?-replace_same address new [] i e h = cc
get_elem?-replace_same address new (st ∷ rest) zero e h = ground arith
get_elem?-replace_same address new (st ∷ rest) (suc i) e h =
    get_elem?-replace_same address new rest i e h

and_both : (a b : Bool) → (a && b) ≡ true → (a ≡ true) × (b ≡ true)
and_both true b h = (refl, h)
and_both false b h = cc

module _ (alloc_size : LlvmType → ℕ) (get_expr : LlvmValue → Expr) where
  replace_call-other :
      (call : CallInst) (block : List Statement) (i a : ℕ) (e : Expr)
      → a ≢ call.address
      → get_elem? block i ≡ some (a, e)
      → get_elem? (replace_call alloc_size get_expr call block) i ≡ some (a, e)
  unfolding replace_call
  replace_call-other call block i a e ne h =
      elim (Bool-cases (copies_object alloc_size get_expr call)) [
        | inl t ↦ rw t (get_elem?-replace_other call.address _ block i a e ne h)
        | inr t ↦ rw t h
      ]

  -- An expression at the address of no call stays in its place.
  memcpy_to_assignment-others :
      (calls : List CallInst) (block : List Statement) (i a : ℕ) (e : Expr)
      → All (λ c. a ≢ c.address) calls
      → get_elem? block i ≡ some (a, e)
      → get_elem? (memcpy_to_assignment alloc_size get_expr calls block) i ≡ some (a, e)
  unfolding memcpy_to_assignment
  memcpy_to_assignment-others [] block i a e ne h = h
  memcpy_to_assignment-others (c ∷ calls) block i a e ne h =
      memcpy_to_assignment-others calls (replace_call alloc_size get_expr c block) i a e ne.1
        (replace_call-other c block i a e ne.0 h)

  -- The call is one of memcpy, its operands without their casts point to one type, and it copies as
  -- many bytes as an object of that type has.
  abbrev pub CopiesObject : CallInst → Type 0
  CopiesObject call =
      (name : Text) × (type : LlvmType) × (call.called ≡ some name)
      × (is_memcpy alloc_size get_expr name ≡ true)
      × (type_of (stripped call.dst) ≡ pointer_to type)
      × (type_of (stripped call.src) ≡ pointer_to type)
      × (call.size ≡ constant_int (alloc_size type))

  same_llvm_type_iff : (t u : LlvmType) → (same_llvm_type t u ≡ true) ↔ (t ≡ u)
  unfolding same_llvm_type
  same_llvm_type_iff (pointer_to t) (pointer_to u) =
      (λ h. ap pointer_to ((same_llvm_type_iff t u).0 h), λ h. (same_llvm_type_iff t u).1 (cc h))
  same_llvm_type_iff (other_type m) (other_type n) =
      (λ h. ap other_type ((==_iff m n).0 h), λ h. (==_iff m n).1 (cc h))
  same_llvm_type_iff (pointer_to t) (other_type n) = (λ h. cc, λ h. cc)
  same_llvm_type_iff (other_type m) (pointer_to u) = (λ h. cc, λ h. cc)

  copies_type→parts :
      (t u : LlvmType) (size : LlvmValue)
      → copies_type alloc_size get_expr t u size ≡ true
      → (type : LlvmType) × (t ≡ pointer_to type)
        × (u ≡ pointer_to type)
        × (size ≡ constant_int (alloc_size type))
  unfolding copies_type
  copies_type→parts (pointer_to t) u (constant_int n) h =
      let (same, size) = and_both (same_llvm_type (pointer_to t) u) (alloc_size t == n) h in
      (
        t,
        refl,
        sym ((same_llvm_type_iff (pointer_to t) u).0 same),
        ap constant_int (sym ((==_iff (alloc_size t) n).0 size)),
      )
  copies_type→parts _ u size h = cc

  copies_type_of_parts :
      (type : LlvmType)
      → copies_type alloc_size get_expr
          (pointer_to type)
          (pointer_to type)
          (constant_int (alloc_size type))
        ≡ true
  unfolding copies_type
  copies_type_of_parts type =
      rw
        (
          (same_llvm_type_iff (pointer_to type) (pointer_to type)).1 refl,
          (==_iff (alloc_size type) (alloc_size type)).1 refl,
        )
        refl

  copies_object→CopiesObject :
      (call : CallInst) → copies_object alloc_size get_expr call ≡ true → CopiesObject call
  unfolding copies_object
  copies_object→CopiesObject call h = elim (Option-cases call.called) [
    | inl missing ↦ cc (rw missing at h)
    | inr (name, found) ↦
        let (memcpy, copies) = and_both (is_memcpy alloc_size get_expr name) _ (rw found at h) in
        let (type, dst, src, size) = copies_type→parts _ _ call.size copies in
        (name, type, found, memcpy, dst, src, size)
  ]

  CopiesObject→copies_object :
      (call : CallInst) → CopiesObject call → copies_object alloc_size get_expr call ≡ true
  unfolding copies_object
  CopiesObject→copies_object call (name, type, found, memcpy, dst, src, size) =
      rw (found, memcpy, dst, src, size) (copies_type_of_parts type)

  -- What the block has at a place after a call's turn.
  abbrev pub outcome : Bool → CallInst → Expr → Statement
  outcome copies call e =
      if copies
      then (call.made, make_assignment (get_expr call.dst) (get_expr call.src))
      else (call.address, e)

  replace_call-own :
      (call : CallInst) (block : List Statement) (i : ℕ) (e : Expr)
      → get_elem? block i ≡ some (call.address, e)
      → get_elem? (replace_call alloc_size get_expr call block) i
        ≡ some (outcome (copies_object alloc_size get_expr call) call e)
  unfolding replace_call
  replace_call-own call block i e h = elim (Bool-cases (copies_object alloc_size get_expr call)) [
    | inl t ↦ rw t (get_elem?-replace_same call.address _ block i e h)
    | inr t ↦ rw t h
  ]

  replaced :
      (before : List CallInst) (call : CallInst) (after : List CallInst) (block : List Statement)
      (i : ℕ) (e : Expr)
      → let result = outcome (copies_object alloc_size get_expr call) call e in
        All (λ c. call.address ≢ c.address) before
        → All (λ c. result.0 ≢ c.address) after
        → get_elem? block i ≡ some (call.address, e)
        → get_elem? (memcpy_to_assignment alloc_size get_expr (before ++ call ∷ after) block) i
          ≡ some result
  unfolding memcpy_to_assignment
  replaced [] call after block i e before_ne after_ne h =
      let result = outcome (copies_object alloc_size get_expr call) call e in
      memcpy_to_assignment-others after (replace_call alloc_size get_expr call block) i result.0
        result.1 after_ne (replace_call-own call block i e h)
  replaced (c ∷ before) call after block i e before_ne after_ne h =
      replaced before call after (replace_call alloc_size get_expr c block) i e before_ne.1 after_ne
        (replace_call-other c block i call.address e before_ne.0 h)

  decided :
      (copies : Bool) (call : CallInst)
      → (copies ≡ true) ↔ CopiesObject call
      → copies_object alloc_size get_expr call ≡ copies
  decided true call decides = CopiesObject→copies_object call (decides.0 refl)
  decided false call decides = elim (Bool-cases (copies_object alloc_size get_expr call)) [
    | inl h ↦ cc (decides.1 (copies_object→CopiesObject call h))
    | inr h ↦ h
  ]

  -- Let `copies` say whether the call is one of memcpy whose operands, without their casts, point to
  -- one type, and whose size is that of this type. The expression of the call is replaced by the
  -- assignment if so, and stays otherwise, where no other call has the expression's address or that
  -- of the new assignment.
  pub memcpy_to_assignment-exact :
      (copies : Bool) (before : List CallInst) (call : CallInst) (after : List CallInst)
      (block : List Statement) (i : ℕ) (e : Expr)
      → (copies ≡ true) ↔ CopiesObject call
      → All (λ c. call.address ≢ c.address) before
      → All (λ c. (outcome copies call e).0 ≢ c.address) after
      → get_elem? block i ≡ some (call.address, e)
      → get_elem? (memcpy_to_assignment alloc_size get_expr (before ++ call ∷ after) block) i
        ≡ some (outcome copies call e)
  memcpy_to_assignment-exact copies before call after block i e decides before_ne after_ne h =
      subst
        (λ c.
          All (λ d. (outcome c call e).0 ≢ d.address) after
          → get_elem? (memcpy_to_assignment alloc_size get_expr (before ++ call ∷ after) block) i
            ≡ some (outcome c call e))
        (decided copies call decides) (λ ne. replaced before call after block i e before_ne ne h)
        after_ne
