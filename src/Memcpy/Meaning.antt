-- ===== src/Memcpy/Meaning.antt =====
-- The assignment that stands for a call of memcpy assigns between the objects that the two arguments
-- point to, but for the forms of an argument that the pass dereferences once too often or too seldom.
use llvm2c.Prelude.{if◌then◌else◌, ℕ, true, false, ◌≡◌, refl, sym, ap, ◌∙◌, some, [], ◌∷◌}
use llvm2c.Types.{CType, pointer, PointerFields}
use llvm2c.Types.Kinds.{is_pointer_type}
use llvm2c.Exprs.{
  Expr, TypeRef, unary, ref_expr, deref_expr, cast_expr, assign_expr, get_type, deref_type,
  make_deref, make_binary,
}
use llvm2c.Visitor.Meaning.{Meaning, of_unary, of_binary, meaning}
use llvm2c.RefDeref.Proofs.{IsInverse}
use llvm2c.Memcpy.{
  is_pointer, unwrap_expr, get_inner_expr, assign_inner, assign_operand, make_assignment,
}

-- `&e` of type `t` points to what is not a pointer itself.
abbrev pub PointsToObject : TypeRef → Expr → Type 0
PointsToObject (some (pointer _ pointed _)) e = is_pointer_type pointed ≡ false
PointsToObject t e = is_pointer (get_type e) ≡ false

-- An address as the pass expects it: `&v` of an object `v` that is no pointer, with no further `&`
-- or `*` in front of `v`, or a pointer that is neither `&v` nor `*v`.
abbrev pub IsAddress : Expr → Type 0
IsAddress (unary ref_expr e t) = (get_inner_expr e ≡ e) × PointsToObject t e
IsAddress (unary deref_expr e t) = ⊥
IsAddress e = is_pointer (get_type e) ≡ true

-- Casts in front of the expression are to pointers, and it is not `&&v`.
abbrev pub HasPointerCasts : Expr → Type 0
HasPointerCasts (unary cast_expr e t) = (is_pointer t ≡ true) × HasPointerCasts e
HasPointerCasts (unary ref_expr (unary ref_expr e t) t') = ⊥
HasPointerCasts e = Unit

-- A cast from pointer to pointer keeps the address.
abbrev pub IgnoresPointerCasts : {V : Type 0} → Meaning V → Type 0
IgnoresPointerCasts {V} m =
    (v : V) (t : TypeRef) → is_pointer t ≡ true → m.of_shape (of_unary cast_expr t) (v ∷ []) ≡ v

-- The object at the address.
abbrev pub object_at : {V : Type 0} → Meaning V → TypeRef → V → V
object_at m t v = m.of_shape (of_unary deref_expr (deref_type t)) (v ∷ [])

module _ {V : Type 0} (m : Meaning V) (inverse : IsInverse m) where
  meaning-object :
      (e : Expr) (t : TypeRef) → meaning m e ≡ object_at m t (meaning m (unary ref_expr e t))
  unfolding meaning
  meaning-object e t = sym (inverse (meaning m e) (deref_type t) t).1

  meaning-assign_inner :
      (e : Expr) (t : TypeRef)
      → PointsToObject t e
      → meaning m (assign_inner t e) ≡ object_at m t (meaning m (unary ref_expr e t))
  unfolding assign_inner
  meaning-assign_inner e (some (pointer a p f)) h = rw h (meaning-object e (some (pointer a p f)))
  meaning-assign_inner e t h = rw h (meaning-object e t)

  deref_if_pointer :
      (e : Expr)
      → is_pointer (get_type e) ≡ true
      → meaning m (if is_pointer (get_type e) then make_deref e else e)
        ≡ object_at m (get_type e) (meaning m e)
  unfolding meaning make_deref
  deref_if_pointer e h = rw h

  meaning-assign_operand :
      (e : Expr)
      → IsAddress e
      → meaning m (assign_operand e) ≡ object_at m (get_type e) (meaning m e)
  unfolding assign_operand
  meaning-assign_operand (unary ref_expr e t) (plain, h) =
      rw plain (unfold get_type in meaning-assign_inner e t h)
  meaning-assign_operand (unary deref_expr e t) h = absurd h
  meaning-assign_operand e h = deref_if_pointer e h

  module _ (ignores : IgnoresPointerCasts m) where
    meaning-unwrap_expr : (e : Expr) → HasPointerCasts e → meaning m (unwrap_expr e) ≡ meaning m e
    unfolding unwrap_expr meaning
    meaning-unwrap_expr (unary cast_expr e t) (h, rest) =
        meaning-unwrap_expr e rest ∙ sym (ignores (meaning m e) t h)
    meaning-unwrap_expr (unary ref_expr (unary ref_expr e t) t') h = absurd h
    meaning-unwrap_expr e h = refl

    -- For arguments that are pointers to objects which are no pointers themselves, `&v` or any
    -- pointer but `*v`, with casts between pointers in front, the assignment that the pass makes
    -- assigns the object at the source to the object at the destination, in every compositional
    -- meaning in which `&` and `*` undo each other and casts between pointers change nothing.
    pub meaning-make_assignment :
        (dst src : Expr)
        → HasPointerCasts dst × IsAddress (unwrap_expr dst)
        → HasPointerCasts src × IsAddress (unwrap_expr src)
        → meaning m (make_assignment dst src)
          ≡ m.of_shape (of_binary assign_expr (get_type (make_assignment dst src))) (
              object_at m (get_type (unwrap_expr dst)) (meaning m dst)
              ∷ object_at m (get_type (unwrap_expr src)) (meaning m src)
              ∷ [])
    unfolding make_assignment make_binary meaning
    meaning-make_assignment dst src (casts, address) (casts', address') = simp (
      meaning-assign_operand (unwrap_expr dst) address,
      meaning-assign_operand (unwrap_expr src) address',
      meaning-unwrap_expr dst casts,
      meaning-unwrap_expr src casts',
    )

  -- For the address of a variable that is a pointer, the pass assigns to or from the object that
  -- this pointer points to, and not to or from the pointer.
  pub meaning-assign_operand_twice :
      (v : Expr) (a a' : ℕ) (object : CType) (f f' : PointerFields)
      → get_inner_expr v ≡ v
      → let reference = unary ref_expr v (some (pointer a (pointer a' object f') f)) in
        meaning m (assign_operand reference)
        ≡ object_at m (get_type v) (object_at m (get_type reference) (meaning m reference))
  unfolding assign_operand assign_inner is_pointer_type make_deref get_type meaning
  meaning-assign_operand_twice v a a' object f f' plain =
      rw plain (
        ap (object_at m (get_type v))
          (meaning-object v (some (pointer a (pointer a' object f') f))))
