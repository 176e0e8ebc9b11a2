-- ===== src/Gep/Index.antt =====
-- The number that a normalised index moves a pointer by, and the casts that it loses.
use llvm2c.Prelude.{
  ℕ, zero, suc, Bool, true, false, if◌then◌else◌, ◌≡◌, refl, sym, ap, ◌∙◌, ◌≤◌, ◌<◌, some, arith,
}
use llvm2c.Types.{
  IntegerClass, char_type, int_type, bool_type, short_type, long_type, long_long_type, int128,
  integer,
}
use llvm2c.TypeHandler.{slong}
use llvm2c.Exprs.{
  Expr, TypeRef, get_type, is_zero, unary, binary, cast_expr, minus_expr, sub_expr, make_cast,
  make_minus,
}
use llvm2c.CInt.{ℤ, pos, negsuc, width, convert}
use llvm2c.RedundantCasts.Values.{Leaves, eval}
use llvm2c.Instructions.{remove_casts}
use llvm2c.Gep.{cast_index, normalize_index}

abbrev pub negate : ℤ → ℤ
negate (pos zero) = pos zero
negate (pos (suc n)) = negsuc n
negate (negsuc n) = pos (suc n)

-- An integer type that a 64-bit index may have; one bit is too narrow for the sign.
abbrev pub IsIndexClass : IntegerClass → Type 0
IsIndexClass c = (1 < width c) × (width c ≤ 64)

-- A number of the class that is the same number read with and without a sign is kept by the
-- conversions to 64 bits.
pub convert_index :
    (c : IntegerClass) (u : Bool) (v : ℤ)
    → IsIndexClass c
    → convert c u v ≡ v
    → convert c false v ≡ v
    → convert (if u then long_long_type else long_type) u v ≡ v
unfolding convert
convert_index char_type true v h a b = ground arith
convert_index char_type false v h a b = ground arith
convert_index int_type true v h a b = ground arith
convert_index int_type false v h a b = ground arith
convert_index bool_type true v h a b = ground arith
convert_index bool_type false v h a b = ground arith
convert_index short_type true v h a b = ground arith
convert_index short_type false v h a b = ground arith
convert_index long_type true v h a b = ground arith
convert_index long_type false v h a b = ground arith
convert_index long_long_type true v h a b = ground arith
convert_index long_long_type false v h a b = ground arith
convert_index int128 true v h a b = ground arith
convert_index int128 false v h a b = ground arith

module _ (m : Leaves) where
  -- The negation of the expression, cast to `long`, has in C the negated value.
  abbrev pub IsNegated : Expr → Type 0
  IsNegated e =
      m.leaf (unary minus_expr (make_cast e slong) (some slong))
      ≡ negate (convert long_type false (eval m e))

  -- Every cast in front of the expression keeps its value.
  abbrev pub KeepsValue : Expr → Type 0
  KeepsValue (unary cast_expr e t) = (eval m (unary cast_expr e t) ≡ eval m e) × KeepsValue e
  KeepsValue e = Unit

  eval-remove_casts : (e : Expr) → KeepsValue e → eval m (remove_casts e) ≡ eval m e
  unfolding remove_casts
  eval-remove_casts (unary cast_expr e t) (h, rest) = eval-remove_casts e rest ∙ sym h
  eval-remove_casts e h = refl

  -- A subtraction from zero has the negated value of its right operand, whose casts keep its value,
  -- and which is a number of type `long` that C can negate.
  abbrev pub IsPlain : Expr → Type 0
  IsPlain (binary (sub_expr u) l r t) =
      is_zero l ≡ true
      → (eval m (binary (sub_expr u) l r t) ≡ negate (eval m r))
        × (KeepsValue r
            × (convert long_type false (eval m r) ≡ eval m r)
            × IsNegated (remove_casts r))
  IsPlain e = Unit

  -- An index of an integer type with a value that is the same number with and without a sign.
  abbrev pub IsIndex : Expr → Type 0
  IsIndex e =
      (a : ℕ) × (c : IntegerClass) × (u : Bool) × (get_type e ≡ some (integer a c u))
      × IsIndexClass c
      × (convert c u (eval m e) ≡ eval m e)
      × (convert c false (eval m e) ≡ eval m e)

  eval-cast_index : (e : Expr) → IsIndex e → eval m (cast_index (get_type e) e) ≡ eval m e
  unfolding cast_index eval make_cast
  eval-cast_index e (a, c, true, t, small, h, h') =
      rw t (convert_index c true (eval m e) small h h')
  eval-cast_index e (a, c, false, t, small, h, h') =
      rw t (convert_index c false (eval m e) small h h')

  -- A subtraction from zero as the index of a pointer moves the pointer by the negated value of the
  -- right operand without any of its casts, converted to `long`: what the casts did to the value is
  -- lost, whether they kept it or not.
  pub eval-normalize_index_negated :
      (u : Bool) (l r : Expr) (t : TypeRef)
      → is_zero l ≡ true
      → IsNegated (remove_casts r)
      → eval m (normalize_index (binary (sub_expr u) l r t))
        ≡ negate (convert long_type false (eval m (remove_casts r)))
  unfolding normalize_index make_minus make_cast get_type eval
  eval-normalize_index_negated u l r t h negated = rw h negated

  eval-normalize_sub :
      (u z : Bool) (l r : Expr) (t : TypeRef)
      → is_zero l ≡ z
      → IsIndex (binary (sub_expr u) l r t)
      → IsPlain (binary (sub_expr u) l r t)
      → eval m (normalize_index (binary (sub_expr u) l r t)) ≡ eval m (binary (sub_expr u) l r t)
  eval-normalize_sub u true l r t z i plain =
      let (difference, (keeps, long, negated)) = plain z in
      eval-normalize_index_negated u l r t z negated
      ∙ ap (λ v. negate (convert long_type false v)) (eval-remove_casts r keeps)
      ∙ ap negate long
      ∙ sym difference
  eval-normalize_sub u false l r t z i plain =
      unfold normalize_index in
      rw z (unfold get_type in eval-cast_index (binary (sub_expr u) l r t) i)

  -- An index moves the pointer by its value.
  pub eval-normalize_index :
      (e : Expr) → IsIndex e → IsPlain e → eval m (normalize_index e) ≡ eval m e
  unfolding normalize_index
  eval-normalize_index (binary (sub_expr u) l r t) i plain =
      eval-normalize_sub u (is_zero l) l r t refl i plain
  eval-normalize_index e i plain = eval-cast_index e i
