-- ===== src/Gep/Address.antt =====
-- The reference that is made for a getelementptr points to the address that LLVM's instruction gives.
use llvm2c.Prelude.{
  ℕ, Bool, true, false, ◌≡◌, refl, sym, ap, ap₂, ◌∙◌, Option, none, some, ◌>>=◌, List, [], ◌∷◌,
}
use llvm2c.Types.{CType, pointer, PointerFields, integer}
use llvm2c.Types.Kinds.{is_aggregate_type}
use llvm2c.TypeHandler.{TypeHandler, pointer_to}
use llvm2c.Exprs.{
  Expr, Exprs, TypeRef, nil, cons, unary, ref_expr, deref_expr, cast_expr, array_element,
  aggregate_element, pointer_shift, gep_expr, get_type, deref_type, pointed_by, is_zero, make_cast,
  make_deref, make_ref,
}
use llvm2c.Arrowify.{Items}
use llvm2c.CInt.{ℤ, pos, convert}
use llvm2c.RedundantCasts.Values.{Leaves, eval}
use llvm2c.Gep.{
  Step, through_pointer, into_array, into_struct, into_other, normalize_index, make_pointer_shift,
  make_element, parse_step, parse_steps, type_of_last, gep_base, parse_gep,
}
use llvm2c.Gep.Index.{IsIndex, IsPlain, eval-normalize_index}

-- The addresses of the target: the value of a pointer that is neither `&` of an expression nor a cast,
-- an address moved by a number of objects of a type, and that of an item of a struct or union.
pub record Addresses (A : Type 0) : Type 0 where
  pub value_of : Expr → A
  pub shift : TypeRef → A → ℤ → A
  pub item : TypeRef → A → ℕ → A

parse_gep-made :
    (items : Items) (p : CType) (expr idx : Expr) (steps : List Step) (h : TypeHandler) (e : Expr)
    (es : Exprs) (t : TypeRef) (t' : CType)
    → parse_step items (gep_base p expr) (through_pointer p idx) ≡ some e
    → parse_steps items true e steps ≡ some es
    → get_type e ≡ t
    → type_of_last t es ≡ some t'
    → parse_gep items p expr (through_pointer p idx ∷ steps) h
      ≡ some (make_ref (gep_expr (cons e es) (some t')) (pointer_to t' h).0, (pointer_to t' h).1)
unfolding parse_gep parse_steps type_of_last
parse_gep-made items p expr idx steps h e es t t' made rest typed last =
    rw (made, rest, typed, last) refl

module _ {A : Type 0} (l : Addresses A) (m : Leaves) where
  -- In C, the value of a pointer and the address of an object.
  unfoldable mutual
    pub pointer_value : Expr → A
    pointer_value (unary ref_expr e t) = location e
    pointer_value (unary cast_expr e t) = pointer_value e
    pointer_value e = l.value_of e

    pub location : Expr → A
    location (unary deref_expr e t) = pointer_value e
    location (pointer_shift pt p move t) = l.shift (pointed_by pt) (pointer_value p) (eval m move)
    location (array_element e i t) = l.shift t (location e) (eval m i)
    location (aggregate_element e n t) = l.item (get_type e) (location e) n
    location (gep_expr es t) = location_of_last (l.value_of (gep_expr es t)) es
    location e = l.value_of (unary ref_expr e none)

    pub location_of_last : A → Exprs → A
    location_of_last a nil = a
    location_of_last a (cons e es) = location_of_last (location e) es

  -- LLVM reads an index as a signed number.
  abbrev pub read_signed : TypeRef → ℤ → ℤ
  read_signed (some (integer _ c _)) v = convert c false v
  read_signed t v = v

  abbrev pub index_value : Expr → ℤ
  index_value e = read_signed (get_type e) (eval m e)

  -- The address that LLVM computes, from that of an object of the given type.
  unfoldable pub gep_address : Items → TypeRef → A → List Step → A
  gep_address items t a [] = a
  gep_address items t a (through_pointer p idx ∷ steps) =
      gep_address items (pointed_by (some p)) (l.shift (pointed_by (some p)) a (index_value idx))
        steps
  gep_address items t a (into_array elem idx ∷ steps) =
      gep_address items (some elem) (l.shift (some elem) a (index_value idx)) steps
  gep_address items none a (into_struct (some n) ∷ steps) = a
  gep_address items (some s) a (into_struct (some n) ∷ steps) =
      gep_address items (items s n) (l.item (some s) a n) steps
  gep_address items t a (into_struct none ∷ steps) = a
  gep_address items t a (into_other ∷ steps) = a

  -- The indices after the first: constants for structs, and integers.
  abbrev pub IsPath : Items → TypeRef → List Step → Type 0
  IsPath items none [] = ⊥
  IsPath items (some t) [] = Unit
  IsPath items t (into_array elem idx ∷ steps) = IsIndex m idx × IsPath items (some elem) steps
  IsPath items (some s) (into_struct (some n) ∷ steps) =
      (is_aggregate_type s ≡ true) × IsPath items (items s n) steps
  IsPath items t (step ∷ steps) = ⊥

  index_value-IsIndex : (e : Expr) → IsIndex m e → index_value e ≡ eval m e
  index_value-IsIndex e (a, c, u, t, small, h, h') = rw t h'

  -- The chain that the loop makes has a type, and its last element the address given.
  abbrev pub Reaches : Option Exprs → TypeRef → A → A → Type 0
  Reaches made t a a' =
      (es : Exprs) × (made ≡ some es)
      × ((t' : CType) × (type_of_last t es ≡ some t'))
      × (location_of_last a es ≡ a')

  Reaches-cons :
      (made : Option Exprs) (e : Expr) (t : TypeRef) (a a' : A)
      → Reaches made (get_type e) (location e) a'
      → Reaches (made >>= λ es. some (cons e es)) t a a'
  unfolding type_of_last location
  Reaches-cons made e t a a' (es, h, typed, reached) =
      (cons e es, ap (λ o. o >>= λ es. some (cons e es)) h, typed, reached)

  Reaches-steps :
      (items : Items) (prev : Expr) (t : TypeRef) (a : A) (steps : List Step)
      → get_type prev ≡ t
      → location prev ≡ a
      → IsPath items t steps
      → Reaches (parse_steps items true prev steps) t (location prev) (gep_address items t a steps)
  unfolding parse_steps parse_step make_element gep_address location type_of_last get_type
  Reaches-steps items prev none a [] h place path = absurd path
  Reaches-steps items prev (some t) a [] h place path = (nil, refl, (t, refl), place)
  Reaches-steps items prev t a (into_array elem idx ∷ steps) h place (index, path) =
      let e = array_element prev idx (some elem) in
      Reaches-cons (parse_steps items true e steps) e t (location prev) _ (
        Reaches-steps items e (some elem) _ steps refl
          (ap₂ (l.shift (some elem)) place (sym (index_value-IsIndex idx index))) path)
  Reaches-steps items prev (some s) a (into_struct (some n) ∷ steps) h place (aggregate, path) =
      let e = aggregate_element prev n (items s n) in
      rw (h, aggregate)
        (Reaches-cons (parse_steps items true e steps) e (some s) (location prev) _
          (Reaches-steps items e (items s n) _ steps refl (ap₂ (λ t x. l.item t x n) h place) path))
  Reaches-steps items prev none a (into_struct (some n) ∷ steps) h place path = absurd path
  Reaches-steps items prev none a (into_struct none ∷ steps) h place path = absurd path
  Reaches-steps items prev (some t) a (into_struct none ∷ steps) h place path = absurd path
  Reaches-steps items prev none a (through_pointer p idx ∷ steps) h place path = absurd path
  Reaches-steps items prev (some t) a (through_pointer p idx ∷ steps) h place path = absurd path
  Reaches-steps items prev none a (into_other ∷ steps) h place path = absurd path
  Reaches-steps items prev (some t) a (into_other ∷ steps) h place path = absurd path

  module _ (zeros : (e : Expr) → is_zero e ≡ true → eval m e ≡ pos 0)
      (shift_0 : (t : TypeRef) (a : A) → l.shift t a (pos 0) ≡ a) where
    -- The element for the first index: where it refers to, and its type.
    abbrev IsFirst : Expr → CType → Expr → Option Expr → Type 0
    IsFirst base pointed idx made =
        (e : Expr) × (made ≡ some e)
        × (get_type e ≡ some pointed)
        × (location e ≡ l.shift (some pointed) (pointer_value base) (index_value idx))

    IsFirst-parse_step :
        (items : Items) (base : Expr) (a : ℕ) (pointed : CType) (f : PointerFields) (idx : Expr)
        (z : Bool)
        → get_type base ≡ some (pointer a pointed f)
        → is_zero idx ≡ z
        → IsIndex m idx
        → IsPlain m idx
        → IsFirst base pointed idx
            (parse_step items base (through_pointer (pointer a pointed f) idx))
    unfolding parse_step make_pointer_shift make_deref location get_type pointed_by deref_type
    IsFirst-parse_step items base a pointed f idx true h z index plain = rw z (
      make_deref base,
      refl,
      (unfold make_deref in unfold get_type in unfold deref_type in rw h refl),
      sym (
          ap (l.shift (some pointed) (pointer_value base))
            (index_value-IsIndex idx index ∙ zeros idx z)
          ∙ shift_0 (some pointed) (pointer_value base)),
    )
    IsFirst-parse_step items base a pointed f idx false h z index plain = rw z (
      pointer_shift (some (pointer a pointed f)) base (normalize_index idx) (some pointed),
      refl,
      refl,
      ap (l.shift (some pointed) (pointer_value base))
          (eval-normalize_index m idx index plain ∙ sym (index_value-IsIndex idx index)),
    )

    gep_base-typed :
        (expr : Expr) (p : CType) (z : Bool)
        → is_zero expr ≡ z
        → (is_zero expr ≡ false → get_type expr ≡ some p)
        → (get_type (gep_base p expr) ≡ some p)
          × (pointer_value (gep_base p expr) ≡ pointer_value expr)
    unfolding gep_base make_cast get_type pointer_value
    gep_base-typed expr p true z h = rw z (refl, refl)
    gep_base-typed expr p false z h = rw z (h z, refl)

    -- For a base that has the C type of the pointer operand or is the null pointer, a first index
    -- through that pointer and further ones into arrays and, constant ones, into structs and unions,
    -- all integers whose values are the same numbers with and without a sign, and those that are
    -- subtractions from zero with no cast that changes a value: parseGepInstruction yields an
    -- expression, and that points to the address that LLVM's getelementptr computes.
    pub pointer_value-parse_gep :
        (items : Items) (a : ℕ) (pointed : CType) (f : PointerFields) (expr idx : Expr)
        (steps : List Step) (h : TypeHandler)
        → let p = pointer a pointed f in
          (is_zero expr ≡ false → get_type expr ≡ some p)
          → IsIndex m idx × IsPlain m idx
          → IsPath items (some pointed) steps
          → (e : Expr) × (h' : TypeHandler) × (parse_gep items p expr
                (through_pointer p idx ∷ steps)
                h
              ≡ some (e, h'))
            × (pointer_value e
                ≡ gep_address items none (pointer_value expr) (through_pointer p idx ∷ steps))
    unfolding parse_gep parse_steps pointer_value make_ref gep_address pointed_by type_of_last
    pointer_value-parse_gep items a pointed f expr idx steps h typed (index, plain) path =
        let p = pointer a pointed f in
        let (base_typed, same) = gep_base-typed expr p (is_zero expr) refl typed in
        let (e, made, t, there) =
          IsFirst-parse_step items (gep_base p expr) a pointed f idx (is_zero idx) base_typed refl
            index plain in
        let (es, rest, (t', last), reached) =
          Reaches-steps items e (some pointed) _ steps t
            (there ∙ ap (λ x. l.shift (some pointed) x (index_value idx)) same) path in
        (
          _,
          _,
          parse_gep-made items p expr idx steps h e es (some pointed) t' made rest t last,
          reached,
        )
