-- ===== src/Constants/Errors.antt =====
-- Which constants have no expression: those that reach one of the code's failing assertions.
use llvm2c.Prelude.{
  ℕ, zero, suc, leb, Bool, true, false, ◌&&◌, ◌||◌, if◌then◌else◌, ◌≡◌, refl, sym, ap, ◌∙◌, Option,
  none, some, ◌>>=◌, List, [], ◌∷◌, ◌++◌,
}
use llvm2c.Types.{CType}
use llvm2c.TypeHandler.{TypeHandler}
use llvm2c.Exprs.{Expr}
use llvm2c.Constants.{
  ConstantType, pointer_type, integer_type, other_type, array_type, struct_type, ItemTypes, no_item,
  item, FloatConstant, Constant, undef_value, global_variable, constant_fp, aggregate_zero,
  constant_aggregate, data_sequential, constant_expr, instruction, other_constant, Elements,
  no_element, element, create_undef_value, create_items, create_fp, create_other, with_handler,
  or_existing, make_aggregate, create_new, create_elements, create_constant_value,
}

abbrev pub is_some {ℓ} : {A : Type ℓ} → Option A → Bool
is_some none = false
is_some (some a) = true

abbrev pub every {ℓ} : {A : Type ℓ} → (A → Bool) → List A → Bool
every p [] = true
every p (x ∷ xs) = p x && every p xs

&&-assoc : (a b c : Bool) → ((a && b) && c) ≡ (a && (b && c))
&&-assoc true b c = refl
&&-assoc false b c = refl

&&-true : (a : Bool) → (a && true) ≡ a
&&-true true = refl
&&-true false = refl

every-append {ℓ} :
    {A : Type ℓ} (p : A → Bool) (xs ys : List A) → every p (xs ++ ys) ≡ (every p xs && every p ys)
every-append p [] ys = refl
every-append p (x ∷ xs) ys =
    ap (λ b. p x && b) (every-append p xs ys) ∙ sym (&&-assoc (p x) (every p xs) (every p ys))

is_some-map {ℓ κ} :
    {A : Type ℓ} {B : Type κ} (o : Option A) (f : A → B)
    → is_some (o >>= λ a. some (f a)) ≡ is_some o
is_some-map none f = refl
is_some-map (some a) f = refl

is_some-both {ℓ κ} :
    {A : Type ℓ} {B C : Type κ} (o : Option A) (next : A → Option B) (f : A → B → C) (b : Bool)
    → ((a : A) → is_some (next a) ≡ b)
    → is_some (o >>= λ a. next a >>= λ b. some (f a b)) ≡ (is_some o && b)
is_some-both none next f b h = refl
is_some-both (some a) next f b h = is_some-map (next a) (f a) ∙ h a

-- The types that are no arrays or structs in a type, those of array elements if there are any.
abbrev mutual
  pub leaf_types : ConstantType → List ConstantType
  leaf_types (array_type t zero elem) = []
  leaf_types (array_type t (suc n) elem) = leaf_types elem
  leaf_types (struct_type t items) = item_leaf_types items
  leaf_types t = t ∷ []

  pub item_leaf_types : ItemTypes → List ConstantType
  item_leaf_types no_item = []
  item_leaf_types (item t items) = leaf_types t ++ item_leaf_types items

abbrev pub has_undef : ConstantType → Bool
has_undef (other_type t) = false
has_undef t = true

mutual
  unfolding create_undef_value

  create_undef_value-is_some :
      (t : ConstantType) → is_some (create_undef_value t) ≡ every has_undef (leaf_types t)
  create_undef_value-is_some (pointer_type t) = refl
  create_undef_value-is_some (integer_type t) = refl
  create_undef_value-is_some (other_type t) = refl
  create_undef_value-is_some (array_type t zero elem) = refl
  create_undef_value-is_some (array_type t (suc n) elem) =
      is_some-map (create_undef_value elem) _ ∙ create_undef_value-is_some elem
  create_undef_value-is_some (struct_type t items) =
      is_some-map (create_items items) _ ∙ create_items-is_some items

  create_items-is_some :
      (items : ItemTypes) → is_some (create_items items) ≡ every has_undef (item_leaf_types items)
  create_items-is_some no_item = refl
  create_items-is_some (item t items) =
      is_some-both (create_undef_value t) (λ e. create_items items) _ _
        (λ e. create_items-is_some items)
      ∙ (ap (λ b. b && every has_undef (item_leaf_types items)) (create_undef_value-is_some t)
          ∙ sym (every-append has_undef (leaf_types t) (item_leaf_types items)))

-- A constant that is no aggregate, and for which no assertion fails.
abbrev pub is_translatable : Constant → Bool
is_translatable (undef_value t) = every has_undef (leaf_types t)
is_translatable (global_variable ref) = is_some ref
is_translatable (constant_fp f) = (f.is_infinity || f.is_nan) || (f.is_float || f.is_double)
is_translatable (constant_expr made) = is_some made
is_translatable (instruction made) = is_some made
is_translatable (other_constant t is_aggregate id) = is_aggregate || (leb 32 id && leb id 100)
is_translatable c = true

is_some-with_handler : (h : TypeHandler) (o : Option Expr) → is_some (with_handler h o) ≡ is_some o
unfolding with_handler
is_some-with_handler h none = refl
is_some-with_handler h (some e) = refl

create_fp-is_some :
    (f : FloatConstant) (h : TypeHandler)
    → is_some (create_fp f h) ≡ ((f.is_infinity || f.is_nan) || (f.is_float || f.is_double))
unfolding create_fp
create_fp-is_some f h = cases f.is_infinity f.is_nan (f.is_float || f.is_double) _ _ _
  where
    cases :
        (i n fd : Bool) (a b c : Expr × TypeHandler)
        → is_some (if i then some a else (if n then some b else (if fd then some c else none)))
          ≡ ((i || n) || fd)
    cases true n fd a b c = refl
    cases false true fd a b c = refl
    cases false false true a b c = refl
    cases false false false a b c = refl

create_other-is_some :
    (t : CType) (is_aggregate : Bool) (id : ℕ)
    → is_some (create_other t is_aggregate id) ≡ (is_aggregate || (leb 32 id && leb id 100))
unfolding create_other
create_other-is_some t true id = refl
create_other-is_some t false id = test (leb 32 id && leb id 100) _
  where
    test : (b : Bool) (e : Expr) → is_some (if b then some e else none) ≡ b
    test true e = refl
    test false e = refl

module _ (get_expr : Constant → Option Expr) where
  -- The constants that are no aggregates in a constant, but for those that have an expression.
  abbrev mutual
    pub parts : Constant → List Constant
    parts (aggregate_zero t elements) = element_parts elements
    parts (constant_aggregate t elements) = element_parts elements
    parts (data_sequential t elements) = element_parts elements
    parts c = c ∷ []

    pub element_parts : Elements → List Constant
    element_parts no_element = []
    element_parts (element c cs) =
        (if is_some (get_expr c) then [] else parts c) ++ element_parts cs

  abbrev pub reached : Constant → List Constant
  reached c = if is_some (get_expr c) then [] else parts c

  is_some-reached :
      (existing : Option Expr) (h : TypeHandler) (made : Option (Expr × TypeHandler))
      (xs : List Constant)
      → is_some made ≡ every is_translatable xs
      → is_some (or_existing existing h made)
        ≡ every is_translatable (if is_some existing then [] else xs)
  unfolding or_existing
  is_some-reached none h made xs e = e
  is_some-reached (some existing) h made xs e = refl

  mutual
    unfolding create_new make_aggregate

    create_new-is_some :
        (c : Constant) (h : TypeHandler)
        → is_some (create_new get_expr c h) ≡ every is_translatable (parts c)
    create_new-is_some (undef_value t) h =
        is_some-with_handler h (create_undef_value t)
        ∙ create_undef_value-is_some t
        ∙ sym (&&-true (every has_undef (leaf_types t)))
    create_new-is_some (global_variable ref) h =
        is_some-with_handler h ref ∙ sym (&&-true (is_some ref))
    create_new-is_some (constant_fp f) h = create_fp-is_some f h ∙ sym (&&-true _)
    create_new-is_some (aggregate_zero t elements) h =
        is_some-map (create_elements get_expr elements h) _ ∙ create_elements-is_some elements h
    create_new-is_some (constant_aggregate t elements) h =
        is_some-map (create_elements get_expr elements h) _ ∙ create_elements-is_some elements h
    create_new-is_some (data_sequential t elements) h =
        is_some-map (create_elements get_expr elements h) _ ∙ create_elements-is_some elements h
    create_new-is_some (constant_expr made) h =
        is_some-with_handler h made ∙ sym (&&-true (is_some made))
    create_new-is_some (instruction made) h =
        is_some-with_handler h made ∙ sym (&&-true (is_some made))
    create_new-is_some (other_constant t is_aggregate id) h =
        is_some-with_handler h (create_other t is_aggregate id)
        ∙ create_other-is_some t is_aggregate id
        ∙ sym (&&-true _)
    create_new-is_some c h = refl

    create_elements-is_some :
        (elements : Elements) (h : TypeHandler)
        → is_some (create_elements get_expr elements h)
          ≡ every is_translatable (element_parts elements)
    create_elements-is_some no_element h = refl
    create_elements-is_some (element c cs) h =
        is_some-both (or_existing (get_expr c) h (create_new get_expr c h))
          (λ first. create_elements get_expr cs first.1) _ _
          (λ first. create_elements-is_some cs first.1)
        ∙ (ap (λ b. b && every is_translatable (element_parts cs))
              (is_some-reached (get_expr c) h (create_new get_expr c h) (parts c)
                (create_new-is_some c h))
            ∙ sym (every-append is_translatable (reached c) (element_parts cs)))

  -- createConstantValue yields an expression exactly if no constant that it reaches fails an
  -- assertion: a global variable without a reference, an undefined value with a type that is no
  -- pointer, integer, array or struct, floating-point numbers that are neither `float` nor `double`
  -- nor infinite or a NaN, an instruction that cannot be translated, or a value that no case knows.
  pub create_constant_value-succeeds :
      (c : Constant) (h : TypeHandler)
      → is_some (create_constant_value get_expr c h) ≡ every is_translatable (reached c)
  unfolding create_constant_value
  create_constant_value-succeeds c h =
      is_some-reached (get_expr c) h (create_new get_expr c h) (parts c) (create_new-is_some c h)
