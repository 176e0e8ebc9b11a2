-- ===== src/Constants.antt =====
-- parser/constval.cpp: the expressions for constants. What LLVM says of a constant is in its
-- constructor; `none` stands for the failed assertions, among them that of parseLLVMInstruction on an
-- instruction that it does not know. A constant expression for which that returns the null pointer
-- instead is not modelled. The expression that the program has for a constant already, and that of the
-- instruction for a constant expression, are arguments.
pub mod Integers
pub mod Errors
pub mod Tests
use llvm2c.Prelude.{
  ℕ, zero, suc, ◌-◌, ◌^◌, ◌==◌, ltb, leb, Bool, true, false, not, ◌&&◌, ◌||◌, if◌then◌else◌, Option,
  none, some, ◌>>=◌, List, [], ◌∷◌, ◌++◌, Text, codes, text_eq, to_decimal,
}
use llvm2c.Types.{CType}
use llvm2c.TypeHandler.{TypeHandler, pointer_to, set_signed, schar, uchar, float_object}
use llvm2c.Exprs.{
  Expr, Exprs, nil, cons, TypeRef, value, call_expr, null, aggregate_initializer, make_value,
  make_call, make_minus,
}
use llvm2c.CInt.{ℤ, pos, negsuc, of_residue}

-- LLVM's type of a value, with the type that program.getType gives for it.
mutual
  pub data ConstantType : Type 0 where
    pointer_type integer_type other_type : CType → ConstantType
    array_type : CType → ℕ → ConstantType → ConstantType
    struct_type : CType → ItemTypes → ConstantType

  pub data ItemTypes : Type 0 where
    no_item : ItemTypes
    item : ConstantType → ItemTypes → ItemTypes

-- What the code asks of a ConstantFP; the texts are those of std::to_string and APFloat::toString.
pub record FloatConstant : Type 0 where
  pub is_infinity : Bool
  pub is_negative : Bool
  pub is_nan : Bool
  pub is_float : Bool
  pub is_double : Bool
  pub converted : Text
  pub printed : Text
  pub type : CType

-- A constant by its class. A ConstantInt has its width and its bits; an unknown value whether its
-- type is a struct, a pointer or an array, and its ID.
mutual
  pub data Constant : Type 0 where
    undef_value : ConstantType → Constant
    null_pointer : CType → Constant
    global_variable : Option Expr → Constant
    function : Text → Constant
    constant_int : ℕ → ℕ → CType → Constant
    constant_fp : FloatConstant → Constant
    aggregate_zero constant_aggregate data_sequential : CType → Elements → Constant
    constant_expr instruction : Option Expr → Constant
    other_constant : CType → Bool → ℕ → Constant

  pub data Elements : Type 0 where
    no_element : Elements
    element : Constant → Elements → Elements

-- `values.push_back` of one value for every element of an array.
unfoldable pub repeat : ℕ → Expr → Exprs
repeat zero e = nil
repeat (suc n) e = cons e (repeat n e)

-- createUndefValue
unfoldable mutual
  unfolding repeat make_value

  pub create_undef_value : ConstantType → Option Expr
  create_undef_value (pointer_type t) = some (make_value (codes "0") t)
  create_undef_value (integer_type t) = some (make_value (codes "-1") t)
  create_undef_value (other_type t) = none
  create_undef_value (array_type t zero elem) = some (aggregate_initializer nil (some t))
  create_undef_value (array_type t (suc n) elem) =
      create_undef_value elem >>= λ e. some (aggregate_initializer (repeat (suc n) e) (some t))
  create_undef_value (struct_type t items) =
      create_items items >>= λ es. some (aggregate_initializer es (some t))

  pub create_items : ItemTypes → Option Exprs
  create_items no_item = some nil
  create_items (item t items) =
      create_undef_value t >>= λ e. create_items items >>= λ es. some (cons e es)

-- std::to_string
unfoldable pub to_string : ℤ → Text
to_string (pos n) = to_decimal n
to_string (negsuc n) = b'-' ∷ to_decimal (suc n)

-- APInt::getLimitedValue
unfoldable pub limited_value : ℕ → ℕ
limited_value bits = if ltb bits (2 ^ 64) then bits else 2 ^ 64 - 1

-- The number that the expression for a ConstantInt shows.
unfoldable pub shown_value : ℕ → ℕ → ℤ
unfolding limited_value
shown_value width bits =
    if ltb 64 width
    then pos (limited_value bits)
    else (if width == 1 then pos bits else of_residue width bits)

unfoldable pub starts_with_minus : Text → Bool
starts_with_minus [] = false
starts_with_minus (c ∷ s) = c == b'-'

unfoldable pub create_int : ℕ → ℕ → CType → Expr
unfolding to_string shown_value starts_with_minus make_value set_signed
create_int width bits t =
    let text = to_string (shown_value width bits) in
    make_value text (if starts_with_minus text then set_signed t else t)

-- `CFPvalue.empty() || CFPvalue.back() != 'f'`
unfoldable pub lacks_suffix : Text → Bool
lacks_suffix [] = true
lacks_suffix (c ∷ []) = not (c == b'f')
lacks_suffix (c ∷ d ∷ s) = lacks_suffix (d ∷ s)

unfoldable pub make_nan : TypeHandler → Expr × TypeHandler
unfolding make_call make_value pointer_to
make_nan h =
    let made = pointer_to uchar h in
    (
      make_call (codes "__builtin_nanf") (cons (make_value (codes "\"\"") made.0) nil) float_object,
      made.1,
    )

unfoldable pub create_number : FloatConstant → Expr
unfolding make_value lacks_suffix
create_number f =
    make_value (if f.is_float && lacks_suffix f.printed then f.printed ++ codes "f" else f.printed)
      f.type

unfoldable pub create_fp : FloatConstant → TypeHandler → Option (Expr × TypeHandler)
unfolding make_call make_minus make_nan create_number text_eq
create_fp f h =
    let infinity = make_call (codes "__builtin_inff") nil f.type in
    let nan = make_nan h in
    if f.is_infinity
    then some (if f.is_negative then make_minus infinity else infinity, h)
    else (if f.is_nan
        then some nan
        else (if f.is_float || f.is_double
            then some (
                if text_eq f.converted (codes "-nan")
                then (make_minus nan.0, nan.1)
                else (create_number f, h))
            else none))

-- A value of no known class: an initializer without elements or type for a struct, a pointer or an
-- array, and zero for the IDs of instructions.
unfoldable pub create_other : CType → Bool → ℕ → Option Expr
unfolding make_value
create_other t is_aggregate id =
    if is_aggregate
    then some (aggregate_initializer nil none)
    else (if leb 32 id && leb id 100 then some (make_value (codes "0") t) else none)

unfoldable pub with_handler : TypeHandler → Option Expr → Option (Expr × TypeHandler)
with_handler h none = none
with_handler h (some e) = some (e, h)

-- `val->getName()` with the type `signed char*`.
unfoldable pub create_function : Text → TypeHandler → Expr × TypeHandler
unfolding make_value pointer_to
create_function name h = let made = pointer_to schar h in (make_value name made.0, made.1)

-- The expression that the program has already, or else the given one.
unfoldable pub or_existing :
    Option Expr → TypeHandler → Option (Expr × TypeHandler) → Option (Expr × TypeHandler)
or_existing none h made = made
or_existing (some existing) h made = some (existing, h)

-- The initializer with the elements given.
unfoldable pub make_aggregate : CType → Option (Exprs × TypeHandler) → Option (Expr × TypeHandler)
make_aggregate t elements =
    elements >>= λ made. some (aggregate_initializer made.0 (some t), made.1)

module _ (get_expr : Constant → Option Expr) where
  -- createConstantValue on a constant that has no expression yet.
  unfoldable mutual
    unfolding or_existing make_aggregate with_handler create_undef_value make_value create_function
        create_int create_fp create_other

    pub create_new : Constant → TypeHandler → Option (Expr × TypeHandler)
    create_new (undef_value t) h = with_handler h (create_undef_value t)
    create_new (null_pointer t) h = some (make_value (codes "0") t, h)
    create_new (global_variable ref) h = with_handler h ref
    create_new (function name) h = some (create_function name h)
    create_new (constant_int width bits t) h = some (create_int width bits t, h)
    create_new (constant_fp f) h = create_fp f h
    create_new (aggregate_zero t elements) h = make_aggregate t (create_elements elements h)
    create_new (constant_aggregate t elements) h = make_aggregate t (create_elements elements h)
    create_new (data_sequential t elements) h = make_aggregate t (create_elements elements h)
    create_new (constant_expr made) h = with_handler h made
    create_new (instruction made) h = with_handler h made
    create_new (other_constant t is_aggregate id) h =
        with_handler h (create_other t is_aggregate id)

    pub create_elements : Elements → TypeHandler → Option (Exprs × TypeHandler)
    create_elements no_element h = some (nil, h)
    create_elements (element c cs) h = do
      first ← or_existing (get_expr c) h (create_new c h)
      rest ← create_elements cs first.1
      some (cons first.0 rest.0, rest.1)

  -- createConstantValue
  unfoldable pub create_constant_value : Constant → TypeHandler → Option (Expr × TypeHandler)
  unfolding or_existing create_new
  create_constant_value c h = or_existing (get_expr c) h (create_new c h)
