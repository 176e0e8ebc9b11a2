-- ===== src/Types.antt =====
-- type/Type.h and type/Type.cpp: the objects that stand for C types, their constructors and their
-- kinds. A `Type*` is an object with its address, so two pointers are equal exactly when the two
-- objects are, address included.
pub mod Print
pub mod Kinds
pub mod Declarators
pub mod Tests
use llvm2c.Prelude.{
  ℕ, ◌+◌, ◌==◌, ◌%◌, ◌^◌, Bool, true, false, not, ◌&&◌, Option, none, some, [], Text, codes,
  ℕ_discrete, ◌≡◌, ◌↔◌, arith,
}
use mathlib.Core.Bool.{decide, decide_iff}

pub data TypeKind : Type 0 where
  tk_function_pointer_type tk_struct_type tk_union_type tk_pointer_type tk_array_type : TypeKind
  tk_void_type tk_integer_type tk_char_type tk_int_type tk_bool_type tk_short_type : TypeKind
  tk_long_type tk_long_long_type tk_int128 : TypeKind
  tk_floating_point_type tk_float_type tk_double_type tk_long_double_type : TypeKind

-- The subclasses of IntegerType.
pub data IntegerClass : Type 0 where
  char_type int_type bool_type short_type long_type long_long_type int128 : IntegerClass

-- The subclasses of FloatingPointType.
pub data FloatingClass : Type 0 where
  float_type double_type long_double_type : FloatingClass

-- The fields of a PointerType besides the pointed type.
pub record PointerFields : Type 0 where
  pub levels : ℕ
  pub is_array_pointer : Bool
  pub is_struct_pointer : Bool
  pub struct_name : Text

-- The fields of an ArrayType besides the element type and the size; of the `pointer` field only
-- the fields of the object that it points to are used.
pub record ArrayFields : Type 0 where
  pub dyn_size : Option Text
  pub is_struct_array : Bool
  pub struct_name : Text
  pub is_pointer_array : Bool
  pub pointer : Option PointerFields

-- The first field is the object's address. The items of a struct or union are in a table of the
-- program, since they may point back to it. No code sets `isConst` of a type, so it has no field.
pub data CType : Type 0 where
  function_pointer : ℕ → Text → Text → Text → CType
  struct_of union_of : ℕ → Text → CType
  pointer : ℕ → CType → PointerFields → CType
  array : ℕ → CType → ℕ → ArrayFields → CType
  void : ℕ → CType
  integer : ℕ → IntegerClass → Bool → CType
  floating : ℕ → FloatingClass → CType

pub CType-discrete : Discrete CType
CType-discrete = hlevel ℕ_discrete

unfoldable pub same_class : IntegerClass → IntegerClass → Bool
same_class char_type char_type = true
same_class int_type int_type = true
same_class bool_type bool_type = true
same_class short_type short_type = true
same_class long_type long_type = true
same_class long_long_type long_long_type = true
same_class int128 int128 = true
same_class _ _ = false

unfoldable pub same_sign : Bool → Bool → Bool
same_sign true u = u
same_sign false u = not u

-- `==` on `Type*`: the same object, address included. The clause for two integer objects is the
-- general one, spelled out so that it is quick to evaluate.
unfoldable pub same_type : CType → CType → Bool
unfolding same_class same_sign
same_type (integer a c u) (integer a' c' u') = a == a' && (same_class c c' && same_sign u u')
same_type a b = decide (CType-discrete a b)

unfoldable pub pointer_fields : CType → PointerFields
pointer_fields (pointer _ _ f) = record f { levels = f.levels + 1 }
pointer_fields (array _ _ _ f) = record {
  levels = 1;
  is_array_pointer = true;
  is_struct_pointer = f.is_struct_array;
  struct_name = f.struct_name;
}
pointer_fields (struct_of _ name) = record {
  levels = 1;
  is_array_pointer = false;
  is_struct_pointer = true;
  struct_name = name;
}
pointer_fields _ = record {
  levels = 1;
  is_array_pointer = false;
  is_struct_pointer = false;
  struct_name = [];
}

-- PointerType::PointerType(Type*)
unfoldable pub make_pointer : ℕ → CType → CType
unfolding pointer_fields
make_pointer addr type = pointer addr type (pointer_fields type)

unfoldable pub array_fields : CType → Option Text → ArrayFields
array_fields (array _ _ _ f) dyn = record f { dyn_size = dyn }
array_fields (struct_of _ name) dyn = record {
  dyn_size = dyn;
  is_struct_array = true;
  struct_name = name;
  is_pointer_array = false;
  pointer = none;
}
array_fields (pointer _ _ f) dyn = record {
  dyn_size = dyn;
  is_struct_array = false;
  struct_name = [];
  is_pointer_array = true;
  pointer = some f;
}
array_fields _ dyn = record {
  dyn_size = dyn;
  is_struct_array = false;
  struct_name = [];
  is_pointer_array = false;
  pointer = none;
}

-- ArrayType::ArrayType(Type*, unsigned)
unfoldable pub make_array : ℕ → CType → ℕ → CType
unfolding array_fields
make_array addr type size = array addr type (size % 2 ^ 32) (array_fields type none)

-- ArrayType::ArrayType(Type*, Expr*), the VLA; the size expression is given as ExprWriter prints it.
unfoldable pub make_vla : ℕ → CType → Text → CType
unfolding array_fields
make_vla addr type size = array addr type 0 (array_fields type (some size))

-- The names that the constructors hand to IntegerType and FloatingPointType.
abbrev pub integer_name : IntegerClass → Text
integer_name char_type = codes "char"
integer_name int_type = codes "int"
integer_name bool_type = codes "int"
integer_name short_type = codes "short"
integer_name long_type = codes "long"
integer_name long_long_type = codes "long long"
integer_name int128 = codes "__int128"

abbrev pub floating_name : FloatingClass → Text
floating_name float_type = codes "float"
floating_name double_type = codes "double"
floating_name long_double_type = codes "long double"

-- The kinds that the constructors hand to Type.
unfoldable pub integer_kind : IntegerClass → TypeKind
integer_kind char_type = tk_char_type
integer_kind int_type = tk_int_type
integer_kind bool_type = tk_bool_type
integer_kind short_type = tk_short_type
integer_kind long_type = tk_long_type
integer_kind long_long_type = tk_long_type
integer_kind int128 = tk_int128

unfoldable pub floating_kind : FloatingClass → TypeKind
floating_kind float_type = tk_float_type
floating_kind double_type = tk_double_type
floating_kind long_double_type = tk_long_double_type

unfoldable pub get_kind : CType → TypeKind
unfolding integer_kind floating_kind
get_kind (function_pointer _ _ _ _) = tk_function_pointer_type
get_kind (struct_of _ _) = tk_struct_type
get_kind (union_of _ _) = tk_union_type
get_kind (pointer _ _ _) = tk_pointer_type
get_kind (array _ _ _ _) = tk_array_type
get_kind (void _) = tk_void_type
get_kind (integer _ c _) = integer_kind c
get_kind (floating _ c) = floating_kind c

integer_eq_iff :
    (a : ℕ) (c : IntegerClass) (u : Bool) (a' : ℕ) (c' : IntegerClass) (u' : Bool)
    → (a == a' && (same_class c c' && same_sign u u') ≡ true) ↔ (integer a c u ≡ integer a' c' u')
unfolding same_class same_sign
integer_eq_iff a c u a' c' u' = (λ h. ground arith, λ h. ground arith)

pub same_type_iff : (a b : CType) → (same_type a b ≡ true) ↔ (a ≡ b)
unfolding same_type
same_type_iff (integer a c u) (integer a' c' u') = integer_eq_iff a c u a' c' u'
same_type_iff (integer a c u) b = decide_iff (CType-discrete (integer a c u) b)
same_type_iff a b = decide_iff (CType-discrete a b)
