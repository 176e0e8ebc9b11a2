-- ===== src/Types/Print.antt =====
-- The spelling of types and of declared names in type/Type.cpp: toString, sizeToString and
-- surroundName. A declaration is printed as the type's text, a space, and the surrounded name.
use llvm2c.Prelude.{
  ℕ, zero, suc, Bool, ◌&&◌, not, Option, none, some, [], ◌++◌, Text, codes, to_decimal, text_eq,
  if◌then◌else◌,
}
use llvm2c.Types.{
  CType, function_pointer, struct_of, union_of, pointer, array, void, integer, floating,
  IntegerClass, bool_type, integer_name, floating_name, PointerFields, ArrayFields,
}
use llvm2c.Types.Kinds.{is_function_pointer_type}

-- A loop of the form `for (i = 0; i < levels; i++) ret += "*"`.
unfoldable pub stars : ℕ → Text
stars zero = []
stars (suc n) = codes "*" ++ stars n

-- IntegerType::toString, and BoolType's override.
unfoldable pub integer_to_string : IntegerClass → Bool → Text
integer_to_string bool_type u = codes "_Bool"
integer_to_string c u = (if u then codes "unsigned " else []) ++ integer_name c

-- Type::toString; the prefix for `isConst` is empty, since no code sets that field.
unfoldable pub to_string : CType → Text
unfolding integer_to_string
to_string (function_pointer _ type name type_end) = name
to_string (struct_of _ name) = codes "struct " ++ name
to_string (union_of _ name) = codes "union " ++ name
to_string (pointer _ type f) =
    let text = to_string type in
    if f.is_array_pointer
    then text
    else (if is_function_pointer_type type then text else (text ++ codes "*"))
to_string (array _ type _ _) = to_string type
to_string (void _) = codes "void"
to_string (integer _ c u) = integer_to_string c u
to_string (floating _ c) = floating_name c

-- FunctionPointerType::defToString
unfoldable pub def_to_string : Text → Text → Text → Text
def_to_string type name [] = codes "typedef " ++ (type ++ (codes " " ++ (name ++ codes ";")))
def_to_string type name type_end = codes "typedef " ++ (type ++ (name ++ (type_end ++ codes ";")))

-- The text between the brackets of one dimension.
unfoldable pub dimension : ℕ → Option Text → Text
dimension (suc n) dyn = to_decimal (suc n)
dimension zero (some size) = size
dimension zero none = codes "0"

-- ArrayType::sizeToString, called on an ArrayType only; on another type it is the empty text, as
-- the test by `dyn_cast` in the recursion and in surroundName has it.
unfoldable pub size_to_string : CType → Text
unfolding dimension
size_to_string (array _ type size f) =
    codes "[" ++ (dimension size f.dyn_size ++ (codes "]" ++ size_to_string type))
size_to_string _ = []

-- ArrayType::surroundName
unfoldable pub surround_array : CType → ArrayFields → Text → Text
surround_array t f name = elim f.pointer [
  | some p ↦
      if f.is_pointer_array && p.is_array_pointer
      then codes "(" ++ (stars p.levels ++ (name ++ (size_to_string t ++ codes ")")))
      else name ++ size_to_string t
  | none ↦ name ++ size_to_string t
]

-- `if (!ret.empty()) return ret; return name;`
abbrev pub or_name : Text → Text → Text
or_name [] name = name
or_name ret name = ret

-- PointerType::surroundName
unfoldable pub surround_pointer : CType → PointerFields → Text → Text
surround_pointer type f name =
    or_name
      ((if f.is_array_pointer && not (text_eq name (codes "0"))
          then codes "(" ++ (stars f.levels ++ (name ++ codes ")"))
          else [])
        ++ (if f.is_array_pointer then size_to_string type else []))
      name

-- Type::surroundName
unfoldable pub surround_name : CType → Text → Text
surround_name (array addr type size f) name = surround_array (array addr type size f) f name
surround_name (pointer _ type f) name = surround_pointer type f name
surround_name _ name = name

-- CWriter::declareVar, and the item of a struct, as Writer calls them.
unfoldable pub declare : CType → Text → Text
unfolding to_string surround_name
declare t name = to_string t ++ (codes " " ++ (surround_name t name ++ codes ";"))
