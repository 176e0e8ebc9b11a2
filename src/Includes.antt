-- ===== src/Includes.antt =====
-- parser/determineIncludes.cpp, parser/nameFunctions.cpp and, of writer/Writer.cpp, isFunctionPrinted
-- and includes: which functions the writer declares, and which headers it includes for the others.
pub mod Unprinted
pub mod Declared
pub mod Tests
use llvm2c.Prelude.{
  ℕ, ltb, Bool, true, false, not, ◌&&◌, ◌||◌, if◌then◌else◌, List, [], ◌∷◌, ◌++◌, Text, codes, ◌==◌,
  text_eq,
}
use llvm2c.TypeHandler.{substr, replace_dots}
use llvm2c.CFunctions.{
  member, is_c_func, is_stdlib_func, is_string_func, is_stdio_func, is_pthread_func, is_c_math,
  trim_prefix,
}

-- The flags of a Program that say which headers it needs.
pub record Needs : Type 0 where
  pub has_var_arg : Bool
  pub has_std_lib : Bool
  pub has_string : Bool
  pub has_stdio : Bool
  pub has_pthread : Bool
  pub has_c_math : Bool

-- The name of a function without the prefix of an intrinsic that stands for a function of C.
unfoldable pub name_without_prefix : Text → Text
unfolding is_c_func trim_prefix
name_without_prefix name = if is_c_func (trim_prefix name) then trim_prefix name else name

-- The body of the loop of determineIncludes.
unfoldable pub determine_for : Text → Needs → Needs
unfolding is_stdlib_func is_string_func is_stdio_func is_pthread_func is_c_math name_without_prefix
determine_for func needs =
    let name = name_without_prefix func in
    record needs {
      has_std_lib = if is_stdlib_func name then true else needs.has_std_lib;
      has_string = if is_string_func name then true else needs.has_string;
      has_stdio = if is_stdio_func name then true else needs.has_stdio;
      has_pthread = if is_pthread_func name then true else needs.has_pthread;
      has_c_math = if is_c_math name then true else needs.has_c_math;
    }

-- determineIncludes, on the names of the module's functions.
unfoldable pub determine_includes : List Text → Needs → Needs
unfolding determine_for
determine_includes [] needs = needs
determine_includes (func ∷ funcs) needs = determine_includes funcs (determine_for func needs)

-- nameFunction
unfoldable pub name_function : Text → Text
unfolding name_without_prefix replace_dots text_eq
name_function func =
    let name = name_without_prefix func in
    if text_eq (substr 4 name) (codes "llvm") then replace_dots name else name

-- `name == "va_start" || name == "va_end" || name == "va_copy"`
unfoldable pub is_va_name : Text → Bool
unfolding text_eq
is_va_name name =
    text_eq name (codes "va_start")
    || (text_eq name (codes "va_end") || text_eq name (codes "va_copy"))

-- Writer::isFunctionPrinted, on the function's name and the number of its parameters.
unfoldable pub is_function_printed : Bool → Text → ℕ → Bool
unfolding is_c_func is_va_name is_c_math is_stdlib_func is_string_func is_stdio_func is_pthread_func
    text_eq
is_function_printed use_includes name params =
    if is_c_func name || (is_va_name name || is_c_math name)
    then false
    else (if use_includes
        then not (
            is_stdlib_func name
            || (is_string_func name || (is_stdio_func name || is_pthread_func name)))
        else not (
            (text_eq name (codes "memcpy")
              || (text_eq name (codes "memset") || text_eq name (codes "memmove")))
            && ltb 3 params))

-- `std::replace(originalName.begin(), originalName.end(), '_', '.')`
unfoldable pub replace_underscores : Text → Text
replace_underscores [] = []
replace_underscores (c ∷ s) = (if c == b'_' then b'.' else c) ∷ replace_underscores s

-- Whether functionDeclarations prints the declaration of a function, for the intrinsics that need
-- definitions.
unfoldable pub is_declaration_printed : List Text → Bool → Text → ℕ → Bool
unfolding is_function_printed replace_underscores
is_declaration_printed intrinsics use_includes name params =
    is_function_printed use_includes name params
    && not (member (replace_underscores name) intrinsics)

-- CWriter::include
abbrev pub include_if : Bool → Text → List Text → List Text
include_if needed header rest = if needed then header ∷ rest else rest

-- The headers that Writer::includes writes an #include for, if it uses them.
unfoldable pub included_headers : Needs → List Text
included_headers needs = include_if needs.has_var_arg (codes "stdarg.h") (
    include_if needs.has_std_lib (codes "stdlib.h") (
      include_if needs.has_string (codes "string.h") (
        include_if needs.has_stdio (codes "stdio.h") (
          include_if needs.has_pthread (codes "pthread.h")
            (include_if needs.has_c_math (codes "math.h") [])))))
