-- ===== src/Includes/Tests.antt =====
-- A module that calls intrinsics and functions of two headers.
use llvm2c.Prelude.{true, false, ◌≡◌, refl, List, [], ◌∷◌, Text, codes}
use llvm2c.CFunctions.{trim_prefix}
use llvm2c.Includes.{
  Needs, determine_includes, name_function, included_headers, is_declaration_printed,
}

abbrev nothing : Needs
nothing = record {
  has_var_arg = false;
  has_std_lib = false;
  has_string = false;
  has_stdio = false;
  has_pthread = false;
  has_c_math = false;
}

abbrev funcs : List Text
funcs = codes "llvm.memcpy.p0i8.i64" ∷ codes "puts" ∷ codes "llvm.dbg.declare" ∷ codes "main" ∷ []

abbrev intrinsics : List Text
intrinsics = codes "llvm.uadd.with.overflow.i32" ∷ []

included_headers_test :
    included_headers (determine_includes funcs nothing) ≡ codes "string.h" ∷ codes "stdio.h" ∷ []
unfolding included_headers determine_includes
included_headers_test = refl

name_function_test : name_function (codes "llvm.dbg.declare") ≡ codes "llvm_dbg_declare"
unfolding name_function
name_function_test = refl

trim_prefix_test : trim_prefix (codes "llvm.memcpy.p0i8.i64") ≡ codes "memcpy"
unfolding trim_prefix
trim_prefix_test = refl

-- No declaration is printed for an intrinsic that gets a definition.
is_declaration_printed_test :
    is_declaration_printed intrinsics true (codes "llvm_uadd_with_overflow_i32") 2 ≡ false
unfolding is_declaration_printed
is_declaration_printed_test = refl
