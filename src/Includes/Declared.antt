-- ===== src/Includes/Declared.antt =====
-- With headers in use, the writer's declarations and the included headers account for all functions.
use llvm2c.Prelude.{ℕ, Bool, true, false, ◌≡◌, ◌⊎◌, List, Text}
use llvm2c.CFunctions.{member}
use llvm2c.Includes.{
  Needs, is_va_name, is_function_printed, is_declaration_printed, replace_underscores,
  included_headers,
}
use llvm2c.Includes.Unprinted.{Header, stdlib, string, stdio, pthread, math, header_name, lists}

abbrev needed : Header → Needs → Bool
needed stdlib needs = needs.has_std_lib
needed string needs = needs.has_string
needed stdio needs = needs.has_stdio
needed pthread needs = needs.has_pthread
needed math needs = needs.has_c_math

-- The function is in the table of a header that is included.
abbrev pub IsIncluded : Needs → Text → Type 0
IsIncluded needs name =
    (h : Header) × (lists h name ≡ true) × (member (header_name h) (included_headers needs) ≡ true)

-- The function is declared, or defined as an intrinsic, or one of stdarg.h's, or in the table of a
-- header that is included.
abbrev pub IsAccounted : List Text → Needs → Text → Type 0
IsAccounted intrinsics needs name =
    (params : ℕ)
    → (is_declaration_printed intrinsics true name params ≡ true)
      ⊎ ((member (replace_underscores name) intrinsics ≡ true)
          ⊎ ((is_va_name name ≡ true) ⊎ IsIncluded needs name))

-- What is not printed is included.
LeavesIncluded : Needs → Text → Type 0
LeavesIncluded needs name =
    (params : ℕ)
    → is_function_printed true name params ≡ false
    → (is_va_name name ≡ true) ⊎ IsIncluded needs name
