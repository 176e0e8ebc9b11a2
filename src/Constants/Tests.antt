-- ===== src/Constants/Tests.antt =====
-- Constants of the kinds that the theorems tell apart.
use llvm2c.Prelude.{
  true, false, ◌≡◌, refl, Option, none, [], Text, codes, to_decimal, arith, if◌then◌else◌,
}
use llvm2c.Types.{same_type, floating, double_type}
use llvm2c.TypeHandler.{TypeHandler, uint, sint, set_signed}
use llvm2c.Exprs.{Expr, make_value}
use llvm2c.Constants.{
  other_type, integer_type, array_type, Constant, undef_value, constant_int, constant_aggregate,
  element, no_element, create_int, create_constant_value,
}
use llvm2c.Constants.Integers.{read_number, is_negative, signed_value, create_int-read}
use llvm2c.Constants.Errors.{
  is_some, every, is_translatable, reached, create_constant_value-succeeds,
}

-- `i32 -2`
create_int-read_example :
    (text : Text) × (create_int 32 4294967294 uint
      ≡ make_value text
          (if is_negative (signed_value 32 4294967294) then set_signed uint else uint))
    × (read_number text ≡ signed_value 32 4294967294)
create_int-read_example = create_int-read 32 4294967294 uint (omega arith)

create_int_test : create_int 32 4294967294 uint ≡ make_value (codes "-2") sint
unfolding create_int make_value set_signed to_decimal same_type
create_int_test = refl

create_int-i1_test : create_int 1 1 uint ≡ make_value (codes "1") uint
unfolding create_int to_decimal
create_int-i1_test = refl

handler : TypeHandler
handler = record { pointer_types = []; type_def_count = 0; next_addr = 30 }

abbrev no_expr : Constant → Option Expr
no_expr c = none

-- `{ i32 -2, double undef }`
abbrev undefined_double : Constant
undefined_double = constant_aggregate uint (
    element (constant_int 32 4294967294 uint)
      (element (undef_value (other_type (floating 13 double_type))) no_element))

create_constant_value-succeeds_example :
    is_some (create_constant_value no_expr undefined_double handler)
    ≡ every is_translatable (reached no_expr undefined_double)
create_constant_value-succeeds_example =
    create_constant_value-succeeds no_expr undefined_double handler

undefined_double_test : every is_translatable (reached no_expr undefined_double) ≡ false
undefined_double_test = refl

-- `[2 x i32] undef`
undefined_array_test :
    is_some
      (create_constant_value no_expr (undef_value (array_type uint 2 (integer_type uint))) handler)
    ≡ true
unfolding create_constant_value
undefined_array_test = refl
