-- ===== src/Types/Tests.antt =====
-- Types printed on small inputs.
use llvm2c.Prelude.{arith, ◌++◌, ◌≡◌, refl, false, [], ◌∷◌, codes, text_eq, to_decimal}
use llvm2c.Types.{CType, integer, int_type, make_pointer, make_array}
use llvm2c.Types.Print.{declare, to_string, size_to_string, surround_array, surround_pointer, stars}
use llvm2c.Types.Declarators.{declare-array_over, array_over, pointer_over, brackets}

abbrev sint : CType
sint = integer 5 int_type false

declare_matrix : declare (make_array 21 (make_array 20 sint 3) 2) (codes "m") ≡ codes "int m[2][3];"
unfolding declare make_array size_to_string surround_array to_decimal
declare_matrix = refl

declare_row_pointer :
    declare (make_pointer 21 (make_array 20 sint 3)) (codes "p") ≡ codes "int (*p)[3];"
unfolding declare make_array make_pointer size_to_string surround_pointer to_decimal text_eq stars
declare_row_pointer = refl

-- The dimensions are lost at level two: `int (**p)[3]` is meant.
declare_row_pointer_pointer :
    declare (pointer_over (make_array 20 sint 3) (22 ∷ 21 ∷ [])) (codes "p") ≡ codes "int (**p);"
unfolding declare make_array make_pointer size_to_string surround_pointer to_decimal text_eq stars
declare_row_pointer_pointer = refl

declare-array_over_example :
    declare (array_over sint ((21, 2) ∷ (20, 3) ∷ [])) (codes "m")
    ≡ to_string sint
      ++ (codes " " ++ ((codes "m" ++ brackets ((21, 2) ∷ (20, 3) ∷ [])) ++ codes ";"))
declare-array_over_example =
    declare-array_over sint 21 2 ((20, 3) ∷ []) (codes "m") tt (omega arith, (omega arith, tt))

-- An array of 2^32 bytes is declared as one of none.
declare_huge : declare (make_array 20 sint 4294967296) (codes "m") ≡ codes "int m[0];"
unfolding declare make_array size_to_string surround_array to_decimal
declare_huge = refl
