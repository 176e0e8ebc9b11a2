-- ===== src/Gep/Tests.antt =====
-- An access to an array in a struct, a missing constant, and an index that loses a cast.
use llvm2c.Prelude.{
  ℕ, zero, suc, ◌+◌, ◌*◌, ◌≡◌, refl, true, false, if◌then◌else◌, none, some, List, [], ◌∷◌, codes,
  text_eq, text_eq_iff, arith,
}
use llvm2c.Types.{CType, struct_of, array, pointer, PointerFields, ArrayFields, long_type, int_type}
use llvm2c.Types.Kinds.{is_aggregate_type}
use llvm2c.TypeHandler.{TypeHandler, sint, slong, uchar}
use llvm2c.Exprs.{
  Expr, TypeRef, value, global_value, unary, cast_expr, minus_expr, get_type, is_zero, pointed_by,
}
use llvm2c.Arrowify.{Items}
use llvm2c.CInt.{ℤ, pos, negsuc, convert}
use llvm2c.RedundantCasts.Values.{Leaves, eval}
use llvm2c.Instructions.{remove_casts}
use llvm2c.Gep.{Step, through_pointer, into_array, into_struct, parse_gep}
use llvm2c.Gep.Index.{negate}
use llvm2c.Gep.Address.{Addresses, pointer_value, gep_address, pointer_value-parse_gep}

abbrev fields : PointerFields
fields = record {
  levels = 1;
  is_array_pointer = false;
  is_struct_pointer = true;
  struct_name = codes "s";
}

abbrev array_fields : ArrayFields
array_fields = record {
  dyn_size = none;
  is_struct_array = false;
  struct_name = [];
  is_pointer_array = false;
  pointer = none;
}

-- `struct s { long n; int a[4]; }`
abbrev object : CType
object = struct_of 20 (codes "s")

abbrev items : Items
items t zero = some slong
items t (suc n) = some (array 21 sint 4 array_fields)

abbrev p : Expr
p = value (codes "p") (some (pointer 22 object fields))

abbrev one : Expr
one = value (codes "1") (some slong)

abbrev i : Expr
i = value (codes "i") (some sint)

-- `i` is 3, `x` is 258, and so are the values that the negation of `(long)x` has.
abbrev leaf_value : Expr → ℤ
leaf_value (value name t) =
    if text_eq name (codes "1")
    then pos 1
    else (if text_eq name (codes "i")
        then pos 3
        else (if text_eq name (codes "x") then pos 258 else pos 0))
leaf_value (unary minus_expr e t) = negsuc 257
leaf_value e = pos 0

abbrev steps : List Step
steps = into_struct (some 1) ∷ into_array sint i ∷ []

abbrev leaves : Leaves
leaves = record { leaf = leaf_value; compare_other = λ op a b. false }

zeros : (e : Expr) → is_zero e ≡ true → eval leaves e ≡ pos 0
unfolding is_zero eval text_eq
zeros (value name t) h = rw ((text_eq_iff name (codes "0")).0 h) refl
zeros (global_value name t) h = refl
zeros e h = cc

-- Addresses are numbers: `p` points to 1000, a `struct s` has 24 bytes and an `int` has 4.
abbrev size : TypeRef → ℕ
size (some (struct_of _ _)) = 24
size t = 4

abbrev moved : ℕ → ℕ → ℤ → ℕ
moved w a (pos n) = a + w * n
moved w a (negsuc n) = a

abbrev addresses : Addresses ℕ
addresses = record {
  value_of = λ e. 1000;
  shift = λ t a n. moved (size t) a n;
  item = λ t a n. a + 8 * n;
}

handler : TypeHandler
handler = record { pointer_types = []; type_def_count = 0; next_addr = 30 }

-- `&(p + 1)->a[i]` is at 1000 + 24 + 8 + 12.
gep_address_test :
    gep_address addresses leaves items none 1000
      (through_pointer (pointer 22 object fields) one ∷ steps)
    ≡ 1044
unfolding gep_address eval convert text_eq pointed_by
gep_address_test = refl

pointer_value-parse_gep_example :
    (e : Expr) × (h' : TypeHandler) × (parse_gep items
        (pointer 22 object fields)
        p
        (through_pointer (pointer 22 object fields) one ∷ steps)
        handler
      ≡ some (e, h'))
    × (pointer_value addresses leaves e
        ≡ gep_address addresses leaves items none
            (pointer_value addresses leaves p)
            (through_pointer (pointer 22 object fields) one ∷ steps))
unfolding get_type eval convert text_eq is_aggregate_type
pointer_value-parse_gep_example =
    pointer_value-parse_gep addresses leaves zeros (λ t a. omega arith) items 22 object fields p one
      steps handler (λ z. refl)
      ((8, long_type, false, refl, (omega arith, omega arith), refl, refl), tt)
      (refl, ((5, int_type, false, refl, (omega arith, omega arith), refl, refl), tt))

-- `0 - (unsigned char)x` is -2, and the index that is made of it -258.
lost_cast_test :
    (negate (eval leaves (unary cast_expr (value (codes "x") (some slong)) (some uchar)))
      ≡ negsuc 1)
    × (negate (
          convert long_type false (
            eval leaves
              (remove_casts (unary cast_expr (value (codes "x") (some slong)) (some uchar)))))
        ≡ negsuc 257)
unfolding eval convert remove_casts text_eq
lost_cast_test = (refl, refl)

-- An index into a struct that is no constant is an error.
parse_gep-variable_test :
    parse_gep items
      (pointer 22 object fields)
      p
      (through_pointer (pointer 22 object fields) one ∷ into_struct none ∷ [])
      handler
    ≡ none
unfolding parse_gep get_type is_zero text_eq
parse_gep-variable_test = refl
