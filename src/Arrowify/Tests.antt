-- ===== src/Arrowify/Tests.antt =====
-- The pass on a small module.
use llvm2c.Prelude.{ℕ, ◌≡◌, refl, some, none, [], ◌∷◌, ◌++◌, List, Text, codes, to_decimal}
use llvm2c.Types.{union_of, struct_of, make_pointer}
use llvm2c.TypeHandler.{sint}
use llvm2c.Exprs.{
  TypeRef, ref_expr, Expr, value, unary, deref_expr, aggregate_element, arrow_expr, ret_expr, just,
}
use llvm2c.Visitor.{Code}
use llvm2c.Visitor.Meaning.{
  Shape, of_value, of_unary, of_arrow, of_aggregate_element, Meaning, code_meaning,
}
use llvm2c.Arrowify.{Items, arrowify}
use llvm2c.Arrowify.Typing.{pointer_to_ref, IsTypeRule, CodeTyped-arrowify-ref_deref}
use llvm2c.RefDeref.{ref_deref}
use llvm2c.Visitor.Typing.{c_type, c_type_ref, type_of, IsTyped, CodeTyped}
use llvm2c.Arrowify.Proofs.{IsArrow, code_meaning-arrowify}

-- A toy meaning: the path of accesses, written down.
abbrev path_shape : Shape → List Text → Text
path_shape (of_unary deref_expr t) (v ∷ []) = codes "*" ++ v
path_shape (of_aggregate_element n t) (v ∷ []) = v ++ (codes "." ++ to_decimal n)
path_shape (of_arrow n t) (v ∷ []) = (codes "*" ++ v) ++ (codes "." ++ to_decimal n)
path_shape (of_value name t) [] = name
path_shape _ vs = []

abbrev access_path : Meaning Text
access_path = record {
  of_shape = path_shape;
  of_call = λ name t f args. name;
  of_ret = λ t v. elim v [ none ↦ [] | some path ↦ path ];
  of_switch = λ c d cases. c;
  of_asm = λ inst clobbers output input. inst;
}

access_path-IsArrow : IsArrow access_path
access_path-IsArrow v n t t' t'' = refl

abbrev items : Items
items struct n = some sint

-- `return (*p).1;`
abbrev returned : Expr
returned =
    ret_expr
      (just (
        aggregate_element
          (unary deref_expr
            (value (codes "p") (some (make_pointer 21 (struct_of 20 (codes "s_point")))))
            (some (struct_of 20 (codes "s_point"))))
          1 (some sint)))
      none

abbrev module_code : Code
module_code = ((returned ∷ []) ∷ []) ∷ []

abbrev arrow_code : Code
arrow_code =
    ((ret_expr
          (just (
            arrow_expr (value (codes "p") (some (make_pointer 21 (struct_of 20 (codes "s_point")))))
              1 (some sint)))
          none
        ∷ [])
      ∷ [])
    ∷ []

arrowify_run : arrowify items module_code ≡ some arrow_code
unfolding arrowify make_pointer
arrowify_run = refl

code_meaning-arrowify_example :
    code_meaning access_path arrow_code ≡ code_meaning access_path module_code
code_meaning-arrowify_example =
    code_meaning-arrowify access_path items module_code arrow_code access_path-IsArrow arrowify_run

-- `(*q).1` with a pointer to a union fails an assertion.
union_run :
    arrowify items (
      ((ret_expr
            (just (
              aggregate_element
                (unary deref_expr
                  (value (codes "q") (some (make_pointer 23 (union_of 24 (codes "u_x")))))
                  (some (union_of 24 (codes "u_x"))))
                1
                (some sint)))
            none
          ∷ [])
        ∷ [])
      ∷ [])
    ≡ none
unfolding arrowify make_pointer
union_run = refl

-- A rule on types as in C, for `&`, `*`, `.` and `->`.
abbrev CRule : Shape → List TypeRef → Type 0
CRule (of_unary ref_expr t) (v ∷ []) = c_type_ref t ≡ pointer_to_ref v
CRule (of_unary deref_expr t) (v ∷ []) = v ≡ pointer_to_ref (c_type_ref t)
CRule (of_aggregate_element n t) (v ∷ []) =
    (addr : ℕ) × (name : Text) × (v ≡ some (struct_of addr name))
    × (c_type_ref t ≡ c_type_ref (items (struct_of addr name) n))
CRule (of_arrow n (some t)) (v ∷ []) =
    (addr : ℕ) × (name : Text) × (v ≡ some (make_pointer 0 (struct_of addr name)))
    × (c_type_ref (some t) ≡ c_type_ref (items (struct_of addr name) n))
CRule (of_arrow n t) vs = ⊥
CRule _ vs = Unit

no_arrow : (n : ℕ) (vs : List TypeRef) → CRule (of_arrow n none) vs → ⊥
no_arrow n [] h = h
no_arrow n (v ∷ []) h = h
no_arrow n (v ∷ w ∷ vs) h = h

no_item : (n : ℕ) (v : TypeRef) → CRule (of_aggregate_element n none) (v ∷ []) → ⊥
no_item n v (addr, name, e, h) = cc

CRule-IsTypeRule : IsTypeRule items CRule
CRule-IsTypeRule = record {
  ref_type = λ t v h. h;
  deref_type = λ t v h. h;
  item_type = λ n t v h. h;
  item_exists = no_item;
  arrow_exists = no_arrow;
  arrow_rule = λ n t addr name h. (addr, name, refl, h);
}

-- `return (*&*p).1;`, with another pointer type at `&`.
abbrev detour : Expr
detour =
    ret_expr
      (just (
        aggregate_element
          (unary deref_expr
            (unary ref_expr
              (unary deref_expr
                (value (codes "p") (some (make_pointer 21 (struct_of 20 (codes "s_point")))))
                (some (struct_of 20 (codes "s_point"))))
              (some (make_pointer 22 (struct_of 20 (codes "s_point")))))
            (some (struct_of 20 (codes "s_point"))))
          1 (some sint)))
      none

abbrev detour_code : Code
detour_code = ((detour ∷ []) ∷ []) ∷ []

detour-IsTyped : CodeTyped CRule detour_code
unfolding IsTyped type_of c_type make_pointer
detour-IsTyped = (((((20, codes "s_point", refl, refl), (refl, (refl, (refl, tt)))), tt), tt), tt)

CodeTyped-arrowify-ref_deref_example :
    (made : Code) × (arrowify items (ref_deref detour_code) ≡ some made)
    × CodeTyped CRule (ref_deref detour_code)
    × CodeTyped CRule made
CodeTyped-arrowify-ref_deref_example =
    CodeTyped-arrowify-ref_deref items CRule CRule-IsTypeRule detour_code detour-IsTyped

detour_run : arrowify items (ref_deref detour_code) ≡ arrowify items module_code
unfolding arrowify ref_deref
detour_run = refl
