-- ===== src/Memcpy/Tests.antt =====
-- The pass on a small block, and the theorems at its calls.
use llvm2c.Prelude.{
  ℕ, ◌≡◌, refl, Bool, true, false, not, none, some, List, [], ◌∷◌, codes, text_eq, get_elem?, arith,
  ◌==◌, if◌then◌else◌,
}
use llvm2c.Types.{CType, struct_of, pointer, PointerFields}
use llvm2c.Types.Kinds.{is_pointer_type}
use llvm2c.Exprs.{
  Expr, TypeRef, value, unary, ref_expr, deref_expr, cast_expr, binary, assign_expr, ret_expr, null,
  get_type,
}
use llvm2c.Visitor.Meaning.{Shape, of_value, of_unary, of_binary, Meaning, meaning}
use llvm2c.Memcpy.{
  LlvmType, pointer_to, other_type, LlvmValue, bit_cast_inst, constant_int, other_value, CallInst,
  Statement, is_memcpy, type_of, stripped, unwrap_expr, get_inner_expr, is_pointer, make_assignment,
  memcpy_to_assignment,
}
use llvm2c.Memcpy.Meaning.{object_at, meaning-make_assignment}
use llvm2c.Memcpy.Calls.{CopiesObject, outcome, memcpy_to_assignment-exact}

abbrev plain_pointer : PointerFields
plain_pointer = record {
  levels = 1;
  is_array_pointer = false;
  is_struct_pointer = true;
  struct_name = codes "s";
}

abbrev object : CType
object = struct_of 1 (codes "s")

abbrev to_object : CType
to_object = pointer 2 object plain_pointer

abbrev to_pointer : CType
to_pointer = pointer 3 to_object plain_pointer

abbrev s : Expr
s = value (codes "s") (some object)

abbrev p : Expr
p = value (codes "p") (some to_object)

-- `(T*)&s`
abbrev cast_reference : Expr
cast_reference = unary cast_expr (unary ref_expr s (some to_object)) (some to_object)

abbrev struct_pointer : LlvmType
struct_pointer = pointer_to (other_type 1)

abbrev call : CallInst
call = record {
  called = some (codes "llvm.memcpy.p0i8");
  dst = bit_cast_inst (other_value 1 struct_pointer) (pointer_to (other_type 0));
  src = bit_cast_inst (other_value 2 struct_pointer) (pointer_to (other_type 0));
  size = constant_int 24;
  address = 7;
  made = 20;
}

-- A call that copies a part of the object.
abbrev partial : CallInst
partial = record call { size = constant_int 8; address = 8; made = 21 }

abbrev alloc_size : LlvmType → ℕ
alloc_size t = 24

-- The bitcast of the value 1 is `(T*)&s`, and any other value is `p`.
abbrev get_expr : LlvmValue → Expr
get_expr (bit_cast_inst (other_value n _) _) = if n == 1 then cast_reference else p
get_expr _ = p

abbrev before : List Statement
before = (8, p) ∷ (7, s) ∷ (9, ret_expr null none) ∷ []

memcpy_run :
    memcpy_to_assignment alloc_size get_expr (partial ∷ call ∷ []) before
    ≡ (8, p)
      ∷ (20, binary assign_expr s (unary deref_expr p (some object)) (some object))
      ∷ (9, ret_expr null none)
      ∷ []
unfolding memcpy_to_assignment
memcpy_run = refl

call-CopiesObject : CopiesObject alloc_size get_expr call
unfolding is_memcpy type_of stripped
call-CopiesObject = (codes "llvm.memcpy.p0i8", other_type 1, refl, refl, refl, refl, refl)

memcpy_to_assignment-exact_example :
    get_elem? (memcpy_to_assignment alloc_size get_expr (partial ∷ call ∷ []) before) 1
    ≡ some (outcome alloc_size get_expr true call s)
memcpy_to_assignment-exact_example =
    memcpy_to_assignment-exact alloc_size get_expr true (partial ∷ []) call [] before 1 s
      (λ h. call-CopiesObject, λ h. refl) (omega arith) tt refl

-- A toy meaning: the parity of the number of `&` and `*` over a variable.
abbrev parity_shape : Shape → List Bool → Bool
parity_shape (of_unary ref_expr t) (v ∷ []) = not v
parity_shape (of_unary deref_expr t) (v ∷ []) = not v
parity_shape (of_value name t) [] = text_eq name (codes "p")
parity_shape _ (v ∷ vs) = v
parity_shape _ [] = false

abbrev parity : Meaning Bool
parity = record {
  of_shape = parity_shape;
  of_call = λ name t f args. false;
  of_ret = λ t v. elim v [ none ↦ false | some b ↦ b ];
  of_switch = λ c d cases. c;
  of_asm = λ inst clobbers output input. false;
}

parity-IsInverse : (v : Bool) (t t' : TypeRef) → (not (not v) ≡ v) × (not (not v) ≡ v)
parity-IsInverse true t t' = (refl, refl)
parity-IsInverse false t t' = (refl, refl)

meaning-make_assignment_example :
    meaning parity (make_assignment cast_reference p)
    ≡ parity.of_shape (of_binary assign_expr (get_type (make_assignment cast_reference p))) (
        object_at parity (get_type (unwrap_expr cast_reference)) (meaning parity cast_reference)
        ∷ object_at parity (get_type (unwrap_expr p)) (meaning parity p)
        ∷ [])
unfolding unwrap_expr is_pointer is_pointer_type get_inner_expr get_type
meaning-make_assignment_example =
    meaning-make_assignment parity parity-IsInverse (λ v t h. refl) cast_reference p
      ((refl, tt), (refl, refl)) (tt, refl)
