-- ===== src/Types/Kinds.antt =====
-- The `classof` functions of type/Type.cpp, which decide every `dyn_cast` and `isa` on types.
use llvm2c.Prelude.{Bool, true, false, ◌≡◌, refl, Option, none, some}
use llvm2c.Types.{
  tk_function_pointer_type, tk_struct_type, tk_union_type, tk_pointer_type, tk_array_type,
  tk_void_type, tk_integer_type, tk_char_type, tk_int_type, tk_bool_type, tk_short_type,
  tk_long_type, tk_long_long_type, tk_int128, tk_floating_point_type, tk_float_type, tk_double_type,
  tk_long_double_type, CType, function_pointer, struct_of, union_of, pointer, array, void, integer,
  floating, char_type, int_type, bool_type, short_type, long_type, long_long_type, int128,
  float_type, double_type, long_double_type, get_kind,
}

unfoldable pub is_function_pointer_type : CType → Bool
unfolding get_kind
is_function_pointer_type t = elim (get_kind t) [ tk_function_pointer_type ↦ true | _ ↦ false ]

unfoldable pub is_aggregate_type : CType → Bool
unfolding get_kind
is_aggregate_type t = elim (get_kind t) [ tk_struct_type ↦ true | tk_union_type ↦ true | _ ↦ false ]

unfoldable pub is_struct_type : CType → Bool
unfolding get_kind
is_struct_type t = elim (get_kind t) [ tk_struct_type ↦ true | _ ↦ false ]

unfoldable pub is_union_type : CType → Bool
unfolding get_kind
is_union_type t = elim (get_kind t) [ tk_union_type ↦ true | _ ↦ false ]

unfoldable pub is_array_type : CType → Bool
unfolding get_kind
is_array_type t = elim (get_kind t) [ tk_array_type ↦ true | _ ↦ false ]

unfoldable pub is_void_type : CType → Bool
unfolding get_kind
is_void_type t = elim (get_kind t) [ tk_void_type ↦ true | _ ↦ false ]

unfoldable pub is_pointer_type : CType → Bool
unfolding get_kind
is_pointer_type t = elim (get_kind t) [ tk_pointer_type ↦ true | _ ↦ false ]

unfoldable pub is_integer_type : CType → Bool
unfolding get_kind
is_integer_type t = elim (get_kind t) [
  | tk_integer_type ↦ true
  | tk_short_type ↦ true
  | tk_int_type ↦ true
  | tk_bool_type ↦ true
  | tk_char_type ↦ true
  | tk_long_type ↦ true
  | tk_long_long_type ↦ true
  | tk_int128 ↦ true
  | _ ↦ false
]

unfoldable pub is_char_type : CType → Bool
unfolding get_kind
is_char_type t = elim (get_kind t) [ tk_char_type ↦ true | _ ↦ false ]

unfoldable pub is_int_type : CType → Bool
unfolding get_kind
is_int_type t = elim (get_kind t) [ tk_int_type ↦ true | tk_bool_type ↦ true | _ ↦ false ]

unfoldable pub is_bool_type : CType → Bool
unfolding get_kind
is_bool_type t = elim (get_kind t) [ tk_bool_type ↦ true | _ ↦ false ]

unfoldable pub is_short_type : CType → Bool
unfolding get_kind
is_short_type t = elim (get_kind t) [ tk_short_type ↦ true | _ ↦ false ]

unfoldable pub is_long_type : CType → Bool
unfolding get_kind
is_long_type t = elim (get_kind t) [ tk_long_type ↦ true | _ ↦ false ]

unfoldable pub is_long_long_type : CType → Bool
unfolding get_kind
is_long_long_type t = elim (get_kind t) [ tk_long_long_type ↦ true | _ ↦ false ]

unfoldable pub is_int128_type : CType → Bool
unfolding get_kind
is_int128_type t = elim (get_kind t) [ tk_int128 ↦ true | _ ↦ false ]

unfoldable pub is_floating_point_type : CType → Bool
unfolding get_kind
is_floating_point_type t = elim (get_kind t) [
  | tk_floating_point_type ↦ true
  | tk_float_type ↦ true
  | tk_double_type ↦ true
  | tk_long_double_type ↦ true
  | _ ↦ false
]

-- `dyn_cast_or_null<IntegerType>(t)` followed by `->unsignedType`; `none` is the null pointer.
unfoldable pub integer_signedness : CType → Option Bool
integer_signedness (integer _ _ u) = some u
integer_signedness _ = none

-- `dyn_cast_or_null<PointerType>(t)` followed by `->type`.
unfoldable pub pointed_type : CType → Option CType
pointed_type (pointer _ t _) = some t
pointed_type _ = none

-- `IntegerType::classof` accepts every object of a subclass of IntegerType, of either signedness,
-- and rejects every other object; so a successful `dyn_cast<IntegerType>` always finds the
-- `unsignedType` field that the passes read.
pub is_integer_type-signedness :
    (t : CType)
    → (is_integer_type t ≡ true → (u : Bool) × (integer_signedness t ≡ some u))
      × (is_integer_type t ≡ false → integer_signedness t ≡ none)
unfolding is_integer_type integer_signedness
is_integer_type-signedness (integer addr char_type u) = (λ _. (u, refl), λ h. cc)
is_integer_type-signedness (integer addr int_type u) = (λ _. (u, refl), λ h. cc)
is_integer_type-signedness (integer addr bool_type u) = (λ _. (u, refl), λ h. cc)
is_integer_type-signedness (integer addr short_type u) = (λ _. (u, refl), λ h. cc)
is_integer_type-signedness (integer addr long_type u) = (λ _. (u, refl), λ h. cc)
is_integer_type-signedness (integer addr long_long_type u) = (λ _. (u, refl), λ h. cc)
is_integer_type-signedness (integer addr int128 u) = (λ _. (u, refl), λ h. cc)
is_integer_type-signedness (floating _ float_type) = (λ h. cc, λ _. refl)
is_integer_type-signedness (floating _ double_type) = (λ h. cc, λ _. refl)
is_integer_type-signedness (floating _ long_double_type) = (λ h. cc, λ _. refl)
is_integer_type-signedness (function_pointer _ _ _ _) = (λ h. cc, λ _. refl)
is_integer_type-signedness (struct_of _ _) = (λ h. cc, λ _. refl)
is_integer_type-signedness (union_of _ _) = (λ h. cc, λ _. refl)
is_integer_type-signedness (pointer _ _ _) = (λ h. cc, λ _. refl)
is_integer_type-signedness (array _ _ _ _) = (λ h. cc, λ _. refl)
is_integer_type-signedness (void _) = (λ h. cc, λ _. refl)

-- `LongLongType::classof` accepts no object at all, not even one that the LongLongType constructor
-- makes: those are taken for a LongType.
pub is_long_long_type_never :
    (t : CType)
    → (is_long_long_type t ≡ false)
      × ((addr : _) (u : Bool) → t ≡ integer addr long_long_type u → is_long_type t ≡ true)
unfolding is_long_long_type is_long_type
is_long_long_type_never t = (never t, λ addr u e. rw e)
  where
    never : (t : CType) → is_long_long_type t ≡ false
    never (integer addr char_type u) = refl
    never (integer addr _ u) = refl
    never (floating _ float_type) = refl
    never (floating _ _) = refl
    never (void _) = refl
    never _ = refl
