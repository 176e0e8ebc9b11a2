-- ===== src/ExprWriter/TypeText.antt =====
-- The brackets in the spelling of types and of declared names match if they do in the names that the
-- types mention.
use llvm2c.Prelude.{
  ℕ, zero, suc, refl, Bool, true, false, ◌&&◌, Option, none, some, [], ◌∷◌, ◌++◌, append_assoc,
  Text, codes, All, arith, to_decimal, IsDigit, to_decimal-IsDigit, Bool-cases, inl, inr,
  Option-cases, if◌then◌else◌,
}
use llvm2c.Types.{
  CType, function_pointer, struct_of, union_of, pointer, array, void, integer, floating,
  PointerFields, ArrayFields, IntegerClass, char_type, int_type, bool_type, short_type, long_type,
  long_long_type, int128, float_type, double_type, long_double_type,
}
use llvm2c.Types.Kinds.{is_function_pointer_type}
use llvm2c.Types.Print.{
  stars, integer_to_string, to_string, dimension, size_to_string, surround_array, surround_pointer,
  surround_name, or_name,
}
use llvm2c.ExprWriter.Brackets.{scan, scan-append, append-Balanced, Balanced}

abbrev pub BalancedSize : Option Text → Type 0
BalancedSize none = Unit
BalancedSize (some size) = Balanced size

-- The brackets match in every name that the type mentions.
abbrev pub BalancedNames : CType → Type 0
BalancedNames (function_pointer _ _ name _) = Balanced name
BalancedNames (struct_of _ name) = Balanced name
BalancedNames (union_of _ name) = Balanced name
BalancedNames (pointer _ t _) = BalancedNames t
BalancedNames (array _ t _ f) = BalancedSize f.dyn_size × BalancedNames t
BalancedNames _ = Unit

pub digits-Balanced : (ds : Text) → All IsDigit ds → Balanced ds
unfolding scan
digits-Balanced [] h due = refl
digits-Balanced (d ∷ ds) ((lo, hi), h) due = ground (arith, digits-Balanced ds h due)

pub to_decimal-Balanced : (n : ℕ) → Balanced (to_decimal n)
to_decimal-Balanced n = digits-Balanced (to_decimal n) (to_decimal-IsDigit n)

pub stars-Balanced : (n : ℕ) → Balanced (stars n)
unfolding stars scan
stars-Balanced zero due = refl
stars-Balanced (suc n) due = stars-Balanced n due

integer-Balanced : (c : IntegerClass) (u : Bool) → Balanced (integer_to_string c u)
unfolding integer_to_string scan
integer-Balanced char_type true due = refl
integer-Balanced char_type false due = refl
integer-Balanced int_type true due = refl
integer-Balanced int_type false due = refl
integer-Balanced bool_type u due = refl
integer-Balanced short_type true due = refl
integer-Balanced short_type false due = refl
integer-Balanced long_type true due = refl
integer-Balanced long_type false due = refl
integer-Balanced long_long_type true due = refl
integer-Balanced long_long_type false due = refl
integer-Balanced int128 true due = refl
integer-Balanced int128 false due = refl

pointer-Balanced :
    (t : CType) (f : PointerFields) (text : Text)
    → Balanced text
    → Balanced (
        if f.is_array_pointer
        then text
        else (if is_function_pointer_type t then text else (text ++ codes "*")))
unfolding scan
pointer-Balanced t f text h due = elim (Bool-cases f.is_array_pointer) [
  | inl e ↦ rw e (h due)
  | inr e ↦ elim (Bool-cases (is_function_pointer_type t)) [
    | inl g ↦ rw (e, g) (h due)
    | inr g ↦ rw (e, g, scan-append, h due) refl
  ]
]

pub to_string-Balanced : (t : CType) → BalancedNames t → Balanced (to_string t)
unfolding to_string scan
to_string-Balanced (function_pointer _ _ name _) h due = h due
to_string-Balanced (struct_of _ name) h due = h due
to_string-Balanced (union_of _ name) h due = h due
to_string-Balanced (pointer _ t f) h due =
    pointer-Balanced t f (to_string t) (to_string-Balanced t h) due
to_string-Balanced (array _ t _ _) h due = to_string-Balanced t h.1 due
to_string-Balanced (void _) h due = refl
to_string-Balanced (integer _ c u) h due = integer-Balanced c u due
to_string-Balanced (floating _ float_type) h due = refl
to_string-Balanced (floating _ double_type) h due = refl
to_string-Balanced (floating _ long_double_type) h due = refl

dimension-Balanced : (n : ℕ) (dyn : Option Text) → BalancedSize dyn → Balanced (dimension n dyn)
unfolding dimension scan
dimension-Balanced (suc n) dyn h due = to_decimal-Balanced (suc n) due
dimension-Balanced zero none h due = refl
dimension-Balanced zero (some size) h due = h due

pub size_to_string-Balanced : (t : CType) → BalancedNames t → Balanced (size_to_string t)
unfolding size_to_string scan
size_to_string-Balanced (array _ t n f) h due =
    simp (scan-append, dimension-Balanced n f.dyn_size h.0, size_to_string-Balanced t h.1)
size_to_string-Balanced _ h due = refl

-- A name with stars, and perhaps dimensions, between parentheses.
starred-Balanced :
    (n : ℕ) (text : Text) → Balanced text → Balanced (codes "(" ++ (stars n ++ (text ++ codes ")")))
unfolding scan
starred-Balanced n text h due = simp (scan-append, stars-Balanced n, h)

empty-Balanced : Balanced []
unfolding scan
empty-Balanced due = refl

if-Balanced : (b : Bool) (s t : Text) → Balanced s → Balanced t → Balanced (if b then s else t)
if-Balanced true s t hs ht = hs
if-Balanced false s t hs ht = ht

surround_array-Balanced :
    (t : CType) (f : ArrayFields) (name : Text)
    → Balanced (size_to_string t)
    → Balanced name
    → Balanced (surround_array t f name)
unfolding surround_array
surround_array-Balanced t f name h hn = elim (Option-cases f.pointer) [
  | inl e ↦ rw e (append-Balanced name (size_to_string t) hn h)
  | inr (p, e) ↦ elim (Bool-cases (f.is_pointer_array && p.is_array_pointer)) [
    | inl b ↦
        rw (e, b)
          (rw (append_assoc name (size_to_string t) (codes ")")) at (
            starred-Balanced p.levels (name ++ size_to_string t)
              (append-Balanced name (size_to_string t) hn h)))
    | inr b ↦ rw (e, b) (append-Balanced name (size_to_string t) hn h)
  ]
]

or_name-Balanced : (ret name : Text) → Balanced ret → Balanced name → Balanced (or_name ret name)
or_name-Balanced [] name h hn = hn
or_name-Balanced (c ∷ cs) name h hn = h

surround_pointer-Balanced :
    (t : CType) (f : PointerFields) (name : Text)
    → Balanced (size_to_string t)
    → Balanced name
    → Balanced (surround_pointer t f name)
unfolding surround_pointer
surround_pointer-Balanced t f name h hn =
    or_name-Balanced _ name
      (append-Balanced _ _ (if-Balanced _ _ _ (starred-Balanced f.levels name hn) empty-Balanced)
        (if-Balanced _ _ _ h empty-Balanced))
      hn

pub surround_name-Balanced :
    (t : CType) (name : Text) → BalancedNames t → Balanced name → Balanced (surround_name t name)
unfolding surround_name
surround_name-Balanced (array a t n f) name h hn =
    surround_array-Balanced (array a t n f) f name (size_to_string-Balanced (array a t n f) h) hn
surround_name-Balanced (pointer _ t f) name h hn =
    surround_pointer-Balanced t f name (size_to_string-Balanced t h) hn
surround_name-Balanced _ name h hn = hn
