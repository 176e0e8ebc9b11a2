-- ===== src/ExprWriter/Pieces.antt =====
-- The pieces of ExprWriter's output besides the visited operands: which types and names they need,
-- and that what they write has matching brackets then.
use llvm2c.Prelude.{
  ℕ, ◌≡◌, refl, Bool, true, false, none, some, List, ◌∷◌, Text, Bool-cases, inl, inr,
}
use llvm2c.Types.{CType, pointer, integer}
use llvm2c.Types.Kinds.{is_aggregate_type, is_pointer_type, is_bool_type}
use llvm2c.Exprs.{TypeRef, Label, positive, negative, BinaryKind, and_expr, lshr_expr, cmp_expr}
use llvm2c.ExprWriter.{
  Out, put, ItemNames, put_array_stars, write_cast_type, put_shift_type, put_item, put_element,
  put_pointed_item, put_and, put_unsigned, put_declaration, put_label, parens_if_not_simple,
}
use llvm2c.ExprWriter.Brackets.{scan_out, scan_out-<<, Balanced, WritesBalanced}
use llvm2c.ExprWriter.TypeText.{
  BalancedNames, to_string-Balanced, surround_name-Balanced, stars-Balanced, to_decimal-Balanced,
}

-- The type is there, and the brackets in its names match.
abbrev pub NamedType : TypeRef → Type 0
NamedType none = ⊥
NamedType (some t) = BalancedNames t

-- The type is that of a struct or union with an item in that place.
abbrev pub HasItem : ItemNames → TypeRef → ℕ → Type 0
HasItem names none n = ⊥
HasItem names (some t) n =
    (is_aggregate_type t ≡ true) × ((name : Text) × (names t n ≡ some name) × Balanced name)

-- The type points to such a type.
abbrev pub PointsToItem : ItemNames → TypeRef → ℕ → Type 0
PointsToItem names (some (pointer _ t _)) n = HasItem names (some t) n
PointsToItem names _ n = ⊥

abbrev pub PointerNamed : TypeRef → Type 0
PointerNamed (some (pointer _ t _)) = BalancedNames t
PointerNamed _ = ⊥

-- What visit(AndExpr&) asks of its operands' types.
abbrev pub AndTypes : TypeRef → TypeRef → Type 0
AndTypes none r = ⊥
AndTypes (some l) none = is_bool_type l ≡ false
AndTypes (some l) (some r) = Unit

abbrev pub IntegerRef : TypeRef → Type 0
IntegerRef (some (integer _ _ _)) = Unit
IntegerRef _ = ⊥

-- What a binary operation asks of its operands' types and of its operator's text.
abbrev pub OperatorFits : BinaryKind → TypeRef → TypeRef → Type 0
OperatorFits and_expr l r = AndTypes l r
OperatorFits lshr_expr l r = IntegerRef l
OperatorFits (cmp_expr op _) l r = Balanced op
OperatorFits _ l r = Unit

pub parens-WritesBalanced :
    (simple : Bool) (w : Out) → WritesBalanced w → WritesBalanced (parens_if_not_simple simple w)
unfolding scan_out
parens-WritesBalanced true w h due = h due
parens-WritesBalanced false w h due = simp (scan_out-<<, h)

array_stars-WritesBalanced :
    (t : CType) (prefix : Out)
    → ((due : List ℕ) → scan_out prefix due ≡ some (41 ∷ due))
    → WritesBalanced (put_array_stars t prefix)
unfolding scan_out
array_stars-WritesBalanced (pointer _ _ f) prefix h due = elim (Bool-cases f.is_array_pointer) [
  | inl e ↦ rw e (simp (scan_out-<<, h, stars-Balanced f.levels))
  | inr e ↦ rw e
]
array_stars-WritesBalanced _ prefix h due = refl

pub cast_type-WritesBalanced : (t : TypeRef) → NamedType t → WritesBalanced (write_cast_type t)
unfolding scan_out
cast_type-WritesBalanced none h due = absurd h
cast_type-WritesBalanced (some t) h due = simp (
  scan_out-<<,
  to_string-Balanced t h,
  array_stars-WritesBalanced t (put " (") (λ (_ : List ℕ). refl),
)

pub shift_type-WritesBalanced : (t : TypeRef) → PointerNamed t → WritesBalanced (put_shift_type t)
unfolding scan_out
shift_type-WritesBalanced (some (pointer a t f)) h due = simp (
  scan_out-<<,
  to_string-Balanced (pointer a t f) h,
  array_stars-WritesBalanced (pointer a t f) (put "(") (λ (_ : List ℕ). refl),
)
shift_type-WritesBalanced _ h due = absurd h

item-WritesBalanced :
    (names : ItemNames) (t : CType) (n : ℕ)
    → HasItem names (some t) n
    → WritesBalanced (put_item names t n)
unfolding scan_out
item-WritesBalanced names t n (e, (name, e', h)) due = rw (e, e') (h due)

pub element-WritesBalanced :
    (names : ItemNames) (t : TypeRef) (n : ℕ)
    → HasItem names t n
    → WritesBalanced (put_element names t n)
unfolding scan_out
element-WritesBalanced names none n h due = absurd h
element-WritesBalanced names (some t) n h due = elim (Bool-cases (is_pointer_type t)) [
  | inl e ↦ rw e (simp (scan_out-<<, item-WritesBalanced names t n h))
  | inr e ↦ rw e (simp (scan_out-<<, item-WritesBalanced names t n h))
]

pub pointed_item-WritesBalanced :
    (names : ItemNames) (t : TypeRef) (n : ℕ)
    → PointsToItem names t n
    → WritesBalanced (put_pointed_item names t n)
pointed_item-WritesBalanced names (some (pointer _ t _)) n h = item-WritesBalanced names t n h
pointed_item-WritesBalanced names _ n h = absurd h

pub and-WritesBalanced : (l r : TypeRef) → AndTypes l r → WritesBalanced (put_and l r)
unfolding scan_out
and-WritesBalanced none r h due = absurd h
and-WritesBalanced (some l) none h due = rw h
and-WritesBalanced (some l) (some r) h due = elim (Bool-cases (is_bool_type l)) [
  | inl e ↦ elim (Bool-cases (is_bool_type r)) [ inl e' ↦ rw (e, e') | inr e' ↦ rw (e, e') ]
  | inr e ↦ rw e
]

-- It leaves one parenthesis open.
pub unsigned-opens :
    (t : TypeRef) (due : List ℕ) → IntegerRef t → scan_out (put_unsigned t) due ≡ some (41 ∷ due)
unfolding scan_out
unsigned-opens (some (integer a c true)) due h = refl
unsigned-opens (some (integer a c false)) due h =
    simp (scan_out-<<, to_string-Balanced (integer a c false) tt)
unsigned-opens _ due h = absurd h

pub declaration-WritesBalanced :
    (t : TypeRef) (name : Text)
    → NamedType t
    → Balanced name
    → WritesBalanced (put_declaration t name)
unfolding scan_out
declaration-WritesBalanced none name h hn due = absurd h
declaration-WritesBalanced (some t) name h hn due =
    simp (scan_out-<<, to_string-Balanced t h, surround_name-Balanced t name h hn)

pub label-WritesBalanced : (label : Label) → WritesBalanced (put_label label)
unfolding scan_out
label-WritesBalanced (positive n) due = to_decimal-Balanced n due
label-WritesBalanced (negative n) due = to_decimal-Balanced n due
