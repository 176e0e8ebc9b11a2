-- ===== src/Instructions/Binary.antt =====
-- Binary operations: the signedness of the operation and the types of its operands agree.
use llvm2c.Prelude.{
  Bool, true, false, not, ◌≡◌, refl, ◌⊎◌, inl, inr, Option, none, some, if◌then◌else◌,
}
use llvm2c.Exprs.{Expr, TypeRef, BinaryKind, binary, make_binary, make_not}
use llvm2c.SignCasts.Settle.{sign_of}
use llvm2c.Instructions.{
  Opcode, add, sub, mul, udiv, urem, and, or, xor, BinaryOperator, is_signed_operation, parse_xor,
  parse_operation, parse_binary, to_signed,
}

-- The operators that can have LLVM's `nsw`, besides the shift to the left.
abbrev pub can_overflow : Opcode → Bool
can_overflow add = true
can_overflow sub = true
can_overflow mul = true
can_overflow _ = false

-- An operand as the instruction uses it.
abbrev pub operand_of : Opcode → Bool → Expr → Expr
operand_of opcode nsw e = if is_signed_operation opcode nsw then to_signed e else e

-- The expression is a BinaryExpr of those operands, of no signedness or of the given one.
abbrev pub IsOperation : Bool → Expr → Expr → Expr → Type 0
IsOperation signed l r made =
    (k : BinaryKind) × (t : TypeRef) × (made ≡ binary k l r t)
    × ((sign_of k ≡ none) ⊎ (sign_of k ≡ some (not signed)))

-- The one-bit exclusive or with the constant one is the negation of the other operand.
abbrev pub IsNegation : BinaryOperator → Expr → Expr → Expr → Type 0
IsNegation ins l r made =
    (ins.is_i1 ≡ true)
    × (((ins.const0 ≡ some true) × (made ≡ make_not r))
        ⊎ ((ins.const0 ≡ none) × (ins.const1 ≡ some true) × (made ≡ make_not l)))

abbrev pub IsTranslated : BinaryOperator → Expr → Expr → Expr → Type 0
IsTranslated ins l r made =
    IsOperation (is_signed_operation ins.opcode ins.has_nsw) l r made ⊎ IsNegation ins l r made

-- The instruction without the cast for results of type float.
abbrev instruction : Opcode → Bool → Bool → Option Bool → Option Bool → BinaryOperator
instruction opcode nsw i1 c0 c1 = record {
  opcode = opcode;
  has_nsw = nsw;
  is_i1 = i1;
  is_float = false;
  const0 = c0;
  const1 = c1;
}

xor-IsTranslated :
    (nsw i1 : Bool) (c0 c1 : Option Bool) (l r : Expr)
    → IsTranslated (instruction xor nsw i1 c0 c1) l r (parse_xor i1 c0 c1 l r)
unfolding parse_xor sign_of make_binary
xor-IsTranslated nsw true (some true) c1 l r = inr (refl, inl (refl, refl))
xor-IsTranslated nsw true none (some true) l r = inr (refl, inr (refl, refl, refl))
xor-IsTranslated nsw i1 c0 c1 l r = inl (_, _, refl, inl refl)

fields-IsTranslated :
    (opcode : Opcode) (nsw i1 : Bool) (c0 c1 : Option Bool) (l r : Expr)
    → (nsw ≡ true → can_overflow opcode ≡ true)
    → IsTranslated
        (instruction opcode nsw i1 c0 c1)
        (operand_of opcode nsw l)
        (operand_of opcode nsw r)
        (parse_binary (instruction opcode nsw i1 c0 c1) l r)
unfolding parse_binary parse_operation is_signed_operation sign_of make_binary
fields-IsTranslated udiv true i1 c0 c1 l r h = cc (h refl)
fields-IsTranslated urem true i1 c0 c1 l r h = cc (h refl)
fields-IsTranslated and nsw i1 c0 c1 l r h = inl (_, _, refl, inl refl)
fields-IsTranslated or nsw i1 c0 c1 l r h = inl (_, _, refl, inl refl)
fields-IsTranslated xor nsw i1 c0 c1 l r h =
    xor-IsTranslated nsw i1 c0 c1 (operand_of xor nsw l) (operand_of xor nsw r)
fields-IsTranslated o nsw i1 c0 c1 l r h = inl (_, _, refl, inr refl)

-- A binary instruction whose result is no float, with `nsw` at an addition, a subtraction or a
-- multiplication only: if it has `nsw`, or is a signed or floating-point division or remainder, its
-- operands are cast to signed types and the operation is signed; otherwise they stay, and the operation
-- is unsigned. A bitwise operation has no signedness. The exception is the one-bit exclusive or with
-- the constant one, which becomes the negation of the other operand.
pub parse_binary-IsTranslated :
    (ins : BinaryOperator) (l r : Expr)
    → ins.is_float ≡ false
    → (ins.has_nsw ≡ true → can_overflow ins.opcode ≡ true)
    → IsTranslated ins
        (operand_of ins.opcode ins.has_nsw l)
        (operand_of ins.opcode ins.has_nsw r)
        (parse_binary ins l r)
unfolding parse_binary
parse_binary-IsTranslated ins l r no_float h =
    rw no_float (fields-IsTranslated ins.opcode ins.has_nsw ins.is_i1 ins.const0 ins.const1 l r h)
