-- ===== src/ExprWriter/Parts.antt =====
-- What writer/ExprWriter.cpp writes between the operands: types, items, operators and labels.
use llvm2c.Prelude.{
  ◌+◌, ℕ, Bool, true, false, ◌||◌, Option, none, some, List, [], ◌∷◌, Text, codes, text_eq,
  to_decimal, if◌then◌else◌,
}
use llvm2c.Types.{CType, pointer, integer}
use llvm2c.Types.Kinds.{is_aggregate_type, is_pointer_type, is_bool_type}
use llvm2c.Types.Print.{to_string, surround_name, stars}
use llvm2c.Exprs.{
  Expr, TypeRef, Label, positive, negative, if_expr, latch_expr, switch_expr, BinaryKind, add_expr,
  sub_expr, mul_expr, div_expr, rem_expr, shl_expr, assign_expr, and_expr, or_expr, xor_expr,
  ashr_expr, lshr_expr, cmp_expr, expr_list, nil,
}
use llvm2c.ExprWriter.Output.{Out, ◌<<◌, put, indent}

-- The names of the items of structs and unions, by type and position.
abbrev pub ItemNames : Type 0
ItemNames = CType → ℕ → Option Text

-- `ss << t->toString()`
abbrev pub put_type : TypeRef → Out
put_type none = none
put_type (some t) = some (to_string t)

-- The stars of a cast to a pointer to an array.
abbrev pub put_array_stars : CType → Out → Out
put_array_stars (pointer _ _ f) prefix =
    if f.is_array_pointer then prefix << some (stars f.levels) << put ")" else put ""
put_array_stars _ prefix = put ""

-- ExprWriter::writeCastType
abbrev pub write_cast_type : TypeRef → Out
write_cast_type none = none
write_cast_type (some t) = put "(" << some (to_string t) << put_array_stars t (put " (") << put ")"

-- The type of a PointerShift, taken for a PointerType.
abbrev pub put_shift_type : TypeRef → Out
put_shift_type (some (pointer a t f)) =
    some (to_string (pointer a t f)) << put_array_stars (pointer a t f) (put "(")
put_shift_type _ = none

-- `dyn_cast<AggregateType>(t)->items[n].second`
abbrev pub put_item : ItemNames → CType → ℕ → Out
put_item names t n = if is_aggregate_type t then names t n else none

-- What visit(AggregateElement&) writes after the aggregate.
abbrev pub put_element : ItemNames → TypeRef → ℕ → Out
put_element names none n = none
put_element names (some t) n =
    (if is_pointer_type t then put "->" else put ".") << put_item names t n

-- What visit(ArrowExpr&) writes after the arrow.
abbrev pub put_pointed_item : ItemNames → TypeRef → ℕ → Out
put_pointed_item names (some (pointer _ t _)) n = put_item names t n
put_pointed_item names _ n = none

-- The operator of visit(AndExpr&); `isa` asserts that its argument is not null.
abbrev pub put_and : TypeRef → TypeRef → Out
put_and none r = none
put_and (some l) none = if is_bool_type l then none else put " & "
put_and (some l) (some r) =
    if is_bool_type l then (if is_bool_type r then put " && " else put " & ") else put " & "

-- What visit(LshrExpr&) writes before the left operand.
abbrev pub put_unsigned : TypeRef → Out
put_unsigned (some (integer a c false)) =
    put "(unsigned " << some (to_string (integer a c false)) << put ")("
put_unsigned (some (integer a c true)) = put "("
put_unsigned _ = none

-- The declaration of visit(StackAlloc&).
abbrev pub put_declaration : TypeRef → Text → Out
put_declaration none name = none
put_declaration (some t) name = some (to_string t) << put " " << some (surround_name t name)

-- The operator's text of a BinaryExpr; AndExpr and LshrExpr have their own.
abbrev pub operator : BinaryKind → Out
operator (add_expr _) = put " + "
operator (sub_expr _) = put " - "
operator (mul_expr _) = put " * "
operator (div_expr _) = put " / "
operator (rem_expr _) = put " % "
operator (shl_expr _) = put " << "
operator ashr_expr = put " >> "
operator assign_expr = put " = "
operator or_expr = put " | "
operator xor_expr = put " ^ "
operator (cmp_expr op _) = put " " << some op << put " "
operator and_expr = none
operator lshr_expr = none

abbrev pub put_label : Label → Out
put_label (positive n) = some (to_decimal n)
put_label (negative n) = put "-" << some (to_decimal n)

-- Written without a semicolon in a list of expressions.
unfoldable pub stands_alone : Expr → Bool
stands_alone (if_expr _ _ _) = true
stands_alone (switch_expr _ _ _) = true
stands_alone (expr_list _) = true
stands_alone (latch_expr _ _) = true
stands_alone _ = false

unfoldable pub is_empty_list : Expr → Bool
is_empty_list (expr_list nil) = true
is_empty_list _ = false

-- `funcName == "va_start" || funcName == "va_end"`
unfoldable pub is_va_func : Text → Bool
is_va_func name = text_eq name (codes "va_start") || text_eq name (codes "va_end")

-- What visit(LatchExpr&) writes after the label.
abbrev pub after_label : List Expr → Out
after_label [] = put ";\n"
after_label (_ ∷ _) = put "\n"

-- ExprWriter::parensIfNotSimple, around what the expression's visit writes.
abbrev pub parens_if_not_simple : Bool → Out → Out
parens_if_not_simple simple w = if simple then w else put "(" << w << put ")"

-- The frames that the larger visits write around what their operands' visits write.
-- visit(IfExpr&)
abbrev pub write_if : ℕ → Out → Out → Out → Out
write_if i cmp true_list false_list =
    put "if ("
    << cmp
    << put ") {\n"
    << indent (i + 1)
    << true_list
    << indent i
    << put "} else {\n"
    << indent (i + 1)
    << false_list
    << indent i
    << put "}\n"

-- visit(SwitchExpr&)
abbrev pub write_switch : ℕ → Out → Out → Out → Out
write_switch i cmp cases def =
    put "switch ("
    << cmp
    << put ") {\n"
    << cases
    << indent (i + 1)
    << put "default:\n"
    << indent (i + 2)
    << def
    << put "}\n"

-- visit(AsmExpr&)
abbrev pub write_asm : ℕ → Text → Out → Out → Text → Out
write_asm i inst output input clobbers =
    put "__asm__(\""
    << some inst
    << put "\"\n"
    << indent (i + 1)
    << put ": "
    << output
    << put "\n"
    << indent (i + 1)
    << put ": "
    << input
    << put "\n"
    << indent (i + 1)
    << put ": "
    << some clobbers
    << put "\n"
    << indent i
    << put ")"

-- visit(CallExpr&)
abbrev pub write_call : Bool → Out → Out → Out
write_call is_va callee params =
    callee << put "(" << (if is_va then put "(void*)(" else put "") << params << put ")"

-- visit(PointerShift&)
abbrev pub write_shift : Bool → TypeRef → Out → Out → Out
write_shift zero_move ptr_type p move =
    if zero_move
    then p
    else put "*(((" << put_shift_type ptr_type << put ")(" << p << put ")) + " << move << put ")"

-- visit(SelectExpr&)
abbrev pub write_select : Bool → Out → Out → Out → Out
write_select negate comp left right =
    (if negate then put "!(" else put "")
    << comp
    << (if negate then put ")" else put "")
    << put " ? "
    << left
    << put " : "
    << right

-- visit(DoWhile&)
abbrev pub write_do_while : ℕ → Bool → Out → Out → Out
write_do_while i negate body cond =
    put "do {\n"
    << indent (i + 1)
    << body
    << indent i
    << put "} while ("
    << (if negate then put " !(" else put "")
    << cond
    << (if negate then put " )" else put "")
    << put ")"
