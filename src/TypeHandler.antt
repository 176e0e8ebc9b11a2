-- ===== src/TypeHandler.antt =====
-- type/TypeHandler.h and type/TypeHandler.cpp: the basic type objects, the changes of signedness,
-- the integer types for LLVM's widths, the caches of pointer and array types, and typedef names.
pub mod Signedness
pub mod Cache
pub mod StructName
pub mod Tests
use llvm2c.Prelude.{
  ℕ, zero, suc, ◌+◌, Bool, true, false, if◌then◌else◌, Option, none, some, List, [], ◌∷◌, ◌++◌,
  Text, codes, to_decimal, text_eq, leb, ◌==◌,
}
use llvm2c.Types.{
  CType, void, integer, floating, char_type, int_type, bool_type, short_type, long_type,
  long_long_type, int128, float_type, double_type, long_double_type, same_type, make_pointer,
}

-- The members of a TypeHandler; each is an object of its own.
abbrev pub uint : CType
uint = integer 0 int_type true

abbrev pub uchar : CType
uchar = integer 1 char_type true

abbrev pub ushort : CType
ushort = integer 2 short_type true

abbrev pub ulong : CType
ulong = integer 3 long_type true

abbrev pub ulonglong : CType
ulonglong = integer 4 long_long_type true

abbrev pub sint : CType
sint = integer 5 int_type false

abbrev pub schar : CType
schar = integer 6 char_type false

abbrev pub sshort : CType
sshort = integer 7 short_type false

abbrev pub slong : CType
slong = integer 8 long_type false

abbrev pub slonglong : CType
slonglong = integer 9 long_long_type false

abbrev pub int128_type : CType
int128_type = integer 10 int128 true

abbrev pub void_type : CType
void_type = void 11

abbrev pub float_object : CType
float_object = floating 12 float_type

abbrev pub double_object : CType
double_object = floating 13 double_type

abbrev pub long_double_object : CType
long_double_object = floating 14 long_double_type

abbrev pub bool_object : CType
bool_object = integer 15 bool_type true

-- CmpExpr::type, a BoolType object of its own (expr/BinaryExpr.cpp).
abbrev pub cmp_bool_object : CType
cmp_bool_object = integer 16 bool_type true

-- One TYPES(...) line of toggleSignedness, before the lines that follow it.
unfoldable pub toggle_pair : CType → CType → CType → CType → CType
toggle_pair unsigned signed ty rest =
    if same_type ty signed then unsigned else (if same_type ty unsigned then signed else rest)

unfoldable pub toggle_signedness : CType → CType
unfolding toggle_pair
toggle_signedness ty = toggle_pair uint sint ty (
    toggle_pair uchar schar ty (
      toggle_pair ushort sshort ty
        (toggle_pair ulong slong ty (toggle_pair ulonglong slonglong ty ty))))

-- One TYPES(...) line of setSigned or setUnsigned.
unfoldable pub set_pair : CType → CType → CType → CType → CType
set_pair from to ty rest = if same_type ty from then to else rest

unfoldable pub set_signed : CType → CType
unfolding set_pair
set_signed ty = set_pair uint sint ty (
    set_pair uchar schar ty
      (set_pair ushort sshort ty (set_pair ulong slong ty (set_pair ulonglong slonglong ty ty))))

unfoldable pub set_unsigned : CType → CType
unfolding set_pair
set_unsigned ty = set_pair sint uint ty (
    set_pair schar uchar ty
      (set_pair sshort ushort ty (set_pair slong ulong ty (set_pair slonglong ulonglong ty ty))))

-- TypeHandler::getBinaryType; `none` is the null pointer.
unfoldable pub get_binary_type : Option CType → Option CType → Option CType
get_binary_type (some left) right = some left
get_binary_type none right = right

-- TypeHandler::getType on an LLVM integer type of the given width.
unfoldable pub get_integer_type : ℕ → CType
get_integer_type width =
    if width == 1
    then bool_object
    else (if leb width 8
        then uchar
        else (if leb width 16
            then ushort
            else (if leb width 32
                then uint
                else (if leb width 64 then ulonglong else int128_type))))

-- `std::replace(name.begin(), name.end(), '.', '_')`
unfoldable pub replace_dots : Text → Text
replace_dots [] = []
replace_dots (c ∷ s) = (if c == b'.' then b'_' else c) ∷ replace_dots s

-- `name.substr(0, n)` and `name.erase(0, n)`; both stop at the end of the text.
abbrev pub substr : ℕ → Text → Text
substr zero s = []
substr (suc n) [] = []
substr (suc n) (c ∷ s) = c ∷ substr n s

abbrev pub erase : ℕ → Text → Text
erase zero s = s
erase (suc n) [] = []
erase (suc n) (c ∷ s) = erase n s

-- TypeHandler::getStructName
unfoldable pub get_struct_name : Text → Text
unfolding replace_dots
get_struct_name struct_name =
    let name = replace_dots struct_name in
    let renamed =
      if text_eq (substr 6 name) (codes "struct")
      then codes "s_" ++ erase 7 name
      else codes "u_" ++ erase 6 name in
    if text_eq renamed (codes "s___va_list_tag") then codes "__va_list_tag" else renamed

-- The part of a TypeHandler that its operations change. Every object that it makes takes the next
-- free address.
pub record TypeHandler : Type 0 where
  pub pointer_types : List (CType × CType)
  pub type_def_count : ℕ
  pub next_addr : ℕ

-- `pointerTypes.find(type)`
unfoldable pub find_pointer : CType → List (CType × CType) → Option CType
find_pointer type [] = none
find_pointer type ((key, value) ∷ rest) =
    if same_type key type then some value else find_pointer type rest

-- What pointerTo does with the result of the search.
unfoldable pub pointer_to_with : CType → TypeHandler → Option CType → CType × TypeHandler
pointer_to_with type h (some found) = (found, h)
pointer_to_with type h none =
    let made = make_pointer h.next_addr type in
    (made, record h { pointer_types = (type, made) ∷ h.pointer_types; next_addr = h.next_addr + 1 })

-- TypeHandler::pointerTo
unfoldable pub pointer_to : CType → TypeHandler → CType × TypeHandler
pointer_to type h = pointer_to_with type h (find_pointer type h.pointer_types)

-- TypeHandler::getTypeDefName
unfoldable pub get_type_def_name : TypeHandler → Text × TypeHandler
get_type_def_name h = (
  codes "typeDef_" ++ to_decimal h.type_def_count,
  record h { type_def_count = h.type_def_count + 1 },
)
