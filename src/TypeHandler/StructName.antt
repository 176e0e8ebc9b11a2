-- ===== src/TypeHandler/StructName.antt =====
-- TypeHandler::getStructName: which C names the LLVM names of structs and unions get.
use llvm2c.Prelude.{
  ◌≡◌, ◌≢◌, refl, sym, ap, ◌∙◌, inl, inr, Bool-cases, arith, [], ◌∷◌, ◌++◌, if◌then◌else◌, Text,
  codes, text_eq, text_eq_iff, ◌==◌,
}
use llvm2c.TypeHandler.{get_struct_name, replace_dots}

-- No byte of the text is a dot.
abbrev pub HasNoDot : Text → Type 0
HasNoDot [] = Unit
HasNoDot (c ∷ s) = (c ≢ b'.') × HasNoDot s

replace_dots-HasNoDot : (s : Text) → HasNoDot s → replace_dots s ≡ s
unfolding replace_dots
replace_dots-HasNoDot [] h = refl
replace_dots-HasNoDot (c ∷ s) h = ground (arith, replace_dots-HasNoDot s h.1)

replace_dots-dot : (p q : Text) → replace_dots (p ++ b'.' ∷ q) ≡ replace_dots (p ++ b'_' ∷ q)
unfolding replace_dots
replace_dots-dot [] q = refl
replace_dots-dot (c ∷ p) q = ap ((if c == b'.' then b'_' else c) ∷◌) (replace_dots-dot p q)

-- The C name of a struct whose LLVM name is "struct." and the given rest.
abbrev pub struct_name : Text → Text
struct_name rest = get_struct_name (codes "struct." ++ rest)

-- The name with its prefix, before the special case.
abbrev pub prefixed : Text → Text
prefixed rest = codes "s_" ++ replace_dots rest

struct_name-eq :
    (rest : Text)
    → struct_name rest ≡ (
        if text_eq (prefixed rest) (codes "s___va_list_tag")
        then codes "__va_list_tag"
        else prefixed rest)
unfolding get_struct_name replace_dots text_eq
struct_name-eq rest = refl

union_name-eq :
    (rest : Text) → get_struct_name (codes "union." ++ rest) ≡ codes "u_" ++ replace_dots rest
unfolding get_struct_name replace_dots text_eq
union_name-eq rest = refl

abbrev pub va_list_tag : Text
va_list_tag = codes "__va_list_tag"

special :
    (rest : Text)
    → (if text_eq (codes "s_" ++ rest) (codes "s___va_list_tag")
        then va_list_tag
        else codes "s_" ++ rest)
      ≡ (if text_eq rest va_list_tag then rest else codes "s_" ++ rest)
unfolding text_eq
special rest = elim (Bool-cases (text_eq rest va_list_tag)) [
  | inl e ↦ rw e (sym ((text_eq_iff rest va_list_tag).0 e))
  | inr e ↦ rw e
]

-- A struct named by dot-free text keeps that text behind "s_", but for `__va_list_tag`, which keeps
-- its own name; a union keeps it behind "u_".
pub get_struct_name_dotless :
    (rest : Text)
    → HasNoDot rest
    → (struct_name rest
        ≡ (if text_eq rest (codes "__va_list_tag") then rest else codes "s_" ++ rest))
      × (get_struct_name (codes "union." ++ rest) ≡ codes "u_" ++ rest)
get_struct_name_dotless rest h = (
  struct_name-eq rest ∙ rw (replace_dots-HasNoDot rest h) (special rest),
  rw (union_name-eq rest, replace_dots-HasNoDot rest h),
)

-- Dot-free LLVM names of structs stay distinct.
pub get_struct_name_injective :
    (m n : Text) → HasNoDot m → HasNoDot n → struct_name m ≡ struct_name n → m ≡ n
get_struct_name_injective m n hm hn e = ground (
  arith,
  get_struct_name_dotless m hm,
  get_struct_name_dotless n hn,
  text_eq_iff m va_list_tag,
  text_eq_iff n va_list_tag,
)

-- A dot and an underscore give the same C name, so two structs of a module can share one.
pub get_struct_name_collision :
    (p q : Text) → struct_name (p ++ b'.' ∷ q) ≡ struct_name (p ++ b'_' ∷ q)
get_struct_name_collision p q = simp (struct_name-eq, replace_dots-dot)
