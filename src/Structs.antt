-- ===== src/Structs.antt =====
-- The structs of a program, and how writer/Writer.cpp writes them: structDeclarations,
-- anonymousStructDeclarations, structDefinition, structDefinitions and unionDefinitions, with
-- getStruct of core/Program.cpp and the lines that writer/CWriter.cpp prints.
pub mod Order
pub mod Complete
pub mod Cycles
pub mod Tests
use llvm2c.Prelude.{
  ℕ, zero, suc, Bool, true, false, not, ◌&&◌, ◌||◌, if◌then◌else◌, Option, none, some, ◌>>=◌, List,
  [], ◌∷◌, ◌++◌, map, Text, codes, text_eq, ◌==◌,
}
use llvm2c.Types.{CType, struct_of, pointer, array}
use llvm2c.Types.Print.{declare}

-- A StructType with its items; the first field is the object's address.
pub record Struct : Type 0 where
  pub addr : ℕ
  pub name : Text
  pub items : List (CType × Text)

-- The members of a Program that hold aggregates, each in the order of its iteration. A UnionType has
-- the fields of a StructType.
pub record Aggregates : Type 0 where
  pub structs : List Struct
  pub unions : List Struct
  pub unnamed_structs : List Struct

-- One loop of getStruct. The call of the loop that follows is `next`.
unfoldable pub find_struct : Text → List Struct → Option Struct → Option Struct
unfolding text_eq
find_struct name [] next = next
find_struct name (s ∷ structs) next =
    if text_eq s.name name then some s else find_struct name structs next

-- Program::getStruct(const std::string&)
unfoldable pub get_struct : Aggregates → Text → Option Struct
unfolding find_struct
get_struct p name = find_struct name p.structs (find_struct name p.unnamed_structs none)

-- `printed` holds the structs that are written, the last one first; `lines` is what is written.
pub record Output : Type 0 where
  pub printed : List Struct
  pub lines : List Text

-- `printed.find(strct) != printed.end()`, a comparison of pointers.
unfoldable pub is_printed : Struct → List Struct → Bool
is_printed s [] = false
is_printed s (t ∷ printed) = s.addr == t.addr || is_printed s printed

-- What is written for one item: indent(1) and structItem.
abbrev pub item_line : CType × Text → Text
item_line (ty, name) = codes "    " ++ declare ty name

-- The lines from startStruct, or startUnion, to endStruct.
unfoldable pub definition_lines : Text → Struct → List Text
unfolding declare
definition_lines keyword s =
    (keyword ++ (s.name ++ codes " {")) ∷ (map item_line s.items ++ (codes "};" ∷ []))

-- The name of the struct whose definition an item of the type asks for first.
unfoldable pub needed_struct : CType → Option Text
needed_struct (array _ _ _ f) = if f.is_struct_array then some f.struct_name else none
needed_struct (pointer _ _ f) =
    if f.is_struct_pointer && f.is_array_pointer then some f.struct_name else none
needed_struct (struct_of _ name) = some name
needed_struct _ = none

-- The end of structDefinition, after the loop over the items.
unfoldable pub write_struct : Struct → Output → Output
unfolding is_printed definition_lines
write_struct s o =
    if is_printed s o.printed
    then o
    else record { printed = s ∷ o.printed; lines = o.lines ++ definition_lines (codes "struct ") s }

-- The loop over the items, where `define` is the call of structDefinition. `none` stands for the
-- null pointer that getStruct returns and structDefinition reads.
module _ (p : Aggregates) (define : Struct → Output → Option Output) where
  unfoldable pub define_needed : Option Text → Output → Option Output
  unfolding get_struct
  define_needed none o = some o
  define_needed (some name) o = get_struct p name >>= λ s. define s o

  unfoldable pub define_items : List (CType × Text) → Output → Option Output
  unfolding define_needed needed_struct
  define_items [] o = some o
  define_items ((ty, name) ∷ items) o = define_needed (needed_struct ty) o >>= define_items items

-- Writer::structDefinition, with fuel for the depth of its recursion.
unfoldable pub struct_definition : Aggregates → ℕ → Struct → Output → Option Output
unfolding define_items write_struct
struct_definition p zero s o = none
struct_definition p (suc fuel) s o =
    define_items p (struct_definition p fuel) s.items o >>= λ after. some (write_struct s after)

-- A loop of structDefinitions.
unfoldable pub define_each : Aggregates → ℕ → List Struct → Output → Option Output
unfolding struct_definition
define_each p fuel [] o = some o
define_each p fuel (s ∷ structs) o = struct_definition p fuel s o >>= define_each p fuel structs

-- The two loops of Writer::structDefinitions.
unfoldable pub struct_definitions : Aggregates → ℕ → Option Output
unfolding define_each
struct_definitions p fuel =
    define_each p fuel p.structs (record { printed = []; lines = [] })
    >>= define_each p fuel p.unnamed_structs

-- SECTION_START and SECTION_END around the lines of a section.
unfoldable pub section : Text → Bool → List Text → List Text
section title enabled lines =
    if enabled then (codes "// " ++ title) ∷ (lines ++ ([] ∷ [])) else lines

abbrev pub is_empty : List Struct → Bool
is_empty [] = true
is_empty (s ∷ structs) = false

-- CWriter::declareStruct and CWriter::declareUnion
abbrev pub declaration_line : Text → Struct → Text
declaration_line keyword s = keyword ++ (s.name ++ codes ";")

-- Writer::structDeclarations
unfoldable pub struct_declarations : Aggregates → List Text
unfolding section
struct_declarations p =
    section (codes "struct declarations") (not (is_empty p.structs && is_empty p.unions)) (
      map (declaration_line (codes "struct ")) p.structs
      ++ map (declaration_line (codes "union ")) p.unions)

-- Writer::anonymousStructDeclarations
unfoldable pub anonymous_struct_declarations : Aggregates → List Text
unfolding section
anonymous_struct_declarations p =
    section (codes "anonymous struct declarations") (not (is_empty p.unnamed_structs))
      (map (declaration_line (codes "struct ")) p.unnamed_structs)

-- The loop of unionDefinitions, over unionDefinition.
abbrev pub union_lines : List Struct → List Text
union_lines [] = []
union_lines (u ∷ unions) = definition_lines (codes "union ") u ++ union_lines unions

-- Writer::unionDefinitions
unfoldable pub union_definitions : Aggregates → List Text
unfolding section definition_lines
union_definitions p =
    section (codes "union definitions") (not (is_empty p.unions)) (union_lines p.unions)

-- Writer::structDefinitions with its section.
unfoldable pub struct_definitions_section : Aggregates → ℕ → Option (List Text)
unfolding struct_definitions section
struct_definitions_section p fuel = struct_definitions p fuel >>= λ o. some (
    section (codes "struct definitions") (not (is_empty p.structs && is_empty p.unnamed_structs))
      o.lines)
