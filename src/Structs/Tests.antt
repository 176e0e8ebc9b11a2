-- ===== src/Structs/Tests.antt =====
-- `struct s_a { struct s_b f0[2][3]; int f1; struct s_c *f2; }`, `struct s_b { struct s_c f0; }`,
-- `struct s_c { struct s_a *f0; }`, and a struct with a pointer to an array of itself.
use llvm2c.Prelude.{ℕ, ◌-◌, ◌≡◌, refl, none, some, [], ◌∷◌, ◌⊎◌, codes, to_decimal, arith}
use mathlib.Core.List.{Memᴰ}
use llvm2c.Types.{CType, struct_of, make_array, make_pointer}
use llvm2c.Types.Print.{surround_array, surround_pointer, size_to_string}
use llvm2c.Types.Kinds.{is_function_pointer_type}
use llvm2c.TypeHandler.{sint}
use llvm2c.Structs.{
  Struct, Aggregates, Output, struct_definitions, struct_definitions_section, struct_declarations,
  union_definitions, needed_struct, get_struct,
}
use llvm2c.Structs.Order.{IsDefined, IsAmong, IsAcyclic, lines_of}
use llvm2c.Structs.Complete.{struct_definitions_complete}
use llvm2c.Structs.Cycles.{struct_definitions_endless}

abbrev s_c : Struct
s_c = record {
  addr = 102;
  name = codes "s_c";
  items = (make_pointer 110 (struct_of 100 (codes "s_a")), codes "f0") ∷ [];
}

abbrev s_b : Struct
s_b = record {
  addr = 101;
  name = codes "s_b";
  items = (struct_of 102 (codes "s_c"), codes "f0") ∷ [];
}

abbrev grid : CType
grid = make_array 112 (make_array 111 (struct_of 101 (codes "s_b")) 3) 2

abbrev s_a : Struct
s_a = record {
  addr = 100;
  name = codes "s_a";
  items =
      (grid, codes "f0")
      ∷ ((sint, codes "f1") ∷ ((make_pointer 113 (struct_of 102 (codes "s_c")), codes "f2") ∷ []));
}

abbrev program : Aggregates
program = record { structs = s_a ∷ (s_b ∷ []); unions = []; unnamed_structs = s_c ∷ [] }

abbrev rank : Struct → ℕ
rank s = 102 - s.addr

program-IsAcyclic : IsAcyclic program rank
unfolding make_array make_pointer needed_struct get_struct
program-IsAcyclic = (
  (
    ((((tt, none, refl), none, refl), (s_b, refl, omega arith)), ((tt, tt), ((tt, tt), tt))),
    (((tt, (s_c, refl, omega arith)), tt), tt),
  ),
  (((tt, tt), tt), tt),
)

struct_definitions_run :
    struct_definitions_section program 3
    ≡ some (
        codes "// struct definitions"
        ∷ codes "struct s_c {"
        ∷ codes "    struct s_a* f0;"
        ∷ codes "};"
        ∷ codes "struct s_b {"
        ∷ codes "    struct s_c f0;"
        ∷ codes "};"
        ∷ codes "struct s_a {"
        ∷ codes "    struct s_b f0[2][3];"
        ∷ codes "    int f1;"
        ∷ codes "    struct s_c* f2;"
        ∷ codes "};"
        ∷ []
        ∷ [])
unfolding struct_definitions_section make_array make_pointer is_function_pointer_type surround_array
    surround_pointer size_to_string to_decimal
struct_definitions_run = refl

struct_definitions_complete_example :
    (o : Output) × (struct_definitions program 3 ≡ some o)
    × (o.lines ≡ lines_of o.printed)
    × IsDefined program o.printed
    × ((s : Struct) → Memᴰ s program.structs ⊎ Memᴰ s program.unnamed_structs → IsAmong s o.printed)
struct_definitions_complete_example =
    struct_definitions_complete program rank program-IsAcyclic 3 (omega arith, (omega arith, tt))
      (omega arith, tt)

abbrev s_d : Struct
s_d = record {
  addr = 103;
  name = codes "s_d";
  items = (make_pointer 114 (make_array 115 (struct_of 103 (codes "s_d")) 4), codes "f0") ∷ [];
}

abbrev looping : Aggregates
looping = record { structs = s_d ∷ []; unions = []; unnamed_structs = [] }

found : get_struct looping s_d.name ≡ some s_d
unfolding get_struct
found = refl

struct_definitions_endless_example : struct_definitions looping 1000 ≡ none
struct_definitions_endless_example =
    struct_definitions_endless looping s_d found 114 115 103 4 (codes "f0") (Memᴰ.head refl)
      (Memᴰ.head refl) 1000

struct_declarations_run :
    struct_declarations program
    ≡ codes "// struct declarations" ∷ (codes "struct s_a;" ∷ (codes "struct s_b;" ∷ ([] ∷ [])))
unfolding struct_declarations
struct_declarations_run = refl

union_definitions_run :
    union_definitions (record {
      structs = [];
      unions = record { addr = 120; name = codes "u_a"; items = (sint, codes "f0") ∷ [] } ∷ [];
      unnamed_structs = [];
    })
    ≡ codes "// union definitions"
      ∷ (codes "union u_a {" ∷ (codes "    int f0;" ∷ (codes "};" ∷ ([] ∷ []))))
unfolding union_definitions
union_definitions_run = refl
