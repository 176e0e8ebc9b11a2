-- ===== src/Structs/Order.antt =====
-- The order of the definitions: a struct is defined once, after the structs that it contains.
use llvm2c.Prelude.{
  ℕ, true, Bool-cases, or_left, or_right, or_cases, ◌==◌, ==_iff, Option, none, some, ◌>>=◌, List,
  [], ◌∷◌, ◌++◌, Text, codes, text_eq, All, ◌≡◌, refl, sym, ap, subst, ◌<◌, inl, inr, ◌⊎◌,
  some_injective,
}
use mathlib.Core.List.{Memᴰ}
use mathlib.Core.List.Memᴰ
use llvm2c.Types.{
  CType, struct_of, array, pointer, function_pointer, union_of, void, integer, floating,
  array_fields,
}
use llvm2c.Structs.{
  Struct, Aggregates, get_struct, find_struct, Output, is_printed, definition_lines, needed_struct,
  write_struct,
}

-- An object of the type holds a struct of the name by value: in C the struct is to be complete.
abbrev pub Holds : CType → Text → Type 0
Holds (struct_of _ name) n = name ≡ n
Holds (array _ t _ _) n = Holds t n
Holds _ n = ⊥

-- Every array type in it is made by a constructor of ArrayType.
abbrev pub IsMade : CType → Type 0
IsMade (array _ t _ f) = IsMade t × (dyn : Option Text) × (f ≡ array_fields t dyn)
IsMade _ = Unit

-- What a type holds, its ArrayType knows.
array_fields-Holds :
    (t : CType) (n : Text) (dyn : Option Text)
    → IsMade t
    → Holds t n
    → ((array_fields t dyn).is_struct_array ≡ true) × ((array_fields t dyn).struct_name ≡ n)
unfolding array_fields
array_fields-Holds (struct_of _ name) n dyn made h = (refl, h)
array_fields-Holds (array _ t _ f) n dyn (made, d, e) h = rw e (array_fields-Holds t n d made h)
array_fields-Holds (function_pointer _ _ _ _) n dyn made h = elim h [ ]
array_fields-Holds (union_of _ _) n dyn made h = elim h [ ]
array_fields-Holds (pointer _ _ _) n dyn made h = elim h [ ]
array_fields-Holds (void _) n dyn made h = elim h [ ]
array_fields-Holds (integer _ _ _) n dyn made h = elim h [ ]
array_fields-Holds (floating _ _) n dyn made h = elim h [ ]

pub needed_struct-Holds : (t : CType) (n : Text) → IsMade t → Holds t n → needed_struct t ≡ some n
unfolding needed_struct
needed_struct-Holds (struct_of _ name) n made h = ap some h
needed_struct-Holds (array _ t _ f) n (made, d, e) h =
    let (flag, name) = array_fields-Holds t n d made h in rw (e, flag, name) refl
needed_struct-Holds (function_pointer _ _ _ _) n made h = elim h [ ]
needed_struct-Holds (union_of _ _) n made h = elim h [ ]
needed_struct-Holds (pointer _ _ _) n made h = elim h [ ]
needed_struct-Holds (void _) n made h = elim h [ ]
needed_struct-Holds (integer _ _ _) n made h = elim h [ ]
needed_struct-Holds (floating _ _) n made h = elim h [ ]

-- One of the items holds the struct, which getStruct finds by its name.
abbrev pub Contains : Aggregates → List (CType × Text) → Struct → Type 0
Contains p [] d = ⊥
Contains p (item ∷ items) d =
    (Holds item.0 d.name × (get_struct p d.name ≡ some d)) ⊎ Contains p items d

abbrev addresses : List Struct → List ℕ
addresses [] = []
addresses (s ∷ l) = s.addr ∷ addresses l

-- The object stands in the list.
abbrev pub IsAmong : Struct → List Struct → Type 0
IsAmong s l = Memᴰ s.addr (addresses l)

-- The structs as they are written, the last one first: each one once, and after those in it.
abbrev pub IsDefined : Aggregates → List Struct → Type 0
IsDefined p [] = Unit
IsDefined p (s ∷ earlier) =
    ((d : Struct) → Contains p s.items d → IsAmong d earlier)
    × (IsAmong s earlier → ⊥)
    × IsDefined p earlier

-- Their text.
abbrev pub lines_of : List Struct → List Text
lines_of [] = []
lines_of (s ∷ earlier) = lines_of earlier ++ definition_lines (codes "struct ") s

-- The struct that an item needs is in the program and of a smaller rank.
abbrev pub IsBelow : Aggregates → (Struct → ℕ) → ℕ → Option Text → Type 0
IsBelow p rank r none = Unit
IsBelow p rank r (some name) = (d : Struct) × (get_struct p name ≡ some d) × (rank d < r)

abbrev pub AreItemsBelow : Aggregates → (Struct → ℕ) → Struct → Type 0
AreItemsBelow p rank s =
    All (λ item. IsMade item.0 × IsBelow p rank (rank s) (needed_struct item.0)) s.items

-- The types of the program's items are made by the constructors, getStruct finds the structs that they
-- need, and no struct contains or points to an array of itself, directly or through others.
abbrev pub IsAcyclic : Aggregates → (Struct → ℕ) → Type 0
IsAcyclic p rank =
    All (AreItemsBelow p rank) p.structs × All (AreItemsBelow p rank) p.unnamed_structs

is_printed-mem : (s : Struct) (l : List Struct) → is_printed s l ≡ true → IsAmong s l
unfolding is_printed
is_printed-mem s [] h = cc
is_printed-mem s (t ∷ l) h = elim (or_cases (s.addr == t.addr) (is_printed s l) h) [
  | inl e ↦ Memᴰ.head ((==_iff s.addr t.addr).0 e)
  | inr k ↦ Memᴰ.tail (is_printed-mem s l k)
]

mem-is_printed : (s : Struct) (l : List Struct) → IsAmong s l → is_printed s l ≡ true
unfolding is_printed
mem-is_printed s [] m = absurd (Memᴰ.not-nil m)
mem-is_printed s (t ∷ l) (Memᴰ.head e) =
    or_left (s.addr == t.addr) (is_printed s l) ((==_iff s.addr t.addr).1 e)
mem-is_printed s (t ∷ l) (Memᴰ.tail m) =
    or_right (s.addr == t.addr) (is_printed s l) (mem-is_printed s l m)

-- What is written so far is in order, and is the text of what is marked as printed.
pub record IsSound (p : Aggregates) (o : Output) : Type 0 where
  pub defined : IsDefined p o.printed
  pub text : o.lines ≡ lines_of o.printed

-- A part of the writing succeeds, keeps that, and defines what satisfies `T`.
pub record Writes (p : Aggregates) (T : Struct → Type 0) (o : Output) (r : Option Output)
    : Type 0 where
  pub after : Output
  pub result : r ≡ some after
  pub sound : IsSound p after
  pub kept : (d : Struct) → IsAmong d o.printed → IsAmong d after.printed
  pub reached : (d : Struct) → T d → IsAmong d after.printed

pub Writes-bind :
    (p : Aggregates) (T U V : Struct → Type 0) (o : Output) (r : Option Output)
    (f : Output → Option Output)
    → Writes p T o r
    → ((t : Output) → IsSound p t → ((d : Struct) → T d → IsAmong d t.printed) → Writes p U t (f t))
    → ((d : Struct) → V d → T d ⊎ U d)
    → Writes p V o (r >>= f)
Writes-bind p T U V o r f first second split =
    let next = second first.after first.sound first.reached in
    record {
      after = next.after;
      result = rw first.result next.result;
      sound = next.sound;
      kept = λ d m. next.kept d (first.kept d m);
      reached = λ d v. elim (split d v) [
        | inl t ↦ next.kept d (first.reached d t)
        | inr u ↦ next.reached d u
      ];
    }

-- structDefinition's last part.
pub write_struct-Writes :
    (p : Aggregates) (s : Struct) (o : Output)
    → IsSound p o
    → ((d : Struct) → Contains p s.items d → IsAmong d o.printed)
    → Writes p (λ d. d ≡ s) o (some (write_struct s o))
unfolding write_struct
write_struct-Writes p s o sound before = elim (Bool-cases (is_printed s o.printed)) [
  | inl e ↦ rw e (record {
    after = o;
    result = refl;
    sound = sound;
    kept = λ d m. m;
    reached = λ d same. subst (λ x. IsAmong x o.printed) (sym same) (is_printed-mem s o.printed e);
  })
  | inr e ↦ rw e (record {
    after = record {
      printed = s ∷ o.printed;
      lines = o.lines ++ definition_lines (codes "struct ") s;
    };
    result = refl;
    sound = record {
      defined = (before, λ m. cc (mem-is_printed s o.printed m), sound.defined);
      text = ap (λ l. l ++ definition_lines (codes "struct ") s) sound.text;
    };
    kept = λ d m. Memᴰ.tail m;
    reached = λ d same. Memᴰ.head (ap (λ x. x.addr) same);
  })
]

pub get_struct-All :
    (p : Aggregates) (P : Struct → Type 0) (name : Text) (d : Struct)
    → All P p.structs
    → All P p.unnamed_structs
    → get_struct p name ≡ some d
    → P d
unfolding get_struct
get_struct-All p P name d h k e =
    find p.structs (find_struct name p.unnamed_structs none) h
      (λ e'. find p.unnamed_structs none k (λ e''. cc) e') e
  where
    find :
        (l : List Struct) (next : Option Struct)
        → All P l
        → (next ≡ some d → P d)
        → find_struct name l next ≡ some d
        → P d
    find [] next h k e = k e
    find (s ∷ l) next h k e = elim (Bool-cases (text_eq s.name name)) [
      | inl same ↦ subst P (some_injective s d (rw same at e)) h.0
      | inr other ↦ find l next h.1 k (rw other at e)
    ]
