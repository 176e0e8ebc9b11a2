-- ===== src/Structs/Cycles.antt =====
-- structDefinition looks into pointers to arrays too, which C lets a struct have to itself.
use llvm2c.Prelude.{
  ℕ, zero, suc, Option, none, some, ◌>>=◌, List, [], ◌∷◌, Text, ◌≡◌, refl, sym, ap,
}
use mathlib.Core.List.{Memᴰ}
use mathlib.Core.List.Memᴰ
use llvm2c.Types.{CType, struct_of, make_pointer, make_array}
use llvm2c.Structs.{
  Struct, Aggregates, get_struct, Output, needed_struct, define_needed, define_items,
  struct_definition, define_each, struct_definitions,
}

none-bind {ℓ κ} :
    {A : Type ℓ} {B : Type κ} (r : Option A) (f : A → Option B)
    → ((a : A) → f a ≡ none)
    → (r >>= f) ≡ none
none-bind none f h = refl
none-bind (some a) f h = h a

-- A pointer to an array of a struct.
abbrev array_pointer : ℕ → ℕ → ℕ → ℕ → Text → CType
array_pointer a b c size name = make_pointer a (make_array b (struct_of c name) size)

needed_struct-array_pointer :
    (a b c size : ℕ) (name : Text) → needed_struct (array_pointer a b c size name) ≡ some name
unfolding needed_struct make_pointer make_array
needed_struct-array_pointer a b c size name = refl

module _ (p : Aggregates) (s : Struct) (found : get_struct p s.name ≡ some s) (a b c size : ℕ)
    (item : Text)
    (among : Memᴰ (make_pointer a (make_array b (struct_of c s.name) size), item) s.items) where
  define_items-none :
      (define : Struct → Output → Option Output)
      → ((o : Output) → define s o ≡ none)
      → (items : List (CType × Text)) (o : Output)
      → Memᴰ (array_pointer a b c size s.name, item) items
      → define_items p define items o ≡ none
  unfolding define_items define_needed
  define_items-none define h [] o m = absurd (Memᴰ.not-nil m)
  define_items-none define h ((ty, n) ∷ items) o (Memᴰ.head e) =
      rw (sym (ap (λ i. i.0) e), needed_struct-array_pointer a b c size s.name, found, h o) refl
  define_items-none define h ((ty, n) ∷ items) o (Memᴰ.tail m) =
      none-bind (define_needed p define (needed_struct ty) o) (define_items p define items)
        λ t. define_items-none define h items t m

  struct_definition-none : (fuel : ℕ) (o : Output) → struct_definition p fuel s o ≡ none
  unfolding struct_definition
  struct_definition-none zero o = refl
  struct_definition-none (suc fuel) o =
      rw
        (define_items-none (struct_definition p fuel) (struct_definition-none fuel) s.items o among)
        refl

  define_each-none :
      (fuel : ℕ) (l : List Struct) (o : Output) → Memᴰ s l → define_each p fuel l o ≡ none
  unfolding define_each
  define_each-none fuel [] o m = absurd (Memᴰ.not-nil m)
  define_each-none fuel (t ∷ l) o (Memᴰ.head e) = rw (sym e, struct_definition-none fuel o) refl
  define_each-none fuel (t ∷ l) o (Memᴰ.tail m) =
      none-bind (struct_definition p fuel t o) (define_each p fuel l)
        λ u. define_each-none fuel l u m

  -- Where a struct of the program that getStruct finds by its name has an item that is a pointer to an
  -- array of the struct itself, which C allows, no fuel is enough: structDefinition calls itself on
  -- the struct before it looks whether the struct is printed, and structDefinitions does not end.
  pub struct_definitions_endless : Memᴰ s p.structs → (fuel : ℕ) → struct_definitions p fuel ≡ none
  unfolding struct_definitions
  struct_definitions_endless m fuel =
      rw (define_each-none fuel p.structs (record { printed = []; lines = [] }) m) refl
