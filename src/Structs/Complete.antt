-- ===== src/Structs/Complete.antt =====
-- structDefinitions ends, and writes all structs of the program in that order.
use llvm2c.Prelude.{
  ℕ, zero, suc, Option, none, some, List, [], ◌∷◌, Text, All, ◌≡◌, refl, sym, ap, ◌∙◌, ◌<◌, inl,
  inr, ◌⊎◌, arith, some_injective,
}
use mathlib.Core.List.{Memᴰ}
use mathlib.Core.List.Memᴰ
use llvm2c.Types.{CType}
use llvm2c.Structs.{
  Struct, Aggregates, get_struct, Output, needed_struct, write_struct, define_needed, define_items,
  struct_definition, define_each, struct_definitions,
}
use llvm2c.Structs.Order.{
  Holds, IsMade, Contains, IsAmong, IsDefined, lines_of, IsBelow, AreItemsBelow, IsAcyclic, IsSound,
  Writes, needed_struct-Holds, Writes-bind, write_struct-Writes, get_struct-All,
}

module _ (p : Aggregates) (rank : Struct → ℕ) (acyclic : IsAcyclic p rank) where
  module _ (r : ℕ) (define : Struct → Output → Option Output)
      (defines : (d : Struct) (o : Output)
        → rank d < r
        → AreItemsBelow p rank d
        → IsSound p o
        → Writes p (λ x. x ≡ d) o (define d o)) where
    define_needed-Writes :
        (ty : CType) (n : Option Text) (o : Output)
        → needed_struct ty ≡ n
        → IsMade ty
        → IsBelow p rank r n
        → IsSound p o
        → Writes p
            (λ d. Holds ty d.name × (get_struct p d.name ≡ some d))
            o
            (define_needed p define n o)
    unfolding define_needed
    define_needed-Writes ty none o e made below sound = record {
      after = o;
      result = refl;
      sound = sound;
      kept = λ d m. m;
      reached = λ d h. cc (needed_struct-Holds ty d.name made h.0);
    }
    define_needed-Writes ty (some name) o e made (s, found, lt) sound =
        let w =
          defines s o lt (get_struct-All p (AreItemsBelow p rank) name s acyclic.0 acyclic.1 found)
            sound in
        record {
          after = w.after;
          result = rw found w.result;
          sound = w.sound;
          kept = w.kept;
          reached = λ d h. w.reached d (same d (needed_struct-Holds ty d.name made h.0) h.1);
        }
      where
        same : (d : Struct) → needed_struct ty ≡ some d.name → get_struct p d.name ≡ some d → d ≡ s
        same d k g =
            some_injective d s
              (sym g ∙ (ap (get_struct p) (some_injective d.name name (sym k ∙ e)) ∙ found))

    define_items-Writes :
        (items : List (CType × Text)) (o : Output)
        → All (λ item. IsMade item.0 × IsBelow p rank r (needed_struct item.0)) items
        → IsSound p o
        → Writes p (λ d. Contains p items d) o (define_items p define items o)
    unfolding define_items
    define_items-Writes [] o h sound = record {
      after = o;
      result = refl;
      sound = sound;
      kept = λ d m. m;
      reached = λ d n. absurd n;
    }
    define_items-Writes ((ty, name) ∷ items) o (here, further) sound =
        Writes-bind p (λ d. Holds ty d.name × (get_struct p d.name ≡ some d))
          (λ d. Contains p items d) (λ d. Contains p ((ty, name) ∷ items) d) o
          (define_needed p define (needed_struct ty) o) (define_items p define items)
          (define_needed-Writes ty (needed_struct ty) o refl here.0 here.1 sound)
          (λ t sound' _. define_items-Writes items t further sound') (λ d m. m)

  struct_definition-Writes :
      (fuel : ℕ) (s : Struct) (o : Output)
      → rank s < fuel
      → AreItemsBelow p rank s
      → IsSound p o
      → Writes p (λ d. d ≡ s) o (struct_definition p fuel s o)
  unfolding struct_definition
  struct_definition-Writes zero s o lt below sound = elim lt [ ]
  struct_definition-Writes (suc fuel) s o lt below sound =
      Writes-bind p (λ d. Contains p s.items d) (λ d. d ≡ s) (λ d. d ≡ s) o
        (define_items p (struct_definition p fuel) s.items o) (λ after. some (write_struct s after))
        (define_items-Writes (rank s) (struct_definition p fuel)
          (λ d t lt' below' sound'.
            struct_definition-Writes fuel d t (smaller lt' lt) below' sound')
          s.items o below sound)
        (λ t sound' before. write_struct-Writes p s t sound' before) (λ d e. inr e)
    where
      smaller : {a b c : ℕ} → a < b → b < suc c → a < c
      smaller h k = omega arith

  define_each-Writes :
      (fuel : ℕ) (l : List Struct) (o : Output)
      → All (λ s. rank s < fuel) l
      → All (AreItemsBelow p rank) l
      → IsSound p o
      → Writes p (λ d. Memᴰ d l) o (define_each p fuel l o)
  unfolding define_each
  define_each-Writes fuel [] o lt below sound = record {
    after = o;
    result = refl;
    sound = sound;
    kept = λ d m. m;
    reached = λ d m. absurd (Memᴰ.not-nil m);
  }
  define_each-Writes fuel (s ∷ l) o lt below sound =
      Writes-bind p (λ d. d ≡ s) (λ d. Memᴰ d l) (λ d. Memᴰ d (s ∷ l)) o
        (struct_definition p fuel s o) (define_each p fuel l)
        (struct_definition-Writes fuel s o lt.0 below.0 sound)
        (λ t sound' _. define_each-Writes fuel l t lt.1 below.1 sound')
        (λ d m. elim (Memᴰ.cases_cons m) [ inl e ↦ inl e | inr n ↦ inr n ])

  -- For a program in which the arrays know the structs in them, as the constructors of ArrayType make
  -- them, getStruct finds every struct that an item needs, and no struct contains, or points to an
  -- array of, itself, directly or through others: with more fuel than the ranks that show this,
  -- structDefinitions writes the text of an order of structs in which each struct of the program
  -- stands, no struct stands twice, and each stands after all structs that its items hold by value,
  -- also in arrays of arrays.
  pub struct_definitions_complete :
      (fuel : ℕ)
      → All (λ s. rank s < fuel) p.structs
      → All (λ s. rank s < fuel) p.unnamed_structs
      → (o : Output) × (struct_definitions p fuel ≡ some o)
        × (o.lines ≡ lines_of o.printed)
        × IsDefined p o.printed
        × ((s : Struct) → Memᴰ s p.structs ⊎ Memᴰ s p.unnamed_structs → IsAmong s o.printed)
  unfolding struct_definitions
  struct_definitions_complete fuel named unnamed =
      let start : Output = record { printed = []; lines = [] } in
      let w =
        Writes-bind p (λ d. Memᴰ d p.structs) (λ d. Memᴰ d p.unnamed_structs)
          (λ d. Memᴰ d p.structs ⊎ Memᴰ d p.unnamed_structs) start
          (define_each p fuel p.structs start) (define_each p fuel p.unnamed_structs)
          (define_each-Writes fuel p.structs start named acyclic.0
            (record { defined = tt; text = refl }))
          (λ t sound _. define_each-Writes fuel p.unnamed_structs t unnamed acyclic.1 sound)
          (λ d m. m) in
      (w.after, w.result, w.sound.text, w.sound.defined, w.reached)
