-- ===== src/Types/Declarators.antt =====
-- What a printed declaration looks like, for whole families of types: arrays of any dimension,
-- pointers of any level, and pointers to arrays.
use llvm2c.Prelude.{
  ℕ, zero, suc, ◌≢◌, ◌≡◌, refl, ap, true, false, List, [], ◌∷◌, ◌++◌, Option, none, some,
  append_assoc, append-nil, Text, codes, text_eq, text_eq_iff, to_decimal, Bool-cases, inl, inr,
  arith, sym, ◌∙◌, length, ◌<◌, ◌^◌, ◌%◌,
}
use llvm2c.Types.{
  CType, function_pointer, pointer, array, integer, floating, make_pointer, pointer_fields,
  make_array, array_fields, PointerFields, ArrayFields,
}
use llvm2c.Types.Kinds.{is_function_pointer_type}
use llvm2c.Types.Print.{
  stars, to_string, size_to_string, dimension, surround_name, surround_array, surround_pointer,
  declare,
}

-- The element type of an array: no array, and no pointer to an array.
abbrev pub IsElement : CType → Type 0
IsElement (array _ _ _ _) = ⊥
IsElement (pointer _ _ f) = f.is_array_pointer ≡ false
IsElement _ = Unit

-- `e name[d1][d2]...`, built from the inside as TypeHandler does; each object has its address.
abbrev pub array_over : CType → List (ℕ × ℕ) → CType
array_over e [] = e
array_over e ((addr, size) ∷ dims) = make_array addr (array_over e dims) size

abbrev pub brackets : List (ℕ × ℕ) → Text
brackets [] = []
brackets ((_, size) ∷ dims) = codes "[" ++ (to_decimal size ++ (codes "]" ++ brackets dims))

-- The sizes fit into an `unsigned int`.
abbrev pub SizesFit : List (ℕ × ℕ) → Type 0
SizesFit [] = Unit
SizesFit ((_, size) ∷ dims) = (size < 2 ^ 32) × SizesFit dims

size_kept : (size : ℕ) → size < 2 ^ 32 → size % 2 ^ 32 ≡ size
size_kept size h = ground arith

-- `e *...*name`
abbrev pub pointer_over : CType → List ℕ → CType
pointer_over e [] = e
pointer_over e (addr ∷ addrs) = make_pointer addr (pointer_over e addrs)

-- Not an array, a function pointer or a pointer.
abbrev pub IsBase : CType → Type 0
IsBase (array _ _ _ _) = ⊥
IsBase (function_pointer _ _ _ _) = ⊥
IsBase (pointer _ _ _) = ⊥
IsBase _ = Unit

to_string-array_over :
    (e : CType) (dims : List (ℕ × ℕ)) → to_string (array_over e dims) ≡ to_string e
unfolding make_array to_string
to_string-array_over e [] = refl
to_string-array_over e ((_, _) ∷ dims) = to_string-array_over e dims

size_to_string-element : (e : CType) → IsElement e → size_to_string e ≡ []
unfolding size_to_string
size_to_string-element (array _ _ _ _) h = absurd h
size_to_string-element _ h = refl

array_fields-dyn_size : (t : CType) (dyn : Option Text) → (array_fields t dyn).dyn_size ≡ dyn
unfolding array_fields
array_fields-dyn_size (array _ _ _ _) dyn = refl
array_fields-dyn_size _ dyn = refl

dimension-none : (size : ℕ) → dimension size none ≡ to_decimal size
unfolding dimension to_decimal
dimension-none zero = refl
dimension-none (suc n) = refl

size_to_string-array_over :
    (e : CType) (dims : List (ℕ × ℕ))
    → IsElement e
    → SizesFit dims
    → size_to_string (array_over e dims) ≡ brackets dims
unfolding make_array size_to_string
size_to_string-array_over e [] h fit = size_to_string-element e h
size_to_string-array_over e ((_, size) ∷ dims) h (fit, fits) = simp (
  array_fields-dyn_size,
  dimension-none,
  size_kept size fit,
  size_to_string-array_over e dims h fits,
)

-- The elements are no pointers to arrays.
abbrev pub HasPlainPointer : Option PointerFields → Type 0
HasPlainPointer none = Unit
HasPlainPointer (some p) = p.is_array_pointer ≡ false

array_over-HasPlainPointer :
    (e : CType) (dims : List (ℕ × ℕ))
    → IsElement e
    → HasPlainPointer (array_fields (array_over e dims) none).pointer
unfolding make_array array_fields
array_over-HasPlainPointer (array _ _ _ _) [] h = absurd h
array_over-HasPlainPointer (pointer _ _ f) [] h = h
array_over-HasPlainPointer _ [] h = tt
array_over-HasPlainPointer e ((_, _) ∷ dims) h = array_over-HasPlainPointer e dims h

surround_array-plain :
    (t : CType) (f : ArrayFields) (name : Text)
    → HasPlainPointer f.pointer
    → surround_array t f name ≡ name ++ size_to_string t
unfolding surround_array
surround_array-plain t f name h = ground arith

surround_name-array_over :
    (e : CType) (addr size : ℕ) (dims : List (ℕ × ℕ)) (name : Text)
    → IsElement e
    → SizesFit ((addr, size) ∷ dims)
    → surround_name (array_over e ((addr, size) ∷ dims)) name
      ≡ name ++ brackets ((addr, size) ∷ dims)
unfolding make_array surround_name
surround_name-array_over e addr size dims name h fit =
    surround_array-plain _ (array_fields (array_over e dims) none) name
      (array_over-HasPlainPointer e dims h)
    ∙ ap (name ++◌) (size_to_string-array_over e ((addr, size) ∷ dims) h fit)

-- An array of any dimensions, each below 2^32, over an element type that is neither an array nor a
-- pointer to one is declared as C wants it: the element type's text, the name, and every dimension in brackets,
-- the outermost first.
pub declare-array_over :
    (e : CType) (addr size : ℕ) (dims : List (ℕ × ℕ)) (name : Text)
    → IsElement e
    → SizesFit ((addr, size) ∷ dims)
    → declare (array_over e ((addr, size) ∷ dims)) name
      ≡ to_string e ++ (codes " " ++ ((name ++ brackets ((addr, size) ∷ dims)) ++ codes ";"))
unfolding declare
declare-array_over e addr size dims name h fit = simp (
  to_string-array_over e ((addr, size) ∷ dims),
  surround_name-array_over e addr size dims name h fit,
)

-- Pointers of any level over a base type.
pointer_over-fields :
    (e : CType) (addrs : List ℕ)
    → IsBase e
    → ((pointer_fields (pointer_over e addrs)).levels ≡ suc (length addrs))
      × ((pointer_fields (pointer_over e addrs)).is_array_pointer ≡ false)
unfolding make_pointer pointer_fields
pointer_over-fields (array _ _ _ _) [] h = absurd h
pointer_over-fields (pointer _ _ _) [] h = absurd h
pointer_over-fields _ [] h = (refl, refl)
pointer_over-fields e (addr ∷ addrs) h =
    (omega (arith, (pointer_over-fields e addrs h).0), (pointer_over-fields e addrs h).1)

stars-suc : (n : ℕ) → stars n ++ codes "*" ≡ stars (suc n)
unfolding stars
stars-suc zero = refl
stars-suc (suc n) = ap (codes "*" ++◌) (stars-suc n)

pointer_over-not_function :
    (e : CType) (addrs : List ℕ)
    → IsBase e
    → is_function_pointer_type (pointer_over e addrs) ≡ false
unfolding make_pointer is_function_pointer_type
pointer_over-not_function (array _ _ _ _) [] h = absurd h
pointer_over-not_function (function_pointer _ _ _ _) [] h = absurd h
pointer_over-not_function (integer _ _ _) [] h = ground arith
pointer_over-not_function (floating _ _) [] h = ground arith
pointer_over-not_function _ [] h = refl
pointer_over-not_function e (_ ∷ _) h = refl

to_string-pointer_over :
    (e : CType) (addrs : List ℕ)
    → IsBase e
    → to_string (pointer_over e addrs) ≡ to_string e ++ stars (length addrs)
unfolding make_pointer to_string stars
to_string-pointer_over e [] h = sym (append-nil _)
to_string-pointer_over e (addr ∷ addrs) h = simp (
  (pointer_over-fields e addrs h).1,
  pointer_over-not_function e addrs h,
  to_string-pointer_over e addrs h,
  append_assoc,
  stars-suc,
)

-- A pointer of any level over a base type is declared by the base type's text, as many stars as
-- it has levels, and the bare name; and its `levels` field counts them.
pub declare-pointer_over :
    (e : CType) (addr : ℕ) (addrs : List ℕ) (name : Text)
    → IsBase e
    → (declare (pointer_over e (addr ∷ addrs)) name
        ≡ (to_string e ++ stars (suc (length addrs))) ++ (codes " " ++ (name ++ codes ";")))
      × ((pointer_fields (pointer_over e addrs)).levels ≡ suc (length addrs))
unfolding declare surround_name surround_pointer
declare-pointer_over e addr addrs name h = (
  simp (to_string-pointer_over e (addr ∷ addrs) h, surrounded),
  (pointer_over-fields e addrs h).0,
)
  where
    surrounded : surround_name (pointer_over e (addr ∷ addrs)) name ≡ name
    surrounded = unfold make_pointer in rw ((pointer_over-fields e addrs h).1, surround_pointer)

-- Pointers of any level over an array.
array_pointer-fields :
    (e : CType) (aaddr size : ℕ) (dims : List (ℕ × ℕ)) (addrs : List ℕ)
    → let f = pointer_fields (pointer_over (array_over e ((aaddr, size) ∷ dims)) addrs) in
      (f.levels ≡ suc (length addrs)) × (f.is_array_pointer ≡ true)
unfolding make_pointer make_array pointer_fields
array_pointer-fields e aaddr size dims [] = (refl, refl)
array_pointer-fields e aaddr size dims (addr ∷ addrs) =
    let (n, t) = array_pointer-fields e aaddr size dims addrs in (omega (arith, n), t)

to_string-array_pointer :
    (e : CType) (aaddr size : ℕ) (dims : List (ℕ × ℕ)) (addrs : List ℕ)
    → to_string (pointer_over (array_over e ((aaddr, size) ∷ dims)) addrs) ≡ to_string e
unfolding make_pointer make_array to_string
to_string-array_pointer e aaddr size dims [] = to_string-array_over e dims
to_string-array_pointer e aaddr size dims (addr ∷ addrs) = simp (
  (array_pointer-fields e aaddr size dims addrs).1,
  to_string-array_pointer e aaddr size dims addrs,
)

-- The dimensions that surroundName prints behind the parenthesis: those of the array for a pointer
-- of level one, none for a higher level.
abbrev pub printed_dimensions : List (ℕ × ℕ) → List ℕ → Text
printed_dimensions dims [] = brackets dims
printed_dimensions dims (_ ∷ _) = []

size_to_string-array_pointer :
    (e : CType) (aaddr size : ℕ) (dims : List (ℕ × ℕ)) (addrs : List ℕ)
    → IsElement e
    → SizesFit ((aaddr, size) ∷ dims)
    → size_to_string (pointer_over (array_over e ((aaddr, size) ∷ dims)) addrs)
      ≡ printed_dimensions ((aaddr, size) ∷ dims) addrs
unfolding make_pointer size_to_string
size_to_string-array_pointer e aaddr size dims [] h fit =
    size_to_string-array_over e ((aaddr, size) ∷ dims) h fit
size_to_string-array_pointer e aaddr size dims (_ ∷ addrs) h fit = refl

text_eq-ne : (xs ys : Text) → xs ≢ ys → text_eq xs ys ≡ false
text_eq-ne xs ys h = elim (Bool-cases (text_eq xs ys)) [
  | inl e ↦ absurd (h ((text_eq_iff xs ys).0 e))
  | inr e ↦ e
]

surround_pointer-array :
    (t : CType) (f : PointerFields) (name : Text)
    → f.is_array_pointer ≡ true
    → name ≢ codes "0"
    → surround_pointer t f name
      ≡ codes "(" ++ ((stars f.levels ++ (name ++ codes ")")) ++ size_to_string t)
unfolding surround_pointer
surround_pointer-array t f name h named = rw (h, text_eq-ne name (codes "0") named)

-- A pointer of any level to an array, whose sizes are below 2^32, is declared with all its stars and the name in parentheses.
-- Only at level one do the array's dimensions follow: a pointer to a pointer to an array is
-- declared without them, whatever they are.
pub declare-array_pointer :
    (e : CType) (aaddr size : ℕ) (dims : List (ℕ × ℕ)) (addr : ℕ) (addrs : List ℕ) (name : Text)
    → IsElement e
    → SizesFit ((aaddr, size) ∷ dims)
    → name ≢ codes "0"
    → declare (pointer_over (array_over e ((aaddr, size) ∷ dims)) (addr ∷ addrs)) name
      ≡ to_string e
        ++ (codes " ("
            ++ ((stars (suc (length addrs)) ++ (name ++ codes ")"))
                ++ (printed_dimensions ((aaddr, size) ∷ dims) addrs ++ codes ";")))
unfolding declare surround_name make_pointer
declare-array_pointer e aaddr size dims addr addrs name h fit named =
    let inner = pointer_over (array_over e ((aaddr, size) ∷ dims)) addrs in
    let (n, t) = array_pointer-fields e aaddr size dims addrs in
    simp (
      to_string-array_pointer e aaddr size dims (addr ∷ addrs),
      surround_pointer-array inner (pointer_fields inner) name t named,
      n,
      size_to_string-array_pointer e aaddr size dims addrs h fit,
      append_assoc,
    )
