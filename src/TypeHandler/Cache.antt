-- ===== src/TypeHandler/Cache.antt =====
-- The pointer cache of TypeHandler, the types chosen for LLVM's integer widths, and the names given
-- to structs and unions.
use llvm2c.Prelude.{
  ℕ, ◌+◌, ◌≤◌, ◌<◌, true, false, ◌≡◌, ◌≢◌, refl, sym, subst, some, inl, inr, ◌⊎◌, Bool-cases,
  Option-cases, arith, if◌then◌else◌, List, [], ◌∷◌, All, ◌==◌, leb,
}
use llvm2c.Types.{
  CType, integer, IntegerClass, char_type, int_type, bool_type, short_type, long_type,
  long_long_type, int128, same_type, same_type_iff, make_pointer,
}
use llvm2c.Types.Kinds.{pointed_type}
use llvm2c.TypeHandler.{
  TypeHandler, find_pointer, pointer_to_with, pointer_to, get_integer_type, uint, ushort, ulonglong,
  int128_type,
}

same_type_refl : (t : CType) → same_type t t ≡ true
same_type_refl t = (same_type_iff t t).1 refl

same_type_ne : (a b : CType) → a ≢ b → same_type a b ≡ false
same_type_ne a b h = elim (Bool-cases (same_type a b)) [
  | inl e ↦ absurd (h ((same_type_iff a b).0 e))
  | inr e ↦ e
]

-- Each entry is a pointer object to its key, at an address that was handed out before.
abbrev pub IsEntry : ℕ → CType × CType → Type 0
IsEntry bound (key, value) = (addr : ℕ) × (addr < bound) × (value ≡ make_pointer addr key)

abbrev pub IsCache : TypeHandler → Type 0
IsCache h = All (IsEntry h.next_addr) h.pointer_types

All-IsEntry_mono :
    (n : ℕ) (entries : List (CType × CType))
    → All (IsEntry n) entries
    → All (IsEntry (n + 1)) entries
All-IsEntry_mono n [] h = tt
All-IsEntry_mono n ((key, value) ∷ rest) ((addr, lt, e), h) =
    ((addr, omega arith, e), All-IsEntry_mono n rest h)

some_inj : {a b : CType} → some a ≡ some b → a ≡ b
some_inj e = cc

find_pointer-IsEntry :
    (n : ℕ) (type : CType) (entries : List (CType × CType)) (found : CType)
    → All (IsEntry n) entries
    → find_pointer type entries ≡ some found
    → IsEntry n (type, found)
unfolding find_pointer
find_pointer-IsEntry n type [] found h e = cc
find_pointer-IsEntry n type ((key, value) ∷ rest) found h e =
    elim (Bool-cases (same_type key type)) [
      | inl s ↦
          subst (λ k. IsEntry n (k, found)) ((same_type_iff key type).0 s)
            (subst (λ v. IsEntry n (key, v)) (some_inj (rw s at e)) h.0)
      | inr s ↦ find_pointer-IsEntry n type rest found h.1 (rw s at e)
    ]

pointer_to-IsCache : (type : CType) (h : TypeHandler) → IsCache h → IsCache (pointer_to type h).1
unfolding pointer_to pointer_to_with
pointer_to-IsCache type h inv = elim (Option-cases (find_pointer type h.pointer_types)) [
  | inl e ↦
      rw e ((h.next_addr, omega arith, refl), All-IsEntry_mono h.next_addr h.pointer_types inv)
  | inr (found, e) ↦ rw e inv
]

pointed_type-pointer_to :
    (type : CType) (h : TypeHandler) → IsCache h → pointed_type (pointer_to type h).0 ≡ some type
unfolding pointer_to pointer_to_with pointed_type make_pointer
pointed_type-pointer_to type h inv = elim (Option-cases (find_pointer type h.pointer_types)) [
  | inl e ↦ rw e
  | inr (found, e) ↦
      let (addr, _, p) = find_pointer-IsEntry h.next_addr type h.pointer_types found inv e in
      rw (e, p)
]

find_pointer-pointer_to :
    (type : CType) (h : TypeHandler)
    → find_pointer type (pointer_to type h).1.pointer_types ≡ some (pointer_to type h).0
unfolding pointer_to pointer_to_with find_pointer
find_pointer-pointer_to type h = elim (Option-cases (find_pointer type h.pointer_types)) [
  | inl e ↦ rw (e, same_type_refl type)
  | inr (found, e) ↦ rw e e
]

find_pointer-pointer_to_ne :
    (type other : CType) (h : TypeHandler)
    → other ≢ type
    → find_pointer other (pointer_to type h).1.pointer_types ≡ find_pointer other h.pointer_types
unfolding pointer_to pointer_to_with find_pointer
find_pointer-pointer_to_ne type other h ne =
    elim (Option-cases (find_pointer type h.pointer_types)) [
      | inl e ↦ rw (e, same_type_ne type other (λ p. ne (sym p)))
      | inr (found, e) ↦ rw e
    ]

pointer_to-found :
    (type : CType) (h : TypeHandler) {found : CType}
    → find_pointer type h.pointer_types ≡ some found
    → pointer_to type h ≡ (found, h)
unfolding pointer_to pointer_to_with
pointer_to-found type h e = rw e

-- From a cache whose entries are pointers to their keys, pointerTo returns a pointer to the type it
-- was given, keeps the entries so, and remembers it: asked again, it returns the same object and
-- changes nothing, and what it holds for other types is as before.
pub pointer_to-cached :
    (type : CType) (h : TypeHandler)
    → IsCache h
    → IsCache (pointer_to type h).1
      × (pointed_type (pointer_to type h).0 ≡ some type)
      × (pointer_to type (pointer_to type h).1 ≡ pointer_to type h)
      × ((other : CType)
          → other ≢ type
          → find_pointer other (pointer_to type h).1.pointer_types
            ≡ find_pointer other h.pointer_types)
pointer_to-cached type h inv = (
  pointer_to-IsCache type h inv,
  pointed_type-pointer_to type h inv,
  pointer_to-found type (pointer_to type h).1 (find_pointer-pointer_to type h),
  λ other ne. find_pointer-pointer_to_ne type other h ne,
)

-- The number of bits of the integer type on the target, as LLVM stores it.
abbrev pub bits : IntegerClass → ℕ
bits char_type = 8
bits int_type = 32
bits bool_type = 1
bits short_type = 16
bits long_type = 64
bits long_long_type = 64
bits int128 = 128

bits-cases :
    (c : IntegerClass)
    → (bits c ≡ 1) ⊎ (bits c ≡ 8) ⊎ (bits c ≡ 16) ⊎ (bits c ≡ 32) ⊎ (bits c ≡ 64) ⊎ (bits c ≡ 128)
bits-cases char_type = inr (inl refl)
bits-cases int_type = inr (inr (inr (inl refl)))
bits-cases bool_type = inl refl
bits-cases short_type = inr (inr (inl refl))
bits-cases long_type = inr (inr (inr (inr (inl refl))))
bits-cases long_long_type = inr (inr (inr (inr (inl refl))))
bits-cases int128 = inr (inr (inr (inr (inr refl))))

abbrev above_bytes : ℕ → CType
above_bytes width =
    if leb width 16
    then ushort
    else (if leb width 32 then uint else (if leb width 64 then ulonglong else int128_type))

above_bytes_narrowest :
    (width : ℕ)
    → 8 < width
    → width ≤ 128
    → (addr : ℕ) × (c : IntegerClass) × (above_bytes width ≡ integer addr c true)
      × (width ≤ bits c)
      × ((other : IntegerClass) → width ≤ bits other → bits c ≤ bits other)
above_bytes_narrowest width lo hi = elim (Bool-cases (leb width 16)) [
  | inl e ↦ rw e (2, short_type, refl, ground arith, λ other fits. ground (arith, bits-cases other))
  | inr n16 ↦ rw n16 (elim (Bool-cases (leb width 32)) [
    | inl e ↦ rw e (0, int_type, refl, ground arith, λ other fits. ground (arith, bits-cases other))
    | inr n32 ↦ rw n32 (elim (Bool-cases (leb width 64)) [
      | inl e ↦
          rw e
            (4, long_long_type, refl, ground arith, λ other fits. ground (arith, bits-cases other))
      | inr n64 ↦
          rw n64 (10, int128, refl, ground arith, λ other fits. ground (arith, bits-cases other))
    ])
  ])
]

-- LLVM's integer type of any width from 1 to 128 becomes an unsigned C integer type, of the
-- narrowest class with room for its bits.
pub get_integer_type_narrowest :
    (width : ℕ)
    → 1 ≤ width
    → width ≤ 128
    → (addr : ℕ) × (c : IntegerClass) × (get_integer_type width ≡ integer addr c true)
      × (width ≤ bits c)
      × ((other : IntegerClass) → width ≤ bits other → bits c ≤ bits other)
unfolding get_integer_type
get_integer_type_narrowest width lo hi = elim (Bool-cases (width == 1)) [
  | inl e ↦ rw e (15, bool_type, refl, ground arith, λ other fits. ground (arith, bits-cases other))
  | inr n1 ↦ rw n1 (elim (Bool-cases (leb width 8)) [
    | inl e ↦
        rw e (1, char_type, refl, ground arith, λ other fits. ground (arith, bits-cases other))
    | inr n8 ↦ rw n8 (above_bytes_narrowest width (ground arith) hi)
  ])
]
