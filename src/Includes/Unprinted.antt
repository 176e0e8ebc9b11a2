-- ===== src/Includes/Unprinted.antt =====
-- The functions that the writer does not print, and the tables that have their names.
use llvm2c.Prelude.{
  ℕ, zero, suc, Bool, true, false, not, ◌&&◌, ◌||◌, if◌then◌else◌, ◌≡◌, refl, sym, ap, subst, ◌∙◌,
  ◌⊎◌, inl, inr, List, [], ◌∷◌, Text, codes, text_eq, text_eq_iff, ◌==◌,
}
use llvm2c.TypeHandler.{substr, replace_dots}
use llvm2c.CFunctions.{
  member, c_functions, c_math, stdlib_functions, string_functions, stdio_functions,
  pthread_functions, is_c_func, is_stdlib_func, is_string_func, is_stdio_func, is_pthread_func,
  is_c_math,
}
use llvm2c.Includes.{is_va_name, is_function_printed}

-- The headers but stdarg.h, whose names the code has tables for.
pub data Header : Type 0 where
  stdlib string stdio pthread math : Header

abbrev pub header_name : Header → Text
header_name stdlib = codes "stdlib.h"
header_name string = codes "string.h"
header_name stdio = codes "stdio.h"
header_name pthread = codes "pthread.h"
header_name math = codes "math.h"

-- The table of the header's functions has the name.
abbrev pub lists : Header → Text → Bool
lists stdlib name = is_stdlib_func name
lists string name = is_string_func name
lists stdio name = is_stdio_func name
lists pthread name = is_pthread_func name
lists math name = is_c_math name

-- Tables, and names that begin with "llvm".
abbrev every : (Text → Bool) → List Text → Bool
every p [] = true
every p (x ∷ xs) = p x && every p xs

and_both : (a b : Bool) → (a && b) ≡ true → (a ≡ true) × (b ≡ true)
and_both true b h = (refl, h)
and_both false b h = cc

or_elim {ℓ} : {R : Type ℓ} (a b : Bool) → (a || b) ≡ true → (a ≡ true → R) → (b ≡ true → R) → R
or_elim true b h f g = f refl
or_elim false b h f g = g h

every-member :
    (p : Text → Bool) (x : Text) (xs : List Text)
    → every p xs ≡ true
    → member x xs ≡ true
    → p x ≡ true
unfolding member
every-member p x [] e h = cc
every-member p x (y ∷ xs) e h =
    let (here, further) = and_both (p y) (every p xs) e in
    or_elim (text_eq x y) (member x xs) h
      (λ same. subst (λ z. p z ≡ true) (sym ((text_eq_iff x y).0 same)) here)
      (every-member p x xs further)

abbrev pub is_llvm_name : Text → Bool
is_llvm_name name = text_eq (substr 4 name) (codes "llvm")

substr-replace_dots : (n : ℕ) (s : Text) → substr n (replace_dots s) ≡ replace_dots (substr n s)
unfolding replace_dots
substr-replace_dots zero s = refl
substr-replace_dots (suc n) [] = refl
substr-replace_dots (suc n) (c ∷ s) =
    ap (λ l. (if c == b'.' then b'_' else c) ∷ l) (substr-replace_dots n s)

pub is_llvm_name-replace_dots :
    (s : Text) → is_llvm_name s ≡ true → is_llvm_name (replace_dots s) ≡ true
unfolding replace_dots text_eq
is_llvm_name-replace_dots s h =
    rw (substr-replace_dots 4 s, (text_eq_iff (substr 4 s) (codes "llvm")).0 h) refl

pub true_ne_false : true ≡ false → ⊥
true_ne_false h = cc

not_true : (b : Bool) → (b ≡ true → ⊥) → b ≡ false
not_true true h = absurd (h refl)
not_true false h = refl

member-llvm_name :
    (xs : List Text) (x : Text)
    → every (λ y. not (is_llvm_name y)) xs ≡ true
    → is_llvm_name x ≡ true
    → member x xs ≡ false
member-llvm_name xs x e h =
    not_true (member x xs)
      λ m. clash (is_llvm_name x) h (every-member (λ y. not (is_llvm_name y)) x xs e m)
  where
    clash : (b : Bool) → b ≡ true → not b ≡ true → ⊥
    clash true h k = cc
    clash false h k = cc

no_va_name : (name : Text) → is_llvm_name name ≡ true → is_va_name name ≡ false
unfolding is_va_name text_eq
no_va_name name h =
    rw (other (codes "va_start") refl, other (codes "va_end") refl, other (codes "va_copy") refl)
      refl
  where
    other : (y : Text) → is_llvm_name y ≡ false → text_eq name y ≡ false
    other y e = not_true (text_eq name y) λ same. clash y e ((text_eq_iff name y).0 same)
      where
        clash : (y : Text) → is_llvm_name y ≡ false → name ≡ y → ⊥
        clash y e same = true_ne_false (sym h ∙ (ap is_llvm_name same ∙ e))

-- A name that begins with "llvm" is printed.
pub llvm_name_printed :
    (name : Text) (params : ℕ)
    → is_llvm_name name ≡ true
    → is_function_printed true name params ≡ true
unfolding is_function_printed is_c_func is_c_math is_stdlib_func is_string_func is_stdio_func
    is_pthread_func c_functions c_math stdlib_functions string_functions stdio_functions
    pthread_functions text_eq
llvm_name_printed name params h =
    rw
      (
        member-llvm_name c_functions name refl h,
        member-llvm_name c_math name refl h,
        member-llvm_name stdlib_functions name refl h,
        member-llvm_name string_functions name refl h,
        member-llvm_name stdio_functions name refl h,
        member-llvm_name pthread_functions name refl h,
        no_va_name name h,
      )
      refl

-- A function of C's own, which the writer does not print, has a name of stdarg.h or is declared.
abbrev pub IsListed : Text → Type 0
IsListed name = (is_va_name name ≡ true) ⊎ ((h : Header) × (lists h name ≡ true))

abbrev c_or_listed : Text → Bool
c_or_listed name = is_va_name name || (is_string_func name || is_c_math name)

if_false : (b c : Bool) → (if b then false else c) ≡ false → (b || not c) ≡ true
if_false true c h = refl
if_false false true h = cc
if_false false false h = refl

double_negation : (b : Bool) → not (not b) ≡ true → b ≡ true
double_negation true h = refl
double_negation false h = cc

pub unprinted-IsListed :
    (name : Text) (params : ℕ) → is_function_printed true name params ≡ false → IsListed name
unfolding is_function_printed is_c_func
unprinted-IsListed name params h =
    or_elim _ _ (if_false _ _ h)
      (λ c_name.
        or_elim (is_c_func name) _ c_name
          (λ c.
            let known : c_or_listed name ≡ true =
              every-member c_or_listed name c_functions all_known c in
            or_elim (is_va_name name) _ known inl
              (λ k. or_elim (is_string_func name) _ k (λ e. inr (string, e)) (λ e. inr (math, e))))
          (λ other. or_elim (is_va_name name) _ other inl (λ e. inr (math, e))))
      (λ library.
        or_elim (is_stdlib_func name) _ (double_negation _ library) (λ e. inr (stdlib, e))
          (λ l.
            or_elim (is_string_func name) _ l (λ e. inr (string, e))
              (λ l.
                or_elim (is_stdio_func name) _ l (λ e. inr (stdio, e)) (λ e. inr (pthread, e)))))
  where
    all_known : every c_or_listed c_functions ≡ true
    all_known = refl
