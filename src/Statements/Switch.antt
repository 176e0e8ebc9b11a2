-- ===== src/Statements/Switch.antt =====
-- The switch that is made goes where LLVM's goes, as far as the values of the cases are values of `int`.
use llvm2c.Prelude.{
  ℕ, zero, suc, ==_iff, Bool, true, false, Bool-cases, if◌then◌else◌, ◌≡◌, refl, sym, ap, ◌∙◌, inl,
  inr, List, [], ◌∷◌, All, subst, arith,
}
use llvm2c.Types.{
  IntegerClass, char_type, int_type, bool_type, short_type, long_type, long_long_type, int128,
}
use llvm2c.Exprs.{Expr, Cases, no_case, case, Label, positive, negative, switch_expr}
use llvm2c.CInt.{ℤ, pos, negsuc, eq_ℤ, lt_ℤ, convert, promote}
use llvm2c.CInt.Laws.{convert-convert}
use llvm2c.FuncState.{Func}
use llvm2c.Statements.{list_of_one_goto, set_case, add_cases, to_label, to_cases, parse_switch}

-- What C's switch runs: its condition, of the integer type given, is promoted, and the labels are
-- converted to the promoted type.
abbrev pub label_value : Label → ℤ
label_value (positive n) = pos n
label_value (negative zero) = pos zero
label_value (negative (suc n)) = negsuc n

abbrev pub promoted : IntegerClass → Bool → ℤ → ℤ
promoted c u v = convert (promote c u).0 (promote c u).1 v

abbrev pub chosen_case : IntegerClass → Bool → ℤ → Expr → Cases → Expr
chosen_case c u v def no_case = def
chosen_case c u v def (case label e cases) =
    if eq_ℤ (promoted c u v) (promoted c u (label_value label))
    then e
    else chosen_case c u v def cases

-- `v` is the value of the condition in C.
abbrev pub run_switch : IntegerClass → Bool → ℤ → Expr → Expr
run_switch c u v (switch_expr cmp def cases) = chosen_case c u v def cases
run_switch c u v e = e

-- The block that LLVM's switch goes to, in front of the default; no two of its cases have one value,
-- so it is no matter that the last one is taken here.
abbrev pub target : ℤ → ℕ → List (ℤ × ℕ) → ℕ
target v def [] = def
target v def ((value, successor) ∷ rest) = target v (if eq_ℤ v value then successor else def) rest

-- The case's value is a value of `int`, and of the signed type of the condition's class.
abbrev pub Fits : IntegerClass → ℤ × ℕ → Type 0
Fits c (value, successor) = (convert int_type false value ≡ value) × (convert c false value ≡ value)

-- No narrower than `int`.
abbrev pub is_wide : IntegerClass → Bool
is_wide int_type = true
is_wide long_type = true
is_wide long_long_type = true
is_wide int128 = true
is_wide c = false

eq_ℤ→eq : (a b : ℤ) → eq_ℤ a b ≡ true → a ≡ b
eq_ℤ→eq (pos a) (pos b) h = ap pos ((==_iff a b).0 h)
eq_ℤ→eq (negsuc a) (negsuc b) h = ap negsuc ((==_iff a b).0 h)
eq_ℤ→eq (pos a) (negsuc b) h = cc
eq_ℤ→eq (negsuc a) (pos b) h = cc

label_value-to_label : (v : ℤ) → label_value (to_label v) ≡ v
unfolding to_label
label_value-to_label (pos n) = refl
label_value-to_label (negsuc n) = refl

abbrev find_case : ℤ → Expr → List (ℤ × Expr) → Expr
find_case v def [] = def
find_case v def ((label, e) ∷ rest) = if eq_ℤ v label then e else find_case v def rest

-- A signed value can be read back from the unsigned one.
signed-convert :
    (c : IntegerClass) (u : Bool) (v : ℤ)
    → is_wide c ≡ true
    → convert c false v ≡ v
    → convert c false (convert c u v) ≡ v
unfolding convert
signed-convert int_type true v w h = ground arith
signed-convert int_type false v w h = ground arith
signed-convert long_type true v w h = ground arith
signed-convert long_type false v w h = ground arith
signed-convert long_long_type true v w h = ground arith
signed-convert long_long_type false v w h = ground arith
signed-convert int128 true v w h = ground arith
signed-convert int128 false v w h = ground arith
signed-convert char_type u v w h = cc
signed-convert short_type u v w h = cc
signed-convert bool_type u v w h = cc

promoted-wide :
    (c : IntegerClass) (u : Bool) (v : ℤ) → is_wide c ≡ true → promoted c u v ≡ convert c u v
promoted-wide int_type u v w = refl
promoted-wide long_type u v w = refl
promoted-wide long_long_type u v w = refl
promoted-wide int128 u v w = refl
promoted-wide char_type u v w = cc
promoted-wide short_type u v w = cc
promoted-wide bool_type u v w = cc

eq_ℤ_refl : (v : ℤ) → eq_ℤ v v ≡ true
eq_ℤ_refl (pos n) = (==_iff n n).1 refl
eq_ℤ_refl (negsuc n) = (==_iff n n).1 refl

same_test : (a b : Bool) → (a ≡ true → b ≡ true) → (b ≡ true → a ≡ true) → a ≡ b
same_test true b f g = sym (f refl)
same_test false true f g = g refl
same_test false false f g = refl

-- The comparison in C has the outcome of LLVM's.
eq_promoted :
    (c : IntegerClass) (u : Bool) (v label : ℤ)
    → is_wide c ≡ true
    → convert c false v ≡ v
    → convert c false label ≡ label
    → eq_ℤ (promoted c u (convert c u v)) (promoted c u label) ≡ eq_ℤ v label
eq_promoted c u v label w hv hl =
    ap (λ x. eq_ℤ x (promoted c u label))
      (promoted-wide c u (convert c u v) w ∙ convert-convert c u v)
    ∙ (ap (eq_ℤ (convert c u v)) (promoted-wide c u label w)
        ∙ same_test (eq_ℤ (convert c u v) (convert c u label)) (eq_ℤ v label)
            (λ e.
              let same : v ≡ label =
                sym (signed-convert c u v w hv)
                ∙ (ap (convert c false) (eq_ℤ→eq (convert c u v) (convert c u label) e)
                    ∙ signed-convert c u label w hl) in
              subst (λ x. eq_ℤ v x ≡ true) same (eq_ℤ_refl v))
            (λ e.
              subst (λ x. eq_ℤ (convert c u v) (convert c u x) ≡ true) (eq_ℤ→eq v label e)
                (eq_ℤ_refl (convert c u v))))

-- Every key of the table is a value of the signed type.
abbrev KeysFit : IntegerClass → List (ℤ × Expr) → Type 0
KeysFit c table = All (λ entry. convert c false entry.0 ≡ entry.0) table

chosen_case-to_cases :
    (c : IntegerClass) (u : Bool) (v : ℤ) (def : Expr) (table : List (ℤ × Expr))
    → is_wide c ≡ true
    → convert c false v ≡ v
    → KeysFit c table
    → chosen_case c u (convert c u v) def (to_cases table) ≡ find_case v def table
unfolding to_cases
chosen_case-to_cases c u v def [] w hv fits = refl
chosen_case-to_cases c u v def ((label, e) ∷ rest) w hv (fit, fits) =
    rw
      (
        label_value-to_label label,
        eq_promoted c u v label w hv fit,
        chosen_case-to_cases c u v def rest w hv fits,
      )
      refl

KeysFit-set_case :
    (c : IntegerClass) (label : ℤ) (e : Expr) (table : List (ℤ × Expr))
    → convert c false label ≡ label
    → KeysFit c table
    → KeysFit c (set_case label e table)
unfolding set_case
KeysFit-set_case c label e [] h fits = (h, tt)
KeysFit-set_case c label e ((key, old) ∷ rest) h (fit, fits) = elim (Bool-cases (eq_ℤ label key)) [
  | inl same ↦ rw same (fit, fits)
  | inr ne ↦ elim (Bool-cases (lt_ℤ label key)) [
    | inl less ↦ rw (ne, less) (h, (fit, fits))
    | inr more ↦ rw (ne, more) (fit, KeysFit-set_case c label e rest h fits)
  ]
]

KeysFit-add_cases :
    (c : IntegerClass) (cases : List (ℤ × ℕ)) (table : List (ℤ × Expr)) (f : Func)
    → All (Fits c) cases
    → KeysFit c table
    → KeysFit c (add_cases cases table f).0
unfolding add_cases
KeysFit-add_cases c [] table f fits keys = keys
KeysFit-add_cases c ((value, successor) ∷ rest) table f (fit, fits) keys =
    KeysFit-add_cases c rest _ _ fits (
      KeysFit-set_case c (convert int_type false value) (list_of_one_goto successor) table
        (rw fit.0 fit.1) keys)

if_swap {ℓ} :
    {A : Type ℓ} (b c : Bool) (x y z : A)
    → (b ≡ true → c ≡ true → x ≡ y)
    → (if b then x else (if c then y else z)) ≡ (if c then y else (if b then x else z))
if_swap true true x y z h = h refl refl
if_swap true false x y z h = refl
if_swap false true x y z h = refl
if_swap false false x y z h = refl

both_keys : (v label key : ℤ) → eq_ℤ label key ≡ false → eq_ℤ v key ≡ true → eq_ℤ v label ≡ true → ⊥
both_keys v label key ne a b = differ (sym (eq_ℤ_refl label) ∙ (ap (eq_ℤ label) same ∙ ne))
  where
    same : label ≡ key
    same = sym (eq_ℤ→eq v label b) ∙ eq_ℤ→eq v key a

    differ : true ≡ false → ⊥
    differ h = cc

-- Setting a case changes what is found for its label, and nothing else.
find_case-set_case :
    (v : ℤ) (def : Expr) (label : ℤ) (e : Expr) (table : List (ℤ × Expr))
    → find_case v def (set_case label e table) ≡ (if eq_ℤ v label then e else find_case v def table)
unfolding set_case
find_case-set_case v def label e [] = refl
find_case-set_case v def label e ((key, old) ∷ rest) = elim (Bool-cases (eq_ℤ label key)) [
  | inl same ↦
      rw (same, eq_ℤ→eq label key same) (replaced (eq_ℤ v key) e old (find_case v def rest))
  | inr ne ↦ elim (Bool-cases (lt_ℤ label key)) [
    | inl less ↦ rw (ne, less) refl
    | inr more ↦
        rw (ne, more, find_case-set_case v def label e rest)
          (if_swap (eq_ℤ v key) (eq_ℤ v label) old e (find_case v def rest)
            λ a b. absurd (both_keys v label key ne a b))
  ]
]
  where
    replaced :
        (b : Bool) (x y z : Expr) → (if b then x else z) ≡ (if b then x else (if b then y else z))
    replaced true x y z = refl
    replaced false x y z = refl

find_case-add_cases :
    (v : ℤ) (def : Expr) (cases : List (ℤ × ℕ)) (n : ℕ) (table : List (ℤ × Expr)) (f : Func)
    → All (λ p. convert int_type false p.0 ≡ p.0) cases
    → find_case v def table ≡ list_of_one_goto n
    → find_case v def (add_cases cases table f).0 ≡ list_of_one_goto (target v n cases)
unfolding add_cases
find_case-add_cases v def [] n table f fits h = h
find_case-add_cases v def ((value, successor) ∷ rest) n table f (fit, fits) h =
    find_case-add_cases v def rest (if eq_ℤ v value then successor else n) _ _ fits (
      rw fit
        (find_case-set_case v def value (list_of_one_goto successor) table ∙ step (eq_ℤ v value)))
  where
    step :
        (b : Bool)
        → (if b then list_of_one_goto successor else find_case v def table)
          ≡ list_of_one_goto (if b then successor else n)
    step true = refl
    step false = h

Fits-int :
    (c : IntegerClass) (cases : List (ℤ × ℕ))
    → All (Fits c) cases
    → All (λ p. convert int_type false p.0 ≡ p.0) cases
Fits-int c [] h = tt
Fits-int c ((value, successor) ∷ rest) (h, k) = (h.0, Fits-int c rest k)

-- If the type of the condition is no narrower than `int`, and the values of all cases are values of
-- `int` and of that type, read as signed, then the switch that parseSwitchInstruction makes runs in
-- C, for every value of the condition, a goto to the block that LLVM's switch goes to, the default
-- block included. The condition may have a signed or an unsigned type in C.
pub run_switch-parse_switch :
    (c : IntegerClass) (u : Bool) (v : ℤ) (cmp : Expr) (def : ℕ) (cases : List (ℤ × ℕ)) (f : Func)
    → is_wide c ≡ true
    → convert c false v ≡ v
    → All (Fits c) cases
    → run_switch c u (convert c u v) (parse_switch cmp def cases f).0
      ≡ list_of_one_goto (target v def cases)
unfolding parse_switch
run_switch-parse_switch c u v cmp def cases f w hv fits =
    chosen_case-to_cases c u v (list_of_one_goto def) _ w hv
      (KeysFit-add_cases c cases [] _ fits tt)
    ∙ find_case-add_cases v (list_of_one_goto def) cases def [] _ (Fits-int c cases fits) refl
