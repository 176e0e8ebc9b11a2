-- ===== src/ExprWriter/Brackets.antt =====
-- Brackets in a text: a scan that keeps the closing brackets that are due, and the texts in which
-- every bracket is closed by its own kind.
use llvm2c.Prelude.{
  ℕ, zero, suc, ◌≡◌, refl, Bool, ◌||◌, Option, none, some, List, [], ◌∷◌, ◌++◌, Text, ◌==◌,
  if◌then◌else◌, ◌>>=◌,
}
use llvm2c.ExprWriter.Output.{Out, ◌<<◌, indent}

-- The bracket that closes `c`, or 0.
abbrev pub closer : ℕ → ℕ
closer c = if c == 40 then 41 else if c == 91 then 93 else if c == 123 then 125 else 0

abbrev pub is_closer : ℕ → Bool
is_closer c = c == 41 || (c == 93 || c == 125)

-- Takes the bracket that is due.
abbrev pub take_closer : ℕ → List ℕ → Option (List ℕ)
take_closer c [] = none
take_closer c (d ∷ due) = if c == d then some due else none

-- One character, with the closing brackets that are due, innermost first.
abbrev pub scan_char : ℕ → List ℕ → Option (List ℕ)
scan_char c due =
    if is_closer c
    then take_closer c due
    else (if closer c == 0 then some due else some (closer c ∷ due))

unfoldable pub scan : Text → List ℕ → Option (List ℕ)
scan [] due = some due
scan (c ∷ cs) due = scan_char c due >>= scan cs

-- The brackets of the text match, whatever surrounds it.
abbrev pub Balanced : Text → Type 0
Balanced t = (due : List ℕ) → scan t due ≡ some due

-- What has been written is a text, and its brackets match.
unfoldable pub scan_out : Out → List ℕ → Option (List ℕ)
unfolding scan
scan_out none due = none
scan_out (some t) due = scan t due

pub scan-append : (xs ys : Text) (due : List ℕ) → scan (xs ++ ys) due ≡ (scan xs due >>= scan ys)
unfolding scan
scan-append [] ys due = refl
scan-append (c ∷ cs) ys due = next (scan_char c due) (scan-append cs ys)
  where
    next :
        (o : Option (List ℕ))
        → ((rest : List ℕ) → scan (cs ++ ys) rest ≡ (scan cs rest >>= scan ys))
        → (o >>= scan (cs ++ ys)) ≡ ((o >>= scan cs) >>= scan ys)
    next none ih = refl
    next (some rest) ih = ih rest

none-bind : (o : Option (List ℕ)) → ◌≡◌ {A = Option (List ℕ)} none (o >>= λ _. none)
none-bind none = refl
none-bind (some d) = refl

pub scan_out-<< :
    (a b : Out) (due : List ℕ) → scan_out (a << b) due ≡ (scan_out a due >>= scan_out b)
unfolding scan_out
scan_out-<< none b due = refl
scan_out-<< (some s) none due = none-bind (scan s due)
scan_out-<< (some s) (some t) due = scan-append s t due

abbrev pub WritesBalanced : Out → Type 0
WritesBalanced w = (due : List ℕ) → scan_out w due ≡ some due

-- Such an output is a text, with matching brackets.
pub written-Balanced : (w : Out) → WritesBalanced w → (t : Text) × (w ≡ some t) × Balanced t
unfolding scan_out
written-Balanced none h = cc (h [])
written-Balanced (some t) h = (t, refl, h)

pub indent-WritesBalanced : (n : ℕ) → WritesBalanced (indent n)
unfolding indent scan_out
indent-WritesBalanced zero due = refl
indent-WritesBalanced (suc n) due = rw scan_out-<< (indent-WritesBalanced n due)

pub append-Balanced : (s t : Text) → Balanced s → Balanced t → Balanced (s ++ t)
append-Balanced s t hs ht due = rw (scan-append, hs due) (ht due)
