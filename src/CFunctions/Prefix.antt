-- ===== src/CFunctions/Prefix.antt =====
-- What trimPrefix makes of names.
use llvm2c.Prelude.{
  ℕ, true, false, ◌≡◌, refl, ap, ◌∙◌, none, some, [], ◌∷◌, ◌++◌, Text, codes, text_eq, All,
}
use llvm2c.TypeHandler.{substr}
use llvm2c.CFunctions.{is_word, take_word, non_empty, or_search, match_intrinsic, trim_prefix}

-- The text is empty or begins with a character that is no letter, digit or underscore.
abbrev pub EndsWord : Text → Type 0
EndsWord [] = Unit
EndsWord (c ∷ s) = is_word c ≡ false

take_word-append :
    (w s : Text) → All (λ c. is_word c ≡ true) w → EndsWord s → take_word (w ++ s) ≡ w
unfolding take_word
take_word-append [] [] h e = refl
take_word-append [] (c ∷ s) h e = rw e refl
take_word-append (c ∷ w) s (h, hs) e = rw (h, take_word-append w s hs e) refl

-- The text "llvm." is found nowhere in the text.
abbrev pub HasNoPrefix : Text → Type 0
HasNoPrefix [] = Unit
HasNoPrefix (c ∷ s) = (text_eq (substr 5 (c ∷ s)) (codes "llvm.") ≡ false) × HasNoPrefix s

match_intrinsic-append :
    (c : ℕ) (w s : Text)
    → take_word (c ∷ (w ++ s)) ≡ c ∷ w
    → match_intrinsic (codes "llvm." ++ (c ∷ w) ++ s) ≡ some (c ∷ w)
unfolding match_intrinsic text_eq
match_intrinsic-append c w s h = ap non_empty h

-- trimPrefix yields the first part of an intrinsic's name: what follows "llvm.", up to the first
-- character that is no letter, digit or underscore.
pub trim_prefix-intrinsic :
    (c : ℕ) (w s : Text)
    → All (λ c. is_word c ≡ true) (c ∷ w)
    → EndsWord s
    → trim_prefix (codes "llvm." ++ (c ∷ w) ++ s) ≡ c ∷ w
unfolding trim_prefix
trim_prefix-intrinsic c w s h e =
    ap (λ o. or_search o (trim_prefix (codes "lvm." ++ (c ∷ w) ++ s)))
      (match_intrinsic-append c w s (take_word-append (c ∷ w) s h e))

no_match : (s : Text) → text_eq (substr 5 s) (codes "llvm.") ≡ false → match_intrinsic s ≡ none
unfolding match_intrinsic
no_match s h = rw h refl

-- It yields the empty text for a name without "llvm.".
pub trim_prefix-other : (s : Text) → HasNoPrefix s → trim_prefix s ≡ []
unfolding trim_prefix
trim_prefix-other [] h = refl
trim_prefix-other (c ∷ s) (h, rest) =
    ap (λ o. or_search o (trim_prefix s)) (no_match (c ∷ s) h) ∙ trim_prefix-other s rest
