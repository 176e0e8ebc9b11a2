-- ===== src/Predicates/Meaning.antt =====
-- What LLVM's predicates mean, and that the tables of compare.h and negCmpInst.h agree with it.
use llvm2c.Prelude.{Bool, true, false, not, ◌≡◌, ◌≢◌, refl, ap, Option, none, some, arith}
use llvm2c.CInt.{ℤ, eq_ℤ, lt_ℤ}
use llvm2c.Predicates.{
  Predicate, icmp_eq, icmp_ne, icmp_ugt, icmp_uge, icmp_ult, icmp_ule, icmp_sgt, icmp_sge, icmp_slt,
  icmp_sle, fcmp_false, fcmp_oeq, fcmp_ogt, fcmp_oge, fcmp_olt, fcmp_ole, fcmp_one, fcmp_ord,
  fcmp_uno, fcmp_ueq, fcmp_ugt, fcmp_uge, fcmp_ult, fcmp_ule, fcmp_une, fcmp_true,
  negated_predicate,
}

-- How two floating-point numbers are related; unordered where one of them is a NaN.
pub data Order : Type 0 where
  less equal greater unordered : Order

-- A floating-point predicate holds of some of the four relations; an integer predicate of none.
unfoldable pub holds : Predicate → Order → Option Bool
holds fcmp_true o = some true
holds fcmp_false o = some false
holds fcmp_oeq less = some false
holds fcmp_oeq equal = some true
holds fcmp_oeq greater = some false
holds fcmp_oeq unordered = some false
holds fcmp_ogt less = some false
holds fcmp_ogt equal = some false
holds fcmp_ogt greater = some true
holds fcmp_ogt unordered = some false
holds fcmp_oge less = some false
holds fcmp_oge equal = some true
holds fcmp_oge greater = some true
holds fcmp_oge unordered = some false
holds fcmp_olt less = some true
holds fcmp_olt equal = some false
holds fcmp_olt greater = some false
holds fcmp_olt unordered = some false
holds fcmp_ole less = some true
holds fcmp_ole equal = some true
holds fcmp_ole greater = some false
holds fcmp_ole unordered = some false
holds fcmp_one less = some true
holds fcmp_one equal = some false
holds fcmp_one greater = some true
holds fcmp_one unordered = some false
holds fcmp_ord less = some true
holds fcmp_ord equal = some true
holds fcmp_ord greater = some true
holds fcmp_ord unordered = some false
holds fcmp_uno less = some false
holds fcmp_uno equal = some false
holds fcmp_uno greater = some false
holds fcmp_uno unordered = some true
holds fcmp_ueq less = some false
holds fcmp_ueq equal = some true
holds fcmp_ueq greater = some false
holds fcmp_ueq unordered = some true
holds fcmp_ugt less = some false
holds fcmp_ugt equal = some false
holds fcmp_ugt greater = some true
holds fcmp_ugt unordered = some true
holds fcmp_uge less = some false
holds fcmp_uge equal = some true
holds fcmp_uge greater = some true
holds fcmp_uge unordered = some true
holds fcmp_ult less = some true
holds fcmp_ult equal = some false
holds fcmp_ult greater = some false
holds fcmp_ult unordered = some true
holds fcmp_ule less = some true
holds fcmp_ule equal = some true
holds fcmp_ule greater = some false
holds fcmp_ule unordered = some true
holds fcmp_une less = some true
holds fcmp_une equal = some false
holds fcmp_une greater = some true
holds fcmp_une unordered = some true
holds _ _ = none

-- An integer predicate on the bit patterns read as unsigned numbers and as signed ones.
unfoldable pub holds_integer : Predicate → ℤ × ℤ → ℤ × ℤ → Option Bool
holds_integer icmp_eq (a, _) (b, _) = some (eq_ℤ a b)
holds_integer icmp_ne (a, _) (b, _) = some (not (eq_ℤ a b))
holds_integer icmp_ugt (a, _) (b, _) = some (lt_ℤ b a)
holds_integer icmp_uge (a, _) (b, _) = some (not (lt_ℤ a b))
holds_integer icmp_ult (a, _) (b, _) = some (lt_ℤ a b)
holds_integer icmp_ule (a, _) (b, _) = some (not (lt_ℤ b a))
holds_integer icmp_sgt (_, a) (_, b) = some (lt_ℤ b a)
holds_integer icmp_sge (_, a) (_, b) = some (not (lt_ℤ a b))
holds_integer icmp_slt (_, a) (_, b) = some (lt_ℤ a b)
holds_integer icmp_sle (_, a) (_, b) = some (not (lt_ℤ b a))
holds_integer _ _ _ = none

-- `negateCmpInst` followed by the evaluation of the comparison that it makes.
abbrev pub after_negation : (Predicate → Option Bool) → Predicate → Option Bool
after_negation meaning p = elim (negated_predicate p) [ none ↦ none | some q ↦ meaning q ]

abbrev pub map_not : Option Bool → Option Bool
map_not none = none
map_not (some b) = some (not b)

not-not : (b : Bool) → b ≡ not (not b)
not-not true = refl
not-not false = refl

-- On integers, of either reading, the negated comparison gives the opposite result, for every
-- integer predicate.
pub negated_predicate-integer :
    (p : Predicate) (a b : ℤ × ℤ)
    → after_negation (λ q. holds_integer q a b) p ≡ map_not (holds_integer p a b)
unfolding negated_predicate holds_integer
negated_predicate-integer icmp_ne a b = ap some (not-not _)
negated_predicate-integer icmp_uge a b = ap some (not-not _)
negated_predicate-integer icmp_sge a b = ap some (not-not _)
negated_predicate-integer icmp_ule a b = ap some (not-not _)
negated_predicate-integer icmp_sle a b = ap some (not-not _)
negated_predicate-integer p a b = refl

-- What the negated comparison of two floating-point numbers gives, by their order.
abbrev pub negated_result : Order → Option Bool → Option Bool
negated_result unordered r = r
negated_result _ r = map_not r

-- On floating-point numbers, the negated comparison gives the opposite result where neither is a
-- NaN; where one is, it gives the same result as the comparison itself. The predicates that have no
-- negation are left out.
pub negated_predicate-floating :
    (p : Predicate) (o : Order)
    → negated_predicate p ≢ none
    → after_negation (λ q. holds q o) p ≡ negated_result o (holds p o)
unfolding negated_predicate holds
negated_predicate-floating fcmp_true o h = absurd (h refl)
negated_predicate-floating fcmp_false o h = absurd (h refl)
negated_predicate-floating fcmp_ord o h = absurd (h refl)
negated_predicate-floating fcmp_uno o h = absurd (h refl)
negated_predicate-floating p less h = refl
negated_predicate-floating p equal h = refl
negated_predicate-floating p greater h = refl
negated_predicate-floating p unordered h = refl

-- Negating twice gives the predicate back.
pub negated_predicate-twice :
    (p q : Predicate) → negated_predicate p ≡ some q → negated_predicate q ≡ some p
unfolding negated_predicate
negated_predicate-twice p q h = ground arith
