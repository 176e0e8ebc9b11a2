-- ===== src/Predicates.antt =====
-- parser/compare.h and parser/negCmpInst.h: LLVM's comparison predicates, the C operator and the
-- signedness that each is translated to, and the predicate with which a comparison is negated.
pub mod Meaning
pub mod Tests
use llvm2c.Prelude.{Bool, true, false, Option, none, some, Text, codes}

-- llvm::CmpInst::Predicate, but for the BAD_ values, which no instruction has.
pub data Predicate : Type 0 where
  icmp_eq icmp_ne icmp_ugt icmp_uge icmp_ult icmp_ule icmp_sgt icmp_sge icmp_slt icmp_sle :
      Predicate
  fcmp_false fcmp_oeq fcmp_ogt fcmp_oge fcmp_olt fcmp_ole fcmp_one fcmp_ord : Predicate
  fcmp_uno fcmp_ueq fcmp_ugt fcmp_uge fcmp_ult fcmp_ule fcmp_une fcmp_true : Predicate

-- isIntegerCompareUnsigned; `none` where it throws.
unfoldable pub is_integer_compare_unsigned : Predicate → Option Bool
is_integer_compare_unsigned icmp_eq = some true
is_integer_compare_unsigned fcmp_oeq = some true
is_integer_compare_unsigned fcmp_ueq = some true
is_integer_compare_unsigned icmp_ne = some true
is_integer_compare_unsigned fcmp_one = some true
is_integer_compare_unsigned fcmp_une = some true
is_integer_compare_unsigned icmp_ugt = some true
is_integer_compare_unsigned icmp_uge = some true
is_integer_compare_unsigned icmp_ult = some true
is_integer_compare_unsigned icmp_ule = some true
is_integer_compare_unsigned icmp_sgt = some false
is_integer_compare_unsigned icmp_sge = some false
is_integer_compare_unsigned icmp_slt = some false
is_integer_compare_unsigned icmp_sle = some false
is_integer_compare_unsigned _ = none

-- getComparePredicate; `none` where it throws.
unfoldable pub get_compare_predicate : Predicate → Option Text
get_compare_predicate icmp_eq = some (codes "==")
get_compare_predicate fcmp_oeq = some (codes "==")
get_compare_predicate fcmp_ueq = some (codes "==")
get_compare_predicate icmp_ne = some (codes "!=")
get_compare_predicate fcmp_one = some (codes "!=")
get_compare_predicate fcmp_une = some (codes "!=")
get_compare_predicate icmp_ugt = some (codes ">")
get_compare_predicate icmp_sgt = some (codes ">")
get_compare_predicate fcmp_ugt = some (codes ">")
get_compare_predicate fcmp_ogt = some (codes ">")
get_compare_predicate icmp_uge = some (codes ">=")
get_compare_predicate icmp_sge = some (codes ">=")
get_compare_predicate fcmp_oge = some (codes ">=")
get_compare_predicate fcmp_uge = some (codes ">=")
get_compare_predicate icmp_ult = some (codes "<")
get_compare_predicate icmp_slt = some (codes "<")
get_compare_predicate fcmp_olt = some (codes "<")
get_compare_predicate fcmp_ult = some (codes "<")
get_compare_predicate icmp_ule = some (codes "<=")
get_compare_predicate icmp_sle = some (codes "<=")
get_compare_predicate fcmp_ole = some (codes "<=")
get_compare_predicate fcmp_ule = some (codes "<=")
get_compare_predicate _ = none

-- The switch of negateCmpInst; `none` where it returns a null pointer.
unfoldable pub negated_predicate : Predicate → Option Predicate
negated_predicate icmp_eq = some icmp_ne
negated_predicate fcmp_oeq = some fcmp_one
negated_predicate fcmp_ueq = some fcmp_une
negated_predicate icmp_ne = some icmp_eq
negated_predicate fcmp_one = some fcmp_oeq
negated_predicate fcmp_une = some fcmp_ueq
negated_predicate icmp_ugt = some icmp_ule
negated_predicate icmp_sgt = some icmp_sle
negated_predicate fcmp_ugt = some fcmp_ule
negated_predicate fcmp_ogt = some fcmp_ole
negated_predicate icmp_uge = some icmp_ult
negated_predicate icmp_sge = some icmp_slt
negated_predicate fcmp_oge = some fcmp_olt
negated_predicate fcmp_uge = some fcmp_ult
negated_predicate icmp_ult = some icmp_uge
negated_predicate icmp_slt = some icmp_sge
negated_predicate fcmp_olt = some fcmp_oge
negated_predicate fcmp_ult = some fcmp_uge
negated_predicate icmp_ule = some icmp_ugt
negated_predicate icmp_sle = some icmp_sgt
negated_predicate fcmp_ole = some fcmp_ogt
negated_predicate fcmp_ule = some fcmp_ugt
negated_predicate _ = none
