-- ===== src/Predicates/Tests.antt =====
-- Predicates on concrete operands.
use llvm2c.Prelude.{◌≢◌, none}
use llvm2c.Predicates.{fcmp_olt, negated_predicate}

has_negation : negated_predicate fcmp_olt ≢ none
unfolding negated_predicate
has_negation e = cc
