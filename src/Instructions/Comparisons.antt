-- ===== src/Instructions/Comparisons.antt =====
-- The expressions for comparisons evaluate in C to what LLVM's comparisons give, NaNs included.
use llvm2c.Prelude.{
  ℕ, Bool, true, false, not, ◌&&◌, ◌||◌, ◌≡◌, refl, ap, ap₂, ◌∙◌, Option, none, some, Text, codes,
  text_eq, arith, if◌then◌else◌, ◌≢◌, ◌>>=◌,
}
use llvm2c.Types.{floating, FloatingClass}
use llvm2c.TypeHandler.{sint, float_object}
use llvm2c.Exprs.{
  Expr, get_type, value, cmp_expr, nil, cons, make_call, make_binary, make_not, make_value,
  make_logical_and, make_logical_or,
}
use llvm2c.CInt.{ℤ, pos, is_zero, truth, lt_ℤ}
use llvm2c.Predicates.{
  Predicate, fcmp_false, fcmp_oeq, fcmp_ogt, fcmp_oge, fcmp_olt, fcmp_ole, fcmp_one, fcmp_ord,
  fcmp_uno, fcmp_ueq, fcmp_ugt, fcmp_uge, fcmp_ult, fcmp_ule, fcmp_une, fcmp_true,
  get_compare_predicate,
}
use llvm2c.Predicates.Meaning.{Order, less, equal, greater, unordered, holds}
use llvm2c.RedundantCasts.{same_ref}
use llvm2c.RedundantCasts.Values.{Leaves, eval, eval_cmp}
use llvm2c.Instructions.{PredicateQueries, build_is_nan, is_all_ordered, guard_order, parse_fcmp}

-- A floating-point value: a NaN, or a number that has a place in the order of all numbers.
pub data Float : Type 0 where
  nan : Float
  number : ℤ → Float

abbrev pub is_nan : Float → Bool
is_nan nan = true
is_nan (number n) = false

abbrev pub order : Float → Float → Order
order (number a) (number b) = if lt_ℤ a b then less else (if lt_ℤ b a then greater else equal)
order _ _ = unordered

-- C's comparison operators on floating-point values, by the order of the operands.
unfoldable pub float_operator : Text → Order → Bool
unfolding text_eq
float_operator op equal =
    text_eq op (codes "==") || (text_eq op (codes "<=") || text_eq op (codes ">="))
float_operator op less =
    text_eq op (codes "!=") || (text_eq op (codes "<") || text_eq op (codes "<="))
float_operator op greater =
    text_eq op (codes "!=") || (text_eq op (codes ">") || text_eq op (codes ">="))
float_operator op unordered = text_eq op (codes "!=")

-- LLVM's isOrdered and isUnordered as documented: of the predicates but the two constant ones, those
-- that are false where an operand is a NaN are ordered, and those that are true are unordered.
pub record AnswersQueries (llvm : PredicateQueries) : Type 0 where
  pub of_ordered :
      (p : Predicate) → p ≢ fcmp_false → holds p unordered ≡ some false → llvm.is_ordered p ≡ true
  pub of_unordered :
      (p : Predicate)
      → p ≢ fcmp_true
      → holds p unordered ≡ some true
      → (llvm.is_ordered p ≡ false) × (llvm.is_unordered p ≡ true)

abbrev pub is_number_order : Order → Bool
is_number_order unordered = false
is_number_order _ = true

-- A predicate with an operator is that operator, with its own value where an operand is a NaN.
ordered_table :
    (p : Predicate) (op : Text) (o : Order)
    → get_compare_predicate p ≡ some op
    → holds p unordered ≡ some false
    → holds p o ≡ some (is_number_order o && float_operator op o)
unfolding get_compare_predicate holds float_operator
ordered_table p op o h k = ground arith

unordered_table :
    (p : Predicate) (op : Text) (o : Order)
    → get_compare_predicate p ≡ some op
    → holds p unordered ≡ some true
    → holds p o ≡ some (not (is_number_order o) || float_operator op o)
unfolding get_compare_predicate holds float_operator
unordered_table p op o h k = ground arith

ord_table : (o : Order) → holds fcmp_ord o ≡ some (is_number_order o)
unfolding holds
ord_table less = refl
ord_table equal = refl
ord_table greater = refl
ord_table unordered = refl

uno_table : (o : Order) → holds fcmp_uno o ≡ some (not (is_number_order o))
unfolding holds
uno_table less = refl
uno_table equal = refl
uno_table greater = refl
uno_table unordered = refl

module _ (m : Leaves) (float_of : ℤ → Float) where
  -- The values of the constants 0 and 1, of C's comparison of floating-point values, and of the
  -- functions that test for NaNs.
  pub record IsFloating (l r : Expr) : Type 0 where
    pub zero_value : m.leaf (value (codes "0") (some sint)) ≡ pos 0
    pub one_value : m.leaf (value (codes "1") (some sint)) ≡ pos 1
    pub comparison :
        (op : Text) (a b : ℤ)
        → m.compare_other op a b ≡ float_operator op (order (float_of a) (float_of b))
    pub left_nan : m.leaf (build_is_nan l) ≡ truth (is_nan (float_of (eval m l)))
    pub right_nan : m.leaf (build_is_nan r) ≡ truth (is_nan (float_of (eval m r)))

  abbrev pub order_of : Expr → Expr → Order
  order_of l r = order (float_of (eval m l)) (float_of (eval m r))

  module _ (l r : Expr) (floating_ops : IsFloating l r) where
    eval-build : (e : Expr) → eval m (build_is_nan e) ≡ m.leaf (build_is_nan e)
    unfolding eval build_is_nan make_call
    eval-build e =
        elim (same_ref (get_type e) (some float_object))
          as (λ b.
            let c =
              if b
              then make_call (codes "__isnanf") (cons e nil) sint
              else make_call (codes "__isnan") (cons e nil) sint in
            eval m c ≡ m.leaf c) [ true ↦ refl | false ↦ refl ]

    not-truth : (b : Bool) → not (is_zero (truth b)) ≡ b
    not-truth true = refl
    not-truth false = refl

    is_zero-truth : (b : Bool) → is_zero (truth b) ≡ not b
    is_zero-truth true = refl
    is_zero-truth false = refl

    not-zero : (b : Bool) → not (is_zero (truth (is_zero (truth b)))) ≡ not b
    not-zero true = refl
    not-zero false = refl

    all_ordered : (a b : Float) → (not (is_nan a) && not (is_nan b)) ≡ is_number_order (order a b)
    all_ordered nan b = refl
    all_ordered (number a) nan = refl
    all_ordered (number a) (number b) = three (lt_ℤ a b) (lt_ℤ b a)
      where
        three :
            (x y : Bool)
            → true ≡ is_number_order (if x then less else (if y then greater else equal))
        three true y = refl
        three false true = refl
        three false false = refl

    eval-is_all_ordered : eval m (is_all_ordered l r) ≡ truth (is_number_order (order_of l r))
    unfolding is_all_ordered make_not make_logical_and eval
    eval-is_all_ordered =
        rw (eval-build l, eval-build r, floating_ops.left_nan, floating_ops.right_nan)
          (ap truth (
            ap₂ ◌&&◌ (not-zero (is_nan (float_of (eval m l))))
              (not-zero (is_nan (float_of (eval m r))))
            ∙ all_ordered (float_of (eval m l)) (float_of (eval m r))))

    -- The operands are floating-point numbers of C.
    abbrev pub AreFloats : Type 0
    AreFloats =
        (a a' : ℕ) × (c c' : FloatingClass) × (get_type l ≡ some (floating a c))
        × (get_type r ≡ some (floating a' c'))

    eval-operator :
        (op : Text)
        → AreFloats
        → eval m (make_binary (cmp_expr op false) l r) ≡ truth (float_operator op (order_of l r))
    unfolding eval make_binary eval_cmp
    eval-operator op (a, a', c, c', tl, _) =
        rw tl (ap truth (floating_ops.comparison op (eval m l) (eval m r)))

    eval-ordered :
        (op : Text)
        → AreFloats
        → eval m (make_logical_and (is_all_ordered l r) (make_binary (cmp_expr op false) l r))
          ≡ truth (is_number_order (order_of l r) && float_operator op (order_of l r))
    unfolding eval make_logical_and
    eval-ordered op fl =
        rw (eval-is_all_ordered, eval-operator op fl)
          (ap truth (
            ap₂ ◌&&◌ (not-truth (is_number_order (order_of l r)))
              (not-truth (float_operator op (order_of l r)))))

    eval-unordered :
        (op : Text)
        → AreFloats
        → eval m
            (make_logical_or (make_not (is_all_ordered l r)) (make_binary (cmp_expr op false) l r))
          ≡ truth (not (is_number_order (order_of l r)) || float_operator op (order_of l r))
    unfolding eval make_logical_or make_not
    eval-unordered op fl =
        rw (eval-is_all_ordered, eval-operator op fl)
          (ap truth (
            ap₂ ◌||◌ (not-zero (is_number_order (order_of l r)))
              (not-truth (float_operator op (order_of l r)))))

    module _ (llvm : PredicateQueries) (answers : AnswersQueries llvm) (fl : AreFloats) where
      -- The translation of a predicate exists and has the value that the predicate has.
      abbrev pub IsTranslation : Predicate → Option Expr → Type 0
      IsTranslation p translated =
          (e : Expr) × (translated ≡ some e)
          × (some (eval m e) ≡ (holds p (order_of l r) >>= λ b. some (truth b)))

      guard_order-ordered :
          (p : Predicate) (op : Text)
          → p ≢ fcmp_false
          → get_compare_predicate p ≡ some op
          → holds p unordered ≡ some false
          → IsTranslation p (guard_order llvm p l r (some op))
      unfolding guard_order
      guard_order-ordered p op ne h k =
          rw (answers.of_ordered p ne k, ordered_table p op (order_of l r) h k)
            (_, refl, ap some (eval-ordered op fl))

      guard_order-unordered :
          (p : Predicate) (op : Text)
          → p ≢ fcmp_true
          → get_compare_predicate p ≡ some op
          → holds p unordered ≡ some true
          → IsTranslation p (guard_order llvm p l r (some op))
      unfolding guard_order
      guard_order-unordered p op ne h k =
          rw
            (
              (answers.of_unordered p ne k).0,
              (answers.of_unordered p ne k).1,
              unordered_table p op (order_of l r) h k,
            )
            (_, refl, ap some (eval-unordered op fl))

      uno-value :
          eval m (make_not (is_all_ordered l r)) ≡ truth (not (is_number_order (order_of l r)))
      unfolding eval make_not
      uno-value = rw eval-is_all_ordered (ap truth (is_zero-truth (is_number_order (order_of l r))))

      -- The translation of a floating-point comparison has the value that LLVM gives it, for every
      -- floating-point predicate, and for all numbers and NaNs.
      pub eval-parse_fcmp :
          (p : Predicate) → holds p unordered ≢ none → IsTranslation p (parse_fcmp llvm p l r).0
      unfolding parse_fcmp get_compare_predicate holds make_value eval
      eval-parse_fcmp fcmp_true h = (_, refl, ap some floating_ops.one_value)
      eval-parse_fcmp fcmp_false h = (_, refl, ap some floating_ops.zero_value)
      eval-parse_fcmp fcmp_ord h =
          (_, refl, rw (ord_table (order_of l r)) (ap some eval-is_all_ordered))
      eval-parse_fcmp fcmp_uno h = (_, refl, rw (uno_table (order_of l r)) (ap some uno-value))
      eval-parse_fcmp fcmp_oeq h = guard_order-ordered fcmp_oeq _ (λ e. cc) refl refl
      eval-parse_fcmp fcmp_ogt h = guard_order-ordered fcmp_ogt _ (λ e. cc) refl refl
      eval-parse_fcmp fcmp_oge h = guard_order-ordered fcmp_oge _ (λ e. cc) refl refl
      eval-parse_fcmp fcmp_olt h = guard_order-ordered fcmp_olt _ (λ e. cc) refl refl
      eval-parse_fcmp fcmp_ole h = guard_order-ordered fcmp_ole _ (λ e. cc) refl refl
      eval-parse_fcmp fcmp_one h = guard_order-ordered fcmp_one _ (λ e. cc) refl refl
      eval-parse_fcmp fcmp_ueq h = guard_order-unordered fcmp_ueq _ (λ e. cc) refl refl
      eval-parse_fcmp fcmp_ugt h = guard_order-unordered fcmp_ugt _ (λ e. cc) refl refl
      eval-parse_fcmp fcmp_uge h = guard_order-unordered fcmp_uge _ (λ e. cc) refl refl
      eval-parse_fcmp fcmp_ult h = guard_order-unordered fcmp_ult _ (λ e. cc) refl refl
      eval-parse_fcmp fcmp_ule h = guard_order-unordered fcmp_ule _ (λ e. cc) refl refl
      eval-parse_fcmp fcmp_une h = guard_order-unordered fcmp_une _ (λ e. cc) refl refl
      eval-parse_fcmp p h = absurd (h refl)
