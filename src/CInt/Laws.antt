-- ===== src/CInt/Laws.antt =====
-- Laws of C's integer conversions.
use llvm2c.Prelude.{Bool, true, false, ◌≡◌, ◌≢◌, refl, ◌≤◌, ◌<◌, ◌^◌, arith, Text}
use llvm2c.Types.{
  IntegerClass, char_type, int_type, bool_type, short_type, long_type, long_long_type, int128,
}
use llvm2c.CInt.{ℤ, pos, width, convert, truth, promote, common, compare_values, compare_at}

-- Zero and one are values of every integer type.
pub convert-truth : (c : IntegerClass) (u b : Bool) → convert c u (truth b) ≡ truth b
unfolding convert
convert-truth char_type u b = ground arith
convert-truth int_type u b = ground arith
convert-truth bool_type u b = ground arith
convert-truth short_type u b = ground arith
convert-truth long_type u b = ground arith
convert-truth long_long_type u b = ground arith
convert-truth int128 u b = ground arith

-- A conversion yields a value of the type.
pub convert-convert :
    (c : IntegerClass) (u : Bool) (v : ℤ) → convert c u (convert c u v) ≡ convert c u v
unfolding convert
convert-convert char_type u v = ground arith
convert-convert int_type u v = ground arith
convert-convert bool_type u v = ground arith
convert-convert short_type u v = ground arith
convert-convert long_type u v = ground arith
convert-convert long_long_type u v = ground arith
convert-convert int128 u v = ground arith

-- A value of an unsigned type is a value of every unsigned type that is no narrower.
pub convert_wider :
    (s k : IntegerClass) (v : ℤ) → width s ≤ width k → convert s true v ≡ v → convert k true v ≡ v
unfolding convert
convert_wider char_type k v h e = ground arith
convert_wider int_type k v h e = ground arith
convert_wider bool_type k v h e = ground arith
convert_wider short_type k v h e = ground arith
convert_wider long_type k v h e = ground arith
convert_wider long_long_type k v h e = ground arith
convert_wider int128 k v h e = ground arith

-- The first number that does not fit into an unsigned class becomes 0 there; `_Bool` is another
-- matter, since it turns every number but 0 into 1.
pub convert_overflow :
    (k : IntegerClass) → k ≢ bool_type → convert k true (pos (2 ^ width k)) ≡ pos 0
unfolding convert
convert_overflow char_type h = refl
convert_overflow int_type h = refl
convert_overflow bool_type h = absurd (h refl)
convert_overflow short_type h = refl
convert_overflow long_type h = refl
convert_overflow long_long_type h = refl
convert_overflow int128 h = refl

pub convert_fits :
    (k s : IntegerClass)
    → width k < width s
    → convert s true (pos (2 ^ width k)) ≡ pos (2 ^ width k)
unfolding convert
convert_fits k char_type h = ground arith
convert_fits k int_type h = ground arith
convert_fits k bool_type h = ground arith
convert_fits k short_type h = ground arith
convert_fits k long_type h = ground arith
convert_fits k long_long_type h = ground arith
convert_fits k int128 h = ground arith

-- Promotion keeps the values of every type.
promote_keeps :
    (s : IntegerClass) (u : Bool) (v : ℤ)
    → convert s u v ≡ v
    → convert (promote s u).0 (promote s u).1 v ≡ v
unfolding convert
promote_keeps char_type true v e = ground arith
promote_keeps char_type false v e = ground arith
promote_keeps bool_type u v e = ground arith
promote_keeps short_type true v e = ground arith
promote_keeps short_type false v e = ground arith
promote_keeps s u v e = e

common_same : (s : IntegerClass) (u : Bool) → common (s, u) (s, u) ≡ promote s u
common_same char_type u = refl
common_same int_type true = refl
common_same int_type false = refl
common_same bool_type u = refl
common_same short_type u = refl
common_same long_type true = refl
common_same long_type false = refl
common_same long_long_type true = refl
common_same long_long_type false = refl
common_same int128 true = refl
common_same int128 false = refl

-- Two values of one integer type are compared as the numbers that they are.
pub compare_at-same :
    (op : Text) (s : IntegerClass) (u : Bool) (a b : ℤ)
    → convert s u a ≡ a
    → convert s u b ≡ b
    → compare_at op (s, u) (s, u) a b ≡ compare_values op a b
unfolding compare_at
compare_at-same op s u a b ha hb =
    rw (common_same s u, promote_keeps s u a ha, promote_keeps s u b hb)
