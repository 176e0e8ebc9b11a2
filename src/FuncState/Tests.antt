-- ===== src/FuncState/Tests.antt =====
-- Names and blocks of a small function.
use llvm2c.Prelude.{
  ℕ, true, false, some, [], ◌∷◌, ◌≡◌, ◌⊎◌, refl, ◌<◌, ◌≤◌, Text, codes, text_eq, to_decimal, length,
}
use llvm2c.FuncState.{Func, var_name, contains, get_var_name, get_block, create_block_if_not_exist}
use llvm2c.FuncState.Names.{IsMade, get_var_name-fresh}
use llvm2c.FuncState.Blocks.{IsBlockMap, IsBlockOf, create_block_if_not_exist-IsBlockOf}

-- The metadata has a variable `var1`, and `var0` is made already.
abbrev small : Func
small = record {
  var_count = 1;
  metadata_var_names = codes "x" ∷ codes "var1" ∷ [];
  block_count = 0;
  block_map = [];
}

get_var_name_run : get_var_name 2 small ≡ some (codes "var2", record small { var_count = 3 })
unfolding get_var_name to_decimal text_eq
get_var_name_run = refl

get_var_name-fresh_example :
    (name : Text) × (after : Func) × (get_var_name (length small.metadata_var_names) small
      ≡ some (name, after))
    × (contains name after.metadata_var_names ≡ false)
    × (IsMade small name → ⊥)
    × IsMade after name
    × ((x : Text) → IsMade small x → IsMade after x)
    × ((j : ℕ)
        → small.var_count ≤ j
        → j < after.var_count
        → (var_name j ≡ name) ⊎ (contains (var_name j) small.metadata_var_names ≡ true))
get_var_name-fresh_example = get_var_name-fresh small

small-IsBlockMap : IsBlockMap small
unfolding get_block
small-IsBlockMap = record {
  own = λ b v h. cc;
  numbered = λ b v h. cc;
  distinct = λ b c v w h k e. cc;
}

create_block_if_not_exist-IsBlockOf_example : IsBlockOf 7 small (create_block_if_not_exist 7 small)
create_block_if_not_exist-IsBlockOf_example =
    create_block_if_not_exist-IsBlockOf 7 small small-IsBlockMap
