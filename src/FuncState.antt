-- ===== src/FuncState.antt =====
-- core/Func.cpp: the names of variables and blocks that a function makes, and its map of blocks.
pub mod Names
pub mod Blocks
pub mod Tests
use llvm2c.Prelude.{
  ℕ, zero, suc, ◌+◌, ◌==◌, Bool, true, false, ◌||◌, if◌then◌else◌, Option, none, some, ◌>>=◌, List,
  [], ◌∷◌, ◌++◌, Text, codes, text_eq, to_decimal,
}

-- A Block, by its name and the LLVM block that it was made for.
pub record Block : Type 0 where
  pub block_name : Text
  pub block : ℕ

-- The fields of a Func that its operations on names and blocks change. LLVM's blocks are numbers.
pub record Func : Type 0 where
  pub var_count : ℕ
  pub metadata_var_names : List Text
  pub block_count : ℕ
  pub block_map : List (ℕ × Block)

-- `"var" + std::to_string(n)`
abbrev pub var_name : ℕ → Text
var_name n = codes "var" ++ to_decimal n

-- `metadataVarNames.count(name)`
unfoldable pub contains : Text → List Text → Bool
contains name [] = false
contains name (x ∷ xs) = text_eq x name || contains name xs

-- The loop of getVarName, from a count on; `none` stands for fuel that runs out.
unfoldable pub next_count : ℕ → List Text → ℕ → Option ℕ
unfolding contains
next_count zero names n = if contains (var_name n) names then none else some n
next_count (suc fuel) names n =
    let rest = next_count fuel names (n + 1) in if contains (var_name n) names then rest else some n

-- Func::getVarName
unfoldable pub get_var_name : ℕ → Func → Option (Text × Func)
unfolding next_count
get_var_name fuel f = do
  n ← next_count fuel f.metadata_var_names f.var_count
  some (var_name n, record f { var_count = n + 1 })

-- Func::addMetadataVarName
unfoldable pub add_metadata_var_name : Text → Func → Func
add_metadata_var_name name f = record f { metadata_var_names = name ∷ f.metadata_var_names }

-- `blockMap.find(block)`
unfoldable pub find_block : ℕ → List (ℕ × Block) → Option Block
find_block block [] = none
find_block block ((key, value) ∷ rest) = if key == block then some value else find_block block rest

-- Func::getBlock
unfoldable pub get_block : ℕ → Func → Option Block
unfolding find_block
get_block block f = find_block block f.block_map

-- Func::createBlockIfNotExist
abbrev pub block_name_of : ℕ → Text
block_name_of n = codes "block" ++ to_decimal n

unfoldable pub create_with : ℕ → Func → Option Block → Block × Func
create_with block f (some found) = (found, f)
create_with block f none =
    let made : Block = record { block_name = block_name_of f.block_count; block = block } in
    (made, record f { block_map = (block, made) ∷ f.block_map; block_count = f.block_count + 1 })

unfoldable pub create_block_if_not_exist : ℕ → Func → Block × Func
unfolding create_with find_block
create_block_if_not_exist block f = create_with block f (find_block block f.block_map)
