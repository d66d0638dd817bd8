-- ===== src/Srd.antt =====
-- src/enclave/srd/Srd.cpp and src/enclave/utils/PathHelper.cpp: the space that is pledged as sealed
-- random data, one G at a time. A G is a directory under one of the paths, with 1024 leaf files and a
-- file of their hashes; its hash is kept in `srd_path2hashs_m`. A pointer in that map is never NULL.
pub mod Change
pub mod Decrease
pub mod Increase
pub mod Metadata
mod Tests
use crust_sworker.Prelude.{ℕ, ◌+◌, List, [], ◌∷◌, ◌++◌, length}
use crust_sworker.Prelude.Text.{Text, codes}
use crust_sworker.Prelude.Decimal.{to_string}
use crust_sworker.Prelude.Map.{Map}
use crust_sworker.Status.{hash_length}
use crust_sworker.Hex.{unsigned_char_array_to_hex_string}

-- The hashes of the G under each path.
abbrev pub SrdMap : Type 0
SrdMap = Map (List (List ℕ))

-- The number of all G.
unfoldable pub srd_total : SrdMap → ℕ
srd_total [] = 0
srd_total ((path, hashs) ∷ m) = length hashs + srd_total m

unfoldable pub get_m_hashs_file_path : Text → Text
get_m_hashs_file_path g_path = g_path ++ (codes "/" ++ codes "m-hashs.bin")

unfoldable pub get_leaf_path : Text → ℕ → List ℕ → Text
unfolding unsigned_char_array_to_hex_string
get_leaf_path g_path now_index hash =
    (g_path ++ (codes "/" ++ to_string (now_index + 1)))
    ++ (codes "-" ++ unsigned_char_array_to_hex_string hash)

unfoldable pub get_g_path_with_hash : Text → List ℕ → Text
unfolding unsigned_char_array_to_hex_string
get_g_path_with_hash dir_path hash =
    (dir_path ++ codes "/") ++ unsigned_char_array_to_hex_string hash

unfoldable pub get_g_path : Text → ℕ → Text
get_g_path dir_path now_index = dir_path ++ (codes "/" ++ to_string (now_index + 1))
