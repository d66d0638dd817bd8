-- ===== src/Storage/Seal/Tests.antt =====
-- Examples for the sealing of a file in src/enclave/storage/Storage.cpp.
use crust_sworker.Prelude.{
  ℕ, ◌+◌, ◌<◌, ◌≡◌, ◌≢◌, ◌⊎◌, inl, inr, refl, Bool, true, List, [], ◌∷◌, Option, none, some, arith,
  length,
}
use crust_sworker.Prelude.Text.{Text, codes, text_eq}
use crust_sworker.Status.{crust_success, file_number_upper_limit}
use crust_sworker.Crypto.Sample.{crypto}
use crust_sworker.Database.LevelStore.{level_store}
use crust_sworker.Persistence.Samples.{sum_json, memory}
use crust_sworker.Workload.{init}
use crust_sworker.Merkle.{
  Tree, node, none_left, link, links_size, hash_of, validate_merkletree_json,
}
use crust_sworker.Merkle.Agree.{IsCounted}
use crust_sworker.Merkle.Valid.{IsMerkle}
use crust_sworker.Storage.Seal.{Files, Sealed, seal_node}
use crust_sworker.Storage.Seal.Leaves.{leaves, hashs_of, SealsAll}
use crust_sworker.Storage.Seal.Blocks.{IsSealed, IsReadable}
use crust_sworker.Storage.Seal.Whole.{seal_node-IsSealed, seal_node-IsMerkle}
use crust_sworker.Storage.SealFile.{storage_seal_file}
use crust_sworker.Storage.SealFile.Cases.{Registers, storage_seal_file-cases}

-- Every block is three bytes, and sealing puts the number of the block in front.
abbrev block_files : Files
block_files = record {
  State = ℕ;
  get_storage_file = λ path s. (crust_success, some (1 ∷ 2 ∷ 3 ∷ []));
  replace_file = λ old new bytes s. (crust_success, s + 1);
  rename_dir = λ old new s. (crust_success, s);
  seal = λ i block. some (i ∷ block);
  buffer = λ hash. true;
  buffers = record {
    children = λ h. true;
    as_child = λ h. true;
    as_parent = λ h. true;
    structure = λ h. true;
  };
}

some_given : (bytes : List ℕ) → some bytes ≢ none
some_given bytes e = ground arith

block_files-IsReadable : IsReadable crypto block_files
block_files-IsReadable = record {
  buffers = λ h. refl;
  file = λ p t h e. some_given (1 ∷ 2 ∷ 3 ∷ []) e;
}

-- The hash that the stand-in for SHA-256 has for a block, and for the hashes of two blocks.
abbrev block_hash : Text
block_hash = codes "0303030303030303030303030303030303030303030303030303030303030303"

abbrev tree_hash : Text
tree_hash = codes "4040404040404040404040404040404040404040404040404040404040404040"

abbrev block_tree : Tree
block_tree =
    node tree_hash 6 2
      (link (node block_hash 3 0 none_left) (link (node block_hash 3 0 none_left) none_left))

block_tree-IsCounted : IsCounted block_tree
unfolding IsCounted links_size
block_tree-IsCounted = inr (refl, (inl refl, (inl refl, tt)))

abbrev sealed_tree : Sealed crypto block_files
sealed_tree = seal_node crypto block_files block_tree (codes "/f") [] 0 0 0

sealed_tree-success : sealed_tree.status ≡ crust_success
unfolding seal_node text_eq hash_of crust_sworker.Hex.hexstring_safe
sealed_tree-success = refl

seal_node-IsSealed_example :
    IsSealed crypto block_files
      (codes "/f")
      0
      0
      block_tree
      sealed_tree.tree_json
      sealed_tree.block_num
      sealed_tree.files
seal_node-IsSealed_example =
    seal_node-IsSealed crypto block_files block_tree (codes "/f") [] 0 0 0 block_files-IsReadable
      block_tree-IsCounted sealed_tree-success

seal_node-IsMerkle_example :
    IsMerkle crypto sealed_tree.tree_json
    × (blocks : List (List ℕ)) × SealsAll crypto block_files 0
        (leaves block_tree)
        blocks
        sealed_tree.block_num
    × (leaves sealed_tree.tree_json ≡ hashs_of crypto blocks)
seal_node-IsMerkle_example =
    seal_node-IsMerkle crypto block_files block_tree (codes "/f") [] 0 0 0 block_files-IsReadable
      block_tree-IsCounted sealed_tree-success

-- The text of the metadata, for the test.
abbrev dump_meta : Text → ℕ → Text
dump_meta hash size = size ∷ hash

abbrev alloc : Text → Bool
alloc hash = true

storage_seal_file-cases_example :
    let o =
      storage_seal_file crypto block_files level_store sum_json memory dump_meta alloc
        (some block_tree)
        (codes "/f")
        0
        []
        init in
    ((o.status ≢ crust_success) × (o.wl ≡ init))
    ⊎ ((length init.checked_files + length init.new_files < file_number_upper_limit)
        × (t : Tree) × (◌≡◌ {A = Option Tree} (some block_tree) (some t))
        × (validate_merkletree_json crypto block_files.buffers t ≡ crust_success)
        × Registers crypto block_files level_store sum_json memory dump_meta alloc t
            (seal_node crypto block_files t (codes "/f") [] 0 0 0)
            init
            o)
storage_seal_file-cases_example =
    storage_seal_file-cases crypto block_files level_store sum_json memory dump_meta alloc
      (some block_tree) (codes "/f") 0 [] init
