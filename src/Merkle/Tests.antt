-- ===== src/Merkle/Tests.antt =====
-- Examples for the Merkle trees of src/enclave/utils/EUtils.cpp.
use crust_sworker.Prelude.{◌≡◌, ◌↔◌, refl, true, some, inl, inr, replicate}
use crust_sworker.Prelude.Text.{Text, codes, text_eq}
use crust_sworker.Status.{crust_success}
use crust_sworker.Crypto.Sample.{crypto}
use crust_sworker.Merkle.{
  Tree, node, none_left, link, links_size, hash_of, Buffers, validate_merkletree_json,
}
use crust_sworker.Merkle.Native.{MerkleTree, deserialize_json_to_merkletree, validate_merkle_tree_c}
use crust_sworker.Merkle.Agree.{IsCounted, deserialize_json_to_merkletree-validate}
use crust_sworker.Merkle.Valid.{IsMerkle, AllBuffers, validate_merkletree_json_iff}

abbrev buffers : Buffers
buffers = record {
  children = λ h. true;
  as_child = λ h. true;
  as_parent = λ h. true;
  structure = λ h. true;
}

abbrev leaf : Tree
leaf = node (replicate 64 b'a') 100 0 none_left

-- The stand-in for SHA-256 makes 64 bytes with the value 64 of the two hashes.
abbrev root : Text
root = codes "4040404040404040404040404040404040404040404040404040404040404040"

abbrev tree : Tree
tree = node root 200 2 (link leaf (link leaf none_left))

tree-valid : validate_merkletree_json crypto buffers tree ≡ crust_success
unfolding validate_merkletree_json links_size hash_of text_eq
tree-valid = refl

tree-IsCounted : IsCounted tree
unfolding IsCounted links_size
tree-IsCounted = inr (refl, (inl refl, (inl refl, tt)))

deserialize_json_to_merkletree-validate_example :
    (r : MerkleTree) × (deserialize_json_to_merkletree buffers tree ≡ some r)
    × (validate_merkle_tree_c crypto buffers r ≡ validate_merkletree_json crypto buffers tree)
deserialize_json_to_merkletree-validate_example =
    deserialize_json_to_merkletree-validate crypto buffers tree (λ h. refl) (λ h. refl)
      tree-IsCounted

buffers-AllBuffers : AllBuffers buffers
buffers-AllBuffers = record { children = λ h. refl; as_child = λ h. refl; as_parent = λ h. refl }

validate_merkletree_json_iff_example :
    (validate_merkletree_json crypto buffers tree ≡ crust_success) ↔ IsMerkle crypto tree
validate_merkletree_json_iff_example =
    validate_merkletree_json_iff crypto buffers tree buffers-AllBuffers
