-- ===== src/Merkle.antt =====
-- src/enclave/utils/EUtils.cpp: Merkle trees, as JSON objects and as the C structure.
pub mod Native
pub mod Agree
pub mod Valid
mod Tests
use crust_sworker.Prelude.{
  ℕ, suc, ◌*◌, ◌==◌, Bool, true, false, not, List, [], ◌∷◌, ◌++◌, Option, none, some, if◌then◌else◌,
  length, take,
}
use crust_sworker.Prelude.Text.{Text, text_eq}
use crust_sworker.Status.{
  CrustStatus, crust_success, crust_malloc_failed, crust_invalid_merkletree, hash_length,
}
use crust_sworker.Crypto.{Crypto}
use crust_sworker.Hex.{hex_string_to_bytes}

-- A tree in JSON: MT_HASH, MT_SIZE, MT_LINKS_NUM and MT_LINKS. A field that is missing is empty or 0,
-- and a negative MT_LINKS_NUM stands as the `size_t` that it is compared as.
mutual
  pub data Tree : Type 0 where
    node : Text → ℕ → ℕ → Trees → Tree

  pub data Trees : Type 0 where
    none_left : Trees
    link : Tree → Trees → Trees

-- `tree[MT_LINKS].size()`
unfoldable pub links_size : Trees → ℕ
links_size none_left = 0
links_size (link t ts) = suc (links_size ts)

-- `tree[MT_HASH].ToString()`
unfoldable pub hash_of : Tree → Text
hash_of (node hash size links_num links) = hash

-- Whether the allocations for a node give a buffer, by the hash of the node: the hashes of its
-- children, its hash as a child, its hash as a parent, its structure.
pub record Buffers : Type 0 where
  pub children : Text → Bool
  pub as_child : Text → Bool
  pub as_parent : Text → Bool
  pub structure : Text → Bool

-- `hex_string_to_bytes(hash, HASH_LENGTH * 2)`. Reading past the end of a shorter text is not modelled.
unfoldable pub hash_bytes : Bool → Text → Option (List ℕ)
unfolding hex_string_to_bytes
hash_bytes alloc hash = hex_string_to_bytes alloc (take (hash_length * 2) hash)

-- The end of both validators: the hash of the children's hashes against the node's own.
unfoldable pub check_parent : Crypto → Buffers → Text → List ℕ → CrustStatus
unfolding hash_bytes
check_parent c b hash children_hashs = elim (hash_bytes (b.as_parent hash) hash) [
  | none ↦ crust_malloc_failed
  | some parent_hash_org ↦
      if text_eq parent_hash_org (c.sha256 children_hashs)
      then crust_success
      else crust_invalid_merkletree
]

-- The bytes of a child's hash in front of those of the later children.
unfoldable pub prepend_hash : Option (List ℕ) → Option (List ℕ) → Option (List ℕ)
prepend_hash none rest = none
prepend_hash (some bytes) none = none
prepend_hash (some bytes) (some rest) = some (bytes ++ rest)

module _ (c : Crypto) (b : Buffers) where
  unfoldable mutual
    unfolding check_parent hash_bytes prepend_hash

    pub validate_merkletree_json : Tree → CrustStatus
    validate_merkletree_json (node hash size links_num links) =
        let hashs = children_hashs_json links in
        if links_num == 0
        then crust_success
        else (if not (links_num == links_size links)
            then crust_invalid_merkletree
            else (if not (b.children hash) then crust_malloc_failed else (elim hashs [
              | none ↦ crust_invalid_merkletree
              | some children_hashs ↦ check_parent c b hash children_hashs
            ])))

    -- The loop over the links; none where it leaves with CRUST_INVALID_MERKLETREE.
    pub children_hashs_json : Trees → Option (List ℕ)
    children_hashs_json none_left = some []
    children_hashs_json (link t ts) =
        let status = validate_merkletree_json t in
        let rest = children_hashs_json ts in
        if status == crust_success
        then prepend_hash (hash_bytes (b.as_child (hash_of t)) (hash_of t)) rest
        else none
