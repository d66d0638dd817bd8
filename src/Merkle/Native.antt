-- ===== src/Merkle/Native.antt =====
-- The C structure of a Merkle tree (src/enclave/include/MerkleTree.h), made from JSON, validated and
-- printed (src/enclave/utils/EUtils.cpp).
use crust_sworker.Prelude.{
  ℕ, zero, suc, ◌-◌, ◌==◌, ◌&&◌, true, not, List, [], ◌++◌, Option, none, some, if◌then◌else◌,
  length, take,
}
use crust_sworker.Prelude.Text.{Text, codes}
use crust_sworker.Prelude.Decimal.{to_string}
use crust_sworker.Status.{CrustStatus, crust_success, crust_malloc_failed, crust_invalid_merkletree}
use crust_sworker.Crypto.{Crypto}
use crust_sworker.Hex.{hexstring_safe}
use crust_sworker.Merkle.{
  Tree, node, Trees, none_left, link, Buffers, hash_bytes, check_parent, prepend_hash,
}

-- `MerkleTree`. `links_num` is the number of `links`, as the only function that makes one has it. The
-- size is never set there, `new MerkleTree()` leaves it 0.
mutual
  pub data MerkleTree : Type 0 where
    merkle_node : Text → ℕ → MerkleLinks → MerkleTree

  pub data MerkleLinks : Type 0 where
    end_links : MerkleLinks
    add_link : MerkleTree → MerkleLinks → MerkleLinks

unfoldable pub links_num : MerkleLinks → ℕ
links_num end_links = 0
links_num (add_link t ts) = suc (links_num ts)

unfoldable pub root_hash : MerkleTree → Text
root_hash (merkle_node hash size links) = hash

unfoldable pub make_node : Text → Option MerkleLinks → Option MerkleTree
make_node hash none = none
make_node hash (some links) = some (merkle_node hash 0 links)

unfoldable pub make_link : Option MerkleTree → Option MerkleLinks → Option MerkleLinks
make_link none rest = none
make_link (some t) none = none
make_link (some t) (some rest) = some (add_link t rest)

module _ (b : Buffers) where
  unfoldable mutual
    unfolding make_node make_link

    -- `none` is NULL.
    pub deserialize_json_to_merkletree : Tree → Option MerkleTree
    deserialize_json_to_merkletree (node hash size links_num links) =
        let made = deserialize_links links_num links in
        if not (b.structure hash)
        then none
        else (if not (b.children hash) && not (links_num == 0) then none else make_node hash made)

    -- The children up to `links_num`; one that is not there is no object and gives NULL.
    pub deserialize_links : ℕ → Trees → Option MerkleLinks
    deserialize_links zero links = some end_links
    deserialize_links (suc n) none_left = none
    deserialize_links (suc n) (link t ts) =
        make_link (deserialize_json_to_merkletree t) (deserialize_links n ts)

module _ (c : Crypto) (b : Buffers) where
  unfoldable mutual
    unfolding check_parent hash_bytes prepend_hash links_num root_hash

    pub validate_merkle_tree_c : MerkleTree → CrustStatus
    validate_merkle_tree_c (merkle_node hash size links) =
        let hashs = children_hashs_c links in
        if links_num links == 0
        then crust_success
        else (if not (b.children hash) then crust_malloc_failed else (elim hashs [
          | none ↦ crust_invalid_merkletree
          | some children_hashs ↦ check_parent c b hash children_hashs
        ]))

    pub children_hashs_c : MerkleLinks → Option (List ℕ)
    children_hashs_c end_links = some []
    children_hashs_c (add_link t ts) =
        let status = validate_merkle_tree_c t in
        let rest = children_hashs_c ts in
        if status == crust_success
        then prepend_hash (hash_bytes (b.as_child (root_hash t)) (root_hash t)) rest
        else none

-- `node.erase(node.size() - 1, 1)`: the last character goes, a comma or, without links, a bracket.
unfoldable pub erase_last : Text → Text
erase_last text = take (length text - 1) text

unfoldable mutual
  unfolding erase_last links_num

  pub serialize_merkletree_to_json_string : MerkleTree → Text
  serialize_merkletree_to_json_string (merkle_node hash size links) =
      erase_last (
        codes "{\"size\":"
        ++ to_string size
        ++ codes ","
        ++ codes "\"links_num\":"
        ++ to_string (links_num links)
        ++ codes ","
        ++ codes "\"hash\":\""
        ++ hexstring_safe true hash
        ++ codes "\","
        ++ codes "\"links\":["
        ++ serialize_links links)
      ++ codes "]}"

  serialize_links : MerkleLinks → Text
  serialize_links end_links = []
  serialize_links (add_link t ts) =
      serialize_merkletree_to_json_string t ++ codes "," ++ serialize_links ts
