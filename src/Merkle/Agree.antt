-- ===== src/Merkle/Agree.antt =====
-- The validators of the two forms of a Merkle tree (src/enclave/utils/EUtils.cpp) side by side.
use crust_sworker.Prelude.{
  ℕ, suc, ◌==◌, ◌≡◌, ◌⊎◌, inl, inr, refl, ap, sym, subst, true, some, arith,
}
use crust_sworker.Prelude.Text.{Text}
use crust_sworker.Crypto.{Crypto}
use crust_sworker.Merkle.{
  Tree, node, Trees, none_left, link, links_size, hash_of, Buffers, validate_merkletree_json,
  children_hashs_json,
}
use crust_sworker.Merkle.Native.{
  MerkleTree, merkle_node, MerkleLinks, end_links, add_link, links_num, root_hash, make_node,
  make_link, deserialize_json_to_merkletree, deserialize_links, validate_merkle_tree_c,
  children_hashs_c,
}

-- Each node has the number of links that it says, or says that it has none.
unfoldable mutual
  unfolding links_size

  pub IsCounted : Tree → Type 0
  IsCounted (node hash size n links) = (n ≡ 0) ⊎ ((n ≡ links_size links) × AreCounted links)

  pub AreCounted : Trees → Type 0
  AreCounted none_left = Unit
  AreCounted (link t ts) = IsCounted t × AreCounted ts

==_refl : (n : ℕ) → (n == n) ≡ true
==_refl n = ground arith

module _ (c : Crypto) (b : Buffers) (structures : (h : Text) → b.structure h ≡ true)
    (children : (h : Text) → b.children h ≡ true) where
  -- What reading a tree gives.
  Same : Tree → MerkleTree → Type 0
  Same t r =
      (deserialize_json_to_merkletree b t ≡ some r)
      × (root_hash r ≡ hash_of t)
      × (validate_merkle_tree_c c b r ≡ validate_merkletree_json c b t)

  AllSame : Trees → MerkleLinks → Type 0
  AllSame ts rs =
      (deserialize_links b (links_size ts) ts ≡ some rs)
      × (links_num rs ≡ links_size ts)
      × (children_hashs_c c b rs ≡ children_hashs_json c b ts)

  Same-leaf :
      (hash : Text) (size : ℕ) (links : Trees)
      → Same (node hash size 0 links) (merkle_node hash 0 end_links)
  unfolding Same deserialize_json_to_merkletree validate_merkle_tree_c validate_merkletree_json
      hash_of
  Same-leaf hash size links = (rw (structures hash, children hash) refl, refl, refl)

  Same-node :
      (hash : Text) (size : ℕ) (links : Trees) (rs : MerkleLinks)
      → AllSame links rs
      → Same (node hash size (links_size links) links) (merkle_node hash 0 rs)
  unfolding Same AllSame deserialize_json_to_merkletree validate_merkle_tree_c
      validate_merkletree_json make_node hash_of
  Same-node hash size links rs (made, num, hashs) = (
    rw (structures hash, children hash, made) refl,
    refl,
    rw (num, ==_refl (links_size links), hashs) refl,
  )

  same_none : AllSame none_left end_links
  unfolding AllSame deserialize_json_to_merkletree validate_merkle_tree_c validate_merkletree_json
      links_num links_size
  same_none = (refl, refl, refl)

  AllSame-link :
      (t : Tree) (ts : Trees) (r : MerkleTree) (rs : MerkleLinks)
      → Same t r
      → AllSame ts rs
      → AllSame (link t ts) (add_link r rs)
  unfolding Same AllSame deserialize_json_to_merkletree validate_merkle_tree_c
      validate_merkletree_json make_link links_num links_size
  AllSame-link t ts r rs (made, root, valid) (all_made, num, hashs) =
      (rw (made, all_made) refl, ap suc num, rw (valid, root, hashs) refl)

  mutual
    unfolding IsCounted

    same : (t : Tree) → IsCounted t → (r : MerkleTree) × Same t r
    same (node hash size n links) h = elim h [
      | inl e ↦ (
        merkle_node hash 0 end_links,
        subst (λ k. Same (node hash size k links) (merkle_node hash 0 end_links)) (sym e)
            (Same-leaf hash size links),
      )
      | inr (e, k) ↦
          let (rs, qs) = all_same links k in
          (
            merkle_node hash 0 rs,
            subst (λ k. Same (node hash size k links) (merkle_node hash 0 rs)) (sym e)
                (Same-node hash size links rs qs),
          )
    ]

    all_same : (ts : Trees) → AreCounted ts → (rs : MerkleLinks) × AllSame ts rs
    all_same none_left h = (end_links, same_none)
    all_same (link t ts) h =
        let (r, q) = same t h.0 in
        let (rs, qs) = all_same ts h.1 in (add_link r rs, AllSame-link t ts r rs q qs)

-- A tree whose nodes have as many links as they say, or say that they have none, can be read as a C
-- structure, and validate_merkle_tree_c gives for the structure the status that validate_merkletree_json gives
-- for the JSON; provided the reader's allocations, and those for the hashes of children, give buffers.
pub deserialize_json_to_merkletree-validate :
    (c : Crypto) (b : Buffers) (t : Tree)
    → ((h : Text) → b.structure h ≡ true)
    → ((h : Text) → b.children h ≡ true)
    → IsCounted t
    → (r : MerkleTree) × (deserialize_json_to_merkletree b t ≡ some r)
      × (validate_merkle_tree_c c b r ≡ validate_merkletree_json c b t)
unfolding Same
deserialize_json_to_merkletree-validate c b t structures children h =
    let (r, q) = same c b structures children t h in (r, q.0, q.2)
