-- ===== src/Storage/Seal/Whole.antt =====
-- The whole tree of a sealed file (`_storage_seal_file` in src/enclave/storage/Storage.cpp).
use crust_sworker.Prelude.{
  ℕ, suc, ◌*◌, ◌==◌, ◌≡◌, ◌≢◌, inl, inr, refl, ap, ◌∙◌, Bool-cases, Bool, true, false, Option, none,
  some, List, ◌++◌, arith, if◌then◌else◌, take, take-all,
}
use crust_sworker.Prelude.Text.{Text, codes}
use crust_sworker.Status.{CrustStatus, crust_success, hash_length}
use crust_sworker.Crypto.{Crypto}
use crust_sworker.Hex.{hexstring_safe, hex_string_to_bytes}
use crust_sworker.Hex.Codec.{length-hexstring_safe, hex_string_to_bytes-hexstring_safe}
use crust_sworker.Merkle.{Tree, node, Trees, none_left, link, links_size, hash_of, hash_bytes}
use crust_sworker.Merkle.Agree.{IsCounted, AreCounted}
use crust_sworker.Merkle.Valid.{IsMerkle, Children}
use crust_sworker.Storage.Seal.{
  Files, Sealed, SealedLinks, seal_leaf, stop_at, put_link, is_last, seal_node, seal_links,
}
use crust_sworker.Storage.Seal.Leaves.{leaves, hashs_of, SealsAll, IsSealed-leaves}
use crust_sworker.Storage.Seal.Blocks.{
  IsSealed, block, parent, AreSealed, no_links, links_from, IsReadable, hex_string_to_bytes_alloc,
  seal_leaf-IsSealed, seal_parent-success, seal_node-cases,
}

hash_bytes_alloc :
    (alloc : Bool) (hash : Text) (bytes : List ℕ)
    → hash_bytes alloc hash ≡ some bytes
    → hash_bytes true hash ≡ some bytes
unfolding hash_bytes
hash_bytes_alloc alloc hash bytes h =
    hex_string_to_bytes_alloc alloc (take (hash_length * 2) hash) bytes h

module _ (c : Crypto) (F : Files) where
  -- The rest of the loop after a link.
  rest_of : Trees → Text → Sealed c F → SealedLinks c F
  rest_of ts path r =
      seal_links c F ts path (if is_last ts then r.text else r.text ++ codes ",") r.node_size
        r.block_num r.files

  -- A link in front, where the loop succeeds.
  Linked : Tree → Trees → Text → Sealed c F → SealedLinks c F → Type 0
  Linked t ts path r o =
      (r.status ≡ crust_success)
      × (bytes : List ℕ) × (hash_bytes true (hash_of r.tree_json) ≡ some bytes)
      × ((rest_of ts path r).status ≡ crust_success)
      × (o.links ≡ link r.tree_json (rest_of ts path r).links)
      × (o.sub_hashs ≡ bytes ++ (rest_of ts path r).sub_hashs)
      × (o.block_num ≡ (rest_of ts path r).block_num)
      × (o.files ≡ (rest_of ts path r).files)

  put_link-Linked :
      (t : Tree) (ts : Trees) (path : Text) (r : Sealed c F) (o : Option (List ℕ))
      → r.status ≡ crust_success
      → ((bytes : List ℕ) → o ≡ some bytes → hash_bytes true (hash_of r.tree_json) ≡ some bytes)
      → (put_link c F o r ts (rest_of ts path r)).status ≡ crust_success
      → Linked t ts path r (put_link c F o r ts (rest_of ts path r))
  unfolding put_link stop_at Linked
  put_link-Linked t ts path r none ok bytes h = absurd (omega arith)
  put_link-Linked t ts path r (some found) ok bytes h =
      (ok, found, bytes found refl, h, refl, refl, refl, refl)

  seal_link-Linked :
      (t : Tree) (ts : Trees) (path text : Text) (cur_size bn : ℕ) (s : F.State)
      → let o = seal_links c F (link t ts) path text cur_size bn s in
        o.status ≡ crust_success → Linked t ts path (seal_node c F t path text cur_size bn s) o
  unfolding seal_node rest_of
  seal_link-Linked t ts path text cur_size bn s h =
      let r = seal_node c F t path text cur_size bn s in
      let hash = hash_of r.tree_json in
      elim (Bool-cases (r.status == crust_success)) [
        | inl e ↦ rw e (
            put_link-Linked t ts path r (hash_bytes (F.buffers.as_child hash) hash)
              (status_success r.status e) (hash_bytes_alloc (F.buffers.as_child hash) hash)
              (rw e at h))
        | inr e ↦ absurd (stopped r.status e (rw e at h))
      ]
    where
      status_success :
          (status : CrustStatus) → (status == crust_success) ≡ true → status ≡ crust_success
      status_success status e = ground arith

      stopped : (status : CrustStatus) → (status == crust_success) ≡ false → status ≢ crust_success
      stopped status e h = ground arith

  links_none :
      (path text : Text) (cur_size bn : ℕ) (s : F.State)
      → let o = seal_links c F none_left path text cur_size bn s in
        AreSealed c F path bn s none_left o.links o.sub_hashs o.block_num o.files
  unfolding seal_node
  links_none path text cur_size bn s = no_links bn s

  mutual
    unfolding Linked rest_of

    node-IsSealed :
        (t : Tree) (path text : Text) (node_size bn : ℕ) (s : F.State)
        → IsReadable c F
        → let o = seal_node c F t path text node_size bn s in
          o.status ≡ crust_success → IsSealed c F path bn s t o.tree_json o.block_num o.files
    node-IsSealed (node hash size n links) path text node_size bn s readable h =
        elim (seal_node-cases c F hash size n links path text node_size bn s h) [
          | inl (z, e) ↦
              let o = seal_leaf c F hash size links path text node_size bn s in
              let k =
                seal_leaf-IsSealed c F hash size links path text node_size bn s readable
                  (rw e at h) in
              rw (e, z) k
          | inr (more, e) ↦
              let r = seal_links c F links path (text ++ codes "{\"links\": [") 0 bn s in
              let (ok, tree, num, files) =
                seal_parent-success c F hash size n node_size r (rw e at h) in
              rw (e, tree, num, files)
                (parent hash size n links r.links r.sub_hashs bn r.block_num s r.files more
                  (links-IsSealed links path (text ++ codes "{\"links\": [") 0 bn s readable ok))
        ]

    links-IsSealed :
        (ts : Trees) (path text : Text) (cur_size bn : ℕ) (s : F.State)
        → IsReadable c F
        → let o = seal_links c F ts path text cur_size bn s in
          o.status ≡ crust_success
          → AreSealed c F path bn s ts o.links o.sub_hashs o.block_num o.files
    links-IsSealed none_left path text cur_size bn s readable h = links_none path text cur_size bn s
    links-IsSealed (link t ts) path text cur_size bn s readable h =
        let r = seal_node c F t path text cur_size bn s in
        let (ok, bytes, same, rest_ok, links, hashs, num, files) =
          seal_link-Linked t ts path text cur_size bn s h in
        let o = rest_of ts path r in
        rw (links, hashs, num, files)
          (links_from t r.tree_json ts o.links bytes o.sub_hashs bn r.block_num o.block_num s
            r.files o.files (node-IsSealed t path text cur_size bn s readable ok) same
            (links-IsSealed ts path (if is_last ts then r.text else r.text ++ codes ",") r.node_size
              r.block_num r.files readable rest_ok))

-- Where _storage_seal_file succeeds on a tree whose nodes have as many links as they say, each node that
-- says 0 named a block that was read, in the order of the tree and numbered one after the other from the
-- given number on; it had the size and the SHA-256 of the node, was sealed and was written with success
-- under the hash of the sealed data, which the node has now. Each other node has the hash of the new
-- hashs of its links, and no other file was written. This is provided a file that is read with success
-- is there, and the buffers for the blocks are.
pub seal_node-IsSealed :
    (c : Crypto) (F : Files) (t : Tree) (path text : Text) (node_size block_num : ℕ) (s : F.State)
    → IsReadable c F
    → IsCounted t
    → let o = seal_node c F t path text node_size block_num s in
      o.status ≡ crust_success → IsSealed c F path block_num s t o.tree_json o.block_num o.files
seal_node-IsSealed c F t path text node_size bn s readable counted =
    node-IsSealed c F t path text node_size bn s readable

sha256_text :
    (c : Crypto) (m : List ℕ)
    → hash_bytes true (hexstring_safe true (c.sha256 m)) ≡ some (c.sha256 m)
unfolding hash_bytes
sha256_text c m =
    ap (hex_string_to_bytes true) (
      take-all 64 (hexstring_safe true (c.sha256 m))
        (omega (arith, length-hexstring_safe (c.sha256 m), c.length-sha256 m)))
    ∙ hex_string_to_bytes-hexstring_safe (c.sha256 m) (omega (arith, c.length-sha256 m))
        (c.sha256-AreBytes m)

module _ (c : Crypto) (F : Files) (path : Text) where
  same_size :
      (bn : ℕ) (s : F.State) (ts ts' : Trees) (hashs : List ℕ) (bn' : ℕ) (s' : F.State)
      → AreSealed c F path bn s ts ts' hashs bn' s'
      → links_size ts ≡ links_size ts'
  unfolding links_size
  same_size _ _ _ _ _ _ _ (no_links bn s) = refl
  same_size _ _ _ _ _ _ _ (links_from t t' ts ts' bytes hashs bn bn' bn'' s s' s'' d same ds) =
      ap suc (same_size bn' s' ts ts' hashs bn'' s'' ds)

  mutual
    unfolding IsCounted IsMerkle

    merkle :
        (bn : ℕ) (s : F.State) (t t' : Tree) (bn' : ℕ) (s' : F.State)
        → IsSealed c F path bn s t t' bn' s'
        → IsCounted t
        → IsMerkle c t'
    merkle _ _ _ _ _ _ (block hash size links bn data_ org sealed s s' r a b d e w) h = inl refl
    merkle _ _ _ _ _ _ (parent hash size n links links' hashs bn bn' s s' more ds) h = elim h [
      | inl e ↦ inl e
      | inr (e, k) ↦ inr (
        e ∙ same_size bn s links links' hashs bn' s' ds,
        (hashs, merkle_links bn s links links' hashs bn' s' ds k, sha256_text c hashs),
      )
    ]

    merkle_links :
        (bn : ℕ) (s : F.State) (ts ts' : Trees) (hashs : List ℕ) (bn' : ℕ) (s' : F.State)
        → AreSealed c F path bn s ts ts' hashs bn' s'
        → AreCounted ts
        → Children c ts' hashs
    merkle_links _ _ _ _ _ _ _ (no_links bn s) h = refl
    merkle_links _ _ _ _ _ _ _ (links_from t t' ts ts' bytes hashs bn bn' bn'' s s' s'' d same ds)
          h =
        (
          merkle bn s t t' bn' s' d h.0,
          (bytes, hashs, same, merkle_links bn' s' ts ts' hashs bn'' s'' ds h.1, refl),
        )

-- The tree of a file, with as many links in each node as it says, is after a sealing with success a valid
-- Merkle tree over the sealed blocks: its leaves, from left to right, have the hashes of `blocks`, which
-- are the sealings, numbered from the given number on, of data with the hashes of the leaves before;
-- provided a file that is read with success is there, and the buffers for the blocks are.
pub seal_node-IsMerkle :
    (c : Crypto) (F : Files) (t : Tree) (path text : Text) (node_size block_num : ℕ) (s : F.State)
    → IsReadable c F
    → IsCounted t
    → let o = seal_node c F t path text node_size block_num s in
      o.status ≡ crust_success
      → IsMerkle c o.tree_json
        × (blocks : List (List ℕ)) × SealsAll c F block_num (leaves t) blocks o.block_num
        × (leaves o.tree_json ≡ hashs_of c blocks)
seal_node-IsMerkle c F t path text node_size bn s readable counted h =
    let o = seal_node c F t path text node_size bn s in
    let sealed = node-IsSealed c F t path text node_size bn s readable h in
    let (blocks, all, made) =
      IsSealed-leaves c F path bn s t o.tree_json o.block_num o.files sealed in
    (merkle c F path bn s t o.tree_json o.block_num o.files sealed counted, blocks, all, made)
