-- ===== src/Storage/Seal/Blocks.antt =====
-- What sealing makes of the blocks and of the tree (`_storage_seal_file` in
-- src/enclave/storage/Storage.cpp).
use crust_sworker.Prelude.{
  ℕ, ◌+◌, ◌==◌, ◌≡◌, ◌≢◌, ◌⊎◌, inl, inr, refl, ap, Bool-cases, Option-cases, Bool, true, false,
  Option, none, some, List, [], ◌++◌, arith, length, take,
}
use crust_sworker.Prelude.Text.{Text, text_eq, text_eq_sound, codes}
use crust_sworker.Status.{CrustStatus, crust_success, hash_length}
use crust_sworker.Crypto.{Crypto}
use crust_sworker.Hex.{hexstring_safe, hex_string_to_bytes}
use crust_sworker.Merkle.{Tree, node, Trees, none_left, link, hash_of, hash_bytes}
use crust_sworker.Storage.Seal.{
  Files, Sealed, SealedLinks, block_path, seal_block, left_leaf, write_leaf, read_leaf, seal_leaf,
  seal_parent, seal_node, seal_links,
}

pub hex_string_to_bytes_alloc :
    (alloc : Bool) (hash : Text) (bytes : List ℕ)
    → hex_string_to_bytes alloc hash ≡ some bytes
    → hex_string_to_bytes true hash ≡ some bytes
unfolding hex_string_to_bytes
hex_string_to_bytes_alloc true hash bytes h = h
hex_string_to_bytes_alloc false hash bytes h = ground arith

module _ (c : Crypto) (F : Files) where
  -- A sealed tree beside the one that was to be sealed, under a path, with the number of the first block
  -- and the files before it, and the number and the files after the last one. A block is read, checked,
  -- sealed and written under the hash of the sealed data; a parent has links.
  mutual
    pub data IsSealed (path : Text) : ℕ → F.State → Tree → Tree → ℕ → F.State → Type 0 where
      block :
          (hash : Text) (size : ℕ) (links : Trees) (bn : ℕ) (file_data org sealed : List ℕ)
          (s s' : F.State)
          → F.get_storage_file (block_path path bn hash) s ≡ (crust_success, some file_data)
          → size ≡ length file_data
          → hex_string_to_bytes true hash ≡ some org
          → take hash_length org ≡ c.sha256 file_data
          → F.seal bn file_data ≡ some sealed
          → F.replace_file
              (block_path path bn hash)
              (block_path path bn (hexstring_safe true (c.sha256 sealed)))
              sealed
              s
            ≡ (crust_success, s')
          → IsSealed path bn s
              (node hash size 0 links)
              (node (hexstring_safe true (c.sha256 sealed)) size 0 links)
              (bn + 1)
              s'
      parent :
          (hash : Text) (size links_num : ℕ) (links links' : Trees) (hashs : List ℕ) (bn bn' : ℕ)
          (s s' : F.State)
          → links_num ≢ 0
          → AreSealed path bn s links links' hashs bn' s'
          → IsSealed path bn s
              (node hash size links_num links)
              (node (hexstring_safe true (c.sha256 hashs)) size links_num links')
              bn'
              s'

    pub data AreSealed (path : Text)
        : ℕ → F.State → Trees → Trees → List ℕ → ℕ → F.State → Type 0 where
      no_links : (bn : ℕ) (s : F.State) → AreSealed path bn s none_left none_left [] bn s
      links_from :
          (t t' : Tree) (ts ts' : Trees) (bytes hashs : List ℕ) (bn bn' bn'' : ℕ)
          (s s' s'' : F.State)
          → IsSealed path bn s t t' bn' s'
          → hash_bytes true (hash_of t') ≡ some bytes
          → AreSealed path bn' s' ts ts' hashs bn'' s''
          → AreSealed path bn s (link t ts) (link t' ts') (bytes ++ hashs) bn'' s''

  -- The checks of a block that was sealed.
  IsBlock : Text → ℕ → ℕ → List ℕ → List ℕ → Type 0
  IsBlock hash size bn file_data sealed =
      (size ≡ length file_data)
      × (org : List ℕ) × (hex_string_to_bytes true hash ≡ some org)
      × (take hash_length org ≡ c.sha256 file_data)
      × (F.seal bn file_data ≡ some sealed)

  seal_block-some :
      (hash : Text) (size bn : ℕ) (file_data sealed : List ℕ)
      → (seal_block c F hash size bn file_data).1 ≡ some sealed
      → IsBlock hash size bn file_data sealed
  unfolding seal_block IsBlock
  seal_block-some hash size bn file_data sealed h =
      elim (Option-cases (hex_string_to_bytes (F.buffers.as_parent hash) hash)) [
        | inl e ↦ ground arith
        | inr (org, e) ↦
            let e' = hex_string_to_bytes_alloc (F.buffers.as_parent hash) hash org e in
            elim (Bool-cases (text_eq (take hash_length org) (c.sha256 file_data))) [
              | inr other ↦ ground arith
              | inl same ↦
                  let t = text_eq_sound (take hash_length org) (c.sha256 file_data) same in
                  elim (Option-cases (F.seal bn file_data)) [
                    | inl q ↦ ground arith
                    | inr (made, q) ↦ (ground arith, org, e', t, ground arith)
                  ]
            ]
      ]

  seal_block-none :
      (hash : Text) (size bn : ℕ) (file_data : List ℕ)
      → F.buffer hash ≡ true
      → (seal_block c F hash size bn file_data).1 ≡ none
      → (seal_block c F hash size bn file_data).0 ≢ crust_success
  unfolding seal_block
  seal_block-none hash size bn file_data buf h ok =
      elim (Option-cases (hex_string_to_bytes (F.buffers.as_parent hash) hash)) [
        | inl e ↦ ground arith
        | inr (org, e) ↦ elim (Bool-cases (text_eq (take hash_length org) (c.sha256 file_data))) [
          | inr other ↦ ground arith
          | inl same ↦ elim (Option-cases (F.seal bn file_data)) [
            | inl q ↦ ground arith
            | inr (made, q) ↦ ground arith
          ]
        ]
      ]

  -- What a leaf becomes.
  Leaf : Text → ℕ → Trees → Text → ℕ → F.State → List ℕ → Sealed c F → Type 0
  Leaf hash size links path bn s sealed r =
      (r.tree_json ≡ node (hexstring_safe true (c.sha256 sealed)) size 0 links)
      × (r.block_num ≡ bn + 1)
      × (F.replace_file (block_path path bn hash)
            (block_path path bn (hexstring_safe true (c.sha256 sealed))) sealed s
          ≡ (crust_success, r.files))

  fails : (status : CrustStatus) → (status == crust_success) ≡ false → status ≢ crust_success
  fails status e h = ground arith

  succeeds : (status : CrustStatus) → (status == crust_success) ≡ true → status ≡ crust_success
  succeeds status e = ground arith

  write_leaf-success :
      (hash : Text) (size : ℕ) (links : Trees) (path text : Text) (node_size bn : ℕ) (s : F.State)
      (o : CrustStatus × Option (List ℕ))
      → (o.1 ≡ none → o.0 ≢ crust_success)
      → (write_leaf c F hash size links path text node_size bn s o).status ≡ crust_success
      → (sealed : List ℕ) × (o.1 ≡ some sealed)
        × Leaf hash size links path bn s sealed
            (write_leaf c F hash size links path text node_size bn s o)
  unfolding write_leaf left_leaf Leaf
  write_leaf-success hash size links path text node_size bn s (status, none) never h =
      absurd (never refl h)
  write_leaf-success hash size links path text node_size bn s (status, some sealed) never h =
      let new_hash = hexstring_safe true (c.sha256 sealed) in
      let w = F.replace_file (block_path path bn hash) (block_path path bn new_hash) sealed s in
      elim (Bool-cases (w.0 == crust_success)) [
        | inr e ↦ absurd (fails w.0 e (rw e at h))
        | inl e ↦ rw e (sealed, refl, (refl, refl, ap (λ x. (x, w.1)) (succeeds w.0 e)))
      ]

  read_leaf-success :
      (hash : Text) (size : ℕ) (links : Trees) (path text : Text) (node_size bn : ℕ) (s : F.State)
      (o : CrustStatus × Option (List ℕ))
      → F.buffer hash ≡ true
      → (o.0 ≡ crust_success → o.1 ≢ none)
      → (read_leaf c F hash size links path text node_size bn s o).status ≡ crust_success
      → (file_data : List ℕ) × (sealed : List ℕ) × (o ≡ (crust_success, some file_data))
        × IsBlock hash size bn file_data sealed
        × Leaf hash size links path bn s sealed
            (read_leaf c F hash size links path text node_size bn s o)
  unfolding read_leaf left_leaf
  read_leaf-success hash size links path text node_size bn s (status, none) buf never h =
      absurd (never h refl)
  read_leaf-success hash size links path text node_size bn s (status, some file_data) buf never h =
      elim (Bool-cases (status == crust_success)) [
        | inr e ↦ absurd (fails status e (rw e at h))
        | inl e ↦
            let o = seal_block c F hash size bn file_data in
            let w =
              write_leaf-success hash size links path text node_size bn s o
                (seal_block-none hash size bn file_data buf) (rw e at h) in
            rw e (
              file_data,
              w.0,
              ap (λ x. (x, some file_data)) (succeeds status e),
              seal_block-some hash size bn file_data w.0 w.1,
              w.2,
            )
      ]

  -- The files that are read with success are there, and their buffers.
  pub record IsReadable : Type 0 where
    pub buffers : (h : Text) → F.buffer h ≡ true
    pub file :
        (p : Text) (t : F.State)
        → (F.get_storage_file p t).0 ≡ crust_success
        → (F.get_storage_file p t).1 ≢ none

  pub seal_leaf-IsSealed :
      (hash : Text) (size : ℕ) (links : Trees) (path text : Text) (node_size bn : ℕ) (s : F.State)
      → IsReadable
      → let r = seal_leaf c F hash size links path text node_size bn s in
        r.status ≡ crust_success
        → IsSealed path bn s (node hash size 0 links) r.tree_json r.block_num r.files
  unfolding seal_leaf IsBlock Leaf
  seal_leaf-IsSealed hash size links path text node_size bn s readable h =
      let old_path = block_path path bn hash in
      let (
        file_data,
        sealed,
        read,
        (same_size, org, bytes, same_hash, made),
        (tree, num, written),
      ) =
        read_leaf-success hash size links path text node_size bn s (F.get_storage_file old_path s)
          (readable.buffers hash) (readable.file old_path s) h in
      rw (tree, num)
        (block hash size links bn file_data org sealed s _ read same_size bytes same_hash made
          written)

  pub seal_parent-success :
      (hash : Text) (size n node_size : ℕ) (r : SealedLinks c F)
      → let o = seal_parent c F hash size n node_size r in
        o.status ≡ crust_success
        → (r.status ≡ crust_success)
          × (o.tree_json ≡ node (hexstring_safe true (c.sha256 r.sub_hashs)) size n r.links)
          × (o.block_num ≡ r.block_num)
          × (o.files ≡ r.files)
  unfolding seal_parent
  seal_parent-success hash size n node_size r h = ground arith

  -- A node is a leaf or has its links sealed.
  pub seal_node-cases :
      (hash : Text) (size n : ℕ) (links : Trees) (path text : Text) (node_size bn : ℕ) (s : F.State)
      → let o = seal_node c F (node hash size n links) path text node_size bn s in
        o.status ≡ crust_success
        → ((n ≡ 0) × (o ≡ seal_leaf c F hash size links path text node_size bn s))
          ⊎ ((n ≢ 0)
              × (o
                  ≡ seal_parent c F hash size n node_size
                      (seal_links c F links path (text ++ codes "{\"links\": [") 0 bn s)))
  unfolding seal_node
  seal_node-cases hash size n links path text node_size bn s h = elim (Bool-cases (n == 0)) [
    | inl e ↦ inl (ground arith, rw e refl)
    | inr e ↦ elim (Bool-cases (F.buffers.children hash)) [
      | inl b ↦ inr (λ z. ground arith, rw (e, b) refl)
      | inr b ↦ ground arith
    ]
  ]
