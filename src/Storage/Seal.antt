-- ===== src/Storage/Seal.antt =====
-- src/enclave/storage/Storage.cpp, `_storage_seal_file`: each block of a file is checked, sealed and
-- written back, and the Merkle tree is made anew over the sealed blocks.
pub mod Blocks
pub mod Leaves
pub mod Whole
mod Tests
use crust_sworker.Prelude.{
  ℕ, ◌+◌, ◌==◌, not, Bool, true, false, List, [], ◌∷◌, ◌++◌, Option, none, some, if◌then◌else◌,
  length, take,
}
use crust_sworker.Prelude.Text.{Text, codes, text_eq}
use crust_sworker.Prelude.Decimal.{to_string}
use crust_sworker.Status.{
  CrustStatus, crust_success, crust_malloc_failed, crust_seal_data_failed,
  crust_storage_new_file_size_error, crust_storage_unexpected_file_block, hash_length,
}
use crust_sworker.Crypto.{Crypto}
use crust_sworker.Hex.{hexstring_safe, hex_string_to_bytes}
use crust_sworker.Merkle.{Tree, node, Trees, none_left, link, hash_of, Buffers, hash_bytes}

-- What the function meets: the files outside the enclave through the ocalls, over an unknown state,
-- `sgx_seal_data` for the block at an index, and the allocations.
pub record Files : Type 1 where
  pub State : Type 0
  pub get_storage_file : Text → State → CrustStatus × Option (List ℕ)
  pub replace_file : Text → Text → List ℕ → State → CrustStatus × State
  pub rename_dir : Text → Text → State → CrustStatus × State
  pub seal : ℕ → List ℕ → Option (List ℕ)
  pub buffer : Text → Bool
  pub buffers : Buffers

-- `seal_data_mrsigner`. It tests its parameter instead of the buffer, so a failed allocation is not
-- noticed and writes to NULL; that is not modelled.
unfoldable pub seal_data_mrsigner : (List ℕ → Option (List ℕ)) → List ℕ → CrustStatus × List ℕ
seal_data_mrsigner seal src = elim (seal src) [
  | none ↦ (crust_seal_data_failed, [])
  | some sealed ↦ (crust_success, sealed)
]

-- `path + "/" + to_string(block_num) + "_" + hash`
unfoldable pub block_path : Text → ℕ → Text → Text
block_path path block_num hash = path ++ codes "/" ++ to_string block_num ++ codes "_" ++ hash

-- The text of a sealed leaf.
unfoldable pub leaf_text : Text → ℕ → Text
leaf_text hash size =
    codes "{\"links_num\":"
    ++ to_string 0
    ++ codes ","
    ++ codes "\"hash\":\""
    ++ hash
    ++ codes "\","
    ++ codes "\"size\":"
    ++ to_string size
    ++ codes "}"

-- The text of a sealed node after its links.
unfoldable pub node_text : ℕ → Text → ℕ → Text
node_text links_num hash size =
    codes "],\"links_num\":"
    ++ to_string links_num
    ++ codes ","
    ++ codes "\"hash\":\""
    ++ hash
    ++ codes "\","
    ++ codes "\"size\":"
    ++ to_string size
    ++ codes "}"

unfoldable pub is_last : Trees → Bool
is_last none_left = true
is_last (link t ts) = false

module _ (c : Crypto) (F : Files) where
  -- What a call leaves: its status, `tree_json`, and `tree`, `node_size` and `block_num`.
  pub record Sealed : Type 0 where
    pub status : CrustStatus
    pub tree_json : Tree
    pub text : Text
    pub node_size : ℕ
    pub block_num : ℕ
    pub files : F.State

  -- The same of the loop over the links, with the bytes in `sub_hashs`.
  pub record SealedLinks : Type 0 where
    pub status : CrustStatus
    pub links : Trees
    pub sub_hashs : List ℕ
    pub text : Text
    pub cur_size : ℕ
    pub block_num : ℕ
    pub files : F.State

  -- The checks of a block that was read, and the sealing: a status, and the sealed data where the
  -- function goes on. Without a buffer the status stays success.
  unfoldable pub seal_block : Text → ℕ → ℕ → List ℕ → CrustStatus × Option (List ℕ)
  unfolding seal_data_mrsigner
  seal_block hash size block_num file_data =
      if not (size == length file_data)
      then (crust_storage_new_file_size_error, none)
      else (if not (F.buffer hash)
          then (crust_success, none)
          else (elim (hex_string_to_bytes (F.buffers.as_parent hash) hash) [
            | none ↦ (crust_malloc_failed, none)
            | some org_hash ↦
                if not (text_eq (take hash_length org_hash) (c.sha256 file_data))
                then (crust_storage_unexpected_file_block, none)
                else (let r = seal_data_mrsigner (F.seal block_num) file_data in
                    if r.0 == crust_success then (r.0, some r.1) else (r.0, none))
          ]))

  -- The function leaves a leaf as it was.
  unfoldable pub left_leaf : Text → ℕ → Trees → Text → ℕ → ℕ → CrustStatus → F.State → Sealed
  left_leaf hash size links text node_size block_num status s = record {
    status = status;
    tree_json = node hash size 0 links;
    text = text;
    node_size = node_size;
    block_num = block_num;
    files = s;
  }

  -- From the sealed data on, if there are any.
  unfoldable pub write_leaf :
      Text → ℕ → Trees → Text → Text → ℕ → ℕ → F.State → CrustStatus × Option (List ℕ) → Sealed
  unfolding left_leaf block_path leaf_text
  write_leaf hash size links path text node_size block_num s (status, none) =
      left_leaf hash size links text node_size block_num status s
  write_leaf hash size links path text node_size block_num s (status, some sealed) =
      let new_hash = hexstring_safe true (c.sha256 sealed) in
      let w =
        F.replace_file (block_path path block_num hash) (block_path path block_num new_hash) sealed
          s in
      if w.0 == crust_success
      then record {
        status = w.0;
        tree_json = node new_hash size 0 links;
        text = text ++ leaf_text new_hash (length sealed);
        node_size = node_size + length sealed;
        block_num = block_num + 1;
        files = w.1;
      }
      else left_leaf hash size links text node_size block_num w.0 w.1

  -- From the file data on, if there are any.
  unfoldable pub read_leaf :
      Text → ℕ → Trees → Text → Text → ℕ → ℕ → F.State → CrustStatus × Option (List ℕ) → Sealed
  unfolding left_leaf seal_block write_leaf
  read_leaf hash size links path text node_size block_num s (status, none) =
      left_leaf hash size links text node_size block_num status s
  read_leaf hash size links path text node_size block_num s (status, some file_data) =
      if status == crust_success
      then write_leaf hash size links path text node_size block_num s
          (seal_block hash size block_num file_data)
      else left_leaf hash size links text node_size block_num status s

  unfoldable pub seal_leaf : Text → ℕ → Trees → Text → Text → ℕ → ℕ → F.State → Sealed
  unfolding read_leaf block_path
  seal_leaf hash size links path text node_size block_num s =
      read_leaf hash size links path text node_size block_num s
        (F.get_storage_file (block_path path block_num hash) s)

  -- The end of a node, after its links.
  unfoldable pub seal_parent : Text → ℕ → ℕ → ℕ → SealedLinks → Sealed
  unfolding node_text
  seal_parent hash size links_num node_size r =
      let new_hash = hexstring_safe true (c.sha256 r.sub_hashs) in
      if r.status == crust_success
      then record {
        status = r.status;
        tree_json = node new_hash size links_num r.links;
        text = r.text ++ node_text links_num new_hash r.cur_size;
        node_size = node_size + r.cur_size;
        block_num = r.block_num;
        files = r.files;
      }
      else record {
        status = r.status;
        tree_json = node hash size links_num r.links;
        text = r.text;
        node_size = node_size;
        block_num = r.block_num;
        files = r.files;
      }

  -- The loop leaves with a status after a link.
  unfoldable pub stop_at : CrustStatus → Trees → Sealed → SealedLinks
  stop_at status ts r = record {
    status = status;
    links = link r.tree_json ts;
    sub_hashs = [];
    text = r.text;
    cur_size = r.node_size;
    block_num = r.block_num;
    files = r.files;
  }

  -- After a link that was sealed, with the bytes of its new hash: it goes in front of the later ones.
  unfoldable pub put_link : Option (List ℕ) → Sealed → Trees → SealedLinks → SealedLinks
  unfolding stop_at
  put_link none r ts rest = stop_at crust_malloc_failed ts r
  put_link (some bytes) r ts rest = record rest {
    links = link r.tree_json rest.links;
    sub_hashs = bytes ++ rest.sub_hashs;
  }

  unfoldable mutual
    unfolding seal_leaf seal_parent stop_at put_link is_last hash_bytes

    -- `_storage_seal_file`. Its success at once on an empty object has no tree here: `storage_seal_file`
    -- turns an empty root away, and a child that the validator passed has a hash.
    pub seal_node : Tree → Text → Text → ℕ → ℕ → F.State → Sealed
    seal_node (node hash size links_num links) path text node_size block_num s =
        let r = seal_links links path (text ++ codes "{\"links\": [") 0 block_num s in
        if links_num == 0
        then seal_leaf hash size links path text node_size block_num s
        else (if F.buffers.children hash
            then seal_parent hash size links_num node_size r
            else record {
              status = crust_malloc_failed;
              tree_json = node hash size links_num links;
              text = text ++ codes "{\"links\": [";
              node_size = node_size;
              block_num = block_num;
              files = s;
            })

    -- The loop over the links. It goes to the number that the node says, which is the number of links
    -- in a tree that the validator passed (`IsCounted`).
    pub seal_links : Trees → Text → Text → ℕ → ℕ → F.State → SealedLinks
    seal_links none_left path text cur_size block_num s = record {
      status = crust_success;
      links = none_left;
      sub_hashs = [];
      text = text;
      cur_size = cur_size;
      block_num = block_num;
      files = s;
    }
    seal_links (link t ts) path text cur_size block_num s =
        let r = seal_node t path text cur_size block_num s in
        let new_hash = hash_of r.tree_json in
        let rest =
          seal_links ts path (if is_last ts then r.text else r.text ++ codes ",") r.node_size
            r.block_num r.files in
        if r.status == crust_success
        then put_link (hash_bytes (F.buffers.as_child new_hash) new_hash) r ts rest
        else stop_at r.status ts r
