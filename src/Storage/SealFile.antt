-- ===== src/Storage/SealFile.antt =====
-- src/enclave/storage/Storage.cpp, `storage_seal_file`: from the limit of the files to the new entry. The
-- function is one step here; it locks the two lists of files only to count them, and again to add the
-- new one.
pub mod Cases
use crust_sworker.Prelude.{
  ℕ, ◌+◌, ◌==◌, leb, Bool, List, [], ◌∷◌, ◌++◌, Option, none, some, if◌then◌else◌, length, take,
}
use crust_sworker.Prelude.Text.{Text, codes}
use crust_sworker.Status.{
  CrustStatus, crust_success, crust_file_number_exceed, crust_invalid_merkletree,
  crust_unexpected_error, file_number_upper_limit,
}
use crust_sworker.Crypto.{Crypto}
use crust_sworker.Hex.{hex_string_to_bytes}
use crust_sworker.Database.{LevelDb}
use crust_sworker.Persistence.{SumJson, Memory, persist_set_unsafe}
use crust_sworker.Merkle.{Tree, node, hash_of, validate_merkletree_json}
use crust_sworker.Workload.{Workload, FileEntry, unconfirmed}
use crust_sworker.Storage.{register_file}
use crust_sworker.Storage.Seal.{Files, Sealed, seal_node}
use crust_sworker.Validator.Meaningful.Block.{find}

-- `tree[MT_SIZE].ToInt()`
unfoldable pub size_of : Tree → ℕ
size_of (node hash size links_num links) = size

-- `old_path.substr(0, old_path.find(hash))`: all of the path where the hash is not in it.
unfoldable pub before_hash : Text → Text → Text
unfolding find
before_hash path hash = elim (find path hash 0) [ none ↦ path | some i ↦ take i path ]

-- The entry of a new file.
unfoldable pub new_entry : List ℕ → List ℕ → ℕ → ℕ → ℕ → FileEntry
new_entry hash old_hash size old_size block_num = record {
  hash = hash;
  old_hash = old_hash;
  size = size;
  old_size = old_size;
  block_num = block_num;
  status = record { current = unconfirmed; waiting = unconfirmed; origin = unconfirmed };
}

-- What the function meets beside the blocks: the database with the JSON library (the text of
-- `tree_meta_json`), and the allocations for the hashes of the new entry.
module _ (c : Crypto) (F : Files) (L : LevelDb) (J : SumJson) (mem : Memory)
    (dump_meta : Text → ℕ → Text) (alloc : Text → Bool) where
  pub record SealOutcome : Type 0 where
    pub status : CrustStatus
    pub wl : Workload
    pub files : F.State
    pub db : L.State

  -- The function leaves without a new entry.
  unfoldable pub seal_failed : CrustStatus → F.State → L.State → Workload → SealOutcome
  seal_failed status s db wl = record { status = status; wl = wl; files = s; db = db }

  -- The end: the tree and its metadata go to the database, the entry to the workload.
  unfoldable pub store_entry :
      Text → Text → Text → FileEntry → F.State → L.State → Workload → SealOutcome
  unfolding seal_failed persist_set_unsafe register_file
  store_entry new_hash org_hash text e s db wl =
      let tree = persist_set_unsafe L J mem new_hash text db in
      let meta =
        persist_set_unsafe L J mem (new_hash ++ codes "_meta") (dump_meta org_hash e.old_size)
          tree.1 in
      if tree.0 == crust_success
      then (if meta.0 == crust_success
          then record { status = meta.0; wl = register_file e wl; files = s; db = meta.1 }
          else seal_failed meta.0 s meta.1 wl)
      else seal_failed tree.0 s tree.1 wl

  -- From the two hashes of the entry on; `none` is NULL.
  unfoldable pub enter_file :
      Tree
      → Sealed c F
      → Option (List ℕ)
      → Option (List ℕ)
      → F.State
      → L.State
      → Workload
      → SealOutcome
  unfolding seal_failed store_entry new_entry size_of
  enter_file t r none old_u s db wl = seal_failed crust_unexpected_error s db wl
  enter_file t r (some new_u) none s db wl = seal_failed crust_unexpected_error s db wl
  enter_file t r (some new_u) (some old_u) s db wl =
      store_entry (hash_of r.tree_json) (hash_of t) r.text
        (new_entry new_u old_u r.node_size (size_of t) r.block_num) s db wl

  -- From the sealed tree on: the directory is renamed. The tree's text then goes to the application
  -- (`ocall_store_sealed_merkletree`), which is not modelled.
  unfoldable pub finish_seal : Tree → Text → Sealed c F → L.State → Workload → SealOutcome
  unfolding seal_failed enter_file before_hash
  finish_seal t path r db wl =
      let new_hash = hash_of r.tree_json in
      let w = F.rename_dir path (before_hash path (hash_of t) ++ new_hash) r.files in
      if r.status == crust_success
      then (if w.0 == crust_success
          then enter_file t r (hex_string_to_bytes (alloc new_hash) new_hash)
              (hex_string_to_bytes (alloc (hash_of t)) (hash_of t)) w.1 db wl
          else seal_failed w.0 w.1 db wl)
      else seal_failed r.status r.files db wl

  -- `storage_seal_file`; no tree is an empty object.
  unfoldable pub storage_seal_file : Option Tree → Text → F.State → L.State → Workload → SealOutcome
  unfolding seal_failed finish_seal seal_node validate_merkletree_json
  storage_seal_file tree path s db wl =
      if leb file_number_upper_limit (length wl.checked_files + length wl.new_files)
      then seal_failed crust_file_number_exceed s db wl
      else (elim tree [
        | none ↦ seal_failed crust_invalid_merkletree s db wl
        | some t ↦
            let valid = validate_merkletree_json c F.buffers t in
            if valid == crust_success
            then finish_seal t path (seal_node c F t path [] 0 0 s) db wl
            else seal_failed valid s db wl
      ])
