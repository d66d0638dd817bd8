-- ===== src/Storage/Unseal.antt =====
-- src/enclave/storage/Storage.cpp, `storage_unseal_file`: each file of a directory is unsealed and
-- written back, and the directory gets the hash from before sealing for its name. The lock on the
-- buffer of files is held throughout; the function is one step here.
pub mod Chain
pub mod Whole
pub mod Private
pub mod Restored
mod Tests
use crust_sworker.Prelude.{
  ℕ, ◌+◌, ◌==◌, not, ltb, Bool, true, false, List, [], ◌∷◌, ◌++◌, Option, none, some, if◌then◌else◌,
  length,
}
use crust_sworker.Prelude.Text.{Text, codes}
use crust_sworker.Status.{
  CrustStatus, crust_success, crust_malloc_failed, crust_unseal_data_failed,
  crust_storage_unseal_file_failed, crust_storage_update_file_failed, crust_malware_data_block,
}
use crust_sworker.Crypto.{Crypto}
use crust_sworker.Hex.{hexstring_safe}
use crust_sworker.Database.{LevelDb}
use crust_sworker.Persistence.{SumJson, Memory, Got, got, overrun, persist_get_unsafe}
use crust_sworker.Storage.Seal.{Files}
use crust_sworker.Storage.SealFile.{before_hash}
use crust_sworker.Validator.Meaningful.Block.{starts_with}

-- SWORKER_PRIVATE_TAG
abbrev pub private_tag : Text
private_tag = codes "&+CRUSTSWORKERPRIVATE+&"

-- `sgx_unseal_data`, `sgx_get_encrypt_txt_len`, and whether the two allocations of a round give
-- buffers, for the sealed data and for the sizes of the buffer of the plain data.
pub record Unsealing : Type 0 where
  pub unseal : List ℕ → Option (List ℕ)
  pub encrypt_txt_len : List ℕ → ℕ
  pub malloc : List ℕ → Bool
  pub realloc : ℕ → Bool

-- The text before the last `/` and the text after it, if there is one.
unfoldable pub split_last : Text → Option (Text × Text)
split_last [] = none
split_last (x ∷ xs) = elim (split_last xs) [
  | some (before, after) ↦ some (x ∷ before, after)
  | none ↦ if x == b'/' then some ([], xs) else none
]

-- `dir.substr(0, dir.find_last_of("/"))`: all of the text where there is no `/`.
unfoldable pub up_dir : Text → Text
unfolding split_last
up_dir dir = elim (split_last dir) [ none ↦ dir | some (before, after) ↦ before ]

-- `dir.substr(dir.find_last_of("/") + 1, dir.size())`
unfoldable pub base_name : Text → Text
unfolding split_last
base_name dir = elim (split_last dir) [ none ↦ dir | some (before, after) ↦ after ]

-- `dir + "/" + path`
unfoldable pub join_path : Text → Text → Text
join_path dir path = dir ++ codes "/" ++ path

-- The path that a file with the plain data gets: its tag and the hash of the data.
unfoldable pub plain_path : Crypto → Text → Text → List ℕ → Text
unfolding before_hash join_path
plain_path c dir path data_ =
    join_path dir
      (before_hash path (codes "_") ++ codes "_" ++ hexstring_safe true (c.sha256 data_))

module _ (c : Crypto) (F : Files) (U : Unsealing) where
  -- Whether the loop goes on, the status, the files, and `decrypted_data_len`, the size of the buffer of
  -- the plain data.
  pub record Round : Type 0 where
    pub goes_on : Bool
    pub status : CrustStatus
    pub files : F.State
    pub decrypted_data_len : ℕ

  unfoldable pub round_end : Bool → CrustStatus → F.State → ℕ → Round
  round_end goes_on status s len = record {
    goes_on = goes_on;
    status = status;
    files = s;
    decrypted_data_len = len;
  }

  -- From the plain data on. Data that are shorter than the tag are not private; memcmp goes over the
  -- end of a buffer that is shorter than it.
  unfoldable pub replace_plain : Text → Text → List ℕ → F.State → ℕ → Round
  unfolding round_end
  replace_plain dir path data_ s len =
      let w = F.replace_file (join_path dir path) (plain_path c dir path data_) data_ s in
      if starts_with private_tag data_
      then round_end false crust_malware_data_block s len
      else (if w.0 == crust_success
          then round_end true w.0 w.1 len
          else round_end false crust_storage_update_file_failed w.1 len)

  -- From the sealed data on.
  unfoldable pub unseal_data : Text → Text → List ℕ → F.State → ℕ → Round
  unfolding round_end replace_plain
  unseal_data dir path sealed s len =
      let len_r = U.encrypt_txt_len sealed in
      let len' = if ltb len len_r then len_r else len in
      if not (U.malloc sealed)
      then round_end false crust_malloc_failed s len
      else (if (if ltb len len_r then U.realloc len_r else true)
          then (elim (U.unseal sealed) [
            | none ↦ round_end false crust_unseal_data_failed s len'
            | some data_ ↦ replace_plain dir path data_ s len'
          ])
          else round_end false crust_malloc_failed s len')

  -- What was read: a status, and the data where the pointer is not NULL.
  unfoldable pub unseal_read : Text → Text → CrustStatus × Option (List ℕ) → F.State → ℕ → Round
  unfolding round_end unseal_data
  unseal_read dir path (status, none) s len = round_end false status s len
  unseal_read dir path (status, some sealed) s len =
      if status == crust_success
      then unseal_data dir path sealed s len
      else round_end false status s len

  -- The body of the loop.
  unfoldable pub unseal_one : Text → Text → F.State → ℕ → Round
  unfolding unseal_read
  unseal_one dir path s len = unseal_read dir path (F.get_storage_file (join_path dir path) s) s len

  -- The loop over the files.
  unfoldable pub unseal_all : Text → List Text → CrustStatus → F.State → ℕ → Round
  unfolding round_end unseal_one
  unseal_all dir [] status s len = round_end true status s len
  unseal_all dir (path ∷ rest) status s len =
      let r = unseal_one dir path s len in
      let later = unseal_all dir rest r.status r.files r.decrypted_data_len in
      if r.goes_on then later else r

  -- What the function leaves: the status, the files, and what it writes to `p_new_path`.
  pub record UnsealOutcome : Type 0 where
    pub status : CrustStatus
    pub files : F.State
    pub new_path : Option Text

  -- After the loop: the directory is renamed, and its new path is written whether that succeeds or not.
  unfoldable pub finish_unseal : Text → Text → Round → UnsealOutcome
  finish_unseal dir new_dir r =
      let w = F.rename_dir dir new_dir r.files in
      if r.goes_on
      then record { status = w.0; files = w.1; new_path = some new_dir }
      else record { status = r.status; files = r.files; new_path = none }

  unfoldable pub unseal_refused : F.State → UnsealOutcome
  unseal_refused s = record {
    status = crust_storage_unseal_file_failed;
    files = s;
    new_path = none;
  }

  -- From the metadata on; `old_hash_of` is the JSON library's reading of FILE_OLD_HASH. Metadata that are
  -- read over the end of a buffer are not followed further.
  unfoldable pub unseal_with :
      (Text → Text) → List Text → Text → F.State → Got → Option UnsealOutcome
  unfolding unseal_all finish_unseal unseal_refused
  unseal_with old_hash_of files dir s overrun = none
  unseal_with old_hash_of files dir s (got status none) = some (unseal_refused s)
  unseal_with old_hash_of files dir s (got status (some meta)) =
      if status == crust_success
      then some (
          finish_unseal dir (join_path (up_dir dir) (old_hash_of meta))
            (unseal_all dir files status s 0))
      else some (unseal_refused s)

  unfoldable pub storage_unseal_file :
      (L : LevelDb)
      → SumJson
      → Memory
      → (Text → Text)
      → List Text
      → Text
      → F.State
      → L.State
      → Option UnsealOutcome
  unfolding unseal_with
  storage_unseal_file L J mem old_hash_of files dir s db =
      unseal_with old_hash_of files dir s
        (persist_get_unsafe L J mem (base_name dir ++ codes "_meta") db)
