-- ===== src/Workload/Files.antt =====
-- The file items of `checked_files` and `new_files` (src/enclave/include/Parameter.h, and
-- src/enclave/storage/Storage.cpp where they are made).
use crust_sworker.Prelude.{ℕ, Bool, true, false, List}

-- FILE_STATUS_UNCONFIRMED '0', FILE_STATUS_VALID '1', FILE_STATUS_LOST '2', FILE_STATUS_DELETED '3'
pub data FileStatus : Type 0 where
  unconfirmed valid lost deleted : FileStatus

-- `==` on two status characters.
abbrev pub same_status : FileStatus → FileStatus → Bool
same_status unconfirmed unconfirmed = true
same_status valid valid = true
same_status lost lost = true
same_status deleted deleted = true
same_status _ _ = false

-- The status text: CURRENT_STATUS 0, WAITING_STATUS 1, ORIGIN_STATUS 2.
pub record StatusChars : Type 0 where
  pub current : FileStatus
  pub waiting : FileStatus
  pub origin : FileStatus

-- FILE_HASH and FILE_OLD_HASH are byte arrays, the sizes and FILE_BLOCK_NUM are not negative.
pub record FileEntry : Type 0 where
  pub hash : List ℕ
  pub old_hash : List ℕ
  pub size : ℕ
  pub old_size : ℕ
  pub block_num : ℕ
  pub status : StatusChars
