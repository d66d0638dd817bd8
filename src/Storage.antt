-- ===== src/Storage.antt =====
-- src/enclave/storage/Storage.cpp: confirming, deleting and registering files. A step holds the locks
-- of `checked_files` and `new_files` from its start to its end, as the functions do. JSON's `ToString`
-- Sealing and unsealing are in the modules Seal, SealFile and Unseal.
-- of a hash is its hexadecimal text.

pub mod Confirm
pub mod Delete
pub mod Consistent
pub mod Drift
pub mod Seal
pub mod SealFile
pub mod Unseal
mod Tests
use crust_sworker.Prelude.{
  ℕ, Bool, true, false, ◌&&◌, List, [], ◌∷◌, ◌++◌, Option, none, some, if◌then◌else◌,
}
use crust_sworker.Prelude.Int.{ℤ, pos, ◌-ℤ◌, to_int32}
use crust_sworker.Prelude.Text.{Text, text_eq, codes}
use crust_sworker.Status.{CrustStatus, crust_success}
use crust_sworker.Hex.{hexstring_safe}
use crust_sworker.Workload.{
  Workload, FileEntry, FileStatus, unconfirmed, valid, deleted, same_status, set_wl_spec,
  set_wl_spec_related, add_new_file,
}

-- `(*it)[FILE_HASH].ToString().compare(hash) == 0`
unfoldable pub has_hash : Text → FileEntry → Bool
has_hash hash e = text_eq (hexstring_safe true e.hash) hash

unfoldable pub set_current : FileStatus → FileEntry → FileEntry
set_current c e = record e { status = record (e.status) { current = c } }

unfoldable pub is_current : FileStatus → FileEntry → Bool
is_current c e = same_status e.status.current c

-- `if (status->get_char(CURRENT_STATUS) == FILE_STATUS_UNCONFIRMED) status->set_char(…)`
unfoldable pub confirm_entry : FileEntry → FileEntry
unfolding is_current set_current
confirm_entry e = if is_current unconfirmed e then set_current valid e else e

-- The loop over `checked_files` from the back, which stops at the first item with the hash. The
-- result is `confirmed_file` and the files after it.
unfoldable pub confirm_checked : Text → List FileEntry → Option (FileEntry × List FileEntry)
unfolding confirm_entry has_hash
confirm_checked hash [] = none
confirm_checked hash (e ∷ es) = elim (confirm_checked hash es) [
  | some (c, es') ↦ some (c, e ∷ es')
  | none ↦ if has_hash hash e then some (confirm_entry e, confirm_entry e ∷ es) else none
]

-- The loop over `new_files` from the back, which goes on where the item is not unconfirmed.
unfoldable pub confirm_new : Text → List FileEntry → Option (FileEntry × List FileEntry)
unfolding is_current set_current has_hash
confirm_new hash [] = none
confirm_new hash (e ∷ es) = elim (confirm_new hash es) [
  | some (c, es') ↦ some (c, e ∷ es')
  | none ↦
      if has_hash hash e && is_current unconfirmed e
      then some (set_current valid e, set_current valid e ∷ es)
      else none
]

-- `wl->set_wl_spec(FILE_STATUS_VALID, FILE_STATUS_UNCONFIRMED, confirmed_file[FILE_OLD_SIZE].ToInt())`
unfoldable pub count_confirmed : FileEntry → Workload → Workload
unfolding set_wl_spec_related
count_confirmed e wl = set_wl_spec_related valid unconfirmed (to_int32 (pos e.old_size)) wl

unfoldable pub storage_confirm_file : Text → Workload → CrustStatus × Workload
unfolding confirm_checked confirm_new
storage_confirm_file hash wl = elim (confirm_checked hash wl.checked_files) [
  | some (e, fs) ↦ (crust_success, count_confirmed e (record wl { checked_files = fs }))
  | none ↦ elim (confirm_new hash wl.new_files) [
    | some (e, fs) ↦ (crust_success, count_confirmed e (record wl { new_files = fs }))
    | none ↦ (crust_success, wl)
  ]
]

-- The loop over `checked_files` from the front. `deleted_file` is the item before it is marked.
unfoldable pub delete_checked : Text → List FileEntry → Option (FileEntry × List FileEntry)
unfolding has_hash set_current
delete_checked hash [] = none
delete_checked hash (e ∷ es) =
    if has_hash hash e
    then some (e, set_current deleted e ∷ es)
    else (elim (delete_checked hash es) [ some (d, es') ↦ some (d, e ∷ es') | none ↦ none ])

-- The loop over `new_files` from the back, which erases the item.
unfoldable pub delete_new : Text → List FileEntry → Option (FileEntry × List FileEntry)
unfolding has_hash
delete_new hash [] = none
delete_new hash (e ∷ es) = elim (delete_new hash es) [
  | some (d, es') ↦ some (d, e ∷ es')
  | none ↦ if has_hash hash e then some (e, es) else none
]

-- The keys that are deleted from the database: the tree and its metadata.
unfoldable pub deleted_keys : FileEntry → List Text
deleted_keys e = hexstring_safe true e.hash ∷ (hexstring_safe true e.hash ++ codes "_meta") ∷ []

-- `wl->set_wl_spec(deleted_file[FILE_STATUS].get_char(CURRENT_STATUS), -…ToInt())`
unfoldable pub count_deleted : FileEntry → Workload → Workload
unfolding set_wl_spec
count_deleted e wl = set_wl_spec e.status.current (to_int32 (pos 0 -ℤ pos e.old_size)) wl

-- The result is the status, the workload and the deleted keys in order.
unfoldable pub storage_delete_file : Text → Workload → CrustStatus × Workload × List Text
unfolding delete_checked delete_new deleted_keys
storage_delete_file hash wl = elim (delete_checked hash wl.checked_files) [
  | some (e, fs) ↦
      (crust_success, count_deleted e (record wl { checked_files = fs }), deleted_keys e)
  | none ↦ elim (delete_new hash wl.new_files) [
    | some (e, fs) ↦ (crust_success, count_deleted e (record wl { new_files = fs }), deleted_keys e)
    | none ↦ (crust_success, wl, [])
  ]
]

-- The end of `storage_seal_file`: the item goes to `new_files` and is counted as unconfirmed.
unfoldable pub register_file : FileEntry → Workload → Workload
unfolding add_new_file set_wl_spec
register_file e wl = set_wl_spec unconfirmed (to_int32 (pos e.old_size)) (add_new_file e wl)
