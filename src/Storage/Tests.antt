-- ===== src/Storage/Tests.antt =====
-- Examples for src/enclave/storage/Storage.cpp.
use crust_sworker.Prelude.{ℕ, ◌≡◌, refl, [], ◌∷◌, true, arith, All, inr, false≢true, sym}
use crust_sworker.Prelude.Int.{pos, ◌-ℤ◌}
use crust_sworker.Prelude.Text.{codes, text_eq}
use crust_sworker.Status.{crust_success}
use crust_sworker.Hex.{hexstring_safe}
use crust_sworker.Workload.{
  Workload, FileEntry, FileStatus, WlSpec, unconfirmed, valid, deleted, init, get_spec,
}
use crust_sworker.Workload.Counts.{Consistent, all_files, IsSmall}
use crust_sworker.Storage.{has_hash, storage_confirm_file, storage_delete_file, register_file}
use crust_sworker.Storage.Confirm.{NoneHas}
use crust_sworker.Storage.Consistent.{
  CheckedAre, storage_confirm_file-Consistent, storage_delete_file-Consistent,
  register_file-Consistent,
}
use crust_sworker.Storage.Drift.{storage_confirm_file-recounts, register_file-Misread}

abbrev file : ℕ → ℕ → FileStatus → FileEntry
file hash size c = record {
  hash = hash ∷ [];
  old_hash = hash ∷ [];
  size = size;
  old_size = size;
  block_num = 1;
  status = record { current = c; waiting = unconfirmed; origin = unconfirmed };
}

abbrev counts : ℕ → ℕ → ℕ → ℕ → WlSpec
counts n size m size' = record {
  unconfirmed_spec = record { num = pos n; size = pos size };
  valid_spec = record { num = pos m; size = pos size' };
  lost_spec = record { num = pos 0; size = pos 0 };
  deleted_spec = record { num = pos 0; size = pos 0 };
}

-- Two checked files, of which the first waits for confirmation, and a new one.
abbrev files : Workload
files = record init {
  checked_files = file 1 100 unconfirmed ∷ file 2 200 valid ∷ [];
  new_files = file 3 50 unconfirmed ∷ [];
  wl_spec_info = counts 2 150 1 200;
}

files-Consistent : Consistent files
unfolding get_spec
files-Consistent = record { unconfirmed_counted = refl; valid_counted = refl; lost_counted = refl }

files-IsSmall : All IsSmall (all_files files)
files-IsSmall = ground arith

files-CheckedAre : CheckedAre unconfirmed (codes "01") files
unfolding has_hash hexstring_safe text_eq
files-CheckedAre = (λ m. refl, ((λ m. absurd (false≢true m)), tt))

storage_confirm_file-Consistent_example : Consistent (storage_confirm_file (codes "01") files).1
storage_confirm_file-Consistent_example =
    storage_confirm_file-Consistent (codes "01") files files-Consistent files-IsSmall
      files-CheckedAre

storage_delete_file-Consistent_example : Consistent (storage_delete_file (codes "03") files).1
storage_delete_file-Consistent_example =
    storage_delete_file-Consistent (codes "03") files files-Consistent files-IsSmall

register_file-Consistent_example : Consistent (register_file (file 4 70 unconfirmed) files)
register_file-Consistent_example =
    register_file-Consistent (file 4 70 unconfirmed) files files-Consistent (ground arith) refl

-- The file was confirmed before.
abbrev confirmed_files : Workload
confirmed_files = record init {
  checked_files = file 2 200 valid ∷ [];
  wl_spec_info = counts 0 0 1 200;
}

confirmed_files-Consistent : Consistent confirmed_files
unfolding get_spec
confirmed_files-Consistent = record {
  unconfirmed_counted = refl;
  valid_counted = refl;
  lost_counted = refl;
}

confirmed_files-HasHash : ¬ NoneHas (codes "02") confirmed_files.checked_files
unfolding has_hash hexstring_safe text_eq
confirmed_files-HasHash (m, n) = false≢true (sym m)

storage_confirm_file-recounts_example :
    let r = storage_confirm_file (codes "02") confirmed_files in
    (r.0 ≡ crust_success) × (all_files r.1 ≡ all_files confirmed_files) × ¬ Consistent r.1
storage_confirm_file-recounts_example =
    storage_confirm_file-recounts (codes "02") confirmed_files confirmed_files-Consistent
      ((λ m. refl), tt) confirmed_files-HasHash

-- A file of three gigabytes.
abbrev big_file : FileEntry
big_file = file 4 3221225472 unconfirmed

register_file-Misread_example :
    ((get_spec unconfirmed (register_file big_file files).wl_spec_info).num
      ≡ (get_spec unconfirmed files.wl_spec_info).num -ℤ pos 1)
    × ¬ Consistent (register_file big_file files)
register_file-Misread_example =
    register_file-Misread big_file files files-Consistent refl (inr (omega arith))

-- The deleted item stands before a file with the same hash that is new again.
abbrev reused : Workload
reused = record init {
  checked_files = file 2 200 valid ∷ file 1 100 deleted ∷ [];
  new_files = file 1 100 unconfirmed ∷ [];
}

reused-NoneHas : NoneHas (codes "01") (file 2 200 valid ∷ [])
unfolding has_hash hexstring_safe text_eq
reused-NoneHas = (refl, tt)

reused-HasHash : has_hash (codes "01") (file 1 100 deleted) ≡ true
unfolding has_hash hexstring_safe text_eq
reused-HasHash = refl
