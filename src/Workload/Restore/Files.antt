-- ===== src/Workload/Restore/Files.antt =====
-- The statistics after the files are restored (`restore_file` in src/enclave/workload/Workload.cpp).
use crust_sworker.Prelude.{
  ◌+◌, ◌≡◌, sym, subst, ◌∙◌, ap₂, true, false, List, [], ◌∷◌, ◌++◌, All, arith, sum_by,
  sum_by-append, append_assoc, append-nil,
}
use crust_sworker.Workload.{
  Workload, FileEntry, FileStatus, unconfirmed, valid, lost, same_status, set_wl_spec, get_spec,
}
use crust_sworker.Workload.Counts.{CountsOf, IsSmall, tally, one_if, size_if}
use crust_sworker.Workload.Counts.Tally.{spec_of, came_counted}
use crust_sworker.Workload.Restore.{restore_entry, restore_entries, restore_file}

tally_added :
    (c : FileStatus) (e : FileEntry) (fs : List FileEntry)
    → same_status e.status.current c ≡ true
    → tally c (fs ++ (e ∷ []))
      ≡ spec_of (sum_by (one_if c) fs + 1) (sum_by (size_if c) fs + e.old_size)
tally_added c e fs p =
    ap₂ spec_of (ground (arith, sum_by-append (one_if c) fs (e ∷ [])))
      (ground (arith, sum_by-append (size_if c) fs (e ∷ [])))

tally_added_other :
    (c : FileStatus) (e : FileEntry) (fs : List FileEntry)
    → same_status e.status.current c ≡ false
    → tally c (fs ++ (e ∷ [])) ≡ tally c fs
tally_added_other c e fs p =
    ap₂ spec_of (ground (arith, sum_by-append (one_if c) fs (e ∷ [])))
      (ground (arith, sum_by-append (size_if c) fs (e ∷ [])))

restore_entry-CountsOf :
    (e : FileEntry) (wl : Workload) (fs : List FileEntry)
    → IsSmall e
    → CountsOf wl.wl_spec_info fs
    → CountsOf (restore_entry e wl).wl_spec_info (fs ++ (e ∷ []))
unfolding restore_entry set_wl_spec
restore_entry-CountsOf e wl fs small h = record {
  unconfirmed_counted = came unconfirmed h.unconfirmed_counted;
  valid_counted = came valid h.valid_counted;
  lost_counted = came lost h.lost_counted;
}
  where
    came :
        (c : FileStatus)
        → get_spec c wl.wl_spec_info ≡ tally c fs
        → get_spec c (restore_entry e wl).wl_spec_info ≡ tally c (fs ++ (e ∷ []))
    came c k =
        came_counted e.status.current c e wl.wl_spec_info fs _ small k (tally_added c e fs)
          (tally_added_other c e fs)

restore_entries-CountsOf :
    (es : List FileEntry) (wl : Workload)
    → All IsSmall es
    → CountsOf wl.wl_spec_info wl.checked_files
    → let r = restore_entries es wl in
      (r.checked_files ≡ wl.checked_files ++ es) × CountsOf r.wl_spec_info r.checked_files
unfolding restore_entries restore_entry set_wl_spec
restore_entries-CountsOf [] wl small h = (sym (append-nil wl.checked_files), h)
restore_entries-CountsOf (e ∷ es) wl small h =
    let (files, counted) =
      restore_entries-CountsOf es (restore_entry e wl) small.1
        (restore_entry-CountsOf e wl wl.checked_files small.0 h) in
    (files ∙ append_assoc wl.checked_files (e ∷ []) es, counted)

-- Restoring files, none of them empty and each of a size that an `int` holds, into a workload whose
-- statistics count no live file makes them the checked files, and the statistics are those of them: for
-- each of the three live statuses the number of its files and the sum of their sizes.
pub restore_file-CountsOf :
    (file_json : List FileEntry) (wl : Workload)
    → All IsSmall file_json
    → CountsOf wl.wl_spec_info []
    → let r = restore_file file_json wl in
      (r.checked_files ≡ file_json) × CountsOf r.wl_spec_info file_json
unfolding restore_file
restore_file-CountsOf es wl small h =
    let (files, counted) = restore_entries-CountsOf es (record wl { checked_files = [] }) small h in
    (files, subst (CountsOf _) files counted)
