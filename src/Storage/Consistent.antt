-- ===== src/Storage/Consistent.antt =====
-- The operations on files and the workload statistics (src/enclave/storage/Storage.cpp).
use crust_sworker.Prelude.{
  ◌≡◌, refl, inl, inr, true, false, List, [], ◌∷◌, ◌++◌, arith, All, append_assoc, subst, sum_by,
  ◌+◌, ap₂, sum_by-append,
}
use crust_sworker.Prelude.Text.{Text}
use crust_sworker.Prelude.Changes.{
  Replaces, Replaces-append_left, Replaces-append_right, Removes-append_right, Removes,
  All-Replaces_old, All-Removes_old,
}
use crust_sworker.Workload.{
  Workload, FileEntry, FileStatus, unconfirmed, valid, lost, deleted, same_status, set_wl_spec,
  get_spec,
}
use crust_sworker.Workload.Counts.{CountsOf, Consistent, all_files, IsSmall, tally, one_if, size_if}
use crust_sworker.Workload.Counts.Tally.{
  spec_of, moved_counted, left_counted, came_counted, tally_removed, tally_removed_other, tally_out,
  tally_same,
}
use crust_sworker.Storage.{
  has_hash, set_current, confirm_entry, count_confirmed, count_deleted, storage_confirm_file,
  storage_delete_file, register_file,
}
use crust_sworker.Storage.Confirm.{confirm_checked_cases, confirm_new_cases}
use crust_sworker.Storage.Delete.{delete_checked_cases, delete_new_cases}

-- Every checked file with the hash has the current status `c`.
abbrev pub CheckedAre : FileStatus → Text → Workload → Type 0
CheckedAre c hash wl = All (λ e. has_hash hash e ≡ true → e.status.current ≡ c) wl.checked_files

-- A file that was unconfirmed and becomes valid, anywhere in the two lists.
confirmed-CountsOf :
    (e : FileEntry) (wl : Workload) (fs gs : List FileEntry)
    → Replaces e (set_current valid e) fs gs
    → IsSmall e
    → e.status.current ≡ unconfirmed
    → CountsOf wl.wl_spec_info fs
    → CountsOf (count_confirmed e wl).wl_spec_info gs
unfolding count_confirmed set_wl_spec set_current
confirmed-CountsOf e wl fs gs r small u h = record {
  unconfirmed_counted =
      moved_counted valid unconfirmed unconfirmed r small refl u refl wl.wl_spec_info refl
        h.unconfirmed_counted;
  valid_counted =
      moved_counted valid unconfirmed valid r small refl u refl wl.wl_spec_info refl
        h.valid_counted;
  lost_counted =
      moved_counted valid unconfirmed lost r small refl u refl wl.wl_spec_info refl h.lost_counted;
}

confirm_entry-unconfirmed :
    (e : FileEntry) → e.status.current ≡ unconfirmed → confirm_entry e ≡ set_current valid e
unfolding confirm_entry
confirm_entry-unconfirmed e u = ground arith

-- Confirming a file keeps the statistics right, if the sizes fit an `int`, no file is empty, and no
-- checked file with that hash was confirmed before.
pub storage_confirm_file-Consistent :
    (hash : Text) (wl : Workload)
    → Consistent wl
    → All IsSmall (all_files wl)
    → CheckedAre unconfirmed hash wl
    → Consistent (storage_confirm_file hash wl).1
unfolding storage_confirm_file count_confirmed set_wl_spec set_current
storage_confirm_file-Consistent hash wl h small fresh =
    elim (confirm_checked_cases hash wl.checked_files) [
      | inr (e, gs, q, m, r) ↦
          let u : e.status.current ≡ unconfirmed = All-Replaces_old _ r fresh m in
          let r' =
            subst (λ f. Replaces e f wl.checked_files gs) (confirm_entry-unconfirmed e u) r in
          let w = Replaces-append_left wl.new_files r' in
          rw (q, storage_confirm_file, confirm_entry-unconfirmed e u)
            (confirmed-CountsOf e wl _ _ w (All-Replaces_old IsSmall w small) u h)
      | inl (q, n) ↦ elim (confirm_new_cases hash wl.new_files) [
        | inr (e, gs, q', m, u, r) ↦
            let w = Replaces-append_right wl.checked_files r in
            rw (q, storage_confirm_file, q')
              (confirmed-CountsOf e wl _ _ w (All-Replaces_old IsSmall w small) u h)
        | inl (q', n') ↦ rw (q, storage_confirm_file, q') h
      ]
    ]

-- A file that leaves the live files: marked as deleted, or erased.
deleted-CountsOf :
    (e : FileEntry) (wl : Workload) (fs gs : List FileEntry)
    → Replaces e (set_current deleted e) fs gs
    → IsSmall e
    → CountsOf wl.wl_spec_info fs
    → CountsOf (count_deleted e wl).wl_spec_info gs
unfolding count_deleted set_current
deleted-CountsOf e wl fs gs r small h = record {
  unconfirmed_counted =
      left_counted e.status.current unconfirmed e small refl wl.wl_spec_info fs gs
        h.unconfirmed_counted (λ p. tally_out unconfirmed r p refl)
        (λ p. tally_same unconfirmed r p refl);
  valid_counted =
      left_counted e.status.current valid e small refl wl.wl_spec_info fs gs h.valid_counted
        (λ p. tally_out valid r p refl) (λ p. tally_same valid r p refl);
  lost_counted =
      left_counted e.status.current lost e small refl wl.wl_spec_info fs gs h.lost_counted
        (λ p. tally_out lost r p refl) (λ p. tally_same lost r p refl);
}

erased-CountsOf :
    (e : FileEntry) (wl : Workload) (fs gs : List FileEntry)
    → Removes e fs gs
    → IsSmall e
    → CountsOf wl.wl_spec_info fs
    → CountsOf (count_deleted e wl).wl_spec_info gs
unfolding count_deleted
erased-CountsOf e wl fs gs r small h = record {
  unconfirmed_counted =
      left_counted e.status.current unconfirmed e small refl wl.wl_spec_info fs gs
        h.unconfirmed_counted (tally_removed unconfirmed r) (tally_removed_other unconfirmed r);
  valid_counted =
      left_counted e.status.current valid e small refl wl.wl_spec_info fs gs h.valid_counted
        (tally_removed valid r) (tally_removed_other valid r);
  lost_counted =
      left_counted e.status.current lost e small refl wl.wl_spec_info fs gs h.lost_counted
        (tally_removed lost r) (tally_removed_other lost r);
}

-- Deleting a file keeps the statistics of the live statuses right, if the sizes fit an `int` and no
-- file is empty.
pub storage_delete_file-Consistent :
    (hash : Text) (wl : Workload)
    → Consistent wl
    → All IsSmall (all_files wl)
    → Consistent (storage_delete_file hash wl).1
unfolding storage_delete_file count_deleted set_wl_spec
storage_delete_file-Consistent hash wl h small = elim (delete_checked_cases hash wl.checked_files) [
  | inr (e, gs, q, m, r) ↦
      let w = Replaces-append_left wl.new_files r in
      rw (q, storage_delete_file) (deleted-CountsOf e wl _ _ w (All-Replaces_old IsSmall w small) h)
  | inl (q, n) ↦ elim (delete_new_cases hash wl.new_files) [
    | inr (e, gs, q', m, r) ↦
        let w = Removes-append_right wl.checked_files r in
        rw (q, storage_delete_file, q')
          (erased-CountsOf e wl _ _ w (All-Removes_old IsSmall w small) h)
    | inl (q', n') ↦ rw (q, storage_delete_file, q') h
  ]
]

-- A file at the end of the list comes in.
tally_appended :
    (c : FileStatus) (e : FileEntry) (fs : List FileEntry)
    → same_status unconfirmed c ≡ true
    → e.status.current ≡ unconfirmed
    → tally c (fs ++ (e ∷ []))
      ≡ spec_of (sum_by (one_if c) fs + 1) (sum_by (size_if c) fs + e.old_size)
tally_appended c e fs p u =
    ap₂ spec_of (ground (arith, sum_by-append (one_if c) fs (e ∷ [])))
      (ground (arith, sum_by-append (size_if c) fs (e ∷ [])))

tally_appended_other :
    (c : FileStatus) (e : FileEntry) (fs : List FileEntry)
    → same_status unconfirmed c ≡ false
    → e.status.current ≡ unconfirmed
    → tally c (fs ++ (e ∷ [])) ≡ tally c fs
tally_appended_other c e fs p u =
    ap₂ spec_of (ground (arith, sum_by-append (one_if c) fs (e ∷ [])))
      (ground (arith, sum_by-append (size_if c) fs (e ∷ [])))

-- Registering a sealed file keeps the statistics right, if it is not empty and its size fits an `int`.
pub register_file-Consistent :
    (e : FileEntry) (wl : Workload)
    → Consistent wl
    → IsSmall e
    → e.status.current ≡ unconfirmed
    → Consistent (register_file e wl)
unfolding register_file
register_file-Consistent e wl h small u =
    rw (← append_assoc wl.checked_files wl.new_files (e ∷ [])) (record {
      unconfirmed_counted = came unconfirmed h.unconfirmed_counted;
      valid_counted = came valid h.valid_counted;
      lost_counted = came lost h.lost_counted;
    })
  where
    came :
        (c : FileStatus)
        → get_spec c wl.wl_spec_info ≡ tally c (all_files wl)
        → get_spec c (register_file e wl).wl_spec_info ≡ tally c (all_files wl ++ (e ∷ []))
    came c k =
        came_counted unconfirmed c e wl.wl_spec_info (all_files wl) _ small k
          (λ p. tally_appended c e (all_files wl) p u)
          (λ p. tally_appended_other c e (all_files wl) p u)
