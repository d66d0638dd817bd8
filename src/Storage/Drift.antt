-- ===== src/Storage/Drift.antt =====
-- The operations of src/enclave/storage/Storage.cpp on unusual inputs, and the workload statistics.
use crust_sworker.Prelude.{
  ℕ, ◌≡◌, ◌≢◌, refl, sym, ap, ◌⊎◌, inl, inr, true, List, [], ◌∷◌, ◌++◌, some, arith, subst, ◌≤◌,
  ◌^◌, ◌%◌, sum_by, sum_by-append, ◌+◌, ◌∙◌,
}
use crust_sworker.Prelude.Int.{ℤ, pos, negsuc, ◌+ℤ◌, ◌-ℤ◌, to_int32}
use crust_sworker.Prelude.Text.{Text}
use crust_sworker.Prelude.Changes.{Replaces, here, there, All-Replaces_old}
use crust_sworker.Status.{crust_success}
use crust_sworker.Workload.{
  Workload, Spec, FileEntry, unconfirmed, valid, deleted, set_wl_spec, add_new_file, get_spec,
  add_spec, unit_of, put_spec,
}
use crust_sworker.Workload.Counts.{Consistent, all_files, tally, one_if}
use crust_sworker.Storage.{
  has_hash, set_current, confirm_entry, count_confirmed, count_deleted, deleted_keys,
  delete_checked, storage_confirm_file, storage_delete_file, register_file,
}
use crust_sworker.Storage.Confirm.{NoneHas, confirm_checked_cases}
use crust_sworker.Storage.Consistent.{CheckedAre}

-- Replacing an element by itself.
eq_of_Replaces {ℓ} : {A : Type ℓ} {a : A} {xs ys : List A} → Replaces a a xs ys → ys ≡ xs
eq_of_Replaces (here xs) = refl
eq_of_Replaces (there x r) = ap (λ l. x ∷ l) (eq_of_Replaces r)

confirm_entry-valid : (e : FileEntry) → e.status.current ≡ valid → confirm_entry e ≡ e
unfolding confirm_entry
confirm_entry-valid e v = ground arith

-- The number of valid files after a confirmation is counted.
valid_num-count_confirmed :
    (e : FileEntry) (wl : Workload)
    → get_spec valid (count_confirmed e wl).wl_spec_info
      ≡ add_spec (to_int32 (pos e.old_size)) (get_spec valid wl.wl_spec_info)
unfolding count_confirmed get_spec set_wl_spec put_spec
valid_num-count_confirmed e wl = refl

num_ne : (n k : ℤ) → k +ℤ unit_of n ≢ k
unfolding unit_of ◌+ℤ◌
num_ne n k h = ground arith

-- `add_spec` leaves no entry as it was.
add_spec-ne : (n : ℤ) (v : Spec) → add_spec n v ≢ v
unfolding add_spec unit_of ◌+ℤ◌
add_spec-ne n v h = num_ne n v.num (ap (λ (x : Spec). x.num) h)

all_files-count_confirmed :
    (e : FileEntry) (wl : Workload) → all_files (count_confirmed e wl) ≡ all_files wl
unfolding count_confirmed set_wl_spec
all_files-count_confirmed e wl = refl

-- Confirming a file that is valid already only counts.
confirm_valid :
    (hash : Text) (wl : Workload)
    → CheckedAre valid hash wl
    → ¬ NoneHas hash wl.checked_files
    → (e : FileEntry) × (storage_confirm_file hash wl ≡ (crust_success, count_confirmed e wl))
unfolding storage_confirm_file
confirm_valid hash wl are some_has = elim (confirm_checked_cases hash wl.checked_files) [
  | inl (q, n) ↦ absurd (some_has n)
  | inr (e, gs, q, m, r) ↦
      let v : e.status.current ≡ valid = All-Replaces_old _ r are m in
      let c = confirm_entry-valid e v in
      let same = eq_of_Replaces (subst (λ f. Replaces e f wl.checked_files gs) c r) in
      (e, rw (q, storage_confirm_file, c, same))
]

-- A file that is valid already is counted again when it is confirmed again: if the checked files with
-- the hash are valid, and there is one, then `storage_confirm_file` succeeds, changes no file and
-- leaves the statistics wrong, whatever the sizes.
pub storage_confirm_file-recounts :
    (hash : Text) (wl : Workload)
    → Consistent wl
    → CheckedAre valid hash wl
    → ¬ NoneHas hash wl.checked_files
    → ((storage_confirm_file hash wl).0 ≡ crust_success)
      × (all_files (storage_confirm_file hash wl).1 ≡ all_files wl)
      × ¬ Consistent (storage_confirm_file hash wl).1
storage_confirm_file-recounts hash wl h are some_has =
    let (e, q) = confirm_valid hash wl are some_has in
    rw q (
      refl,
      all_files-count_confirmed e wl,
      λ after. add_spec-ne (to_int32 (pos e.old_size)) (get_spec valid wl.wl_spec_info) (
          sym (valid_num-count_confirmed e wl)
          ∙ after.valid_counted
          ∙ ap (tally valid) (all_files-count_confirmed e wl)
          ∙ sym h.valid_counted),
    )

-- Sizes that the conversion to `int` makes 0 or negative.
abbrev pub Misread : ℕ → Type 0
Misread n = (n ≡ 0) ⊎ (2 ^ 31 ≤ n % 2 ^ 32)

unit_of-Misread : (n : ℕ) → Misread n → unit_of (to_int32 (pos n)) ≡ negsuc 0
unfolding unit_of to_int32
unit_of-Misread n h = ground arith

minus_one-ne : (k : ℕ) → pos k +ℤ negsuc 0 ≢ pos (k + 1)
unfolding ◌+ℤ◌
minus_one-ne k h = ground arith

minus_one : (k : ℤ) → k +ℤ negsuc 0 ≡ k -ℤ pos 1
unfolding ◌+ℤ◌ ◌-ℤ◌
minus_one k = ground arith

one_more :
    (e : FileEntry) (wl : Workload)
    → e.status.current ≡ unconfirmed
    → sum_by (one_if unconfirmed) (all_files (register_file e wl))
      ≡ sum_by (one_if unconfirmed) (all_files wl) + 1
unfolding register_file add_new_file set_wl_spec
one_more e wl u = ground (
  arith,
  sum_by-append (one_if unconfirmed) wl.checked_files (wl.new_files ++ (e ∷ [])),
  sum_by-append (one_if unconfirmed) wl.new_files (e ∷ []),
  sum_by-append (one_if unconfirmed) wl.checked_files wl.new_files,
)

unconfirmed_num-register_file :
    (e : FileEntry) (wl : Workload)
    → (get_spec unconfirmed (register_file e wl).wl_spec_info).num
      ≡ (get_spec unconfirmed wl.wl_spec_info).num +ℤ unit_of (to_int32 (pos e.old_size))
unfolding register_file set_wl_spec put_spec get_spec add_spec add_new_file
unconfirmed_num-register_file e wl = refl

-- The number of unconfirmed files goes down instead of up when a file is registered whose size is 0,
-- or at least 2 ^ 31 modulo 2 ^ 32 (such as 2 to 4 gigabytes): the statistics are wrong after it.
pub register_file-Misread :
    (e : FileEntry) (wl : Workload)
    → Consistent wl
    → e.status.current ≡ unconfirmed
    → Misread e.old_size
    → ((get_spec unconfirmed (register_file e wl).wl_spec_info).num
        ≡ (get_spec unconfirmed wl.wl_spec_info).num -ℤ pos 1)
      × ¬ Consistent (register_file e wl)
register_file-Misread e wl h u bad =
    let counted = unconfirmed_num-register_file e wl in
    let down = ap (λ t. old.num +ℤ t) (unit_of-Misread e.old_size bad) in
    (
      counted ∙ down ∙ minus_one old.num,
      λ after. minus_one-ne (sum_by (one_if unconfirmed) (all_files wl)) (
          ap (λ (v : Spec). v.num +ℤ negsuc 0) (sym h.unconfirmed_counted)
          ∙ sym (counted ∙ down)
          ∙ ap (λ (v : Spec). v.num) after.unconfirmed_counted
          ∙ ap pos (one_more e wl u)),
    )
  where
    old : Spec
    old = get_spec unconfirmed wl.wl_spec_info

set_current-deleted : (e : FileEntry) → e.status.current ≡ deleted → set_current deleted e ≡ e
unfolding set_current
set_current-deleted e d = ground arith

delete_checked-first :
    (hash : Text) (fs : List FileEntry) (e : FileEntry) (gs : List FileEntry)
    → NoneHas hash fs
    → has_hash hash e ≡ true
    → delete_checked hash (fs ++ (e ∷ gs)) ≡ some (e, fs ++ (set_current deleted e ∷ gs))
unfolding delete_checked
delete_checked-first hash [] e gs n m = ground arith
delete_checked-first hash (f ∷ fs) e gs n m =
    ground (arith, delete_checked-first hash fs e gs n.1 m)

count_deleted_files :
    (e : FileEntry) (wl : Workload) → all_files (count_deleted e wl) ≡ all_files wl
unfolding count_deleted set_wl_spec
count_deleted_files e wl = refl

-- A file that is deleted already hides every later one with its hash: if the first checked file with
-- the hash is deleted, `storage_delete_file` changes no file, so that a live copy further on or among
-- the new files stays, but it deletes the tree and the metadata of the hash from the database.
pub storage_delete_file-hidden :
    (hash : Text) (wl : Workload) (fs gs : List FileEntry) (e : FileEntry)
    → wl.checked_files ≡ fs ++ (e ∷ gs)
    → NoneHas hash fs
    → has_hash hash e ≡ true
    → e.status.current ≡ deleted
    → (all_files (storage_delete_file hash wl).1 ≡ all_files wl)
      × ((storage_delete_file hash wl).2 ≡ deleted_keys e)
unfolding storage_delete_file
storage_delete_file-hidden hash wl fs gs e split n m d =
    let found = ap (delete_checked hash) split ∙ delete_checked-first hash fs e gs n m in
    let same = ap (λ x. fs ++ (x ∷ gs)) (set_current-deleted e d) ∙ sym split in
    (
      rw (found, storage_delete_file) (count_deleted_files e _ ∙ ap (λ l. l ++ wl.new_files) same),
      rw (found, storage_delete_file),
    )
