-- ===== src/Storage/Delete.antt =====
-- What the two searches of `storage_delete_file` find (src/enclave/storage/Storage.cpp).
use crust_sworker.Prelude.{
  ◌≡◌, refl, ◌⊎◌, inl, inr, true, List, [], ◌∷◌, Option, none, some, arith, Bool-cases,
}
use crust_sworker.Prelude.Text.{Text}
use crust_sworker.Prelude.Changes.{Replaces, here, there, Removes, first, later}
use crust_sworker.Workload.{FileEntry, deleted}
use crust_sworker.Storage.{has_hash, set_current, delete_checked, delete_new}
use crust_sworker.Storage.Confirm.{NoneHas}

-- No checked file has the hash, or the first one that has it is marked as deleted in its place.
abbrev pub DeletesChecked : Text → List FileEntry → Option (FileEntry × List FileEntry) → Type 0
DeletesChecked hash fs r =
    ((r ≡ none) × NoneHas hash fs)
    ⊎ ((e : FileEntry) × (gs : List FileEntry) × (r ≡ some (e, gs))
        × (has_hash hash e ≡ true)
        × Replaces e (set_current deleted e) fs gs)

pub delete_checked_cases :
    (hash : Text) (fs : List FileEntry) → DeletesChecked hash fs (delete_checked hash fs)
unfolding delete_checked
delete_checked_cases hash [] = inl (refl, tt)
delete_checked_cases hash (e ∷ es) = elim (Bool-cases (has_hash hash e)) [
  | inl m ↦ inr (e, set_current deleted e ∷ es, ground arith, m, here es)
  | inr m ↦ elim (delete_checked_cases hash es) [
    | inr (d, gs, q, n, r) ↦ inr (d, e ∷ gs, ground arith, n, there e r)
    | inl (q, n) ↦ inl (ground arith, (m, n))
  ]
]

-- No new file has the hash, or the last one that has it is erased.
abbrev pub DeletesNew : Text → List FileEntry → Option (FileEntry × List FileEntry) → Type 0
DeletesNew hash fs r =
    ((r ≡ none) × NoneHas hash fs)
    ⊎ ((e : FileEntry) × (gs : List FileEntry) × (r ≡ some (e, gs))
        × (has_hash hash e ≡ true)
        × Removes e fs gs)

pub delete_new_cases : (hash : Text) (fs : List FileEntry) → DeletesNew hash fs (delete_new hash fs)
unfolding delete_new
delete_new_cases hash [] = inl (refl, tt)
delete_new_cases hash (e ∷ es) = elim (delete_new_cases hash es) [
  | inr (d, gs, q, n, r) ↦ inr (d, e ∷ gs, ground arith, n, later e r)
  | inl (q, n) ↦ elim (Bool-cases (has_hash hash e)) [
    | inl m ↦ inr (e, es, ground arith, m, first es)
    | inr m ↦ inl (ground arith, (m, n))
  ]
]
