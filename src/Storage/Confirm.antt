-- ===== src/Storage/Confirm.antt =====
-- What `storage_confirm_file` does on each of its paths (src/enclave/storage/Storage.cpp).
use crust_sworker.Prelude.{
  ◌≡◌, refl, ◌⊎◌, inl, inr, true, false, ◌&&◌, List, [], ◌∷◌, Option, none, some, arith, Bool-cases,
  All,
}
use crust_sworker.Prelude.Text.{Text}
use crust_sworker.Workload.{FileEntry, unconfirmed, valid}
use crust_sworker.Storage.{
  has_hash, is_current, set_current, confirm_entry, confirm_checked, confirm_new,
}
use crust_sworker.Prelude.Changes.{Replaces, here, there}

-- No file of the list has the hash.
abbrev pub NoneHas : Text → List FileEntry → Type 0
NoneHas hash = All (λ e. has_hash hash e ≡ false)

-- No file of the list has the hash and waits for confirmation.
abbrev pub NonePending : Text → List FileEntry → Type 0
NonePending hash = All (λ e. (has_hash hash e && is_current unconfirmed e) ≡ false)

-- What the search of `checked_files` gives: no file has the hash, or the last one that has it is
-- confirmed in its place.
abbrev pub ConfirmsChecked : Text → List FileEntry → Option (FileEntry × List FileEntry) → Type 0
ConfirmsChecked hash fs r =
    ((r ≡ none) × NoneHas hash fs)
    ⊎ ((e : FileEntry) × (gs : List FileEntry) × (r ≡ some (confirm_entry e, gs))
        × (has_hash hash e ≡ true)
        × Replaces e (confirm_entry e) fs gs)

pub confirm_checked_cases :
    (hash : Text) (fs : List FileEntry) → ConfirmsChecked hash fs (confirm_checked hash fs)
unfolding confirm_checked
confirm_checked_cases hash [] = inl (refl, tt)
confirm_checked_cases hash (e ∷ es) = elim (confirm_checked_cases hash es) [
  | inr (d, gs, q, m, r) ↦ inr (d, e ∷ gs, ground arith, m, there e r)
  | inl (q, n) ↦ elim (Bool-cases (has_hash hash e)) [
    | inl m ↦ inr (e, confirm_entry e ∷ es, ground arith, m, here es)
    | inr m ↦ inl (ground arith, (m, n))
  ]
]

-- What the search of `new_files` gives: no file with the hash is unconfirmed, or the last one of
-- these becomes valid in its place.
abbrev pub ConfirmsNew : Text → List FileEntry → Option (FileEntry × List FileEntry) → Type 0
ConfirmsNew hash fs r =
    ((r ≡ none) × NonePending hash fs)
    ⊎ ((e : FileEntry) × (gs : List FileEntry) × (r ≡ some (set_current valid e, gs))
        × (has_hash hash e ≡ true)
        × (e.status.current ≡ unconfirmed)
        × Replaces e (set_current valid e) fs gs)

is_current-unconfirmed :
    (e : FileEntry) → is_current unconfirmed e ≡ true → e.status.current ≡ unconfirmed
unfolding is_current
is_current-unconfirmed e h = ground arith

pub confirm_new_cases :
    (hash : Text) (fs : List FileEntry) → ConfirmsNew hash fs (confirm_new hash fs)
unfolding confirm_new
confirm_new_cases hash [] = inl (refl, tt)
confirm_new_cases hash (e ∷ es) = elim (confirm_new_cases hash es) [
  | inr (d, gs, q, m, u, r) ↦ inr (d, e ∷ gs, ground arith, m, u, there e r)
  | inl (q, n) ↦ elim (Bool-cases (has_hash hash e && is_current unconfirmed e)) [
    | inl m ↦ inr (
      e,
      set_current valid e ∷ es,
      ground arith,
      ground arith,
      is_current-unconfirmed e (ground arith),
      here es,
    )
    | inr m ↦ inl (ground arith, (m, n))
  ]
]
