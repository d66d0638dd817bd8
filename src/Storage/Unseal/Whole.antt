-- ===== src/Storage/Unseal/Whole.antt =====
-- All of `storage_unseal_file` in src/enclave/storage/Storage.cpp: what it writes, and how it ends.
use crust_sworker.Prelude.{
  ℕ, ◌==◌, ◌≡◌, ◌≢◌, ◌⊎◌, inl, inr, refl, ap, ◌∙◌, sym, subst, Bool-cases, true, false, List, [],
  ◌∷◌, ◌++◌, Option, none, some,
}
use crust_sworker.Prelude.Text.{Text, codes}
use crust_sworker.Status.{CrustStatus, crust_success, crust_storage_unseal_file_failed}
use crust_sworker.Crypto.{Crypto}
use crust_sworker.Database.{LevelDb}
use crust_sworker.Persistence.{SumJson, Memory, Got, got, overrun, persist_get_unsafe}
use crust_sworker.Storage.Seal.{Files}
use crust_sworker.Storage.Unseal.{
  Unsealing, join_path, up_dir, base_name, Round, round_end, unseal_one, unseal_all, UnsealOutcome,
  finish_unseal, unseal_refused, unseal_with, storage_unseal_file,
}
use crust_sworker.Storage.Unseal.Chain.{
  Writes, wrote, kept, broke, HasData, unseal_one-One, succeeds,
}

module _ (c : Crypto) (F : Files) (U : Unsealing) (dir : Text) where
  -- The files of a list written one after the other: all of them, or the first ones up to one that is
  -- left or whose write fails.
  pub data AllWritten : List Text → F.State → F.State → Type 0 where
    no_more : (s : F.State) → AllWritten [] s s
    next :
        (path : Text) (rest : List Text) (s t u : F.State)
        → Writes c F U dir path s t crust_success
        → AllWritten rest t u
        → AllWritten (path ∷ rest) s u

  pub data SomeWritten : List Text → F.State → F.State → Type 0 where
    stopped : (files : List Text) (s : F.State) → SomeWritten files s s
    failed :
        (path : Text) (rest : List Text) (s t : F.State) (status : CrustStatus)
        → Writes c F U dir path s t status
        → status ≢ crust_success
        → SomeWritten (path ∷ rest) s t
    after :
        (path : Text) (rest : List Text) (s t u : F.State)
        → Writes c F U dir path s t crust_success
        → SomeWritten rest t u
        → SomeWritten (path ∷ rest) s u

  -- How the loop over the files ends.
  unfoldable pub Ends : List Text → F.State → Round c F U → Type 0
  Ends files s r =
      ((r.goes_on ≡ true) × AllWritten files s r.files)
      ⊎ ((r.goes_on ≡ false) × (r.status ≢ crust_success) × SomeWritten files s r.files)

  Ends-after :
      (path : Text) (rest : List Text) (s t : F.State) (r : Round c F U)
      → Writes c F U dir path s t crust_success
      → Ends rest t r
      → Ends (path ∷ rest) s r
  unfolding Ends
  Ends-after path rest s t r w (inl (g, all)) = inl (g, next path rest s t r.files w all)
  Ends-after path rest s t r w (inr (g, bad, part)) =
      inr (g, bad, after path rest s t r.files w part)

  unseal_all-Ends :
      HasData c F U dir
      → (files : List Text) (status : CrustStatus) (s : F.State) (len : ℕ)
      → Ends files s (unseal_all c F U dir files status s len)
  unfolding unseal_all round_end Ends
  unseal_all-Ends has [] status s len = inl (refl, no_more s)
  unseal_all-Ends has (path ∷ rest) status s len =
      let r = unseal_one c F U dir path s len in
      let later = unseal_all-Ends has rest r.status r.files r.decrypted_data_len in
      elim (unseal_one-One c F U dir has path s len) [
        | wrote g ok w ↦ rw g (
            Ends-after path rest s r.files
              (unseal_all c F U dir rest r.status r.files r.decrypted_data_len) w later)
        | kept g bad same ↦
            rw g (
              inr
                (g, bad, subst (SomeWritten (path ∷ rest) s) (sym same) (stopped (path ∷ rest) s)))
        | broke status' g bad w bad_write ↦
            rw g (inr (g, bad, failed path rest s r.files status' w bad_write))
      ]

module _ (c : Crypto) (F : Files) (U : Unsealing) (L : LevelDb) (J : SumJson) (mem : Memory)
    (old_hash_of : Text → Text) where
  -- The path that the directory gets, with the metadata `meta`.
  abbrev pub new_dir : Text → Text → Text
  new_dir dir meta = join_path (up_dir dir) (old_hash_of meta)

  -- The ends of the function: the metadata are read over the end of a buffer, they cannot be read, a file
  -- is not written, or all are and the directory is renamed.
  pub data Outcomes (files : List Text) (dir : Text) (s : F.State) (db : L.State)
      : Option (UnsealOutcome c F U) → Type 0 where
    broken :
        persist_get_unsafe L J mem (base_name dir ++ codes "_meta") db ≡ overrun
        → Outcomes files dir s db none
    refused :
        (o : UnsealOutcome c F U)
        → o.status ≡ crust_storage_unseal_file_failed
        → o.files ≡ s
        → o.new_path ≡ none
        → Outcomes files dir s db (some o)
    abandoned :
        (o : UnsealOutcome c F U)
        → o.status ≢ crust_success
        → SomeWritten c F U dir files s o.files
        → o.new_path ≡ none
        → Outcomes files dir s db (some o)
    renamed :
        (o : UnsealOutcome c F U) (meta : Text) (t : F.State)
        → persist_get_unsafe L J mem (base_name dir ++ codes "_meta") db
          ≡ got crust_success (some meta)
        → AllWritten c F U dir files s t
        → F.rename_dir dir (new_dir dir meta) t ≡ (o.status, o.files)
        → o.new_path ≡ some (new_dir dir meta)
        → Outcomes files dir s db (some o)

  finish_unseal-Outcomes :
      (files : List Text) (dir : Text) (s : F.State) (db : L.State) (meta : Text) (r : Round c F U)
      → persist_get_unsafe L J mem (base_name dir ++ codes "_meta") db
        ≡ got crust_success (some meta)
      → Ends c F U dir files s r
      → Outcomes files dir s db (some (finish_unseal c F U dir (new_dir dir meta) r))
  unfolding Ends finish_unseal
  finish_unseal-Outcomes files dir s db meta r m (inl (g, all)) = rw g (
      renamed
        (record {
          status = (F.rename_dir dir (new_dir dir meta) r.files).0;
          files = (F.rename_dir dir (new_dir dir meta) r.files).1;
          new_path = some (new_dir dir meta);
        })
        meta r.files m all refl refl)
  finish_unseal-Outcomes files dir s db meta r m (inr (g, bad, part)) =
      rw g
        (abandoned (record { status = r.status; files = r.files; new_path = none }) bad part refl)

-- Where every file that is read with success has data, `storage_unseal_file` ends in one of these ways:
-- the metadata are read over the end of a buffer; it refuses and changes nothing; a file cannot be
-- written, the status is no success, only files before it were written and no new path is given; or
-- every file was written in order under the hash of its plain data, none of which is private, and the
-- directory is renamed to the old hash of the metadata, with the status of that.
pub storage_unseal_file-Outcomes :
    (c : Crypto) (F : Files) (U : Unsealing) (L : LevelDb) (J : SumJson) (mem : Memory)
    (old_hash_of : Text → Text) (files : List Text) (dir : Text) (s : F.State) (db : L.State)
    → HasData c F U dir
    → Outcomes c F U L J mem old_hash_of files dir s db
        (storage_unseal_file c F U L J mem old_hash_of files dir s db)
unfolding storage_unseal_file unseal_with unseal_refused
storage_unseal_file-Outcomes c F U L J mem old_hash_of files dir s db has =
    ends (persist_get_unsafe L J mem (base_name dir ++ codes "_meta") db) refl
  where
    ends :
        (g : Got)
        → persist_get_unsafe L J mem (base_name dir ++ codes "_meta") db ≡ g
        → Outcomes c F U L J mem old_hash_of files dir s db
            (unseal_with c F U old_hash_of files dir s g)
    ends overrun e = broken e
    ends (got status none) e = refused (unseal_refused c F U s) refl refl refl
    ends (got status (some meta)) e = elim (Bool-cases (status == crust_success)) [
      | inr q ↦ rw q (refused (unseal_refused c F U s) refl refl refl)
      | inl q ↦ rw q (
          finish_unseal-Outcomes c F U L J mem old_hash_of files dir s db meta
            (unseal_all c F U dir files status s 0)
            (e ∙ ap (λ x. got x (some meta)) (succeeds status q))
            (unseal_all-Ends c F U dir has files status s 0))
    ]
