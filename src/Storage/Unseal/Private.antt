-- ===== src/Storage/Unseal/Private.antt =====
-- What `storage_unseal_file` in src/enclave/storage/Storage.cpp may write outside the enclave.
use crust_sworker.Prelude.{ℕ, ◌≡◌, ap, sym, subst, false, List, Option, none, some}
use crust_sworker.Prelude.Text.{Text}
use crust_sworker.Crypto.{Crypto}
use crust_sworker.Status.{CrustStatus}
use crust_sworker.Database.{LevelDb}
use crust_sworker.Persistence.{SumJson, Memory}
use crust_sworker.Storage.Seal.{Files}
use crust_sworker.Storage.Unseal.{Unsealing, private_tag, UnsealOutcome, storage_unseal_file}
use crust_sworker.Storage.Unseal.Chain.{Writes, HasData}
use crust_sworker.Storage.Unseal.Whole.{
  AllWritten, no_more, next, SomeWritten, stopped, failed, after, Outcomes, broken, refused,
  abandoned, renamed, new_dir, storage_unseal_file-Outcomes,
}
use crust_sworker.Validator.Meaningful.Block.{starts_with}

-- A property of the files that survives each write of data without the private tag, and each renaming.
pub record AllowsPublic {ℓ} (F : Files) (P : F.State → Type ℓ) : Type ℓ where
  pub writes :
      (old new : Text) (data_ : List ℕ) (s : F.State)
      → starts_with private_tag data_ ≡ false
      → P s
      → P (F.replace_file old new data_ s).1
  pub renames : (old new : Text) (s : F.State) → P s → P (F.rename_dir old new s).1

module _ {ℓ} (c : Crypto) (F : Files) (U : Unsealing) (dir : Text) (P : F.State → Type ℓ)
    (allows : AllowsPublic F P) where
  Writes-keeps :
      (path : Text) (s t : F.State) (status : CrustStatus)
      → Writes c F U dir path s t status
      → P s
      → P t
  Writes-keeps path s t status w p =
      subst P (ap (λ x. x.1) w.written) (allows.writes _ _ w.plain s w.not_private p)

  AllWritten-keeps :
      (files : List Text) (s t : F.State) → AllWritten c F U dir files s t → P s → P t
  AllWritten-keeps _ _ _ (no_more s) p = p
  AllWritten-keeps _ _ _ (next path rest s t u w all) p =
      AllWritten-keeps rest t u all (Writes-keeps path s t _ w p)

  SomeWritten-keeps :
      (files : List Text) (s t : F.State) → SomeWritten c F U dir files s t → P s → P t
  SomeWritten-keeps _ _ _ (stopped files s) p = p
  SomeWritten-keeps _ _ _ (failed path rest s t status w bad) p = Writes-keeps path s t status w p
  SomeWritten-keeps _ _ _ (after path rest s t u w part) p =
      SomeWritten-keeps rest t u part (Writes-keeps path s t _ w p)

  -- The property, of the files that the function leaves.
  Kept : F.State → Option (UnsealOutcome c F U) → Type ℓ
  Kept s none = P s
  Kept s (some o) = P o.files

module _ {ℓ} (c : Crypto) (F : Files) (U : Unsealing) (L : LevelDb) (J : SumJson) (mem : Memory)
    (old_hash_of : Text → Text) (dir : Text) (P : F.State → Type ℓ)
    (allows : AllowsPublic F P) where
  Outcomes-Kept :
      (files : List Text) (s : F.State) (db : L.State) (r : Option (UnsealOutcome c F U))
      → Outcomes c F U L J mem old_hash_of files dir s db r
      → P s
      → Kept c F U dir P allows s r
  unfolding Kept
  Outcomes-Kept files s db _ (broken e) p = p
  Outcomes-Kept files s db _ (refused o st same np) p = subst P (sym same) p
  Outcomes-Kept files s db _ (abandoned o bad part np) p =
      SomeWritten-keeps c F U dir P allows files s o.files part p
  Outcomes-Kept files s db _ (renamed o meta t m all e np) p = subst P (ap (λ x. x.1) e) (
      allows.renames dir (new_dir c F U L J mem old_hash_of dir meta) t
        (AllWritten-keeps c F U dir P allows files s t all p))

-- Whatever holds of the files outside the enclave, and stays true when data without the private tag are
-- written to any path and when a directory is renamed, is still true after `storage_unseal_file`, however
-- it ends; provided a file that is read with success has data.
pub storage_unseal_file-keeps {ℓ} :
    (c : Crypto) (F : Files) (U : Unsealing) (L : LevelDb) (J : SumJson) (mem : Memory)
    (old_hash_of : Text → Text) (P : F.State → Type ℓ)
    → AllowsPublic F P
    → (files : List Text) (dir : Text) (s : F.State) (db : L.State) (o : UnsealOutcome c F U)
    → HasData c F U dir
    → storage_unseal_file c F U L J mem old_hash_of files dir s db ≡ some o
    → P s
    → P o.files
unfolding Kept
storage_unseal_file-keeps c F U L J mem old_hash_of P allows files dir s db o has e p =
    subst (λ r. Kept c F U dir P allows s r) e
      (Outcomes-Kept c F U L J mem old_hash_of dir P allows files s db
        (storage_unseal_file c F U L J mem old_hash_of files dir s db)
        (storage_unseal_file-Outcomes c F U L J mem old_hash_of files dir s db has) p)
