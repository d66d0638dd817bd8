-- ===== src/Storage/Unseal/Tests.antt =====
-- Examples for the unsealing of a file in src/enclave/storage/Storage.cpp.
use crust_sworker.Prelude.{
  ℕ, ◌≡◌, ◌≢◌, refl, true, false, List, [], ◌∷◌, ◌++◌, some, none, arith, drop, length, All,
}
use crust_sworker.Prelude.Text.{Text, codes, text_eq}
use crust_sworker.Status.{crust_success}
use crust_sworker.Crypto.Sample.{crypto}
use crust_sworker.Database.LevelStore.{level_store, level_store-IsLawful}
use crust_sworker.Persistence.{persist_set_unsafe, persist_get_unsafe}
use crust_sworker.Persistence.Found.{IsAmple}
use crust_sworker.Persistence.Samples.{sum_json, memory}
use crust_sworker.Storage.Seal.{Files}
use crust_sworker.Storage.Unseal.{
  Unsealing, private_tag, plain_path, join_path, UnsealOutcome, storage_unseal_file, base_name,
}
use crust_sworker.Storage.Unseal.Chain.{Writes, HasData}
use crust_sworker.Storage.Unseal.Whole.{
  AllWritten, no_more, next, Outcomes, storage_unseal_file-Outcomes,
}
use crust_sworker.Storage.Unseal.Private.{AllowsPublic, storage_unseal_file-keeps}
use crust_sworker.Storage.Unseal.Restored.{
  HasNoSlash, HasRoom, renamed_to, storage_unseal_file-restores,
}
use crust_sworker.Validator.Meaningful.Block.{starts_with}

-- Every file is four bytes; the state is what was written, the last first.
abbrev log_files : Files
log_files = record {
  State = List (Text × List ℕ);
  get_storage_file = λ path s. (crust_success, some (0 ∷ 1 ∷ 2 ∷ 3 ∷ []));
  replace_file = λ old new data_ s. (crust_success, (new, data_) ∷ s);
  rename_dir = λ old new s. (crust_success, s);
  seal = λ i block. some (i ∷ block);
  buffer = λ hash. true;
  buffers = record {
    children = λ h. true;
    as_child = λ h. true;
    as_parent = λ h. true;
    structure = λ h. true;
  };
}

-- Unsealing takes the first byte off.
abbrev unsealing : Unsealing
unsealing = record {
  unseal = λ sealed. some (drop 1 sealed);
  encrypt_txt_len = λ sealed. length (drop 1 sealed);
  malloc = λ sealed. true;
  realloc = λ n. true;
}

abbrev up : Text
up = codes "/store"

abbrev new_hash : Text
new_hash = codes "ab12"

abbrev dir : Text
dir = codes "/store/ab12"

abbrev two_files : List Text
two_files = codes "0_aa" ∷ codes "1_bb" ∷ []

-- The text of the metadata, and the hash in it.
abbrev dump_meta : Text → ℕ → Text
dump_meta hash size = size ∷ hash

abbrev old_hash_of : Text → Text
old_hash_of meta = drop 1 meta

abbrev db : level_store.State
db =
    (persist_set_unsafe level_store sum_json memory (new_hash ++ codes "_meta")
      (dump_meta (codes "cd34") 6) []).1

some_given : (bytes : List ℕ) → some bytes ≢ none
some_given bytes e = ground arith

log_files-HasData : HasData crypto log_files unsealing dir
unfolding HasData
log_files-HasData p t e = some_given (0 ∷ 1 ∷ 2 ∷ 3 ∷ [])

storage_unseal_file-Outcomes_example :
    Outcomes crypto log_files unsealing level_store sum_json memory old_hash_of two_files dir [] db
      (storage_unseal_file crypto log_files unsealing level_store sum_json memory old_hash_of
        two_files dir [] db)
storage_unseal_file-Outcomes_example =
    storage_unseal_file-Outcomes crypto log_files unsealing level_store sum_json memory old_hash_of
      two_files dir [] db log_files-HasData

-- What was written is not private.
abbrev IsPublic : List (Text × List ℕ) → Type 0
IsPublic = All (λ w. starts_with private_tag w.1 ≡ false)

IsPublic-AllowsPublic : AllowsPublic log_files IsPublic
IsPublic-AllowsPublic = record {
  writes = λ old new data_ s h p. (h, p);
  renames = λ old new s p. p;
}

-- The two files that are written.
abbrev plain : List ℕ
plain = 1 ∷ 2 ∷ 3 ∷ []

abbrev after_first : List (Text × List ℕ)
after_first = (plain_path crypto dir (codes "0_aa") plain, plain) ∷ []

abbrev after_both : List (Text × List ℕ)
after_both = (plain_path crypto dir (codes "1_bb") plain, plain) ∷ after_first

plain-public : starts_with private_tag plain ≡ false
unfolding starts_with text_eq
plain-public = refl

one_written :
    (path : Text) (s : List (Text × List ℕ))
    → Writes crypto log_files unsealing dir path s
        ((plain_path crypto dir path plain, plain) ∷ s)
        crust_success
one_written path s = record {
  sealed = 0 ∷ plain;
  plain = plain;
  read = refl;
  unsealed = refl;
  not_private = plain-public;
  written = refl;
}

both_written : AllWritten crypto log_files unsealing dir two_files [] after_both
both_written =
    next (codes "0_aa") (codes "1_bb" ∷ []) [] after_first after_both
      (one_written (codes "0_aa") [])
      (next (codes "1_bb") [] after_first after_both after_both
        (one_written (codes "1_bb") after_first) (no_more after_both))

room : HasRoom crypto log_files unsealing
room = record { mallocs = λ sealed. refl; reallocs = λ n. refl }

memory-IsAmple : IsAmple memory
memory-IsAmple = record { copies = λ k. refl; whole = refl; plain = refl }

new_hash-HasNoSlash : HasNoSlash new_hash
unfolding HasNoSlash
new_hash-HasNoSlash = (refl, (refl, (refl, (refl, tt))))

abbrev restored : UnsealOutcome crypto log_files unsealing
restored = renamed_to crypto log_files unsealing dir (codes "/store/cd34") after_both

storage_unseal_file-restores_example :
    storage_unseal_file crypto log_files unsealing level_store sum_json memory old_hash_of two_files
      dir [] db
    ≡ some restored
unfolding join_path
storage_unseal_file-restores_example =
    storage_unseal_file-restores crypto log_files unsealing level_store sum_json memory dump_meta
      old_hash_of two_files up new_hash (codes "cd34") 6 [] after_both [] (λ hash size. refl)
      new_hash-HasNoSlash room level_store-IsLawful memory-IsAmple (λ k v t. refl) (λ k t. refl)
      (omega arith) both_written

-- The same call, without a use of the theorem for it.
runs :
    storage_unseal_file crypto log_files unsealing level_store sum_json memory old_hash_of two_files
      dir [] db
    ≡ some restored
unfolding storage_unseal_file base_name persist_get_unsafe persist_set_unsafe starts_with text_eq
    renamed_to crust_sworker.Storage.Unseal.join_path crust_sworker.Storage.Unseal.up_dir
    crust_sworker.Storage.Unseal.plain_path crust_sworker.Storage.SealFile.before_hash
    crust_sworker.Database.LevelStore.newest
runs = refl

storage_unseal_file-keeps_example : IsPublic restored.files
storage_unseal_file-keeps_example =
    storage_unseal_file-keeps crypto log_files unsealing level_store sum_json memory old_hash_of
      IsPublic IsPublic-AllowsPublic two_files dir [] db restored log_files-HasData runs tt
