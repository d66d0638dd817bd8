-- ===== src/Storage/Unseal/Restored.antt =====
-- A directory that can be unsealed gets its old name back (`storage_unseal_file` after
-- `storage_seal_file` in src/enclave/storage/Storage.cpp).
use crust_sworker.Prelude.{
  ℕ, ◌<◌, ◌^◌, ◌==◌, ◌≡◌, refl, Bool, true, false, List, [], ◌∷◌, ◌++◌, none, some, length, ltb,
  if◌then◌else◌,
}
use crust_sworker.Prelude.Text.{Text, codes}
use crust_sworker.Status.{crust_success}
use crust_sworker.Crypto.{Crypto}
use crust_sworker.Database.{LevelDb, IsLawful}
use crust_sworker.Persistence.{SumJson, Memory, got, persist_set_unsafe}
use crust_sworker.Persistence.Found.{IsAmple}
use crust_sworker.Persistence.Unsafe.{persist_get_unsafe-persist_set_unsafe}
use crust_sworker.Storage.Seal.{Files}
use crust_sworker.Storage.Unseal.{
  Unsealing, join_path, Round, round_end, split_last, up_dir, base_name, replace_plain, unseal_data,
  unseal_read, unseal_one, unseal_all, finish_unseal, unseal_with, storage_unseal_file,
  UnsealOutcome,
}
use crust_sworker.Storage.Unseal.Chain.{Writes}
use crust_sworker.Storage.Unseal.Whole.{AllWritten, no_more, next}

-- A name without `/`.
unfoldable pub HasNoSlash : Text → Type 0
HasNoSlash [] = Unit
HasNoSlash (x ∷ xs) = ((x == b'/') ≡ false) × HasNoSlash xs

split_last-none : (name : Text) → HasNoSlash name → split_last name ≡ none
unfolding split_last HasNoSlash
split_last-none [] h = refl
split_last-none (x ∷ xs) h = rw (split_last-none xs h.1, h.0) refl

split_last-join_path :
    (up name : Text) → HasNoSlash name → split_last (join_path up name) ≡ some (up, name)
unfolding split_last join_path
split_last-join_path [] name h = rw (split_last-none name h) refl
split_last-join_path (x ∷ up) name h = rw (split_last-join_path up name h) refl

module _ (c : Crypto) (F : Files) (U : Unsealing) where
  -- The allocations of the loop give buffers.
  pub record HasRoom : Type 0 where
    pub mallocs : (sealed : List ℕ) → U.malloc sealed ≡ true
    pub reallocs : (n : ℕ) → U.realloc n ≡ true

  room_for : HasRoom → (b : Bool) (n : ℕ) → (if b then U.realloc n else true) ≡ true
  room_for room true n = room.reallocs n
  room_for room false n = refl

  -- A round that went well, with the files `t`.
  Went : F.State → Round c F U → Type 0
  Went t r = (r.goes_on ≡ true) × (r.status ≡ crust_success) × (r.files ≡ t)

  unseal_one-Went :
      HasRoom
      → (dir path : Text) (s t : F.State) (len : ℕ) → Writes c F U dir path s t crust_success
      → Went t (unseal_one c F U dir path s len)
  unfolding unseal_one unseal_read unseal_data replace_plain round_end Went
  unseal_one-Went room dir path s t len w =
      let len_r = U.encrypt_txt_len w.sealed in
      rw
        (
          unseal_one,
          w.read,
          room.mallocs w.sealed,
          room_for room (ltb len len_r) len_r,
          w.unsealed,
          w.not_private,
          w.written,
        )
        (refl, refl, refl)

  unseal_all-Went :
      HasRoom
      → (dir : Text) (files : List Text) (s t : F.State) (len : ℕ) → AllWritten c F U dir files s t
      → Went t (unseal_all c F U dir files crust_success s len)
  unfolding unseal_all round_end Went
  unseal_all-Went room dir _ _ _ len (no_more s) = (refl, refl, refl)
  unseal_all-Went room dir _ _ _ len (next path rest s t u w all) =
      let r = unseal_one c F U dir path s len in
      let (g, ok, same) = unseal_one-Went room dir path s t len w in
      rw (g, ok, same) (unseal_all-Went room dir rest t u r.decrypted_data_len all)

  -- The directory is renamed, with the status of that.
  unfoldable pub renamed_to : Text → Text → F.State → UnsealOutcome c F U
  renamed_to dir path t = record {
    status = (F.rename_dir dir path t).0;
    files = (F.rename_dir dir path t).1;
    new_path = some path;
  }

  unseal_with-restores :
      HasRoom
      → (old_hash_of : Text → Text) (dir : Text) (files : List Text) (s t : F.State) (meta : Text)
      → AllWritten c F U dir files s t
      → unseal_with c F U old_hash_of files dir s (got crust_success (some meta))
        ≡ some (renamed_to dir (join_path (up_dir dir) (old_hash_of meta)) t)
  unfolding unseal_with finish_unseal renamed_to Went
  unseal_with-restores room old_hash_of dir files s t meta all =
      let (g, ok, same) = unseal_all-Went room dir files s t 0 all in rw (g, same) refl

base_name-join_path : (up name : Text) → HasNoSlash name → base_name (join_path up name) ≡ name
unfolding base_name
base_name-join_path up name h = rw (base_name, split_last-join_path up name h) refl

up_dir-join_path : (up name : Text) → HasNoSlash name → up_dir (join_path up name) ≡ up
unfolding up_dir
up_dir-join_path up name h = rw (up_dir, split_last-join_path up name h) refl

-- After the metadata of a sealed file are stored as `storage_seal_file` stores them,
-- `storage_unseal_file` on the directory with the new hash finds them and renames the directory to the
-- old hash, beside where it was, with the status of the renaming; provided each file of the directory
-- can be read, unsealed and written and is not private, the JSON library reads the old hash from the
-- metadata, the new hash has no slash, the metadata are below 4 gigabytes, LevelDB keeps what it
-- documents and succeeds, and the allocations give buffers.
pub storage_unseal_file-restores :
    (c : Crypto) (F : Files) (U : Unsealing) (L : LevelDb) (J : SumJson) (mem : Memory)
    (dump_meta : Text → ℕ → Text) (old_hash_of : Text → Text) (files : List Text)
    (up new_hash old_hash : Text) (old_size : ℕ) (s t : F.State) (db : L.State)
    → ((hash : Text) (size : ℕ) → old_hash_of (dump_meta hash size) ≡ hash)
    → HasNoSlash new_hash
    → HasRoom c F U
    → IsLawful L
    → IsAmple mem
    → ((k v : Text) (t : L.State) → (L.put k v t).0 ≡ true)
    → ((k : Text) (t : L.State) → (L.delete k t).0 ≡ true)
    → length (dump_meta old_hash old_size) < 2 ^ 32
    → AllWritten c F U (join_path up new_hash) files s t
    → storage_unseal_file c F U L J mem old_hash_of files
        (join_path up new_hash)
        s
        (persist_set_unsafe L J mem (new_hash ++ codes "_meta") (dump_meta old_hash old_size) db).1
      ≡ some (renamed_to c F U (join_path up new_hash) (join_path up old_hash) t)
unfolding storage_unseal_file
storage_unseal_file-restores c F U L J mem dump_meta old_hash_of files up new_hash old_hash old_size
      s t db reads name room lawful ample puts dels small all =
    let dir = join_path up new_hash in
    let meta = dump_meta old_hash old_size in
    let stored =
      persist_get_unsafe-persist_set_unsafe L J mem (new_hash ++ codes "_meta") meta db lawful ample
        puts dels small in
    rw
      (
        base_name-join_path up new_hash name,
        stored.1,
        unseal_with-restores c F U room old_hash_of dir files s t meta all,
        up_dir-join_path up new_hash name,
        reads old_hash old_size,
      )
      refl
