-- ===== src/Database.antt =====
-- src/app/database/DataBase.cpp and the persist_* functions of src/app/ocalls/OCalls.cpp: the key-value
-- database that the enclave reaches through ocalls. LevelDB is a parameter.
pub mod Keys
pub mod LevelStore
use crust_sworker.Prelude.{
  Bool, true, false, List, [], ◌∷◌, ◌++◌, Option, none, some, if◌then◌else◌, ◌==◌, ◌≡◌,
}
use crust_sworker.Prelude.Text.{Text, text_eq}
use crust_sworker.Status.{
  CrustStatus, crust_success, crust_persist_get_failed, crust_persist_set_failed,
  crust_persist_del_failed, crust_persist_add_failed,
}

-- `leveldb::DB` over an unknown state. `get` gives none where the status is not ok, the Boolean of
-- `put` and `delete` says whether the status is.
pub record LevelDb : Type 1 where
  pub State : Type 0
  pub get : Text → State → Option Text
  pub put : Text → Text → State → Bool × State
  pub delete : Text → State → Bool × State

-- What LevelDB documents: a write that is ok is read back, and a write changes no other key.
pub record IsLawful (L : LevelDb) : Type 0 where
  pub get-put :
      (k v : Text) (s : L.State) → (L.put k v s).0 ≡ true → L.get k (L.put k v s).1 ≡ some v
  pub get-put_other :
      (j k v : Text) (s : L.State) → text_eq j k ≡ false → L.get j (L.put k v s).1 ≡ L.get j s
  pub get-delete :
      (k : Text) (s : L.State) → (L.delete k s).0 ≡ true → L.get k (L.delete k s).1 ≡ none
  pub get-delete_other :
      (j k : Text) (s : L.State) → text_eq j k ≡ false → L.get j (L.delete k s).1 ≡ L.get j s

module _ (L : LevelDb) where
  -- `old_val`, which stays empty where nothing is found.
  unfoldable pub old_value : Text → L.State → Text
  old_value key s = elim (L.get key s) [ none ↦ [] | some v ↦ v ]

  -- `DataBase::add`: the new value in front of the old one.
  unfoldable pub database_add : Text → Text → L.State → CrustStatus × L.State
  unfolding old_value
  database_add key value s =
      let old = old_value key s in
      let r = L.put key (if text_eq old [] then value else value ++ (b';' ∷ old)) s in
      (if r.0 then crust_success else crust_persist_add_failed, r.1)

  -- `DataBase::del`
  unfoldable pub database_del : Text → L.State → CrustStatus × L.State
  database_del key s =
      let r = L.delete key s in (if r.0 then crust_success else crust_persist_del_failed, r.1)

  -- `DataBase::set`
  unfoldable pub database_set : Text → Text → L.State → CrustStatus × L.State
  database_set key value s =
      let r = L.put key value s in (if r.0 then crust_success else crust_persist_set_failed, r.1)

  -- `DataBase::get`
  unfoldable pub database_get : Text → L.State → CrustStatus × Text
  database_get key s = elim (L.get key s) [
    | none ↦ (crust_persist_get_failed, [])
    | some v ↦ (crust_success, v)
  ]

  unfoldable pub ocall_persist_add : Text → Text → L.State → CrustStatus × L.State
  unfolding database_add
  ocall_persist_add = database_add

  unfoldable pub ocall_persist_del : Text → L.State → CrustStatus × L.State
  unfolding database_del
  ocall_persist_del = database_del

  unfoldable pub ocall_persist_set : Text → Text → L.State → CrustStatus × L.State
  unfolding database_set
  ocall_persist_set = database_set

  unfoldable pub ocall_persist_get : Text → L.State → CrustStatus × Text
  unfolding database_get
  ocall_persist_get = database_get

-- `ocall_free_outer_buffer`
abbrev pub ocall_free_outer_buffer : CrustStatus
ocall_free_outer_buffer = crust_success
