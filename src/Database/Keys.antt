-- ===== src/Database/Keys.antt =====
-- src/app/ocalls/OCalls.cpp: a database value that is a JSON object with keys to add and to delete.
use crust_sworker.Prelude.{List, [], ◌∷◌}
use crust_sworker.Prelude.Text.{Text}
use crust_sworker.Status.{CrustStatus}
use crust_sworker.Database.{LevelDb, database_get, database_set}

-- The JSON library: an object, an array's texts, setting a key to `true`, erasing a key, the text.
pub record JsonObject : Type 1 where
  pub Object : Type 0
  pub load : Text → Object
  pub load_array : Text → List Text
  pub set_true : Text → Object → Object
  pub erase : Text → Object → Object
  pub dump : Object → Text

module _ (J : JsonObject) where
  unfoldable pub add_all : List Text → J.Object → J.Object
  add_all [] o = o
  add_all (k ∷ ks) o = add_all ks (J.set_true k o)

  unfoldable pub erase_all : List Text → J.Object → J.Object
  erase_all [] o = o
  erase_all (k ∷ ks) o = erase_all ks (J.erase k o)

  module _ (L : LevelDb) where
    -- A value that cannot be read is logged only, and its text is empty.
    unfoldable pub ocall_persist_add_keys : Text → Text → L.State → CrustStatus × L.State
    unfolding database_get database_set add_all erase_all
    ocall_persist_add_keys key keys s =
        database_set L key (J.dump (add_all (J.load_array keys) (J.load (database_get L key s).1)))
          s

    unfoldable pub ocall_persist_del_keys : Text → Text → L.State → CrustStatus × L.State
    unfolding database_get database_set add_all erase_all
    ocall_persist_del_keys key keys s =
        database_set L key
          (J.dump (erase_all (J.load_array keys) (J.load (database_get L key s).1))) s
