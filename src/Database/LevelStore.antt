-- ===== src/Database/LevelStore.antt =====
-- A stand-in for LevelDB, to run the model with: the list of the records, the newest first.
use crust_sworker.Prelude.{true, Option, none, some, List, [], ◌∷◌, refl, if◌then◌else◌}
use crust_sworker.Prelude.Text.{Text, text_eq, text_eq_refl}
use crust_sworker.Database.{LevelDb, IsLawful}

-- A record without a value marks a deletion.
unfoldable pub newest : Text → List (Text × Option Text) → Option Text
newest k [] = none
newest k ((j, v) ∷ s) = if text_eq k j then v else newest k s

abbrev pub level_store : LevelDb
level_store = record {
  State = List (Text × Option Text);
  get = newest;
  put = λ k v s. (true, (k, some v) ∷ s);
  delete = λ k s. (true, (k, none) ∷ s);
}

pub level_store-IsLawful : IsLawful level_store
unfolding newest
level_store-IsLawful = record {
  get-put = λ k v s h. rw (text_eq_refl k) refl;
  get-put_other = λ j k v s h. rw h refl;
  get-delete = λ k s h. rw (text_eq_refl k) refl;
  get-delete_other = λ j k s h. rw h refl;
}
