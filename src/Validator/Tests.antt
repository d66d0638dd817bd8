-- ===== src/Validator/Tests.antt =====
-- Examples for src/enclave/validator/Validator.cpp.
use crust_sworker.Prelude.{
  replicate, ◌↔◌, ℕ, ◌==◌, if◌then◌else◌, Option, ◌≡◌, ◌⊎◌, refl, ◌∙◌, true, false, List, [], ◌∷◌,
  ◌++◌, none, some, arith,
}
use crust_sworker.Prelude.Text.{Text, codes, text_lt, text_eq, text_eq_refl}
use crust_sworker.Prelude.Sorted.{IsSorted}
use crust_sworker.Status.{CrustStatus, crust_success, crust_persist_get_failed}
use crust_sworker.Crypto.Sample.{constant_crypto}
use crust_sworker.Workload.{
  Workload, FileEntry, FileStatus, valid, lost, unconfirmed, deleted, same_status, init,
}
use crust_sworker.Srd.{SrdMap, srd_total}
use crust_sworker.Srd.Increase.{Sealing, add_g, srd_increase, srd_rand_data_num}
use crust_sworker.Srd.Increase.Leaves.{leaf_hashs, Succeeds}
use crust_sworker.Validator.Meaningful.{validate_meaningful_file, is_upgrade_done}
use crust_sworker.Validator.Meaningful.Block.{World}
use crust_sworker.Validator.Meaningful.Frame.{
  IsChange, SameFiles, Keeps-refl, validate_meaningful_file-Keeps,
}
use crust_sworker.Validator.Space.{
  Disk, is_bad_g, entry_at, g_at, is_upgraded, chosen_pairs, validate_srd,
}
use crust_sworker.Validator.Space.Punish.{Punished, validate_srd-Punished}
use crust_sworker.Srd.Increase.Disk.{FileSystem, IsLawful, run}
use crust_sworker.Validator.Space.Sound.{IsSound, is_bad_g_iff}
use crust_sworker.Hex.{hexstring_safe}
use crust_sworker.Validator.Space.Sample.{Ascending, count_bad, is_bad_pair}
use crust_sworker.Validator.Space.Honest.{srd_increase-validates}

abbrev space : SrdMap
space =
    (codes "/a", (1 ∷ []) ∷ (2 ∷ []) ∷ []) ∷ (codes "/b", (3 ∷ []) ∷ (4 ∷ []) ∷ (5 ∷ []) ∷ []) ∷ []

abbrev wl : Workload
wl = record init { srd_path2hashs = space }

space-total : srd_total space ≡ 5
unfolding srd_total
space-total = refl

space-IsSorted : IsSorted space
unfolding text_lt
space-IsSorted = ((refl, tt), (tt, tt))

-- Nothing is on the disk.
abbrev empty_disk : ℕ × ℕ → Disk
empty_disk p = record { get_file = λ path. none; buffer = true; rand_val = 0 }

abbrev all_five : List (ℕ × ℕ)
all_five = (0, 0) ∷ (0, 1) ∷ (1, 0) ∷ (1, 1) ∷ (1, 2) ∷ []

space-drawn : chosen_pairs [] space ≡ some all_five
unfolding chosen_pairs
space-drawn = refl

wl-active : is_upgraded wl.upgrade_status ≡ false
unfolding is_upgraded
wl-active = refl

abbrev delete : Text → CrustStatus
delete path = crust_success

validate_srd-Punished_example :
    (after : Workload) × (validate_srd constant_crypto (λ w. w) delete empty_disk [] wl
      ≡ some after)
    × Ascending all_five
    × Punished (count_bad constant_crypto empty_disk space all_five) wl after
validate_srd-Punished_example =
    validate_srd-Punished constant_crypto delete empty_disk [] wl all_five space-IsSorted
      (omega (arith, space-total)) wl-active space-drawn

all_bad : count_bad constant_crypto empty_disk space all_five ≡ 5
unfolding is_bad_pair is_bad_g entry_at g_at
all_bad = refl

-- What sealing gives for each leaf.
abbrev sealed : ℕ → List ℕ
sealed i = i ∷ 7 ∷ []

-- The rest of a text after a first part.
strip : Text → Text → Option Text
strip [] q = some q
strip (x ∷ p) [] = none
strip (x ∷ p) (y ∷ q) = if x == y then strip p q else none

strip-append : (p q : Text) → strip p (p ++ q) ≡ some q
unfolding strip
strip-append [] q = refl
strip-append (x ∷ p) q = ground (arith, strip-append p q)

-- The files of a directory under its new name; none is left under the old one.
rename_files : Text → Text → (Text → Option (List ℕ)) → Text → Option (List ℕ)
rename_files old new s q = elim (strip (new ++ codes "/") q) [
  | some rest ↦ s ((old ++ codes "/") ++ rest)
  | none ↦ elim (strip (old ++ codes "/") q) [ some rest ↦ none | none ↦ s q ]
]

-- A file system as a function from paths.
abbrev disk_files : FileSystem
disk_files = record {
  State = Text → Option (List ℕ);
  get = λ p s. s p;
  create = λ dir s. s;
  save = λ p bytes s q. if text_eq q p then some bytes else s q;
  rename = rename_files;
}

disk_files-IsLawful : IsLawful disk_files
unfolding rename_files
disk_files-IsLawful = record {
  get-create = λ p dir s. refl;
  get-save = λ p bytes s. rw (text_eq_refl p) refl;
  get-save_other = λ p q bytes s ne. rw ne refl;
  get-rename = λ old new rest s. rw (rename_files, strip-append (new ++ codes "/") rest) refl;
}

abbrev sealing : Sealing
sealing = record {
  base_buffer = true;
  now_index = 12;
  dir_status = crust_success;
  hashs_buffer = true;
  hash_buffer = true;
  hex_buffer = true;
  seal = λ i. some (sealed i);
}

sealing-Succeeds : Succeeds sealing sealed
sealing-Succeeds = record {
  has_base = refl;
  has_dir = refl;
  has_hashs = refl;
  has_hash = refl;
  has_hex = refl;
  seals = λ i. refl;
}

-- The disk after the call, from an empty one.
abbrev sealed_disk : Disk
sealed_disk = record {
  get_file = λ p.
      disk_files.get p
        (run disk_files (srd_increase constant_crypto sealing (codes "/a") wl).0 (λ q. none));
  buffer = true;
  rand_val = 77;
}

srd_increase-validates_example :
    let hash = constant_crypto.sha256 (leaf_hashs constant_crypto sealed srd_rand_data_num 0) in
    ((srd_increase constant_crypto sealing (codes "/a") wl).1 ≡ add_g (codes "/a") hash wl)
    × (is_bad_g constant_crypto sealed_disk (codes "/a") hash ≡ false)
srd_increase-validates_example =
    srd_increase-validates disk_files constant_crypto sealing sealed (codes "/a") wl (λ q. none)
      sealed_disk disk_files-IsLawful sealing-Succeeds refl

is_bad_g_iff_example :
    (is_bad_g constant_crypto sealed_disk (codes "/a") (replicate 32 9) ≡ false)
    ↔ IsSound constant_crypto sealed_disk
        (codes "/a" ++ (codes "/" ++ hexstring_safe true (replicate 32 9)))
        (replicate 32 9)
is_bad_g_iff_example = is_bad_g_iff constant_crypto sealed_disk (codes "/a") (replicate 32 9) refl

abbrev file : FileStatus → FileStatus → FileEntry
file current origin = record {
  hash = 1 ∷ [];
  old_hash = 2 ∷ [];
  size = 10;
  old_size = 9;
  block_num = 1;
  status = record { current = current; waiting = origin; origin = origin };
}

abbrev stored : Workload
stored = record init {
  checked_files = file valid valid ∷ [];
  new_files = file valid unconfirmed ∷ [];
}

-- The tree of the file is not in the database.
abbrev no_tree : World
no_tree = record {
  persist_get = λ hash. (crust_persist_get_failed, none);
  is_valid_tree = λ hash tree. false;
  get_block = λ hash block. (crust_success, []);
  rand_val = 5;
}

now_lost :
    (validate_meaningful_file constant_crypto
      (λ w. w)
      crust_success
      ((0, no_tree) ∷ [])
      stored).checked_files
    ≡ record (file valid valid) {
      status = record { current = lost; waiting = valid; origin = valid };
    }
      ∷ file valid unconfirmed
      ∷ []
unfolding validate_meaningful_file
now_lost = refl

-- Changes that delete no file and bring none back.
abbrev LiveAlike : FileStatus → FileStatus → Type 0
LiveAlike a b = same_status a deleted ≡ same_status b deleted

LiveAlike-IsChange : IsChange LiveAlike
LiveAlike-IsChange = record {
  stays = λ a. refl;
  twice = λ a b d h k. h ∙ k;
  loses = refl;
  recovers = refl;
}

abbrev IsNone : List FileEntry → Type 0
IsNone files = files ≡ []

validate_meaningful_file-Keeps_example :
    let after =
      validate_meaningful_file constant_crypto (λ w. w) crust_success ((0, no_tree) ∷ []) stored in
    ((is_upgrade_done stored.upgrade_status ≡ true) × (after ≡ stored))
    ⊎ ((is_upgrade_done stored.upgrade_status ≡ false)
        × SameFiles LiveAlike IsNone (stored.checked_files ++ stored.new_files) after.checked_files
        × (after.reported_files_idx ≡ stored.reported_files_idx)
        × IsNone after.new_files)
validate_meaningful_file-Keeps_example =
    validate_meaningful_file-Keeps LiveAlike IsNone constant_crypto (λ w. w) crust_success
      ((0, no_tree) ∷ []) stored LiveAlike-IsChange
      (λ w. Keeps-refl LiveAlike IsNone LiveAlike-IsChange w) refl
