-- ===== src/Workload/Restore/Tests.antt =====
-- Examples for restoring the workload in src/enclave/workload/Workload.cpp.
use crust_sworker.Prelude.{ℕ, ◌≡◌, refl, true, List, [], ◌∷◌, arith, Bool}
use crust_sworker.Prelude.Map.{Map}
use crust_sworker.Prelude.Text.{Text, codes, text_lt}
use crust_sworker.Status.{crust_success, crust_unexpected_error}
use crust_sworker.Workload.{FileEntry, init, get_spec, unconfirmed, valid, lost}
use crust_sworker.Workload.Counts.{CountsOf}
use crust_sworker.Workload.Restore.{restore_file, restore_srd}
use crust_sworker.Workload.Restore.Files.{restore_file-CountsOf}
use crust_sworker.Workload.Restore.Space.{texts_of, counts_of, restore_srd-texts_of}

abbrev valid_file : FileEntry
valid_file = record {
  hash = 1 ∷ [];
  old_hash = 2 ∷ [];
  size = 70;
  old_size = 60;
  block_num = 1;
  status = record { current = valid; waiting = valid; origin = unconfirmed };
}

abbrev lost_file : FileEntry
lost_file = record valid_file {
  old_size = 50;
  status = record { current = lost; waiting = valid; origin = valid };
}

init-CountsOf : CountsOf init.wl_spec_info []
unfolding get_spec
init-CountsOf = record { unconfirmed_counted = refl; valid_counted = refl; lost_counted = refl }

restore_file-CountsOf_example :
    let r = restore_file (valid_file ∷ lost_file ∷ []) init in
    (r.checked_files ≡ valid_file ∷ lost_file ∷ [])
    × CountsOf r.wl_spec_info (valid_file ∷ lost_file ∷ [])
restore_file-CountsOf_example =
    restore_file-CountsOf (valid_file ∷ lost_file ∷ []) init
      ((omega arith, omega arith), ((omega arith, omega arith), tt)) init-CountsOf

-- Two disks, with two G and one.
abbrev space : Map (List (List ℕ))
space = (codes "/a", (1 ∷ 255 ∷ []) ∷ (16 ∷ 0 ∷ []) ∷ []) ∷ (codes "/b", (7 ∷ 9 ∷ []) ∷ []) ∷ []

abbrev alloc : Text → Bool
alloc t = true

a_before_b : text_lt (codes "/a") (codes "/b") ≡ true
unfolding text_lt
a_before_b = refl

restore_srd-texts_of_example :
    restore_srd alloc (texts_of space) init
    ≡ (crust_success, record init { srd_path2hashs = space; srd_info = counts_of space })
restore_srd-texts_of_example =
    restore_srd-texts_of alloc space init (λ t. refl) ((a_before_b, tt), (tt, tt))
      (
        (
          omega arith,
          (
            (omega arith, (omega arith, (omega arith, tt))),
            ((omega arith, (omega arith, (omega arith, tt))), tt),
          ),
        ),
        ((omega arith, ((omega arith, (omega arith, (omega arith, tt))), tt)), tt),
      )
      refl

-- A hash that is no hexadecimal text of whole bytes.
odd_hash :
    restore_srd alloc ((codes "/a", codes "123" ∷ []) ∷ []) init ≡ (crust_unexpected_error, init)
unfolding restore_srd crust_sworker.Hex.hex_string_to_bytes
odd_hash = refl
