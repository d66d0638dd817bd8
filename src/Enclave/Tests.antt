-- ===== src/Enclave/Tests.antt =====
-- Examples for src/enclave/Enclave.cpp.
use crust_sworker.Prelude.{ℕ, ◌+◌, ◌≡◌, refl, true, List, [], ◌∷◌, none, some}
use crust_sworker.Prelude.Int.{pos}
use crust_sworker.Prelude.Text.{codes}
use crust_sworker.Prelude.Sorted.{value_or}
use crust_sworker.Status.{crust_success, crust_malloc_failed}
use crust_sworker.Crypto.Sample.{crypto}
use crust_sworker.Workload.{init, upgrade_none, set_upgrade_status}
use crust_sworker.Schedule.{sched_confirm_file}
use crust_sworker.Enclave.{
  Enclave, Outside, main_loop_round, ecall_enable_upgrade, ecall_disable_upgrade,
}
use crust_sworker.Enclave.Gates.{
  Call, increase, confirm, remove, report, run_all, enable_upgrade-run_all, main_loop_round-counts,
}

abbrev outside : Outside ℕ
outside = record {
  crypto = crypto;
  memory = record { hashs = true; files_root = true; sigbuf = true; block_hash = true };
  others = λ wl. wl;
  upload = λ text. crust_success;
  sealing = record {
    base_buffer = true;
    now_index = 0;
    dir_status = crust_success;
    hashs_buffer = true;
    hash_buffer = true;
    hex_buffer = true;
    seal = λ i. none;
  };
  delete = λ path. crust_success;
  persist_srd_info = λ info db. (crust_success, db + 1);
  ocall_srd_change = λ n wl. wl;
  init_status = crust_success;
  draws = [];
  disk = λ p. record { get_file = λ path. none; buffer = true; rand_val = 0 };
  rands = [];
  id_store_metadata = λ wl db. (crust_malloc_failed, db);
}

abbrev enclave : Enclave ℕ
enclave = record {
  wl = record init { validated_proof = pos 1 };
  counts = λ p. pos 0;
  g_srd_change = pos 0;
  g_work_report = [];
  db = 0;
}

abbrev calls : List Call
calls =
    confirm (codes "aa")
    ∷ increase (codes "/srd")
    ∷ report (codes "bb") 900
    ∷ remove (codes "aa")
    ∷ []

enabled : (ecall_enable_upgrade 900 enclave).0 ≡ crust_success
unfolding ecall_enable_upgrade
enabled = refl

enable_upgrade-run_all_example :
    ecall_disable_upgrade (run_all outside calls (ecall_enable_upgrade 900 enclave).1)
    ≡ record enclave { wl = set_upgrade_status upgrade_none enclave.wl }
enable_upgrade-run_all_example = enable_upgrade-run_all outside 900 calls enclave enabled

after : Enclave ℕ
unfolding main_loop_round
after = value_or enclave (main_loop_round outside enclave)

round : main_loop_round outside enclave ≡ some after
unfolding main_loop_round after crust_sworker.Validator.Space.validate_srd
    crust_sworker.Validator.Meaningful.validate_meaningful_file
round = refl

round_counts : after.counts sched_confirm_file ≡ enclave.counts sched_confirm_file
round_counts = main_loop_round-counts outside enclave after round sched_confirm_file
