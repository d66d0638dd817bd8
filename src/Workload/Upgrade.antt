-- ===== src/Workload/Upgrade.antt =====
-- When an upgrade may start (src/enclave/workload/Workload.cpp, `try_report_work`).
use crust_sworker.Prelude.{ℕ, ◌+◌, ◌≤◌, ◌<◌, ◌^◌, ◌≡◌, ◌≢◌, ◌↔◌, ◌⊎◌, true, false, arith}
use crust_sworker.Status.{crust_success, crust_upgrade_block_expire}
use crust_sworker.Workload.{Workload, sub_size, report_has_validated_proof, try_report_work}

-- The heights that the first guard lets through: those from the end of the era on, and, since the
-- subtraction on `size_t` wraps, those below the report height plus 10, but not 0.
abbrev pub Passes : ℕ → ℕ → Type 0
Passes height reported = (0 < height) × ((reported + 310 ≤ height) ⊎ (height < reported + 10))

guard_cases :
    (height reported : ℕ)
    → height < 2 ^ 63
    → reported < 2 ^ 63
    → ((0 < height) × (300 ≤ sub_size (sub_size height reported) 10)) ↔ Passes height reported
guard_cases height reported h r = ground arith

-- For heights below 2 ^ 63, `try_report_work` answers CRUST_UPGRADE_BLOCK_EXPIRE exactly on height 0
-- and from 10 to 309 blocks after the reported height; any other height goes on to the other guards,
-- and is accepted exactly if there is a validated proof, no restart is pending and files are reported.
pub try_report_work_iff :
    (height : ℕ) (wl : Workload)
    → height < 2 ^ 63
    → wl.report_height < 2 ^ 63
    → ((try_report_work height wl ≢ crust_upgrade_block_expire) ↔ Passes height wl.report_height)
      × ((try_report_work height wl ≡ crust_success) ↔ (
          Passes height wl.report_height
          × (report_has_validated_proof wl ≡ true)
          × (wl.restart_flag ≡ false)
          × (wl.report_files ≡ true)))
unfolding try_report_work
try_report_work_iff height wl h r = ground (arith, guard_cases height wl.report_height h r)
