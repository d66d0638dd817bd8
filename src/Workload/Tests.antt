-- ===== src/Workload/Tests.antt =====
-- Examples for src/enclave/workload/Workload.cpp.
use crust_sworker.Prelude.{◌≡◌, ◌≢◌, ◌↔◌, refl, true, false, arith}
use crust_sworker.Prelude.Int.{pos}
use crust_sworker.Status.{crust_success, crust_upgrade_block_expire}
use crust_sworker.Workload.{Workload, init, try_report_work, report_has_validated_proof}
use crust_sworker.Workload.Upgrade.{Passes, try_report_work_iff}

-- A workload that has reported at height 1000 and has a validated proof.
abbrev reported : Workload
reported = record init { report_height = 1000; validated_proof = pos 1 }

-- Within the era the report is refused, after it accepted; and so it is far below the reported height.
in_era : try_report_work 1309 reported ≡ crust_upgrade_block_expire
unfolding try_report_work
in_era = refl

below_era : try_report_work 5 reported ≡ crust_success
unfolding try_report_work
below_era = refl

try_report_work_iff_example :
    ((try_report_work 1310 reported ≢ crust_upgrade_block_expire) ↔ Passes 1310 1000)
    × ((try_report_work 1310 reported ≡ crust_success) ↔ (
        Passes 1310 1000
        × (report_has_validated_proof reported ≡ true)
        × (reported.restart_flag ≡ false)
        × (reported.report_files ≡ true)))
try_report_work_iff_example = try_report_work_iff 1310 reported (omega arith) (omega arith)
