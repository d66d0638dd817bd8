-- ===== src/Enclave.antt =====
-- src/enclave/Enclave.cpp: the calls that the application makes into the enclave. Some are refused while
-- an upgrade is in process, and most are counted by the scheduler while they run. The calls that seal and
-- unseal a file, and those of the identity, are not here.
pub mod Gates
mod Tests
use crust_sworker.Prelude.{
  ℕ, Bool, List, [], ◌∷◌, Option, none, some, true, false, if◌then◌else◌, ◌==◌,
}
use crust_sworker.Prelude.Int.{ℤ, ◌+ℤ◌}
use crust_sworker.Prelude.Text.{Text}
use crust_sworker.Prelude.Map.{Map}
use crust_sworker.Status.{CrustStatus, crust_success, crust_upgrade_wait_for_next_era}
use crust_sworker.Crypto.{Crypto}
use crust_sworker.Workload.{
  Workload, UpgradeStatus, upgrade_none, upgrade_process, set_upgrade_status, try_report_work,
  report_add_validated_proof,
}
use crust_sworker.Schedule.{
  Process, sched_get_workreport, sched_srd_check_reserved, sched_confirm_file, sched_delete_file,
  sched_validate_srd, sched_validate_file, sched_srd_change, Counts, sched_add, sched_del,
}
use crust_sworker.Storage.{storage_confirm_file, storage_delete_file}
use crust_sworker.Report.{Memory, gen_and_upload_work_report, current_report, gen_work_report}
use crust_sworker.Srd.Change.{set_srd_change, srd_change}
use crust_sworker.Srd.Increase.{Sealing, srd_increase}
use crust_sworker.Srd.Decrease.{srd_decrease}
use crust_sworker.Srd.Metadata.{srd_update_metadata}
use crust_sworker.Validator.Space.{Disk, validate_srd}
use crust_sworker.Validator.Meaningful.{validate_meaningful_file}
use crust_sworker.Validator.Meaningful.Block.{World}

-- What the calls share: the workload, the counters of the scheduler, `g_srd_change`, `g_work_report`, and
-- the database.
pub record Enclave (D : Type 0) : Type 0 where
  pub wl : Workload
  pub counts : Counts
  pub g_srd_change : ℤ
  pub g_work_report : Text
  pub db : D

-- `ENC_UPGRADE_STATUS_PROCESS == Workload::get_instance()->get_upgrade_status()`
unfoldable pub is_process : UpgradeStatus → Bool
is_process upgrade_process = true
is_process _ = false

module _ {D : Type 0} where
  -- `sched_add(id); …; sched_del(id);` around a function that does not touch the counters.
  unfoldable pub scheduled : Process → (Enclave D → Enclave D) → Enclave D → Enclave D
  unfolding sched_add sched_del
  scheduled id call e =
      let e' = call (record e { counts = sched_add id e.counts }) in
      record e' { counts = sched_del id e'.counts }

-- What the calls meet outside: the SGX library and the allocations, the other threads, the disk and the
-- storage service, the chain, and the database with the text of `srd_info`.
pub record Outside (D : Type 0) : Type 0 where
  pub crypto : Crypto
  pub memory : Memory
  pub others : Workload → Workload
  pub upload : Text → CrustStatus
  pub sealing : Sealing
  pub delete : Text → CrustStatus
  pub persist_srd_info : Map ℤ → D → CrustStatus × D
  pub ocall_srd_change : ℤ → Workload → Workload
  pub init_status : CrustStatus
  pub draws : List (ℕ × World)
  pub disk : ℕ × ℕ → Disk
  pub rands : List (ℕ × ℕ)
  pub id_store_metadata : Workload → D → CrustStatus × D

module _ {D : Type 0} (o : Outside D) where
  -- The files written to the disk are left out.
  unfoldable pub ecall_srd_increase : Text → Enclave D → Enclave D
  unfolding scheduled is_process
  ecall_srd_increase path e =
      if is_process e.wl.upgrade_status
      then e
      else scheduled sched_srd_change
          (λ e. record e { wl = (srd_increase o.crypto o.sealing path e.wl).1 }) e

  unfoldable pub ecall_srd_decrease : ℤ → Enclave D → Enclave D
  unfolding scheduled
  ecall_srd_decrease change =
      scheduled sched_srd_change (λ e. record e { wl = (srd_decrease o.delete change [] e.wl).1 })

  -- `get_srd_change` and `set_srd_change`, as one step.
  unfoldable pub ecall_srd_set_change : ℤ → Enclave D → Enclave D
  ecall_srd_set_change change e = record e {
    g_srd_change = set_srd_change (e.g_srd_change +ℤ change) e.wl.srd_path2hashs;
  }

  -- `dels` is the JSON object in `hashs`.
  unfoldable pub ecall_srd_update_metadata : Map ℤ → Enclave D → Enclave D
  unfolding scheduled
  ecall_srd_update_metadata dels = scheduled sched_srd_check_reserved (λ e.
      let (wl', db') = srd_update_metadata o.delete o.others o.persist_srd_info dels e.wl e.db in
      record e { wl = wl'; db = db' })

  -- The functions of the main loop on the enclave.
  unfoldable pub validate_files : Enclave D → Enclave D
  validate_files e = record e {
    wl = validate_meaningful_file o.crypto o.others o.init_status o.draws e.wl;
  }

  unfoldable pub validate_space : Enclave D → Option (Enclave D)
  validate_space e = elim (validate_srd o.crypto o.others o.delete o.disk o.rands e.wl) [
    | none ↦ none
    | some wl' ↦ some (record e { wl = wl' })
  ]

  unfoldable pub change_space : Enclave D → Enclave D
  change_space e =
      let t = srd_change o.ocall_srd_change o.persist_srd_info e.g_srd_change e.wl e.db in
      record e { g_srd_change = t.change; wl = t.wl; db = t.db }

  -- The part of a round after `validate_srd`; the status of `id_store_metadata` is logged only.
  unfoldable pub finish_round : Enclave D → Enclave D
  unfolding scheduled change_space sched_del
  finish_round e =
      let e₁ = record e { counts = sched_del sched_validate_srd e.counts } in
      let e₂ = scheduled sched_srd_change change_space e₁ in
      record e₂ { wl = report_add_validated_proof e₂.wl; db = (o.id_store_metadata e₂.wl e₂.db).1 }

  unfoldable pub end_round : Option (Enclave D) → Option (Enclave D)
  unfolding finish_round
  end_round none = none
  end_round (some e) = some (finish_round e)

  -- One round of `ecall_main_loop`; `none` is the division by zero of `validate_srd`.
  unfoldable pub main_loop_round : Enclave D → Option (Enclave D)
  unfolding scheduled validate_files validate_space end_round sched_add
  main_loop_round e =
      let e₁ = scheduled sched_validate_file validate_files e in
      end_round (validate_space (record e₁ { counts = sched_add sched_validate_srd e₁.counts }))

  -- `gen_and_upload_work_report(block_hash, block_height, 0, false)` on the enclave.
  unfoldable pub make_and_upload : Text → ℕ → Enclave D → CrustStatus × Enclave D
  make_and_upload block_hash block_height e =
      let r =
        gen_and_upload_work_report o.crypto o.memory o.others o.upload block_hash block_height false
          e.g_work_report e.wl in
      (r.status, record e { wl = r.wl; g_work_report = current_report r.report e.g_work_report })

  unfoldable pub ecall_gen_and_upload_work_report : Text → ℕ → Enclave D → CrustStatus × Enclave D
  unfolding is_process scheduled make_and_upload
  ecall_gen_and_upload_work_report block_hash block_height e =
      if is_process e.wl.upgrade_status then (crust_upgrade_wait_for_next_era, e) else (
        (make_and_upload block_hash block_height e).0,
        scheduled sched_get_workreport (λ e. (make_and_upload block_hash block_height e).1) e,
      )

unfoldable pub confirm_file : {D : Type 0} → Text → Enclave D → Enclave D
confirm_file hash e = record e { wl = (storage_confirm_file hash e.wl).1 }

unfoldable pub delete_file : {D : Type 0} → Text → Enclave D → Enclave D
delete_file hash e = record e { wl = (storage_delete_file hash e.wl).1 }

module _ {D : Type 0} where
  unfoldable pub ecall_confirm_file : Text → Enclave D → CrustStatus × Enclave D
  unfolding is_process scheduled confirm_file
  ecall_confirm_file hash e =
      if is_process e.wl.upgrade_status
      then (crust_upgrade_wait_for_next_era, e)
      else ((storage_confirm_file hash e.wl).0, scheduled sched_confirm_file (confirm_file hash) e)

  -- The keys deleted from the database are left out.
  unfoldable pub ecall_delete_file : Text → Enclave D → CrustStatus × Enclave D
  unfolding is_process scheduled delete_file
  ecall_delete_file hash e =
      if is_process e.wl.upgrade_status
      then (crust_upgrade_wait_for_next_era, e)
      else ((storage_delete_file hash e.wl).0, scheduled sched_delete_file (delete_file hash) e)

  unfoldable pub ecall_enable_upgrade : ℕ → Enclave D → CrustStatus × Enclave D
  unfolding try_report_work set_upgrade_status
  ecall_enable_upgrade block_height e =
      let status = try_report_work block_height e.wl in
      if status == crust_success
      then (status, record e { wl = set_upgrade_status upgrade_process e.wl })
      else (status, e)

  unfoldable pub ecall_disable_upgrade : Enclave D → Enclave D
  unfolding set_upgrade_status
  ecall_disable_upgrade e = record e { wl = set_upgrade_status upgrade_none e.wl }
