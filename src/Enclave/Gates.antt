-- ===== src/Enclave/Gates.antt =====
-- The calls of src/enclave/Enclave.cpp while an upgrade is in process, and the scheduler's counters.
use crust_sworker.Prelude.{
  ℕ, ◌≡◌, ◌≢◌, refl, ap, sym, ◌∙◌, true, false, ◌==◌, List, [], ◌∷◌, arith, Bool-cases, Option,
  none, some, inl, inr,
}
use crust_sworker.Prelude.Text.{Text}
use crust_sworker.Prelude.Int.{ℤ, ◌+ℤ◌, ◌-ℤ◌, pos, int_laws}
use crust_sworker.Status.{CrustStatus, crust_success, crust_upgrade_wait_for_next_era}
use crust_sworker.Workload.{
  Workload, upgrade_none, upgrade_process, set_upgrade_status, try_report_work,
}
use crust_sworker.Schedule.{
  sched_validate_srd, sched_validate_file, sched_srd_change, Process, same_process, Counts,
  sched_add, sched_del,
}
use crust_sworker.Enclave.{
  Enclave, Outside, is_process, ecall_srd_increase, ecall_gen_and_upload_work_report, scheduled,
  finish_round, end_round, change_space, validate_space, validate_files, main_loop_round,
  ecall_confirm_file, ecall_delete_file, ecall_enable_upgrade, ecall_disable_upgrade,
}

-- The calls of users that are refused while an upgrade is in process.
pub data Call : Type 0 where
  increase confirm remove : Text → Call
  report : Text → ℕ → Call

module _ {D : Type 0} (o : Outside D) where
  unfoldable pub run : Call → Enclave D → Enclave D
  unfolding ecall_srd_increase ecall_confirm_file ecall_delete_file ecall_gen_and_upload_work_report
  run (increase path) e = ecall_srd_increase o path e
  run (confirm hash) e = (ecall_confirm_file hash e).1
  run (remove hash) e = (ecall_delete_file hash e).1
  run (report block_hash block_height) e =
      (ecall_gen_and_upload_work_report o block_hash block_height e).1

  unfoldable pub run_all : List Call → Enclave D → Enclave D
  unfolding run
  run_all [] e = e
  run_all (call ∷ calls) e = run_all calls (run call e)

  increase-refused :
      (path : Text) (e : Enclave D)
      → is_process e.wl.upgrade_status ≡ true
      → ecall_srd_increase o path e ≡ e
  unfolding ecall_srd_increase
  increase-refused path e h = rw (ecall_srd_increase, h) refl

  confirm-refused :
      (hash : Text) (e : Enclave D)
      → is_process e.wl.upgrade_status ≡ true
      → ecall_confirm_file hash e ≡ (crust_upgrade_wait_for_next_era, e)
  unfolding ecall_confirm_file
  confirm-refused hash e h = rw (ecall_confirm_file, h) refl

  remove-refused :
      (hash : Text) (e : Enclave D)
      → is_process e.wl.upgrade_status ≡ true
      → ecall_delete_file hash e ≡ (crust_upgrade_wait_for_next_era, e)
  unfolding ecall_delete_file
  remove-refused hash e h = rw (ecall_delete_file, h) refl

  report-refused :
      (block_hash : Text) (block_height : ℕ) (e : Enclave D)
      → is_process e.wl.upgrade_status ≡ true
      → ecall_gen_and_upload_work_report o block_hash block_height e
        ≡ (crust_upgrade_wait_for_next_era, e)
  unfolding ecall_gen_and_upload_work_report
  report-refused block_hash block_height e h = rw (ecall_gen_and_upload_work_report, h) refl

  run-refused :
      (call : Call) (e : Enclave D) → is_process e.wl.upgrade_status ≡ true → run call e ≡ e
  unfolding run
  run-refused (increase path) e h = increase-refused path e h
  run-refused (confirm hash) e h =
      ap (λ (r : CrustStatus × Enclave D). r.1) (confirm-refused hash e h)
  run-refused (remove hash) e h =
      ap (λ (r : CrustStatus × Enclave D). r.1) (remove-refused hash e h)
  run-refused (report block_hash block_height) e h =
      ap (λ (r : CrustStatus × Enclave D). r.1) (report-refused block_hash block_height e h)

  run_all-refused :
      (calls : List Call) (e : Enclave D)
      → is_process e.wl.upgrade_status ≡ true
      → run_all calls e ≡ e
  unfolding run_all
  run_all-refused [] e h = refl
  run_all-refused (call ∷ calls) e h =
      ap (run_all calls) (run-refused call e h) ∙ run_all-refused calls e h

enabled :
    {D : Type 0} (block_height : ℕ) (e : Enclave D)
    → (ecall_enable_upgrade block_height e).0 ≡ crust_success
    → (ecall_enable_upgrade block_height e).1
      ≡ record e { wl = set_upgrade_status upgrade_process e.wl }
unfolding ecall_enable_upgrade
enabled block_height e h = elim (Bool-cases (try_report_work block_height e.wl == crust_success)) [
  | inl k ↦ rw (ecall_enable_upgrade, k) refl
  | inr k ↦ absurd (failed (try_report_work block_height e.wl) k (rw k at h))
]
  where
    failed : (status : CrustStatus) → (status == crust_success) ≡ false → status ≢ crust_success
    failed status k p = ground arith

refused_then :
    (wl : Workload) → is_process (set_upgrade_status upgrade_process wl).upgrade_status ≡ true
unfolding is_process set_upgrade_status
refused_then wl = refl

disabled :
    {D : Type 0} (e : Enclave D)
    → ecall_disable_upgrade (record e { wl = set_upgrade_status upgrade_process e.wl })
      ≡ record e { wl = set_upgrade_status upgrade_none e.wl }
unfolding ecall_disable_upgrade set_upgrade_status
disabled e = refl

-- From an ecall_enable_upgrade that succeeds until ecall_disable_upgrade, no call to add space, to confirm or
-- delete a file or to make a work report has an effect: afterwards the enclave is what it was before,
-- with no upgrade in process.
pub enable_upgrade-run_all :
    {D : Type 0} (o : Outside D) (block_height : ℕ) (calls : List Call) (e : Enclave D)
    → (ecall_enable_upgrade block_height e).0 ≡ crust_success
    → ecall_disable_upgrade (run_all o calls (ecall_enable_upgrade block_height e).1)
      ≡ record e { wl = set_upgrade_status upgrade_none e.wl }
enable_upgrade-run_all {D} o block_height calls e h =
    let e' : Enclave D = record e { wl = set_upgrade_status upgrade_process e.wl } in
    ap (λ w. ecall_disable_upgrade (run_all o calls w)) (enabled block_height e h)
    ∙ ap ecall_disable_upgrade (run_all-refused o calls e' (refused_then e.wl))
    ∙ disabled e

up_down : (n : ℤ) → n +ℤ pos 1 -ℤ pos 1 ≡ n
up_down n = grind int_laws

-- `sched_del` takes back what `sched_add` did.
add_del_lem : (id p : Process) (c : Counts) → sched_del id (sched_add id c) p ≡ c p
unfolding sched_add sched_del
add_del_lem id p c = elim (Bool-cases (same_process id p)) [
  | inl e ↦ rw e (up_down (c p))
  | inr e ↦ rw e refl
]

-- A counted call leaves the counters as they were.
scheduled-counts :
    {D : Type 0} (id p : Process) (call : Enclave D → Enclave D) (e : Enclave D)
    → ((e : Enclave D) → (call e).counts ≡ e.counts)
    → (scheduled id call e).counts p ≡ e.counts p
unfolding scheduled
scheduled-counts id p call e keeps =
    ap (λ c. sched_del id c p) (keeps (record e { counts = sched_add id e.counts }))
    ∙ add_del_lem id p e.counts

change_space-counts :
    {D : Type 0} (o : Outside D) (e : Enclave D) → (change_space o e).counts ≡ e.counts
unfolding change_space
change_space-counts o e = refl

validate_files-counts :
    {D : Type 0} (o : Outside D) (e : Enclave D) → (validate_files o e).counts ≡ e.counts
unfolding validate_files
validate_files-counts o e = refl

module _ {D : Type 0} (o : Outside D) where
  finish_round-counts :
      (p : Process) (c : Counts) (e : Enclave D)
      → e.counts ≡ sched_add sched_validate_srd c
      → (finish_round o e).counts p ≡ c p
  unfolding finish_round
  finish_round-counts p c e h =
      let e₁ : Enclave D = record e { counts = sched_del sched_validate_srd e.counts } in
      scheduled-counts sched_srd_change p (change_space o) e₁ (change_space-counts o)
      ∙ ap (λ k. sched_del sched_validate_srd k p) h
      ∙ add_del_lem sched_validate_srd p c

  validate_space-counts : (e e' : Enclave D) → validate_space o e ≡ some e' → e'.counts ≡ e.counts
  unfolding validate_space
  validate_space-counts e e' h = ground arith

end_round-some :
    {D : Type 0} (o : Outside D) (x : Option (Enclave D)) (e' : Enclave D)
    → end_round o x ≡ some e'
    → (e : Enclave D) × (x ≡ some e) × (e' ≡ finish_round o e)
unfolding end_round
end_round-some o none e' h = absurd (never e' h)
  where
    never : {A : Type 0} (a : A) → none ≡ some a → ⊥
    never a p = ground arith
end_round-some {D} o (some e) e' h = (e, refl, some-injective (sym h))
  where
    some-injective : {a b : Enclave D} → some a ≡ some b → a ≡ b
    some-injective p = ground arith

-- A round of the main loop that comes to its end leaves each counter of the scheduler as it was.
pub main_loop_round-counts :
    {D : Type 0} (o : Outside D) (e e' : Enclave D)
    → main_loop_round o e ≡ some e'
    → (p : Process) → e'.counts p ≡ e.counts p
unfolding main_loop_round
main_loop_round-counts {D} o e e' h p =
    let e₁ = scheduled sched_validate_file (validate_files o) e in
    let e₂ : Enclave D = record e₁ { counts = sched_add sched_validate_srd e₁.counts } in
    let (e₃, k, q) = end_round-some o (validate_space o e₂) e' h in
    ap (λ (x : Enclave D). x.counts p) q
    ∙ finish_round-counts o p e₁.counts e₃ (validate_space-counts o e₂ e₃ k)
    ∙ scheduled-counts sched_validate_file p (validate_files o) e (validate_files-counts o)
