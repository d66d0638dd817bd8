-- ===== src/Schedule.antt =====
-- src/enclave/schedule/Schedule.cpp: the number of calls of each kind that run, and whether a long call
-- has to let go of its lock. `g_sched_mutex` makes each function one step.
pub mod Running
pub mod SafeLock
mod Tests
use crust_sworker.Prelude.{ℕ, ◌==◌, Bool, true, false, ◌||◌, List, [], ◌∷◌, if◌then◌else◌}
use crust_sworker.Prelude.Int.{ℤ, pos, ◌+ℤ◌, ◌-ℤ◌, ltb_ℤ}

-- `sched_process_t`
pub data Process : Type 0 where
  sched_get_workreport sched_srd_check_reserved sched_confirm_file sched_delete_file sched_seal
        sched_unseal sched_validate_srd sched_validate_file sched_srd_change sched_store_metadata :
      Process

-- The number of the constructor in the enum.
unfoldable pub process_number : Process → ℕ
process_number sched_get_workreport = 0
process_number sched_srd_check_reserved = 1
process_number sched_confirm_file = 2
process_number sched_delete_file = 3
process_number sched_seal = 4
process_number sched_unseal = 5
process_number sched_validate_srd = 6
process_number sched_validate_file = 7
process_number sched_srd_change = 8
process_number sched_store_metadata = 9

unfoldable pub same_process : Process → Process → Bool
unfolding process_number
same_process p q = process_number p == process_number q

-- `g_block_func_m`; a key that is not there has an empty set.
unfoldable pub block_procs : Process → List Process
block_procs sched_validate_srd = sched_get_workreport ∷ sched_srd_check_reserved ∷ []
block_procs sched_validate_file = sched_get_workreport ∷ sched_confirm_file ∷ sched_delete_file ∷ []
block_procs sched_srd_change = sched_get_workreport ∷ sched_srd_check_reserved ∷ []
block_procs sched_srd_check_reserved = sched_get_workreport ∷ []
block_procs _ = []

-- `g_func_m`; a key that is not there reads as 0.
abbrev pub Counts : Type 0
Counts = Process → ℤ

unfoldable pub sched_add : Process → Counts → Counts
unfolding same_process
sched_add id counts p = if same_process id p then counts p +ℤ pos 1 else counts p

unfoldable pub sched_del : Process → Counts → Counts
unfolding same_process
sched_del id counts p = if same_process id p then counts p -ℤ pos 1 else counts p

unfoldable pub any_running : List Process → Counts → Bool
any_running [] counts = false
any_running (p ∷ ps) counts = ltb_ℤ (pos 0) (counts p) || any_running ps counts

-- `release_lock` of `sched_check`.
unfoldable pub release_lock : Process → Counts → Bool
unfolding block_procs any_running
release_lock id counts = any_running (block_procs id) counts

-- `sched_check`: the other threads run between the unlock and the lock.
unfoldable pub sched_check {ℓ} : {A : Type ℓ} → (A → A) → Process → Counts → A → A
unfolding release_lock
sched_check others id counts state = if release_lock id counts then others state else state
