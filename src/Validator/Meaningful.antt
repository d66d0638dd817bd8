-- ===== src/Validator/Meaningful.antt =====
-- `validate_meaningful_file` in src/enclave/validator/Validator.cpp: a sample of the files is read, and
-- a file becomes lost, or valid again, by what is found. The database, the JSON reader with
-- `validate_merkletree_json`, and the storage service are met through a `World` for each file checked.
pub mod Block
pub mod Frame
use crust_sworker.Prelude.{
  ℕ, zero, suc, ◌+◌, ◌/◌, ◌%◌, Bool, true, false, not, ◌&&◌, ◌||◌, List, [], ◌∷◌, ◌++◌, Option,
  none, some, ltb, ◌==◌, if◌then◌else◌, length, map, take,
}
use crust_sworker.Prelude.Int.{ℤ, pos, to_int32}
use crust_sworker.Status.{CrustStatus, crust_success}
use crust_sworker.Crypto.{Crypto}
use crust_sworker.Workload.{
  Workload, FileEntry, FileStatus, unconfirmed, valid, lost, deleted, same_status, UpgradeStatus,
  upgrade_success, set_report_file_flag, set_wl_spec_related, modify,
}
use crust_sworker.Storage.{set_current, is_current}
use crust_sworker.Validator.Meaningful.Block.{World, Verdict, passed, failed, offline, check_file}

-- MEANINGFUL_VALIDATE_MIN_NUM
abbrev pub meaningful_validate_min_num : ℕ
meaningful_validate_min_num = 64

-- `check_file_num`; the rate of 0.02 cuts off to a fiftieth.
unfoldable pub check_file_num : ℕ → ℕ
check_file_num n = if ltb meaningful_validate_min_num n then n / 50 else n

-- `wl->checked_files` takes the new files.
unfoldable pub merge_new_files : Workload → Workload
merge_new_files wl = record wl { checked_files = wl.checked_files ++ wl.new_files; new_files = [] }

-- `changed_idx2lost_um[idx] = lost`
unfoldable pub put_change : ℕ → Bool → List (ℕ × Bool) → List (ℕ × Bool)
put_change i b [] = (i, b) ∷ []
put_change i b ((j, c) ∷ cs) = if i == j then (j, b) ∷ cs else (j, c) ∷ put_change i b cs

unfoldable pub file_at : ℕ → List FileEntry → Option FileEntry
file_at i [] = none
file_at zero (e ∷ es) = some e
file_at (suc i) (e ∷ es) = file_at i es

-- What a verdict makes of the file at an index, with its current status before.
unfoldable pub apply_verdict :
    Verdict → ℕ → FileEntry → List (ℕ × Bool) → Workload → List (ℕ × Bool) × Workload
unfolding is_current modify set_current put_change
apply_verdict passed i e changed wl =
    if is_current lost e
    then (
      put_change i false changed,
      record wl { checked_files = modify i (set_current valid) wl.checked_files },
    )
    else (changed, wl)
apply_verdict failed i e changed wl =
    if is_current valid e
    then (
      put_change i true changed,
      record wl { checked_files = modify i (set_current lost) wl.checked_files },
    )
    else (changed, wl)
apply_verdict offline i e changed wl = (changed, wl)

unfoldable pub is_offline : Verdict → Bool
is_offline offline = true
is_offline _ = false

-- The loop over the chosen indexes; `others` is what other threads do where `sched_check` lets go of
-- the lock. The first result is whether the storage service went offline, which ends the function.
unfoldable pub check_files :
    Crypto
    → (Workload → Workload)
    → List (ℕ × World)
    → List (ℕ × Bool)
    → Workload
    → Bool × List (ℕ × Bool) × Workload
unfolding file_at is_current check_file apply_verdict is_offline
check_files c others [] changed wl = (false, changed, wl)
check_files c others ((i, w) ∷ rest) changed wl =
    let wl' = others wl in
    elim (file_at i wl'.checked_files) [
      | none ↦ check_files c others rest changed wl'
      | some e ↦ elim (is_current unconfirmed e || is_current deleted e) [
        | true ↦ check_files c others rest changed wl'
        | false ↦
            let v = check_file c w e in
            elim (is_offline v) [
              | true ↦ (true, changed, wl')
              | false ↦
                  let (changed', wl'') = apply_verdict v i e changed wl' in
                  check_files c others rest changed' wl''
            ]
      ]
    ]

-- The statistics, for the changes in the order of the hash map.
unfoldable pub count_changes : List (ℕ × Bool) → Workload → Workload
unfolding file_at set_wl_spec_related
count_changes [] wl = wl
count_changes ((i, was_valid) ∷ rest) wl = elim (file_at i wl.checked_files) [
  | none ↦ count_changes rest wl
  | some e ↦ count_changes rest (
      set_wl_spec_related e.status.current (if was_valid then valid else lost)
        (to_int32 (pos e.old_size)) wl)
]

-- An item of the chosen sample: `rand_val % wl->checked_files.size()`.
unfoldable pub sample_index : ℕ → ℕ × World → ℕ × World
sample_index n (rand_val, w) = (rand_val % n, w)

unfoldable pub is_upgrade_done : UpgradeStatus → Bool
is_upgrade_done upgrade_success = true
is_upgrade_done _ = false

-- `validate_meaningful_file`. `init_status` is that of `ocall_validate_init`, `draws` the random
-- numbers with what each check meets.
unfoldable pub validate_meaningful_file :
    Crypto → (Workload → Workload) → CrustStatus → List (ℕ × World) → Workload → Workload
unfolding is_upgrade_done merge_new_files set_report_file_flag check_file_num check_files
    count_changes sample_index
validate_meaningful_file c others init_status draws wl =
    if is_upgrade_done wl.upgrade_status
    then wl
    else (let wl' = merge_new_files wl in
        let n = length wl'.checked_files in
        if not (init_status == crust_success)
        then (if not (n == 0) then set_report_file_flag false wl' else wl')
        else (let sample = map (sample_index n) (take (check_file_num n) draws) in
            let (went_offline, changed, wl'') = check_files c others sample [] wl' in
            if went_offline then set_report_file_flag false wl'' else count_changes changed wl''))
