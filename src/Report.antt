-- ===== src/Report.antt =====
-- src/enclave/report/Report.cpp: the work report. `Scan` is the loop over `checked_files`, the file here
-- is the whole of `gen_work_report` and of the upload.
pub mod Scan
pub mod Signed
pub mod Guards
pub mod Buffer
pub mod Upload
mod Tests
use crust_sworker.Prelude.{
  ℕ, zero, suc, ◌+◌, ◌*◌, ◌/◌, ◌%◌, ◌^◌, Bool, true, false, not, ◌&&◌, ◌||◌, List, [], ◌∷◌, ◌++◌,
  Option, none, some, ltb, ◌==◌, if◌then◌else◌, length, take, replicate, map,
}
use crust_sworker.Prelude.Int.{ℤ, pos}
use crust_sworker.Prelude.Text.{Text, codes}
use crust_sworker.Prelude.Decimal.{to_string, int_to_string}
use crust_sworker.Status.{
  CrustStatus, crust_success, crust_block_height_expired, crust_first_work_report_after_report,
  crust_work_report_not_validated, crust_no_karst, crust_malloc_failed, crust_unexpected_error,
  crust_sgx_sign_failed, era_length, hash_length,
}
use crust_sworker.Crypto.{Crypto}
use crust_sworker.Hex.{hexstring_safe, hex_string_to_bytes}
use crust_sworker.Workload.{
  Workload, FileEntry, sub_size, report_has_validated_proof, report_reduce_validated_proof,
  set_report_height, set_restart_flag, set_report_file_flag, handle_report_result,
}
pub use Signed.{Fields}
unfoldable pub use Signed.{
  srd_hashs, concat, root_of, hash_at, sign_buffer, sign_buffer_len, quoted, plain, report_text,
  srd_workload, report_fields,
}
use Scan.{Scanned, drop_deleted, scan_files}

-- Whether each `enc_malloc` of the function gives a buffer.
pub record Memory : Type 0 where
  pub hashs : Bool
  pub files_root : Bool
  pub sigbuf : Bool
  pub block_hash : Bool

-- What comes of a call: the status, the workload, and the new `g_work_report` if there is one. The locks
-- of `gen_work_report` are not modelled: a call is one step, also where it leaves with one held.
pub record Outcome : Type 0 where
  pub status : CrustStatus
  pub wl : Workload
  pub report : Option Text

-- The end of the function, and of its early exit.
unfoldable pub cleanup : ℕ → Workload → Workload
unfolding set_report_height set_restart_flag set_report_file_flag report_reduce_validated_proof
cleanup height wl =
    report_reduce_validated_proof
      (set_report_file_flag true (set_restart_flag false (set_report_height height wl)))

-- `block_height == 0 || block_height - wl->get_report_height() < ERA_LENGTH`, on `size_t`.
unfoldable pub is_expired : ℕ → Workload → Bool
is_expired block_height wl =
    (block_height == 0) || ltb (sub_size block_height wl.report_height) era_length

-- The status with which a report is put off, or CRUST_SUCCESS.
unfoldable pub report_condition : Workload → CrustStatus
unfolding report_has_validated_proof
report_condition wl =
    if wl.restart_flag
    then crust_first_work_report_after_report
    else (if not (report_has_validated_proof wl)
        then crust_work_report_not_validated
        else (if not wl.report_files then crust_no_karst else crust_success))

-- The part from the signature data on; a failure sets no report.
unfoldable pub sign_report :
    Crypto → Memory → Text → ℕ → Scanned → Workload → CrustStatus × Option Text
sign_report c mem block_hash block_height s wl =
    if not mem.sigbuf
    then (crust_malloc_failed, none)
    else (elim (hex_string_to_bytes mem.block_hash (take (2 * hash_length) block_hash)) [
      | none ↦ (crust_unexpected_error, none)
      | some hash ↦
          let f = report_fields c block_height hash s wl in
          (elim (c.sign wl.pri_key (sign_buffer f)) [
            | none ↦ (crust_sgx_sign_failed, none)
            | some sig ↦ (crust_success, some (report_text f block_hash sig))
          ])
    ])

-- `wl->checked_files` and `wl->reported_files_idx` after the loop.
unfoldable pub scanned_wl : Bool → Workload → Workload
unfolding drop_deleted scan_files
scanned_wl upgrading wl = record wl { checked_files = r.1; reported_files_idx = r.0.reported_idx }
  where
    r : Scanned × List FileEntry
    r = scan_files upgrading (drop_deleted wl.checked_files)

unfoldable pub scanned : Bool → Workload → Scanned
unfolding drop_deleted scan_files
scanned upgrading wl = (scan_files upgrading (drop_deleted wl.checked_files)).0

-- The part after the conditions: the hashes of the G, the files, the signature.
unfoldable pub make_report : Crypto → Memory → Text → ℕ → Bool → Workload → Outcome
make_report c mem block_hash block_height is_upgrading wl =
    if not mem.hashs
    then record { status = crust_malloc_failed; wl = cleanup block_height wl; report = none }
    else (let s = scanned is_upgrading wl in
        let wl' = scanned_wl is_upgrading wl in
        if not (length s.valid_idx == 0) && not mem.files_root
        then record { status = crust_malloc_failed; wl = cleanup block_height wl'; report = none }
        else (let (status, report) = sign_report c mem block_hash block_height s wl' in
            record { status = status; wl = cleanup block_height wl'; report = report }))

unfoldable pub gen_work_report : Crypto → Memory → Text → ℕ → Bool → Workload → Outcome
gen_work_report c mem block_hash block_height is_upgrading wl =
    if is_expired block_height wl
    then record { status = crust_block_height_expired; wl = wl; report = none }
    else (if report_condition wl == crust_success
        then make_report c mem block_hash block_height is_upgrading wl
        else record { status = report_condition wl; wl = cleanup block_height wl; report = none })

-- `g_work_report` after a call.
unfoldable pub current_report : Option Text → Text → Text
current_report (some text) g_work_report = text
current_report none g_work_report = g_work_report

-- `gen_and_upload_work_report`. `locked` only decides whether the call holds `g_gen_work_report`, which
-- keeps other such calls out of it; `others` is not such a call either way. `others` is what the other threads do to the workload while this one
-- waits and uploads, `upload` is the status of `ocall_upload_workreport` for a report.
unfoldable pub gen_and_upload_work_report :
    Crypto
    → Memory
    → (Workload → Workload)
    → (Text → CrustStatus)
    → Text
    → ℕ
    → Bool
    → Text
    → Workload
    → Outcome
gen_and_upload_work_report c mem others upload block_hash block_height is_upgrading g_work_report
      wl =
    let o = gen_work_report c mem block_hash block_height is_upgrading wl in
    if o.status == crust_success
    then (let status = upload (current_report o.report g_work_report) in
        record o {
          status = status;
          wl = if status == crust_success then handle_report_result (others o.wl) else others o.wl;
        })
    else o
