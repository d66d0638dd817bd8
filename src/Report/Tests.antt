-- ===== src/Report/Tests.antt =====
-- Examples for src/enclave/report/Report.cpp.
use crust_sworker.Prelude.{
  ℕ, ◌+◌, ◌≤◌, ◌≡◌, ◌⊎◌, refl, List, [], ◌∷◌, ◌++◌, none, true, false, arith, sum_by, length,
  replicate,
}
use crust_sworker.Prelude.Int.{pos, ◌+ℤ◌, ◌-ℤ◌}
use crust_sworker.Prelude.Text.{Text, codes}
use crust_sworker.Prelude.Sets.{set_insert, set_erase}
use crust_sworker.Hex.{hex_string_to_bytes}
use crust_sworker.Status.{CrustStatus, crust_success, crust_block_height_expired}
use crust_sworker.Crypto.Sample.{crypto}
use crust_sworker.Workload.{
  Workload, FileEntry, FileStatus, unconfirmed, valid, lost, init, handle_report_result,
  report_has_validated_proof,
}
use crust_sworker.Report.{
  Memory, is_expired, report_condition, scanned, gen_work_report, gen_and_upload_work_report,
  make_report, sign_report, sign_buffer, sign_buffer_len, report_fields,
}
use crust_sworker.Report.Scan.{scan_files}
use crust_sworker.Report.Scan.Choice.{scan_files_lem, chosen, changes, size_at}
use crust_sworker.Report.Scan.Commit.{origin_valid, Evolves, handle_report_result-commits}
use crust_sworker.Report.Guards.{Settled, gen_work_report_cases, gen_work_report_once}
use crust_sworker.Report.Buffer.{length-sign_buffer}
use crust_sworker.Report.Upload.{gen_and_upload_work_report-commits}

abbrev file : ℕ → FileStatus → FileStatus → FileEntry
file size current origin = record {
  hash = replicate 32 1;
  old_hash = replicate 32 2;
  size = size + 1;
  old_size = size;
  block_num = 1;
  status = record { current = current; waiting = origin; origin = origin };
}

-- A file that became valid, one that was lost, one that stays, and one that waits for confirmation.
abbrev files : List FileEntry
files =
    file 100 valid unconfirmed
    ∷ file 200 lost valid
    ∷ file 400 valid valid
    ∷ file 800 unconfirmed unconfirmed
    ∷ []

abbrev wl : Workload
wl = record init {
  checked_files = files;
  srd_path2hashs = (codes "/srd", replicate 32 3 ∷ []) ∷ [];
  pub_key = replicate 64 4;
  pre_pub_key = replicate 64 0;
  pri_key = replicate 32 5;
  validated_proof = pos 1;
  report_height = 600;
}

scan_files-files : (scan_files false files).0.valid_idx ≡ 0 ∷ 2 ∷ []
unfolding scan_files set_insert set_erase ◌+ℤ◌ ◌-ℤ◌
scan_files-files = refl

scan_files_lem_example :
    let s = (scan_files false files).0 in
    (s.valid_idx ≡ chosen false 0 0 files)
    × (s.files_size ≡ pos (sum_by (size_at files) s.valid_idx))
    × (s.reported_idx ≡ changes false 0 0 files)
    × (length s.reported_idx ≤ 1000)
scan_files_lem_example = scan_files_lem false files

abbrev scanned_files : Workload
scanned_files = record init {
  checked_files = (scan_files false files).1;
  reported_files_idx = (scan_files false files).0.reported_idx;
}

Evolves-append :
    (fs : List FileEntry) (e : FileEntry)
    → e.status.origin ≡ unconfirmed
    → Evolves fs (fs ++ (e ∷ []))
Evolves-append [] e h = (ground arith, tt)
Evolves-append (x ∷ fs) e h = (refl, refl, Evolves-append fs e h)

-- What the other threads do here: they append a file.
abbrev others : Workload → Workload
others w = record w { checked_files = w.checked_files ++ (file 50 valid unconfirmed ∷ []) }

handle_report_result-commits_example :
    origin_valid 0 (handle_report_result (others scanned_files)).checked_files
    ≡ (scan_files false files).0.valid_idx
handle_report_result-commits_example =
    handle_report_result-commits files (others scanned_files)
      (Evolves-append (scan_files false files).1 (file 50 valid unconfirmed) refl) refl

abbrev memory : Memory
memory = record { hashs = true; files_root = true; sigbuf = true; block_hash = true }

-- 64 hexadecimal characters.
abbrev block_hash : Text
block_hash = replicate 64 b'a'

gen_work_report_cases_example :
    let o = gen_work_report crypto memory block_hash 900 false wl in
    ((is_expired 900 wl ≡ true)
      × (o.status ≡ crust_block_height_expired)
      × (o.wl ≡ wl)
      × (o.report ≡ none))
    ⊎ ((is_expired 900 wl ≡ false)
        × Settled 900 wl o.wl
        × ((o.report ≡ none)
            ⊎ ((o.status ≡ crust_success)
                × (report_has_validated_proof wl ≡ true)
                × (wl.restart_flag ≡ false)
                × (wl.report_files ≡ true))))
gen_work_report_cases_example = gen_work_report_cases crypto memory block_hash 900 false wl

wl-open : is_expired 900 wl ≡ false
unfolding is_expired
wl-open = refl

gen_work_report_once_example :
    let w = (gen_work_report crypto memory block_hash 900 false wl).wl in
    let o = gen_work_report crypto memory block_hash 1199 false w in
    (o.status ≡ crust_block_height_expired) × (o.wl ≡ w) × (o.report ≡ none)
gen_work_report_once_example =
    gen_work_report_once crypto crypto memory memory block_hash block_hash 900 1199 false false wl
      wl-open (omega arith) (omega arith) (omega arith)

wl-ready : report_condition wl ≡ crust_success
unfolding report_condition
wl-ready = refl

length-sign_buffer_example :
    let f = report_fields crypto 900 (replicate 32 9) (scanned false wl) wl in
    length (sign_buffer f) ≡ sign_buffer_len f
length-sign_buffer_example =
    length-sign_buffer crypto 900 (replicate 32 9) (scanned false wl) wl refl refl refl

-- The chain accepts any report.
abbrev upload : Text → CrustStatus
upload text = crust_success

uploaded :
    (gen_and_upload_work_report crypto memory others upload block_hash 900 false [] wl).status
    ≡ crust_success
unfolding gen_and_upload_work_report gen_work_report is_expired report_condition make_report scanned
    set_insert set_erase sign_report hex_string_to_bytes
uploaded = refl

gen_and_upload_work_report-commits_example :
    origin_valid 0
      (gen_and_upload_work_report crypto memory others upload block_hash 900 false []
        wl).wl.checked_files
    ≡ (scanned false wl).valid_idx
gen_and_upload_work_report-commits_example =
    gen_and_upload_work_report-commits crypto memory others upload block_hash 900 [] wl (λ w. refl)
      (λ w. Evolves-append w.checked_files (file 50 valid unconfirmed) refl) uploaded
