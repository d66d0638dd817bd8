-- ===== src/Report/Upload.antt =====
-- A report that the chain accepts (`gen_and_upload_work_report` in src/enclave/report/Report.cpp).
use crust_sworker.Prelude.{ℕ, ◌≡◌, ap, ◌∙◌, Bool, false, arith}
use crust_sworker.Prelude.Text.{Text}
use crust_sworker.Status.{CrustStatus, crust_success}
use crust_sworker.Crypto.{Crypto}
use crust_sworker.Workload.{Workload, handle_report_result, report_reduce_validated_proof}
use crust_sworker.Report.{
  Memory, cleanup, scanned, scanned_wl, make_report, gen_work_report, current_report,
  gen_and_upload_work_report,
}
use crust_sworker.Report.Scan.{drop_deleted, scan_files}
use crust_sworker.Report.Scan.Commit.{origin_valid, Evolves, handle_report_result-commits}

-- A call that ends with success has scanned the files.
gen_work_report-scanned :
    (c : Crypto) (mem : Memory) (hash : Text) (height : ℕ) (u : Bool) (wl : Workload)
    → (gen_work_report c mem hash height u wl).status ≡ crust_success
    → (gen_work_report c mem hash height u wl).wl ≡ cleanup height (scanned_wl u wl)
unfolding gen_work_report make_report
gen_work_report-scanned c mem hash height u wl h = ground arith

gen_work_report-files :
    (c : Crypto) (mem : Memory) (hash : Text) (height : ℕ) (wl : Workload)
    → (gen_work_report c mem hash height false wl).status ≡ crust_success
    → let w = (gen_work_report c mem hash height false wl).wl in
      let r = scan_files false (drop_deleted wl.checked_files) in
      (w.checked_files ≡ r.1) × (w.reported_files_idx ≡ r.0.reported_idx)
unfolding cleanup report_reduce_validated_proof scanned_wl
gen_work_report-files c mem hash height wl h =
    rw (gen_work_report-scanned c mem hash height false wl h) (ground arith)

-- A whole call that ends with success: both the report and the upload did.
gen_and_upload_work_report-success :
    (c : Crypto) (mem : Memory) (others : Workload → Workload) (upload : Text → CrustStatus)
    (hash : Text) (height : ℕ) (u : Bool) (old : Text) (wl : Workload)
    → let o = gen_work_report c mem hash height u wl in
      let final = gen_and_upload_work_report c mem others upload hash height u old wl in
      final.status ≡ crust_success
      → (o.status ≡ crust_success)
        × (upload (current_report o.report old) ≡ crust_success)
        × (final.wl ≡ handle_report_result (others o.wl))
unfolding gen_and_upload_work_report
gen_and_upload_work_report-success c mem others upload hash height u old wl h = ground arith

-- When a call of `gen_and_upload_work_report` that is no upgrade ends with success, the files with
-- a valid origin status afterwards are exactly those under the files root of the report it made;
-- provided the other threads, while it waited and uploaded, kept the indexes to commit and kept the
-- waiting and origin status of each file, and appended only files with an origin that is not valid.
pub gen_and_upload_work_report-commits :
    (c : Crypto) (mem : Memory) (others : Workload → Workload) (upload : Text → CrustStatus)
    (hash : Text) (height : ℕ) (old : Text) (wl : Workload)
    → ((w : Workload) → (others w).reported_files_idx ≡ w.reported_files_idx)
    → ((w : Workload) → Evolves w.checked_files (others w).checked_files)
    → let final = gen_and_upload_work_report c mem others upload hash height false old wl in
      final.status ≡ crust_success
      → origin_valid 0 final.wl.checked_files ≡ (scanned false wl).valid_idx
unfolding scanned
gen_and_upload_work_report-commits c mem others upload hash height old wl idx files ok =
    let w = (gen_work_report c mem hash height false wl).wl in
    let s = gen_and_upload_work_report-success c mem others upload hash height false old wl ok in
    let f = gen_work_report-files c mem hash height wl s.0 in
    let ev = files w in
    ap (λ v. origin_valid 0 v.checked_files) s.2
    ∙ handle_report_result-commits (drop_deleted wl.checked_files) (others w) (rw f.0 at ev)
        (idx w ∙ f.1)
