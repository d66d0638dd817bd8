-- ===== src/Report/Guards.antt =====
-- When a work report is made, and what a call leaves behind (src/enclave/report/Report.cpp).
use crust_sworker.Prelude.{
  length, sym, ◌∙◌, false≢true, ◌&&◌, ℕ, ◌+◌, ◌<◌, ◌≤◌, ◌^◌, ◌≡◌, ◌↔◌, ◌⊎◌, inl, inr, refl, Bool,
  true, false, not, ◌==◌, none, arith, Bool-cases,
}
use crust_sworker.Prelude.Text.{Text}
use crust_sworker.Status.{crust_success, crust_block_height_expired}
use crust_sworker.Report.Scan.{Scanned}
use crust_sworker.Crypto.{Crypto}
use crust_sworker.Workload.{Workload, report_has_validated_proof, report_reduce_validated_proof}
use crust_sworker.Report.{
  scanned, scanned_wl, Memory, is_expired, report_condition, cleanup, make_report, sign_report,
  gen_work_report,
}

-- For a reported height below 2 ^ 63, a height below 2 ^ 63 is expired exactly if it is 0, or lies in the 300 blocks from the reported
-- height on. Since the subtraction on `size_t` wraps, a height below the reported one is not.
pub is_expired_iff :
    (height : ℕ) (wl : Workload)
    → height < 2 ^ 63
    → wl.report_height < 2 ^ 63
    → (is_expired height wl ≡ true)
      ↔ ((height ≡ 0) ⊎ ((wl.report_height ≤ height) × (height < wl.report_height + 300)))
unfolding is_expired
is_expired_iff height wl h r = ground arith

-- What every exit but the expired one has set.
pub record Settled (height : ℕ) (wl after : Workload) : Type 0 where
  pub at_height : after.report_height ≡ height
  pub restarted : after.restart_flag ≡ false
  pub files_on : after.report_files ≡ true
  pub reduced : after.validated_proof ≡ (report_reduce_validated_proof wl).validated_proof

cleanup-Settled :
    (height : ℕ) (wl w : Workload)
    → w.validated_proof ≡ wl.validated_proof
    → Settled height wl (cleanup height w)
unfolding cleanup report_reduce_validated_proof
cleanup-Settled height wl w h = ground arith

scanned_wl_proof :
    (u : Bool) (wl : Workload) → (scanned_wl u wl).validated_proof ≡ wl.validated_proof
unfolding scanned_wl
scanned_wl_proof u wl = refl

make_report-Settled :
    (c : Crypto) (mem : Memory) (hash : Text) (height : ℕ) (u : Bool) (wl : Workload)
    → Settled height wl (make_report c mem hash height u wl).wl
unfolding make_report
make_report-Settled c mem hash height u wl = elim (Bool-cases mem.hashs) [
  | inr p ↦ rw p (cleanup-Settled height wl wl refl)
  | inl p ↦ elim (Bool-cases (not (length (scanned u wl).valid_idx == 0) && not mem.files_root)) [
    | inl q ↦ rw (p, q) (cleanup-Settled height wl (scanned_wl u wl) (scanned_wl_proof u wl))
    | inr q ↦ rw (p, q) (cleanup-Settled height wl (scanned_wl u wl) (scanned_wl_proof u wl))
  ]
]

-- A report comes only with success.
sign_report-success :
    (c : Crypto) (mem : Memory) (hash : Text) (height : ℕ) (s : Scanned) (wl : Workload)
    → ((sign_report c mem hash height s wl).1 ≡ none)
      ⊎ ((sign_report c mem hash height s wl).0 ≡ crust_success)
unfolding sign_report
sign_report-success c mem hash height s wl = ground arith

make_report-success :
    (c : Crypto) (mem : Memory) (hash : Text) (height : ℕ) (u : Bool) (wl : Workload)
    → ((make_report c mem hash height u wl).report ≡ none)
      ⊎ ((make_report c mem hash height u wl).status ≡ crust_success)
unfolding make_report
make_report-success c mem hash height u wl = elim (Bool-cases mem.hashs) [
  | inr p ↦ inl (rw p)
  | inl p ↦ elim (Bool-cases (not (length (scanned u wl).valid_idx == 0) && not mem.files_root)) [
    | inl q ↦ inl (rw (p, q))
    | inr q ↦ simp (p, q) (sign_report-success c mem hash height (scanned u wl) (scanned_wl u wl))
  ]
]

report_condition-success :
    (wl : Workload)
    → (report_condition wl == crust_success) ≡ true
    → (report_has_validated_proof wl ≡ true) × (wl.restart_flag ≡ false) × (wl.report_files ≡ true)
unfolding report_condition
report_condition-success wl h = ground arith

-- An expired height changes nothing. At any other height the call, whether it makes a report or
-- not, takes the height as the reported one, clears the restart flag, sets the file flag and reduces
-- the validated proofs; and it makes a report only if there was a validated proof, no restart was
-- pending and the files were to be reported.
pub gen_work_report_cases :
    (c : Crypto) (mem : Memory) (hash : Text) (height : ℕ) (u : Bool) (wl : Workload)
    → let o = gen_work_report c mem hash height u wl in
      ((is_expired height wl ≡ true)
        × (o.status ≡ crust_block_height_expired)
        × (o.wl ≡ wl)
        × (o.report ≡ none))
      ⊎ ((is_expired height wl ≡ false)
          × Settled height wl o.wl
          × ((o.report ≡ none)
              ⊎ ((o.status ≡ crust_success)
                  × (report_has_validated_proof wl ≡ true)
                  × (wl.restart_flag ≡ false)
                  × (wl.report_files ≡ true))))
unfolding gen_work_report
gen_work_report_cases c mem hash height u wl = elim (Bool-cases (is_expired height wl)) [
  | inl p ↦ inl (rw p (refl, refl, refl, refl))
  | inr p ↦ elim (Bool-cases (report_condition wl == crust_success)) [
    | inr q ↦ inr (rw (p, q) (refl, cleanup-Settled height wl wl refl, inl refl))
    | inl q ↦ inr (
        rw (p, q)
          (
            refl,
            make_report-Settled c mem hash height u wl,
            elim (make_report-success c mem hash height u wl) [
              | inl none_made ↦ inl none_made
              | inr made ↦ let ok = report_condition-success wl q in inr (made, ok.0, ok.1, ok.2)
            ],
          ))
  ]
]

-- One report in an era: after a call at a height that was not expired, whatever came of it, no call
-- at a height below 2 ^ 63 from that one to 299 blocks later makes a report or changes anything.
pub gen_work_report_once :
    (c c' : Crypto) (mem mem' : Memory) (hash hash' : Text) (height later : ℕ) (u u' : Bool)
    (wl : Workload)
    → is_expired height wl ≡ false
    → height ≤ later
    → later < height + 300
    → later < 2 ^ 63
    → let w = (gen_work_report c mem hash height u wl).wl in
      let o = gen_work_report c' mem' hash' later u' w in
      (o.status ≡ crust_block_height_expired) × (o.wl ≡ w) × (o.report ≡ none)
gen_work_report_once c c' mem mem' hash hash' height later u u' wl open_era from to small =
    elim (gen_work_report_cases c mem hash height u wl) [
      | inl (p, _, _, _) ↦ absurd (false≢true (sym open_era ∙ p))
      | inr (_, settled, _) ↦
          let at = settled.at_height in
          let closed : is_expired later w ≡ true =
            (is_expired_iff later w small (omega arith)).1 (inr (omega arith)) in
          (elim (gen_work_report_cases c' mem' hash' later u' w) [
            | inl (_, status, same, none_made) ↦ (status, same, none_made)
            | inr (q, _, _) ↦ absurd (false≢true (sym q ∙ closed))
          ])
    ]
  where
    w : Workload
    w = (gen_work_report c mem hash height u wl).wl
