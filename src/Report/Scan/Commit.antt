-- ===== src/Report/Scan/Commit.antt =====
-- An accepted report, and the enclave's record of what the chain holds
-- (`handle_report_result` in src/enclave/workload/Workload.cpp after src/enclave/report/Report.cpp).
use crust_sworker.Prelude.{
  map, ℕ, ◌+◌, ◌≡◌, refl, sym, ap, ◌∙◌, false, List, [], ◌∷◌, ◌++◌, append_assoc, arith,
  if◌then◌else◌, All, Bool-cases, inl, inr, length, length-append,
}
use crust_sworker.Workload.{
  FileEntry, valid, same_status, Workload, modify, sync_origin, sync_indexes, handle_report_result,
}
use crust_sworker.Report.Scan.{Scanned, set_waiting, scan_file, scan_from, scan_files, scan_start}
use crust_sworker.Report.Scan.Choice.{reports, counts, next_acc, chosen, changes, scan_files_lem}

-- The indexes, from `i` on, of the files that the chain holds: those with a valid origin status.
unfoldable pub origin_valid : ℕ → List FileEntry → List ℕ
origin_valid i [] = []
origin_valid i (e ∷ es) =
    let rest = origin_valid (i + 1) es in
    if same_status e.status.origin valid then i ∷ rest else rest

-- What the other threads may make of the files meanwhile: a file keeps its waiting and origin status,
-- and a new file has an origin status that is not valid.
abbrev pub Evolves : List FileEntry → List FileEntry → Type 0
Evolves [] ys = All (λ y. same_status y.status.origin valid ≡ false) ys
Evolves (x ∷ xs) [] = ⊥
Evolves (x ∷ xs) (y ∷ ys) =
    (y.status.waiting ≡ x.status.waiting) × (y.status.origin ≡ x.status.origin) × Evolves xs ys

-- The files after the scan: each has its current status as waiting status.
scan_from-files :
    (i : ℕ) (es : List FileEntry) (s : Scanned) → (scan_from false i es s).1 ≡ map set_waiting es
unfolding scan_from scan_file
scan_from-files i [] s = refl
scan_from-files i (e ∷ es) s = ap (λ l. set_waiting e ∷ l) (scan_from-files (i + 1) es _)

modify-append :
    (pre : List FileEntry) (f : FileEntry → FileEntry) (y : FileEntry) (ys : List FileEntry)
    → modify (length pre) f (pre ++ (y ∷ ys)) ≡ pre ++ (f y ∷ ys)
unfolding modify
modify-append [] f y ys = refl
modify-append (x ∷ pre) f y ys = ap (λ l. x ∷ l) (modify-append pre f y ys)

origin_valid-none :
    (i : ℕ) (ys : List FileEntry)
    → All (λ y. same_status y.status.origin valid ≡ false) ys
    → origin_valid i ys ≡ []
unfolding origin_valid
origin_valid-none i [] h = refl
origin_valid-none i (y ∷ ys) h = ground (arith, origin_valid-none (i + 1) ys h.1)

-- Of a file: its status after the report is what the report counted.
origin-counts :
    (acc : ℕ) (e y : FileEntry)
    → y.status.waiting ≡ e.status.current
    → y.status.origin ≡ e.status.origin
    → same_status ((if reports acc e then sync_origin y else y).status.origin) valid
      ≡ counts false acc e
unfolding counts sync_origin
origin-counts acc e y w o = ground arith

-- The files after `handle_report_result`, for the files `es` of the scan and the files `ys` of now.
unfoldable pub committed : ℕ → List FileEntry → List FileEntry → List FileEntry
unfolding reports next_acc
committed acc [] ys = ys
committed acc (e ∷ es) [] = []
committed acc (e ∷ es) (y ∷ ys) =
    (if reports acc e then sync_origin y else y) ∷ committed (next_acc false acc e) es ys

sync_changes :
    (acc i : ℕ) (pre es ys : List FileEntry)
    → i ≡ length pre
    → Evolves (map set_waiting es) ys
    → sync_indexes (changes false acc i es) (pre ++ ys) ≡ pre ++ committed acc es ys
unfolding sync_indexes changes committed
sync_changes acc i pre [] ys h ev = refl
sync_changes acc i pre (e ∷ es) [] h ev = absurd ev
sync_changes acc i pre (e ∷ es) (y ∷ ys) h ev =
    let ih = λ (a : ℕ) (z : FileEntry).
      sync_changes a (i + 1) (pre ++ (z ∷ [])) es ys (omega (arith, length-append pre (z ∷ [])))
        ev.2 in
    elim (Bool-cases (reports acc e)) [
      | inl p ↦ rw p (
          ap (sync_indexes (changes false (acc + 1) (i + 1) es)) (
            ap (λ k. modify k sync_origin (pre ++ (y ∷ ys))) h ∙ modify-append pre sync_origin y ys)
          ∙ move (sync_origin y) (changes false (acc + 1) (i + 1) es) _
              (ih (acc + 1) (sync_origin y)))
      | inr p ↦ rw p (move y (changes false acc (i + 1) es) _ (ih acc y))
    ]
  where
    move :
        (z : FileEntry) (ks : List ℕ) (zs : List FileEntry)
        → sync_indexes ks ((pre ++ (z ∷ [])) ++ ys) ≡ (pre ++ (z ∷ [])) ++ zs
        → sync_indexes ks (pre ++ (z ∷ ys)) ≡ pre ++ (z ∷ zs)
    move z ks zs k =
        ap (sync_indexes ks) (sym (append_assoc pre (z ∷ []) ys)) ∙ k ∙ append_assoc pre (z ∷ []) _

origin_valid-committed :
    (acc i : ℕ) (es ys : List FileEntry)
    → Evolves (map set_waiting es) ys
    → origin_valid i (committed acc es ys) ≡ chosen false acc i es
unfolding origin_valid committed chosen set_waiting
origin_valid-committed acc i [] ys ev = origin_valid-none i ys ev
origin_valid-committed acc i (e ∷ es) [] ev = absurd ev
origin_valid-committed acc i (e ∷ es) (y ∷ ys) (w, o, ev) =
    rw (origin_valid-committed (next_acc false acc e) (i + 1) es ys ev) (
      ap
        (λ b.
          if b
          then i ∷ chosen false (next_acc false acc e) (i + 1) es
          else chosen false (next_acc false acc e) (i + 1) es)
        (origin-counts acc e y w o))

scan_files-files : (es : List FileEntry) → (scan_files false es).1 ≡ map set_waiting es
unfolding scan_files
scan_files-files es = scan_from-files 0 es scan_start

-- When a report that is no upgrade is accepted, the files with a valid origin status, which the next
-- report starts from, are exactly those under the root of the accepted report; this holds whatever
-- the other threads did to the current status of the files between the scan and the upload, and
-- however many new files with an origin status that is not valid they appended.
pub handle_report_result-commits :
    (fs : List FileEntry) (wl : Workload)
    → Evolves (scan_files false fs).1 wl.checked_files
    → wl.reported_files_idx ≡ (scan_files false fs).0.reported_idx
    → origin_valid 0 (handle_report_result wl).checked_files ≡ (scan_files false fs).0.valid_idx
unfolding handle_report_result
handle_report_result-commits fs wl ev idx =
    let ev' = rw (scan_files-files fs) at ev in
    let l = scan_files_lem false fs in
    rw (idx ∙ l.2, l.0, sync_changes 0 0 [] fs wl.checked_files refl ev')
      (origin_valid-committed 0 0 fs wl.checked_files ev')
