-- ===== src/Report/Scan/Choice.antt =====
-- Which files a work report lists, and the size that it claims, as a plain recursion over the files
-- (src/enclave/report/Report.cpp).
use crust_sworker.Prelude.{
  ℕ, not, ◌+◌, ◌<◌, ◌≤◌, ◌≡◌, refl, sym, ap, ◌∙◌, Bool, true, false, ◌&&◌, List, [], ◌∷◌, ◌++◌,
  append_assoc, append-nil, arith, ltb, if◌then◌else◌, All, length, length-append, sum_by, zero,
  suc,
}
use crust_sworker.Prelude.Int.{ℤ, pos, ◌+ℤ◌, ◌-ℤ◌, int_laws}
use crust_sworker.Prelude.Sets.{
  set_insert-above, set_erase-last, set_erase-above, All-below-suc, All-below-append,
}
use crust_sworker.Status.{workreport_file_limit}
use crust_sworker.Workload.{FileEntry, valid, same_status}
use crust_sworker.Report.Scan.{
  Scanned, is_pair, is_changed, count_valid, report_change, set_waiting, scan_change, scan_file,
  scan_from, scan_files, scan_start,
}

-- A change is reported while fewer than WORKREPORT_FILE_LIMIT are.
unfoldable pub reports : ℕ → FileEntry → Bool
reports acc e = ltb acc workreport_file_limit && is_changed e

-- Whether the file is under the reported root: a reported file by its current status, any other by its
-- origin status.
unfoldable pub counts : Bool → ℕ → FileEntry → Bool
unfolding reports
counts true acc e = is_pair valid valid e
counts false acc e =
    if reports acc e then same_status e.status.current valid else same_status e.status.origin valid

unfoldable pub next_acc : Bool → ℕ → FileEntry → ℕ
unfolding reports
next_acc true acc e = acc
next_acc false acc e = if reports acc e then acc + 1 else acc

-- The indexes, from `i` on, of the files under the root.
unfoldable pub chosen : Bool → ℕ → ℕ → List FileEntry → List ℕ
unfolding counts next_acc
chosen u acc i [] = []
chosen u acc i (e ∷ es) =
    let rest = chosen u (next_acc u acc e) (i + 1) es in if counts u acc e then i ∷ rest else rest

-- The sum of their sizes.
unfoldable pub chosen_size : Bool → ℕ → List FileEntry → ℕ
unfolding counts next_acc
chosen_size u acc [] = 0
chosen_size u acc (e ∷ es) =
    let rest = chosen_size u (next_acc u acc e) es in
    if counts u acc e then e.old_size + rest else rest

-- The indexes of the reported changes.
unfoldable pub changes : Bool → ℕ → ℕ → List FileEntry → List ℕ
unfolding reports next_acc
changes u acc i [] = []
changes u acc i (e ∷ es) =
    let rest = changes u (next_acc u acc e) (i + 1) es in
    if not u && reports acc e then i ∷ rest else rest

-- What one round does to what is kept.
record Round (u : Bool) (i : ℕ) (e : FileEntry) (s t : Scanned) : Type 0 where
  idx : t.valid_idx ≡ (if counts u s.reported_acc e then s.valid_idx ++ (i ∷ []) else s.valid_idx)
  size :
      t.files_size
      ≡ (if counts u s.reported_acc e then s.files_size +ℤ pos e.old_size else s.files_size)
  rep :
      t.reported_idx
      ≡ (if not u && reports s.reported_acc e then s.reported_idx ++ (i ∷ []) else s.reported_idx)
  acc : t.reported_acc ≡ next_acc u s.reported_acc e

-- The indexes kept so far are below the next one.
abbrev Below : ℕ → Scanned → Type 0
Below i s = All (λ x. x < i) s.valid_idx × All (λ x. x < i) s.reported_idx

sub_add : (a b : ℤ) → a +ℤ b -ℤ b ≡ a
sub_add a b = omega int_laws

scan_file-Round :
    (u : Bool) (i : ℕ) (e : FileEntry) (s : Scanned)
    → Below i s
    → Round u i e s (scan_file u i e s).0
unfolding scan_file scan_change report_change count_valid counts next_acc reports is_changed is_pair
    set_waiting
scan_file-Round true i e s (hv, hr) = ground (arith, set_insert-above i s.valid_idx hv)
scan_file-Round false i e s (hv, hr) = ground (
  arith,
  set_insert-above i s.valid_idx hv,
  set_insert-above i s.reported_idx hr,
  set_erase-last i s.valid_idx hv,
  set_erase-above i s.valid_idx hv,
  sub_add s.files_size (pos e.old_size),
)

if_append-below :
    (b : Bool) (i : ℕ) (xs ys : List ℕ)
    → ys ≡ (if b then xs ++ (i ∷ []) else xs)
    → All (λ x. x < i) xs
    → All (λ x. x < i + 1) ys
if_append-below true i xs ys e h = rw e (All-below-append i xs h)
if_append-below false i xs ys e h = rw e (All-below-suc i xs h)

Round-Below :
    (u : Bool) (i : ℕ) (e : FileEntry) (s t : Scanned)
    → Round u i e s t
    → Below i s
    → Below (i + 1) t
Round-Below u i e s t r (hv, hr) =
    (if_append-below _ i _ _ r.idx hv, if_append-below _ i _ _ r.rep hr)

-- What the loop from index `i` on adds.
record Loop (u : Bool) (i : ℕ) (es : List FileEntry) (s t : Scanned) : Type 0 where
  idx : t.valid_idx ≡ s.valid_idx ++ chosen u s.reported_acc i es
  size : t.files_size ≡ s.files_size +ℤ pos (chosen_size u s.reported_acc es)
  rep : t.reported_idx ≡ s.reported_idx ++ changes u s.reported_acc i es

+ℤ_zero : (a : ℤ) → a ≡ a +ℤ pos 0
+ℤ_zero a = omega int_laws

append_if :
    (b : Bool) (i : ℕ) (xs rest : List ℕ)
    → (if b then xs ++ (i ∷ []) else xs) ++ rest ≡ xs ++ (if b then i ∷ rest else rest)
append_if true i xs rest = append_assoc xs (i ∷ []) rest
append_if false i xs rest = refl

add_if :
    (b : Bool) (a : ℤ) (n m : ℕ)
    → (if b then a +ℤ pos n else a) +ℤ pos m ≡ a +ℤ pos (if b then n + m else m)
add_if true a n m = omega int_laws
add_if false a n m = refl

scan_from-Loop :
    (u : Bool) (i : ℕ) (es : List FileEntry) (s : Scanned)
    → Below i s
    → Loop u i es s (scan_from u i es s).0
unfolding scan_from chosen chosen_size changes
scan_from-Loop u i [] s h = record {
  idx = sym (append-nil s.valid_idx);
  size = +ℤ_zero s.files_size;
  rep = sym (append-nil s.reported_idx);
}
scan_from-Loop u i (e ∷ es) s h = step (scan_file u i e s).0 (scan_file-Round u i e s h) (
    scan_from-Loop u (i + 1) es (scan_file u i e s).0
      (Round-Below u i e s _ (scan_file-Round u i e s h) h))
  where
    step :
        (t : Scanned) {r : Scanned}
        → Round u i e s t
        → Loop u (i + 1) es t r
        → Loop u i (e ∷ es) s r
    step t one rest = record {
      idx = rest.idx ∙ rw (one.idx, one.acc) (append_if _ i s.valid_idx _);
      size = rest.size ∙ rw (one.size, one.acc) (add_if _ s.files_size e.old_size _);
      rep = rest.rep ∙ rw (one.rep, one.acc) (append_if _ i s.reported_idx _);
    }

-- The size of the file at an index, 0 out of range.
abbrev pub size_at : List FileEntry → ℕ → ℕ
size_at [] i = 0
size_at (e ∷ es) zero = e.old_size
size_at (e ∷ es) (suc i) = size_at es i

size_at-length :
    (pre : List FileEntry) (e : FileEntry) (es : List FileEntry)
    → size_at (pre ++ (e ∷ es)) (length pre) ≡ e.old_size
size_at-length [] e es = refl
size_at-length (x ∷ pre) e es = size_at-length pre e es

chosen_size-sum_by :
    (u : Bool) (acc : ℕ) (pre es : List FileEntry) (i : ℕ)
    → i ≡ length pre
    → chosen_size u acc es ≡ sum_by (size_at (pre ++ es)) (chosen u acc i es)
unfolding chosen chosen_size
chosen_size-sum_by u acc pre [] i h = refl
chosen_size-sum_by u acc pre (e ∷ es) i h = ground (
  arith,
  chosen_size-sum_by u (next_acc u acc e) (pre ++ (e ∷ [])) es (i + 1)
      (omega (arith, length-append pre (e ∷ []))),
  append_assoc pre (e ∷ []) es,
  size_at-length pre e es,
)

changes_bound :
    (u : Bool) (acc i : ℕ) (es : List FileEntry)
    → acc ≤ workreport_file_limit
    → acc + length (changes u acc i es) ≤ workreport_file_limit
unfolding changes next_acc reports
changes_bound u acc i [] h = omega arith
changes_bound true acc i (e ∷ es) h = ground (arith, changes_bound true acc (i + 1) es h)
changes_bound false acc i (e ∷ es) h =
    ground (arith, changes_bound false acc (i + 1) es, changes_bound false (acc + 1) (i + 1) es)

scan_files-Loop : (u : Bool) (fs : List FileEntry) → Loop u 0 fs scan_start (scan_files u fs).0
unfolding scan_files
scan_files-Loop u fs =
    let l = scan_from-Loop u 0 fs scan_start (tt, tt) in
    record { idx = l.idx; size = l.size; rep = l.rep }

pos_zero_add : (n : ℕ) → pos 0 +ℤ pos n ≡ pos n
unfolding ◌+ℤ◌
pos_zero_add n = ground arith

-- For any files, in both modes: the files under the reported root are those of `chosen` (a change that
-- is reported counts by the current status, any other file by the origin status; in an upgrade only
-- a file that is valid in both), the size that the report claims is the sum of exactly their sizes,
-- and at most WORKREPORT_FILE_LIMIT changes are listed.
pub scan_files_lem :
    (u : Bool) (fs : List FileEntry)
    → let s = (scan_files u fs).0 in
      (s.valid_idx ≡ chosen u 0 0 fs)
      × (s.files_size ≡ pos (sum_by (size_at fs) s.valid_idx))
      × (s.reported_idx ≡ changes u 0 0 fs)
      × (length s.reported_idx ≤ workreport_file_limit)
scan_files_lem u fs =
    let l = scan_files-Loop u fs in
    (
      l.idx,
      l.size
          ∙ pos_zero_add _
          ∙ ap pos (chosen_size-sum_by u 0 [] fs 0 refl ∙ ap (sum_by (size_at fs)) (sym l.idx)),
      l.rep,
      rw l.rep (omega (arith, changes_bound u 0 0 fs (omega arith))),
    )
