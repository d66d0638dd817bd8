-- ===== src/Report/Scan.antt =====
-- src/enclave/report/Report.cpp, lines 171 to 261: the loop that chooses the files of a work report.
pub mod Choice
pub mod Commit
use crust_sworker.Prelude.{
  ℕ, ◌+◌, Bool, true, false, ◌&&◌, ◌||◌, not, List, [], ◌∷◌, ◌++◌, ltb, ◌==◌, if◌then◌else◌, length,
}
use crust_sworker.Prelude.Int.{ℤ, pos, ◌+ℤ◌, ◌-ℤ◌}
use crust_sworker.Prelude.Text.{Text, codes}
use crust_sworker.Prelude.Decimal.{to_string}
use crust_sworker.Prelude.Sets.{set_insert, set_erase}
use crust_sworker.Status.{workreport_file_limit}
use crust_sworker.Hex.{hexstring_safe}
use crust_sworker.Workload.{FileEntry, FileStatus, unconfirmed, valid, lost, deleted, same_status}

-- A status pair, current and origin.
unfoldable pub is_pair : FileStatus → FileStatus → FileEntry → Bool
is_pair current origin e =
    same_status e.status.current current && same_status e.status.origin origin

-- The items that are erased before the loop.
unfoldable pub is_dropped : FileEntry → Bool
unfolding is_pair
is_dropped e = is_pair deleted lost e || is_pair deleted deleted e || is_pair deleted unconfirmed e

unfoldable pub drop_deleted : List FileEntry → List FileEntry
unfolding is_dropped
drop_deleted [] = []
drop_deleted (e ∷ es) = if is_dropped e then drop_deleted es else e ∷ drop_deleted es

-- The items whose change is reported.
unfoldable pub is_changed : FileEntry → Bool
unfolding is_pair
is_changed e =
    is_pair valid unconfirmed e
    || is_pair valid lost e
    || is_pair lost valid e
    || is_pair deleted valid e

-- `file_str`
unfoldable pub file_str : FileEntry → Text
file_str e =
    codes "{\"hash\":\""
    ++ (hexstring_safe true e.old_hash
        ++ (codes "\",\"size\":" ++ (to_string e.old_size ++ codes "}")))

-- What the loop keeps: `report_valid_idx_s`, `files_size`, the two texts so far, `reported_files_idx`
-- and `reported_files_acc`.
pub record Scanned : Type 0 where
  pub valid_idx : List ℕ
  pub files_size : ℤ
  pub added_files : Text
  pub deleted_files : Text
  pub reported_idx : List ℕ
  pub reported_acc : ℕ

abbrev pub scan_start : Scanned
scan_start = record {
  valid_idx = [];
  files_size = pos 0;
  added_files = codes "[";
  deleted_files = codes "[";
  reported_idx = [];
  reported_acc = 0;
}

-- `if (files.size() != 1) files.append(","); files.append(file_str);`
unfoldable pub append_item : Text → Text → Text
append_item files item = if length files == 1 then files ++ item else (files ++ codes ",") ++ item

unfoldable pub count_valid : ℕ → FileEntry → Scanned → Scanned
count_valid i e s = record s {
  valid_idx = set_insert i s.valid_idx;
  files_size = s.files_size +ℤ pos e.old_size;
}

-- The body of `if (reported_files_acc < WORKREPORT_FILE_LIMIT)` for a changed item.
unfoldable pub report_change : ℕ → FileEntry → Scanned → Scanned
unfolding append_item file_str
report_change i e s = record s' {
  reported_idx = set_insert i s'.reported_idx;
  reported_acc = s'.reported_acc + 1;
}
  where
    s' : Scanned
    s' =
        if same_status e.status.current lost || same_status e.status.current deleted
        then record s {
          deleted_files = append_item s.deleted_files (file_str e);
          valid_idx = set_erase i s.valid_idx;
          files_size = s.files_size -ℤ pos e.old_size;
        }
        else (if same_status e.status.current valid
            then record s {
              added_files = append_item s.added_files (file_str e);
              valid_idx = set_insert i s.valid_idx;
              files_size = s.files_size +ℤ pos e.old_size;
            }
            else s)

-- WAITING_STATUS takes the value of CURRENT_STATUS.
unfoldable pub set_waiting : FileEntry → FileEntry
set_waiting e = record e { status = record (e.status) { waiting = e.status.current } }

-- One round of the loop that is no upgrade, after the waiting status is written.
unfoldable pub scan_change : ℕ → FileEntry → Scanned → Scanned
unfolding count_valid is_changed report_change
scan_change i e s =
    let s' = if same_status e.status.origin valid then count_valid i e s else s in
    if ltb s'.reported_acc workreport_file_limit && is_changed e then report_change i e s' else s'

-- One round of the loop at index `i`: what is kept, and the item after it.
unfoldable pub scan_file : Bool → ℕ → FileEntry → Scanned → Scanned × FileEntry
unfolding is_pair count_valid set_waiting scan_change
scan_file true i e s = (if is_pair valid valid e then count_valid i e s else s, e)
scan_file false i e s = (scan_change i (set_waiting e) s, set_waiting e)

-- The loop from index `i` on.
unfoldable pub scan_from : Bool → ℕ → List FileEntry → Scanned → Scanned × List FileEntry
unfolding scan_file
scan_from upgrading i [] s = (s, [])
scan_from upgrading i (e ∷ es) s =
    let (s', e') = scan_file upgrading i e s in
    let (s'', es') = scan_from upgrading (i + 1) es s' in (s'', e' ∷ es')

-- The whole loop, with the closing brackets of the two texts.
unfoldable pub scan_files : Bool → List FileEntry → Scanned × List FileEntry
unfolding scan_from
scan_files upgrading fs =
    let (s, fs') = scan_from upgrading 0 fs scan_start in
    (
      record s {
        added_files = s.added_files ++ codes "]";
        deleted_files = s.deleted_files ++ codes "]";
      },
      fs',
    )
