-- ===== src/Workload/Counts.antt =====
-- What the workload statistics mean: the files of each status, counted and summed
-- (`wl_spec_info` in src/enclave/workload/Workload.cpp).
pub mod Tally
use crust_sworker.Prelude.{
  ℕ, ◌+◌, ◌<◌, ◌^◌, ◌≡◌, refl, Bool, true, false, List, [], ◌∷◌, ◌++◌, arith, if◌then◌else◌, All,
  sum_by,
}
use crust_sworker.Prelude.Int.{ℤ, pos, ◌+ℤ◌, ◌-ℤ◌, to_int32, to_int32-pos, to_int32-neg}
use crust_sworker.Workload.{
  Workload, Spec, WlSpec, FileEntry, FileStatus, unconfirmed, valid, lost, deleted, same_status,
  get_spec, put_spec, add_spec, sub_spec, unit_of, set_wl_spec, set_wl_spec_related,
}

-- 1 for a file whose current status is `c`.
abbrev pub one_if : FileStatus → FileEntry → ℕ
one_if c e = if same_status e.status.current c then 1 else 0

-- Its size for such a file. The statistics go by the size before sealing.
abbrev pub size_if : FileStatus → FileEntry → ℕ
size_if c e = if same_status e.status.current c then e.old_size else 0

-- The files of a status among `fs`, and their sizes.
abbrev pub tally : FileStatus → List FileEntry → Spec
tally c fs = record { num = pos (sum_by (one_if c) fs); size = pos (sum_by (size_if c) fs) }

abbrev pub all_files : Workload → List FileEntry
all_files wl = wl.checked_files ++ wl.new_files

-- The statistics of the three live statuses are those of the files `fs`.
pub record CountsOf (s : WlSpec) (fs : List FileEntry) : Type 0 where
  pub unconfirmed_counted : get_spec unconfirmed s ≡ tally unconfirmed fs
  pub valid_counted : get_spec valid s ≡ tally valid fs
  pub lost_counted : get_spec lost s ≡ tally lost fs

abbrev pub Consistent : Workload → Type 0
Consistent wl = CountsOf wl.wl_spec_info (all_files wl)

-- Sizes that an `int` holds, of files that are not empty.
abbrev pub IsSmall : FileEntry → Type 0
IsSmall e = (0 < e.old_size) × (e.old_size < 2 ^ 31)

-- An entry of the statistics with natural numbers, before and after a file is counted in or out.
pub add_spec-pos :
    (n k b : ℕ)
    → 0 < n
    → n < 2 ^ 31
    → add_spec (to_int32 (pos n)) (record { num = pos k; size = pos b })
      ≡ record { num = pos (k + 1); size = pos (b + n) }
unfolding add_spec unit_of ◌+ℤ◌
add_spec-pos n k b h l = rw (to_int32-pos n l) (ground arith)

pub sub_spec-pos :
    (n k b : ℕ)
    → 0 < n
    → n < 2 ^ 31
    → sub_spec (to_int32 (pos n)) (record { num = pos (k + 1); size = pos (b + n) })
      ≡ record { num = pos k; size = pos b }
unfolding sub_spec unit_of ◌-ℤ◌
sub_spec-pos n k b h l = rw (to_int32-pos n l) (ground arith)

pub add_spec-neg :
    (n k b : ℕ)
    → 0 < n
    → n < 2 ^ 31
    → add_spec (to_int32 (pos 0 -ℤ pos n)) (record { num = pos (k + 1); size = pos (b + n) })
      ≡ record { num = pos k; size = pos b }
unfolding add_spec unit_of ◌-ℤ◌ ◌+ℤ◌
add_spec-neg n k b h l = rw (to_int32-neg n l) (ground arith)

-- Reading an entry after a write.
pub get_spec-put_spec :
    (c d : FileStatus) (v : Spec) (s : WlSpec)
    → get_spec d (put_spec c v s) ≡ (if same_status c d then v else get_spec d s)
unfolding get_spec put_spec
get_spec-put_spec unconfirmed d v s = ground arith
get_spec-put_spec valid d v s = ground arith
get_spec-put_spec lost d v s = ground arith
get_spec-put_spec deleted d v s = ground arith
