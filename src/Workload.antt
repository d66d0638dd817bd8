-- ===== src/Workload.antt =====
-- src/enclave/workload/Workload.{h,cpp}: the state of the enclave's workload singleton and the
-- operations that only read or set it. The mutexes of these operations are not modelled: each is one
-- step. A file item is a JSON object in the source and a record here.
pub mod Files
pub mod Proof
pub mod Upgrade
pub mod Counts
pub mod Restore
mod Tests
pub use Files.{FileStatus, unconfirmed, valid, lost, deleted, StatusChars, FileEntry, same_status}
use crust_sworker.Prelude.{
  ℕ, zero, suc, ◌+◌, ◌-◌, ◌%◌, ◌^◌, Bool, true, false, not, ◌&&◌, ◌||◌, List, [], ◌∷◌, ◌++◌, Option,
  ltb, ◌==◌, if◌then◌else◌, length,
}
use crust_sworker.Prelude.Int.{ℤ, pos, negsuc, ◌+ℤ◌, ◌-ℤ◌, ltb_ℤ, leb_ℤ}
use crust_sworker.Prelude.Text.{Text}
use crust_sworker.Prelude.Map.{Map, update}
use crust_sworker.Status.{
  CrustStatus, crust_success, crust_upgrade_block_expire, crust_upgrade_no_validate,
  crust_upgrade_restart, crust_upgrade_no_file, era_length, workreport_report_interval,
}

-- `enc_upgrade_status_t`
pub data UpgradeStatus : Type 0 where
  upgrade_none upgrade_process upgrade_success : UpgradeStatus

-- One entry of `wl_spec_info`. A key that is not there reads as 0.
pub record Spec : Type 0 where
  pub num : ℤ
  pub size : ℤ

-- `wl_spec_info`, with an entry for each name in `g_file_status`.
pub record WlSpec : Type 0 where
  pub unconfirmed_spec : Spec
  pub valid_spec : Spec
  pub lost_spec : Spec
  pub deleted_spec : Spec

abbrev pub zero_spec : Spec
zero_spec = record { num = pos 0; size = pos 0 }

-- `class Workload`. `srd_path2hashs_m` holds the hash of each G under its path, `reported_files_idx`
-- is a set of indexes in increasing order, `srd_info` is the "assigned" number of each path.
pub record Workload : Type 0 where
  pub srd_path2hashs : Map (List (List ℕ))
  pub checked_files : List FileEntry
  pub new_files : List FileEntry
  pub reported_files_idx : List ℕ
  pub pre_pub_key : List ℕ
  pub account_id : Text
  pub pub_key : List ℕ
  pub pri_key : List ℕ
  pub is_set_key_pair : Bool
  pub report_height : ℕ
  pub restart_flag : Bool
  pub validated_proof : ℤ
  pub report_files : Bool
  pub srd_info : Map ℤ
  pub upgrade : Bool
  pub upgrade_status : UpgradeStatus
  pub wl_spec_info : WlSpec

-- `Workload::Workload`. The keys and the account are set later.
abbrev pub init : Workload
init = record {
  srd_path2hashs = [];
  checked_files = [];
  new_files = [];
  reported_files_idx = [];
  pre_pub_key = [];
  account_id = [];
  pub_key = [];
  pri_key = [];
  is_set_key_pair = false;
  report_height = 0;
  restart_flag = false;
  validated_proof = pos 0;
  report_files = true;
  srd_info = [];
  upgrade = false;
  upgrade_status = upgrade_none;
  wl_spec_info = record {
    unconfirmed_spec = zero_spec;
    valid_spec = zero_spec;
    lost_spec = zero_spec;
    deleted_spec = zero_spec;
  };
}

unfoldable pub add_new_file : FileEntry → Workload → Workload
add_new_file file wl = record wl { new_files = wl.new_files ++ (file ∷ []) }

-- `set_srd_info`: a number below 0 becomes 0.
unfoldable pub set_srd_info : Text → ℤ → Workload → Workload
set_srd_info path change wl = record wl { srd_info = update path (pos 0) clamp wl.srd_info }
  where
    clamp : ℤ → ℤ
    clamp n = if ltb_ℤ (n +ℤ change) (pos 0) then pos 0 else n +ℤ change

unfoldable pub set_upgrade : List ℕ → Workload → Workload
set_upgrade key wl = record wl { upgrade = true; pre_pub_key = key }

unfoldable pub set_upgrade_status : UpgradeStatus → Workload → Workload
set_upgrade_status status wl = record wl { upgrade_status = status }

unfoldable pub set_report_file_flag : Bool → Workload → Workload
set_report_file_flag flag wl = record wl { report_files = flag }

unfoldable pub set_restart_flag : Bool → Workload → Workload
set_restart_flag flag wl = record wl { restart_flag = flag }

unfoldable pub set_report_height : ℕ → Workload → Workload
set_report_height height wl = record wl { report_height = height }

unfoldable pub set_key_pair : List ℕ → List ℕ → Workload → Workload
set_key_pair pub_key pri_key wl = record wl {
  pub_key = pub_key;
  pri_key = pri_key;
  is_set_key_pair = true;
}

unfoldable pub set_account_id : Text → Workload → Workload
set_account_id account wl = record wl { account_id = account }

-- `validated_proof` is an `int`.
unfoldable pub report_add_validated_proof : Workload → Workload
report_add_validated_proof wl =
    if leb_ℤ (pos 2) wl.validated_proof
    then record wl { validated_proof = pos 2 }
    else record wl { validated_proof = wl.validated_proof +ℤ pos 1 }

unfoldable pub report_reduce_validated_proof : Workload → Workload
report_reduce_validated_proof wl =
    if leb_ℤ wl.validated_proof (pos 0)
    then record wl { validated_proof = pos 0 }
    else record wl { validated_proof = wl.validated_proof -ℤ pos 1 }

unfoldable pub report_has_validated_proof : Workload → Bool
report_has_validated_proof wl = ltb_ℤ (pos 0) wl.validated_proof

-- `a - b` on `size_t`, for operands below 2 ^ 64.
abbrev pub sub_size : ℕ → ℕ → ℕ
sub_size a b = (a + 2 ^ 64 - b) % 2 ^ 64

unfoldable pub try_report_work : ℕ → Workload → CrustStatus
unfolding report_has_validated_proof
try_report_work block_height wl =
    if (block_height == 0)
      || ltb (sub_size (sub_size block_height wl.report_height) workreport_report_interval)
          era_length
    then crust_upgrade_block_expire
    else (if not (report_has_validated_proof wl)
        then crust_upgrade_no_validate
        else (if wl.restart_flag
            then crust_upgrade_restart
            else (if not wl.report_files then crust_upgrade_no_file else crust_success)))

-- `this->wl_spec_info[g_file_status[c]]`, read and written.
unfoldable pub get_spec : FileStatus → WlSpec → Spec
get_spec unconfirmed s = s.unconfirmed_spec
get_spec valid s = s.valid_spec
get_spec lost s = s.lost_spec
get_spec deleted s = s.deleted_spec

unfoldable pub put_spec : FileStatus → Spec → WlSpec → WlSpec
put_spec unconfirmed v s = record s { unconfirmed_spec = v }
put_spec valid v s = record s { valid_spec = v }
put_spec lost v s = record s { lost_spec = v }
put_spec deleted v s = record s { deleted_spec = v }

-- `change > 0 ? 1 : -1`
unfoldable pub unit_of : ℤ → ℤ
unit_of change = if ltb_ℤ (pos 0) change then pos 1 else negsuc 0

unfoldable pub add_spec : ℤ → Spec → Spec
unfolding unit_of
add_spec change v = record { num = v.num +ℤ unit_of change; size = v.size +ℤ change }

unfoldable pub sub_spec : ℤ → Spec → Spec
unfolding unit_of
sub_spec change v = record { num = v.num -ℤ unit_of change; size = v.size -ℤ change }

-- `set_wl_spec(file_status, change)`; `change` is an `int`.
unfoldable pub set_wl_spec : FileStatus → ℤ → Workload → Workload
unfolding add_spec get_spec put_spec
set_wl_spec c change wl = record wl {
  wl_spec_info = put_spec c (add_spec change (get_spec c wl.wl_spec_info)) wl.wl_spec_info;
}

-- `set_wl_spec(file_status, related_file_status, change)`
unfoldable pub set_wl_spec_related : FileStatus → FileStatus → ℤ → Workload → Workload
unfolding add_spec sub_spec get_spec put_spec set_wl_spec
set_wl_spec_related c related change wl =
    if same_status c related
    then wl
    else (let wl' = set_wl_spec c change wl in
        record wl' {
          wl_spec_info =
              put_spec related (sub_spec change (get_spec related wl'.wl_spec_info))
                wl'.wl_spec_info;
        })

-- The body of `handle_report_result`: ORIGIN_STATUS takes the value of WAITING_STATUS.
unfoldable pub sync_origin : FileEntry → FileEntry
sync_origin e = record e { status = record (e.status) { origin = e.status.waiting } }

-- `f` on the element at an index; an index out of range changes nothing.
unfoldable pub modify {ℓ} : {A : Type ℓ} → ℕ → (A → A) → List A → List A
modify i f [] = []
modify zero f (x ∷ xs) = f x ∷ xs
modify (suc i) f (x ∷ xs) = x ∷ modify i f xs

unfoldable pub sync_indexes : List ℕ → List FileEntry → List FileEntry
unfolding modify sync_origin
sync_indexes [] files = files
sync_indexes (i ∷ is) files = sync_indexes is (modify i sync_origin files)

unfoldable pub handle_report_result : Workload → Workload
unfolding sync_indexes
handle_report_result wl = record wl {
  checked_files = sync_indexes wl.reported_files_idx wl.checked_files;
  reported_files_idx = [];
}
