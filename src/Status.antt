-- ===== src/Status.antt =====
-- src/enclave/include/CrustStatus.h and src/enclave/include/Parameter.h: the status codes and the
-- constants that the modelled code names.
use crust_sworker.Prelude.{ℕ}

-- `crust_status_t` is an enum of numbers, and a status is compared as a number.
abbrev pub CrustStatus : Type 0
CrustStatus = ℕ

abbrev pub crust_success : CrustStatus
crust_success = 0

abbrev pub crust_block_height_expired : CrustStatus
crust_block_height_expired = 0x2000

abbrev pub crust_first_work_report_after_report : CrustStatus
crust_first_work_report_after_report = 0x2001

abbrev pub crust_work_report_not_validated : CrustStatus
crust_work_report_not_validated = 0x2002

abbrev pub crust_no_karst : CrustStatus
crust_no_karst = 0x2003

abbrev pub crust_sgx_sign_failed : CrustStatus
crust_sgx_sign_failed = 0x4009

abbrev pub crust_malloc_failed : CrustStatus
crust_malloc_failed = 0x4000

abbrev pub crust_seal_data_failed : CrustStatus
crust_seal_data_failed = 0x4001

abbrev pub crust_unseal_data_failed : CrustStatus
crust_unseal_data_failed = 0x4002

abbrev pub crust_unexpected_error : CrustStatus
crust_unexpected_error = 0x4011

abbrev pub crust_invalid_merkletree : CrustStatus
crust_invalid_merkletree = 0x4012

abbrev pub crust_delete_file_failed : CrustStatus
crust_delete_file_failed = 0x4026

abbrev pub crust_file_number_exceed : CrustStatus
crust_file_number_exceed = 0x4038

abbrev pub crust_storage_new_file_size_error : CrustStatus
crust_storage_new_file_size_error = 0x8007

abbrev pub crust_storage_unexpected_file_block : CrustStatus
crust_storage_unexpected_file_block = 0x8005

abbrev pub crust_validate_karst_offline : CrustStatus
crust_validate_karst_offline = 0x9003

abbrev pub crust_not_equal : CrustStatus
crust_not_equal = 0x4008

abbrev pub crust_upgrade_need_left_data : CrustStatus
crust_upgrade_need_left_data = 0x10011

abbrev pub crust_upgrade_wait_for_next_era : CrustStatus
crust_upgrade_wait_for_next_era = 0x10007

abbrev pub crust_upgrade_block_expire : CrustStatus
crust_upgrade_block_expire = 0x10012

abbrev pub crust_upgrade_no_validate : CrustStatus
crust_upgrade_no_validate = 0x10013

abbrev pub crust_upgrade_restart : CrustStatus
crust_upgrade_restart = 0x10014

abbrev pub crust_upgrade_no_file : CrustStatus
crust_upgrade_no_file = 0x10015

abbrev pub crust_persist_get_failed : CrustStatus
crust_persist_get_failed = 0x6004

abbrev pub crust_persist_set_failed : CrustStatus
crust_persist_set_failed = 0x6003

abbrev pub crust_persist_del_failed : CrustStatus
crust_persist_del_failed = 0x6002

abbrev pub crust_persist_add_failed : CrustStatus
crust_persist_add_failed = 0x6001

-- The constants of Parameter.h.
abbrev pub hash_length : ℕ
hash_length = 32

abbrev pub enclave_malloc_tryout : ℕ
enclave_malloc_tryout = 3

abbrev pub ocall_store_threshold : ℕ
ocall_store_threshold = 4194304

abbrev pub era_length : ℕ
era_length = 300

abbrev pub workreport_report_interval : ℕ
workreport_report_interval = 10

abbrev pub workreport_file_limit : ℕ
workreport_file_limit = 1000

abbrev pub file_number_upper_limit : ℕ
file_number_upper_limit = 200000

abbrev pub srd_max_per_turn : ℕ
srd_max_per_turn = 64

abbrev pub srd_number_upper_limit : ℕ
srd_number_upper_limit = 204800

abbrev pub srd_punish_factor : ℕ
srd_punish_factor = 2

abbrev pub crust_storage_update_file_failed : CrustStatus
crust_storage_update_file_failed = 0x8003

abbrev pub crust_storage_unseal_file_failed : CrustStatus
crust_storage_unseal_file_failed = 0x8004

abbrev pub crust_malware_data_block : CrustStatus
crust_malware_data_block = 0x4022
