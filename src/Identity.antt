-- ===== src/Identity.antt =====
-- src/enclave/identity/Identity.cpp: the height of the report before an upgrade, and how the upgrade data
-- leave one enclave and come into the next in pieces, with store_large_data of
-- src/enclave/utils/EUtils.cpp and ocall_store_upgrade_data of src/app/ocalls/OCalls.cpp.
pub mod Heights
pub mod Pieces
mod Tests
use crust_sworker.Prelude.{
  ℕ, zero, suc, ◌+◌, Bool, true, false, List, [], ◌∷◌, ◌++◌, Option, none, some, if◌then◌else◌,
  ◌==◌, ltb, leb, length, take, drop, replicate, min,
}
use crust_sworker.Prelude.Text.{Text, text_eq}
use crust_sworker.Status.{
  CrustStatus, crust_success, crust_malloc_failed, crust_unexpected_error, crust_not_equal,
  crust_upgrade_wait_for_next_era, crust_upgrade_need_left_data, era_length,
  workreport_report_interval, ocall_store_threshold,
}
use crust_sworker.Workload.{Workload, sub_size}
use crust_sworker.Persistence.{write_at}

-- The tests of `id_gen_upgrade_data` on the block height: the status that ends the call, or success.
unfoldable pub upgrade_condition : ℕ → Workload → CrustStatus
upgrade_condition block_height wl =
    if leb block_height wl.report_height
    then crust_unexpected_error
    else (if ltb (sub_size (sub_size block_height wl.report_height) workreport_report_interval)
          era_length
        then crust_upgrade_wait_for_next_era
        else crust_success)

-- `while (block_height - report_height > ERA_LENGTH)`. The height stays below the block height, so
-- the difference is not negative; it falls in each round, and the block height is fuel enough.
unfoldable pub advance : ℕ → ℕ → ℕ → ℕ
advance zero block_height report_height = report_height
advance (suc fuel) block_height report_height =
    let next = advance fuel block_height (report_height + era_length) in
    if ltb era_length (sub_size block_height report_height) then next else report_height

-- `report_height` of `id_gen_upgrade_data`.
unfoldable pub upgrade_report_height : ℕ → Workload → ℕ
unfolding advance
upgrade_report_height block_height wl = advance block_height block_height wl.report_height

-- `id_cmp_chain_account_id`. Reading past the end of an account is not modelled.
unfoldable pub id_cmp_chain_account_id : Text → ℕ → Workload → CrustStatus
unfolding text_eq
id_cmp_chain_account_id account_id len wl =
    if text_eq (take len wl.account_id) (take len account_id)
    then crust_success
    else crust_not_equal

-- The loop of `store_large_data`: the calls of `p_func`, each with its part and `cover`. A part has a byte
-- at least, so the length is fuel enough.
unfoldable pub large_parts : ℕ → Bool → List ℕ → List (List ℕ × Bool)
large_parts zero cover rest = []
large_parts (suc fuel) cover [] = []
large_parts (suc fuel) cover (b ∷ bs) =
    let part_size = min (length (b ∷ bs)) ocall_store_threshold in
    (take part_size (b ∷ bs), cover) ∷ large_parts fuel false (drop part_size (b ∷ bs))

unfoldable pub store_large_data : List ℕ → List (List ℕ × Bool)
unfolding large_parts
store_large_data bytes =
    if ltb ocall_store_threshold (length bytes)
    then large_parts (length bytes) true bytes
    else (bytes, true) ∷ []

-- `ocall_store_upgrade_data`, on the data that the application keeps.
unfoldable pub ocall_store_upgrade_data : List ℕ → Bool → List ℕ → List ℕ
ocall_store_upgrade_data part cover kept = if cover then part else kept ++ part

-- The calls of one transfer in their order.
unfoldable pub store_calls : List (List ℕ × Bool) → List ℕ → List ℕ
unfolding ocall_store_upgrade_data
store_calls [] kept = kept
store_calls ((part, cover) ∷ calls) kept =
    store_calls calls (ocall_store_upgrade_data part cover kept)

-- `g_upgrade_buffer`, which has no bytes while it is NULL, and `g_upgrade_buffer_offset`.
pub record Transfer : Type 0 where
  pub buffer : List ℕ
  pub offset : ℕ

-- `id_restore_from_upgrade` up to the text that is loaded: a status, the whole text, or a write past the
-- end of the buffer.
pub data Received : Type 0 where
  waiting : CrustStatus → Transfer → Received
  loaded : List ℕ → Transfer → Received
  overflow : Received

-- The buffer for the data that come, by whether `enc_malloc` gives one.
unfoldable pub get_buffer : Bool → ℕ → Transfer → Option (List ℕ)
get_buffer alloc total_size g =
    if g.offset == 0 then (if alloc then some (replicate total_size 0) else none) else some g.buffer

unfoldable pub finish_transfer : ℕ → Bool → Option (List ℕ) → Received
finish_transfer offset transfer_end none = overflow
finish_transfer offset transfer_end (some buffer) =
    if transfer_end
    then loaded (take offset buffer) (record { buffer = []; offset = 0 })
    else waiting crust_upgrade_need_left_data (record { buffer = buffer; offset = offset })

unfoldable pub put_part : List ℕ → Bool → Transfer → Option (List ℕ) → Received
unfolding finish_transfer write_at
put_part bytes transfer_end g none = waiting crust_malloc_failed g
put_part bytes transfer_end g (some buffer) =
    finish_transfer (g.offset + length bytes) transfer_end (write_at g.offset bytes buffer)

unfoldable pub receive : Bool → List ℕ → ℕ → Bool → Transfer → Received
unfolding get_buffer put_part
receive alloc bytes total_size transfer_end g =
    put_part bytes transfer_end g (get_buffer alloc total_size g)
