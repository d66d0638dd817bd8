-- ===== src/Identity/Tests.antt =====
-- Examples for src/enclave/identity/Identity.cpp.
use crust_sworker.Prelude.{ℕ, ◌+◌, ◌*◌, ◌≤◌, ◌<◌, ◌≡◌, refl, [], ◌∷◌, arith}
use crust_sworker.Status.{crust_success, era_length}
use crust_sworker.Workload.{Workload, init}
use crust_sworker.Identity.{
  upgrade_condition, upgrade_report_height, store_large_data, store_calls, loaded,
}
use crust_sworker.Identity.Heights.{upgrade_report_height-IsReached}
use crust_sworker.Identity.Pieces.{
  store_calls-store_large_data, receive_all, joined, no_transfer, receive_all-loaded,
}

abbrev wl : Workload
wl = record init { report_height = 600 }

open_era : upgrade_condition 1900 wl ≡ crust_success
unfolding upgrade_condition
open_era = refl

upgrade_report_height-IsReached_example :
    (upgrade_report_height 1900 wl < 1900)
    × (1900 ≤ upgrade_report_height 1900 wl + era_length)
    × ((k : ℕ) × (upgrade_report_height 1900 wl ≡ 600 + era_length * k))
upgrade_report_height-IsReached_example =
    upgrade_report_height-IsReached 1900 wl (omega arith) open_era

store_calls-store_large_data_example :
    store_calls (store_large_data (1 ∷ 2 ∷ [])) (9 ∷ []) ≡ 1 ∷ 2 ∷ []
store_calls-store_large_data_example = store_calls-store_large_data (1 ∷ 2 ∷ []) (9 ∷ [])

receive_all-loaded_example :
    receive_all 8 (1 ∷ 2 ∷ []) ((3 ∷ []) ∷ (4 ∷ 5 ∷ []) ∷ []) no_transfer
    ≡ loaded (1 ∷ 2 ∷ 3 ∷ 4 ∷ 5 ∷ []) no_transfer
unfolding joined
receive_all-loaded_example =
    receive_all-loaded 8 (1 ∷ 2 ∷ []) ((3 ∷ []) ∷ (4 ∷ 5 ∷ []) ∷ []) (omega arith)
