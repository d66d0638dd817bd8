-- ===== src/Workload/Restore.antt =====
-- src/enclave/workload/Workload.cpp, `restore_srd` and `restore_file`: the workload after a restart or in
-- an upgraded enclave. The JSON objects they read are the entries of each path, in the order of the
-- paths, and file items.
pub mod Files
pub mod Space
mod Tests
use crust_sworker.Prelude.{ℕ, Bool, List, [], ◌∷◌, ◌++◌, Option, none, some, length}
use crust_sworker.Prelude.Int.{ℤ, pos, to_int32}
use crust_sworker.Prelude.Text.{Text}
use crust_sworker.Prelude.Map.{Map, update}
use crust_sworker.Status.{CrustStatus, crust_success, crust_unexpected_error}
use crust_sworker.Hex.{hex_string_to_bytes}
use crust_sworker.Workload.{Workload, FileEntry, set_wl_spec}

-- `set_wl_spec` takes FILE_OLD_SIZE as an `int`.
unfoldable pub restore_entry : FileEntry → Workload → Workload
unfolding set_wl_spec
restore_entry e wl =
    set_wl_spec e.status.current (to_int32 (pos e.old_size))
      (record wl { checked_files = wl.checked_files ++ (e ∷ []) })

unfoldable pub restore_entries : List FileEntry → Workload → Workload
unfolding restore_entry
restore_entries [] wl = wl
restore_entries (e ∷ es) wl = restore_entries es (restore_entry e wl)

unfoldable pub restore_file : List FileEntry → Workload → Workload
unfolding restore_entries
restore_file file_json wl = restore_entries file_json (record wl { checked_files = [] })

-- `this->srd_path2hashs_m[path].push_back(g_hash)`
unfoldable pub push_hash : Text → List ℕ → Map (List (List ℕ)) → Map (List (List ℕ))
push_hash path g_hash m = update path [] (λ gs. gs ++ (g_hash ∷ [])) m

-- The loop over the hashes of a path; `none` where one gives NULL. `alloc` says whether the allocation
-- for a hash gives a buffer.
unfoldable pub restore_hashs :
    (Text → Bool) → Text → List Text → Map (List (List ℕ)) → Option (Map (List (List ℕ)))
unfolding push_hash
restore_hashs alloc path [] m = some m
restore_hashs alloc path (hex_g_hash ∷ rest) m =
    elim (hex_string_to_bytes (alloc hex_g_hash) hex_g_hash) [
      | none ↦ none
      | some g_hash ↦ restore_hashs alloc path rest (push_hash path g_hash m)
    ]

unfoldable pub restore_paths :
    (Text → Bool) → Map (List Text) → Map (List (List ℕ)) → Option (Map (List (List ℕ)))
unfolding restore_hashs
restore_paths alloc [] m = some m
restore_paths alloc ((path, hashs) ∷ rest) m = elim (restore_hashs alloc path hashs m) [
  | none ↦ none
  | some m' ↦ restore_paths alloc rest m'
]

-- The assigned space of each path becomes the number of its hashes.
unfoldable pub restore_assigned : Map (List (List ℕ)) → Map ℤ → Map ℤ
restore_assigned [] info = info
restore_assigned ((path, gs) ∷ m) info =
    restore_assigned m (update path (pos 0) (λ n. pos (length gs)) info)

-- On a hash that gives NULL the hashes are cleaned and the assigned space is left.
unfoldable pub restore_srd : (Text → Bool) → Map (List Text) → Workload → CrustStatus × Workload
unfolding restore_paths restore_assigned
restore_srd alloc g_hashs wl = elim (restore_paths alloc g_hashs []) [
  | none ↦ (crust_unexpected_error, record wl { srd_path2hashs = [] })
  | some m ↦
      (crust_success, record wl { srd_path2hashs = m; srd_info = restore_assigned m wl.srd_info })
]
