-- ===== src/Srd/Metadata.antt =====
-- `srd_update_metadata` in src/enclave/srd/Srd.cpp: the application has found that it must give space
-- back, and names how many G to drop under each path.
pub mod Assigned
use crust_sworker.Prelude.{
  ℕ, zero, suc, ◌+◌, ◌-◌, ◌%◌, ◌^◌, ◌≤◌, ◌≡◌, refl, sym, ap, ◌∙◌, inl, inr, Bool, true, false, List,
  [], ◌∷◌, ◌++◌, Option, none, some, arith, min, ltb, ◌==◌, if◌then◌else◌, length, take, All,
  Bool-cases,
}
use crust_sworker.Prelude.Int.{ℤ, pos, negsuc, ◌+ℤ◌}
use crust_sworker.Prelude.Text.{Text, codes, text_eq, text_eq_sound, text_lt}
use crust_sworker.Prelude.Map.{Map, lookup, update}
use crust_sworker.Prelude.Sorted.{
  IsSorted, value_or, text_eq_sym, text_lt-text_eq, lookup-above, lookup-update_same,
  lookup-update_other, update-IsSorted,
}
use crust_sworker.Status.{CrustStatus, crust_success}
use crust_sworker.Hex.{hexstring_safe}
use crust_sworker.Workload.{Workload, set_srd_info}
use crust_sworker.Srd.{SrdMap}

-- `(size_t)it->second.ToInt()`
unfoldable pub to_size : ℤ → ℕ
to_size (pos n) = n % 2 ^ 64
to_size (negsuc n) = 2 ^ 64 - 1 - n % 2 ^ 64

-- `real_deleted_num`
unfoldable pub real_deleted_num : ℤ → List (List ℕ) → ℕ
unfolding to_size
real_deleted_num n hashs = min (to_size n) (length hashs)

-- `p_entry->back()` and `p_entry->pop_back()`
unfoldable pub back : List (List ℕ) → List ℕ
back [] = []
back (h ∷ []) = h
back (h ∷ k ∷ hashs) = back (k ∷ hashs)

unfoldable pub pop_back : List (List ℕ) → List (List ℕ)
pop_back [] = []
pop_back (h ∷ []) = []
pop_back (h ∷ k ∷ hashs) = h ∷ pop_back (k ∷ hashs)

module _ (ocall_delete : Text → CrustStatus) where
  -- The inner loop of `k` rounds under a path: the hashes go even where the files stay, and only where
  -- they could be deleted the assigned space is reduced.
  unfoldable pub drop_hashs : ℕ → Text → Workload → Workload
  unfolding back pop_back set_srd_info
  drop_hashs zero path wl = wl
  drop_hashs (suc k) path wl =
      let hash = back (value_or [] (lookup path wl.srd_path2hashs)) in
      let wl' = record wl { srd_path2hashs = update path [] pop_back wl.srd_path2hashs } in
      let ok = ocall_delete (path ++ (codes "/" ++ hexstring_safe true hash)) == crust_success in
      drop_hashs k path (if ok then set_srd_info path (negsuc 0) wl' else wl')

  -- The outer loop, with what other threads do where `sched_check` lets go of the lock. A path that is
  -- not there gets an empty entry.
  unfoldable pub drop_paths : (Workload → Workload) → Map ℤ → Workload → Workload
  unfolding drop_hashs real_deleted_num
  drop_paths others [] wl = wl
  drop_paths others ((path, n) ∷ dels) wl =
      let wl' = others wl in
      let there = record wl' { srd_path2hashs = update path [] (λ h. h) wl'.srd_path2hashs } in
      let k = real_deleted_num n (value_or [] (lookup path wl'.srd_path2hashs)) in
      drop_paths others dels (drop_hashs k path there)

  -- `srd_update_metadata`; the status of the database only is logged.
  unfoldable pub srd_update_metadata {ℓ} :
      {D : Type ℓ}
      → (Workload → Workload)
      → (Map ℤ → D → CrustStatus × D)
      → Map ℤ
      → Workload
      → D
      → Workload × D
  unfolding drop_paths
  srd_update_metadata others persist_srd_info dels wl db =
      let wl' = drop_paths others dels wl in
      let (status, db') = persist_srd_info wl'.srd_info db in (wl', db')
