-- ===== src/Srd/Decrease.antt =====
-- `srd_decrease` in src/enclave/srd/Srd.cpp: which G are deleted, in memory and on disk.
pub mod Choose
pub mod Enough
pub mod Total
pub mod Erase
pub mod Kept
pub mod Whole
use crust_sworker.Prelude.{
  ℕ, zero, suc, ◌+◌, ◌-◌, ◌%◌, ◌^◌, Bool, true, false, not, ◌&&◌, List, [], ◌∷◌, ◌++◌, Option, none,
  some, ltb, leb, ◌==◌, if◌then◌else◌, length, map,
}
use crust_sworker.Prelude.Int.{ℤ, pos, negsuc, ◌-ℤ◌, ltb_ℤ}
use crust_sworker.Prelude.Text.{Text, codes}
use crust_sworker.Prelude.Map.{Map, lookup, update}
use crust_sworker.Prelude.Sets.{set_insert, set_has}
use crust_sworker.Prelude.Sorted.{value_or}
use crust_sworker.Status.{CrustStatus, crust_success}
use crust_sworker.Hex.{hexstring_safe}
use crust_sworker.Workload.{Workload, set_srd_info}
use crust_sworker.Srd.{SrdMap, srd_total}

-- `srd_del_index_m`: the indexes to delete under each path.
abbrev pub DelMap : Type 0
DelMap = Map (List ℕ)

abbrev pub indexes_of : Text → DelMap → List ℕ
indexes_of path del = value_or [] (lookup path del)

-- The number of all indexes.
unfoldable pub del_total : DelMap → ℕ
del_total [] = 0
del_total ((path, s) ∷ del) = length s + del_total del

-- `*srd_del_index_m`, `srd_del_num`, which is an `uint32_t`, and `end_of_traverse`.
pub record Choice : Type 0 where
  pub del : DelMap
  pub num : ℕ
  pub at_end : Bool

-- The body of the inner loop at a path with its hashes.
unfoldable pub choose_one : ℕ → Text → List (List ℕ) → Choice → Choice
choose_one acc path hashs c =
    if leb acc (length hashs)
    then (let t = length hashs - acc in
        if set_has t (indexes_of path c.del) then record c { at_end = false } else record {
          del = update path [] (set_insert t) c.del;
          num = (c.num + 1) % 2 ^ 32;
          at_end = false;
        })
    else c

unfoldable pub choose_round : ℕ → SrdMap → Choice → Choice
unfolding choose_one
choose_round acc [] c = c
choose_round acc ((path, hashs) ∷ m) c = choose_round acc m (choose_one acc path hashs c)

-- The outer loop from `sAcc` on; the first argument is fuel.
unfoldable pub choose : ℕ → ℤ → ℕ → SrdMap → Choice → Choice
unfolding choose_round
choose zero change acc m c = c
choose (suc fuel) change acc m c = elim (ltb_ℤ (pos c.num) change && not c.at_end) [
  | true ↦ choose fuel change (acc + 1) m (choose_round acc m (record c { at_end = true }))
  | false ↦ c
]

-- The length of the longest vector. One more round than that finds no path.
unfoldable pub longest : SrdMap → ℕ
longest [] = 0
longest ((path, hashs) ∷ m) =
    let rest = longest m in if ltb rest (length hashs) then length hashs else rest

-- `p_entry->erase(p_entry->begin() + i)`. An index out of range, which the callers do not give, is
-- undefined in C++ and changes nothing here.
unfoldable pub erase_at {ℓ} : {A : Type ℓ} → ℕ → List A → List A
erase_at i [] = []
erase_at zero (x ∷ xs) = xs
erase_at (suc i) (x ∷ xs) = x ∷ erase_at i xs

unfoldable pub element_at : ℕ → List (List ℕ) → List ℕ
element_at i [] = []
element_at zero (x ∷ xs) = x
element_at (suc i) (x ∷ xs) = element_at i xs

-- The indexes of one path, from the last on: the deleted hashes, and the hashes that stay.
unfoldable pub erase_indexes : List ℕ → List (List ℕ) → List (List ℕ) × List (List ℕ)
unfolding erase_at element_at
erase_indexes [] hashs = ([], hashs)
erase_indexes (i ∷ is) hashs =
    let (deleted, rest) = erase_indexes is hashs in
    (deleted ++ (element_at i rest ∷ []), erase_at i rest)

-- `del_path2hashs_m`, and `srd_path2hashs_m` without the chosen G.
unfoldable pub erase_chosen : DelMap → SrdMap → Map (List Text) × SrdMap
unfolding erase_indexes
erase_chosen [] m = ([], m)
erase_chosen ((path, []) ∷ del) m = erase_chosen del m
erase_chosen ((path, i ∷ is) ∷ del) m =
    let deleted = (erase_indexes (i ∷ is) (value_or [] (lookup path m))).0 in
    let m' = update path [] (λ hashs. (erase_indexes (i ∷ is) hashs).1) m in
    let (rest, m'') = erase_chosen del m' in ((path, map (hexstring_safe true) deleted) ∷ rest, m'')

-- `std::min(change, (long)srd_total_num)`; `srd_total_num` is an `uint32_t`.
unfoldable pub capped : ℤ → SrdMap → ℤ
unfolding srd_total
capped change m =
    let total = pos (srd_total m % 2 ^ 32) in if ltb_ℤ total change then total else change

unfoldable pub is_zero_ℤ : ℤ → Bool
is_zero_ℤ (pos n) = n == 0
is_zero_ℤ (negsuc n) = false

module _ (ocall_delete : Text → CrustStatus) where
  -- The files of one path: the number of those that could be deleted.
  unfoldable pub delete_files : Text → List Text → ℕ
  delete_files path [] = 0
  delete_files path (hash ∷ hashs) =
      let n = delete_files path hashs in
      if ocall_delete (path ++ (codes "/" ++ hash)) == crust_success then n + 1 else n

  -- The last loop: `change_num`, and the assigned space of each path.
  unfoldable pub delete_dirs : Map (List Text) → Workload → ℕ × Workload
  unfolding delete_files set_srd_info
  delete_dirs [] wl = (0, wl)
  delete_dirs ((path, hashs) ∷ rest) wl =
      let (n, wl') = delete_dirs rest (set_srd_info path (pos 0 -ℤ pos (length hashs)) wl) in
      (delete_files path hashs + n, wl')

  -- `srd_decrease`, for the workload and the indexes given: the result, the workload, and the indexes
  -- after the choice. `change_num` is an `uint32_t`.
  unfoldable pub srd_decrease : ℤ → DelMap → Workload → ℕ × Workload × DelMap
  unfolding capped is_zero_ℤ del_total choose longest erase_chosen delete_dirs
  srd_decrease change del wl =
      let m = wl.srd_path2hashs in
      let change' = capped change m in
      if is_zero_ℤ change'
      then (0, wl, del)
      else (let start : Choice = record {
        del = del;
        num = del_total del % 2 ^ 32;
        at_end = false;
      } in
          let c = choose (longest m + 2) change' 1 m start in
          let (deleted, m') = erase_chosen c.del m in
          let (n, wl') = delete_dirs deleted (record wl { srd_path2hashs = m' }) in
          (n % 2 ^ 32, wl', c.del))
