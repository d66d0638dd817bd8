-- ===== src/Srd/Increase.antt =====
-- Sealing one G: `srd_increase` in src/enclave/srd/Srd.cpp.
pub mod Leaves
pub mod Disk
pub mod Saved
use crust_sworker.Prelude.{
  ℕ, zero, suc, ◌+◌, Bool, true, false, not, List, [], ◌∷◌, ◌++◌, Option, none, some, ◌==◌,
  if◌then◌else◌, take,
}
use crust_sworker.Prelude.Int.{pos}
use crust_sworker.Prelude.Text.{Text}
use crust_sworker.Prelude.Map.{update}
use crust_sworker.Status.{CrustStatus, crust_success}
use crust_sworker.Crypto.{Crypto}
use crust_sworker.Workload.{Workload, set_srd_info}
use crust_sworker.Srd.{get_m_hashs_file_path, get_leaf_path, get_g_path_with_hash, get_g_path}

-- SRD_RAND_DATA_LENGTH and SRD_RAND_DATA_NUM of src/enclave/utils/EUtils.h.
abbrev pub srd_rand_data_length : ℕ
srd_rand_data_length = 1048576

abbrev pub srd_rand_data_num : ℕ
srd_rand_data_num = 1024

-- What the application is asked to do on the disk.
pub data DiskCall : Type 0 where
  create_dir : Text → DiskCall
  save_file : Text → List ℕ → DiskCall
  rename_dir : Text → Text → DiskCall

-- What one call meets: whether there is, or can be, a buffer of base data, the random index, the status
-- of `ocall_create_dir`, whether the other buffers can be had, and what each sealing gives.
pub record Sealing : Type 0 where
  pub base_buffer : Bool
  pub now_index : ℕ
  pub dir_status : CrustStatus
  pub hashs_buffer : Bool
  pub hash_buffer : Bool
  pub hex_buffer : Bool
  pub seal : ℕ → Option (List ℕ)

-- The part of the sealed data that is hashed and saved.
unfoldable pub block_of : List ℕ → List ℕ
block_of sealed = take srd_rand_data_length sealed

unfoldable pub prepend : List ℕ → Option (List ℕ) → Option (List ℕ)
prepend hash none = none
prepend hash (some hashs) = some (hash ++ hashs)

-- The loop from leaf `i` on, for `k` leaves: their hashes, unless a sealing fails, and the calls.
unfoldable pub fill_leaves :
    Crypto → (ℕ → Option (List ℕ)) → Text → ℕ → ℕ → Option (List ℕ) × List DiskCall
unfolding block_of prepend get_leaf_path
fill_leaves c seal g_path zero i = (some [], [])
fill_leaves c seal g_path (suc k) i =
    let (rest, calls) = fill_leaves c seal g_path k (i + 1) in
    elim (seal i) [
      | none ↦ (none, [])
      | some sealed ↦
          let hash = c.sha256 (block_of sealed) in
          (prepend hash rest, save_file (get_leaf_path g_path i hash) (block_of sealed) ∷ calls)
    ]

-- `wl->srd_path2hashs_m[path_str].push_back(p_hash_u)`, then the assigned space.
unfoldable pub add_g : Text → List ℕ → Workload → Workload
unfolding set_srd_info
add_g path hash wl = set_srd_info path (pos 1) (record wl {
  srd_path2hashs = update path [] (λ hashs. hashs ++ (hash ∷ [])) wl.srd_path2hashs;
})

-- The part after the loop.
unfoldable pub finish_g :
    Crypto → Sealing → Text → Text → List ℕ → Workload → List DiskCall × Workload
unfolding add_g get_m_hashs_file_path get_g_path_with_hash
finish_g c s path g_path hashs wl =
    let hash = c.sha256 hashs in
    (
      save_file (get_m_hashs_file_path g_path) hashs
          ∷ rename_dir g_path (get_g_path_with_hash path hash)
          ∷ [],
      if not s.hash_buffer then wl else (if not s.hex_buffer then wl else add_g path hash wl),
    )

unfoldable pub srd_increase : Crypto → Sealing → Text → Workload → List DiskCall × Workload
unfolding fill_leaves finish_g get_g_path
srd_increase c s path wl =
    let g_path = get_g_path path s.now_index in
    if not s.base_buffer
    then ([], wl)
    else (if not (s.dir_status == crust_success)
        then (create_dir g_path ∷ [], wl)
        else (if not s.hashs_buffer
            then (create_dir g_path ∷ [], wl)
            else (let (filled, calls) = fill_leaves c s.seal g_path srd_rand_data_num 0 in
                elim filled [
                  | none ↦ (create_dir g_path ∷ calls, wl)
                  | some hashs ↦
                      let (last, wl') = finish_g c s path g_path hashs wl in
                      (create_dir g_path ∷ (calls ++ last), wl')
                ])))
