-- ===== src/Validator/Space/Honest.antt =====
-- What `srd_increase` stores and the validator reads (src/enclave/srd/Srd.cpp and
-- src/enclave/validator/Validator.cpp).
use crust_sworker.Prelude.{
  ℕ, ◌+◌, ◌%◌, ◌<◌, ◌≡◌, refl, sym, ap, subst, ◌∙◌, true, false, List, ◌++◌, append_assoc, arith,
  AreBytes, Bool-cases, inl, inr,
}
use crust_sworker.Prelude.Text.{Text, codes, text_eq_refl}
use crust_sworker.Hex.{hexstring_safe}
use crust_sworker.Hex.Codec.{unsigned_char_array_to_hex_string-eq-hexstring_safe}
use crust_sworker.Crypto.{Crypto}
use crust_sworker.Workload.{Workload}
use crust_sworker.Srd.{get_g_path_with_hash}
use crust_sworker.Srd.Increase.{Sealing, block_of, add_g, srd_increase, srd_rand_data_num}
use crust_sworker.Srd.Increase.Leaves.{leaf_hashs, leaf_hashs-at, Succeeds, srd_increase-add_g}
use crust_sworker.Srd.Increase.Disk.{FileSystem, IsLawful, run}
use crust_sworker.Srd.Increase.Saved.{Holds, srd_increase-Holds}
use crust_sworker.Validator.Space.{Disk, is_bad_dir, is_bad_g}

-- The two ways of writing the directory of a G.
g_path_eq :
    (path : Text) (hash : List ℕ)
    → AreBytes hash
    → path ++ (codes "/" ++ hexstring_safe true hash) ≡ get_g_path_with_hash path hash
unfolding get_g_path_with_hash
g_path_eq path hash h =
    rw (unsigned_char_array_to_hex_string-eq-hexstring_safe hash h)
      (sym (append_assoc path (codes "/") (hexstring_safe true hash)))

good_leaf :
    (c : Crypto) (d : Disk) (dir : Text) (sealed : ℕ → List ℕ)
    → Holds d.get_file c dir sealed
    → is_bad_dir c d dir (c.sha256 (leaf_hashs c sealed srd_rand_data_num 0)) ≡ false
unfolding is_bad_dir
good_leaf c d dir sealed h =
    let hashs = leaf_hashs c sealed srd_rand_data_num 0 in
    let j = d.rand_val % srd_rand_data_num in
    let below : j < srd_rand_data_num = omega arith in
    let at_j =
      leaf_hashs-at c sealed srd_rand_data_num 0 j below
      ∙ ap (λ n. c.sha256 (block_of (sealed n))) (zero_add j) in
    elim (Bool-cases d.buffer) [
      | inr b ↦ rw (is_bad_dir, h.m_hashs_there, b) refl
      | inl b ↦
          rw
            (
              is_bad_dir,
              h.m_hashs_there,
              b,
              text_eq_refl (c.sha256 hashs),
              at_j,
              h.leaf_there j below,
              at_j,
              text_eq_refl (c.sha256 (block_of (sealed j))),
            )
            refl
    ]
  where
    zero_add : (n : ℕ) → 0 + n ≡ n
    zero_add n = omega arith

good_g :
    (c : Crypto) (d : Disk) (path : Text) (sealed : ℕ → List ℕ)
    → let hash = c.sha256 (leaf_hashs c sealed srd_rand_data_num 0) in
      Holds d.get_file c (get_g_path_with_hash path hash) sealed → is_bad_g c d path hash ≡ false
unfolding is_bad_g
good_g c d path sealed h =
    let hash = c.sha256 (leaf_hashs c sealed srd_rand_data_num 0) in
    ap (λ dir. is_bad_dir c d dir hash) (g_path_eq path hash (c.sha256-AreBytes _))
    ∙ good_leaf c d (get_g_path_with_hash path hash) sealed h

-- A call of `srd_increase` that has memory, a directory and all its sealings adds the hash of the new G
-- at the end of its path and one to the assigned space; and on a disk that has the files as the call's
-- requests to the file system leave them, made one after the other and with success from any files
-- before, the validator's check of that G does not find it bad, whichever leaf it reads; provided the
-- file system keeps what is saved and renaming a directory moves the files below it.
pub srd_increase-validates :
    (fs : FileSystem) (c : Crypto) (s : Sealing) (sealed : ℕ → List ℕ) (path : Text) (wl : Workload)
    (before : fs.State) (d : Disk)
    → IsLawful fs
    → Succeeds s sealed
    → d.get_file ≡ (λ p. fs.get p (run fs (srd_increase c s path wl).0 before))
    → let hash = c.sha256 (leaf_hashs c sealed srd_rand_data_num 0) in
      ((srd_increase c s path wl).1 ≡ add_g path hash wl) × (is_bad_g c d path hash ≡ false)
srd_increase-validates fs c s sealed path wl before d lawful ok on_disk =
    let dir = get_g_path_with_hash path (c.sha256 (leaf_hashs c sealed srd_rand_data_num 0)) in
    (
      ap (λ r. r.1) (srd_increase-add_g c s sealed path wl ok),
      good_g c d path sealed (
          subst (λ get. Holds get c dir sealed) (sym on_disk)
            (srd_increase-Holds fs lawful c s sealed path wl ok before)),
    )
