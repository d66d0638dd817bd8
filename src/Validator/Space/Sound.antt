-- ===== src/Validator/Space/Sound.antt =====
-- What the check of a G asks of the disk (`validate_srd` in src/enclave/validator/Validator.cpp).
use crust_sworker.Prelude.{
  ℕ, ◌*◌, ◌%◌, ◌≡◌, ◌↔◌, refl, Bool-cases, Option-cases, inl, inr, true, false, List, ◌++◌, some,
  arith, take, drop,
}
use crust_sworker.Prelude.Text.{Text, codes, text_eq, text_eq_sound, text_eq_refl}
use crust_sworker.Status.{hash_length}
use crust_sworker.Crypto.{Crypto}
use crust_sworker.Hex.{hexstring_safe}
use crust_sworker.Srd.{get_m_hashs_file_path, get_leaf_path}
use crust_sworker.Srd.Increase.{srd_rand_data_num}
use crust_sworker.Validator.Space.{Disk, is_bad_dir, is_bad_g}

-- The hash in a list of hashes at an index.
abbrev hash_in : List ℕ → ℕ → List ℕ
hash_in hashs i = take hash_length (drop (i * hash_length) hashs)

-- A directory has a file of hashes; its SHA-256 is the hash of the G, and the leaf that is drawn is there
-- with the SHA-256 that is listed for it.
pub record IsSound (c : Crypto) (d : Disk) (dir : Text) (g_hash : List ℕ) : Type 0 where
  pub m_hashs : List ℕ
  pub leaf : List ℕ
  pub m_hashs_there : d.get_file (get_m_hashs_file_path dir) ≡ some m_hashs
  pub m_hashs_hash : g_hash ≡ c.sha256 m_hashs
  pub leaf_there :
      let i = d.rand_val % srd_rand_data_num in
      d.get_file (get_leaf_path dir i (hash_in m_hashs i)) ≡ some leaf
  pub leaf_hash : hash_in m_hashs (d.rand_val % srd_rand_data_num) ≡ c.sha256 leaf

good_dir-IsSound :
    (c : Crypto) (d : Disk) (dir : Text) (g_hash : List ℕ)
    → d.buffer ≡ true
    → is_bad_dir c d dir g_hash ≡ false
    → IsSound c d dir g_hash
unfolding is_bad_dir
good_dir-IsSound c d dir g_hash buf h =
    let i = d.rand_val % srd_rand_data_num in
    elim (Option-cases (d.get_file (get_m_hashs_file_path dir))) [
      | inl q ↦ absurd (ground arith)
      | inr (m_hashs, q) ↦ elim (Bool-cases (text_eq g_hash (c.sha256 m_hashs))) [
        | inr other ↦ absurd (ground arith)
        | inl same ↦ elim (Option-cases (d.get_file (get_leaf_path dir i (hash_in m_hashs i)))) [
          | inl r ↦ absurd (ground arith)
          | inr (leaf, r) ↦ elim (Bool-cases (text_eq (hash_in m_hashs i) (c.sha256 leaf))) [
            | inr other ↦ absurd (ground arith)
            | inl alike ↦ record {
              m_hashs = m_hashs;
              leaf = leaf;
              m_hashs_there = q;
              m_hashs_hash = text_eq_sound g_hash (c.sha256 m_hashs) same;
              leaf_there = r;
              leaf_hash = text_eq_sound (hash_in m_hashs i) (c.sha256 leaf) alike;
            }
          ]
        ]
      ]
    ]

IsSound-good_dir :
    (c : Crypto) (d : Disk) (dir : Text) (g_hash : List ℕ)
    → d.buffer ≡ true
    → IsSound c d dir g_hash
    → is_bad_dir c d dir g_hash ≡ false
unfolding is_bad_dir
IsSound-good_dir c d dir g_hash buf h =
    let i = d.rand_val % srd_rand_data_num in
    let same = text_eq_refl (c.sha256 h.m_hashs) in
    let alike = text_eq_refl (c.sha256 h.leaf) in
    rw (is_bad_dir, h.m_hashs_there, buf, h.m_hashs_hash, same, h.leaf_there, h.leaf_hash, alike)
      refl

-- With a buffer for the list of hashes, the validator's check does not find a G bad just when the directory
-- under its path with its hash for a name has a file of hashes whose SHA-256 is the hash of the G,
-- and has a leaf file at the index drawn, under the hash listed there, whose SHA-256 is that hash.
pub is_bad_g_iff :
    (c : Crypto) (d : Disk) (path : Text) (g_hash : List ℕ)
    → d.buffer ≡ true
    → (is_bad_g c d path g_hash ≡ false)
      ↔ IsSound c d (path ++ (codes "/" ++ hexstring_safe true g_hash)) g_hash
unfolding is_bad_g
is_bad_g_iff c d path g_hash buf =
    let dir = path ++ (codes "/" ++ hexstring_safe true g_hash) in
    (good_dir-IsSound c d dir g_hash buf, IsSound-good_dir c d dir g_hash buf)
