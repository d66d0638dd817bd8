-- ===== src/Srd/Increase/Saved.antt =====
-- What the calls of `srd_increase` in src/enclave/srd/Srd.cpp leave on the disk.
use crust_sworker.Prelude.{
  ℕ, zero, suc, ◌+◌, ◌==◌, ◌<◌, ◌≤◌, ◌≡◌, refl, sym, ap, ◌∙◌, Bool-cases, inl, inr, false, List,
  ◌∷◌, ◌++◌, Option, some, arith,
}
use crust_sworker.Prelude.Text.{Text, codes, text_eq}
use crust_sworker.Prelude.Sorted.{text_eq_sym}
use crust_sworker.Crypto.{Crypto}
use crust_sworker.Workload.{Workload}
use crust_sworker.Srd.{get_m_hashs_file_path, get_leaf_path, get_g_path, get_g_path_with_hash}
use crust_sworker.Srd.Increase.{
  save_file, block_of, fill_leaves, Sealing, finish_g, srd_increase, srd_rand_data_num,
}
use crust_sworker.Srd.Increase.Leaves.{leaf_hashs, Succeeds, srd_increase-add_g}
use crust_sworker.Srd.Increase.Disk.{
  FileSystem, IsLawful, run, run-append, leaf_name, get_leaf_path_eq, get_m_hashs_file_path_eq,
  get_leaf_path_ne, m_hashs_ne-leaf,
}

module _ (fs : FileSystem) (lawful : IsLawful fs) (c : Crypto) (seal : ℕ → Option (List ℕ))
    (sealed : ℕ → List ℕ) (seals : (j : ℕ) → seal j ≡ some (sealed j)) (g_path : Text) where
  leaf_path : ℕ → Text
  leaf_path j = get_leaf_path g_path j (c.sha256 (block_of (sealed j)))

  -- The calls of one round more.
  fill_leaves_calls :
      (k i : ℕ)
      → (fill_leaves c seal g_path (suc k) i).1
        ≡ save_file (leaf_path i) (block_of (sealed i)) ∷ (fill_leaves c seal g_path k (i + 1)).1
  unfolding fill_leaves leaf_path
  fill_leaves_calls k i = rw (fill_leaves, seals i) refl

  fill_leaves-other :
      (k i : ℕ) (p : Text) (s : fs.State)
      → ((j : ℕ) → i ≤ j → text_eq p (leaf_path j) ≡ false)
      → fs.get p (run fs (fill_leaves c seal g_path k i).1 s) ≡ fs.get p s
  unfolding fill_leaves
  fill_leaves-other zero i p s ne = refl
  fill_leaves-other (suc k) i p s ne =
      ap (λ calls. fs.get p (run fs calls s)) (fill_leaves_calls k i)
      ∙ fill_leaves-other k (i + 1) p (fs.save (leaf_path i) (block_of (sealed i)) s)
          (λ j above. ne j (omega arith))
      ∙ lawful.get-save_other p (leaf_path i) (block_of (sealed i)) s (ne i (omega arith))

  fill_leaves-saved :
      (k i j : ℕ) (s : fs.State)
      → i ≤ j
      → j < i + k
      → fs.get (leaf_path j) (run fs (fill_leaves c seal g_path k i).1 s)
        ≡ some (block_of (sealed j))
  unfolding leaf_path
  fill_leaves-saved zero i j s low high = absurd (omega arith)
  fill_leaves-saved (suc k) i j s low high =
      let s' = fs.save (leaf_path i) (block_of (sealed i)) s in
      ap (λ calls. fs.get (leaf_path j) (run fs calls s)) (fill_leaves_calls k i)
      ∙ elim (Bool-cases (i == j)) [
        | inr ne ↦ fill_leaves-saved k (i + 1) j s' (later i j low ne) (omega arith)
        | inl e ↦
            let same : i ≡ j = ground arith in
            ap (λ n. fs.get (leaf_path n) (run fs (fill_leaves c seal g_path k (i + 1)).1 s'))
              (sym same)
            ∙ fill_leaves-other k (i + 1) (leaf_path i) s' (apart i)
            ∙ lawful.get-save (leaf_path i) (block_of (sealed i)) s
            ∙ ap (λ n. some (block_of (sealed n))) same
      ]
    where
      later : (a b : ℕ) → a ≤ b → (a == b) ≡ false → a + 1 ≤ b
      later a b low ne = ground arith

      apart : (a b : ℕ) → a + 1 ≤ b → text_eq (leaf_path a) (leaf_path b) ≡ false
      apart a b above =
          get_leaf_path_ne g_path a b (c.sha256 (block_of (sealed a)))
            (c.sha256 (block_of (sealed b))) (λ e. omega arith)

-- The disk has the hashes of the leaves and each leaf in a directory.
pub record Holds (get : Text → Option (List ℕ)) (c : Crypto) (dir : Text) (sealed : ℕ → List ℕ)
    : Type 0 where
  pub m_hashs_there :
      get (get_m_hashs_file_path dir) ≡ some (leaf_hashs c sealed srd_rand_data_num 0)
  pub leaf_there :
      (i : ℕ)
      → i < srd_rand_data_num
      → get (get_leaf_path dir i (c.sha256 (block_of (sealed i)))) ≡ some (block_of (sealed i))

module _ (fs : FileSystem) (lawful : IsLawful fs) (c : Crypto) (s : Sealing) (sealed : ℕ → List ℕ)
    (path : Text) (wl : Workload) (ok : Succeeds s sealed) (before : fs.State) where
  g_path : Text
  g_path = get_g_path path s.now_index

  hashs : List ℕ
  hashs = leaf_hashs c sealed srd_rand_data_num 0

  new_path : Text
  new_path = get_g_path_with_hash path (c.sha256 hashs)

  -- The disk before the new directory has its name.
  filled : fs.State
  filled =
      fs.save (get_m_hashs_file_path g_path) hashs
        (run fs (fill_leaves c s.seal g_path srd_rand_data_num 0).1 (fs.create g_path before))

  after : fs.State
  after = run fs (srd_increase c s path wl).0 before

  after_eq : after ≡ fs.rename g_path new_path filled
  unfolding after filled g_path hashs new_path finish_g
  after_eq =
      ap (λ r. run fs r.0 before) (srd_increase-add_g c s sealed path wl ok)
      ∙ run-append fs (fill_leaves c s.seal g_path srd_rand_data_num 0).1
          (finish_g c s path g_path hashs wl).0 (fs.create g_path before)

  -- A file of the old directory is found in the new one.
  moved :
      (name : Text)
      → fs.get ((new_path ++ codes "/") ++ name) after
        ≡ fs.get ((g_path ++ codes "/") ++ name) filled
  moved name =
      ap (fs.get ((new_path ++ codes "/") ++ name)) after_eq
      ∙ lawful.get-rename g_path new_path name filled

  pub srd_increase-Holds :
      Holds
        (λ p. fs.get p (run fs (srd_increase c s path wl).0 before))
        c
        (get_g_path_with_hash path (c.sha256 (leaf_hashs c sealed srd_rand_data_num 0)))
        sealed
  unfolding after filled g_path hashs new_path leaf_path
  srd_increase-Holds = record {
    m_hashs_there =
        ap (λ p. fs.get p after) (get_m_hashs_file_path_eq new_path)
        ∙ moved (codes "m-hashs.bin")
        ∙ ap (λ p. fs.get p filled) (sym (get_m_hashs_file_path_eq g_path))
        ∙ lawful.get-save (get_m_hashs_file_path g_path) hashs _;
    leaf_there = λ i below.
        let hash = c.sha256 (block_of (sealed i)) in
        ap (λ p. fs.get p after) (get_leaf_path_eq new_path i hash)
        ∙ moved (leaf_name i hash)
        ∙ ap (λ p. fs.get p filled) (sym (get_leaf_path_eq g_path i hash))
        ∙ lawful.get-save_other (get_leaf_path g_path i hash) (get_m_hashs_file_path g_path) hashs _
            (text_eq_sym (get_leaf_path g_path i hash) (get_m_hashs_file_path g_path)
              ∙ m_hashs_ne-leaf g_path i hash)
        ∙ fill_leaves-saved fs lawful c s.seal sealed ok.seals g_path srd_rand_data_num 0 i
            (fs.create g_path before) (omega arith) (omega (arith, below));
  }
