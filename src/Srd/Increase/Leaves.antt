-- ===== src/Srd/Increase/Leaves.antt =====
-- The hashes of the leaves of a sealed G (`srd_increase` in src/enclave/srd/Srd.cpp).
use crust_sworker.Prelude.{
  ℕ, zero, suc, ◌+◌, ◌*◌, ◌<◌, ◌≡◌, refl, ap, ◌∙◌, true, List, [], ◌∷◌, ◌++◌, Option, some, arith,
  take, drop, take-append, drop-append,
}
use crust_sworker.Prelude.Text.{Text}
use crust_sworker.Status.{crust_success, hash_length}
use crust_sworker.Crypto.{Crypto}
use crust_sworker.Workload.{Workload}
use crust_sworker.Srd.{get_g_path}
use crust_sworker.Srd.Increase.{
  Sealing, create_dir, block_of, prepend, fill_leaves, add_g, finish_g, srd_increase,
  srd_rand_data_num,
}

-- The hashes of the leaves from `i` on, where sealing gives `sealed`.
unfoldable pub leaf_hashs : Crypto → (ℕ → List ℕ) → ℕ → ℕ → List ℕ
leaf_hashs c sealed zero i = []
leaf_hashs c sealed (suc k) i = c.sha256 (block_of (sealed i)) ++ leaf_hashs c sealed k (i + 1)

fill_leaves-leaf_hashs :
    (c : Crypto) (seal : ℕ → Option (List ℕ)) (sealed : ℕ → List ℕ) (g_path : Text) (k i : ℕ)
    → ((j : ℕ) → seal j ≡ some (sealed j))
    → (fill_leaves c seal g_path k i).0 ≡ some (leaf_hashs c sealed k i)
unfolding fill_leaves leaf_hashs prepend
fill_leaves-leaf_hashs c seal sealed g_path zero i h = refl
fill_leaves-leaf_hashs c seal sealed g_path (suc k) i h =
    rw (fill_leaves, h i, fill_leaves-leaf_hashs c seal sealed g_path k (i + 1) h) refl

-- The hash that a validator reads at index `j`.
pub leaf_hashs-at :
    (c : Crypto) (sealed : ℕ → List ℕ) (k i j : ℕ)
    → j < k
    → take hash_length (drop (j * hash_length) (leaf_hashs c sealed k i))
      ≡ c.sha256 (block_of (sealed (i + j)))
unfolding leaf_hashs
leaf_hashs-at c sealed zero i j h = absurd (omega arith)
leaf_hashs-at c sealed (suc k) i zero h =
    take-append 32 (c.sha256 (block_of (sealed i))) (leaf_hashs c sealed k (i + 1))
      (c.length-sha256 _)
    ∙ ap (λ n. c.sha256 (block_of (sealed n))) (omega arith)
leaf_hashs-at c sealed (suc k) i (suc j) h =
    ap (λ n. take 32 (drop n (c.sha256 (block_of (sealed i)) ++ leaf_hashs c sealed k (i + 1))))
      (omega arith)
    ∙ ap (take 32) (
        drop-append 32 (j * 32) (c.sha256 (block_of (sealed i))) (leaf_hashs c sealed k (i + 1))
          (c.length-sha256 _))
    ∙ leaf_hashs-at c sealed k (i + 1) j (omega arith)
    ∙ ap (λ n. c.sha256 (block_of (sealed n))) (omega arith)

-- A call with memory, a directory and all its sealings.
pub record Succeeds (s : Sealing) (sealed : ℕ → List ℕ) : Type 0 where
  pub has_base : s.base_buffer ≡ true
  pub has_dir : s.dir_status ≡ crust_success
  pub has_hashs : s.hashs_buffer ≡ true
  pub has_hash : s.hash_buffer ≡ true
  pub has_hex : s.hex_buffer ≡ true
  pub seals : (i : ℕ) → s.seal i ≡ some (sealed i)

pub srd_increase-add_g :
    (c : Crypto) (s : Sealing) (sealed : ℕ → List ℕ) (path : Text) (wl : Workload)
    → Succeeds s sealed
    → let g_path = get_g_path path s.now_index in
      let hashs = leaf_hashs c sealed srd_rand_data_num 0 in
      srd_increase c s path wl ≡ (
        create_dir g_path
            ∷ ((fill_leaves c s.seal g_path srd_rand_data_num 0).1
                ++ (finish_g c s path g_path hashs wl).0),
        add_g path (c.sha256 hashs) wl,
      )
unfolding srd_increase finish_g
srd_increase-add_g c s sealed path wl ok =
    rw
      (
        ok.has_base,
        ok.has_dir,
        ok.has_hashs,
        fill_leaves-leaf_hashs c s.seal sealed (get_g_path path s.now_index) srd_rand_data_num 0
            ok.seals,
        ok.has_hash,
        ok.has_hex,
      )
      refl
