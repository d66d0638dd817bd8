-- ===== src/Storage/Seal/Leaves.antt =====
-- The leaves of a tree before and after sealing (`_storage_seal_file` in
-- src/enclave/storage/Storage.cpp).
use crust_sworker.Prelude.{
  ℕ, ◌+◌, ◌==◌, ◌≡◌, ◌≢◌, refl, sym, ap, ap₂, ◌∙◌, Bool-cases, inl, inr, true, false, List, [], ◌∷◌,
  ◌++◌, some, map, if◌then◌else◌, take, arith,
}
use crust_sworker.Prelude.Text.{Text}
use crust_sworker.Status.{hash_length}
use crust_sworker.Crypto.{Crypto}
use crust_sworker.Hex.{hexstring_safe, hex_string_to_bytes}
use crust_sworker.Merkle.{Tree, node, Trees, none_left, link}
use crust_sworker.Storage.Seal.{Files}
use crust_sworker.Storage.Seal.Blocks.{IsSealed, block, parent, AreSealed, no_links, links_from}

-- The hashes of the leaves, from left to right; a node that says it has no links is a leaf.
unfoldable mutual
  pub leaves : Tree → List Text
  leaves (node hash size links_num links) =
      let below = links_leaves links in if links_num == 0 then hash ∷ [] else below

  pub links_leaves : Trees → List Text
  links_leaves none_left = []
  links_leaves (link t ts) = leaves t ++ links_leaves ts

-- The texts of the hashes of blocks.
abbrev pub hashs_of : Crypto → List (List ℕ) → List Text
hashs_of c = map (λ b. hexstring_safe true (c.sha256 b))

hashs_of-append :
    (c : Crypto) (xs ys : List (List ℕ)) → hashs_of c (xs ++ ys) ≡ hashs_of c xs ++ hashs_of c ys
hashs_of-append c [] ys = refl
hashs_of-append c (x ∷ xs) ys =
    ap (λ r. hexstring_safe true (c.sha256 x) ∷ r) (hashs_of-append c xs ys)

not_zero : (n : ℕ) → n ≢ 0 → (n == 0) ≡ false
not_zero n more = elim (Bool-cases (n == 0)) [ inl e ↦ absurd (more (ground arith)) | inr e ↦ e ]

module _ (c : Crypto) (F : Files) where
  -- Blocks that are, one after the other from a number on, the sealings of data with given hashes.
  pub data SealsAll : ℕ → List Text → List (List ℕ) → ℕ → Type 0 where
    no_blocks : (bn : ℕ) → SealsAll bn [] [] bn
    one_more :
        (hash : Text) (hashs : List Text) (file_data org sealed : List ℕ) (blocks : List (List ℕ))
        (bn bn' : ℕ)
        → hex_string_to_bytes true hash ≡ some org
        → take hash_length org ≡ c.sha256 file_data
        → F.seal bn file_data ≡ some sealed
        → SealsAll (bn + 1) hashs blocks bn'
        → SealsAll bn (hash ∷ hashs) (sealed ∷ blocks) bn'

  SealsAll-append :
      (bn bn' bn'' : ℕ) (hs ks : List Text) (xs ys : List (List ℕ))
      → SealsAll bn hs xs bn'
      → SealsAll bn' ks ys bn''
      → SealsAll bn (hs ++ ks) (xs ++ ys) bn''
  SealsAll-append _ _ bn'' _ ks _ ys (no_blocks bn) k = k
  SealsAll-append _ _ bn'' _ ks _ ys (one_more hash hs file_data org sealed xs bn bn' b d e h) k =
      one_more hash (hs ++ ks) file_data org sealed (xs ++ ys) bn bn'' b d e
        (SealsAll-append (bn + 1) bn' bn'' hs ks xs ys h k)

  -- The blocks of the leaves `hs`, which become the leaves `ks`.
  SealedLeaves : ℕ → List Text → List Text → ℕ → Type 0
  SealedLeaves bn hs ks bn' =
      (blocks : List (List ℕ)) × SealsAll bn hs blocks bn' × (ks ≡ hashs_of c blocks)

  mutual
    unfolding SealedLeaves leaves

    node_leaves :
        (path : Text) (bn : ℕ) (s : F.State) (t t' : Tree) (bn' : ℕ) (s' : F.State)
        → IsSealed c F path bn s t t' bn' s'
        → SealedLeaves bn (leaves t) (leaves t') bn'
    node_leaves path _ _ _ _ _ _ (block hash size links bn data_ org sealed s s' r a b d e w) = (
      sealed ∷ [],
      one_more hash [] data_ org sealed [] bn (bn + 1) b d e (no_blocks (bn + 1)),
      refl,
    )
    node_leaves path _ _ _ _ _ _ (parent hash size n links links' hashs bn bn' s s' more ds) =
        rw (not_zero n more) (link_leaves path bn s links links' hashs bn' s' ds)

    link_leaves :
        (path : Text) (bn : ℕ) (s : F.State) (ts ts' : Trees) (hashs : List ℕ) (bn' : ℕ)
        (s' : F.State)
        → AreSealed c F path bn s ts ts' hashs bn' s'
        → SealedLeaves bn (links_leaves ts) (links_leaves ts') bn'
    link_leaves path _ _ _ _ _ _ _ (no_links bn s) = ([], no_blocks bn, refl)
    link_leaves path _ _ _ _ _ _ _
          (links_from t t' ts ts' bytes hashs bn bn' bn'' s s' s'' d same ds) =
        let (xs, sealed, made) = node_leaves path bn s t t' bn' s' d in
        let (ys, later, made') = link_leaves path bn' s' ts ts' hashs bn'' s'' ds in
        (
          xs ++ ys,
          SealsAll-append bn bn' bn'' (leaves t) (links_leaves ts) xs ys sealed later,
          ap₂ (λ a b. a ++ b) made made' ∙ sym (hashs_of-append c xs ys),
        )

  pub IsSealed-leaves :
      (path : Text) (bn : ℕ) (s : F.State) (t t' : Tree) (bn' : ℕ) (s' : F.State)
      → IsSealed c F path bn s t t' bn' s'
      → (blocks : List (List ℕ)) × SealsAll bn (leaves t) blocks bn'
        × (leaves t' ≡ hashs_of c blocks)
  unfolding SealedLeaves
  IsSealed-leaves = node_leaves
