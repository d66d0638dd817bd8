-- ===== src/Merkle/Valid.antt =====
-- What a valid Merkle tree is, and `validate_merkletree_json` of src/enclave/utils/EUtils.cpp.
use crust_sworker.Prelude.{
  ℕ, ◌==◌, ◌≡◌, ◌⊎◌, ◌↔◌, inl, inr, refl, ap, sym, ◌∙◌, Bool-cases, Option-cases, true, some, List,
  [], ◌++◌, arith,
}
use crust_sworker.Prelude.Text.{Text, text_eq, text_eq_sound, text_eq_refl}
use crust_sworker.Status.{crust_success}
use crust_sworker.Crypto.{Crypto}
use crust_sworker.Merkle.{
  Tree, node, Trees, none_left, link, links_size, hash_of, Buffers, hash_bytes, check_parent,
  prepend_hash, validate_merkletree_json, children_hashs_json,
}

-- What the validator asks of a tree. A node whose number of links is 0 is accepted as it is, whether it
-- has links or not. Another one has as many links as it says, all of them accepted, and its hash is that
-- of the hashes of its children, one after the other.
unfoldable mutual
  pub IsMerkle : Crypto → Tree → Type 0
  IsMerkle c (node hash size n links) =
      (n ≡ 0)
      ⊎ ((n ≡ links_size links)
          × ((hashs : List ℕ) × Children c links hashs
              × (hash_bytes true hash ≡ some (c.sha256 hashs))))

  pub Children : Crypto → Trees → List ℕ → Type 0
  Children c none_left hashs = hashs ≡ []
  Children c (link t ts) hashs =
      IsMerkle c t
      × ((first : List ℕ) × (rest : List ℕ) × (hash_bytes true (hash_of t) ≡ some first)
          × Children c ts rest
          × (hashs ≡ first ++ rest))

-- Every allocation gives a buffer.
pub record AllBuffers (b : Buffers) : Type 0 where
  pub children : (h : Text) → b.children h ≡ true
  pub as_child : (h : Text) → b.as_child h ≡ true
  pub as_parent : (h : Text) → b.as_parent h ≡ true

module _ (c : Crypto) (b : Buffers) (all : AllBuffers b) where
  check_parent-intro :
      (hash : Text) (hashs : List ℕ)
      → hash_bytes true hash ≡ some (c.sha256 hashs)
      → check_parent c b hash hashs ≡ crust_success
  unfolding check_parent
  check_parent-intro hash hashs h =
      rw (check_parent, all.as_parent hash, h, text_eq_refl (c.sha256 hashs)) refl

  check_parent-elim :
      (hash : Text) (hashs : List ℕ)
      → check_parent c b hash hashs ≡ crust_success
      → hash_bytes true hash ≡ some (c.sha256 hashs)
  unfolding check_parent
  check_parent-elim hash hashs h =
      let p = all.as_parent hash in
      elim (Option-cases (hash_bytes true hash)) [
        | inl e ↦ ground arith
        | inr (own, e) ↦ elim (Bool-cases (text_eq own (c.sha256 hashs))) [
          | inl same ↦ e ∙ ap some (text_eq_sound own (c.sha256 hashs) same)
          | inr other ↦ ground arith
        ]
      ]

  -- One node, from its children.
  node-intro :
      (hash : Text) (size : ℕ) (links : Trees) (hashs : List ℕ)
      → children_hashs_json c b links ≡ some hashs
      → hash_bytes true hash ≡ some (c.sha256 hashs)
      → validate_merkletree_json c b (node hash size (links_size links) links) ≡ crust_success
  unfolding validate_merkletree_json
  node-intro hash size links hashs h e =
      let q = all.children hash in let s = check_parent-intro hash hashs e in ground arith

  node-elim :
      (hash : Text) (size n : ℕ) (links : Trees)
      → validate_merkletree_json c b (node hash size n links) ≡ crust_success
      → (n ≡ 0)
        ⊎ ((n ≡ links_size links)
            × ((hashs : List ℕ) × (children_hashs_json c b links ≡ some hashs)
                × (hash_bytes true hash ≡ some (c.sha256 hashs))))
  unfolding validate_merkletree_json
  node-elim hash size n links h = elim (Option-cases (children_hashs_json c b links)) [
    | inl none_made ↦ ground arith
    | inr (hashs, made) ↦ elim (Bool-cases (n == 0)) [
      | inl zero ↦ inl (ground arith)
      | inr more ↦
          let q = all.children hash in
          let e : n ≡ links_size links = ground arith in
          let p : check_parent c b hash hashs ≡ crust_success = ground arith in
          inr (e, (hashs, made, check_parent-elim hash hashs p))
    ]
  ]

  none_left-elim : (hashs : List ℕ) → children_hashs_json c b none_left ≡ some hashs → hashs ≡ []
  unfolding validate_merkletree_json
  none_left-elim hashs h = ground arith

  none_left-intro : (hashs : List ℕ) → hashs ≡ [] → children_hashs_json c b none_left ≡ some hashs
  unfolding validate_merkletree_json
  none_left-intro hashs h = ap some (sym h)

  leaf-intro :
      (hash : Text) (size n : ℕ) (links : Trees)
      → n ≡ 0
      → validate_merkletree_json c b (node hash size n links) ≡ crust_success
  unfolding validate_merkletree_json
  leaf-intro hash size n links h = ground arith

  link-intro :
      (t : Tree) (ts : Trees) (first rest : List ℕ)
      → validate_merkletree_json c b t ≡ crust_success
      → hash_bytes true (hash_of t) ≡ some first
      → children_hashs_json c b ts ≡ some rest
      → children_hashs_json c b (link t ts) ≡ some (first ++ rest)
  unfolding validate_merkletree_json prepend_hash
  link-intro t ts first rest v f r = rw (v, all.as_child (hash_of t), f, r) refl

  link-elim :
      (t : Tree) (ts : Trees) (hashs : List ℕ)
      → children_hashs_json c b (link t ts) ≡ some hashs
      → (validate_merkletree_json c b t ≡ crust_success)
        × ((first : List ℕ) × (rest : List ℕ) × (hash_bytes true (hash_of t) ≡ some first)
            × (children_hashs_json c b ts ≡ some rest)
            × (hashs ≡ first ++ rest))
  unfolding validate_merkletree_json prepend_hash
  link-elim t ts hashs h =
      let a = all.as_child (hash_of t) in
      elim (Option-cases (hash_bytes true (hash_of t))) [
        | inl e ↦ ground arith
        | inr (first, e) ↦ elim (Option-cases (children_hashs_json c b ts)) [
          | inl r ↦ ground arith
          | inr (rest, r) ↦ (ground arith, (first, rest, e, r, ground arith))
        ]
      ]

  mutual
    unfolding IsMerkle

    sound : (t : Tree) → validate_merkletree_json c b t ≡ crust_success → IsMerkle c t
    sound (node hash size n links) h = elim (node-elim hash size n links h) [
      | inl e ↦ inl e
      | inr (e, (hashs, made, own)) ↦ inr (e, (hashs, links_sound links hashs made, own))
    ]

    links_sound :
        (ts : Trees) (hashs : List ℕ)
        → children_hashs_json c b ts ≡ some hashs
        → Children c ts hashs
    links_sound none_left hashs h = none_left-elim hashs h
    links_sound (link t ts) hashs h =
        let (v, (first, rest, f, r, e)) = link-elim t ts hashs h in
        (sound t v, (first, rest, f, links_sound ts rest r, e))

  mutual
    unfolding IsMerkle

    complete : (t : Tree) → IsMerkle c t → validate_merkletree_json c b t ≡ crust_success
    complete (node hash size n links) h = elim h [
      | inl e ↦ leaf-intro hash size n links e
      | inr (e, (hashs, made, own)) ↦
          rw e (node-intro hash size links hashs (links_complete links hashs made) own)
    ]

    links_complete :
        (ts : Trees) (hashs : List ℕ)
        → Children c ts hashs
        → children_hashs_json c b ts ≡ some hashs
    links_complete none_left hashs h = none_left-intro hashs h
    links_complete (link t ts) hashs h =
        let (m, (first, rest, f, r, e)) = h in
        link-intro t ts first rest (complete t m) f (links_complete ts rest r) ∙ ap some (sym e)

-- Where the allocations give buffers, validate_merkletree_json succeeds on a tree just when the root, if its
-- number of links is not 0, has as many links as that, the same holds of each of them in turn, and its hash
-- is the SHA-256 of the hashes of its children one after the other. A node whose number of links is 0, or
-- is not given, is accepted as it is, also where it has links, and what is below it is not looked at.
pub validate_merkletree_json_iff :
    (c : Crypto) (b : Buffers) (t : Tree)
    → AllBuffers b
    → (validate_merkletree_json c b t ≡ crust_success) ↔ IsMerkle c t
validate_merkletree_json_iff c b t all = (sound c b all t, complete c b all t)
