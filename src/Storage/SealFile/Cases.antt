-- ===== src/Storage/SealFile/Cases.antt =====
-- The ends of `storage_seal_file` in src/enclave/storage/Storage.cpp.
use crust_sworker.Prelude.{
  ℕ, ◌+◌, ◌<◌, ◌≡◌, ◌≢◌, ◌⊎◌, inl, inr, refl, ◌==◌, leb, Bool, Bool-cases, Option-cases, true,
  false, List, [], ◌++◌, Option, some, length, arith,
}
use crust_sworker.Prelude.Text.{Text, codes}
use crust_sworker.Status.{CrustStatus, crust_success, file_number_upper_limit}
use crust_sworker.Crypto.{Crypto}
use crust_sworker.Hex.{hex_string_to_bytes}
use crust_sworker.Database.{LevelDb}
use crust_sworker.Persistence.{SumJson, Memory, persist_set_unsafe}
use crust_sworker.Merkle.{Tree, hash_of, validate_merkletree_json}
use crust_sworker.Workload.{Workload, FileEntry}
use crust_sworker.Storage.{register_file}
use crust_sworker.Storage.Seal.{Files, Sealed, seal_node}
use crust_sworker.Storage.Seal.Blocks.{hex_string_to_bytes_alloc}
use crust_sworker.Storage.SealFile.{
  size_of, new_entry, SealOutcome, seal_failed, store_entry, enter_file, finish_seal,
  storage_seal_file, before_hash,
}

fails : (status : CrustStatus) → (status == crust_success) ≡ false → status ≢ crust_success
fails status e h = ground arith

succeeds : (status : CrustStatus) → (status == crust_success) ≡ true → status ≡ crust_success
succeeds status e = ground arith

module _ (c : Crypto) (F : Files) (L : LevelDb) (J : SumJson) (mem : Memory)
    (dump_meta : Text → ℕ → Text) (alloc : Text → Bool) where
  abbrev pub Outcome : Type 0
  Outcome = SealOutcome c F L J mem dump_meta alloc

  -- No entry is made, or this one.
  Enters : FileEntry → Workload → Outcome → Type 0
  Enters e wl o =
      ((o.status ≢ crust_success) × (o.wl ≡ wl))
      ⊎ ((o.status ≡ crust_success) × (o.wl ≡ register_file e wl))

  store_entry-Enters :
      (new_hash org_hash text : Text) (e : FileEntry) (s : F.State) (db : L.State) (wl : Workload)
      → Enters e wl (store_entry c F L J mem dump_meta alloc new_hash org_hash text e s db wl)
  unfolding store_entry seal_failed Enters
  store_entry-Enters new_hash org_hash text e s db wl =
      let tree = persist_set_unsafe L J mem new_hash text db in
      let meta =
        persist_set_unsafe L J mem (new_hash ++ codes "_meta") (dump_meta org_hash e.old_size)
          tree.1 in
      elim (Bool-cases (tree.0 == crust_success)) [
        | inr p ↦ rw p (inl (fails tree.0 p, refl))
        | inl p ↦ elim (Bool-cases (meta.0 == crust_success)) [
          | inr q ↦ rw (p, q) (inl (fails meta.0 q, refl))
          | inl q ↦ rw (p, q) (inr (succeeds meta.0 q, refl))
        ]
      ]

  -- What a call makes of the workload: nothing where it fails; where it succeeds, a new unconfirmed
  -- file with the hash of the sealed tree, and the old hash and size of the given one.
  unfoldable pub Registers : Tree → Sealed c F → Workload → Outcome → Type 0
  Registers t r wl o =
      ((o.status ≢ crust_success) × (o.wl ≡ wl))
      ⊎ ((o.status ≡ crust_success)
          × (r.status ≡ crust_success)
          × (hash : List ℕ) × (old_hash : List ℕ) × (hex_string_to_bytes true (hash_of r.tree_json)
              ≡ some hash)
          × (hex_string_to_bytes true (hash_of t) ≡ some old_hash)
          × (o.wl ≡ register_file (new_entry hash old_hash r.node_size (size_of t) r.block_num) wl))

  enter_file-Registers :
      (t : Tree) (r : Sealed c F) (alloc' alloc'' : Bool) (s : F.State) (db : L.State)
      (wl : Workload)
      → r.status ≡ crust_success
      → Registers t r wl (
          enter_file c F L J mem dump_meta alloc t r
            (hex_string_to_bytes alloc' (hash_of r.tree_json))
            (hex_string_to_bytes alloc'' (hash_of t))
            s
            db
            wl)
  unfolding Registers enter_file seal_failed Enters
  enter_file-Registers t r a b s db wl ok =
      elim (Option-cases (hex_string_to_bytes a (hash_of r.tree_json))) [
        | inl e ↦ rw e (inl (omega arith, refl))
        | inr (new_u, e) ↦ elim (Option-cases (hex_string_to_bytes b (hash_of t))) [
          | inl f ↦ rw (e, f) (inl (omega arith, refl))
          | inr (old_u, f) ↦
              let entry = new_entry new_u old_u r.node_size (size_of t) r.block_num in
              rw (e, f)
                (elim (store_entry-Enters (hash_of r.tree_json) (hash_of t) r.text entry s db wl) [
                  | inl (p, q) ↦ inl (p, q)
                  | inr (p, q) ↦ inr (
                    p,
                    ok,
                    new_u,
                    old_u,
                    hex_string_to_bytes_alloc a (hash_of r.tree_json) new_u e,
                    hex_string_to_bytes_alloc b (hash_of t) old_u f,
                    q,
                  )
                ])
        ]
      ]

  finish_seal-Registers :
      (t : Tree) (path : Text) (r : Sealed c F) (db : L.State) (wl : Workload)
      → Registers t r wl (finish_seal c F L J mem dump_meta alloc t path r db wl)
  unfolding Registers finish_seal seal_failed
  finish_seal-Registers t path r db wl =
      let w = F.rename_dir path (before_hash path (hash_of t) ++ hash_of r.tree_json) r.files in
      elim (Bool-cases (r.status == crust_success)) [
        | inr e ↦ rw e (inl (fails r.status e, refl))
        | inl e ↦ elim (Bool-cases (w.0 == crust_success)) [
          | inr f ↦ rw (e, f) (inl (fails w.0 f, refl))
          | inl f ↦
              rw (e, f)
                (enter_file-Registers t r (alloc (hash_of r.tree_json)) (alloc (hash_of t)) w.1 db
                  wl (succeeds r.status e))
        ]
      ]

-- A call of storage_seal_file either fails and leaves the workload as it was, or it succeeds; then there
-- were fewer files than the limit, validate_merkletree_json and _storage_seal_file succeeded on the tree,
-- and the workload is the given one after a new unconfirmed file is registered, which counts it in the
-- statistics: with the hash and the size that _storage_seal_file left, the hash and size of the given
-- tree, and the number of blocks that it counted.
pub storage_seal_file-cases :
    (c : Crypto) (F : Files) (L : LevelDb) (J : SumJson) (mem : Memory)
    (dump_meta : Text → ℕ → Text) (alloc : Text → Bool) (tree : Option Tree) (path : Text)
    (s : F.State) (db : L.State) (wl : Workload)
    → let o = storage_seal_file c F L J mem dump_meta alloc tree path s db wl in
      ((o.status ≢ crust_success) × (o.wl ≡ wl))
      ⊎ ((length wl.checked_files + length wl.new_files < file_number_upper_limit)
          × (t : Tree) × (tree ≡ some t)
          × (validate_merkletree_json c F.buffers t ≡ crust_success)
          × Registers c F L J mem dump_meta alloc t (seal_node c F t path [] 0 0 s) wl o)
unfolding storage_seal_file seal_failed
storage_seal_file-cases c F L J mem dump_meta alloc tree path s db wl =
    let n = length wl.checked_files + length wl.new_files in
    elim (Bool-cases (leb file_number_upper_limit n)) [
      | inl e ↦ rw e (inl (omega arith, refl))
      | inr e ↦ elim (Option-cases tree) [
        | inl none_given ↦ rw (e, none_given) (inl (omega arith, refl))
        | inr (t, given) ↦
            elim (Bool-cases (validate_merkletree_json c F.buffers t == crust_success)) [
              | inr v ↦
                  rw (e, given, v) (inl (fails (validate_merkletree_json c F.buffers t) v, refl))
              | inl v ↦
                  rw (e, given, v)
                    (inr (
                      below n e,
                      t,
                      refl,
                      succeeds (validate_merkletree_json c F.buffers t) v,
                      finish_seal-Registers c F L J mem dump_meta alloc t path
                          (seal_node c F t path [] 0 0 s) db wl,
                    ))
            ]
      ]
    ]
  where
    below : (n : ℕ) → leb file_number_upper_limit n ≡ false → n < file_number_upper_limit
    below n e = ground arith
