-- ===== src/Persistence/Sealed.antt =====
-- A sealed value in the database and back (`persist_set` and `persist_get` in
-- src/enclave/persistence/Persistence.cpp).
use crust_sworker.Prelude.{
  ℕ, ◌^◌, ◌<◌, ◌≤◌, ap, ◌≡◌, refl, sym, ◌∙◌, true, List, some, inl, inr, arith, length, Bool-cases,
  ltb, ltb→lt, ltb→le,
}
use crust_sworker.Prelude.Text.{Text}
use crust_sworker.Status.{CrustStatus, crust_success, ocall_store_threshold}
use crust_sworker.Crypto.{Sealer}
use crust_sworker.Database.{LevelDb, IsLawful, ocall_persist_set}
use crust_sworker.Persistence.{
  Memory, SumJson, got, del_old, set_sealed, get_sealed, seal_data_mrenclave, unseal_got, set_parts,
  set_sum, persist_set, persist_get,
}
use crust_sworker.Persistence.Found.{
  IsAmple, set_parts-Stored, Stored-found, get_sealed-pieces, get_sealed-one, del_old-found,
}

seal_data_mrenclave-success :
    (z : Sealer) (mem : Memory) (value : List ℕ)
    → (seal_data_mrenclave z mem value).0 ≡ crust_success
    → z.seal value ≡ some (seal_data_mrenclave z mem value).1
unfolding seal_data_mrenclave
seal_data_mrenclave-success z mem value h = ground arith

module _ (L : LevelDb) (lawful : IsLawful L) (J : SumJson) (mem : Memory) (ample : IsAmple mem)
    (key : Text) where
  set_sealed_large :
      (v : List ℕ) (s : L.State)
      → ocall_store_threshold < length v
      → (set_sealed L J mem key v s).0 ≡ crust_success
      → let p = set_parts L (length v) key 0 v s in
        (p.0 ≡ crust_success) × (set_sealed L J mem key v s ≡ set_sum L J key p.1 (length v) p.2)
  unfolding set_sealed
  set_sealed_large v s l h = ground arith

  set_sealed_small :
      (v : List ℕ) (s : L.State)
      → length v ≤ ocall_store_threshold
      → set_sealed L J mem key v s ≡ ocall_persist_set L key v (del_old L J mem key s)
  unfolding set_sealed
  set_sealed_small v s l = ground arith

  -- The sealed data is found again, whichever way it was stored.
  get_sealed-set_sealed :
      (v : List ℕ) (s : L.State)
      → ((k : Text) (t : L.State) → (L.delete k t).0 ≡ true)
      → length v < 2 ^ 32
      → (set_sealed L J mem key v s).0 ≡ crust_success
      → get_sealed L J mem key (set_sealed L J mem key v s).1 ≡ got crust_success (some v)
  get_sealed-set_sealed v s dels b h = elim (Bool-cases (ltb ocall_store_threshold (length v))) [
    | inl l ↦
        let p = set_parts L (length v) key 0 v s in
        let e = set_sealed_large v s (ltb→lt ocall_store_threshold (length v) l) h in
        let st = set_parts-Stored L lawful key (length v) 0 v s (omega arith) b e.0 in
        let f =
          Stored-found L lawful J mem ample key v s p.2 p.1 st b
            (ap (λ (o : CrustStatus × L.State). o.0) (sym e.1) ∙ h) in
        rw e.1 (
          get_sealed-pieces L lawful J mem ample key v (set_sum L J key p.1 (length v) p.2).1 p.1
            f.0 f.1)
    | inr l ↦
        let e = set_sealed_small v s (ltb→le ocall_store_threshold (length v) l) in
        let f =
          del_old-found L lawful J mem ample key v s dels
            (ap (λ (o : CrustStatus × L.State). o.0) (sym e) ∙ h) in
        rw e (
          get_sealed-one L lawful J mem ample key v
            (ocall_persist_set L key v (del_old L J mem key s)).1 f.0 f.1)
  ]

persist_set_sealed :
    (L : LevelDb) (J : SumJson) (z : Sealer) (mem : Memory) (key : Text) (value : List ℕ)
    (s : L.State)
    → (persist_set L J z mem key value s).0 ≡ crust_success
    → let r = seal_data_mrenclave z mem value in
      (r.0 ≡ crust_success) × (persist_set L J z mem key value s ≡ set_sealed L J mem key r.1 s)
unfolding persist_set
persist_set_sealed L J z mem key value s h = ground arith

unseal_got_sealed :
    (L : LevelDb) (z : Sealer) (mem : Memory) (sealed value : List ℕ)
    → mem.plain ≡ true
    → z.unseal sealed ≡ some value
    → unseal_got L z mem (got crust_success (some sealed)) ≡ got crust_success (some value)
unfolding unseal_got
unseal_got_sealed L z mem sealed value h u = rw (h, u) refl

-- A value that `persist_set` has stored with success is the value that `persist_get` reads, whether it is
-- stored in one record or in pieces, and whatever was stored under the key before; provided LevelDB
-- keeps what it documents, deletions succeed, and the allocations give buffers.
pub persist_get-persist_set :
    (L : LevelDb) (J : SumJson) (z : Sealer) (mem : Memory) (key : Text) (value : List ℕ)
    (s : L.State)
    → IsLawful L
    → IsAmple mem
    → ((k : Text) (t : L.State) → (L.delete k t).0 ≡ true)
    → let r = persist_set L J z mem key value s in
      r.0 ≡ crust_success → persist_get L J z mem key r.1 ≡ got crust_success (some value)
unfolding persist_get
persist_get-persist_set L J z mem key value s lawful ample dels h =
    let sealed = (seal_data_mrenclave z mem value).1 in
    let e = persist_set_sealed L J z mem key value s h in
    let q = seal_data_mrenclave-success z mem value e.0 in
    rw
      (
        e.1,
        get_sealed-set_sealed L lawful J mem ample key sealed s dels (z.length-seal value sealed q)
            (ap (λ (o : CrustStatus × L.State). o.0) (sym e.1) ∙ h),
      )
      (unseal_got_sealed L z mem sealed value ample.plain (z.unseal-seal value sealed q))
