-- ===== src/Persistence/Unsafe.antt =====
-- A value in the database and back without sealing (`persist_set_unsafe` and `persist_get_unsafe` in
-- src/enclave/persistence/Persistence.cpp).
use crust_sworker.Prelude.{
  ℕ, zero, suc, ◌^◌, ◌≤◌, ◌<◌, ◌≡◌, sym, subst, true, List, [], ◌∷◌, some, arith, length, take,
  drop, take-min, drop-min, length-drop, length-replicate, replicate, Bool-cases, inl, inr, ltb,
  ltb→lt, ltb→le, refl, ◌%◌,
}
use crust_sworker.Prelude.Text.{Text}
use crust_sworker.Status.{crust_success, crust_persist_get_failed, ocall_store_threshold}
use crust_sworker.Database.{LevelDb, IsLawful, ocall_persist_set, database_set}
use crust_sworker.Persistence.{
  Memory, SumJson, got, piece_key, sum_key, compact, inner_ocall_persist_get, del_old,
  set_parts_unsafe, set_sum, persist_set_unsafe, persist_get_unsafe,
}
use crust_sworker.Persistence.Pieces.{
  Holds, Stored, Stored-nil, Stored-cons, get_parts_unsafe-Holds,
}
use crust_sworker.Persistence.Found.{
  IsAmple, ocall_persist_set-get, ocall_persist_set-other, Stored-found, del_old-found,
}

module _ (L : LevelDb) (lawful : IsLawful L)
    (puts : (k v : Text) (t : L.State) → (L.put k v t).0 ≡ true) (key : Text) where
  ocall_persist_set-success :
      (k v : Text) (s : L.State) → (ocall_persist_set L k v s).0 ≡ crust_success
  unfolding ocall_persist_set database_set
  ocall_persist_set-success k v s = rw (puts k v s) refl

  set_sum-success :
      (J : SumJson) (j n : ℕ) (s : L.State) → (set_sum L J key j n s).0 ≡ crust_success
  unfolding set_sum
  set_sum-success J j n s = ocall_persist_set-success (sum_key key) (compact (J.dump j n)) s

  set_parts_unsafe_step :
      (fuel i : ℕ) (rest : List ℕ) (s : L.State)
      → 0 < length rest
      → set_parts_unsafe L (suc fuel) key i rest s
        ≡ set_parts_unsafe L fuel key
            (suc i)
            (drop ocall_store_threshold rest)
            (ocall_persist_set L (piece_key key i) (take ocall_store_threshold rest) s).1
  unfolding set_parts_unsafe
  set_parts_unsafe_step fuel i [] s pos = absurd (omega arith)
  set_parts_unsafe_step fuel i (x ∷ xs) s pos =
      rw
        (
          set_parts_unsafe,
          take-min ocall_store_threshold (x ∷ xs),
          drop-min ocall_store_threshold (x ∷ xs),
        )
        refl

  set_parts_unsafe-Stored :
      (fuel i : ℕ) (rest : List ℕ) (s : L.State)
      → length rest ≤ fuel
      → let p = set_parts_unsafe L fuel key i rest s in Stored L key i rest s p.0 p.1
  unfolding set_parts_unsafe
  set_parts_unsafe-Stored zero i [] s f = Stored-nil L key i s
  set_parts_unsafe-Stored zero i (x ∷ xs) s f = absurd (omega arith)
  set_parts_unsafe-Stored (suc fuel) i [] s f = Stored-nil L key i s
  set_parts_unsafe-Stored (suc fuel) i (x ∷ xs) s f =
      let rest : List ℕ = x ∷ xs in
      let part = take ocall_store_threshold rest in
      let l = length-drop ocall_store_threshold rest in
      let s' = (ocall_persist_set L (piece_key key i) part s).1 in
      let p = set_parts_unsafe L fuel key (suc i) (drop ocall_store_threshold rest) s' in
      subst (λ (o : ℕ × L.State). Stored L key i rest s o.0 o.1)
        (sym (set_parts_unsafe_step fuel i rest s (omega arith)))
        (Stored-cons L key i rest s s' p.0 p.1 (omega arith)
          (ocall_persist_set-get L lawful (piece_key key i) part s
            (ocall_persist_set-success (piece_key key i) part s))
          (λ k ne. ocall_persist_set-other L lawful k (piece_key key i) part s ne)
          (set_parts_unsafe-Stored fuel (suc i) (drop ocall_store_threshold rest) s'
            (omega (arith, l))))

module _ (L : LevelDb) (lawful : IsLawful L) (J : SumJson) (mem : Memory) (ample : IsAmple mem)
    (key : Text) where
  persist_get_unsafe-pieces :
      (v : List ℕ) (s : L.State) (j : ℕ)
      → inner_ocall_persist_get L mem (sum_key key) s
        ≡ (crust_success, compact (J.dump j (length v)))
      → Holds L key 0 (j % 2 ^ 32) v s
      → persist_get_unsafe L J mem key s ≡ got crust_success (some v)
  unfolding persist_get_unsafe
  persist_get_unsafe-pieces v s j r h =
      rw (persist_get_unsafe, r, J.load-dump j (length v), ample.whole)
        (get_parts_unsafe-Holds L mem ample.copies key (j % 2 ^ 32) v (replicate (length v) 0) s h
          (length-replicate (length v) 0))

  persist_get_unsafe-one :
      (v : List ℕ) (s : L.State)
      → inner_ocall_persist_get L mem (sum_key key) s ≡ (crust_persist_get_failed, [])
      → inner_ocall_persist_get L mem key s ≡ (crust_success, v)
      → persist_get_unsafe L J mem key s ≡ got crust_success (some v)
  unfolding persist_get_unsafe
  persist_get_unsafe-one v s sum one = rw (persist_get_unsafe, sum, one, ample.whole) refl

  persist_set_unsafe_large :
      (v : List ℕ) (s : L.State)
      → ocall_store_threshold < length v
      → let p = set_parts_unsafe L (length v) key 0 v s in
        persist_set_unsafe L J mem key v s ≡ set_sum L J key p.0 (length v) p.1
  unfolding persist_set_unsafe
  persist_set_unsafe_large v s l = ground arith

  persist_set_unsafe_small :
      (v : List ℕ) (s : L.State)
      → length v ≤ ocall_store_threshold
      → persist_set_unsafe L J mem key v s ≡ ocall_persist_set L key v (del_old L J mem key s)
  unfolding persist_set_unsafe
  persist_set_unsafe_small v s l = ground arith

-- Any value below 4 gigabytes that `persist_set_unsafe` stores is the value that `persist_get_unsafe`
-- reads, with both calls ending in success, whatever was stored under the key before; provided LevelDB
-- keeps what it documents, writes and deletions succeed, and the allocations give buffers.
pub persist_get_unsafe-persist_set_unsafe :
    (L : LevelDb) (J : SumJson) (mem : Memory) (key : Text) (value : List ℕ) (s : L.State)
    → IsLawful L
    → IsAmple mem
    → ((k v : Text) (t : L.State) → (L.put k v t).0 ≡ true)
    → ((k : Text) (t : L.State) → (L.delete k t).0 ≡ true)
    → length value < 2 ^ 32
    → let r = persist_set_unsafe L J mem key value s in
      (r.0 ≡ crust_success) × (persist_get_unsafe L J mem key r.1 ≡ got crust_success (some value))
persist_get_unsafe-persist_set_unsafe L J mem key v s lawful ample puts dels b =
    elim (Bool-cases (ltb ocall_store_threshold (length v))) [
      | inl l ↦
          let p = set_parts_unsafe L (length v) key 0 v s in
          let e =
            persist_set_unsafe_large L lawful J mem ample key v s
              (ltb→lt ocall_store_threshold (length v) l) in
          let ok = set_sum-success L lawful puts key J p.0 (length v) p.1 in
          let st = set_parts_unsafe-Stored L lawful puts key (length v) 0 v s (omega arith) in
          let f = Stored-found L lawful J mem ample key v s p.1 p.0 st b ok in
          rw e (
            ok,
            persist_get_unsafe-pieces L lawful J mem ample key v
                (set_sum L J key p.0 (length v) p.1).1 p.0 f.0 f.1,
          )
      | inr l ↦
          let e =
            persist_set_unsafe_small L lawful J mem ample key v s
              (ltb→le ocall_store_threshold (length v) l) in
          let ok = ocall_persist_set-success L lawful puts key key v (del_old L J mem key s) in
          let f = del_old-found L lawful J mem ample key v s dels ok in
          rw e (
            ok,
            persist_get_unsafe-one L lawful J mem ample key v
                (ocall_persist_set L key v (del_old L J mem key s)).1 f.0 f.1,
          )
    ]
