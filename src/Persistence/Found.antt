-- ===== src/Persistence/Found.antt =====
-- What a reader finds after a write (the helpers of `persist_set` and `persist_get` in
-- src/enclave/persistence/Persistence.cpp).
use crust_sworker.Prelude.{
  ℕ, zero, suc, ◌%◌, ◌^◌, ◌≤◌, ◌<◌, ◌≡◌, refl, ap, sym, ◌∙◌, subst, true, false, List, [], ◌∷◌,
  some, none, arith, length, take, drop, min, take-min, drop-min, length-drop, length-replicate,
  replicate, inl, inr, Option-cases,
}
use crust_sworker.Prelude.Text.{Text, text_eq}
use crust_sworker.Status.{
  CrustStatus, crust_success, crust_persist_get_failed, ocall_store_threshold,
}
use crust_sworker.Database.{LevelDb, IsLawful, ocall_persist_set, database_set}
use crust_sworker.Persistence.{
  Memory, SumJson, got, piece_key, sum_key, set_parts, set_sum, del_pieces, del_old,
  inner_ocall_persist_get, compact, get_sealed, persist_del,
}
use crust_sworker.Persistence.PieceKeys.{piece_key_ne-sum_key, sum_key_ne-key}
use crust_sworker.Persistence.Pieces.{
  Holds, Holds-agree, Stored, Stored-nil, Stored-cons, get_parts-Holds,
  inner_ocall_persist_get_found, inner_ocall_persist_get_missing,
}

module _ (L : LevelDb) (lawful : IsLawful L) where
  -- A write that succeeds.
  pub ocall_persist_set-get :
      (k v : Text) (s : L.State)
      → (ocall_persist_set L k v s).0 ≡ crust_success
      → L.get k (ocall_persist_set L k v s).1 ≡ some v
  unfolding ocall_persist_set database_set
  ocall_persist_set-get k v s h = lawful.get-put k v s (ground arith)

  pub ocall_persist_set-other :
      (j k v : Text) (s : L.State)
      → text_eq j k ≡ false
      → L.get j (ocall_persist_set L k v s).1 ≡ L.get j s
  unfolding ocall_persist_set database_set
  ocall_persist_set-other j k v s h = lawful.get-put_other j k v s h

  module _ (key : Text) where
    -- One round of the loop.
    set_parts_step :
        (fuel i : ℕ) (rest : List ℕ) (s : L.State)
        → 0 < length rest
        → length rest < 2 ^ 32
        → (set_parts L (suc fuel) key i rest s).0 ≡ crust_success
        → let r = ocall_persist_set L (piece_key key i) (take ocall_store_threshold rest) s in
          (r.0 ≡ crust_success)
          × (set_parts L (suc fuel) key i rest s
              ≡ set_parts L fuel key (suc i) (drop ocall_store_threshold rest) r.1)
    unfolding set_parts
    set_parts_step fuel i [] s pos b h = absurd (omega arith)
    set_parts_step fuel i (x ∷ xs) s pos b h =
        let whole : length (x ∷ xs) % 2 ^ 32 ≡ length (x ∷ xs) = omega arith in
        let t =
          ap (λ n. take (min n ocall_store_threshold) (x ∷ xs)) whole
          ∙ take-min ocall_store_threshold (x ∷ xs) in
        let d =
          ap (λ n. drop (min n ocall_store_threshold) (x ∷ xs)) whole
          ∙ drop-min ocall_store_threshold (x ∷ xs) in
        ground (arith, t, d)

    pub set_parts-Stored :
        (fuel i : ℕ) (rest : List ℕ) (s : L.State)
        → length rest ≤ fuel
        → length rest < 2 ^ 32
        → (set_parts L fuel key i rest s).0 ≡ crust_success
        → Stored L key i rest s (set_parts L fuel key i rest s).1 (set_parts L fuel key i rest s).2
    unfolding set_parts
    set_parts-Stored zero i [] s f b h = Stored-nil L key i s
    set_parts-Stored zero i (x ∷ xs) s f b h = absurd (omega arith)
    set_parts-Stored (suc fuel) i [] s f b h = Stored-nil L key i s
    set_parts-Stored (suc fuel) i (x ∷ xs) s f b h =
        let rest : List ℕ = x ∷ xs in
        let part = take ocall_store_threshold rest in
        let st = set_parts_step fuel i rest s (omega arith) b h in
        let l = length-drop ocall_store_threshold rest in
        let s' = (ocall_persist_set L (piece_key key i) part s).1 in
        let later =
          set_parts-Stored fuel (suc i) (drop ocall_store_threshold rest) s' (omega (arith, l))
            (omega (arith, l)) (sym (ap (λ (o : CrustStatus × ℕ × L.State). o.0) st.1) ∙ h) in
        subst (λ (o : CrustStatus × ℕ × L.State). Stored L key i rest s o.1 o.2) (sym st.1)
          (Stored-cons L key i rest s s'
            (set_parts L fuel key (suc i) (drop ocall_store_threshold rest) s').1
            (set_parts L fuel key (suc i) (drop ocall_store_threshold rest) s').2 (omega arith)
            (ocall_persist_set-get (piece_key key i) part s st.0)
            (λ k ne. ocall_persist_set-other k (piece_key key i) part s ne) later)

-- All allocations of a read give a buffer.
pub record IsAmple (mem : Memory) : Type 0 where
  pub copies : (k : Text) → mem.copy k ≡ true
  pub whole : mem.whole ≡ true
  pub plain : mem.plain ≡ true

module _ (L : LevelDb) (lawful : IsLawful L) (J : SumJson) (mem : Memory) (ample : IsAmple mem)
    (key : Text) where
  -- After the pieces and their number are stored, they are found.
  pub Stored-found :
      (v : List ℕ) (s t : L.State) (j : ℕ)
      → Stored L key 0 v s j t
      → length v < 2 ^ 32
      → let r = set_sum L J key j (length v) t in
        r.0 ≡ crust_success
        → (inner_ocall_persist_get L mem (sum_key key) r.1
            ≡ (crust_success, compact (J.dump j (length v))))
          × Holds L key 0 (j % 2 ^ 32) v r.1
  unfolding set_sum
  Stored-found v s t j st b h =
      let r = set_sum L J key j (length v) t in
      let text = compact (J.dump j (length v)) in
      let count : st.count ≡ j % 2 ^ 32 = omega (arith, st.index, st.count_le) in
      (
        inner_ocall_persist_get_found L mem (sum_key key) text r.1 (ample.copies (sum_key key))
            (ocall_persist_set-get L lawful (sum_key key) text t h),
        subst (λ n. Holds L key 0 n v r.1) count
            (Holds-agree L key 0 st.count v t r.1
              (λ i.
                ocall_persist_set-other L lawful (piece_key key i) (sum_key key) text t
                  (piece_key_ne-sum_key key i))
              st.holds),
      )

  pub get_sealed-pieces :
      (v : List ℕ) (s : L.State) (j : ℕ)
      → inner_ocall_persist_get L mem (sum_key key) s
        ≡ (crust_success, compact (J.dump j (length v)))
      → Holds L key 0 (j % 2 ^ 32) v s
      → get_sealed L J mem key s ≡ got crust_success (some v)
  unfolding get_sealed
  get_sealed-pieces v s j r h =
      rw (get_sealed, r, J.load-dump j (length v), ample.whole)
        (get_parts-Holds L mem ample.copies key (j % 2 ^ 32) v (replicate (length v) 0) s h
          (length-replicate (length v) 0))

  pub get_sealed-one :
      (v : List ℕ) (s : L.State)
      → inner_ocall_persist_get L mem (sum_key key) s ≡ (crust_persist_get_failed, [])
      → inner_ocall_persist_get L mem key s ≡ (crust_success, v)
      → get_sealed L J mem key s ≡ got crust_success (some v)
  unfolding get_sealed
  get_sealed-one v s sum one = rw (get_sealed, sum, one, ample.whole) refl

  -- The old pieces are gone, where deletions succeed.
  del_old-sum :
      (s : L.State)
      → ((k : Text) (t : L.State) → (L.delete k t).0 ≡ true)
      → L.get (sum_key key) (del_old L J mem key s) ≡ none
  unfolding del_old persist_del
  del_old-sum s dels = elim (Option-cases (L.get (sum_key key) s)) [
    | inl e ↦ rw (del_old, inner_ocall_persist_get_missing L mem (sum_key key) s e) e
    | inr (w, e) ↦
        rw
          (
            del_old,
            inner_ocall_persist_get_found L mem (sum_key key) w s (ample.copies (sum_key key)) e,
          )
          (lawful.get-delete (sum_key key) (del_pieces L key 0 ((J.load w).0 % 2 ^ 32) s)
            (dels (sum_key key) (del_pieces L key 0 ((J.load w).0 % 2 ^ 32) s)))
  ]

  -- A value in one record, then.
  pub del_old-found :
      (v : List ℕ) (s : L.State)
      → ((k : Text) (t : L.State) → (L.delete k t).0 ≡ true)
      → let r = ocall_persist_set L key v (del_old L J mem key s) in
        r.0 ≡ crust_success
        → (inner_ocall_persist_get L mem (sum_key key) r.1 ≡ (crust_persist_get_failed, []))
          × (inner_ocall_persist_get L mem key r.1 ≡ (crust_success, v))
  del_old-found v s dels h =
      let t = del_old L J mem key s in
      let u = (ocall_persist_set L key v t).1 in
      (
        inner_ocall_persist_get_missing L mem (sum_key key) u (
            ocall_persist_set-other L lawful (sum_key key) key v t (sum_key_ne-key key)
            ∙ del_old-sum s dels),
        inner_ocall_persist_get_found L mem key v u (ample.copies key)
            (ocall_persist_set-get L lawful key v t h),
      )
