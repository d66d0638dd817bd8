-- ===== src/Persistence/Pieces.antt =====
-- The pieces of a value in the database (the loops of src/enclave/persistence/Persistence.cpp).
use crust_sworker.Prelude.{
  ℕ, zero, suc, ◌+◌, ◌≤◌, ◌<◌, ◌≡◌, refl, ap, sym, ◌∙◌, true, false, List, [], ◌∷◌, ◌++◌, none,
  some, arith, length, take, drop, length-take, length-drop, length-append, take-append,
  drop-append, take-append-drop, append_assoc,
}
use crust_sworker.Prelude.Text.{Text, text_eq}
use crust_sworker.Status.{crust_success, crust_persist_get_failed, ocall_store_threshold}
use crust_sworker.Database.{LevelDb, ocall_persist_get, database_get}
use crust_sworker.Persistence.{
  Memory, Got, got, piece_key, inner_ocall_persist_get, write_at, get_parts, get_parts_unsafe,
}
use crust_sworker.Persistence.PieceKeys.{piece_key_ne}

module _ (L : LevelDb) (key : Text) where
  -- The database has `rest` as `n` pieces from index `i` on.
  unfoldable pub Holds : ℕ → ℕ → List ℕ → L.State → Type 0
  Holds i zero rest s = rest ≡ []
  Holds i (suc n) rest s =
      (L.get (piece_key key i) s ≡ some (take ocall_store_threshold rest))
      × Holds (suc i) n (drop ocall_store_threshold rest) s

  -- A value that agrees on the pieces' keys holds them as well.
  pub Holds-agree :
      (i n : ℕ) (rest : List ℕ) (s t : L.State)
      → ((j : ℕ) → L.get (piece_key key j) t ≡ L.get (piece_key key j) s)
      → Holds i n rest s
      → Holds i n rest t
  unfolding Holds
  Holds-agree i zero rest s t same h = h
  Holds-agree i (suc n) rest s t same h =
      (same i ∙ h.0, Holds-agree (suc i) n (drop ocall_store_threshold rest) s t same h.1)

  -- What storing `rest` from index `i` on comes to, with `j` the next index.
  pub record Stored (i : ℕ) (rest : List ℕ) (s : L.State) (j : ℕ) (t : L.State) : Type 0 where
    pub count : ℕ
    pub index : j ≡ i + count
    pub count_le : count ≤ length rest
    pub holds : Holds i count rest t
    pub frame :
        (k : Text) → ((m : ℕ) → i ≤ m → text_eq k (piece_key key m) ≡ false) → L.get k t ≡ L.get k s

  pub Stored-nil : (i : ℕ) (s : L.State) → Stored i [] s i s
  unfolding Holds
  Stored-nil i s = record {
    count = 0;
    index = omega arith;
    count_le = omega arith;
    holds = refl;
    frame = λ k h. refl;
  }

  -- One more piece in front.
  pub Stored-cons :
      (i : ℕ) (rest : List ℕ) (s s' : L.State) (j : ℕ) (t : L.State)
      → 0 < length rest
      → L.get (piece_key key i) s' ≡ some (take ocall_store_threshold rest)
      → ((k : Text) → text_eq k (piece_key key i) ≡ false → L.get k s' ≡ L.get k s)
      → Stored (suc i) (drop ocall_store_threshold rest) s' j t
      → Stored i rest s j t
  unfolding Holds
  Stored-cons i rest s s' j t pos piece others r = record {
    count = suc r.count;
    index = omega (arith, r.index);
    count_le = omega (arith, r.count_le, length-drop ocall_store_threshold rest);
    holds =
        (r.frame (piece_key key i) (λ m le. piece_key_ne key i m (omega arith)) ∙ piece, r.holds);
    frame = λ k h. r.frame k (λ m le. h m (omega arith)) ∙ others k (h i (omega arith));
  }

ocall_persist_get_found :
    (L : LevelDb) (key v : Text) (s : L.State)
    → L.get key s ≡ some v
    → ocall_persist_get L key s ≡ (crust_success, v)
unfolding ocall_persist_get database_get
ocall_persist_get_found L key v s h = rw (database_get, h) refl

pub ocall_persist_get_missing :
    (L : LevelDb) (key : Text) (s : L.State)
    → L.get key s ≡ none
    → ocall_persist_get L key s ≡ (crust_persist_get_failed, [])
unfolding ocall_persist_get database_get
ocall_persist_get_missing L key s h = rw (database_get, h) refl

-- A key that is there is read.
pub inner_ocall_persist_get_found :
    (L : LevelDb) (mem : Memory) (key v : Text) (s : L.State)
    → mem.copy key ≡ true
    → L.get key s ≡ some v
    → inner_ocall_persist_get L mem key s ≡ (crust_success, v)
unfolding inner_ocall_persist_get
inner_ocall_persist_get_found L mem key v s copy h =
    rw (inner_ocall_persist_get, ocall_persist_get_found L key v s h, copy) refl

pub inner_ocall_persist_get_missing :
    (L : LevelDb) (mem : Memory) (key : Text) (s : L.State)
    → L.get key s ≡ none
    → inner_ocall_persist_get L mem key s ≡ (crust_persist_get_failed, [])
unfolding inner_ocall_persist_get
inner_ocall_persist_get_missing L mem key s h =
    rw (inner_ocall_persist_get, ocall_persist_get_missing L key s h) refl

pub length-zero : (xs : List ℕ) → length xs ≡ 0 → xs ≡ []
length-zero [] h = refl
length-zero (x ∷ xs) h = absurd (omega arith)

-- A write that fits, after the bytes written before.
pub write_at-append :
    (pre part z : List ℕ)
    → length part ≤ length z
    → write_at (length pre) part (pre ++ z) ≡ some (pre ++ part ++ drop (length part) z)
unfolding write_at
write_at-append pre part z h =
    let t = take-append (length pre) pre z refl in
    let d = drop-append (length pre) (length part) pre z refl in ground (arith, length-append pre z)

-- A loop that reads one piece in a round, and reads the pieces that are there to their end.
module _ (L : LevelDb) (key : Text) (loop : ℕ → ℕ → ℕ → List ℕ → L.State → Got)
    (done : (i offset : ℕ) (buffer : List ℕ) (s : L.State)
      → loop i zero offset buffer s ≡ got crust_success (some buffer))
    (round : (i n offset : ℕ) (part buffer buffer' : List ℕ) (s : L.State)
      → L.get (piece_key key i) s ≡ some part
      → write_at offset part buffer ≡ some buffer'
      → loop i (suc n) offset buffer s ≡ loop (suc i) n (offset + length part) buffer' s) where
  loop-Holds :
      (i n : ℕ) (rest pre z : List ℕ) (s : L.State)
      → Holds L key i n rest s
      → length z ≡ length rest
      → loop i n (length pre) (pre ++ z) s ≡ got crust_success (some (pre ++ rest))
  unfolding Holds
  loop-Holds i zero rest pre z s h e =
      done i (length pre) (pre ++ z) s
      ∙ ap (λ t. got crust_success (some (pre ++ t))) (length-zero z (e ∙ ap length h) ∙ sym h)
  loop-Holds i (suc n) rest pre z s h e =
      let part = take ocall_store_threshold rest in
      let l = length-take ocall_store_threshold rest in
      round i n (length pre) part (pre ++ z) (pre ++ part ++ drop (length part) z) s h.0
        (write_at-append pre part z (omega (arith, l)))
      ∙ rw (sym (length-append pre part)) (
          loop-Holds (suc i) n (drop ocall_store_threshold rest) (pre ++ part)
            (drop (length part) z) s h.1
            (omega (arith, l, length-drop (length part) z, length-drop ocall_store_threshold rest))
          ∙ ap (λ t. got crust_success (some t))
              (append_assoc pre part (drop ocall_store_threshold rest)
                ∙ ap (λ t. pre ++ t) (take-append-drop ocall_store_threshold rest)))

module _ (L : LevelDb) (mem : Memory) (copies : (k : Text) → mem.copy k ≡ true) (key : Text) where
  pub get_parts-Holds :
      (n : ℕ) (rest z : List ℕ) (s : L.State)
      → Holds L key 0 n rest s
      → length z ≡ length rest
      → get_parts L mem key 0 n 0 z s ≡ got crust_success (some rest)
  unfolding get_parts
  get_parts-Holds n rest z =
      loop-Holds L key (get_parts L mem key) (λ i offset buffer s. refl)
        (λ i n offset part buffer buffer' s h w.
          let e =
            inner_ocall_persist_get_found L mem (piece_key key i) part s (copies (piece_key key i))
              h in
          ground arith)
        0 n rest [] z

  pub get_parts_unsafe-Holds :
      (n : ℕ) (rest z : List ℕ) (s : L.State)
      → Holds L key 0 n rest s
      → length z ≡ length rest
      → get_parts_unsafe L mem key 0 n 0 z crust_success s ≡ got crust_success (some rest)
  unfolding get_parts_unsafe
  get_parts_unsafe-Holds n rest z =
      loop-Holds L key
        (λ i n offset buffer. get_parts_unsafe L mem key i n offset buffer crust_success)
        (λ i offset buffer s. refl)
        (λ i n offset part buffer buffer' s h w.
          let e =
            inner_ocall_persist_get_found L mem (piece_key key i) part s (copies (piece_key key i))
              h in
          ground arith)
        0 n rest [] z
