-- ===== src/Workload/Restore/Space.antt =====
-- The space after it is restored (`restore_srd` in src/enclave/workload/Workload.cpp).
use crust_sworker.Prelude.{
  ℕ, ◌<◌, ◌≡◌, refl, sym, ap, ◌∙◌, Bool, true, false, Bool-cases, inl, inr, List, [], ◌∷◌, ◌++◌,
  some, arith, length, All, All-append, AreBytes, append_assoc, append-nil, map, false≢true,
}
use crust_sworker.Prelude.Int.{ℤ, pos}
use crust_sworker.Prelude.Text.{Text, text_eq_refl, text_lt}
use crust_sworker.Prelude.Map.{Map, update}
use crust_sworker.Prelude.Sorted.{IsSorted, text_lt_trans, text_lt-text_eq, text_eq_sym}
use crust_sworker.Status.{crust_success}
use crust_sworker.Hex.{hexstring_safe, hex_string_to_bytes}
use crust_sworker.Hex.Codec.{hex_string_to_bytes-hexstring_safe}
use crust_sworker.Workload.{Workload}
use crust_sworker.Workload.Restore.{
  push_hash, restore_hashs, restore_paths, restore_assigned, restore_srd,
}

text_lt_asym : (s t : Text) → text_lt s t ≡ true → text_lt t s ≡ false
text_lt_asym s t h = elim (Bool-cases (text_lt t s)) [
  | inr e ↦ e
  | inl e ↦
      absurd (false≢true (sym (text_lt-text_eq s s (text_lt_trans s t s h e)) ∙ text_eq_refl s))
]

-- All keys are below `k`.
abbrev Below {ℓ} : {V : Type ℓ} → Text → Map V → Type 0
Below k m = All (λ e. text_lt e.0 k ≡ true) m

-- A write at a key above those of `m` is in what follows `m`.
update_after {ℓ} :
    {V : Type ℓ} (k : Text) (d : V) (f : V → V) (m rest : Map V)
    → Below k m
    → update k d f (m ++ rest) ≡ m ++ update k d f rest
unfolding update
update_after k d f [] rest h = refl
update_after k d f ((j, v) ∷ m) rest h =
    rw (text_eq_sym k j, text_lt-text_eq j k h.0, text_lt_asym j k h.0)
      (ap (λ r. (j, v) ∷ r) (update_after k d f m rest h.1))

update_at {ℓ} :
    {V : Type ℓ} (k : Text) (d v : V) (f : V → V) → update k d f ((k, v) ∷ []) ≡ (k, f v) ∷ []
unfolding update
update_at k d v f = rw (text_eq_refl k) refl

-- The hashes of each path as the texts they are stored as, and their number.
abbrev pub hexs : List (List ℕ) → List Text
hexs = map (hexstring_safe true)

abbrev pub texts_of : Map (List (List ℕ)) → Map (List Text)
texts_of = map (λ e. (e.0, hexs e.1))

abbrev pub counts_of : Map (List (List ℕ)) → Map ℤ
counts_of = map (λ e. (e.0, pos (length e.1)))

-- A path with hashes, all of them bytes.
abbrev pub AreHashes : List (List ℕ) → Type 0
AreHashes = All (λ g. (0 < length g) × AreBytes g)

abbrev pub IsRestorable : Text × List (List ℕ) → Type 0
IsRestorable e = (0 < length e.1) × AreHashes e.1

-- The keys stay above those before them.
Below-next {ℓ κ} :
    {V : Type ℓ} {W : Type κ} (p : Text) (w : W) (acc : Map W) (m : Map V)
    → All (λ (e : Text × V). Below e.0 acc) m
    → All (λ (e : Text × V). text_lt p e.0 ≡ true) m
    → All (λ (e : Text × V). Below e.0 (acc ++ ((p, w) ∷ []))) m
Below-next p w acc [] h k = tt
Below-next p w acc (e ∷ m) h k = (
  All-append (λ x. text_lt x.0 e.0 ≡ true) acc ((p, w) ∷ []) h.0 (k.0, tt),
  Below-next p w acc m h.1 k.1,
)

module _ (alloc : Text → Bool) (allocs : (t : Text) → alloc t ≡ true) where
  read_hash :
      (g : List ℕ)
      → (0 < length g) × AreBytes g
      → hex_string_to_bytes (alloc (hexstring_safe true g)) (hexstring_safe true g) ≡ some g
  read_hash g h =
      ap (λ b. hex_string_to_bytes b (hexstring_safe true g)) (allocs (hexstring_safe true g))
      ∙ hex_string_to_bytes-hexstring_safe g h.0 h.1

  push_hash-last :
      (path : Text) (g : List ℕ) (acc : Map (List (List ℕ))) (done : List (List ℕ))
      → Below path acc
      → push_hash path g (acc ++ ((path, done) ∷ [])) ≡ acc ++ ((path, done ++ (g ∷ [])) ∷ [])
  unfolding push_hash
  push_hash-last path g acc done below =
      update_after path [] _ acc ((path, done) ∷ []) below
      ∙ ap (λ r. acc ++ r) (update_at path [] done _)

  push_hash-new :
      (path : Text) (g : List ℕ) (acc : Map (List (List ℕ)))
      → Below path acc
      → push_hash path g acc ≡ acc ++ ((path, g ∷ []) ∷ [])
  unfolding push_hash update
  push_hash-new path g acc below =
      ap (push_hash path g) (sym (append-nil acc))
      ∙ update_after path [] (λ gs. gs ++ (g ∷ [])) acc [] below

  restore_hashs_more :
      (path : Text) (gs : List (List ℕ)) (acc : Map (List (List ℕ))) (done : List (List ℕ))
      → Below path acc
      → AreHashes gs
      → restore_hashs alloc path (hexs gs) (acc ++ ((path, done) ∷ []))
        ≡ some (acc ++ ((path, done ++ gs) ∷ []))
  unfolding restore_hashs
  restore_hashs_more path [] acc done below h =
      ap (λ d. some (acc ++ ((path, d) ∷ []))) (sym (append-nil done))
  restore_hashs_more path (g ∷ gs) acc done below h =
      rw (restore_hashs, read_hash g h.0, push_hash-last path g acc done below)
        (restore_hashs_more path gs acc (done ++ (g ∷ [])) below h.1
          ∙ ap (λ d. some (acc ++ ((path, d) ∷ []))) (append_assoc done (g ∷ []) gs))

  restore_hashs_new :
      (path : Text) (gs : List (List ℕ)) (acc : Map (List (List ℕ)))
      → Below path acc
      → IsRestorable (path, gs)
      → restore_hashs alloc path (hexs gs) acc ≡ some (acc ++ ((path, gs) ∷ []))
  unfolding restore_hashs
  restore_hashs_new path [] acc below h = absurd (omega (arith, h.0))
  restore_hashs_new path (g ∷ gs) acc below (n, h) =
      rw (restore_hashs, read_hash g h.0, push_hash-new path g acc below)
        (restore_hashs_more path gs acc (g ∷ []) below h.1)

  restore_paths_texts :
      (m acc : Map (List (List ℕ)))
      → IsSorted m
      → All IsRestorable m
      → All (λ (e : Text × List (List ℕ)). Below e.0 acc) m
      → restore_paths alloc (texts_of m) acc ≡ some (acc ++ m)
  unfolding restore_paths
  restore_paths_texts [] acc sorted ok below = ap some (sym (append-nil acc))
  restore_paths_texts ((path, gs) ∷ m) acc sorted ok below =
      rw (restore_paths, restore_hashs_new path gs acc below.0 ok.0)
        (restore_paths_texts m (acc ++ ((path, gs) ∷ [])) sorted.1 ok.1
            (Below-next path gs acc m below.1 sorted.0)
          ∙ ap some (append_assoc acc ((path, gs) ∷ []) m))

restore_assigned_counts :
    (m : Map (List (List ℕ))) (acc : Map ℤ)
    → IsSorted m
    → All (λ (e : Text × List (List ℕ)). Below e.0 acc) m
    → restore_assigned m acc ≡ acc ++ counts_of m
unfolding restore_assigned update
restore_assigned_counts [] acc sorted below = sym (append-nil acc)
restore_assigned_counts ((path, gs) ∷ m) acc sorted below =
    let n = pos (length gs) in
    let added : update path (pos 0) (λ k. n) acc ≡ acc ++ ((path, n) ∷ []) =
      ap (update path (pos 0) (λ k. n)) (sym (append-nil acc))
      ∙ update_after path (pos 0) (λ k. n) acc [] below.0 in
    rw added (
      restore_assigned_counts m (acc ++ ((path, n) ∷ [])) sorted.1
        (Below-next path n acc m below.1 sorted.0)
      ∙ append_assoc acc ((path, n) ∷ []) (counts_of m))

All-Below : (m : Map (List (List ℕ))) → All (λ (e : Text × List (List ℕ)). Below {V = ℕ} e.0 []) m
All-Below [] = tt
All-Below (e ∷ m) = (tt, All-Below m)

-- Restoring the space from the hexadecimal texts of hashes, by path, gives the map of these hashes back,
-- and, from a workload with no assigned space, assigns to each path the number of its hashes; provided
-- the paths are in increasing order, each has a hash, no hash is empty, and the allocations give buffers.
pub restore_srd-texts_of :
    (alloc : Text → Bool) (m : Map (List (List ℕ))) (wl : Workload)
    → ((t : Text) → alloc t ≡ true)
    → IsSorted m
    → All IsRestorable m
    → wl.srd_info ≡ []
    → restore_srd alloc (texts_of m) wl
      ≡ (crust_success, record wl { srd_path2hashs = m; srd_info = counts_of m })
unfolding restore_srd
restore_srd-texts_of alloc m wl allocs sorted ok none_assigned =
    rw
      (
        restore_srd,
        restore_paths_texts alloc allocs m [] sorted ok (All-Below m),
        none_assigned,
        restore_assigned_counts m [] sorted (All-Below m),
      )
      refl
