-- ===== src/Validator/Space/Count.antt =====
-- The loop of `validate_srd` in src/enclave/validator/Validator.cpp collects each bad G of its sample.
use crust_sworker.Prelude.{
  ℕ, zero, suc, ◌+◌, ◌≡◌, refl, sym, ap, ◌∙◌, subst, true, false, ◌&&◌, List, [], ◌∷◌, some, arith,
  ◌==◌, All, Bool-cases, Option-cases, inl, inr, false≢true,
}
use crust_sworker.Prelude.Text.{Text, text_eq, text_eq_sound, text_eq_refl, text_lt}
use crust_sworker.Prelude.Map.{lookup, update}
use crust_sworker.Prelude.Sets.{set_insert, set_has}
use crust_sworker.Prelude.Sorted.{IsSorted, text_lt-text_eq, update-IsSorted}
use crust_sworker.Crypto.{Crypto}
use crust_sworker.Workload.{Workload}
use crust_sworker.Srd.{SrdMap}
use crust_sworker.Srd.Decrease.{DelMap, del_total, indexes_of}
use crust_sworker.Srd.Decrease.Choose.{del_total-insert, indexes_of-insert}
use crust_sworker.Validator.Space.{entry_at, g_at, is_bad_g, Disk, check_pair, check_pairs}
use crust_sworker.Validator.Space.Sample.{is_bad_pair, count_bad, Ascending, pair_lt}

pub entry_at-All :
    (P : Text × List (List ℕ) → Type 0) (i : ℕ) (m : SrdMap) (e : Text × List (List ℕ))
    → All P m
    → entry_at i m ≡ some e
    → P e
unfolding entry_at
entry_at-All P i [] e h q = cc
entry_at-All P zero (x ∷ m) e h q = subst P (ground arith) h.0
entry_at-All P (suc i) (x ∷ m) e h q = entry_at-All P i m e h.1 q

-- A path is at one number only.
text_lt_irrefl : (s : Text) → text_lt s s ≡ false
text_lt_irrefl s = elim (Bool-cases (text_lt s s)) [
  | inr e ↦ e
  | inl e ↦ absurd (false≢true (sym (text_lt-text_eq s s e) ∙ text_eq_refl s))
]

entry_at-injective :
    (i k : ℕ) (m : SrdMap) (path : Text) (hs gs : List (List ℕ))
    → IsSorted m
    → entry_at i m ≡ some (path, hs)
    → entry_at k m ≡ some (path, gs)
    → i ≡ k
unfolding entry_at
entry_at-injective i k [] path hs gs s p q = cc
entry_at-injective zero zero (x ∷ m) path hs gs s p q = refl
entry_at-injective zero (suc k) (x ∷ m) path hs gs s p q =
    let same : x ≡ (path, hs) = ground arith in
    let above = entry_at-All (λ e. text_lt x.0 e.0 ≡ true) k m (path, gs) s.0 q in
    absurd (
      false≢true (
        sym (text_lt_irrefl path)
        ∙ subst (λ (y : Text × List (List ℕ)). text_lt y.0 path ≡ true) same above))
entry_at-injective (suc i) zero (x ∷ m) path hs gs s p q =
    let same : x ≡ (path, gs) = ground arith in
    let above = entry_at-All (λ e. text_lt x.0 e.0 ≡ true) i m (path, hs) s.0 p in
    absurd (
      false≢true (
        sym (text_lt_irrefl path)
        ∙ subst (λ (y : Text × List (List ℕ)). text_lt y.0 path ≡ true) same above))
entry_at-injective (suc i) (suc k) (x ∷ m) path hs gs s p q =
    ap suc (entry_at-injective i k m path hs gs s.1 p q)

-- The pair's index is not collected yet.
abbrev IsFresh : SrdMap → DelMap → ℕ × ℕ → Type 0
IsFresh m del p =
    (path : Text) (hashs : List (List ℕ))
    → entry_at p.0 m ≡ some (path, hashs)
    → set_has p.1 (indexes_of path del) ≡ false

check_pair_bad :
    (c : Crypto) (d : Disk) (m : SrdMap) (i j : ℕ) (del : DelMap)
    → is_bad_pair c d m (i, j) ≡ true
    → (path : Text) × (hashs : List (List ℕ)) × (entry_at i m ≡ some (path, hashs))
      × (check_pair c d m (i, j) del ≡ update path [] (set_insert j) del)
unfolding check_pair is_bad_pair
check_pair_bad c d m i j del h = elim (Option-cases (entry_at i m)) [
  | inl q ↦ absurd (false≢true (ground arith))
  | inr ((path, hashs), q) ↦ elim (Option-cases (g_at j hashs)) [
    | inl r ↦ absurd (false≢true (ground arith))
    | inr (hash, r) ↦
        let b : is_bad_g c d path hash ≡ true = ground arith in
        (path, hashs, q, rw (check_pair, q, r, b) refl)
  ]
]

check_pair_good :
    (c : Crypto) (d : Disk) (m : SrdMap) (i j : ℕ) (del : DelMap)
    → is_bad_pair c d m (i, j) ≡ false
    → check_pair c d m (i, j) del ≡ del
unfolding check_pair is_bad_pair
check_pair_good c d m i j del h = elim (Option-cases (entry_at i m)) [
  | inl q ↦ rw (check_pair, q) refl
  | inr ((path, hashs), q) ↦ elim (Option-cases (g_at j hashs)) [
    | inl r ↦ rw (check_pair, q, r) refl
    | inr (hash, r) ↦
        let b : is_bad_g c d path hash ≡ false = ground arith in rw (check_pair, q, r, b) refl
  ]
]

insert-IsFresh :
    (m : SrdMap) (path : Text) (hashs : List (List ℕ)) (i j : ℕ) (del : DelMap) (ps : List (ℕ × ℕ))
    → IsSorted m
    → IsSorted del
    → entry_at i m ≡ some (path, hashs)
    → All (λ q. pair_lt (i, j) q ≡ true) ps
    → All (IsFresh m del) ps
    → All (IsFresh m (update path [] (set_insert j) del)) ps
insert-IsFresh m path hashs i j del [] s t q above h = tt
insert-IsFresh m path hashs i j del (p ∷ ps) s t q above h = (
  λ path' hashs' q'.
      let other : (text_eq path' path && (p.1 == j)) ≡ false =
        elim (Bool-cases (text_eq path' path)) [
          | inr e ↦ ground arith
          | inl e ↦
              let same = text_eq_sound path' path e in
              let at =
                entry_at-injective i p.0 m path hashs hashs' s q
                  (subst (λ x. entry_at p.0 m ≡ some (x, hashs')) same q') in
              let first = above.0 in ground arith
        ] in
      indexes_of-insert path path' j p.1 del t ∙ rw (other, h.0 path' hashs' q') refl,
  insert-IsFresh m path hashs i j del ps s t q above.1 h.1,
)

check_pairs_count :
    (c : Crypto) (disk : ℕ × ℕ → Disk) (ps : List (ℕ × ℕ)) (del : DelMap) (wl : Workload)
    → IsSorted wl.srd_path2hashs
    → IsSorted del
    → Ascending ps
    → All (IsFresh wl.srd_path2hashs del) ps
    → del_total (check_pairs c (λ w. w) disk ps del wl).0
      ≡ del_total del + count_bad c disk wl.srd_path2hashs ps
unfolding check_pairs
check_pairs_count c disk [] del wl s t asc fresh = omega arith
check_pairs_count c disk ((i, j) ∷ ps) del wl s t asc fresh =
    let m = wl.srd_path2hashs in
    elim (Bool-cases (is_bad_pair c (disk (i, j)) m (i, j))) [
      | inr b ↦
          ap (λ d. del_total (check_pairs c (λ w. w) disk ps d wl).0)
            (check_pair_good c (disk (i, j)) m i j del b)
          ∙ check_pairs_count c disk ps del wl s t asc.1 fresh.1
          ∙ rw b (omega arith)
      | inl b ↦
          let (path, hashs, q, e) = check_pair_bad c (disk (i, j)) m i j del b in
          let del' = update path [] (set_insert j) del in
          ap (λ d. del_total (check_pairs c (λ w. w) disk ps d wl).0) e
          ∙ check_pairs_count c disk ps del' wl s (update-IsSorted path [] (set_insert j) del t)
              asc.1 (insert-IsFresh m path hashs i j del ps s t q asc.0 fresh.1)
          ∙ rw b (omega (arith, del_total-insert path j del (fresh.0 path hashs q)))
    ]

All-IsFresh : (m : SrdMap) (ps : List (ℕ × ℕ)) → All (IsFresh m []) ps
unfolding set_has lookup
All-IsFresh m [] = tt
All-IsFresh m (p ∷ ps) = (λ path hashs q. refl, All-IsFresh m ps)

-- From the start, undisturbed by other threads.
pub check_pairs-count_bad :
    (c : Crypto) (disk : ℕ × ℕ → Disk) (ps : List (ℕ × ℕ)) (wl : Workload)
    → IsSorted wl.srd_path2hashs
    → Ascending ps
    → del_total (check_pairs c (λ w. w) disk ps [] wl).0 ≡ count_bad c disk wl.srd_path2hashs ps
unfolding del_total
check_pairs-count_bad c disk ps wl s asc =
    check_pairs_count c disk ps [] wl s tt asc (All-IsFresh wl.srd_path2hashs ps) ∙ omega arith
