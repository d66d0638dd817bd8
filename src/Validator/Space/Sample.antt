-- ===== src/Validator/Space/Sample.antt =====
-- The sample of `validate_srd` in src/enclave/validator/Validator.cpp has no G twice, and each bad G of
-- it is counted once.
use crust_sworker.Prelude.{
  ℕ, ◌+◌, ◌<◌, ◌≡◌, subst, Bool, true, false, ◌&&◌, ◌||◌, List, [], ◌∷◌, ◌++◌, none, some, arith,
  ltb, ◌==◌, if◌then◌else◌, take, All, All-append, sum_by, Bool-cases, Option-cases, inl, inr,
}
use crust_sworker.Crypto.{Crypto}
use crust_sworker.Srd.{SrdMap, srd_total}
use crust_sworker.Validator.Space.{
  entry_at, g_at, is_bad_g, Disk, pair_insert, random_pair, random_pairs, path_pairs, all_pairs,
  chosen_pairs, srd_validate_num,
}

-- Whether a pair of the sample stands for a G that is there, and whose checks on the disk fail.
unfoldable pub is_bad_pair : Crypto → Disk → SrdMap → ℕ × ℕ → Bool
is_bad_pair c d m (i, j) = elim (entry_at i m) [
  | none ↦ false
  | some (path, hashs) ↦ elim (g_at j hashs) [ none ↦ false | some hash ↦ is_bad_g c d path hash ]
]

-- The number of bad G in a sample.
abbrev pub count_bad : Crypto → (ℕ × ℕ → Disk) → SrdMap → List (ℕ × ℕ) → ℕ
count_bad c disk m = sum_by (λ p. if is_bad_pair c (disk p) m p then 1 else 0)

-- The order of the pairs in the set.
abbrev pub pair_lt : ℕ × ℕ → ℕ × ℕ → Bool
pair_lt p q = ltb p.0 q.0 || ((p.0 == q.0) && ltb p.1 q.1)

abbrev pub Ascending : List (ℕ × ℕ) → Type 0
Ascending [] = Unit
Ascending (p ∷ ps) = All (λ q. pair_lt p q ≡ true) ps × Ascending ps

All-pair_lt :
    (p q : ℕ × ℕ) (ps : List (ℕ × ℕ))
    → pair_lt p q ≡ true
    → All (λ r. pair_lt q r ≡ true) ps
    → All (λ r. pair_lt p r ≡ true) ps
All-pair_lt p q [] l h = tt
All-pair_lt p q (r ∷ ps) l h = (ground arith, All-pair_lt p q ps l h.1)

All-pair_insert :
    (P : ℕ × ℕ → Type 0) (p : ℕ × ℕ) (qs : List (ℕ × ℕ)) → P p → All P qs → All P (pair_insert p qs)
unfolding pair_insert
All-pair_insert P p [] k h = (k, tt)
All-pair_insert P p (q ∷ qs) k h = elim (Bool-cases ((p.0 == q.0) && (p.1 == q.1))) [
  | inl e ↦ rw e h
  | inr e ↦ elim (Bool-cases (pair_lt p q)) [
    | inl l ↦ rw (e, l) (k, h)
    | inr l ↦ rw (e, l) (h.0, All-pair_insert P p qs k h.1)
  ]
]

pair_insert-Ascending :
    (p : ℕ × ℕ) (qs : List (ℕ × ℕ)) → Ascending qs → Ascending (pair_insert p qs)
unfolding pair_insert
pair_insert-Ascending p [] h = (tt, tt)
pair_insert-Ascending p (q ∷ qs) (above, h) = elim (Bool-cases ((p.0 == q.0) && (p.1 == q.1))) [
  | inl e ↦ rw e (above, h)
  | inr e ↦ elim (Bool-cases (pair_lt p q)) [
    | inl l ↦ rw (e, l) ((l, All-pair_lt p q qs l above), (above, h))
    | inr l ↦
        rw (e, l)
          (
            All-pair_insert (λ r. pair_lt q r ≡ true) p qs (ground arith) above,
            pair_insert-Ascending p qs h,
          )
  ]
]

random_pairs-Ascending :
    (rs : List (ℕ × ℕ)) (m : SrdMap) (s pairs : List (ℕ × ℕ))
    → Ascending s
    → random_pairs rs m s ≡ some pairs
    → Ascending pairs
unfolding random_pairs
random_pairs-Ascending [] m s pairs h e = subst Ascending (ground arith) h
random_pairs-Ascending (r ∷ rs) m s pairs h e = elim (Option-cases (random_pair r m)) [
  | inl q ↦ ground arith
  | inr (p, q) ↦
      random_pairs-Ascending rs m (pair_insert p s) pairs (pair_insert-Ascending p s h)
        (ground arith)
]

-- The pairs of a path, and of the paths from a number on.
path_pairs-above :
    (i j k : ℕ) (hashs : List (List ℕ))
    → j < k
    → All (λ q. pair_lt (i, j) q ≡ true) (path_pairs i k hashs)
unfolding path_pairs
path_pairs-above i j k [] l = tt
path_pairs-above i j k (h ∷ hashs) l =
    (ground arith, path_pairs-above i j (k + 1) hashs (omega arith))

all_pairs-above :
    (i j k : ℕ) (m : SrdMap) → i < k → All (λ q. pair_lt (i, j) q ≡ true) (all_pairs k m)
unfolding all_pairs
all_pairs-above i j k [] l = tt
all_pairs-above i j k ((path, hashs) ∷ m) l =
    All-append (λ q. pair_lt (i, j) q ≡ true) (path_pairs k 0 hashs) (all_pairs (k + 1) m)
      (path_above k 0 hashs l) (all_pairs-above i j (k + 1) m (omega arith))
  where
    path_above :
        (k n : ℕ) (hs : List (List ℕ))
        → i < k
        → All (λ q. pair_lt (i, j) q ≡ true) (path_pairs k n hs)
    path_above k n [] l = tt
    path_above k n (h ∷ hs) l = (ground arith, path_above k (n + 1) hs l)

path_pairs-Ascending :
    (i j : ℕ) (hashs : List (List ℕ)) (rest : List (ℕ × ℕ))
    → ((n : ℕ) → All (λ q. pair_lt (i, n) q ≡ true) rest)
    → Ascending rest
    → Ascending (path_pairs i j hashs ++ rest)
unfolding path_pairs
path_pairs-Ascending i j [] rest above h = h
path_pairs-Ascending i j (x ∷ hashs) rest above h = (
  All-append (λ q. pair_lt (i, j) q ≡ true) (path_pairs i (j + 1) hashs) rest
      (path_pairs-above i j (j + 1) hashs (omega arith)) (above j),
  path_pairs-Ascending i (j + 1) hashs rest above h,
)

all_pairs-Ascending : (i : ℕ) (m : SrdMap) → Ascending (all_pairs i m)
unfolding all_pairs
all_pairs-Ascending i [] = tt
all_pairs-Ascending i ((path, hashs) ∷ m) =
    path_pairs-Ascending i 0 hashs (all_pairs (i + 1) m)
      (λ n. all_pairs-above i n (i + 1) m (omega arith)) (all_pairs-Ascending (i + 1) m)

pub chosen_pairs-Ascending :
    (rands : List (ℕ × ℕ)) (m : SrdMap) (pairs : List (ℕ × ℕ))
    → chosen_pairs rands m ≡ some pairs
    → Ascending pairs
unfolding chosen_pairs
chosen_pairs-Ascending rands m pairs h =
    elim (Bool-cases (ltb (srd_validate_num (srd_total m)) (srd_total m))) [
      | inl l ↦
          random_pairs-Ascending (take (srd_validate_num (srd_total m)) rands) m [] pairs tt
            (ground arith)
      | inr l ↦
          let e : all_pairs 0 m ≡ pairs = ground arith in
          subst Ascending e (all_pairs-Ascending 0 m)
    ]
