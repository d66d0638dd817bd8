-- ===== src/Validator/Space.antt =====
-- `validate_srd` and `srd_random_delete` in src/enclave/validator/Validator.cpp: a sample of the G is
-- read from the disk, and for each bad one two G are deleted.
pub mod Sound
pub mod Sample
pub mod Count
pub mod Punish
pub mod Honest
use crust_sworker.Prelude.{
  ℕ, zero, suc, ◌+◌, ◌*◌, ◌/◌, ◌%◌, ◌^◌, Bool, true, false, not, ◌&&◌, ◌||◌, List, [], ◌∷◌, ◌++◌,
  Option, none, some, ltb, leb, ◌==◌, if◌then◌else◌, length, take, drop,
}
use crust_sworker.Prelude.Int.{ℤ, pos}
use crust_sworker.Prelude.Text.{Text, codes, text_eq}
use crust_sworker.Prelude.Map.{update}
use crust_sworker.Prelude.Sets.{set_insert}
use crust_sworker.Status.{CrustStatus, srd_punish_factor, hash_length}
use crust_sworker.Crypto.{Crypto}
use crust_sworker.Hex.{hexstring_safe}
use crust_sworker.Workload.{Workload, UpgradeStatus, upgrade_success}
use crust_sworker.Srd.{SrdMap, srd_total, get_m_hashs_file_path, get_leaf_path}
use crust_sworker.Srd.Decrease.{DelMap, del_total, srd_decrease}
use crust_sworker.Srd.Increase.{srd_rand_data_num}

-- SRD_VALIDATE_MIN_NUM, and `1 / SRD_VALIDATE_RATE * SRD_VALIDATE_MIN_NUM`.
abbrev pub srd_validate_min_num : ℕ
srd_validate_min_num = 64

abbrev pub srd_num_threshold : ℕ
srd_num_threshold = 3200

-- `srd_validate_num`. `srd_total_num * SRD_VALIDATE_RATE` is a `double`, 0.02 is a little more than a
-- fiftieth, and the product is cut off to an integer: for totals far below 2 ^ 50 that is the quotient.
unfoldable pub srd_validate_num : ℕ → ℕ
srd_validate_num total =
    if leb srd_num_threshold total
    then total / 50
    else (if ltb total srd_validate_min_num then total else srd_validate_min_num)

-- A `std::set` of pairs, as an increasing list.
unfoldable pub pair_insert : ℕ × ℕ → List (ℕ × ℕ) → List (ℕ × ℕ)
pair_insert p [] = p ∷ []
pair_insert p (q ∷ qs) =
    if (p.0 == q.0) && (p.1 == q.1)
    then q ∷ qs
    else (if ltb p.0 q.0 || ((p.0 == q.0) && ltb p.1 q.1) then p ∷ q ∷ qs else q ∷ pair_insert p qs)

-- The entry that `path_idx` increments of the iterator reach.
unfoldable pub entry_at : ℕ → SrdMap → Option (Text × List (List ℕ))
entry_at i [] = none
entry_at zero (e ∷ m) = some e
entry_at (suc i) (e ∷ m) = entry_at i m

-- One random choice, for the two random numbers; `none` is a division by zero, which a path with no G
-- brings about.
unfoldable pub random_pair : ℕ × ℕ → SrdMap → Option (ℕ × ℕ)
unfolding entry_at
random_pair r m = if length m == 0 then none else (elim (entry_at (r.0 % length m) m) [
  | none ↦ none
  | some (path, hashs) ↦
      if length hashs == 0 then none else some (r.0 % length m, r.1 % length hashs)
])

unfoldable pub random_pairs : List (ℕ × ℕ) → SrdMap → List (ℕ × ℕ) → Option (List (ℕ × ℕ))
unfolding random_pair pair_insert
random_pairs [] m s = some s
random_pairs (r ∷ rs) m s = elim (random_pair r m) [
  | none ↦ none
  | some p ↦ random_pairs rs m (pair_insert p s)
]

-- All pairs of one path, from index `j` on, and of all paths, from number `i` on.
unfoldable pub path_pairs : ℕ → ℕ → List (List ℕ) → List (ℕ × ℕ)
path_pairs i j [] = []
path_pairs i j (h ∷ hashs) = (i, j) ∷ path_pairs i (j + 1) hashs

unfoldable pub all_pairs : ℕ → SrdMap → List (ℕ × ℕ)
unfolding path_pairs
all_pairs i [] = []
all_pairs i ((path, hashs) ∷ m) = path_pairs i 0 hashs ++ all_pairs (i + 1) m

-- `validate_srd_idx_s`, for the random numbers read.
unfoldable pub chosen_pairs : List (ℕ × ℕ) → SrdMap → Option (List (ℕ × ℕ))
unfolding srd_validate_num srd_total random_pairs all_pairs
chosen_pairs rands m =
    if ltb (srd_validate_num (srd_total m)) (srd_total m)
    then random_pairs (take (srd_validate_num (srd_total m)) rands) m []
    else some (all_pairs 0 m)

-- What the checks meet: the files on the disk, whether a buffer can be had, the random leaf.
pub record Disk : Type 0 where
  pub get_file : Text → Option (List ℕ)
  pub buffer : Bool
  pub rand_val : ℕ

-- The checks of one G in its directory: whether it is to be deleted.
unfoldable pub is_bad_dir : Crypto → Disk → Text → List ℕ → Bool
unfolding get_m_hashs_file_path get_leaf_path text_eq
is_bad_dir c d g_path g_hash = elim (d.get_file (get_m_hashs_file_path g_path)) [
  | none ↦ true
  | some m_hashs ↦
      if not d.buffer
      then false
      else (if not (text_eq g_hash (c.sha256 m_hashs))
          then true
          else (let index = d.rand_val % srd_rand_data_num in
              let leaf_hash = take hash_length (drop (index * hash_length) m_hashs) in
              elim (d.get_file (get_leaf_path g_path index leaf_hash)) [
                | none ↦ true
                | some leaf ↦ not (text_eq leaf_hash (c.sha256 leaf))
              ]))
]

unfoldable pub is_bad_g : Crypto → Disk → Text → List ℕ → Bool
unfolding is_bad_dir
is_bad_g c d dir_path g_hash =
    is_bad_dir c d (dir_path ++ (codes "/" ++ hexstring_safe true g_hash)) g_hash

-- The hash at an index, none out of range.
unfoldable pub g_at : ℕ → List (List ℕ) → Option (List ℕ)
g_at j [] = none
g_at zero (h ∷ hashs) = some h
g_at (suc j) (h ∷ hashs) = g_at j hashs

-- One round of the loop: the indexes to delete. A G that has been deleted is passed over.
unfoldable pub check_pair : Crypto → Disk → SrdMap → ℕ × ℕ → DelMap → DelMap
unfolding entry_at g_at is_bad_g
check_pair c d m (i, j) del = elim (entry_at i m) [
  | none ↦ del
  | some (path, hashs) ↦ elim (g_at j hashs) [
    | none ↦ del
    | some hash ↦ if is_bad_g c d path hash then update path [] (set_insert j) del else del
  ]
]

module _ (c : Crypto) (others : Workload → Workload) where
  -- The loop, with what each round meets; `others` is what other threads do where `sched_check` lets
  -- go of the lock.
  unfoldable pub check_pairs : (ℕ × ℕ → Disk) → List (ℕ × ℕ) → DelMap → Workload → DelMap × Workload
  unfolding check_pair
  check_pairs disk [] del wl = (del, wl)
  check_pairs disk (p ∷ ps) del wl =
      let wl' = others wl in
      check_pairs disk ps (check_pair c (disk p) wl'.srd_path2hashs p del) wl'

-- `srd_random_delete`; the result of `srd_decrease` is not used.
unfoldable pub srd_random_delete : (Text → CrustStatus) → ℕ → DelMap → Workload → Workload
unfolding srd_decrease
srd_random_delete ocall_delete punish_num del wl =
    if (punish_num == 0) && (length del == 0)
    then wl
    else (srd_decrease ocall_delete (pos punish_num) del wl).1

unfoldable pub is_upgraded : UpgradeStatus → Bool
is_upgraded upgrade_success = true
is_upgraded _ = false

-- `validate_srd`; `none` is the division by zero.
unfoldable pub validate_srd :
    Crypto
    → (Workload → Workload)
    → (Text → CrustStatus)
    → (ℕ × ℕ → Disk)
    → List (ℕ × ℕ)
    → Workload
    → Option Workload
unfolding is_upgraded chosen_pairs check_pairs del_total srd_random_delete
validate_srd c others ocall_delete disk rands wl =
    if is_upgraded wl.upgrade_status
    then some wl
    else (elim (chosen_pairs rands wl.srd_path2hashs) [
      | none ↦ none
      | some pairs ↦
          let (del, wl') = check_pairs c others disk pairs [] wl in
          some (srd_random_delete ocall_delete (srd_punish_factor * del_total del) del wl')
    ])
