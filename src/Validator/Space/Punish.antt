-- ===== src/Validator/Space/Punish.antt =====
-- How many G a validation takes away (`validate_srd` in src/enclave/validator/Validator.cpp).
use crust_sworker.Prelude.{
  ℕ, zero, suc, ◌+◌, ◌*◌, ◌^◌, ◌<◌, ◌≤◌, ◌≡◌, ◌⊎◌, refl, ap, ◌∙◌, subst, inl, inr, false, List, [],
  ◌∷◌, some, arith, min, ◌==◌, length, Bool-cases, Option-cases,
}
use crust_sworker.Prelude.Int.{pos}
use crust_sworker.Prelude.Text.{Text, text_eq_refl}
use crust_sworker.Prelude.Map.{lookup}
use crust_sworker.Prelude.Sorted.{IsSorted, IsSorted-lookup}
use crust_sworker.Status.{CrustStatus}
use crust_sworker.Crypto.{Crypto}
use crust_sworker.Workload.{Workload}
use crust_sworker.Srd.{SrdMap, srd_total}
use crust_sworker.Srd.Decrease.{DelMap, del_total, srd_decrease, capped, is_zero_ℤ}
use crust_sworker.Srd.Decrease.Choose.{IsChosen, insert-IsChosen}
use crust_sworker.Srd.Decrease.Whole.{CanDecrease, del_total_bound, srd_decrease-deletes}
use crust_sworker.Validator.Space.Sample.{Ascending, count_bad, chosen_pairs-Ascending}
use crust_sworker.Validator.Space.Count.{entry_at-All, check_pairs-count_bad}
use crust_sworker.Validator.Space.{
  entry_at, g_at, is_bad_g, Disk, check_pair, check_pairs, srd_random_delete, is_upgraded,
  chosen_pairs, validate_srd,
}

g_at-bound : (j : ℕ) (hashs : List (List ℕ)) (h : List ℕ) → g_at j hashs ≡ some h → j < length hashs
unfolding g_at
g_at-bound j [] h q = cc
g_at-bound zero (x ∷ hashs) h q = omega arith
g_at-bound (suc j) (x ∷ hashs) h q = omega (arith, g_at-bound j hashs h q)

check_pair-IsChosen :
    (c : Crypto) (d : Disk) (m : SrdMap) (p : ℕ × ℕ) (del : DelMap)
    → IsSorted m
    → IsChosen m del
    → IsChosen m (check_pair c d m p del)
unfolding check_pair
check_pair-IsChosen c d m (i, j) del s h = elim (Option-cases (entry_at i m)) [
  | inl q ↦ rw (check_pair, q) h
  | inr ((path, hashs), q) ↦ elim (Option-cases (g_at j hashs)) [
    | inl r ↦ rw (check_pair, q, r) h
    | inr (hash, r) ↦ elim (Bool-cases (is_bad_g c d path hash)) [
      | inr b ↦ rw (check_pair, q, r, b) h
      | inl b ↦
          rw (check_pair, q, r, b)
            (insert-IsChosen m path hashs j del
              (entry_at-All (λ (e : Text × List (List ℕ)). lookup e.0 m ≡ some e.1) i m
                (path, hashs) (IsSorted-lookup m s) q)
              (g_at-bound j hashs hash r) h)
    ]
  ]
]

-- Undisturbed by other threads, the loop only collects indexes that are there.
check_pairs-IsChosen :
    (c : Crypto) (disk : ℕ × ℕ → Disk) (ps : List (ℕ × ℕ)) (del : DelMap) (wl : Workload)
    → IsSorted wl.srd_path2hashs
    → IsChosen wl.srd_path2hashs del
    → IsChosen wl.srd_path2hashs (check_pairs c (λ w. w) disk ps del wl).0
      × ((check_pairs c (λ w. w) disk ps del wl).1 ≡ wl)
unfolding check_pairs
check_pairs-IsChosen c disk [] del wl s h = (h, refl)
check_pairs-IsChosen c disk (p ∷ ps) del wl s h =
    check_pairs-IsChosen c disk ps (check_pair c (disk p) wl.srd_path2hashs p del) wl s
      (check_pair-IsChosen c (disk p) wl.srd_path2hashs p del s h)

-- What a punishment for `failed` G leaves of them.
abbrev pub Punished : ℕ → Workload → Workload → Type 0
Punished failed wl after =
    ((failed ≡ 0) × (after ≡ wl))
    ⊎ ((0 < failed)
        × (srd_total after.srd_path2hashs + min (2 * failed) (srd_total wl.srd_path2hashs)
            ≤ srd_total wl.srd_path2hashs)
        × (srd_total wl.srd_path2hashs
            < srd_total after.srd_path2hashs
              + min (2 * failed) (srd_total wl.srd_path2hashs)
              + length wl.srd_path2hashs))

srd_total-nil : (m : SrdMap) → 0 < srd_total m → 0 < length m
unfolding srd_total
srd_total-nil [] h = h
srd_total-nil (e ∷ m) h = omega arith

some_path :
    (m : SrdMap)
    → 0 < srd_total m
    → (path : Text) × (hashs : List (List ℕ)) × (lookup path m ≡ some hashs)
unfolding srd_total lookup
some_path [] h = absurd (omega arith)
some_path ((path, hashs) ∷ m) h = (path, hashs, rw (text_eq_refl path) refl)

srd_random_delete-none :
    (ocall_delete : Text → CrustStatus) (del : DelMap) (wl : Workload)
    → srd_random_delete ocall_delete 0 del wl ≡ wl
unfolding srd_random_delete srd_decrease capped is_zero_ℤ
srd_random_delete-none ocall_delete del wl = ground arith

srd_random_delete-some :
    (ocall_delete : Text → CrustStatus) (k : ℕ) (del : DelMap) (wl : Workload)
    → 0 < k
    → srd_random_delete ocall_delete k del wl ≡ (srd_decrease ocall_delete (pos k) del wl).1
unfolding srd_random_delete
srd_random_delete-some ocall_delete k del wl h = ground arith

srd_random_delete-Punished :
    (ocall_delete : Text → CrustStatus) (del : DelMap) (wl : Workload)
    → CanDecrease del wl
    → Punished (del_total del) wl (srd_random_delete ocall_delete (2 * del_total del) del wl)
srd_random_delete-Punished ocall_delete del wl ok = elim (Bool-cases (del_total del == 0)) [
  | inl z ↦
      let e : del_total del ≡ 0 = ground arith in
      inl (
        e,
        ap (λ k. srd_random_delete ocall_delete (2 * k) del wl) e
            ∙ srd_random_delete-none ocall_delete del wl,
      )
  | inr nz ↦
      let p : 0 < del_total del = ground arith in
      let fewer = del_total_bound wl.srd_path2hashs del ok.sorted ok.chosen in
      let some_there : 0 < srd_total wl.srd_path2hashs = omega (arith, fewer) in
      let (path, hashs, found) = some_path wl.srd_path2hashs some_there in
      let d =
        srd_decrease-deletes ocall_delete (2 * del_total del) del wl path hashs ok (omega arith)
          found some_there in
      rw (srd_random_delete-some ocall_delete (2 * del_total del) del wl (omega arith)) (
        inr (
          p,
          omega (arith, d.2, d.5),
          omega (arith, d.3, d.5, fewer, srd_total-nil wl.srd_path2hashs some_there),
        ))
]

-- For a sample that can be drawn, in an enclave that has not been upgraded, with a sorted map of the
-- hashes that fits the counters, and undisturbed by other threads: the sample has no pair twice, and if no
-- G of it is bad then `validate_srd` leaves the workload as it is; with a number of G in it whose
-- checks on the disk fail, it takes away at least twice as many G, or all there are if these are
-- fewer, and fewer than that plus the number of paths.
pub validate_srd-Punished :
    (c : Crypto) (ocall_delete : Text → CrustStatus) (disk : ℕ × ℕ → Disk) (rands : List (ℕ × ℕ))
    (wl : Workload) (pairs : List (ℕ × ℕ))
    → IsSorted wl.srd_path2hashs
    → srd_total wl.srd_path2hashs + length wl.srd_path2hashs < 2 ^ 32
    → is_upgraded wl.upgrade_status ≡ false
    → chosen_pairs rands wl.srd_path2hashs ≡ some pairs
    → (after : Workload) × (validate_srd c (λ w. w) ocall_delete disk rands wl ≡ some after)
      × Ascending pairs
      × Punished (count_bad c disk wl.srd_path2hashs pairs) wl after
unfolding validate_srd
validate_srd-Punished c ocall_delete disk rands wl pairs sorted fits active drawn =
    let (chosen, same) =
      check_pairs-IsChosen c disk pairs [] wl sorted (record { sorted = tt; in_range = tt }) in
    let del = (check_pairs c (λ w. w) disk pairs [] wl).0 in
    let after = srd_random_delete ocall_delete (2 * del_total del) del wl in
    let ascending = chosen_pairs-Ascending rands wl.srd_path2hashs pairs drawn in
    (
      after,
      rw (validate_srd, active, drawn, same) refl,
      ascending,
      subst (λ n. Punished n wl after) (check_pairs-count_bad c disk pairs wl sorted ascending)
          (srd_random_delete-Punished ocall_delete del wl
            (record { sorted = sorted; chosen = chosen; fits = fits })),
    )
