-- ===== src/Srd/Decrease/Whole.antt =====
-- What a whole call of `srd_decrease` deletes (src/enclave/srd/Srd.cpp).
use crust_sworker.Prelude.{
  ℕ, suc, some, ◌+◌, ◌%◌, ◌^◌, ◌<◌, ◌≤◌, ◌≡◌, ◌⊎◌, refl, ap, ◌∙◌, inl, inr, true, false, List, [],
  ◌∷◌, arith, min, length, length-append, map, All, sum_by,
}
use crust_sworker.Prelude.Int.{pos}
use crust_sworker.Prelude.Text.{Text}
use crust_sworker.Prelude.Map.{Map, lookup, update}
use crust_sworker.Prelude.Sorted.{IsSorted, value_or}
use crust_sworker.Status.{CrustStatus}
use crust_sworker.Hex.{hexstring_safe}
use crust_sworker.Workload.{Workload, set_srd_info}
use crust_sworker.Srd.{SrdMap, srd_total}
use crust_sworker.Srd.Decrease.{
  DelMap, indexes_of, del_total, Choice, choose, longest, erase_indexes, erase_chosen, delete_files,
  delete_dirs, capped, is_zero_ℤ, srd_decrease,
}
use crust_sworker.Srd.Decrease.Choose.{IsChosen, Covered}
use crust_sworker.Srd.Decrease.Enough.{Chosen, choose-Chosen, Full}
use crust_sworker.Srd.Decrease.Total.{Full-del_total}
use crust_sworker.Srd.Decrease.Erase.{kept, srd_total-erase_chosen}
use crust_sworker.Srd.Decrease.Kept.{lookup-erase_chosen}

-- The indexes given and the paths fit the counters, and the maps are those of `std::map`.
pub record CanDecrease (del : DelMap) (wl : Workload) : Type 0 where
  pub sorted : IsSorted wl.srd_path2hashs
  pub chosen : IsChosen wl.srd_path2hashs del
  pub fits : srd_total wl.srd_path2hashs + length wl.srd_path2hashs < 2 ^ 32

pub del_total_bound :
    (m : SrdMap) (del : DelMap) → IsSorted m → IsChosen m del → del_total del ≤ srd_total m
del_total_bound m del s c = omega (arith, srd_total-erase_chosen del m s c)

-- Before the first round nothing has to be chosen.
none-Covered : (m : SrdMap) (c : Choice) → All (Covered 1 c) m
none-Covered [] c = tt
none-Covered (e ∷ m) c = (λ t below last. absurd (omega arith), none-Covered m c)

module _ (n : ℕ) (del : DelMap) (wl : Workload) (ok : CanDecrease del wl) where
  abbrev start : Choice
  start = record { del = del; num = del_total del % 2 ^ 32; at_end = false }

  abbrev target : ℕ
  target = min n (srd_total wl.srd_path2hashs)

  capped-min : capped (pos n) wl.srd_path2hashs ≡ pos target
  unfolding capped
  capped-min = ground (arith, ok.fits)

  abbrev choice : Choice
  choice = choose (longest wl.srd_path2hashs + 2) (pos target) 1 wl.srd_path2hashs start

  start_counted : del_total del % 2 ^ 32 ≡ del_total del
  start_counted = ground (arith, ok.fits, del_total_bound wl.srd_path2hashs del ok.sorted ok.chosen)

  choice-Chosen : Chosen target wl.srd_path2hashs start choice
  choice-Chosen =
      choose-Chosen (longest wl.srd_path2hashs + 2) 1 target wl.srd_path2hashs start ok.sorted
        (omega arith) (ground (arith, ok.fits)) start_counted ok.chosen
        (none-Covered wl.srd_path2hashs start) (inr (refl, omega arith))

  enough_chosen :
      (target ≤ choice.num) ⊎ All (Full choice) wl.srd_path2hashs → target ≤ del_total choice.del
  enough_chosen (inl e) = ground (arith, e, choice-Chosen.counted)
  enough_chosen (inr f) =
      ground (arith, Full-del_total wl.srd_path2hashs choice ok.sorted choice-Chosen.chosen f)

  few_chosen :
      (del_total choice.del ≡ del_total del)
      ⊎ (del_total choice.del < target + length wl.srd_path2hashs)
  few_chosen = ground (arith, choice-Chosen.few, choice-Chosen.counted, start_counted)

length-erase_indexes_deleted :
    (s : List ℕ) (hashs : List (List ℕ)) → length (erase_indexes s hashs).0 ≡ length s
unfolding erase_indexes
length-erase_indexes_deleted [] hashs = refl
length-erase_indexes_deleted (i ∷ is) hashs =
    length-append (erase_indexes is hashs).0 _
    ∙ omega (arith, length-erase_indexes_deleted is hashs)

length-map {ℓ} : {A B : Type ℓ} (f : A → B) (xs : List A) → length (map f xs) ≡ length xs
length-map f [] = refl
length-map f (x ∷ xs) = ap suc (length-map f xs)

-- As many files are to be deleted as indexes are chosen.
erase_chosen-count :
    (del : DelMap) (m : SrdMap)
    → sum_by (λ (e : Text × List Text). length e.1) (erase_chosen del m).0 ≡ del_total del
unfolding erase_chosen del_total
erase_chosen-count [] m = refl
erase_chosen-count ((path, []) ∷ del) m = omega (arith, erase_chosen-count del m)
erase_chosen-count ((path, i ∷ is) ∷ del) m = omega (
  arith,
  length-map (hexstring_safe true) (erase_indexes (i ∷ is) (value_or [] (lookup path m))).0,
  length-erase_indexes_deleted (i ∷ is) (value_or [] (lookup path m)),
  erase_chosen-count del (update path [] (λ hashs. (erase_indexes (i ∷ is) hashs).1) m),
)

module _ (ocall_delete : Text → CrustStatus) where
  delete_files-bound :
      (path : Text) (hashs : List Text) → delete_files ocall_delete path hashs ≤ length hashs
  unfolding delete_files
  delete_files-bound path [] = omega arith
  delete_files-bound path (h ∷ hashs) = ground (arith, delete_files-bound path hashs)

  delete_dirs-srd :
      (ds : Map (List Text)) (wl : Workload)
      → ((delete_dirs ocall_delete ds wl).1.srd_path2hashs ≡ wl.srd_path2hashs)
        × ((delete_dirs ocall_delete ds wl).0 ≤ sum_by (λ (e : Text × List Text). length e.1) ds)
  unfolding delete_dirs set_srd_info
  delete_dirs-srd [] wl = (refl, omega arith)
  delete_dirs-srd ((path, hashs) ∷ ds) wl =
      let ih = delete_dirs-srd ds _ in (ih.0, omega (arith, ih.1, delete_files-bound path hashs))

abbrev emptied : (n : ℕ) (del : DelMap) (wl : Workload) → CanDecrease del wl → Workload
emptied n del wl ok = record wl {
  srd_path2hashs = (erase_chosen (choice n del wl ok).del wl.srd_path2hashs).1;
}

srd_decrease-run :
    (ocall_delete : Text → CrustStatus) (n : ℕ) (del : DelMap) (wl : Workload)
    (ok : CanDecrease del wl)
    → 0 < n
    → 0 < srd_total wl.srd_path2hashs
    → let d =
        delete_dirs ocall_delete
          (erase_chosen (choice n del wl ok).del wl.srd_path2hashs).0
          (emptied n del wl ok) in
      srd_decrease ocall_delete (pos n) del wl ≡ (d.0 % 2 ^ 32, d.1, (choice n del wl ok).del)
unfolding srd_decrease is_zero_ℤ
srd_decrease-run ocall_delete n del wl ok some_wanted some_there =
    rw (capped-min n del wl ok, nonzero (target n del wl ok) (omega arith)) refl
  where
    nonzero : (k : ℕ) → 0 < k → is_zero_ℤ (pos k) ≡ false
    nonzero k h = ground arith

-- `srd_decrease` for a change of `n` above 0, where there are G, for sorted maps, indexes given that are
-- in range, and numbers of G and paths that fit the 32-bit counters: the G chosen, which are in range and
-- include as many as given, are at least `n`, or all there are if these are fewer; they are no more
-- than those given, or fewer than the wanted number plus the number of paths; at each path exactly the
-- hashes at the chosen indexes are gone, and the total is down by their number; and the result, the
-- number of directories deleted, is at most that.
pub srd_decrease-deletes :
    (ocall_delete : Text → CrustStatus) (n : ℕ) (del : DelMap) (wl : Workload) (path : Text)
    (hashs : List (List ℕ))
    → CanDecrease del wl
    → 0 < n
    → lookup path wl.srd_path2hashs ≡ some hashs
    → 0 < srd_total wl.srd_path2hashs
    → let (result, after, chosen) = srd_decrease ocall_delete (pos n) del wl in
      IsChosen wl.srd_path2hashs chosen
      × (del_total del ≤ del_total chosen)
      × (min n (srd_total wl.srd_path2hashs) ≤ del_total chosen)
      × ((del_total chosen ≡ del_total del)
          ⊎ (del_total chosen < min n (srd_total wl.srd_path2hashs) + length wl.srd_path2hashs))
      × (lookup path after.srd_path2hashs ≡ some (kept 0 (indexes_of path chosen) hashs))
      × (srd_total after.srd_path2hashs + del_total chosen ≡ srd_total wl.srd_path2hashs)
      × (result ≤ del_total chosen)
srd_decrease-deletes ocall_delete n del wl path hashs ok some_wanted found some_there =
    let c = choice-Chosen n del wl ok in
    let m = wl.srd_path2hashs in
    let d =
      delete_dirs-srd ocall_delete (erase_chosen (choice n del wl ok).del m).0
        (emptied n del wl ok) in
    rw (srd_decrease-run ocall_delete n del wl ok some_wanted some_there) (
      c.chosen,
      omega (arith, c.more, c.counted, start_counted n del wl ok),
      enough_chosen n del wl ok c.enough,
      few_chosen n del wl ok,
      ap (lookup path) d.0
          ∙ lookup-erase_chosen path hashs (choice n del wl ok).del m ok.sorted c.chosen found,
      ap (λ x. srd_total x + del_total (choice n del wl ok).del) d.0
          ∙ srd_total-erase_chosen (choice n del wl ok).del m ok.sorted c.chosen,
      omega (arith, d.1, erase_chosen-count (choice n del wl ok).del m),
    )
