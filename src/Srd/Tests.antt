-- ===== src/Srd/Tests.antt =====
-- Examples for src/enclave/srd/Srd.cpp.
use crust_sworker.Prelude.{
  true, Bool-cases, inl, inr, some, ℕ, ◌+◌, ◌-◌, ◌<◌, ◌≤◌, ◌≡◌, ◌⊎◌, refl, [], ◌∷◌, arith, min,
  sum_by, All,
}
use crust_sworker.Prelude.Int.{ℤ, pos, pos_part}
use crust_sworker.Prelude.Text.{Text, codes, text_eq, text_lt}
use crust_sworker.Prelude.Map.{Map, lookup, update}
use crust_sworker.Prelude.Sets.{set_has, set_insert}
use crust_sworker.Prelude.Sorted.{IsSorted}
use crust_sworker.Status.{CrustStatus, crust_success, crust_delete_file_failed}
use crust_sworker.Workload.{Workload, init}
use crust_sworker.Srd.{SrdMap, srd_total}
use crust_sworker.Srd.Change.{OneTurn, set_srd_change, srd_turns, srd_turns-set_srd_change}
use crust_sworker.Crypto.Sample.{crypto}
use crust_sworker.Srd.Increase.{Sealing, srd_increase}
use crust_sworker.Srd.Metadata.{srd_update_metadata}
use crust_sworker.Srd.Metadata.Assigned.{Tracked, srd_increase-Tracked, srd_update_metadata-Tracked}
use crust_sworker.Srd.Decrease.{indexes_of, del_total, srd_decrease}
use crust_sworker.Srd.Decrease.Erase.{kept}
use crust_sworker.Srd.Decrease.Choose.{IsChosen}
use crust_sworker.Srd.Decrease.Whole.{CanDecrease, srd_decrease-deletes}

-- Two paths with five G.
abbrev space : SrdMap
space =
    (codes "/a", (1 ∷ []) ∷ (2 ∷ []) ∷ []) ∷ (codes "/b", (3 ∷ []) ∷ (4 ∷ []) ∷ (5 ∷ []) ∷ []) ∷ []

abbrev wl : Workload
wl = record init { srd_path2hashs = space }

space-total : srd_total space ≡ 5
unfolding srd_total
space-total = refl

space-IsSorted : IsSorted space
unfolding text_lt
space-IsSorted = ((refl, tt), (tt, tt))

abbrev ask : ℤ → Workload → Workload
ask n w = w

abbrev persist : Map ℤ → ℕ → CrustStatus × ℕ
persist info db = (crust_success, db + 1)

srd_turns-set_srd_change_example :
    let t = srd_turns ask persist 4000 (set_srd_change (pos 300000) space) wl 0 in
    (sum_by pos_part t.asked ≡ min 300000 (204800 - srd_total space))
    × All OneTurn t.asked
    × (t.change ≡ pos 0)
srd_turns-set_srd_change_example =
    srd_turns-set_srd_change ask persist 4000 300000 space wl 0 (omega arith) (omega arith)
      (omega (arith, space-total))

-- The application deletes what it is told to.
abbrev delete : Text → CrustStatus
delete path = crust_success

wl-CanDecrease : CanDecrease [] wl
wl-CanDecrease = record {
  sorted = space-IsSorted;
  chosen = record { sorted = tt; in_range = tt };
  fits = omega (arith, space-total);
}

a_hashs : lookup (codes "/a") space ≡ some ((1 ∷ []) ∷ (2 ∷ []) ∷ [])
unfolding lookup text_eq
a_hashs = refl

srd_decrease-deletes_example :
    let (result, after, chosen) = srd_decrease delete (pos 3) [] wl in
    IsChosen space chosen
    × (0 ≤ del_total chosen)
    × (min 3 (srd_total space) ≤ del_total chosen)
    × ((del_total chosen ≡ 0) ⊎ (del_total chosen < min 3 (srd_total space) + 2))
    × (lookup (codes "/a") after.srd_path2hashs
        ≡ some (kept 0 (indexes_of (codes "/a") chosen) ((1 ∷ []) ∷ (2 ∷ []) ∷ [])))
    × (srd_total after.srd_path2hashs + del_total chosen ≡ srd_total space)
    × (result ≤ del_total chosen)
unfolding del_total
srd_decrease-deletes_example =
    srd_decrease-deletes delete 3 [] wl (codes "/a") ((1 ∷ []) ∷ (2 ∷ []) ∷ []) wl-CanDecrease
      (omega arith) a_hashs (omega (arith, space-total))

-- Three are wanted, and a fourth goes with them: a round takes one from each path.
four_deleted :
    let (result, after, chosen) = srd_decrease delete (pos 3) [] wl in
    (result ≡ 4) × (srd_total after.srd_path2hashs ≡ 1)
unfolding srd_decrease srd_total set_has set_insert lookup update text_eq text_lt
four_deleted = (refl, refl)

init-Tracked : Tracked init
unfolding lookup
init-Tracked = record { srd_sorted = tt; info_sorted = tt; tracks = λ path. refl }

abbrev sealing : Sealing
sealing = record {
  base_buffer = true;
  now_index = 12;
  dir_status = crust_success;
  hashs_buffer = true;
  hash_buffer = true;
  hex_buffer = true;
  seal = λ i. some (5 ∷ []);
}

srd_increase-Tracked_example : Tracked (srd_increase crypto sealing (codes "/a") init).1
srd_increase-Tracked_example = srd_increase-Tracked crypto sealing (codes "/a") init init-Tracked

-- Two G under one path, of which three are to go.
abbrev two_g : Workload
two_g = record init {
  srd_path2hashs = (codes "/a", (1 ∷ []) ∷ (2 ∷ []) ∷ []) ∷ [];
  srd_info = (codes "/a", pos 2) ∷ [];
}

two_g-Tracked : Tracked two_g
unfolding lookup
two_g-Tracked = record {
  srd_sorted = (tt, tt);
  info_sorted = (tt, tt);
  tracks = λ path. elim (Bool-cases (text_eq path (codes "/a"))) [
    | inl e ↦ rw e refl
    | inr e ↦ rw e refl
  ];
}

srd_update_metadata-Tracked_example :
    Tracked (srd_update_metadata delete (λ w. w) persist ((codes "/a", pos 3) ∷ []) two_g 0).0
srd_update_metadata-Tracked_example =
    srd_update_metadata-Tracked delete (λ w. w) persist ((codes "/a", pos 3) ∷ []) two_g 0
      (λ path. refl) (λ w t. t) two_g-Tracked

-- A directory that cannot be deleted is forgotten, but stays in the assigned space.
abbrev refuse : Text → CrustStatus
refuse path = crust_delete_file_failed

still_assigned :
    let (wl', db) =
      srd_update_metadata refuse (λ w. w) persist ((codes "/a", pos 1) ∷ []) two_g 0 in
    (wl'.srd_path2hashs ≡ (codes "/a", (1 ∷ []) ∷ []) ∷ [])
    × (wl'.srd_info ≡ (codes "/a", pos 2) ∷ [])
unfolding srd_update_metadata update lookup text_eq
still_assigned = (refl, refl)
