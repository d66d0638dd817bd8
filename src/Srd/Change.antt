-- ===== src/Srd/Change.antt =====
-- The number of G that are still to be sealed: `g_srd_change`, `srd_change` and `set_srd_change` in
-- src/enclave/srd/Srd.cpp.
use crust_sworker.Prelude.{
  ℕ, zero, suc, ◌+◌, ◌-◌, ◌*◌, ◌%◌, ◌^◌, ◌<◌, ◌≤◌, ◌≡◌, Bool, true, false, List, [], ◌∷◌, ◌++◌,
  arith, ltb, leb, if◌then◌else◌, length, All, sum_by, min,
}
use crust_sworker.Prelude.Int.{ℤ, pos, pos_part, ◌-ℤ◌, ltb_ℤ}
use crust_sworker.Prelude.Map.{Map}
use crust_sworker.Status.{CrustStatus, srd_max_per_turn, srd_number_upper_limit}
use crust_sworker.Workload.{Workload}
use crust_sworker.Srd.{SrdMap, srd_total}

-- `srd_change_num`, and `g_srd_change` after it is taken.
unfoldable pub take_change : ℤ → ℤ × ℤ
take_change g =
    if ltb_ℤ (pos srd_max_per_turn) g
    then (pos srd_max_per_turn, g -ℤ pos srd_max_per_turn)
    else (g, pos 0)

-- `srd_change_num != 0`
unfoldable pub is_nonzero : ℤ → Bool
is_nonzero (pos zero) = false
is_nonzero _ = true

-- What one `srd_change` leaves: the change, the workload, the database, and the numbers asked for.
pub record Turn {ℓ} (D : Type ℓ) : Type ℓ where
  pub change : ℤ
  pub wl : Workload
  pub db : D
  pub asked : List ℤ

module _ {ℓ} {D : Type ℓ} (ocall_srd_change : ℤ → Workload → Workload)
    (persist_srd_info : Map ℤ → D → CrustStatus × D) where
  -- `srd_change`: the application seals or deletes the G; the status of the database only is logged.
  unfoldable pub srd_change : ℤ → Workload → D → Turn D
  unfolding take_change is_nonzero
  srd_change g wl db =
      let (num, g') = take_change g in
      let wl' = if is_nonzero num then ocall_srd_change num wl else wl in
      let (status, db') = persist_srd_info wl'.srd_info db in
      record { change = g'; wl = wl'; db = db'; asked = if is_nonzero num then num ∷ [] else [] }

  -- Some turns of the main loop.
  unfoldable pub srd_turns : ℕ → ℤ → Workload → D → Turn D
  unfolding srd_change
  srd_turns zero g wl db = record { change = g; wl = wl; db = db; asked = [] }
  srd_turns (suc k) g wl db =
      let t = srd_change g wl db in
      let rest = srd_turns k t.change t.wl t.db in record rest { asked = t.asked ++ rest.asked }

-- `set_srd_change`. The test adds on `size_t`; `change` is a `long`.
unfoldable pub set_srd_change : ℤ → SrdMap → ℤ
unfolding srd_total
set_srd_change change m =
    let srd_num = srd_total m % 2 ^ 64 in
    if ltb_ℤ (pos 0) change
    then (if leb srd_number_upper_limit srd_num
        then pos 0
        else (if ltb srd_number_upper_limit ((srd_num + pos_part change) % 2 ^ 64)
            then pos (srd_number_upper_limit - srd_num)
            else change))
    else change

-- Numbers of G that one turn may ask for.
abbrev pub OneTurn : ℤ → Type 0
OneTurn n = (0 < pos_part n) × (pos_part n ≤ srd_max_per_turn)

-- The turns ask for what there is, up to what they may.
module _ {ℓ} {D : Type ℓ} (ocall_srd_change : ℤ → Workload → Workload)
    (persist_srd_info : Map ℤ → D → CrustStatus × D) where
  pub srd_turns_lem :
      (k n : ℕ) (wl : Workload) (db : D)
      → let t = srd_turns ocall_srd_change persist_srd_info k (pos n) wl db in
        (t.change ≡ pos (n - 64 * k))
        × (sum_by pos_part t.asked + (n - 64 * k) ≡ n)
        × All OneTurn t.asked
        × (length t.asked ≤ k)
  unfolding srd_turns srd_change take_change is_nonzero ◌-ℤ◌
  srd_turns_lem zero n wl db = ground arith
  srd_turns_lem (suc k) n wl db =
      let t = srd_change ocall_srd_change persist_srd_info (pos n) wl db in
      ground (arith, srd_turns_lem k (n - 64) t.wl t.db, srd_turns_lem k 0 t.wl t.db)

set_srd_change-min :
    (n : ℕ) (m : SrdMap)
    → n < 2 ^ 63
    → srd_total m < 2 ^ 63
    → set_srd_change (pos n) m ≡ pos (min n (srd_number_upper_limit - srd_total m))
unfolding set_srd_change
set_srd_change-min n m h l = ground arith

-- A change of n G, n below 2 ^ 63, that is set while there are `srd_total` G, below 2 ^ 63 too: 3200 turns of the main loop, or more, ask
-- the application for exactly n of them, or as many as there are below the limit of 204800; no turn
-- asks for more than 64 or for none, and nothing is left to do.
pub srd_turns-set_srd_change :
    {D : Type 0} (ocall_srd_change : ℤ → Workload → Workload)
    (persist_srd_info : Map ℤ → D → CrustStatus × D) (k n : ℕ) (m : SrdMap) (wl : Workload) (db : D)
    → 3200 ≤ k
    → n < 2 ^ 63
    → srd_total m < 2 ^ 63
    → let t = srd_turns ocall_srd_change persist_srd_info k (set_srd_change (pos n) m) wl db in
      (sum_by pos_part t.asked ≡ min n (srd_number_upper_limit - srd_total m))
      × All OneTurn t.asked
      × (t.change ≡ pos 0)
srd_turns-set_srd_change ocall_srd_change persist_srd_info k n m wl db enough h l =
    let g = min n (srd_number_upper_limit - srd_total m) in
    let t = srd_turns_lem ocall_srd_change persist_srd_info k g wl db in
    let done : g - 64 * k ≡ 0 = omega arith in rw (set_srd_change-min n m h l) (ground (arith, t))
