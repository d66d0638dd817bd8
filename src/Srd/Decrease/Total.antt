-- ===== src/Srd/Decrease/Total.antt =====
-- The number of G chosen, against the number that there are (`srd_decrease` in src/enclave/srd/Srd.cpp).
use crust_sworker.Prelude.{
  ℕ, ◌+◌, ◌≤◌, ◌≡◌, refl, ◌∙◌, true, List, [], ◌∷◌, arith, length, All, Bool-cases, Option-cases,
  inl, inr, sum_by,
}
use crust_sworker.Prelude.Text.{Text, text_eq, text_lt, text_eq_sound}
use crust_sworker.Prelude.Map.{lookup}
use crust_sworker.Prelude.Sets.{Increasing, covered_length}
use crust_sworker.Prelude.Sorted.{IsSorted, All-lookup, text_eq_sym, text_lt-text_eq}
use crust_sworker.Srd.{SrdMap, srd_total}
use crust_sworker.Srd.Decrease.{DelMap, indexes_of, del_total, Choice}
use crust_sworker.Srd.Decrease.Choose.{InRange, IsChosen}
use crust_sworker.Srd.Decrease.Enough.{Full}

-- The indexes under the paths of `m`.
abbrev chosen_at : DelMap → SrdMap → ℕ
chosen_at del = sum_by (λ e. length (indexes_of e.0 del))

-- Above a path, another entry adds nothing.
chosen_at-above :
    (q : Text) (s : List ℕ) (del : DelMap) (m : SrdMap)
    → All (λ (e : Text × List (List ℕ)). text_lt q e.0 ≡ true) m
    → chosen_at ((q, s) ∷ del) m ≡ chosen_at del m
unfolding lookup
chosen_at-above q s del [] h = refl
chosen_at-above q s del (e ∷ m) h =
    let ne = text_eq_sym e.0 q ∙ text_lt-text_eq q e.0 h.0 in
    ground (arith, ne, chosen_at-above q s del m h.1)

-- An entry counts once.
chosen_at-once :
    (q : Text) (s : List ℕ) (del : DelMap) (m : SrdMap)
    → IsSorted m
    → chosen_at ((q, s) ∷ del) m ≤ length s + chosen_at del m
unfolding lookup
chosen_at-once q s del [] h = omega arith
chosen_at-once q s del ((path, hashs) ∷ m) (above, h) = elim (Bool-cases (text_eq path q)) [
  | inl e ↦ ground (arith, chosen_at-above q s del m (rw (text_eq_sound path q e) at above))
  | inr e ↦ ground (arith, chosen_at-once q s del m h)
]

chosen_at-nil : (m : SrdMap) → chosen_at [] m ≡ 0
unfolding lookup
chosen_at-nil [] = refl
chosen_at-nil (e ∷ m) = omega (arith, chosen_at-nil m)

chosen_at-bound : (del : DelMap) (m : SrdMap) → IsSorted m → chosen_at del m ≤ del_total del
unfolding del_total
chosen_at-bound [] m s = omega (arith, chosen_at-nil m)
chosen_at-bound ((q, s) ∷ del) m sorted =
    omega (arith, chosen_at-once q s del m sorted, chosen_at-bound del m sorted)

indexes_of-Increasing :
    (m : SrdMap) (path : Text) (del : DelMap) → IsChosen m del → Increasing (indexes_of path del)
indexes_of-Increasing m path del c = elim (Option-cases (lookup path del)) [
  | inl e ↦ rw e tt
  | inr (s, e) ↦
      (let (hs, f, inc, low) = All-lookup (InRange m) path del s c.in_range e in rw e inc)
]

All-low : (xs : List ℕ) → All (λ y. 0 ≤ y) xs
All-low [] = tt
All-low (x ∷ xs) = (omega arith, All-low xs)

Full-chosen_at :
    (m part : SrdMap) (c : Choice)
    → IsChosen m c.del
    → All (Full c) part
    → srd_total part ≤ chosen_at c.del part
unfolding srd_total
Full-chosen_at m [] c i h = omega arith
Full-chosen_at m (e ∷ part) c i h = omega (
  arith,
  covered_length 0 (length e.1) (indexes_of e.0 c.del) (indexes_of-Increasing m e.0 c.del i)
      (All-low (indexes_of e.0 c.del)) (λ t low below. h.0 t below),
  Full-chosen_at m part c i h.1,
)

pub Full-del_total :
    (m : SrdMap) (c : Choice)
    → IsSorted m
    → IsChosen m c.del
    → All (Full c) m
    → srd_total m ≤ del_total c.del
Full-del_total m c s i h = omega (arith, Full-chosen_at m m c i h, chosen_at-bound c.del m s)
