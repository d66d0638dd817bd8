-- ===== src/Srd/Decrease/Enough.antt =====
-- The loop that chooses the G to delete, and how it ends (`srd_decrease` in
-- src/enclave/srd/Srd.cpp).
use crust_sworker.Prelude.{
  ℕ, zero, suc, ◌+◌, ◌^◌, ◌<◌, ◌≤◌, ◌≡◌, ◌⊎◌, refl, inl, inr, true, false, not, ◌&&◌, List, [], ◌∷◌,
  arith, ltb, ltb→lt, length, All, Bool-cases,
}
use crust_sworker.Prelude.Int.{pos, ltb_ℤ}
use crust_sworker.Prelude.Text.{Text}
use crust_sworker.Prelude.Sets.{set_has}
use crust_sworker.Prelude.Sorted.{IsSorted, IsSorted-lookup}
use crust_sworker.Srd.{SrdMap}
use crust_sworker.Srd.Decrease.{indexes_of, del_total, Choice, choose_round, choose, longest}
use crust_sworker.Srd.Decrease.Choose.{IsChosen, Covered, choose_round-Round}

-- All hashes of a path are chosen.
abbrev pub Full : Choice → Text × List (List ℕ) → Type 0
Full c e = (t : ℕ) → t < length e.1 → set_has t (indexes_of e.0 c.del) ≡ true

Full-Covered :
    (acc : ℕ) (c : Choice) (m : SrdMap)
    → All (λ (e : Text × List (List ℕ)). length e.1 < acc) m
    → All (Covered acc c) m
    → All (Full c) m
Full-Covered acc c [] short h = tt
Full-Covered acc c (e ∷ m) short h =
    (λ t below. h.0 t below (omega (arith, short.0)), Full-Covered acc c m short.1 h.1)

longest-bound :
    (acc : ℕ) (m : SrdMap)
    → longest m < acc
    → All (λ (e : Text × List (List ℕ)). length e.1 < acc) m
unfolding longest
longest-bound acc [] h = tt
longest-bound acc ((path, hashs) ∷ m) h = (ground arith, longest-bound acc m (ground arith))

All-shorter :
    (acc : ℕ) (m : SrdMap)
    → All (λ (e : Text × List (List ℕ)). length e.1 < acc) m
    → All (λ (e : Text × List (List ℕ)). length e.1 < acc + 1) m
All-shorter acc [] h = tt
All-shorter acc (e ∷ m) h = (omega (arith, h.0), All-shorter acc m h.1)

-- What the loop leaves for a change of `n`.
pub record Chosen (n : ℕ) (m : SrdMap) (c c' : Choice) : Type 0 where
  pub chosen : IsChosen m c'.del
  pub counted : c'.num ≡ del_total c'.del
  pub more : c.num ≤ c'.num
  pub few : (c'.num ≡ c.num) ⊎ (c'.num < n + length m)
  pub enough : (n ≤ c'.num) ⊎ All (Full c') m

-- The loop ran through all paths, or there is fuel for that.
abbrev pub HasFuel : ℕ → ℕ → SrdMap → Choice → Type 0
HasFuel fuel acc m c =
    ((c.at_end ≡ true) × All (Full c) m) ⊎ ((c.at_end ≡ false) × (longest m + 2 ≤ fuel + acc))

Full-HasFuel :
    (acc : ℕ) (m : SrdMap) (c : Choice) → All (Covered acc c) m → HasFuel 0 acc m c → All (Full c) m
Full-HasFuel acc m c cov (inl (e, full)) = full
Full-HasFuel acc m c cov (inr (e, enough)) =
    Full-Covered acc c m (longest-bound acc m (omega arith)) cov

-- The loop stops here, with enough or at the end.
stop :
    (n : ℕ) (m : SrdMap) (c : Choice)
    → c.num ≡ del_total c.del
    → IsChosen m c.del
    → (n ≤ c.num) ⊎ All (Full c) m
    → Chosen n m c c
stop n m c counted chosen enough = record {
  chosen = chosen;
  counted = counted;
  more = omega arith;
  few = inl refl;
  enough = enough;
}

pub choose-Chosen :
    (fuel acc n : ℕ) (m : SrdMap) (c : Choice)
    → IsSorted m
    → 0 < acc
    → n + length m < 2 ^ 32
    → c.num ≡ del_total c.del
    → IsChosen m c.del
    → All (Covered acc c) m
    → HasFuel fuel acc m c
    → Chosen n m c (choose fuel (pos n) acc m c)
unfolding choose
choose-Chosen zero acc n m c s p small counted chosen cov fuel_left =
    stop n m c counted chosen (inr (Full-HasFuel acc m c cov fuel_left))
choose-Chosen (suc fuel) acc n m c s p small counted chosen cov fuel_left =
    elim (Bool-cases (ltb c.num n)) [
      | inr l ↦ rw (choose, cond_off l) (stop n m c counted chosen (inl (ground arith)))
      | inl l ↦ elim fuel_left [
        | inl (e, full) ↦ rw (choose, cond_end e) (stop n m c counted chosen (inr full))
        | inr (e, left) ↦
            let c' = choose_round acc m (record c { at_end = true }) in
            let r =
              choose_round-Round m m acc (record c { at_end = true }) (IsSorted-lookup m s) p
                (ground arith) counted chosen in
            let cov' = r.covered cov in
            let st = r.step in
            let ih =
              choose-Chosen fuel (acc + 1) n m c' s (omega arith) small st.counted st.chosen cov'
                (next c' left cov' r.ended) in
            rw (choose, cond_on l e)
              (record {
                chosen = ih.chosen;
                counted = ih.counted;
                more = omega (arith, st.more, ih.more);
                few = inr (few_of (ltb→lt c.num n l) st.few ih.few);
                enough = ih.enough;
              })
      ]
    ]
  where
    cond_off : ltb c.num n ≡ false → (ltb_ℤ (pos c.num) (pos n) && not c.at_end) ≡ false
    cond_off l = ground arith

    cond_end : c.at_end ≡ true → (ltb_ℤ (pos c.num) (pos n) && not c.at_end) ≡ false
    cond_end e = ground arith

    cond_on :
        ltb c.num n ≡ true → c.at_end ≡ false → (ltb_ℤ (pos c.num) (pos n) && not c.at_end) ≡ true
    cond_on l e = ground arith

    few_of :
        {a b : ℕ}
        → c.num < n
        → a ≤ c.num + length m
        → (b ≡ a) ⊎ (b < n + length m)
        → b < n + length m
    few_of l f g = ground arith

    next :
        (c' : Choice)
        → longest m + 2 ≤ suc fuel + acc
        → All (Covered (acc + 1) c') m
        → (c'.at_end ≡ true
            → (true ≡ true) × All (λ (e : Text × List (List ℕ)). length e.1 < acc) m)
        → HasFuel fuel (acc + 1) m c'
    next c' left cov' ended = elim (Bool-cases c'.at_end) [
      | inl e ↦ inl (e, Full-Covered (acc + 1) c' m (All-shorter acc m (ended e).1) cov')
      | inr e ↦ inr (e, omega arith)
    ]
