-- ===== src/Prelude/Sets.antt =====
-- `std::set<size_t>` as an increasing list.
use Prim.Native.Nat.{ℕ, ◌+◌, ◌<◌}
use mathlib.Core.Path.{◌≡◌, refl}
use mathlib.Core.Bool.{Bool, true, false, ◌||◌}
use mathlib.Core.List.{List, [], ◌∷◌, ◌++◌}
use native.Mathlib.Omega.{arith}
use mathlib.Core.Path.{◌∙◌, sym}
use mathlib.Core.Logic.{inl, inr}
use mathlib.Core.Bool.{false≢true}
use crust_sworker.Prelude.Lists.{length}
use Prim.Native.Nat.{◌≤◌}
use crust_sworker.Prelude.Tests.{ltb, ltb→lt, ◌==◌, if◌then◌else◌, Bool-cases}
use crust_sworker.Prelude.Predicates.{All}

unfoldable pub set_insert : ℕ → List ℕ → List ℕ
set_insert i [] = i ∷ []
set_insert i (x ∷ xs) =
    if i == x then x ∷ xs else (if ltb i x then i ∷ x ∷ xs else x ∷ set_insert i xs)

unfoldable pub set_erase : ℕ → List ℕ → List ℕ
set_erase i [] = []
set_erase i (x ∷ xs) = if i == x then xs else x ∷ set_erase i xs

unfoldable pub set_has : ℕ → List ℕ → Bool
set_has i [] = false
set_has i (x ∷ xs) = (i == x) || set_has i xs

-- An index above all others goes to the end, and comes off it again.
pub set_insert-above :
    (i : ℕ) (xs : List ℕ) → All (λ x. x < i) xs → set_insert i xs ≡ xs ++ (i ∷ [])
unfolding set_insert
set_insert-above i [] h = refl
set_insert-above i (x ∷ xs) h = ground (arith, set_insert-above i xs h.1)

pub set_erase-last : (i : ℕ) (xs : List ℕ) → All (λ x. x < i) xs → set_erase i (xs ++ (i ∷ [])) ≡ xs
unfolding set_erase
set_erase-last i [] h = ground arith
set_erase-last i (x ∷ xs) h = ground (arith, set_erase-last i xs h.1)

pub set_erase-above : (i : ℕ) (xs : List ℕ) → All (λ x. x < i) xs → set_erase i xs ≡ xs
unfolding set_erase
set_erase-above i [] h = refl
set_erase-above i (x ∷ xs) h = ground (arith, set_erase-above i xs h.1)

pub All-below-suc : (i : ℕ) (xs : List ℕ) → All (λ x. x < i) xs → All (λ x. x < i + 1) xs
All-below-suc i [] h = tt
All-below-suc i (x ∷ xs) h = (omega arith, All-below-suc i xs h.1)

pub All-below-append :
    (i : ℕ) (xs : List ℕ) → All (λ x. x < i) xs → All (λ x. x < i + 1) (xs ++ (i ∷ []))
All-below-append i [] h = (omega arith, tt)
All-below-append i (x ∷ xs) h = (omega arith, All-below-append i xs h.1)

-- The elements increase.
abbrev pub Increasing : List ℕ → Type 0
Increasing [] = Unit
Increasing (x ∷ xs) = All (λ y. x < y) xs × Increasing xs

pub All-set_insert {κ} :
    (P : ℕ → Type κ) (i : ℕ) (xs : List ℕ) → P i → All P xs → All P (set_insert i xs)
unfolding set_insert
All-set_insert P i [] p h = (p, tt)
All-set_insert P i (x ∷ xs) p h = elim (Bool-cases (i == x)) [
  | inl e ↦ rw e h
  | inr e ↦ elim (Bool-cases (ltb i x)) [
    | inl l ↦ rw (e, l) (p, h)
    | inr l ↦ rw (e, l) (h.0, All-set_insert P i xs p h.1)
  ]
]

All-above : (i x : ℕ) (xs : List ℕ) → i < x → All (λ y. x < y) xs → All (λ y. i < y) xs
All-above i x [] l h = tt
All-above i x (y ∷ xs) l h = (omega arith, All-above i x xs l h.1)

pub set_insert-Increasing : (i : ℕ) (xs : List ℕ) → Increasing xs → Increasing (set_insert i xs)
unfolding set_insert
set_insert-Increasing i [] s = (tt, tt)
set_insert-Increasing i (x ∷ xs) (above, s) = elim (Bool-cases (i == x)) [
  | inl e ↦ rw e (above, s)
  | inr e ↦ elim (Bool-cases (ltb i x)) [
    | inl l ↦ rw (e, l) ((ltb→lt i x l, All-above i x xs (ltb→lt i x l) above), (above, s))
    | inr l ↦
        rw (e, l)
          (All-set_insert (λ y. x < y) i xs (ground arith) above, set_insert-Increasing i xs s)
  ]
]

pub set_has-set_insert :
    (i j : ℕ) (xs : List ℕ) → set_has j (set_insert i xs) ≡ (j == i) || set_has j xs
unfolding set_has set_insert
set_has-set_insert i j [] = ground arith
set_has-set_insert i j (x ∷ xs) = ground (arith, set_has-set_insert i j xs)

pub length-set_insert :
    (i : ℕ) (xs : List ℕ) → set_has i xs ≡ false → length (set_insert i xs) ≡ length xs + 1
unfolding set_has set_insert
length-set_insert i [] h = ground arith
length-set_insert i (x ∷ xs) h = ground (arith, length-set_insert i xs)

set_has-above : (b : ℕ) (xs : List ℕ) → All (λ y. b < y) xs → set_has b xs ≡ false
unfolding set_has
set_has-above b [] h = refl
set_has-above b (x ∷ xs) h = ground (arith, set_has-above b xs h.1)

All-next : (b x : ℕ) (xs : List ℕ) → x ≡ b → All (λ y. x < y) xs → All (λ y. b + 1 ≤ y) xs
All-next b x [] e h = tt
All-next b x (y ∷ xs) e h = (omega arith, All-next b x xs e h.1)

-- An increasing list from `b` on that has all numbers from `b` to `n` has as many elements.
pub covered_length :
    (b n : ℕ) (xs : List ℕ)
    → Increasing xs
    → All (λ y. b ≤ y) xs
    → ((t : ℕ) → b ≤ t → t < n → set_has t xs ≡ true)
    → n ≤ b + length xs
unfolding set_has
covered_length b n [] s low h = elim (Bool-cases (ltb b n)) [
  | inl l ↦ absurd (false≢true (h b (omega arith) (ltb→lt b n l)))
  | inr l ↦ ground arith
]
covered_length b n (x ∷ xs) (above, s) low h = elim (Bool-cases (ltb b n)) [
  | inr l ↦ ground arith
  | inl l ↦ elim (Bool-cases (x == b)) [
    | inr ne ↦ absurd (
        false≢true (
          sym (set_has-above b (x ∷ xs) (ground arith, All-above b x xs (ground arith) above))
          ∙ h b (omega arith) (ltb→lt b n l)))
    | inl e ↦ ground (
      arith,
      covered_length (b + 1) n xs s (All-next b x xs (ground arith) above)
          (λ t above_b below_n. ground (arith, h t (omega arith) below_n)),
    )
  ]
]
