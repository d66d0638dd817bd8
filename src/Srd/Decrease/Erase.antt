-- ===== src/Srd/Decrease/Erase.antt =====
-- Erasing the chosen indexes from the last on (`srd_decrease` in
-- src/enclave/srd/Srd.cpp).
use crust_sworker.Prelude.{
  ℕ, zero, suc, ◌+◌, ◌<◌, ◌≤◌, ◌≡◌, refl, sym, ap, ◌∙◌, true, false, List, [], ◌∷◌, none, some,
  arith, if◌then◌else◌, length, All, Bool-cases, inl, inr,
}
use crust_sworker.Prelude.Text.{Text, text_eq, text_lt}
use crust_sworker.Prelude.Map.{lookup, update}
use crust_sworker.Prelude.Sets.{set_has, Increasing}
use crust_sworker.Prelude.Sorted.{
  IsSorted, text_eq_sym, text_lt-text_eq, lookup-update_other, lookup-above, All-text_lt,
  update-IsSorted,
}
use crust_sworker.Srd.{SrdMap, srd_total}
use crust_sworker.Srd.Decrease.{DelMap, del_total, erase_at, erase_indexes, erase_chosen}
use crust_sworker.Srd.Decrease.Choose.{InRange, IsChosen}

-- The elements whose index, counted from `b` on, is not in the set.
unfoldable pub kept {ℓ} : {A : Type ℓ} → ℕ → List ℕ → List A → List A
kept b s [] = []
kept b s (x ∷ xs) = let rest = kept (b + 1) s xs in if set_has b s then rest else x ∷ rest

pub kept-none {ℓ} : {A : Type ℓ} (b : ℕ) (xs : List A) → kept b [] xs ≡ xs
unfolding kept set_has
kept-none b [] = refl
kept-none b (x ∷ xs) = ap (λ l. x ∷ l) (kept-none (b + 1) xs)

not_in : (i b : ℕ) (js : List ℕ) → b ≤ i → All (λ y. i < y) js → set_has b js ≡ false
unfolding set_has
not_in i b [] l h = refl
not_in i b (j ∷ js) l h = ground (arith, not_in i b js l h.1)

-- An index below all others, at its place.
module _ {ℓ} {A : Type ℓ} (i : ℕ) (is : List ℕ) (above : All (λ y. i < y) is) where
  kept-past : (b : ℕ) (xs : List A) → i < b → kept b (i ∷ is) xs ≡ kept b is xs
  unfolding kept set_has
  kept-past b [] l = refl
  kept-past b (x ∷ xs) l = ground (arith, kept-past (b + 1) xs)

  erase_at-kept :
      (k b : ℕ) (xs : List A) → b + k ≡ i → erase_at k (kept b is xs) ≡ kept b (i ∷ is) xs
  unfolding kept set_has erase_at
  erase_at-kept k b [] e = refl
  erase_at-kept zero b (x ∷ xs) e =
      ground (arith, not_in i b is (omega arith) above, kept-past (b + 1) xs)
  erase_at-kept (suc k) b (x ∷ xs) e =
      ground (arith, not_in i b is (omega arith) above, erase_at-kept k (b + 1) xs (omega arith))

pub erase_indexes-kept :
    (s : List ℕ) (hashs : List (List ℕ)) → Increasing s → (erase_indexes s hashs).1 ≡ kept 0 s hashs
unfolding erase_indexes
erase_indexes-kept [] hashs inc = sym (kept-none 0 hashs)
erase_indexes-kept (i ∷ is) hashs (above, inc) =
    ap (erase_at i) (erase_indexes-kept is hashs inc)
    ∙ erase_at-kept i is above i 0 hashs (omega arith)

-- As many hashes go as there are indexes in range.
length-erase_at {ℓ} :
    {A : Type ℓ} (i : ℕ) (xs : List A) → i < length xs → length (erase_at i xs) + 1 ≡ length xs
unfolding erase_at
length-erase_at i [] h = absurd (omega arith)
length-erase_at zero (x ∷ xs) h = omega arith
length-erase_at (suc i) (x ∷ xs) h = omega (arith, length-erase_at i xs (omega arith))

room :
    (i n : ℕ) (is : List ℕ)
    → i < n
    → All (λ y. i < y) is
    → Increasing is
    → All (λ y. y < n) is
    → i + length is < n
room i n [] h a inc low = omega arith
room i n (j ∷ js) h a (above, inc) low = omega (arith, room j n js low.0 above inc low.1, a.0)

length-erase_indexes :
    (s : List ℕ) (hashs : List (List ℕ))
    → Increasing s
    → All (λ i. i < length hashs) s
    → length (erase_indexes s hashs).1 + length s ≡ length hashs
unfolding erase_indexes
length-erase_indexes [] hashs inc low = omega arith
length-erase_indexes (i ∷ is) hashs (above, inc) low =
    let ih = length-erase_indexes is hashs inc low.1 in
    omega (
      arith,
      ih,
      length-erase_at i (erase_indexes is hashs).1
          (omega (arith, ih, room i (length hashs) is low.0 above inc low.1)),
    )

-- The total after the hashes of one path have changed.
srd_total-update :
    (path : Text) (f : List (List ℕ) → List (List ℕ)) (n : ℕ) (hashs : List (List ℕ)) (m : SrdMap)
    → IsSorted m
    → lookup path m ≡ some hashs
    → length (f hashs) + n ≡ length hashs
    → srd_total (update path [] f m) + n ≡ srd_total m
unfolding srd_total update lookup
srd_total-update path f n hashs [] sorted found h = cc
srd_total-update path f n hashs ((q, xs) ∷ m) (above, sorted) found h =
    elim (Bool-cases (text_eq path q)) [
      | inl e ↦ ground arith
      | inr e ↦ elim (Bool-cases (text_lt path q)) [
        | inl l ↦
            absurd (none_some (sym (lookup-above path m (All-text_lt path q m l above)) ∙ found' e))
        | inr l ↦ ground (arith, srd_total-update path f n hashs m sorted (found' e) h)
      ]
    ]
  where
    found' : text_eq path q ≡ false → lookup path m ≡ some hashs
    found' e = ground arith

    none_some : ¬ (none ≡ some hashs)
    none_some e = cc

-- The other entries are still in range.
pub InRange-update :
    (path : Text) (f : List (List ℕ) → List (List ℕ)) (m : SrdMap) (del : DelMap)
    → All (λ (e : Text × List ℕ). text_lt path e.0 ≡ true) del
    → All (InRange m) del
    → All (InRange (update path [] f m)) del
InRange-update path f m [] above h = tt
InRange-update path f m (e ∷ del) above ((hashs, found, inc, low), h) = (
  (
    hashs,
    lookup-update_other e.0 path [] f m (text_eq_sym e.0 path ∙ text_lt-text_eq path e.0 above.0)
        ∙ found,
    inc,
    low,
  ),
  InRange-update path f m del above.1 h,
)

-- Erasing the chosen G takes exactly as many off the total.
pub srd_total-erase_chosen :
    (del : DelMap) (m : SrdMap)
    → IsSorted m
    → IsChosen m del
    → srd_total (erase_chosen del m).1 + del_total del ≡ srd_total m
unfolding erase_chosen del_total
srd_total-erase_chosen [] m s c = omega arith
srd_total-erase_chosen ((path, []) ∷ del) m s c = omega (
  arith,
  srd_total-erase_chosen del m s (record { sorted = c.sorted.1; in_range = c.in_range.1 }),
)
srd_total-erase_chosen ((path, i ∷ is) ∷ del) m s c =
    let (hashs, found, inc, low) = c.in_range.0 in
    let f = λ (h : List (List ℕ)). (erase_indexes (i ∷ is) h).1 in
    let m' = update path [] f m in
    omega (
      arith,
      srd_total-update path f (length (i ∷ is)) hashs m s found
          (length-erase_indexes (i ∷ is) hashs inc low),
      srd_total-erase_chosen del m' (update-IsSorted path [] f m s) (record {
        sorted = c.sorted.1;
        in_range = InRange-update path f m del c.sorted.0 c.in_range.1;
      }),
    )
