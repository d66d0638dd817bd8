-- ===== src/Srd/Decrease/Choose.antt =====
-- The choice of the G to delete (`srd_decrease` in src/enclave/srd/Srd.cpp): which
-- indexes a round takes, and how many.
use crust_sworker.Prelude.{
  ℕ, ◌+◌, ◌-◌, ◌^◌, ◌<◌, ◌≤◌, ◌≡◌, refl, inl, inr, true, false, ◌&&◌, ◌||◌, List, [], ◌∷◌, some,
  arith, ltb, leb, ◌==◌, length, All, Bool-cases,
}
use crust_sworker.Prelude.Text.{Text, text_eq, text_eq_sound, text_eq_refl}
use crust_sworker.Prelude.Map.{lookup, update}
use crust_sworker.Prelude.Sets.{
  set_insert, set_has, Increasing, All-set_insert, set_insert-Increasing, set_has-set_insert,
  length-set_insert,
}
use crust_sworker.Prelude.Sorted.{
  IsSorted, All-update, update-IsSorted, lookup-update_same, lookup-update_other,
}
use crust_sworker.Srd.{SrdMap}
use crust_sworker.Srd.Decrease.{DelMap, indexes_of, del_total, Choice, choose_one, choose_round}

-- The indexes under a path that has hashes are increasing and in range.
abbrev pub InRange : SrdMap → Text × List ℕ → Type 0
InRange m e =
    (hashs : List (List ℕ)) × (lookup e.0 m ≡ some hashs)
    × Increasing e.1
    × All (λ i. i < length hashs) e.1

-- Indexes that may be deleted from `m`.
pub record IsChosen (m : SrdMap) (del : DelMap) : Type 0 where
  pub sorted : IsSorted del
  pub in_range : All (InRange m) del

-- One more index, for a path and an index that are there.
pub insert-IsChosen :
    (m : SrdMap) (path : Text) (hashs : List (List ℕ)) (t : ℕ) (del : DelMap)
    → lookup path m ≡ some hashs
    → t < length hashs
    → IsChosen m del
    → IsChosen m (update path [] (set_insert t) del)
insert-IsChosen m path hashs t del found below c = record {
  sorted = update-IsSorted path [] (set_insert t) del c.sorted;
  in_range =
      All-update (InRange m) path [] (set_insert t) del
        (
          hashs,
          found,
          set_insert-Increasing t [] tt,
          All-set_insert (λ i. i < length hashs) t [] below tt,
        )
        (λ v (hs, f, inc, low). (
          hs,
          f,
          set_insert-Increasing t v inc,
          All-set_insert (λ i. i < length hs) t v (same hs f) low,
        ))
        c.in_range;
}
  where
    same : (hs : List (List ℕ)) → lookup path m ≡ some hs → t < length hs
    same hs f = ground (arith, found, f, below)

-- The index that is new is counted.
pub del_total-insert :
    (path : Text) (t : ℕ) (del : DelMap)
    → set_has t (indexes_of path del) ≡ false
    → del_total (update path [] (set_insert t) del) ≡ del_total del + 1
unfolding del_total update lookup set_insert
del_total-insert path t [] h = omega arith
del_total-insert path t ((p, s) ∷ del) h =
    ground (arith, length-set_insert t s, del_total-insert path t del)

-- What an index more does to the indexes under any path.
pub indexes_of-insert :
    (path q : Text) (t u : ℕ) (del : DelMap)
    → IsSorted del
    → set_has u (indexes_of q (update path [] (set_insert t) del))
      ≡ (text_eq q path && (u == t)) || set_has u (indexes_of q del)
indexes_of-insert path q t u del s = elim (Bool-cases (text_eq q path)) [
  | inr ne ↦ rw (lookup-update_other q path [] (set_insert t) del ne, ne) refl
  | inl e ↦
      rw
        (text_eq_sound q path e, lookup-update_same path [] (set_insert t) del s, text_eq_refl path)
        (set_has-set_insert t u (indexes_of path del))
]

-- The choice only grows.
abbrev Grows : Choice → Choice → Type 0
Grows c c' =
    (q : Text) (u : ℕ)
    → set_has u (indexes_of q c.del) ≡ true
    → set_has u (indexes_of q c'.del) ≡ true

-- What a part of a round keeps, for at most `n` paths.
pub record Step (m : SrdMap) (n : ℕ) (c c' : Choice) : Type 0 where
  pub chosen : IsChosen m c'.del
  pub counted : c'.num ≡ del_total c'.del
  pub grows : Grows c c'
  pub more : c.num ≤ c'.num
  pub few : c'.num ≤ c.num + n

choose_one-Step :
    (m : SrdMap) (acc : ℕ) (path : Text) (hashs : List (List ℕ)) (c : Choice)
    → lookup path m ≡ some hashs
    → 0 < acc
    → c.num + 1 < 2 ^ 32
    → c.num ≡ del_total c.del
    → IsChosen m c.del
    → Step m 1 c (choose_one acc path hashs c)
unfolding choose_one
choose_one-Step m acc path hashs c found pos_acc small counted chosen =
    elim (Bool-cases (leb acc (length hashs))) [
      | inr out ↦ rw out (record {
        chosen = chosen;
        counted = counted;
        grows = λ q u h. h;
        more = omega arith;
        few = omega arith;
      })
      | inl fits ↦ elim (Bool-cases (set_has (length hashs - acc) (indexes_of path c.del))) [
        | inl has ↦
            rw (fits, has)
              (record {
                chosen = chosen;
                counted = counted;
                grows = λ q u h. h;
                more = omega arith;
                few = omega arith;
              })
        | inr new ↦
            let t = length hashs - acc in
            rw (fits, new)
              (record {
                chosen = insert-IsChosen m path hashs t c.del found (ground arith) chosen;
                counted = ground (arith, del_total-insert path t c.del new);
                grows =
                    λ q u h. ground (arith, indexes_of-insert path q t u c.del chosen.sorted, h);
                more = ground arith;
                few = ground arith;
              })
      ]
    ]

-- Of the hashes at a path, the last ones but `acc` are chosen.
abbrev pub Covered : ℕ → Choice → Text × List (List ℕ) → Type 0
Covered acc c e =
    (t : ℕ) → t < length e.1 → length e.1 < acc + t → set_has t (indexes_of e.0 c.del) ≡ true

choose_one-Covered :
    (acc : ℕ) (path : Text) (hashs : List (List ℕ)) (c : Choice)
    → IsSorted c.del
    → Grows c (choose_one acc path hashs c)
    → Covered acc c (path, hashs)
    → Covered (acc + 1) (choose_one acc path hashs c) (path, hashs)
unfolding choose_one
choose_one-Covered acc path hashs c s grows h t below last =
    elim (Bool-cases (ltb (length hashs) (acc + t))) [
      | inl l ↦ grows path t (h t below (ground arith))
      | inr l ↦ elim (Bool-cases (set_has (length hashs - acc) (indexes_of path c.del))) [
        | inl has ↦ ground arith
        | inr new ↦
            ground
              (arith, indexes_of-insert path path (length hashs - acc) t c.del s, text_eq_refl path)
      ]
    ]

choose_one-at_end :
    (acc : ℕ) (path : Text) (hashs : List (List ℕ)) (c : Choice)
    → (choose_one acc path hashs c).at_end ≡ true
    → (c.at_end ≡ true) × (length hashs < acc)
unfolding choose_one
choose_one-at_end acc path hashs c h = ground arith

-- What a round over the paths `part` does.
pub record Round (m part : SrdMap) (acc : ℕ) (c c' : Choice) : Type 0 where
  pub step : Step m (length part) c c'
  pub covered : All (Covered acc c) part → All (Covered (acc + 1) c') part
  pub ended :
      c'.at_end ≡ true
      → (c.at_end ≡ true) × All (λ (e : Text × List (List ℕ)). length e.1 < acc) part

All-Covered-Grows :
    (acc : ℕ) (c c' : Choice) (part : SrdMap)
    → Grows c c'
    → All (Covered acc c) part
    → All (Covered acc c') part
All-Covered-Grows acc c c' [] g h = tt
All-Covered-Grows acc c c' (e ∷ part) g h =
    (λ t below last. g e.0 t (h.0 t below last), All-Covered-Grows acc c c' part g h.1)

pub choose_round-Round :
    (m part : SrdMap) (acc : ℕ) (c : Choice)
    → All (λ (e : Text × List (List ℕ)). lookup e.0 m ≡ some e.1) part
    → 0 < acc
    → c.num + length part < 2 ^ 32
    → c.num ≡ del_total c.del
    → IsChosen m c.del
    → Round m part acc c (choose_round acc part c)
unfolding choose_round
choose_round-Round m [] acc c found p small counted chosen = record {
  step = record {
    chosen = chosen;
    counted = counted;
    grows = λ q u h. h;
    more = omega arith;
    few = omega arith;
  };
  covered = λ h. h;
  ended = λ h. (h, tt);
}
choose_round-Round m ((path, hashs) ∷ part) acc c found p small counted chosen =
    let mid = choose_one acc path hashs c in
    let one = choose_one-Step m acc path hashs c found.0 p (omega arith) counted chosen in
    let few_one = one.few in
    let rest = choose_round-Round m part acc mid found.1 p (omega arith) one.counted one.chosen in
    let s = rest.step in
    record {
      step = record {
        chosen = s.chosen;
        counted = s.counted;
        grows = λ q u h. s.grows q u (one.grows q u h);
        more = omega (arith, one.more, s.more);
        few = omega (arith, one.few, s.few);
      };
      covered = λ h. (
        λ t below last.
            s.grows path t
              (choose_one-Covered acc path hashs c chosen.sorted one.grows h.0 t below last),
        rest.covered (All-Covered-Grows acc c mid part one.grows h.1),
      );
      ended = λ h.
          let (e, short) = rest.ended h in
          let (e', short_one) = choose_one-at_end acc path hashs c e in (e', (short_one, short));
    }
