-- ===== src/Prelude/Sorted.antt =====
-- A `std::map` keeps its keys in increasing order: what a write does to the entries, then.

use mathlib.Core.Path.{◌≡◌, refl, sym, ap₂, ◌∙◌, subst}
use mathlib.Core.Logic.{inl, inr}
use mathlib.Core.Bool.{true, false, false≢true}
use mathlib.Core.Option.{Option, none, some}
use mathlib.Core.List.{[], ◌∷◌}
use native.Mathlib.Omega.{arith}
use crust_sworker.Prelude.Tests.{Bool-cases}
use crust_sworker.Prelude.Predicates.{All}
use crust_sworker.Prelude.Text.{Text, text_eq, text_eq_sound, text_eq_refl, text_lt}
use crust_sworker.Prelude.Map.{Map, lookup, update}

pub text_lt_trans : (s t u : Text) → text_lt s t ≡ true → text_lt t u ≡ true → text_lt s u ≡ true
unfolding text_lt
text_lt_trans s t [] h k = absurd (false≢true k)
text_lt_trans s [] (z ∷ u) h k = absurd (false≢true h)
text_lt_trans [] (y ∷ t) (z ∷ u) h k = refl
text_lt_trans (x ∷ s) (y ∷ t) (z ∷ u) h k = ground (arith, text_lt_trans s t u)

pub text_lt-text_eq : (s t : Text) → text_lt s t ≡ true → text_eq s t ≡ false
unfolding text_lt text_eq
text_lt-text_eq s [] h = absurd (false≢true h)
text_lt-text_eq [] (y ∷ t) h = refl
text_lt-text_eq (x ∷ s) (y ∷ t) h = ground (arith, text_lt-text_eq s t)

pub text_lt_total : (s t : Text) → text_eq s t ≡ false → text_lt s t ≡ false → text_lt t s ≡ true
unfolding text_lt text_eq
text_lt_total [] [] h k = absurd (false≢true (sym h))
text_lt_total [] (y ∷ t) h k = absurd (false≢true (sym k))
text_lt_total (x ∷ s) [] h k = refl
text_lt_total (x ∷ s) (y ∷ t) h k = ground (arith, text_lt_total s t)

pub text_eq_sym : (s t : Text) → text_eq s t ≡ text_eq t s
unfolding text_eq
text_eq_sym [] [] = refl
text_eq_sym [] (y ∷ t) = refl
text_eq_sym (x ∷ s) [] = refl
text_eq_sym (x ∷ s) (y ∷ t) = ground (arith, text_eq_sym s t)

module _ {ℓ} {V : Type ℓ} where
  -- The keys are increasing.
  abbrev pub IsSorted : Map V → Type ℓ
  IsSorted [] = Unit
  IsSorted ((k, v) ∷ m) = All (λ (e : Text × V). text_lt k e.0 ≡ true) m × IsSorted m

  pub All-lookup {κ} :
      (P : Text × V → Type κ) (k : Text) (m : Map V) (v : V)
      → All P m
      → lookup k m ≡ some v
      → P (k, v)
  unfolding lookup
  All-lookup P k [] v h q = cc
  All-lookup P k ((j, w) ∷ m) v h q = elim (Bool-cases (text_eq k j)) [
    | inl e ↦
        subst P (ap₂ (λ (a : Text) (b : V). (a, b)) (sym (text_eq_sound k j e)) (ground arith)) h.0
    | inr e ↦ All-lookup P k m v h.1 (ground arith)
  ]

  pub All-update {κ} :
      (P : Text × V → Type κ) (k : Text) (d : V) (f : V → V) (m : Map V)
      → P (k, f d)
      → ((v : V) → P (k, v) → P (k, f v))
      → All P m
      → All P (update k d f m)
  unfolding update
  All-update P k d f [] p q h = (p, tt)
  All-update P k d f ((j, v) ∷ m) p q h = elim (Bool-cases (text_eq k j)) [
    | inl e ↦
        let same = text_eq_sound k j e in
        rw e (subst (λ i. P (i, f v)) same (q v (subst (λ i. P (i, v)) (sym same) h.0)), h.1)
    | inr e ↦ elim (Bool-cases (text_lt k j)) [
      | inl l ↦ rw (e, l) (p, h)
      | inr l ↦ rw (e, l) (h.0, All-update P k d f m p q h.1)
    ]
  ]

  -- A smaller key is below all keys.
  pub All-text_lt :
      (k j : Text) (m : Map V)
      → text_lt k j ≡ true
      → All (λ (e : Text × V). text_lt j e.0 ≡ true) m
      → All (λ (e : Text × V). text_lt k e.0 ≡ true) m
  All-text_lt k j [] l h = tt
  All-text_lt k j (e ∷ m) l h = (text_lt_trans k j e.0 l h.0, All-text_lt k j m l h.1)

  pub update-IsSorted :
      (k : Text) (d : V) (f : V → V) (m : Map V) → IsSorted m → IsSorted (update k d f m)
  unfolding update
  update-IsSorted k d f [] s = (tt, tt)
  update-IsSorted k d f ((j, v) ∷ m) (above, s) = elim (Bool-cases (text_eq k j)) [
    | inl e ↦ rw e (above, s)
    | inr e ↦ elim (Bool-cases (text_lt k j)) [
      | inl l ↦ rw (e, l) ((l, All-text_lt k j m l above), (above, s))
      | inr l ↦
          rw (e, l)
            (
              All-update (λ (x : Text × V). text_lt j x.0 ≡ true) k d f m (text_lt_total k j e l)
                  (λ v h. h) above,
              update-IsSorted k d f m s,
            )
    ]
  ]

  pub lookup-above :
      (k : Text) (m : Map V) → All (λ (e : Text × V). text_lt k e.0 ≡ true) m → lookup k m ≡ none
  unfolding lookup
  lookup-above k [] h = refl
  lookup-above k ((j, v) ∷ m) h = rw (text_lt-text_eq k j h.0) (lookup-above k m h.1)

  -- The value at a key, or `d`.
  abbrev pub value_or : V → Option V → V
  value_or d none = d
  value_or d (some v) = v

  pub lookup-update_same :
      (k : Text) (d : V) (f : V → V) (m : Map V)
      → IsSorted m
      → lookup k (update k d f m) ≡ some (f (value_or d (lookup k m)))
  unfolding update lookup
  lookup-update_same k d f [] s = rw (text_eq_refl k) refl
  lookup-update_same k d f ((j, v) ∷ m) (above, s) = elim (Bool-cases (text_eq k j)) [
    | inl e ↦ rw (e, e) refl
    | inr e ↦ elim (Bool-cases (text_lt k j)) [
      | inl l ↦ rw (e, l, text_eq_refl k, lookup-above k m (All-text_lt k j m l above)) refl
      | inr l ↦ rw (e, l, e) (lookup-update_same k d f m s)
    ]
  ]

  pub lookup-update_other :
      (i k : Text) (d : V) (f : V → V) (m : Map V)
      → text_eq i k ≡ false
      → lookup i (update k d f m) ≡ lookup i m
  unfolding update lookup
  lookup-update_other i k d f [] ne = rw ne refl
  lookup-update_other i k d f ((j, v) ∷ m) ne = elim (Bool-cases (text_eq k j)) [
    | inl e ↦ rw (e, subst (λ t. text_eq i t ≡ false) (text_eq_sound k j e) ne) refl
    | inr e ↦ elim (Bool-cases (text_lt k j)) [
      | inl l ↦ rw (e, l, ne) refl
      | inr l ↦ rw (e, l, lookup-update_other i k d f m ne) refl
    ]
  ]

  -- Each entry of a sorted map is found under its key.
  pub IsSorted-lookup : (m : Map V) → IsSorted m → All (λ (e : Text × V). lookup e.0 m ≡ some e.1) m
  unfolding lookup
  IsSorted-lookup [] s = tt
  IsSorted-lookup ((k, v) ∷ m) (above, s) =
      (rw (text_eq_refl k) refl, later m above (IsSorted-lookup m s))
    where
      later :
          (n : Map V)
          → All (λ (e : Text × V). text_lt k e.0 ≡ true) n
          → All (λ (e : Text × V). lookup e.0 m ≡ some e.1) n
          → All (λ (e : Text × V). lookup e.0 ((k, v) ∷ m) ≡ some e.1) n
      later [] a h = tt
      later (e ∷ n) a h = (rw (text_eq_sym e.0 k ∙ text_lt-text_eq k e.0 a.0) h.0, later n a.1 h.1)
