-- ===== src/Srd/Decrease/Kept.antt =====
-- Which hashes stay after the chosen G are erased (`srd_decrease` in src/enclave/srd/Srd.cpp).
use crust_sworker.Prelude.{
  ℕ, ◌≡◌, refl, sym, ap, ◌∙◌, inl, inr, true, false, List, [], ◌∷◌, some, All, Bool-cases,
}
use crust_sworker.Prelude.Text.{Text, text_eq, text_eq_sound, text_eq_refl, text_lt}
use crust_sworker.Prelude.Map.{lookup, update}
use crust_sworker.Prelude.Sorted.{
  IsSorted, value_or, lookup-above, lookup-update_same, lookup-update_other, update-IsSorted,
}
use crust_sworker.Srd.{SrdMap}
use crust_sworker.Srd.Decrease.{DelMap, indexes_of, erase_indexes, erase_chosen}
use crust_sworker.Srd.Decrease.Choose.{IsChosen}
use crust_sworker.Srd.Decrease.Erase.{kept, kept-none, erase_indexes-kept, InRange-update}

-- The indexes that an entry and the later entries give a path.
indexes_of-head :
    (p : Text) (s : List ℕ) (del : DelMap)
    → All (λ (e : Text × List ℕ). text_lt p e.0 ≡ true) del
    → (indexes_of p ((p, s) ∷ del) ≡ s) × (indexes_of p del ≡ [])
unfolding lookup
indexes_of-head p s del above =
    (rw (text_eq_refl p) refl, ap (value_or []) (lookup-above p del above))

indexes_of-tail :
    (q p : Text) (s : List ℕ) (del : DelMap)
    → text_eq q p ≡ false
    → indexes_of q ((p, s) ∷ del) ≡ indexes_of q del
unfolding lookup
indexes_of-tail q p s del ne = rw ne refl

-- At each path exactly the hashes at the chosen indexes are gone.
pub lookup-erase_chosen :
    (q : Text) (hashs : List (List ℕ)) (del : DelMap) (m : SrdMap)
    → IsSorted m
    → IsChosen m del
    → lookup q m ≡ some hashs
    → lookup q (erase_chosen del m).1 ≡ some (kept 0 (indexes_of q del) hashs)
unfolding erase_chosen lookup
lookup-erase_chosen q hashs [] m s c found = found ∙ ap some (sym (kept-none 0 hashs))
lookup-erase_chosen q hashs ((p, []) ∷ del) m s c found =
    let ih =
      lookup-erase_chosen q hashs del m s (record { sorted = c.sorted.1; in_range = c.in_range.1 })
        found in
    elim (Bool-cases (text_eq q p)) [
      | inr ne ↦ ih ∙ ap (λ i. some (kept 0 i hashs)) (sym (indexes_of-tail q p [] del ne))
      | inl e ↦
          let h = indexes_of-head p [] del c.sorted.0 in
          ih
          ∙ ap (λ i. some (kept 0 i hashs))
              (ap (λ k. indexes_of k del) (text_eq_sound q p e)
                ∙ h.1
                ∙ sym h.0
                ∙ ap (λ k. indexes_of k ((p, []) ∷ del)) (sym (text_eq_sound q p e)))
    ]
lookup-erase_chosen q hashs ((p, i ∷ is) ∷ del) m s c found =
    let (hs, there, inc, low) = c.in_range.0 in
    let f = λ (h : List (List ℕ)). (erase_indexes (i ∷ is) h).1 in
    let m' = update p [] f m in
    let c' : IsChosen m' del = record {
      sorted = c.sorted.1;
      in_range = InRange-update p f m del c.sorted.0 c.in_range.1;
    } in
    let s' = update-IsSorted p [] f m s in
    elim (Bool-cases (text_eq q p)) [
      | inr ne ↦
          lookup-erase_chosen q hashs del m' s' c' (lookup-update_other q p [] f m ne ∙ found)
          ∙ ap (λ k. some (kept 0 k hashs)) (sym (indexes_of-tail q p (i ∷ is) del ne))
      | inl e ↦
          let same = text_eq_sound q p e in
          let h = indexes_of-head p (i ∷ is) del c.sorted.0 in
          let at_p = ap (λ k. lookup k m) (sym same) ∙ found in
          let now =
            ap (λ k. lookup k m') same
            ∙ lookup-update_same p [] f m s
            ∙ ap (λ v. some (f (value_or [] v))) at_p
            ∙ ap some (erase_indexes-kept (i ∷ is) hashs inc) in
          lookup-erase_chosen q (kept 0 (i ∷ is) hashs) del m' s' c' now
          ∙ ap (λ k. some (kept 0 k (kept 0 (i ∷ is) hashs)))
              (ap (λ k. indexes_of k del) same ∙ h.1)
          ∙ ap some (kept-none 0 (kept 0 (i ∷ is) hashs))
          ∙ ap (λ k. some (kept 0 k hashs))
              (sym h.0 ∙ ap (λ k. indexes_of k ((p, i ∷ is) ∷ del)) (sym same))
    ]
