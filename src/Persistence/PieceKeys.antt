-- ===== src/Persistence/PieceKeys.antt =====
-- The keys of one value in the database (src/enclave/persistence/Persistence.cpp) differ.
use crust_sworker.Prelude.{
  ℕ, ◌≡◌, ◌≢◌, refl, ◌∙◌, Bool-cases, inl, inr, false, [], ◌∷◌, ◌++◌, arith,
}
use crust_sworker.Prelude.Text.{Text, text_eq, text_eq_sound, codes}
use crust_sworker.Prelude.Sorted.{text_eq_sym}
use crust_sworker.Prelude.Decimal.{to_string, to_string-injective, AreDigits, to_string-AreDigits}
use crust_sworker.Persistence.{piece_key, sum_key}

pub text_eq-append : (k s t : Text) → text_eq (k ++ s) (k ++ t) ≡ text_eq s t
unfolding text_eq
text_eq-append [] s t = refl
text_eq-append (x ∷ k) s t = ground (arith, text_eq-append k s t)

text_eq-longer : (k t : Text) (c : ℕ) → text_eq k (k ++ (c ∷ t)) ≡ false
unfolding text_eq
text_eq-longer [] t c = refl
text_eq-longer (x ∷ k) t c = ground (arith, text_eq-longer k t c)

digits_sum : (t : Text) → AreDigits t → text_eq (codes "sum") t ≡ false
unfolding text_eq
digits_sum [] h = refl
digits_sum (c ∷ t) h = ground arith

text_eq-to_string : (i j : ℕ) → i ≢ j → text_eq (to_string i) (to_string j) ≡ false
text_eq-to_string i j ne = elim (Bool-cases (text_eq (to_string i) (to_string j))) [
  | inl e ↦ absurd (ne (to_string-injective i j (text_eq_sound (to_string i) (to_string j) e)))
  | inr e ↦ e
]

pub piece_key_ne :
    (key : Text) (i j : ℕ) → i ≢ j → text_eq (piece_key key i) (piece_key key j) ≡ false
unfolding piece_key text_eq
piece_key_ne key i j ne =
    text_eq-append key (b'_' ∷ to_string i) (b'_' ∷ to_string j) ∙ text_eq-to_string i j ne

pub key_ne-piece_key : (key : Text) (i : ℕ) → text_eq key (piece_key key i) ≡ false
unfolding piece_key
key_ne-piece_key key i = text_eq-longer key (to_string i) b'_'

pub sum_key_ne-piece_key : (key : Text) (i : ℕ) → text_eq (sum_key key) (piece_key key i) ≡ false
unfolding piece_key sum_key text_eq
sum_key_ne-piece_key key i =
    text_eq-append key (codes "_sum") (b'_' ∷ to_string i)
    ∙ digits_sum (to_string i) (to_string-AreDigits i)

pub piece_key_ne-sum_key : (key : Text) (i : ℕ) → text_eq (piece_key key i) (sum_key key) ≡ false
piece_key_ne-sum_key key i =
    text_eq_sym (piece_key key i) (sum_key key) ∙ sum_key_ne-piece_key key i

pub key_ne-sum_key : (key : Text) → text_eq key (sum_key key) ≡ false
unfolding sum_key
key_ne-sum_key key = text_eq-longer key (codes "sum") b'_'

pub sum_key_ne-key : (key : Text) → text_eq (sum_key key) key ≡ false
sum_key_ne-key key = text_eq_sym (sum_key key) key ∙ key_ne-sum_key key
