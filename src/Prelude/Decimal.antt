-- ===== src/Prelude/Decimal.antt =====
-- `std::to_string` on the non-negative and on the signed integers.
use Prim.Native.Nat.{ℕ, zero, suc, ◌+◌, ◌-◌, ◌*◌, ◌/◌, ◌%◌, ◌<◌}
use mathlib.Core.Path.{◌≡◌, ap, sym, ◌∙◌}
use native.Mathlib.Omega.{arith}
use mathlib.Core.Logic.{inl, inr}
use crust_sworker.Prelude.Tests.{ltb→lt, ltb→le, Bool-cases}
use crust_sworker.Prelude.Predicates.{All}
use mathlib.Core.Bool.{true, false}
use mathlib.Core.List.{[], ◌∷◌}
use crust_sworker.Prelude.Tests.{ltb}
use crust_sworker.Prelude.Text.{Text}
use crust_sworker.Prelude.Int.{ℤ, pos, negsuc}

-- The digits of `n` in front of `out`. There are fewer digits than `n + 1`, which is the fuel.
unfoldable pub dec_digits : ℕ → ℕ → Text → Text
dec_digits zero n out = out
dec_digits (suc fuel) n out = elim (ltb n 10) [
  | true ↦ (b'0' + n) ∷ out
  | false ↦ dec_digits fuel (n / 10) ((b'0' + n % 10) ∷ out)
]

unfoldable pub to_string : ℕ → Text
unfolding dec_digits
to_string n = dec_digits (suc n) n []

unfoldable pub int_to_string : ℤ → Text
unfolding to_string
int_to_string (pos n) = to_string n
int_to_string (negsuc n) = b'-' ∷ to_string (suc n)

-- The number that a text of digits stands for, after the digits of `acc`.
abbrev pub digits_value : ℕ → Text → ℕ
digits_value acc [] = acc
digits_value acc (c ∷ cs) = digits_value (acc * 10 + (c - b'0')) cs

digits_value-dec_digits :
    (fuel n : ℕ) (out : Text)
    → n < fuel
    → digits_value 0 (dec_digits fuel n out) ≡ digits_value n out
unfolding dec_digits
digits_value-dec_digits zero n out h = absurd (omega arith)
digits_value-dec_digits (suc fuel) n out h = elim (Bool-cases (ltb n 10)) [
  | inl e ↦ let l = ltb→lt n 10 e in rw (dec_digits, e) (ap (λ a. digits_value a out) (omega arith))
  | inr e ↦
      let le = ltb→le n 10 e in
      rw (dec_digits, e)
        (digits_value-dec_digits fuel (n / 10) ((b'0' + n % 10) ∷ out) (omega arith)
          ∙ ap (λ a. digits_value a out) (omega arith))
]

-- Different numbers have different texts.
pub to_string-injective : (m n : ℕ) → to_string m ≡ to_string n → m ≡ n
unfolding to_string
to_string-injective m n e =
    sym (digits_value-dec_digits (suc m) m [] (omega arith))
    ∙ ap (digits_value 0) e
    ∙ digits_value-dec_digits (suc n) n [] (omega arith)

abbrev pub AreDigits : Text → Type 0
AreDigits = All (λ c. (47 < c) × (c < 58))

dec_digits-AreDigits : (fuel n : ℕ) (out : Text) → AreDigits out → AreDigits (dec_digits fuel n out)
unfolding dec_digits
dec_digits-AreDigits zero n out h = h
dec_digits-AreDigits (suc fuel) n out h = elim (Bool-cases (ltb n 10)) [
  | inl e ↦ let l = ltb→lt n 10 e in rw (dec_digits, e) ((omega arith, omega arith), h)
  | inr e ↦
      rw (dec_digits, e)
        (dec_digits-AreDigits fuel (n / 10) ((b'0' + n % 10) ∷ out) ((omega arith, omega arith), h))
]

pub to_string-AreDigits : (n : ℕ) → AreDigits (to_string n)
unfolding to_string
to_string-AreDigits n = dec_digits-AreDigits (suc n) n [] tt
