-- ===== src/Prelude/Map.antt =====
-- `std::map<std::string, V>` as the list of its entries, in the order of the keys.

use mathlib.Core.Option.{Option, none, some}
use mathlib.Core.List.{List, [], ◌∷◌}
use crust_sworker.Prelude.Tests.{if◌then◌else◌}
use crust_sworker.Prelude.Text.{Text, text_eq, text_lt}

abbrev pub Map {ℓ} : Type ℓ → Type ℓ
Map V = List (Text × V)

module _ {ℓ} {V : Type ℓ} where
  unfoldable pub lookup : Text → Map V → Option V
  lookup k [] = none
  lookup k ((j, v) ∷ m) = if text_eq k j then some v else lookup k m

  -- `m[k] = f(m[k])`: a missing key is first given the value `d`, at its place in the order.
  unfoldable pub update : Text → V → (V → V) → Map V → Map V
  update k d f [] = (k, f d) ∷ []
  update k d f ((j, v) ∷ m) =
      if text_eq k j
      then (j, f v) ∷ m
      else (if text_lt k j then (k, f d) ∷ (j, v) ∷ m else (j, v) ∷ update k d f m)
