-- ===== src/Prelude/Changes.antt =====
-- One element of a list replaced or removed, and what that does to a sum over the list.
use Prim.Native.Nat.{ℕ, ◌+◌}
use mathlib.Core.Path.{◌≡◌}
use mathlib.Core.List.{List, [], ◌∷◌, ◌++◌}
use native.Mathlib.Omega.{arith}
use crust_sworker.Prelude.Predicates.{All, sum_by}

-- `Replaces a b xs ys`: `ys` is `xs` with one `a` replaced by `b`.
pub data Replaces {ℓ} {A : Type ℓ} (a b : A) : List A → List A → Type ℓ where
  here : (xs : List A) → Replaces a b (a ∷ xs) (b ∷ xs)
  there : (x : A) {xs ys : List A} → Replaces a b xs ys → Replaces a b (x ∷ xs) (x ∷ ys)

-- `Removes a xs ys`: `ys` is `xs` without one `a`.
pub data Removes {ℓ} {A : Type ℓ} (a : A) : List A → List A → Type ℓ where
  first : (xs : List A) → Removes a (a ∷ xs) xs
  later : (x : A) {xs ys : List A} → Removes a xs ys → Removes a (x ∷ xs) (x ∷ ys)

module _ {ℓ} {A : Type ℓ} (f : A → ℕ) where
  pub sum_by-Replaces :
      {a b : A} {xs ys : List A} → Replaces a b xs ys → sum_by f ys + f a ≡ sum_by f xs + f b
  sum_by-Replaces (here xs) = omega arith
  sum_by-Replaces (there x r) = omega (arith, sum_by-Replaces r)

  pub sum_by-Removes : {a : A} {xs ys : List A} → Removes a xs ys → sum_by f ys + f a ≡ sum_by f xs
  sum_by-Removes (first xs) = omega arith
  sum_by-Removes (later x r) = omega (arith, sum_by-Removes r)

module _ {ℓ} {A : Type ℓ} where
  pub Replaces-append_left :
      {a b : A} {xs ys : List A} (zs : List A)
      → Replaces a b xs ys
      → Replaces a b (xs ++ zs) (ys ++ zs)
  Replaces-append_left zs (here xs) = here (xs ++ zs)
  Replaces-append_left zs (there x r) = there x (Replaces-append_left zs r)

  pub Replaces-append_right :
      {a b : A} {xs ys : List A} (zs : List A)
      → Replaces a b xs ys
      → Replaces a b (zs ++ xs) (zs ++ ys)
  Replaces-append_right [] r = r
  Replaces-append_right (z ∷ zs) r = there z (Replaces-append_right zs r)

  pub Removes-append_right :
      {a : A} {xs ys : List A} (zs : List A) → Removes a xs ys → Removes a (zs ++ xs) (zs ++ ys)
  Removes-append_right [] r = r
  Removes-append_right (z ∷ zs) r = later z (Removes-append_right zs r)

module _ {ℓ κ} {A : Type ℓ} (P : A → Type κ) where
  pub All-Replaces_old : {a b : A} {xs ys : List A} → Replaces a b xs ys → All P xs → P a
  All-Replaces_old (here xs) h = h.0
  All-Replaces_old (there x r) h = All-Replaces_old r h.1

  pub All-Replaces : {a b : A} {xs ys : List A} → Replaces a b xs ys → P b → All P xs → All P ys
  All-Replaces (here xs) p h = (p, h.1)
  All-Replaces (there x r) p h = (h.0, All-Replaces r p h.1)

  pub All-Removes_old : {a : A} {xs ys : List A} → Removes a xs ys → All P xs → P a
  All-Removes_old (first xs) h = h.0
  All-Removes_old (later x r) h = All-Removes_old r h.1

  pub All-Removes : {a : A} {xs ys : List A} → Removes a xs ys → All P xs → All P ys
  All-Removes (first xs) h = h.1
  All-Removes (later x r) h = (h.0, All-Removes r h.1)
