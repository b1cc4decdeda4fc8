-- ===== src/Base/Changing.antt =====
-- One element of a list that changes, and sums over a list.
use Prim.Native.Nat.{ℕ, ◌+◌}
use mathlib.Core.Path.{◌≡◌}
use mathlib.Core.List.{List, [], ◌∷◌}
use native.Mathlib.Omega.{arith}
use gophprofile.Base.Lists.{All}

module _ {ℓ} {A : Type ℓ} where
  abbrev pub sum_of : (A → ℕ) → List A → ℕ
  sum_of f [] = 0
  sum_of f (x ∷ xs) = f x + sum_of f xs

-- One element changes from `a` to `b`.
pub data Turns {ℓ} {A : Type ℓ} (a b : A) : List A → List A → Type ℓ where
  here : {xs : List A} → Turns a b (a ∷ xs) (b ∷ xs)
  there : {x : A} {xs ys : List A} → Turns a b xs ys → Turns a b (x ∷ xs) (x ∷ ys)

module _ {ℓ} {A : Type ℓ} where
  pub Turns-sum_of :
      {a b : A} {xs ys : List A} (f : A → ℕ)
      → Turns a b xs ys
      → sum_of f ys + f a ≡ sum_of f xs + f b
  Turns-sum_of f here = omega arith
  Turns-sum_of f (there m) = omega (arith, Turns-sum_of f m)

  pub Turns-All :
      {a b : A} {xs ys : List A} (P : A → Type 0) → Turns a b xs ys → All P xs → P b → All P ys
  Turns-All P here h p = (p, h.1)
  Turns-All P (there m) h p = (h.0, Turns-All P m h.1 p)
