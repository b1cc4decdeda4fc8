-- ===== src/Base/Sorting.antt =====
-- Insertion sort by a key, for ORDER BY. Elements of equal keys keep their order.
use Prim.Native.Nat.{ℕ, ◌≤◌}
use mathlib.Core.Bool.{Bool}
use mathlib.Core.List.{List, [], ◌∷◌}
use mathlib.Core.Path.{◌≡◌, refl}
use native.Mathlib.Omega.{arith}
use gophprofile.Base.Tests.{ltb, Bool-cases, if◌then◌else◌}
use gophprofile.Base.Lists.{All, count_if}
use mathlib.Core.Logic.{inl, inr}

module _ {ℓ} {A : Type ℓ} (before : A → A → Bool) where
  unfoldable pub put : A → List A → List A
  put a [] = a ∷ []
  put a (x ∷ xs) = if before x a then x ∷ put a xs else a ∷ x ∷ xs

  unfoldable pub sort : List A → List A
  unfolding put
  sort [] = []
  sort (x ∷ xs) = put x (sort xs)

module _ {ℓ κ} {A : Type ℓ} (before : A → A → Bool) (P : A → Type κ) where
  All-put : (a : A) (xs : List A) → P a → All P xs → All P (put before a xs)
  unfolding put
  All-put a [] h hs = (h, tt)
  All-put a (x ∷ xs) h hs = elim (Bool-cases (before x a)) [
    | inl e ↦ rw e (hs.0, All-put a xs h hs.1)
    | inr e ↦ rw e (h, (hs.0, hs.1))
  ]

  pub All-sort : (xs : List A) → All P xs → All P (sort before xs)
  unfolding sort
  All-sort [] h = tt
  All-sort (x ∷ xs) h = All-put x (sort before xs) h.0 (All-sort xs h.1)

  put-All : (a : A) (xs : List A) → All P (put before a xs) → P a × All P xs
  unfolding put
  put-All a [] h = (h.0, tt)
  put-All a (x ∷ xs) h = elim (Bool-cases (before x a)) [
    | inl e ↦ let g = rw e at h in let (f, k) = put-All a xs g.1 in (f, (g.0, k))
    | inr e ↦ let g = rw e at h in (g.0, g.1)
  ]

  -- And back.
  pub sort-All : (xs : List A) → All P (sort before xs) → All P xs
  unfolding sort
  sort-All [] h = tt
  sort-All (x ∷ xs) h = let (f, k) = put-All x (sort before xs) h in (f, sort-All xs k)

module _ {ℓ} {A : Type ℓ} (before : A → A → Bool) (p : A → Bool) where
  put-count_if : (a : A) (xs : List A) → count_if p (put before a xs) ≡ count_if p (a ∷ xs)
  unfolding put
  put-count_if a [] = refl
  put-count_if a (x ∷ xs) = elim (Bool-cases (before x a)) [
    | inl e ↦ rw e (omega (arith, put-count_if a xs))
    | inr e ↦ rw e refl
  ]

  -- What is sorted is as often there as before.
  pub sort-count_if : (xs : List A) → count_if p (sort before xs) ≡ count_if p xs
  unfolding sort
  sort-count_if [] = refl
  sort-count_if (x ∷ xs) = omega (arith, put-count_if x (sort before xs), sort-count_if xs)

-- Each element comes before all that follow it, as far as `key` tells, from the largest key down.
module _ {ℓ} {A : Type ℓ} (key : A → ℕ) where
  abbrev pub IsDescending : List A → Type 0
  IsDescending [] = Unit
  IsDescending (x ∷ xs) = All (λ y. key y ≤ key x) xs × IsDescending xs

  abbrev pub descending : A → A → Bool
  descending x y = ltb (key y) (key x)

  abbrev pub ascending : A → A → Bool
  ascending x y = ltb (key x) (key y)

  All-below : (a b : ℕ) (xs : List A) → a ≤ b → All (λ y. key y ≤ a) xs → All (λ y. key y ≤ b) xs
  All-below a b [] h g = tt
  All-below a b (x ∷ xs) h g = (omega arith, All-below a b xs h g.1)

  put-IsDescending : (a : A) (xs : List A) → IsDescending xs → IsDescending (put descending a xs)
  unfolding put
  put-IsDescending a [] h = (tt, tt)
  put-IsDescending a (x ∷ xs) h = elim (Bool-cases (descending x a)) [
    | inl e ↦
        rw e (
          All-put descending (λ y. key y ≤ key x) a xs (ground arith) h.0,
          put-IsDescending a xs h.1,
        )
    | inr e ↦ rw e ((ground arith, All-below (key x) (key a) xs (ground arith) h.0), h)
  ]

  pub sort-IsDescending : (xs : List A) → IsDescending (sort descending xs)
  unfolding sort
  sort-IsDescending [] = tt
  sort-IsDescending (x ∷ xs) = put-IsDescending x (sort descending xs) (sort-IsDescending xs)

-- From the smallest key up.
module _ {ℓ} {A : Type ℓ} (key : A → ℕ) where
  abbrev pub IsAscending : List A → Type 0
  IsAscending [] = Unit
  IsAscending (x ∷ xs) = All (λ y. key x ≤ key y) xs × IsAscending xs

  All-above : (a b : ℕ) (xs : List A) → b ≤ a → All (λ y. a ≤ key y) xs → All (λ y. b ≤ key y) xs
  All-above a b [] h g = tt
  All-above a b (x ∷ xs) h g = (omega arith, All-above a b xs h g.1)

  put-IsAscending : (a : A) (xs : List A) → IsAscending xs → IsAscending (put (ascending key) a xs)
  unfolding put
  put-IsAscending a [] h = (tt, tt)
  put-IsAscending a (x ∷ xs) h = elim (Bool-cases (ascending key x a)) [
    | inl e ↦ rw e (
      All-put (ascending key) (λ y. key x ≤ key y) a xs (ground arith) h.0,
      put-IsAscending a xs h.1,
    )
    | inr e ↦ rw e ((ground arith, All-above (key x) (key a) xs (ground arith) h.0), h)
  ]

  pub sort-IsAscending : (xs : List A) → IsAscending (sort (ascending key) xs)
  unfolding sort
  sort-IsAscending [] = tt
  sort-IsAscending (x ∷ xs) = put-IsAscending x (sort (ascending key) xs) (sort-IsAscending xs)
