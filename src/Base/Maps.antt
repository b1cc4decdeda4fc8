-- ===== src/Base/Maps.antt =====
-- Go's maps with text keys, as association lists.
use Prim.Native.String.{String}
use mathlib.Core.Path.{◌≡◌}
use mathlib.Core.Bool.{false}
use mathlib.Core.Option.{Option, none, some}
use mathlib.Core.List.{List, [], ◌∷◌}
use native.Mathlib.Omega.{arith}
use text.Mathlib.Text.{◌==◌ as str_eq}
use text.Mathlib.TextEquality.{eq_iff}
use gophprofile.Base.Tests.{if◌then◌else◌}

abbrev pub StringMap {ℓ} : Type ℓ → Type ℓ
StringMap V = List (String × V)

module _ {ℓ} {V : Type ℓ} where
  unfoldable pub lookup : String → StringMap V → Option V
  lookup k [] = none
  lookup k ((j, v) ∷ m) = if str_eq j k then some v else lookup k m

  unfoldable pub insert : String → V → StringMap V → StringMap V
  insert k v [] = (k, v) ∷ []
  insert k v ((j, w) ∷ m) = if str_eq j k then (k, v) ∷ m else (j, w) ∷ insert k v m

  unfoldable pub without : String → StringMap V → StringMap V
  without k [] = []
  without k ((j, v) ∷ m) = if str_eq j k then without k m else (j, v) ∷ without k m

-- What is found after a removal.
module _ {ℓ} {V : Type ℓ} where
  pub lookup-without :
      (k j : String) (m : StringMap V)
      → lookup j (without k m) ≡ (if str_eq k j then none else lookup j m)
  unfolding lookup without
  lookup-without k j [] = ground arith
  lookup-without k j ((i, w) ∷ m) =
      ground (arith, eq_iff k j, eq_iff i k, eq_iff i j, lookup-without k j m)

  -- What is found after an insertion: the new value, and at the other keys what was there.
  pub insert-here : (m : StringMap V) (k : String) (new : V) → lookup k (insert k new m) ≡ some new
  unfolding insert lookup
  insert-here [] k new = ground (arith, eq_iff k k)
  insert-here ((other, old) ∷ more) k new =
      ground (arith, insert-here more k new, eq_iff k k, eq_iff other k)

  pub insert-elsewhere :
      (m : StringMap V) (k j : String) (new : V)
      → str_eq k j ≡ false
      → lookup j (insert k new m) ≡ lookup j m
  unfolding insert lookup
  insert-elsewhere [] k j new differ = ground arith
  insert-elsewhere ((other, old) ∷ more) k j new differ =
      ground
        (arith, insert-elsewhere more k j new differ, eq_iff k j, eq_iff other k, eq_iff other j)
