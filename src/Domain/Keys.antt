-- ===== src/Domain/Keys.antt =====
-- internal/domain/keys.go. A uuid is the text that its String method returns.
use Prim.Native.String.{◌++◌, count}
use text.Mathlib.TextLemmas.{append_cancel_left, append_assoc, append_inj, length-append}
use gophprofile.Base.{String, ◌≡◌, refl, sym, ◌∙◌, ap, ◌≢◌, arith, eq_iff}
use gophprofile.Domain.Thumbnail.{ThumbnailSize}

abbrev pub Uuid : Type 0
Uuid = String

abbrev originals_prefix : String
originals_prefix = "originals"

abbrev thumbnails_prefix : String
thumbnails_prefix = "thumbnails"

unfoldable pub original_key : Uuid → String
original_key id = originals_prefix ++ "/" ++ id

unfoldable pub thumbnail_key : Uuid → ThumbnailSize → String
thumbnail_key id size = thumbnails_prefix ++ "/" ++ id ++ "/" ++ size

-- Different avatars have different original keys.
pub original_key-injective : (a b : Uuid) → original_key a ≡ original_key b → a ≡ b
unfolding original_key
original_key-injective a b h =
    append_cancel_left "/" a b (append_cancel_left originals_prefix _ _ h)

first_differs : (x y : String) → "o" ++ x ≡ "t" ++ y → ⊥
first_differs x y h =
    ground (arith, eq_iff "o" "t", (append_inj {s₁ = "o"} {s₂ = "t"} {t₁ = x} {t₂ = y} h refl).0)

-- A thumbnail never overwrites an original, whatever the avatars and the size are.
pub original_key-ne-thumbnail_key :
    (a b : Uuid) (s : ThumbnailSize) → original_key a ≢ thumbnail_key b s
unfolding original_key thumbnail_key
original_key-ne-thumbnail_key a b s h = first_differs _ _ (
    sym (append_assoc "o" "riginals" ("/" ++ a))
    ∙ h
    ∙ append_assoc "t" "humbnails" ("/" ++ b ++ "/" ++ s))

-- The keys of two sizes of equal length coincide only for one avatar and one size.
pub thumbnail_key-injective :
    (a b : Uuid) (s t : ThumbnailSize)
    → count s ≡ count t
    → thumbnail_key a s ≡ thumbnail_key b t
    → (a ≡ b) × (s ≡ t)
unfolding thumbnail_key
thumbnail_key-injective a b s t c h = tails
  where
    body : a ++ "/" ++ s ≡ b ++ "/" ++ t
    body = append_cancel_left "/" _ _ (append_cancel_left thumbnails_prefix _ _ h)

    counted : count a ≡ count b
    counted = omega (
      arith,
      ap count body,
      length-append a ("/" ++ s),
      length-append b ("/" ++ t),
      length-append "/" s,
      length-append "/" t,
    )

    tails : (a ≡ b) × (s ≡ t)
    tails = let p = append_inj body counted in (p.0, append_cancel_left "/" s t p.1)
