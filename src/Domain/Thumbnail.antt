-- ===== src/Domain/Thumbnail.antt =====
-- internal/domain/thumbnail.go. A ThumbnailSize is a text, as in the source.
use gophprofile.Base.{
  ℕ, ◌<◌, String, ◌≡◌, refl, ◌⊎◌, ◌||◌, List, [], ◌∷◌, All, arith, str_eq, eq_iff, if◌then◌else◌,
}
use gophprofile.Fault.{Result, ok, err, wrap, sentinel, unsupported_size}

abbrev pub ThumbnailSize : Type 0
ThumbnailSize = String

abbrev pub thumbnail_small : ThumbnailSize
thumbnail_small = "100x100"

abbrev pub thumbnail_medium : ThumbnailSize
thumbnail_medium = "300x300"

abbrev pub size_original : String
size_original = "original"

abbrev small_side : ℕ
small_side = 100

abbrev medium_side : ℕ
medium_side = 300

abbrev pub thumbnail_sizes : List ThumbnailSize
thumbnail_sizes = thumbnail_small ∷ thumbnail_medium ∷ []

-- (width, height), zeros for an unknown size
unfoldable pub dimensions : ThumbnailSize → ℕ × ℕ
dimensions s =
    if str_eq s thumbnail_small
    then (small_side, small_side)
    else if str_eq s thumbnail_medium
    then (medium_side, medium_side)
    else (0, 0)

unfoldable pub parse_thumbnail_size : String → Result ThumbnailSize
parse_thumbnail_size value =
    if str_eq value "" || str_eq value size_original
    then ok ""
    else if str_eq value thumbnail_small
    then ok thumbnail_small
    else if str_eq value thumbnail_medium
    then ok thumbnail_medium
    else err (wrap (sentinel unsupported_size))

-- A parsed size is the original's empty one, or the parameter itself, and then it is one of the sizes
-- that are made and has both sides positive.
pub parse_thumbnail_size-dimensions :
    (value s : String)
    → parse_thumbnail_size value ≡ ok s
    → ((s ≡ "") × ((value ≡ "") ⊎ (value ≡ size_original)))
      ⊎ ((s ≡ value) × (0 < (dimensions s).0) × (0 < (dimensions s).1))
unfolding parse_thumbnail_size dimensions
parse_thumbnail_size-dimensions value s h = ground (
  arith,
  eq_iff value "",
  eq_iff value size_original,
  eq_iff value thumbnail_small,
  eq_iff value thumbnail_medium,
  eq_iff s thumbnail_small,
  eq_iff s thumbnail_medium,
)

-- Every size that is made is parsed to itself and has positive sides.
pub thumbnail_sizes_consistent :
    All
      (λ s. (parse_thumbnail_size s ≡ ok s) × (0 < (dimensions s).0) × (0 < (dimensions s).1))
      thumbnail_sizes
unfolding parse_thumbnail_size dimensions
thumbnail_sizes_consistent =
    ((refl, omega arith, omega arith), ((refl, omega arith, omega arith), tt))
