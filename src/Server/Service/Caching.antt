-- ===== src/Server/Service/Caching.antt =====
-- How long answers may be cached, against what a record may still become.
use gophprofile.Base.{
  ℕ, ◌≤◌, ◌<◌, String, ◌≡◌, refl, ap, subst, false, Option, arith, str_eq, min, Bool-cases, inl,
  inr, lookup,
}
use gophprofile.Fault.{Error, Result, ok, err, is, not_found}
use gophprofile.Domain.ProcessingStatus as Processing
use gophprofile.Domain.ProcessingStatus.{ProcessingStatus, is_terminal}
use gophprofile.Domain.Thumbnail.{ThumbnailSize}
use gophprofile.Domain.Avatar.{Avatar, thumbnail, thumbnail_if}
use gophprofile.World.{Row, World, St, pure, ◌>>=◌, on_result}
use gophprofile.Postgres
use gophprofile.Postgres.Queries.{scan_avatar}
use gophprofile.Postgres.Evolution.{Evolves}
use gophprofile.Server.Service.{
  Service, Content, sized, chosen, content, cache_current, cache_pending, default_content,
  fall_back, user_avatar_content,
}

sized-permanent :
    (key : String) (p q : ProcessingStatus) (old new : Option String)
    → Processing.Leads p q
    → (p ≡ ProcessingStatus.completed → new ≡ old)
    → cache_pending < (sized key p (thumbnail_if p old)).1
    → sized key q (thumbnail_if q new) ≡ sized key p (thumbnail_if p old)
unfolding thumbnail_if
sized-permanent key ProcessingStatus.pending q old new l same long = absurd (omega (arith, long))
sized-permanent key ProcessingStatus.processing q old new l same long = absurd (omega (arith, long))
sized-permanent key ProcessingStatus.completed q old new l same long =
    rw (Processing.terminal l refl, same refl) refl
sized-permanent key ProcessingStatus.failed q old new l same long =
    rw (Processing.terminal l refl) refl

chosen-sized :
    (a : Avatar) (size : ThumbnailSize)
    → str_eq size "" ≡ false
    → chosen a size ≡ sized a.s3_key a.processing_status (thumbnail a size)
unfolding chosen
chosen-sized a size e = rw e refl

-- Where the age that is chosen for a size of an avatar is over a minute, the key and the age that are
-- chosen for it stay the same whatever an evolution makes of the line.
pub chosen-permanent :
    (r s : Row) (size : ThumbnailSize)
    → Evolves r s
    → cache_pending < (chosen (scan_avatar r) size).1
    → chosen (scan_avatar s) size ≡ chosen (scan_avatar r) size
unfolding chosen scan_avatar thumbnail
chosen-permanent r s size g long = elim (Bool-cases (str_eq size "")) [
  | inl e ↦ rw (e, g.same_key) refl
  | inr e ↦
      rw (e, g.same_key)
        (sized-permanent r.s3_key r.processing_status s.processing_status _ _ g.processing
          (λ c. ap (lookup size) (g.stays_complete c))
          (subst (λ (x : String × ℕ). cache_pending < x.1) (chosen-sized (scan_avatar r) size e)
            long))
]

-- What may be said of an answer for a user: it is short-lived, and it is not that nothing was found.
abbrev pub Short : Result Content → Type 0
Short (ok c) = c.max_age ≤ cache_current
Short (err e) = is e not_found ≡ false

fall_back-Short : (s : Service) (e : Error) (w : World) → Short (fall_back s e w).0
unfolding default_content pure is
fall_back-Short s e w = elim (Bool-cases (is e not_found)) [
  | inl k ↦ rw k (omega arith)
  | inr k ↦ rw k k
]

abbrev limited : Content → St (Result Content)
limited found = pure (ok (record found { max_age = min found.max_age cache_current }))

limited-Short :
    (s : Service) (r : Result Content) (w : World) → Short (on_result r (fall_back s) limited w).0
unfolding on_result pure
limited-Short s (ok c) w = omega arith
limited-Short s (err e) w = fall_back-Short s e w

found-Short :
    (s : Service) (size : ThumbnailSize) (r : Result Avatar) (w : World)
    → Short
        (on_result r
          (fall_back s)
          (λ a. content a size >>= λ c. on_result c (fall_back s) limited)
          w).0
unfolding on_result ◌>>=◌
found-Short s size (ok a) w = limited-Short s (content a size w).0 (content a size w).1
found-Short s size (err e) w = fall_back-Short s e w

-- The image of a user is never answered as not found, and its answer may be cached for five minutes at
-- most, whatever the calls of the database and of the storage answered.
pub user_avatar_content-Short :
    (s : Service) (user : String) (size : ThumbnailSize) (w : World)
    → Short (user_avatar_content s user size w).0
unfolding user_avatar_content ◌>>=◌
user_avatar_content-Short s user size w =
    let (r, w1) = Postgres.get_current user w in found-Short s size r w1
