-- ===== src/Server/Http/Content.antt =====
-- internal/server/http/content.go: an image in an answer, with its validator, and the handlers of avatars.go
-- and users.go that answer images. Texts of headers are
-- lists of code points where the code walks them.
use Prim.Native.String.{◌++◌}
use text.Mathlib.Text.{starts_with}
use gophprofile.Base.{
  is_space, ℕ, String, Bool, true, false, ◌&&◌, ◌||◌, Option, none, some, List, [], ◌∷◌, any, ◌==◌,
  str_eq, if◌then◌else◌, codes,
}
use gophprofile.Fault.{Error, Result}
use gophprofile.Domain.Thumbnail.{ThumbnailSize, parse_thumbnail_size}
use gophprofile.World.{St, pure, ◌>>=◌, on_result}
use gophprofile.Server.Service
use gophprofile.Server.Service.{Service, Content}
use gophprofile.Server.Http.Errors.{ErrorResponse, map_error}
use gophprofile.Server.Http.Handlers.{Request, avatar_id}

-- What is written to the client. A header that is not set is `none`.
pub record Answer : Type 0 where
  pub status : ℕ
  pub etag : Option String
  pub max_age : ℕ
  pub avatar_default : Bool
  pub content_type : Option String
  pub content_length : Option ℕ
  pub body : List ℕ

unfoldable pub quote_etag : String → String
quote_etag etag = if str_eq etag "" || starts_with etag "\"" then etag else "\"" ++ (etag ++ "\"")

abbrev pub comma : ℕ
comma = b','

abbrev join_first : ℕ → List (List ℕ) → List (List ℕ)
join_first c [] = (c ∷ []) ∷ []
join_first c (part ∷ parts) = (c ∷ part) ∷ parts

-- strings.SplitSeq(s, ",")
unfoldable pub split : List ℕ → List (List ℕ)
split [] = [] ∷ []
split (c ∷ cs) = let parts = split cs in if c == comma then [] ∷ parts else join_first c parts

unfoldable pub trim_left : List ℕ → List ℕ
trim_left [] = []
trim_left (c ∷ cs) = let rest = trim_left cs in if is_space c then rest else c ∷ cs

abbrev trimmed_end : ℕ → List ℕ → List ℕ
trimmed_end c [] = if is_space c then [] else c ∷ []
trimmed_end c (d ∷ ds) = c ∷ d ∷ ds

unfoldable pub trim_right : List ℕ → List ℕ
trim_right [] = []
trim_right (c ∷ cs) = trimmed_end c (trim_right cs)

-- strings.TrimSpace
unfoldable pub trim_space : List ℕ → List ℕ
unfolding trim_left trim_right
trim_space cs = trim_right (trim_left cs)

-- strings.TrimPrefix(s, "W/")
unfoldable pub trim_weak : List ℕ → List ℕ
trim_weak [] = []
trim_weak (c ∷ []) = c ∷ []
trim_weak (c ∷ d ∷ cs) = if c == b'W' && d == b'/' then cs else c ∷ d ∷ cs

abbrev pub same : List ℕ → List ℕ → Bool
same [] [] = true
same [] (d ∷ ds) = false
same (c ∷ cs) [] = false
same (c ∷ cs) (d ∷ ds) = c == d && same cs ds

abbrev pub candidate_matches : List ℕ → List ℕ → Bool
candidate_matches etag candidate =
    let c = trim_space candidate in same c (b'*' ∷ []) || same (trim_weak c) etag

unfoldable pub match_etag : String → String → Bool
unfolding split trim_space trim_weak
match_etag if_none_match etag =
    if str_eq if_none_match "" || str_eq etag ""
    then false
    else any (candidate_matches (codes etag)) (split (codes if_none_match))

abbrev set : String → Option String
set etag = if str_eq etag "" then none else some etag

-- What is answered to a validator that matches, and to one that does not.
abbrev pub answer : Bool → String → Content → Answer
answer true etag content = record {
  status = 304;
  etag = set etag;
  max_age = content.max_age;
  avatar_default = content.is_default;
  content_type = none;
  content_length = none;
  body = [];
}
answer false etag content = record {
  status = 200;
  etag = set etag;
  max_age = content.max_age;
  avatar_default = content.is_default;
  content_type = some content.content_type;
  content_length = some content.size;
  body = content.body;
}

unfoldable pub write_content : String → Content → Answer
write_content if_none_match content =
    let etag = quote_etag content.etag in answer (match_etag if_none_match etag) etag content

-- What a request for an image is read from: `size` and If-None-Match are "" where they are not given.
pub record ImageRequest : Type 0 where
  pub request : Request
  pub size : String
  pub if_none_match : String

pub data ImageReply : Type 0 where
  image : Answer → ImageReply
  failed : ℕ → ErrorResponse → ImageReply

unfoldable pub thumbnail_size : ImageRequest → Result ThumbnailSize
thumbnail_size r = parse_thumbnail_size r.size

module _ (s : Service) (max_upload : ℕ) where
  abbrev pub refuse : Error → St ImageReply
  refuse e = pure (failed (map_error max_upload e).0 (map_error max_upload e).1)

  abbrev pub send : ImageRequest → Result Content → St ImageReply
  send r c = on_result c refuse (λ content. pure (image (write_content r.if_none_match content)))

  unfoldable pub avatar_content : ImageRequest → St ImageReply
  unfolding thumbnail_size
  avatar_content r = on_result (avatar_id r.request) refuse λ id.
      on_result (thumbnail_size r) refuse λ size. do c ← Service.avatar_content id size; send r c

  unfoldable pub user_avatar_content : ImageRequest → St ImageReply
  unfolding thumbnail_size
  user_avatar_content r =
      on_result (thumbnail_size r) refuse
        λ size. do c ← Service.user_avatar_content s r.request.user_id_param size; send r c
