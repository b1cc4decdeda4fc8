-- ===== src/Tests/Pages.antt =====
-- Runs of the answers of internal/server/http and of the pages of internal/server/web.
use gophprofile.Base.{
  arith, eq_iff, itoa, format_tenths, ◌≡◌, ◌≢◌, refl, true, false, some, List, [], ◌∷◌, sort, put,
}
use gophprofile.Fault.{ok, sentinel, unavailable, is}
use gophprofile.World.{World, in_order, perform, served, meet, turn, rest, on_result, pure, ◌>>=◌}
use gophprofile.Domain.Avatar.{Avatar}
use gophprofile.Postgres
use gophprofile.Postgres.Queries.{scan_avatar, list_user_avatars_query}
use gophprofile.Server.Service.{Content, list_by_user, collect}
use gophprofile.Server.Http.Errors.{map_error}
use gophprofile.Server.Http.Handlers.{absent, parsed}
use gophprofile.Server.Http.Content.{quote_etag, match_etag, write_content}
use gophprofile.Server.Http.Revalidated.{write_content-revalidated}
use gophprofile.Server.Http.Middleware.{
  error, valid_request_id, service_path, log_level, normalize_method,
}
use gophprofile.Server.Http.Recorded.{Wire-IsWriter}
use gophprofile.Server.Http.Recorder.{
  wire_writer, Request, Run, write, panicked, handle, measuring, logging, recovering, make_calls,
}
use gophprofile.Server.Http.Recovered.{unwritten}
use gophprofile.Server.Web.{PageRequest, gallery_page, gallery}
use gophprofile.Server.Web.View.{
  Escapes, GalleryView, avatar_view, cards, new_gallery_view, human_size, describe_error,
}
use gophprofile.Server.Web.Current.{Distinct, gallery-current}
use gophprofile.Tests.Data.{line, world_one}

abbrev content : Content
content = record {
  body = 1 ∷ [];
  content_type = "image/png";
  etag = "0af";
  size = 1;
  max_age = 60;
  is_default = false;
}

matches :
    (match_etag "\"a\" , W/\"0af\"" "\"0af\"" ≡ true)
    × (match_etag " * " "\"0af\"" ≡ true)
    × (match_etag "0af" "\"0af\"" ≡ false)
    × (match_etag "*" "" ≡ false)
unfolding match_etag
matches = (refl, refl, refl, refl)

content_tagged : content.etag ≢ ""
content_tagged = ground (arith, eq_iff content.etag "")

write_content-revalidated_example :
    ((write_content "W/\"0af\"" content).status ≡ 304)
    × ((write_content "W/\"0af\"" content).body ≡ [])
unfolding quote_etag
write_content-revalidated_example =
    write_content-revalidated content true content_tagged
      ((refl, refl), ((refl, refl), ((refl, refl), tt)))

request_ids :
    (valid_request_id "a-1" ≡ true)
    × (valid_request_id "a\nb" ≡ false)
    × (valid_request_id "" ≡ false)
unfolding valid_request_id
request_ids = (refl, refl, refl)

abbrev request : Request
request = record { method = "BREW"; path = "/api/v1/avatars"; pattern = "" }

-- The handler writes a part of an image and panics.
abbrev broken_off : Run
broken_off = record { calls = write 100 ∷ []; ended = panicked false }

-- It is logged and measured as it was sent, and a request for metrics is not measured.
logged_panic :
    ((handle true 28 request broken_off unwritten).observation
      ≡ some (record { method = "_OTHER"; route = "unmatched"; status = 200 }))
    × ((handle true 28
          (record request { path = "/metrics" })
          (record broken_off { calls = [] })
          unwritten).log
        ≡ some (record { level = error; status = 500; bytes = 28 }))
unfolding handle measuring logging recovering make_calls service_path log_level normalize_method
logged_panic = (refl, refl)

sizes :
    (human_size 1023 ≡ "1023 B") × (human_size 1536 ≡ "1.5 KB") × (human_size 10485760 ≡ "10.0 MB")
unfolding human_size itoa format_tenths
sizes = (refl, refl, refl)

-- The page for an upload that the circuit breaker has refused, and the answer of the API.
breaker_open :
    ((describe_error 5 (sentinel unavailable)).0 ≡ 500)
    × ((map_error 5 (sentinel unavailable)).0 ≡ 503)
unfolding describe_error map_error is
breaker_open = (refl, refl)

abbrev escapes : Escapes
escapes = record {
  path_escape = λ s. s;
  query_escape = λ s. s;
  format_time = λ n. "2026-01-02 15:04";
}

abbrev page_request : PageRequest
page_request = record {
  header_user_id = "";
  query_user_id = "";
  path_user_id = "ann";
  form = parsed;
  form_user_id = "";
  file = absent;
}

abbrev view : GalleryView
view = new_gallery_view escapes "ann" (scan_avatar line ∷ [])

gallery_shown : (gallery escapes 5 page_request world_one).0 ≡ gallery_page 200 view
unfolding gallery list_by_user Postgres.list_by_user Postgres.query_many in_order sort put
    list_user_avatars_query collect perform served meet turn rest on_result pure ◌>>=◌
gallery_shown = refl

-- The same, but that the database gives equal lines in another order.
abbrev other_ties : World
other_ties = record world_one { ties = λ n r. r.size_bytes }

current : (Postgres.get_current "ann" other_ties).0 ≡ ok (scan_avatar line)
unfolding Postgres.get_current Postgres.query_one in_order sort put list_user_avatars_query perform
    served meet turn rest on_result pure ◌>>=◌
current = refl

distinct : Distinct "ann" (meet world_one).table
unfolding meet turn rest
distinct = ((λ e. refl, tt), tt)

gallery-current_example :
    (others : List Avatar) × (view.avatars
      ≡ avatar_view escapes true (scan_avatar line) ∷ cards escapes false others)
unfolding meet
gallery-current_example =
    gallery-current escapes 5 page_request world_one other_ties view (scan_avatar line) refl
      distinct gallery_shown current
