-- ===== src/Tests/Server.antt =====
-- The theorems on internal/server at one input each.
use gophprofile.Base.{◌<◌, ◌≡◌, ◌≢◌, String, refl, ◌⊎◌, [], ◌∷◌, none, some, false, arith, eq_iff}
use gophprofile.Fault.{Error, ok}
use gophprofile.World.{
  Row, ◌>>=◌, pure, perform, served, meet, turn, rest, on_result, on_error, new_uuid, first,
  others_of, observe,
}
use gophprofile.Broker.Events.{publish, new_delete_event}
use gophprofile.Postgres
use gophprofile.Postgres.Queries.{get_avatar_query, update_rows, scan_avatar, is_live}
use gophprofile.Postgres.Evolution.{Evolution, find_row, Evolves, Evolves-refl}
use gophprofile.Server.Service
use gophprofile.Server.Service.{UploadInput, upload, delete, remove, chosen, user_avatar_content}
use gophprofile.Server.Service.Safety.{upload-Evolution}
use gophprofile.Server.Service.Removal.{delete-Deleted, delete-stranger}
use gophprofile.Server.Service.Caching.{Short, chosen-permanent, user_avatar_content-Short}
use gophprofile.Server.Http.Handlers.{
  Request, Form, Field, FormFile, status_of, avatar_id, form_file, requester_id, delete_avatar,
}
use gophprofile.Server.Http.Handlers as Handlers
use gophprofile.Server.Http.Guards.{
  Named, Refused, Fits, GoneFor, upload-guards, delete_avatar-Gone,
}
use gophprofile.Base.{sort, put, map, true, ◌+◌, List, arith}
use gophprofile.Domain.UploadStatus as Upload
use gophprofile.Domain.ProcessingStatus as Processing
use gophprofile.Domain.ProcessingStatus.{ProcessingStatus}
use gophprofile.Domain.Avatar.{thumbnail, thumbnail_if}
use gophprofile.World.{in_order}
use gophprofile.Server.Service.{collect, list_by_user}
use gophprofile.Postgres.Queries.{list_user_avatars_query}
use gophprofile.Server.Service.Listing.{Shows, list_by_user-newest_first}
use gophprofile.Base.{ℕ, zero, lookup, suc, Bool, false}
use gophprofile.Server.Http.RateLimit.{
  Buckets, Limiters, Visitor, allow, KeptOrIdle, allow-KeptOrIdle,
}
use gophprofile.Tests.Data.{line, world_one, world_refused, Rely_refused, test_service}

abbrev pub input : UploadInput
input = record { user_id = "ann"; file_name = "b.png"; size = 3; file = 1 ∷ 2 ∷ 3 ∷ [] }

upload-Evolution_example :
    Evolution world_refused.shared (upload test_service input world_refused).1.shared
upload-Evolution_example = upload-Evolution test_service input world_refused Rely_refused

user_avatar_content-Short_example :
    Short (user_avatar_content test_service "ann" "100x100" world_one).0
user_avatar_content-Short_example = user_avatar_content-Short test_service "ann" "100x100" world_one

delete_one : (delete "a" "ann" world_one).0 ≡ none
unfolding delete remove Postgres.get Postgres.query_one Postgres.soft_delete Postgres.exec
    get_avatar_query update_rows scan_avatar publish new_delete_event new_uuid first others_of
    observe ◌>>=◌ pure perform served meet turn rest on_result on_error
delete_one = refl

delete-Deleted_example :
    (s : Row) × (find_row "a" (delete "a" "ann" world_one).1.table ≡ some s)
    × (is_live s ≡ false)
    × (s.user_id ≡ "ann")
delete-Deleted_example = delete-Deleted "a" "ann" world_one tt (omega arith) delete_one

found_line : find_row "a" (meet world_one).table ≡ some line
unfolding find_row meet turn rest
found_line = refl

unique_line : Postgres.Evolution.AtMostOne "a" (meet world_one).table
unfolding meet turn rest
unique_line = omega arith

other_user : line.user_id ≢ "bob"
other_user h = ground (arith, eq_iff line.user_id "bob")

delete-stranger_example :
    ((delete "a" "bob" world_one).1.shared ≡ (meet world_one).shared)
    × ((e : Error) × ((delete "a" "bob" world_one).0 ≡ some e))
delete-stranger_example = delete-stranger "a" "bob" world_one line unique_line found_line other_user

abbrev completed_line : Row
completed_line = record line {
  processing_status = ProcessingStatus.completed;
  thumbnail_s3_keys = ("100x100", "thumbnails/a/100x100.jpg") ∷ [];
}

-- It is handled once more in vain, and deleted.
abbrev later_line : Row
later_line = record completed_line {
  retry_count = completed_line.retry_count + 1;
  updated_at = 90;
  deleted_at = some 90;
}

line_goes_on : Evolves completed_line later_line
line_goes_on = record {
  same_id = refl;
  same_user = refl;
  same_key = refl;
  same_birth = refl;
  upload = Upload.here;
  processing = Processing.here;
  stays_deleted = λ n h. ground arith;
  stays_removed = λ n h. h;
  stays_complete = λ h. refl;
  retries_grow = omega arith;
}

long_lived : Service.cache_pending < (chosen (scan_avatar completed_line) "100x100").1
unfolding chosen thumbnail thumbnail_if scan_avatar lookup
long_lived = omega arith

chosen-permanent_example :
    chosen (scan_avatar later_line) "100x100" ≡ chosen (scan_avatar completed_line) "100x100"
chosen-permanent_example =
    chosen-permanent completed_line later_line "100x100" line_goes_on long_lived

abbrev request : Request
request = record {
  header_user_id = "ann";
  avatar_id_param = some "a";
  user_id_param = "ann";
  form = Form.parsed;
  form_field =
      λ name. Field.found (record { filename = "b.png"; size = 3; contents = 1 ∷ 2 ∷ 3 ∷ [] });
}

upload-guards_example :
    Refused test_service 5 world_one (Handlers.upload test_service 5 request world_one)
    ⊎ ((user : String) × (f : FormFile) × Named request user
        × (form_file request ≡ ok f)
        × Fits test_service 5 f)
upload-guards_example = upload-guards test_service 5 request world_one

all_unique : (id : String) → Postgres.Evolution.AtMostOne id world_one.table
all_unique id = ground arith

delete_answered : status_of (delete_avatar test_service 5 request world_one).0 ≡ 204
unfolding delete_avatar requester_id avatar_id delete remove Postgres.get Postgres.query_one
    Postgres.soft_delete Postgres.exec get_avatar_query update_rows scan_avatar publish
    new_delete_event new_uuid first others_of observe ◌>>=◌ pure perform served meet turn rest
    on_result on_error
delete_answered = refl

delete_avatar-Gone_example :
    (user : String) × (id : String) × Named request user
    × (avatar_id request ≡ ok id)
    × GoneFor test_service 5 user id (delete_avatar test_service 5 request world_one).1
delete_avatar-Gone_example =
    delete_avatar-Gone test_service 5 request world_one tt all_unique delete_answered

listed_one : (list_by_user "ann" world_one).0 ≡ ok (scan_avatar line ∷ [])
unfolding list_by_user Postgres.list_by_user Postgres.query_many in_order sort put
    list_user_avatars_query collect perform served meet turn rest on_result pure ◌>>=◌
listed_one = refl

list_by_user-newest_first_example :
    (rs : List Row) × (scan_avatar line ∷ [] ≡ map scan_avatar rs)
    × Shows "ann" (meet world_one).table rs
list_by_user-newest_first_example =
    list_by_user-newest_first "ann" world_one (scan_avatar line ∷ []) listed_one

-- A bucket that counts its tokens.
abbrev spend : ℕ → Bool × ℕ
spend zero = (false, 0)
spend (suc n) = (true, n)

abbrev buckets : Buckets ℕ
buckets = record { new = 2; allow_n = λ now b. spend b; reserve_and_cancel = λ now b. (1, b) }

abbrev limiters : Limiters ℕ
limiters = record { visitors = ("bob", record { lim = 1; seen = 5 }) ∷ []; last_sweep = 0 }

allow-KeptOrIdle_example :
    let after = (allow buckets "ann" 9 limiters).1.visitors in
    ((v : Visitor ℕ) × (lookup "ann" after ≡ some v) × (v.seen ≡ 9))
    × KeptOrIdle 9 (lookup "bob" limiters.visitors) (lookup "bob" after)
allow-KeptOrIdle_example = allow-KeptOrIdle buckets "ann" "bob" 9 limiters refl
