-- ===== src/Postgres/Queries.antt =====
-- The lines of the table avatars as internal/repository/postgres/avatars.go reads and writes them, and
-- the conditions of its queries.
use gophprofile.Base.{
  ℕ, String, ◌&&◌, ◌||◌, Bool, none, List, [], ◌∷◌, ltb, str_eq, if◌then◌else◌, is_some, not,
}
use gophprofile.Domain.UploadStatus as Upload
use gophprofile.Domain.UploadStatus.{UploadStatus}
use gophprofile.Domain.ProcessingStatus as Processing
use gophprofile.Domain.ProcessingStatus.{ProcessingStatus}
use gophprofile.Domain.Keys.{Uuid}
use gophprofile.Domain.Avatar.{Avatar, NewAvatar}
use gophprofile.World.{Row}

abbrev pub Table : Type 0
Table = List Row

-- `deleted_at IS NULL`
abbrev pub is_live : Row → Bool
is_live r = not (is_some r.deleted_at)

abbrev pub has_id : Uuid → Row → Bool
has_id id r = str_eq r.id id

unfoldable pub update_rows : (Row → Bool) → (Row → Row) → Table → Table
update_rows p f [] = []
update_rows p f (r ∷ rs) = (if p r then f r else r) ∷ update_rows p f rs

-- scanAvatar, over avatarColumns
unfoldable pub scan_avatar : Row → Avatar
scan_avatar r = record {
  id = r.id;
  user_id = r.user_id;
  file_name = r.file_name;
  mime_type = r.mime_type;
  size_bytes = r.size_bytes;
  width = r.width;
  height = r.height;
  s3_key = r.s3_key;
  thumbnail_keys = r.thumbnail_s3_keys;
  upload_status = r.upload_status;
  processing_status = r.processing_status;
  retry_count = r.retry_count;
  created_at = r.created_at;
  updated_at = r.updated_at;
}

-- The line that createAvatarQuery inserts, with the defaults of the columns.
unfoldable pub new_row : ℕ → NewAvatar → Row
new_row now a = record {
  id = a.id;
  user_id = a.user_id;
  file_name = a.file_name;
  mime_type = a.mime_type;
  size_bytes = a.size_bytes;
  width = a.width;
  height = a.height;
  s3_key = a.s3_key;
  thumbnail_s3_keys = [];
  upload_status = UploadStatus.uploading;
  processing_status = ProcessingStatus.pending;
  retry_count = 0;
  created_at = now;
  updated_at = now;
  deleted_at = none;
  files_removed_at = none;
}

-- The conditions of the queries.
unfoldable pub get_avatar_query : Uuid → Row → Bool
get_avatar_query id r = has_id id r && is_live r

unfoldable pub list_user_avatars_query : String → Row → Bool
list_user_avatars_query user r =
    str_eq r.user_id user && is_live r && Upload.same r.upload_status UploadStatus.uploaded

unfoldable pub select_stuck_query : ℕ → Row → Bool
select_stuck_query before r =
    Upload.same r.upload_status UploadStatus.uploaded
    && Processing.same r.processing_status ProcessingStatus.pending
    && is_live r
    && ltb r.updated_at before

unfoldable pub select_uncleaned_query : ℕ → Row → Bool
select_uncleaned_query before r =
    not (is_some r.files_removed_at)
    && (is_some r.deleted_at || Upload.same r.upload_status UploadStatus.failed)
    && ltb r.updated_at before

unfoldable pub fail_stale_uploads_query : ℕ → Row → Bool
fail_stale_uploads_query before r =
    Upload.same r.upload_status UploadStatus.uploading && is_live r && ltb r.updated_at before

unfoldable pub set_upload_status_query : Uuid → UploadStatus → Row → Bool
set_upload_status_query id s r =
    has_id id r && is_live r && Upload.is_any r.upload_status (Upload.allowed_from s)

unfoldable pub set_processing_status_query : Uuid → ProcessingStatus → Row → Bool
set_processing_status_query id s r =
    has_id id r && is_live r && Processing.is_any r.processing_status (Processing.allowed_from s)
