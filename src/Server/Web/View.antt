-- ===== src/Server/Web/View.antt =====
-- internal/server/web: view.go, and of web.go the addresses and the texts of errors.
use Prim.Native.String.{◌++◌}
use gophprofile.Base.{
  ℕ, ◌^◌, String, Bool, true, false, List, [], ◌∷◌, leb, str_eq, itoa, format_tenths, if◌then◌else◌,
}
use gophprofile.Fault.{
  Error, is, too_large, unsupported_format, image_too_big, deadline_exceeded, form_user_id_missing,
  form_user_id_too_long, form_file_missing, form_file_name_too_long, form_malformed,
}
use gophprofile.Domain.ProcessingStatus.{ProcessingStatus}
use gophprofile.Domain.Thumbnail.{ThumbnailSize, thumbnail_small}
use gophprofile.Domain.Keys.{Uuid}
use gophprofile.Domain.Avatar.{Avatar}

-- url.PathEscape, the escaping of url.Values, and Format of a time in the layout of the pages
pub record Escapes : Type 0 where
  pub path_escape : String → String
  pub query_escape : String → String
  pub format_time : ℕ → String

abbrev upload_path : String
upload_path = "/web/upload"

abbrev gallery_path : String
gallery_path = "/web/gallery"

abbrev static_path : String
static_path = "/web/static"

abbrev api_avatars_path : String
api_avatars_path = "/api/v1/avatars"

abbrev pub message_internal : String
message_internal = "Something went wrong, please try again later."

abbrev kilobyte : ℕ
kilobyte = 2 ^ 10

abbrev megabyte : ℕ
megabyte = 2 ^ 20

pub record UploadView : Type 0 where
  pub user_id : String
  pub fixed : Bool
  pub error : String
  pub max_size : String

pub record AvatarView : Type 0 where
  pub file_name : String
  pub thumbnail_url : String
  pub original_url : String
  pub size : String
  pub dimensions : String
  pub created_at : String
  pub status : String
  pub is_current : Bool

pub record GalleryView : Type 0 where
  pub user_id : String
  pub avatars : List AvatarView

pub record ErrorView : Type 0 where
  pub status : ℕ
  pub message : String

unfoldable pub human_size : ℕ → String
human_size size =
    if leb megabyte size
    then format_tenths size megabyte ++ " MB"
    else if leb kilobyte size
    then format_tenths size kilobyte ++ " KB"
    else itoa size ++ " B"

unfoldable pub new_upload_view : ℕ → String → Bool → String → UploadView
unfolding human_size
new_upload_view max_upload user_id fixed failure = record {
  user_id = user_id;
  fixed = fixed;
  error = failure;
  max_size = human_size max_upload;
}

unfoldable pub avatar_url : Uuid → String
avatar_url id = api_avatars_path ++ ("/" ++ id)

unfoldable pub thumbnail_url : Uuid → ThumbnailSize → String
unfolding avatar_url
thumbnail_url id size = avatar_url id ++ ("?size=" ++ size)

unfoldable pub status_text : ProcessingStatus → String
status_text ProcessingStatus.completed = "thumbnails ready"
status_text ProcessingStatus.failed = "processing failed"
status_text ProcessingStatus.pending = "processing"
status_text ProcessingStatus.processing = "processing"

module _ (escapes : Escapes) where
  unfoldable pub gallery_url : String → String
  gallery_url user_id = gallery_path ++ ("/" ++ escapes.path_escape user_id)

  unfoldable pub upload_url : String → String
  upload_url user_id =
      if str_eq user_id ""
      then upload_path
      else upload_path ++ ("?user_id=" ++ escapes.query_escape user_id)

  -- One card; the flag is `i == 0`.
  unfoldable pub avatar_view : Bool → Avatar → AvatarView
  unfolding avatar_url thumbnail_url status_text human_size
  avatar_view is_current avatar = record {
    file_name = avatar.file_name;
    thumbnail_url = thumbnail_url avatar.id thumbnail_small;
    original_url = avatar_url avatar.id;
    size = human_size avatar.size_bytes;
    dimensions = itoa avatar.width ++ ("×" ++ itoa avatar.height);
    created_at = escapes.format_time avatar.created_at;
    status = status_text avatar.processing_status;
    is_current = is_current;
  }

  unfoldable pub cards : Bool → List Avatar → List AvatarView
  unfolding avatar_view
  cards first [] = []
  cards first (avatar ∷ avatars) = avatar_view first avatar ∷ cards false avatars

  unfoldable pub new_gallery_view : String → List Avatar → GalleryView
  unfolding cards
  new_gallery_view user_id avatars = record { user_id = user_id; avatars = cards true avatars }

unfoldable pub static_url : String → String
static_url name = static_path ++ ("/" ++ name)

-- describeError; the first case that fits decides
unfoldable pub describe_error : ℕ → Error → ℕ × String
unfolding human_size
describe_error max_upload e =
    if is e too_large
    then (413, "File is larger than " ++ (human_size max_upload ++ "."))
    else if is e unsupported_format
    then (400, "Unsupported file format. Upload a JPEG, PNG or WebP image.")
    else if is e image_too_big
    then (400, "Image has too many pixels.")
    else if is e form_user_id_missing
    then (400, "Enter the user id.")
    else if is e form_user_id_too_long
    then (400, "User id must be at most 255 characters.")
    else if is e form_file_missing
    then (400, "Choose an image to upload.")
    else if is e form_file_name_too_long
    then (400, "File name must be at most 255 characters.")
    else if is e form_malformed
    then (400, "The form could not be read.")
    else if is e deadline_exceeded
    then (504, "The request took too long.")
    else (500, message_internal)
