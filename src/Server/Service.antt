-- ===== src/Server/Service.antt =====
-- internal/server/service. Bodies are read whole, logs and spans are left out, and the time an upload
-- took is not measured. The validator and the placeholder are in the record `Service`.
pub mod Safety
pub mod Removal
pub mod Caching
pub mod Listing
pub mod Accepted
pub mod Processed
pub mod Removed
use gophprofile.Base.{
  ℕ, ◌*◌, String, Bool, true, false, not, Option, none, some, List, [], ◌∷◌, min, str_eq,
  if◌then◌else◌,
}
use gophprofile.Fault.{Error, Result, ok, err, sentinel, wrap, is, not_found, forbidden}
use gophprofile.Domain.UploadStatus.{UploadStatus}
use gophprofile.Domain.ProcessingStatus as Processing
use gophprofile.Domain.ProcessingStatus.{ProcessingStatus}
use gophprofile.Domain.Thumbnail.{ThumbnailSize}
use gophprofile.Domain.Keys.{Uuid, original_key}
use gophprofile.Domain.Avatar.{Avatar, NewAvatar, thumbnail, storage_keys}
use gophprofile.World.{
  StoredObject, Metric, upload_observed, delete_counted, St, pure, ◌>>=◌, ◌>>◌, on_result,
  on_option, on_error, new_uuid, observe,
}
use gophprofile.Broker.Events.{new_upload_event, new_delete_event, publish}
use gophprofile.Imageproc.{Info}
use gophprofile.Postgres
use gophprofile.S3

pub record Service : Type 0 where
  pub etag_of : List ℕ → String
  pub validate : List ℕ → Result Info
  pub placeholder : StoredObject

pub record UploadInput : Type 0 where
  pub user_id : String
  pub file_name : String
  pub size : ℕ
  pub file : List ℕ

-- Ages are in seconds.
abbrev cache_ready : ℕ
cache_ready = 24 * 3600

abbrev pub cache_pending : ℕ
cache_pending = 60

abbrev cache_placeholder : ℕ
cache_placeholder = 300

abbrev pub cache_current : ℕ
cache_current = 300

pub record Content : Type 0 where
  pub body : List ℕ
  pub content_type : String
  pub etag : String
  pub size : ℕ
  pub max_age : ℕ
  pub is_default : Bool

-- markFailed
unfoldable pub mark_failed : Uuid → St (Unit {0})
mark_failed id = do _ ← Postgres.set_upload_status id UploadStatus.failed; pure tt

abbrev undo : {A : Type 0} → Uuid → Error → St (Result A)
undo id e = do _ ← mark_failed id; pure (err (wrap e))

-- removeFiles
unfoldable pub remove_files : Uuid → List String → St (Unit {0})
remove_files id keys = do
  o ← S3.delete_many keys
  on_error o (λ e. pure tt) do _ ← Postgres.mark_files_removed id; pure tt

abbrev order_removal : Uuid → List String → St (Unit {0})
order_removal id keys = do
  event ← new_delete_event id keys
  o ← publish event
  on_error o (λ e. remove_files id keys) (pure tt)

unfoldable pub remove : Avatar → String → St (Option Error)
remove avatar requester_id =
    if not (str_eq avatar.user_id requester_id) then pure (some (wrap (sentinel forbidden))) else do
      o ← Postgres.soft_delete avatar.id
      on_error o (λ e. pure (some (wrap e)))
          do _ ← order_removal avatar.id (storage_keys avatar); pure none

succeeded : {A : Type 0} → Result A → Bool
succeeded (ok a) = true
succeeded (err e) = false

unfailed : Option Error → Bool
unfailed none = true
unfailed (some e) = false

-- The deferred counter.
abbrev counted : St (Option Error) → St (Option Error)
unfolding unfailed
counted m = do o ← m; observe (delete_counted (unfailed o)); pure o

abbrev delete_found : String → Result Avatar → St (Option Error)
delete_found requester_id r =
    on_result r (λ e. pure (some (wrap e))) (λ avatar. remove avatar requester_id)

unfoldable pub delete : Uuid → String → St (Option Error)
unfolding unfailed
delete id requester_id = counted (Postgres.get id >>= delete_found requester_id)

unfoldable pub delete_current : String → String → St (Option Error)
unfolding unfailed
delete_current user_id requester_id =
    counted (Postgres.get_current user_id >>= delete_found requester_id)

unfoldable pub metadata : Uuid → St (Result Avatar)
metadata id = do
  r ← Postgres.get id
  on_result r (λ e. pure (err (wrap e))) (λ avatar. pure (ok avatar))

-- The loop stops at the first error, and then nothing read is returned.
unfoldable pub collect : List (Result Avatar) → Result (List Avatar)
collect [] = ok []
collect (err e ∷ rows) = err (wrap e)
collect (ok a ∷ rows) = elim (collect rows) [ err e ↦ err e | ok rest ↦ ok (a ∷ rest) ]

unfoldable pub list_by_user : String → St (Result (List Avatar))
list_by_user user_id = do rows ← Postgres.list_by_user user_id; pure (collect rows)

-- The key and the age where a size was asked for.
abbrev pub sized : String → ProcessingStatus → Option String → String × ℕ
sized key status (some thumbnail_key) = (thumbnail_key, cache_ready)
sized key status none = (
  key,
  if not (Processing.same status ProcessingStatus.failed) then cache_pending else cache_ready,
)

-- The key and the age that `content` answers with: the key is a thumbnail's where that is ready.
unfoldable pub chosen : Avatar → ThumbnailSize → String × ℕ
chosen avatar size =
    if str_eq size ""
    then (avatar.s3_key, cache_ready)
    else sized avatar.s3_key avatar.processing_status (thumbnail avatar size)

abbrev object_content : StoredObject → ℕ → Bool → Content
object_content object max_age is_default = record {
  body = object.body;
  content_type = object.content_type;
  etag = object.etag;
  size = object.size;
  max_age = max_age;
  is_default = is_default;
}

unfoldable pub content : Avatar → ThumbnailSize → St (Result Content)
content avatar size = do
  r ← S3.get (chosen avatar size).0
  on_result r (λ e. pure (err e))
      (λ object. pure (ok (object_content object (chosen avatar size).1 false)))

unfoldable pub avatar_content : Uuid → ThumbnailSize → St (Result Content)
avatar_content id size = do
  r ← Postgres.get id
  on_result r (λ e. pure (err (wrap e)))
      λ avatar. do
        c ← content avatar size
        on_result c (λ e. pure (err (wrap e))) (λ found. pure (ok found))

module _ (s : Service) where
  unfoldable pub default_content : Content
  default_content = object_content s.placeholder cache_placeholder true

  abbrev fall_back : Error → St (Result Content)
  unfolding default_content
  fall_back e = pure (if is e not_found then ok default_content else err (wrap e))

  unfoldable pub user_avatar_content : String → ThumbnailSize → St (Result Content)
  unfolding default_content
  user_avatar_content user_id size = do
    r ← Postgres.get_current user_id
    on_result r fall_back λ avatar. do
      c ← content avatar size
      on_result c fall_back
          (λ found. pure (ok (record found { max_age = min found.max_age cache_current })))

  -- What follows the creation of the record.
  unfoldable pub store : UploadInput → Info → Uuid → Avatar → St (Result Avatar)
  store input info id avatar = do
    o ← S3.put s.etag_of (original_key id) input.file input.size info.mime_type
    on_error o (undo id) do
      m ← Postgres.set_upload_status id UploadStatus.uploaded
      on_error m (undo id) do
        event ← new_upload_event id input.user_id (original_key id)
        _ ← publish event
        pure (ok (record avatar { upload_status = UploadStatus.uploaded }))

  abbrev new_avatar : UploadInput → Info → Uuid → NewAvatar
  new_avatar input info id = record {
    id = id;
    user_id = input.user_id;
    file_name = input.file_name;
    mime_type = info.mime_type;
    size_bytes = input.size;
    width = info.width;
    height = info.height;
    s3_key = original_key id;
  }

  unfoldable pub create_and_store : UploadInput → St (Result Avatar)
  create_and_store input =
      on_result (s.validate input.file) (λ e. pure (err (wrap e)))
        λ info. do
          id ← new_uuid
          created ← Postgres.create (new_avatar input info id)
          on_result created (λ e. pure (err (wrap e))) (store input info id)

  unfoldable pub upload : UploadInput → St (Result Avatar)
  unfolding succeeded
  upload input = do r ← create_and_store input; observe (upload_observed (succeeded r)); pure r
