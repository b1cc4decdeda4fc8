-- ===== src/Domain/Avatar.antt =====
-- internal/domain/avatar.go. Times are numbers on one clock; sizes and counts stay below the widths
-- of their columns.
use gophprofile.Base.{ℕ, String, Option, none, List, ◌∷◌, map, lookup, StringMap}
use gophprofile.Domain.UploadStatus.{UploadStatus}
use gophprofile.Domain.ProcessingStatus.{ProcessingStatus, completed}
use gophprofile.Domain.Thumbnail.{ThumbnailSize, thumbnail_sizes}
use gophprofile.Domain.Keys.{Uuid, thumbnail_key}

pub record Avatar : Type 0 where
  pub id : Uuid
  pub user_id : String
  pub file_name : String
  pub mime_type : String
  pub size_bytes : ℕ
  pub width : ℕ
  pub height : ℕ
  pub s3_key : String
  pub thumbnail_keys : StringMap String
  pub upload_status : UploadStatus
  pub processing_status : ProcessingStatus
  pub retry_count : ℕ
  pub created_at : ℕ
  pub updated_at : ℕ

-- The key is none where Go's second result is false.
unfoldable pub thumbnail_if : ProcessingStatus → Option String → Option String
thumbnail_if completed key = key
thumbnail_if _ key = none

unfoldable pub thumbnail : Avatar → ThumbnailSize → Option String
unfolding thumbnail_if
thumbnail a size = thumbnail_if a.processing_status (lookup size a.thumbnail_keys)

unfoldable pub storage_keys : Avatar → List String
storage_keys a = a.s3_key ∷ map (thumbnail_key a.id) thumbnail_sizes

pub record NewAvatar : Type 0 where
  pub id : Uuid
  pub user_id : String
  pub file_name : String
  pub mime_type : String
  pub size_bytes : ℕ
  pub width : ℕ
  pub height : ℕ
  pub s3_key : String
