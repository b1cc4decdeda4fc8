-- ===== src/Server/Http/Bodies.antt =====
-- internal/server/http/dto.go.
use Prim.Native.String.{◌++◌}
use gophprofile.Base.{ℕ, String, List, [], ◌∷◌, none, some}
use gophprofile.Domain.ProcessingStatus.{ProcessingStatus}
use gophprofile.Domain.Thumbnail.{ThumbnailSize, thumbnail_sizes}
use gophprofile.Domain.Keys.{Uuid}
use gophprofile.Domain.Avatar.{Avatar, thumbnail}

pub record UploadResponse : Type 0 where
  pub id : String
  pub user_id : String
  pub url : String
  pub status : String
  pub created_at : ℕ

pub record ThumbnailRef : Type 0 where
  pub size : String
  pub url : String

pub record MetadataResponse : Type 0 where
  pub id : String
  pub user_id : String
  pub file_name : String
  pub mime_type : String
  pub size : ℕ
  pub width : ℕ
  pub height : ℕ
  pub thumbnails : List ThumbnailRef
  pub created_at : ℕ
  pub updated_at : ℕ

unfoldable pub api_status : ProcessingStatus → String
api_status ProcessingStatus.completed = "completed"
api_status ProcessingStatus.failed = "failed"
api_status ProcessingStatus.pending = "processing"
api_status ProcessingStatus.processing = "processing"

unfoldable pub avatar_url : Uuid → String
avatar_url id = "/api/v1/avatars/" ++ id

unfoldable pub thumbnail_url : Uuid → ThumbnailSize → String
thumbnail_url id size = avatar_url id ++ "?size=" ++ size

-- The loop over the sizes: only what is ready is listed.
unfoldable pub thumbnail_refs : Avatar → List ThumbnailSize → List ThumbnailRef
thumbnail_refs avatar [] = []
thumbnail_refs avatar (size ∷ sizes) =
    let rest = thumbnail_refs avatar sizes in
    elim (thumbnail avatar size) [
      | none ↦ rest
      | some key ↦ record { size = size; url = thumbnail_url avatar.id size } ∷ rest
    ]

unfoldable pub new_upload_response : Avatar → UploadResponse
new_upload_response avatar = record {
  id = avatar.id;
  user_id = avatar.user_id;
  url = avatar_url avatar.id;
  status = api_status avatar.processing_status;
  created_at = avatar.created_at;
}

unfoldable pub new_metadata_response : Avatar → MetadataResponse
new_metadata_response avatar = record {
  id = avatar.id;
  user_id = avatar.user_id;
  file_name = avatar.file_name;
  mime_type = avatar.mime_type;
  size = avatar.size_bytes;
  width = avatar.width;
  height = avatar.height;
  thumbnails = thumbnail_refs avatar thumbnail_sizes;
  created_at = avatar.created_at;
  updated_at = avatar.updated_at;
}
