-- ===== src/Postgres/Changes.antt =====
-- What each statement of the repository makes of a line that it selects is an evolution of the line.
use gophprofile.Base.{ℕ, ◌+◌, String, ◌≡◌, refl, true, some, arith, StringMap}
use gophprofile.Domain.UploadStatus as Upload
use gophprofile.Domain.UploadStatus.{UploadStatus}
use gophprofile.Domain.ProcessingStatus as Processing
use gophprofile.Domain.ProcessingStatus.{ProcessingStatus, completed}
use gophprofile.Domain.Keys.{Uuid}
use gophprofile.World.{Row}
use gophprofile.Postgres.{coalesce}
use gophprofile.Postgres.Queries.{
  get_avatar_query, fail_stale_uploads_query, set_upload_status_query, set_processing_status_query,
}
use gophprofile.Postgres.Evolution.{Evolves}

pub set_upload_status_Evolves :
    (id : Uuid) (s : UploadStatus) (n : ℕ) (r : Row)
    → set_upload_status_query id s r ≡ true
    → Evolves r (record r { upload_status = s; updated_at = n })
unfolding set_upload_status_query
set_upload_status_Evolves id s n r h = record {
  same_id = refl;
  same_user = refl;
  same_key = refl;
  same_birth = refl;
  upload = Upload.move Upload.here (ground arith);
  processing = Processing.here;
  stays_deleted = λ n h. h;
  stays_removed = λ n h. h;
  stays_complete = λ h. refl;
  retries_grow = omega arith;
}

pub set_processing_status_Evolves :
    (id : Uuid) (s : ProcessingStatus) (n : ℕ) (r : Row)
    → set_processing_status_query id s r ≡ true
    → Evolves r (record r { processing_status = s; updated_at = n })
unfolding set_processing_status_query
set_processing_status_Evolves id s n r h = record {
  same_id = refl;
  same_user = refl;
  same_key = refl;
  same_birth = refl;
  upload = Upload.here;
  processing = Processing.move Processing.here (ground arith);
  stays_deleted = λ n h. h;
  stays_removed = λ n h. h;
  stays_complete = λ h. refl;
  retries_grow = omega arith;
}

pub complete_Evolves :
    (id : Uuid) (keys : StringMap String) (n : ℕ) (r : Row)
    → set_processing_status_query id completed r ≡ true
    → Evolves r
        (record r { thumbnail_s3_keys = keys; processing_status = completed; updated_at = n })
unfolding set_processing_status_query Processing.allowed_from
complete_Evolves id keys n r h = record {
  same_id = refl;
  same_user = refl;
  same_key = refl;
  same_birth = refl;
  upload = Upload.here;
  processing = Processing.move Processing.here (ground arith);
  stays_deleted = λ n h. h;
  stays_removed = λ n h. h;
  stays_complete = λ g. ground arith;
  retries_grow = omega arith;
}

pub fail_stale_Evolves :
    (before n : ℕ) (r : Row)
    → fail_stale_uploads_query before r ≡ true
    → Evolves r (record r { upload_status = UploadStatus.failed; updated_at = n })
unfolding fail_stale_uploads_query Upload.allowed_from
fail_stale_Evolves before n r h = record {
  same_id = refl;
  same_user = refl;
  same_key = refl;
  same_birth = refl;
  upload = Upload.move Upload.here (ground arith);
  processing = Processing.here;
  stays_deleted = λ n h. h;
  stays_removed = λ n h. h;
  stays_complete = λ h. refl;
  retries_grow = omega arith;
}

pub retry_Evolves :
    (n : ℕ) (r : Row) → Evolves r (record r { retry_count = r.retry_count + 1; updated_at = n })
retry_Evolves n r = record {
  same_id = refl;
  same_user = refl;
  same_key = refl;
  same_birth = refl;
  upload = Upload.here;
  processing = Processing.here;
  stays_deleted = λ n h. h;
  stays_removed = λ n h. h;
  stays_complete = λ h. refl;
  retries_grow = omega arith;
}

pub delete_Evolves :
    (id : Uuid) (n : ℕ) (r : Row)
    → get_avatar_query id r ≡ true
    → Evolves r (record r { deleted_at = some n; updated_at = n })
unfolding get_avatar_query
delete_Evolves id n r h = record {
  same_id = refl;
  same_user = refl;
  same_key = refl;
  same_birth = refl;
  upload = Upload.here;
  processing = Processing.here;
  stays_deleted = λ m g. ground arith;
  stays_removed = λ n h. h;
  stays_complete = λ h. refl;
  retries_grow = omega arith;
}

pub removed_Evolves :
    (n : ℕ) (r : Row)
    → Evolves r (record r { files_removed_at = some (coalesce r.files_removed_at n) })
removed_Evolves n r = record {
  same_id = refl;
  same_user = refl;
  same_key = refl;
  same_birth = refl;
  upload = Upload.here;
  processing = Processing.here;
  stays_deleted = λ n h. h;
  stays_removed = λ m g. ground arith;
  stays_complete = λ h. refl;
  retries_grow = omega arith;
}
