-- ===== src/Worker/Reconciler/Due.antt =====
-- internal/worker/reconciler: which lines a pass is to work on.
use gophprofile.Base.{
  ℕ, ◌+◌, ◌≡◌, refl, ap, ◌∙◌, Bool, true, false, ◌&&◌, ◌||◌, not, is_some, Option, none, some, List,
  [], ◌∷◌, ◌++◌, map, count_if, count_if-same, keep_if, keep_if-count_if, length, length-take-min,
  length-count_if, drop, take-append-drop, min, ltb, sort, ascending, IsAscending, sort-IsAscending,
  sort-count_if, if◌then◌else◌, arith,
}
use gophprofile.Domain.UploadStatus as Upload
use gophprofile.Domain.UploadStatus.{UploadStatus}
use gophprofile.Domain.ProcessingStatus as Processing
use gophprofile.Domain.ProcessingStatus.{ProcessingStatus}
use gophprofile.World.{Row}
use gophprofile.Postgres
use gophprofile.Postgres.Queries.{
  Table, update_rows, fail_stale_uploads_query, select_stuck_query, select_uncleaned_query,
}

-- The original is uploaded, nothing has been made of it, and the line is not deleted.
abbrev waits : UploadStatus → ProcessingStatus → (deleted_at : Option ℕ) → Bool
waits UploadStatus.uploaded ProcessingStatus.pending none = true
waits UploadStatus.uploaded ProcessingStatus.pending (some n) = false
waits UploadStatus.uploaded ProcessingStatus.processing d = false
waits UploadStatus.uploaded ProcessingStatus.completed d = false
waits UploadStatus.uploaded ProcessingStatus.failed d = false
waits UploadStatus.uploading p d = false
waits UploadStatus.failed p d = false

-- Files may be left: they are not marked as removed, and the line is deleted or its upload has failed.
abbrev leaves_files : (files_removed_at deleted_at : Option ℕ) → UploadStatus → Bool
leaves_files (some n) d u = false
leaves_files none (some n) u = true
leaves_files none none UploadStatus.failed = true
leaves_files none none UploadStatus.uploading = false
leaves_files none none UploadStatus.uploaded = false

-- The upload is under way, and the line is not deleted.
abbrev uploads : UploadStatus → (deleted_at : Option ℕ) → Bool
uploads UploadStatus.uploading none = true
uploads UploadStatus.uploading (some n) = false
uploads UploadStatus.uploaded d = false
uploads UploadStatus.failed d = false

module _ (before : ℕ) where
  abbrev pub is_stuck : Row → Bool
  is_stuck r = ltb r.updated_at before && waits r.upload_status r.processing_status r.deleted_at

  abbrev pub is_uncleaned : Row → Bool
  is_uncleaned r =
      ltb r.updated_at before && leaves_files r.files_removed_at r.deleted_at r.upload_status

  abbrev pub is_stale : Row → Bool
  is_stale r = ltb r.updated_at before && uploads r.upload_status r.deleted_at

abbrev pub failed_at : ℕ → Row → Row
failed_at n r = record r { upload_status = UploadStatus.failed; updated_at = n }

stuck_waits :
    (u : UploadStatus) (p : ProcessingStatus) (d : Option ℕ) (b : Bool)
    → Upload.same u UploadStatus.uploaded
        && Processing.same p ProcessingStatus.pending
        && not (is_some d)
        && b
      ≡ b && waits u p d
stuck_waits UploadStatus.uploaded ProcessingStatus.pending none b = ground arith
stuck_waits UploadStatus.uploaded ProcessingStatus.pending (some n) b = ground arith
stuck_waits UploadStatus.uploaded ProcessingStatus.processing d b = ground arith
stuck_waits UploadStatus.uploaded ProcessingStatus.completed d b = ground arith
stuck_waits UploadStatus.uploaded ProcessingStatus.failed d b = ground arith
stuck_waits UploadStatus.uploading p d b = ground arith
stuck_waits UploadStatus.failed p d b = ground arith

uncleaned_leaves :
    (f d : Option ℕ) (u : UploadStatus) (b : Bool)
    → not (is_some f) && (is_some d || Upload.same u UploadStatus.failed) && b
      ≡ b && leaves_files f d u
uncleaned_leaves (some n) d u b = ground arith
uncleaned_leaves none (some n) u b = ground arith
uncleaned_leaves none none UploadStatus.failed b = ground arith
uncleaned_leaves none none UploadStatus.uploading b = ground arith
uncleaned_leaves none none UploadStatus.uploaded b = ground arith

stale_uploads :
    (u : UploadStatus) (d : Option ℕ) (b : Bool)
    → Upload.same u UploadStatus.uploading && not (is_some d) && b ≡ b && uploads u d
stale_uploads UploadStatus.uploading none b = ground arith
stale_uploads UploadStatus.uploading (some n) b = ground arith
stale_uploads UploadStatus.uploaded d b = ground arith
stale_uploads UploadStatus.failed d b = ground arith

zero_right : (n : ℕ) → n + 0 ≡ n
zero_right n = omega arith

module _ (before : ℕ) where
  pub query_stuck : (r : Row) → select_stuck_query before r ≡ is_stuck before r
  unfolding select_stuck_query
  query_stuck r =
      stuck_waits r.upload_status r.processing_status r.deleted_at (ltb r.updated_at before)

  pub query_uncleaned : (r : Row) → select_uncleaned_query before r ≡ is_uncleaned before r
  unfolding select_uncleaned_query
  query_uncleaned r =
      uncleaned_leaves r.files_removed_at r.deleted_at r.upload_status (ltb r.updated_at before)

  query_stale : (r : Row) → fail_stale_uploads_query before r ≡ is_stale before r
  unfolding fail_stale_uploads_query
  query_stale r = stale_uploads r.upload_status r.deleted_at (ltb r.updated_at before)

  pub updated_stale :
      (n : ℕ) (t : Table)
      → update_rows (fail_stale_uploads_query before) (Postgres.set_failed (n + 0)) t
        ≡ map (λ r. if is_stale before r then failed_at n r else r) t
  unfolding update_rows
  updated_stale n [] = refl
  updated_stale n (r ∷ t) =
      let others = map (λ q. if is_stale before q then failed_at n q else q) t in
      rw (query_stale r, updated_stale n t)
        (ap (λ m. (if is_stale before r then failed_at m r else r) ∷ others) (zero_right n))

-- Of the lines of a table that are due, the oldest, by their last change: with the ones that are left
-- they are the lines that are due, each as often as it is there, in the order of age, and they are a
-- batch, or all where there are fewer.
pub record Oldest (due : Row → Bool) (batch : ℕ) (t : Table) (picked : List Row) : Type 0 where
  pub left : List Row
  pub ordered : IsAscending (λ r. r.updated_at) (picked ++ left)
  pub counted : (p : Row → Bool) → count_if p (picked ++ left) ≡ count_if (λ r. p r && due r) t
  pub limited : length picked ≡ min batch (count_if due t)

module _ (ties : Row → ℕ) (query due : Row → Bool) (same : (r : Row) → query r ≡ due r) where
  abbrev all_due : Table → List Row
  all_due t = sort (ascending (λ (r : Row). r.updated_at)) (sort (ascending ties) (keep_if query t))

  all_due-count_if :
      (p : Row → Bool) (t : Table) → count_if p (all_due t) ≡ count_if (λ r. p r && due r) t
  all_due-count_if p t =
      sort-count_if _ p (sort (ascending ties) (keep_if query t))
      ∙ sort-count_if (ascending ties) p (keep_if query t)
      ∙ keep_if-count_if p query t
      ∙ count_if-same _ _ t (λ r. ap (λ b. p r && b) (same r))

  pub oldest-Oldest :
      (batch : ℕ) (t : Table) → Oldest due batch t (Postgres.oldest ties query batch t)
  oldest-Oldest batch t = record {
    left = drop batch (all_due t);
    ordered =
        rw (take-append-drop batch (all_due t))
          (sort-IsAscending _ (sort (ascending ties) (keep_if query t)));
    counted = λ p. rw (take-append-drop batch (all_due t)) (all_due-count_if p t);
    limited =
        length-take-min batch (all_due t)
        ∙ ap (min batch) (length-count_if (all_due t) ∙ all_due-count_if (λ r. true) t);
  }
