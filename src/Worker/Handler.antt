-- ===== src/Worker/Handler.antt =====
-- internal/worker/handler. What the code calls of encoding/json, google/uuid and imageproc is in the
-- record `Handler`, beside the limit on the original. Metrics are kept without durations; logs and
-- spans are left out. Waiting for a decode slot is a call that the script may refuse; how renders share
-- the slots is in Slots.
pub mod Safety
pub mod Settled
pub mod Cleaned
pub mod Calm
pub mod Completed
pub mod Slots
pub mod Delivered
use gophprofile.Base.{
  ℕ, String, Bool, true, false, ◌||◌, ◌&&◌, not, Option, none, some, List, [], ◌∷◌, take, ltb,
  str_eq, if◌then◌else◌, StringMap, lookup, insert, length,
}
use gophprofile.Fault.{
  Error, Result, ok, err, sentinel, foreign, wrap, both, is, non_retryable, not_found,
  invalid_transition,
}
use gophprofile.Domain.ProcessingStatus.{ProcessingStatus, is_terminal}
use gophprofile.Domain.Thumbnail.{ThumbnailSize, thumbnail_sizes}
use gophprofile.Domain.Keys.{Uuid, thumbnail_key}
use gophprofile.Domain.Avatar.{Avatar}
use gophprofile.World.{
  StoredObject, Metric, processing_observed, St, pure, ◌>>=◌, ◌>>◌, on_result, on_option, on_error,
  perform, observe,
}
use gophprofile.Broker.Events.{routing_key_uploaded, routing_key_deleted}
use gophprofile.Postgres
use gophprofile.S3

pub record AvatarUploadEvent : Type 0 where
  pub message_id : String
  pub avatar_id : String
  pub user_id : String
  pub s3_key : String

pub record AvatarDeleteEvent : Type 0 where
  pub message_id : String
  pub avatar_id : String
  pub s3_keys : List String

-- Message of internal/broker/consumer.go
pub record Message : Type 0 where
  pub type : String
  pub message_id : String
  pub body : List ℕ
  pub attempt : ℕ
  pub final : Bool

pub record Handler : Type 0 where
  pub max_original_bytes : ℕ
  pub etag_of : List ℕ → String
  pub decode_upload : List ℕ → Result AvatarUploadEvent
  pub decode_delete : List ℕ → Result AvatarDeleteEvent
  pub parse_uuid : String → Result Uuid
  pub thumbnails : List ℕ → List ThumbnailSize → Result (StringMap (List ℕ))

abbrev thumbnail_mime_type : String
thumbnail_mime_type = "image/jpeg"

-- nonRetryable
abbrev pub no_retry : Error → Error
no_retry e = both (sentinel non_retryable) e

unfoldable pub done : ProcessingStatus → Bool
done ProcessingStatus.completed = true
done ProcessingStatus.failed = true
done ProcessingStatus.pending = false
done ProcessingStatus.processing = false

unfoldable pub count_retry : Uuid → St (Unit {0})
count_retry id = do _ ← Postgres.increment_retry id; pure tt

-- The error that the consumer gets where the terminal status could not be written.
abbrev marked : Message → Error → Option Error → Error
marked msg e none = e
marked msg e (some m) =
    if is m not_found || is m invalid_transition then e else if msg.final then e else wrap m

unfoldable pub failure : Uuid → Message → Error → St Error
failure id msg e =
    if not (is e non_retryable) && not msg.final then count_retry id >> pure e else do
      mark_err ← Postgres.set_processing_status id ProcessingStatus.failed
      pure (marked msg e mark_err)

-- `ok none` is the second result false: there is nothing to do.
unfoldable pub start : Uuid → St (Result (Option Avatar))
start id = do
  r ← Postgres.get id
  on_result r (λ e. if is e not_found then pure (ok none) else pure (err (wrap e)))
      λ avatar. if done avatar.processing_status then pure (ok none) else do
        o ← Postgres.set_processing_status id ProcessingStatus.processing
        on_error o
            (λ e.
              if is e not_found || is e invalid_transition
              then pure (ok none)
              else pure (err (wrap e)))
            (pure (ok (some avatar)))

unfoldable pub orphans : StringMap String → List ThumbnailSize → List String
orphans keys [] = []
orphans keys (size ∷ sizes) = elim (lookup size keys) [
  | none ↦ orphans keys sizes
  | some key ↦ key ∷ orphans keys sizes
]

unfoldable pub remove_thumbnails : StringMap String → St (Unit {0})
unfolding orphans
remove_thumbnails [] = pure tt
remove_thumbnails (k ∷ keys) = do _ ← S3.delete_many (orphans (k ∷ keys) thumbnail_sizes); pure tt

module _ (h : Handler) where
  unfoldable pub read_original : Avatar → St (Result (List ℕ))
  read_original avatar = do
    r ← S3.get avatar.s3_key
    on_result r (λ e. pure (err (if is e not_found then no_retry (wrap e) else wrap e)))
        λ (object : StoredObject).
          if ltb h.max_original_bytes object.size then pure (err (no_retry (foreign 0))) else do
            bytes ← perform (λ n s. (ok (take h.max_original_bytes object.body), s))
            on_result bytes (λ e. pure (err (wrap e))) (λ bs. pure (ok bs))

  abbrev made : Result (StringMap (List ℕ)) → Result (StringMap (List ℕ))
  made (ok m) = ok m
  made (err e) = err (no_retry (wrap e))

  unfoldable pub render : Avatar → St (Result (StringMap (List ℕ)))
  render avatar = do
    slot ← perform (λ n s. (ok tt, s))
    on_result slot (λ e. pure (err (wrap e)))
        λ (_ : Unit {0}). do
          original ← read_original avatar
          on_result original (λ e. pure (err e))
              (λ bs. pure (made (h.thumbnails bs thumbnail_sizes)))

  -- the loop over the sizes
  unfoldable pub store_thumbnails :
      Uuid
      → StringMap (List ℕ)
      → List ThumbnailSize
      → StringMap String
      → St (Result (StringMap String))
  store_thumbnails id thumbs [] keys = pure (ok keys)
  store_thumbnails id thumbs (size ∷ sizes) keys =
      on_option (lookup size thumbs) (store_thumbnails id thumbs sizes keys) λ bytes. do
        o ← S3.put h.etag_of (thumbnail_key id size) bytes (length bytes) thumbnail_mime_type
        on_error o (λ e. pure (err (wrap e)))
            (store_thumbnails id thumbs sizes (insert size (thumbnail_key id size) keys))

  abbrev finish : Uuid → StringMap String → Option Error → St (Result Bool)
  finish id keys none = pure (ok true)
  finish id keys (some e) =
      if is e not_found
      then (remove_thumbnails keys >> pure (err (no_retry (wrap e))))
      else if is e invalid_transition
      then pure (ok false)
      else pure (err (wrap e))

  unfoldable pub process : Avatar → St (Result Bool)
  process avatar = do
    r ← render avatar
    on_result r (λ e. pure (err e))
        λ thumbs. do
          stored ← store_thumbnails avatar.id thumbs thumbnail_sizes []
          on_result stored (λ e. pure (err e))
              λ keys. do o ← Postgres.complete_processing avatar.id keys; finish avatar.id keys o

  unfoldable pub failed : Uuid → Message → Error → St (Option Error)
  failed id msg e = do observe (processing_observed false); f ← failure id msg e; pure (some f)

  abbrev dropped : Error → St (Option Error)
  dropped e = do observe (processing_observed false); pure (some (no_retry (wrap e)))

  unfoldable pub uploaded : Message → St (Option Error)
  unfolding failed
  uploaded msg = on_result (h.decode_upload msg.body) dropped λ event.
      on_result (h.parse_uuid event.avatar_id) dropped λ id. do
        started ← start id
        on_result started (failed id msg) λ work. on_option work (pure none) λ avatar. do
          r ← process avatar
          on_result r (failed id msg) λ (processed : Bool).
              if processed then (observe (processing_observed true) >> pure none) else pure none

  abbrev unmarked : Option Error → Option Error
  unmarked none = none
  unmarked (some e) = some (if is e not_found then no_retry (wrap e) else wrap e)

  abbrev remove_files : Uuid → List String → St (Option Error)
  remove_files id [] = pure (some (no_retry (foreign 0)))
  remove_files id (k ∷ ks) = do
    o ← S3.delete_many (k ∷ ks)
    on_error o (λ e. pure (some (wrap e))) do m ← Postgres.mark_files_removed id; pure (unmarked m)

  unfoldable pub deleted : Message → St (Option Error)
  deleted msg =
      on_result (h.decode_delete msg.body) (λ e. pure (some (no_retry (wrap e))))
        λ event.
          on_result (h.parse_uuid event.avatar_id) (λ e. pure (some (no_retry (wrap e))))
            λ id. remove_files id event.s3_keys

  unfoldable pub handle : Message → St (Option Error)
  handle msg =
      if str_eq msg.type routing_key_uploaded
      then uploaded msg
      else if str_eq msg.type routing_key_deleted
      then deleted msg
      else pure (some (no_retry (foreign 0)))
