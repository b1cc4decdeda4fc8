-- ===== src/Server/Service/Accepted.antt =====
-- internal/server/service/upload.go: an upload in a world where no call is refused and nobody
-- interferes, and the handling of its event by the worker.
use gophprofile.Base.{
  ℕ, ◌+◌, String, ◌≡◌, refl, true, false, none, some, [], ◌∷◌, ◌++◌, arith, eq_iff, lookup, insert,
  insert-here, any, count_if,
}
use gophprofile.Fault.{ok}
use gophprofile.Domain.UploadStatus as Upload
use gophprofile.Domain.UploadStatus.{UploadStatus}
use gophprofile.Domain.ProcessingStatus.{ProcessingStatus}
use gophprofile.Domain.Keys.{Uuid, original_key}
use gophprofile.Domain.Avatar.{Avatar, NewAvatar}
use gophprofile.World.{
  Row, Shared, StoredObject, World, upload_event, turn, rest, meet, served, perform, observe, first,
  others_of, new_uuid, pure, ◌>>=◌, on_result, on_error,
}
use gophprofile.Broker.Events.{new_upload_event, publish}
use gophprofile.Imageproc.{Info}
use gophprofile.Postgres
use gophprofile.Postgres.Queries.{
  Table, has_id, is_live, update_rows, new_row, scan_avatar, set_upload_status_query,
}
use gophprofile.Postgres.Evolution.{find_row, AtMostOne}
use gophprofile.Server.Service.{Service, UploadInput, upload, create_and_store, store, new_avatar}
use gophprofile.Worker.Handler.Calm.{calm, transition-calm, put-calm}

-- A line at the end of a table that had none with its id.
find_row-last :
    (id : Uuid) (r : Row) (t : Table)
    → any (has_id id) t ≡ false
    → has_id id r ≡ true
    → find_row id (t ++ r ∷ []) ≡ some r
unfolding find_row
find_row-last id r [] a h = ground arith
find_row-last id r (x ∷ t) a h = ground (arith, find_row-last id r t)

count_if-last :
    (id : Uuid) (r : Row) (t : Table)
    → any (has_id id) t ≡ false
    → has_id id r ≡ true
    → count_if (has_id id) (t ++ r ∷ []) ≡ 1
count_if-last id r [] a h = ground arith
count_if-last id r (x ∷ t) a h = ground (arith, count_if-last id r t)

counted-last :
    (id : Uuid) (s : UploadStatus) (r : Row) (t : Table)
    → any (has_id id) t ≡ false
    → set_upload_status_query id s r ≡ true
    → count_if (set_upload_status_query id s) (t ++ r ∷ []) ≡ 1
unfolding set_upload_status_query
counted-last id s r [] a h = ground arith
counted-last id s r (x ∷ t) a h = ground (arith, counted-last id s r t)

update_rows-last :
    (id : Uuid) (s : UploadStatus) (f : Row → Row) (r : Row) (t : Table)
    → any (has_id id) t ≡ false
    → set_upload_status_query id s r ≡ true
    → update_rows (set_upload_status_query id s) f (t ++ r ∷ []) ≡ t ++ f r ∷ []
unfolding set_upload_status_query update_rows
update_rows-last id s f r [] a h = ground arith
update_rows-last id s f r (x ∷ t) a h = ground (arith, update_rows-last id s f r t)

create-calm :
    (a : NewAvatar) (x : Shared) (n : ℕ) (w : World)
    → any (has_id a.id) x.table ≡ false
    → Postgres.create a (calm x n w) ≡ (
      ok (scan_avatar (new_row (n + 0) a)),
      calm (record x { table = x.table ++ new_row (n + 0) a ∷ [] }) (n + 0) w,
    )
unfolding Postgres.create perform served meet turn rest pure ◌>>=◌
create-calm a x n w h = rw h refl

uploaded-calm :
    (id : Uuid) (r : Row) (t : Table) (x : Shared) (n : ℕ) (w : World)
    → any (has_id id) t ≡ false
    → set_upload_status_query id UploadStatus.uploaded r ≡ true
    → Postgres.set_upload_status id UploadStatus.uploaded
        (calm (record x { table = t ++ r ∷ [] }) n w)
      ≡ (
        none,
        calm
            (record x {
              table =
                  t ++ record r { upload_status = UploadStatus.uploaded; updated_at = n + 0 } ∷ [];
            })
            (n + 0)
            w,
      )
unfolding Postgres.set_upload_status pure ◌>>=◌ on_error
uploaded-calm id r t x n w a h =
    rw
      (
        transition-calm id (set_upload_status_query id UploadStatus.uploaded)
            (λ m q. record q { upload_status = UploadStatus.uploaded; updated_at = m })
            (record x { table = t ++ r ∷ [] }) n w
            (rw (counted-last id UploadStatus.uploaded r t a h) refl),
        update_rows-last id UploadStatus.uploaded
            (λ q. record q { upload_status = UploadStatus.uploaded; updated_at = n + 0 }) r t a h,
      )
      refl

queried-live :
    (id : Uuid) (s : UploadStatus) (r : Row)
    → set_upload_status_query id s r ≡ true
    → (has_id id r ≡ true) × (is_live r ≡ true)
unfolding set_upload_status_query
queried-live id s r h = ground arith

new_row-queried :
    (n : ℕ) (a : NewAvatar)
    → set_upload_status_query a.id UploadStatus.uploaded (new_row n a) ≡ true
unfolding set_upload_status_query new_row Upload.allowed_from
new_row-queried n a = ground (arith, eq_iff a.id a.id)

-- What an upload leaves: the line is live, uploaded and waits for its processing, its original is
-- stored whole, and the event on it is published.
pub record Accepted (id message_id : String) (input : UploadInput) (x y : Shared) : Type 0 where
  pub line : Row
  pub found : find_row id y.table ≡ some line
  pub single : AtMostOne id y.table
  pub live : is_live line ≡ true
  pub uploaded : line.upload_status ≡ UploadStatus.uploaded
  pub pending : line.processing_status ≡ ProcessingStatus.pending
  pub key : line.s3_key ≡ original_key id
  pub original : StoredObject
  pub stored : lookup (original_key id) y.objects ≡ some original
  pub whole : original.body ≡ input.file
  pub sized : original.size ≡ input.size
  pub told : y.events ≡ x.events ++ upload_event message_id id input.user_id (original_key id) ∷ []

module _ (s : Service) where
  abbrev pub id_of : World → Uuid
  id_of w = first w.uuids w.spare_uuid

  abbrev pub message_id_of : World → String
  message_id_of w = first (others_of w.uuids) w.spare_uuid

  store-calm :
      (input : UploadInput) (info : Info) (id : Uuid) (a : Avatar) (r : Row) (t : Table)
      (x : Shared) (n : ℕ) (w : World)
      → any (has_id id) t ≡ false
      → set_upload_status_query id UploadStatus.uploaded r ≡ true
      → r.processing_status ≡ ProcessingStatus.pending
      → r.s3_key ≡ original_key id
      → let (b, v) = store s input info id a (calm (record x { table = t ++ r ∷ [] }) n w) in
        (b ≡ ok (record a { upload_status = UploadStatus.uploaded }))
        × Accepted id (first w.uuids w.spare_uuid) input x v.shared
  unfolding store new_upload_event new_uuid publish perform served meet turn rest pure ◌>>=◌
      on_result on_error
  store-calm input info id a r t x n w b h p k =
      let (o, whole, size, put) =
        put-calm s.etag_of (original_key id) input.file input.size info.mime_type
          (record x { table = t ++ r ∷ [] }) n w in
      let (here, alive) = queried-live id UploadStatus.uploaded r h in
      let last = record r { upload_status = UploadStatus.uploaded; updated_at = n + 0 + 0 } in
      let y = record x { objects = insert (original_key id) o x.objects } in
      rw (put, uploaded-calm id r t y (n + 0) w b h)
        (
          refl,
          record {
            line = last;
            found = find_row-last id last t b here;
            single = rw (count_if-last id last t b here) (omega arith);
            live = alive;
            uploaded = refl;
            pending = p;
            key = k;
            original = o;
            stored = insert-here x.objects (original_key id) o;
            whole = whole;
            sized = size;
            told = refl;
          },
        )

  -- An upload where no call is refused and nobody interferes: the file is valid and no line has the
  -- new identifier. Then it answers with an avatar of that identifier, and leaves a line, an object and
  -- an event as `Accepted` says.
  pub upload-Accepted :
      (input : UploadInput) (info : Info) (x : Shared) (n : ℕ) (w : World)
      → s.validate input.file ≡ ok info
      → any (has_id (id_of w)) x.table ≡ false
      → let (r, v) = upload s input (calm x n w) in
        ((a : Avatar) × (r ≡ ok a) × (a.id ≡ id_of w))
        × Accepted (id_of w) (message_id_of w) input x v.shared
  unfolding upload create_and_store new_uuid observe new_row scan_avatar pure ◌>>=◌ on_result
  upload-Accepted input info x n w h b =
      let a = new_avatar s input info (id_of w) in
      let u = record w { uuids = others_of w.uuids } in
      let (e, left) =
        store-calm input info (id_of w) (scan_avatar (new_row (n + 0) a)) (new_row (n + 0) a)
          x.table x (n + 0) u b (new_row-queried (n + 0) a) refl refl in
      rw (h, create-calm a x n u b, e) ((_, refl, refl), left)
