-- ===== src/Server/Service/Processed.antt =====
-- internal/server/service/upload.go with internal/worker/handler/uploaded.go: an upload and the
-- handling of its event.
use gophprofile.Base.{
  ℕ, String, ◌≡◌, refl, Bool, false, none, some, List, [], ◌∷◌, ◌++◌, lookup, StringMap, take, ltb,
  any,
}
use gophprofile.Fault.{ok}
use gophprofile.Domain.ProcessingStatus.{ProcessingStatus}
use gophprofile.Domain.Keys.{original_key}
use gophprofile.Domain.Avatar.{Avatar}
use gophprofile.Domain.Thumbnail.{thumbnail_sizes, thumbnail_small, thumbnail_medium}
use gophprofile.World.{Shared, World, Event, upload_event}
use gophprofile.Imageproc.{Info}
use gophprofile.Postgres.Queries.{has_id}
use gophprofile.Server.Service.{Service, UploadInput, upload}
use gophprofile.Server.Service.Accepted.{id_of, message_id_of, upload-Accepted}
use gophprofile.Worker.Handler.{Handler, handle, done}
use gophprofile.Worker.Handler.Delivered.{message_of, Reads}
use gophprofile.Worker.Handler.Calm.{calm}
use gophprofile.Worker.Handler.Completed.{Finished, uploaded-Stored}

-- The event on an upload.
abbrev pub event_of : (message_id avatar_id : String) → UploadInput → Event
event_of message_id avatar_id input =
    upload_event message_id avatar_id input.user_id (original_key avatar_id)

not_done : (p : ProcessingStatus) → p ≡ ProcessingStatus.pending → done p ≡ false
unfolding done
not_done p e = rw e refl

module _ (s : Service) (h : Handler) (encode : Event → List ℕ) where
  -- From a file to its thumbnails, where no call is refused and nobody interferes: the file is valid
  -- and within the limit of the worker, no line has the new identifier, and the worker decodes the event
  -- on the upload as it was encoded. Then the upload answers with an avatar and publishes one event, and
  -- when the worker handles the message that carries this event, at any attempt, there is no error, and
  -- the avatar is live and completed with both thumbnails, made of the file, under their keys. The two
  -- processes run at any times.
  pub upload-Finished :
      (input : UploadInput) (info : Info) (attempt : ℕ) (final : Bool) (thumbs : StringMap (List ℕ))
      (small medium : List ℕ) (x : Shared) (n m : ℕ) (w u : World)
      → s.validate input.file ≡ ok info
      → any (has_id (id_of s w)) x.table ≡ false
      → ltb h.max_original_bytes input.size ≡ false
      → Reads h encode (event_of (message_id_of s w) (id_of s w) input)
      → h.parse_uuid (id_of s w) ≡ ok (id_of s w)
      → h.thumbnails (take h.max_original_bytes input.file) thumbnail_sizes ≡ ok thumbs
      → lookup thumbnail_small thumbs ≡ some small
      → lookup thumbnail_medium thumbs ≡ some medium
      → let (r, v) = upload s input (calm x n w) in
        ((a : Avatar) × (r ≡ ok a) × (a.id ≡ id_of s w))
        × (event : Event) × (v.shared.events ≡ x.events ++ event ∷ [])
        × (let (e, z) = handle h (message_of encode attempt final event) (calm v.shared m u) in
            (e ≡ none) × Finished (id_of s w) small medium z.shared)
  unfolding handle message_of
  upload-Finished input info attempt final thumbs small medium x n m w u valid absent size reads pu
        ht ls lm =
      let (answer, left) = upload-Accepted s input info x n w valid absent in
      let y = (upload s input (calm x n w)).1.shared in
      let event = event_of (message_id_of s w) (id_of s w) input in
      let msg = message_of encode attempt final event in
      let stored =
        uploaded-Stored h msg
          (record {
            message_id = message_id_of s w;
            avatar_id = id_of s w;
            user_id = input.user_id;
            s3_key = original_key (id_of s w);
          })
          (id_of s w) left.line left.original thumbs small medium y m u left.single left.found
          left.live (not_done left.line.processing_status left.pending) (rw left.key left.stored)
          (rw left.sized size) reads pu (rw left.whole ht) ls lm in
      (answer, event, left.told, stored)
