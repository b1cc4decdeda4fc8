-- ===== src/Tests/Quiet.antt =====
-- Runs in which every call is served.
use gophprofile.Base.{
  ℕ, ◌≡◌, refl, false, [], ◌∷◌, ◌++◌, none, some, List, map, if◌then◌else◌, keep_if, lookup,
}
use gophprofile.Fault.{ok}
use gophprofile.Domain.UploadStatus.{UploadStatus}
use gophprofile.Domain.ProcessingStatus.{ProcessingStatus}
use gophprofile.Domain.Avatar.{Avatar, storage_keys}
use gophprofile.World.{Row, Shared, Event, first, others_of}
use gophprofile.Postgres.Queries.{scan_avatar}
use gophprofile.Imageproc.{Info}
use gophprofile.Server.Service.{upload, delete}
use gophprofile.Server.Service.Removed as Removed
use gophprofile.Postgres.Evolution.{find_row}
use gophprofile.Server.Service.Accepted.{id_of}
use gophprofile.Server.Service.Processed.{upload-Finished}
use gophprofile.Worker.Handler.{Handler, handle}
use gophprofile.Worker.Handler.Delivered.{message_of}
use gophprofile.Domain.Keys.{original_key}
use gophprofile.Worker.Handler.Calm.{calm}
use gophprofile.Worker.Handler.Completed.{Finished}
use gophprofile.Worker.Reconciler.{Config, reconcile}
use gophprofile.Worker.Reconciler.Quiet.{anonymous, processing_of, removal_of, reconcile-Due}
use gophprofile.Worker.Reconciler.Due.{Oldest, is_stuck, is_uncleaned, is_stale, failed_at}
use gophprofile.Tests.Data.{line, shared_one, world_one, test_handler, test_service}
use gophprofile.Tests.Server.{input}

abbrev info : Info
info = record { mime_type = "image/png"; width = 1; height = 2 }

-- json.Marshal of an event.
abbrev encode : Event → List ℕ
encode e = []

-- What it decodes is the event on the second avatar.
abbrev handler : Handler
handler = record test_handler {
  decode_upload = λ bs. ok (record {
    message_id = "c";
    avatar_id = "b";
    user_id = input.user_id;
    s3_key = original_key "b";
  });
}

upload-Finished_example :
    let (r, v) = upload test_service input (calm shared_one 100 world_one) in
    ((a : Avatar) × (r ≡ ok a) × (a.id ≡ id_of test_service world_one))
    × (event : Event) × (v.shared.events ≡ shared_one.events ++ event ∷ [])
    × (let (e, z) =
          handle handler (message_of encode 1 false event) (calm v.shared 200 world_one) in
        (e ≡ none) × Finished (id_of test_service world_one) (1 ∷ []) (2 ∷ []) z.shared)
unfolding lookup first others_of
upload-Finished_example =
    upload-Finished test_service handler encode input info 1 false
      (("100x100", 1 ∷ []) ∷ ("300x300", 2 ∷ []) ∷ []) (1 ∷ []) (2 ∷ []) shared_one 100 200
      world_one world_one refl refl refl refl refl refl refl refl

-- One line is stuck, one is under way for too long, one is to be cleaned.
abbrev lines : List Row
lines =
    record line { processing_status = ProcessingStatus.pending }
    ∷ record line { id = "b"; upload_status = UploadStatus.uploading }
    ∷ record line { id = "c"; deleted_at = some 7 }
    ∷ []

abbrev many : Shared
many = record shared_one { table = lines }

abbrev config : Config
config = record { stuck_after = 50; batch = 2 }

reconcile-Due_example :
    let (e, v) = reconcile config (calm many 100 world_one) in
    (e ≡ none)
    × (v.table ≡ map (λ r. if is_stale 50 r then failed_at 100 r else r) lines)
    × (v.objects ≡ many.objects)
    × (more : List Event) × (v.events ≡ many.events ++ more)
    × (stuck uncleaned : List Row) × (map anonymous more
        ≡ map (λ r. processing_of (scan_avatar r)) stuck
          ++ map (λ r. removal_of (scan_avatar r)) uncleaned)
    × Oldest (is_stuck 50) 2 v.table stuck
    × Oldest (is_uncleaned 50) 2 v.table uncleaned
reconcile-Due_example = reconcile-Due config many 100 world_one refl

-- What is due of these lines.
due :
    (keep_if (is_stuck 50) lines
      ≡ record line { processing_status = ProcessingStatus.pending } ∷ [])
    × (keep_if (is_uncleaned 50) lines ≡ record line { id = "c"; deleted_at = some 7 } ∷ [])
    × (keep_if (is_stale 50) lines
        ≡ record line { id = "b"; upload_status = UploadStatus.uploading } ∷ [])
due = (refl, refl, refl)

abbrev remover : Handler
unfolding storage_keys scan_avatar
remover = record test_handler {
  decode_delete = λ bs.
      ok (record { message_id = "b"; avatar_id = "a"; s3_keys = storage_keys (scan_avatar line) });
}

line_found : find_row line.id shared_one.table ≡ some line
unfolding find_row
line_found = refl

delete-Removed_example :
    let (e, v) = delete line.id line.user_id (calm shared_one 100 world_one) in
    (e ≡ none)
    × (event : Event) × (v.shared.events ≡ shared_one.events ++ event ∷ [])
    × (let (f, z) =
          handle remover (message_of encode 1 false event) (calm v.shared 200 world_one) in
        (f ≡ none) × Removed.Removed line z.shared)
unfolding first remover
delete-Removed_example =
    Removed.delete-Removed remover encode 1 false line shared_one 100 200 world_one world_one
      line_found refl refl refl
