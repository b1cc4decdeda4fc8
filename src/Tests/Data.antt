-- ===== src/Tests/Data.antt =====
-- One avatar, a world that has it, and calls that are refused.
use gophprofile.Base.{[], ◌∷◌, true, false, none, some}
use gophprofile.Fault.{ok, foreign}
use gophprofile.Domain.UploadStatus.{UploadStatus}
use gophprofile.Domain.ProcessingStatus.{ProcessingStatus}
use gophprofile.World.{Row, Shared, StoredObject, Turn, World}
use gophprofile.World.Keeps.{Rely}
use gophprofile.Postgres.Evolution.{Evolution, Evolution-preorder}
use gophprofile.Worker.Handler.{Handler, Message}
use gophprofile.Server.Service.{Service}

abbrev pub line : Row
line = record {
  id = "a";
  user_id = "ann";
  file_name = "a.png";
  mime_type = "image/png";
  size_bytes = 3;
  width = 10;
  height = 20;
  s3_key = "originals/a";
  thumbnail_s3_keys = [];
  upload_status = UploadStatus.uploaded;
  processing_status = ProcessingStatus.processing;
  retry_count = 0;
  created_at = 5;
  updated_at = 6;
  deleted_at = none;
  files_removed_at = none;
}

abbrev pub original : StoredObject
original = record { body = 1 ∷ 2 ∷ 3 ∷ []; etag = "e"; content_type = "image/png"; size = 3 }

abbrev pub shared_one : Shared
shared_one = record { table = line ∷ []; objects = ("originals/a", original) ∷ []; events = [] }

abbrev pub world_one : World
world_one = record {
  shared = shared_one;
  now = 100;
  script = [];
  metrics = [];
  uuids = "b" ∷ [];
  spare_uuid = "c";
  ties = λ n r. 0;
}

abbrev pub refusal : Turn
refusal = record {
  others = λ s. s;
  elapsed = 1;
  fault = some (foreign 7);
  landed = true;
  reach = 0;
}

-- The first call is refused, and has taken place all the same.
abbrev pub world_refused : World
world_refused = record world_one { script = refusal ∷ [] }

pub Rely_refused : Rely Evolution world_refused.script
Rely_refused = (λ s. Evolution-preorder.rfl s, tt)

abbrev pub test_handler : Handler
test_handler = record {
  max_original_bytes = 10;
  etag_of = λ bs. "e";
  decode_upload = λ bs.
      ok (record { message_id = "m"; avatar_id = "a"; user_id = "ann"; s3_key = "originals/a" });
  decode_delete =
      λ bs. ok (record { message_id = "m"; avatar_id = "a"; s3_keys = "originals/a" ∷ [] });
  parse_uuid = λ s. ok s;
  thumbnails = λ bs sizes. ok (("100x100", 1 ∷ []) ∷ ("300x300", 2 ∷ []) ∷ []);
}

abbrev pub test_message : Message
test_message = record {
  type = "avatar.uploaded";
  message_id = "m";
  body = [];
  attempt = 1;
  final = false;
}

abbrev pub test_service : Service
test_service = record {
  etag_of = λ bs. "e";
  validate = λ bs. ok (record { mime_type = "image/png"; width = 1; height = 2 });
  placeholder = original;
}
