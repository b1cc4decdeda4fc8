-- ===== src/World.antt =====
-- What the program shares with its database, its object storage, its broker and with other
-- processes, and the calls that reach them.
--
-- A call takes one `Turn` of a script. Before it is served, other processes have changed what is
-- shared (`others`) and time has passed (`elapsed`). It may then be refused by an error, and the
-- effect of a refused call may have taken place all the same (`landed`: the reply was lost). Where
-- the script has run out, calls are served and nobody interferes.
pub mod Keeps
pub mod Calls
use gophprofile.Base.{
  ℕ, ◌+◌, String, Bool, true, false, Option, none, some, List, [], ◌∷◌, ◌++◌, StringMap,
  if◌then◌else◌,
}
use gophprofile.Fault.{Error, Result, ok, err}
use gophprofile.Domain.UploadStatus.{UploadStatus}
use gophprofile.Domain.ProcessingStatus.{ProcessingStatus}
use gophprofile.Domain.Keys.{Uuid}

-- A line of the table avatars (migrations/*.sql), also when it is softly deleted.
pub record Row : Type 0 where
  pub id : Uuid
  pub user_id : String
  pub file_name : String
  pub mime_type : String
  pub size_bytes : ℕ
  pub width : ℕ
  pub height : ℕ
  pub s3_key : String
  pub thumbnail_s3_keys : StringMap String
  pub upload_status : UploadStatus
  pub processing_status : ProcessingStatus
  pub retry_count : ℕ
  pub created_at : ℕ
  pub updated_at : ℕ
  pub deleted_at : Option ℕ
  pub files_removed_at : Option ℕ

-- internal/domain/object.go, with the contents of the body
pub record StoredObject : Type 0 where
  pub body : List ℕ
  pub etag : String
  pub content_type : String
  pub size : ℕ

-- internal/broker/events.go
pub data Event : Type 0 where
  upload_event : (message_id avatar_id user_id s3_key : String) → Event
  delete_event : (message_id avatar_id : String) (s3_keys : List String) → Event

pub record Shared : Type 0 where
  pub table : List Row
  pub objects : StringMap StoredObject
  pub events : List Event  -- published and confirmed, oldest first

pub record Turn : Type 0 where
  pub others : Shared → Shared
  pub elapsed : ℕ
  pub fault : Option Error
  pub landed : Bool
  pub reach : ℕ  -- the rows read before `fault`, where rows are read one by one

-- internal/metrics: the business counters, without durations
pub data Metric : Type 0 where
  upload_observed delete_counted processing_observed : Bool → Metric

pub record World : Type 0 where
  pub shared : Shared
  pub open shared use *
  pub now : ℕ
  pub script : List Turn
  pub metrics : List Metric
  pub uuids : List Uuid  -- what the next calls of uuid.New return
  pub spare_uuid : Uuid
  pub ties : ℕ → Row → ℕ  -- at a time, the order of the database for lines that ORDER BY leaves equal

abbrev pub St : Type 0 → Type 0
St A = World → A × World

module _ {A : Type 0} where
  unfoldable pub pure : A → St A
  pure a w = (a, w)

module _ {A B : Type 0} where
  infixl 10 ◌>>=◌ ◌>>◌
  unfoldable pub ◌>>=◌ : St A → (A → St B) → St B
  unfolding pure
  ◌>>=◌ m f w = let (a, w') = m w in f a w'

  abbrev pub ◌>>◌ : St A → St B → St B
  m >> n = m >>= λ _. n

-- `if err != nil { … return }`, and the two ways on from a call that returns a value or an error.
module _ {A B : Type 0} where
  unfoldable pub on_result : Result A → (Error → St B) → (A → St B) → St B
  on_result (ok a) f g = g a
  on_result (err e) f g = f e

module _ {A B : Type 0} where
  unfoldable pub on_option : Option A → St B → (A → St B) → St B
  on_option none m f = m
  on_option (some a) m f = f a

module _ {B : Type 0} where
  unfoldable pub on_error : Option Error → (Error → St B) → St B → St B
  on_error none f m = m
  on_error (some e) f m = f e

abbrev idle : Turn
idle = record { others = λ s. s; elapsed = 0; fault = none; landed = false; reach = 0 }

unfoldable pub turn : List Turn → Turn
turn [] = idle
turn (t ∷ ts) = t

unfoldable pub rest : List Turn → List Turn
rest [] = []
rest (t ∷ ts) = ts

-- The world when a call is served: others have had their turn.
unfoldable pub meet : World → World
unfolding turn rest
meet w = record w {
  shared = (turn w.script).others w.shared;
  now = w.now + (turn w.script).elapsed;
  script = rest w.script;
}

abbrev pub Op : Type 0 → Type 0
Op A = ℕ → Shared → Result A × Shared

module _ {A : Type 0} where
  unfoldable pub served : Option Error → Bool → Result A × Shared → World → Result A × World
  served none landed (r, s) w = (r, record w { shared = s })
  served (some e) landed (r, s) w = (err e, if landed then record w { shared = s } else w)

  -- One call: `op` is what the other side does with it.
  unfoldable pub perform : Op A → St (Result A)
  unfolding served meet
  perform op w =
      let t = turn w.script in let w' = meet w in served t.fault t.landed (op w'.now w'.shared) w'

module _ {A : Type 0} where
  unfoldable pub in_order : ((Row → ℕ) → St A) → St A
  in_order m w = m (w.ties w.now) w

unfoldable pub first : List Uuid → Uuid → Uuid
first [] spare = spare
first (u ∷ us) spare = u

unfoldable pub others_of : List Uuid → List Uuid
others_of [] = []
others_of (u ∷ us) = us

-- uuid.New and uuid.NewString
unfoldable pub new_uuid : St Uuid
unfolding first others_of
new_uuid w = (first w.uuids w.spare_uuid, record w { uuids = others_of w.uuids })

unfoldable pub observe : Metric → St (Unit {0})
observe m w = (tt, record w { metrics = w.metrics ++ m ∷ [] })
