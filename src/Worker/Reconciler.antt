-- ===== src/Worker/Reconciler.antt =====
-- internal/worker/reconciler: one pass. Run's loop over the ticks is the sequence of passes.
pub mod Safety
pub mod Batch
pub mod Due
pub mod Quiet
use gophprofile.Base.{ℕ, ◌+◌, ◌-◌, Bool, none, some, Option, List, [], ◌∷◌, ◌++◌}
use gophprofile.Fault.{Error, Result, ok, err, wrap, join, error_of}
use gophprofile.Domain.Avatar.{Avatar, storage_keys}
use gophprofile.World.{Event, World, St, pure, ◌>>=◌, on_result, on_error}
use gophprofile.Broker.Events.{new_upload_event, new_delete_event, publish}
use gophprofile.Postgres

pub record Config : Type 0 where
  pub stuck_after : ℕ
  pub batch : ℕ

-- The event that a row makes.
abbrev upload_event_of : Avatar → St Event
upload_event_of avatar = new_upload_event avatar.id avatar.user_id avatar.s3_key

abbrev cleanup_event_of : Avatar → St Event
cleanup_event_of avatar = new_delete_event avatar.id (storage_keys avatar)

-- The loop that republishUploads and republishCleanups share: how many were published, and the error
-- that ended it.
unfoldable pub republish : (Avatar → St Event) → Postgres.Rows → ℕ → St (ℕ × Option Error)
republish event_of [] published = pure (published, none)
republish event_of (r ∷ rows) published =
    on_result r (λ e. pure (published, some (wrap e)))
      λ avatar. do
        event ← event_of avatar
        o ← publish event
        on_error o (λ e. pure (published, some (wrap e))) (republish event_of rows (published + 1))

unfoldable pub republish_uploads : ℕ → ℕ → St (ℕ × Option Error)
republish_uploads batch before = do
  rows ← Postgres.select_stuck before batch
  republish upload_event_of rows 0

unfoldable pub republish_cleanups : ℕ → ℕ → St (ℕ × Option Error)
republish_cleanups batch before = do
  rows ← Postgres.select_uncleaned before batch
  republish cleanup_event_of rows 0

-- The errors that are not nil, in order.
abbrev joined : Option Error → List Error → List Error
joined none es = es
joined (some e) es = e ∷ es

-- time.Now
abbrev read_clock : St ℕ
read_clock w = (w.now, w)

unfoldable pub reconcile : Config → St (Option Error)
reconcile cfg = do
  now ← read_clock
  failed ← Postgres.fail_stale_uploads (now - cfg.stuck_after)
  uploads ← republish_uploads cfg.batch (now - cfg.stuck_after)
  cleanups ← republish_cleanups cfg.batch (now - cfg.stuck_after)
  pure
      (join (joined (Postgres.wrapped (error_of failed)) (joined uploads.1 (joined cleanups.1 []))))
