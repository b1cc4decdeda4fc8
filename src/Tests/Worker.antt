-- ===== src/Tests/Worker.antt =====
-- The theorems on internal/worker and internal/storage/s3 at one input each.
use gophprofile.Base.{arith, ◌≡◌, refl, [], ◌∷◌, All, none, some, true, false, lookup}
use gophprofile.Fault.{Error, both, sentinel, foreign, is, non_retryable}
use gophprofile.World.{◌>>=◌, pure, perform, served, meet, turn, rest, on_result, on_error}
use gophprofile.Domain.ProcessingStatus.{ProcessingStatus, allowed_from}
use gophprofile.Postgres.Refinement.{Moves, status_in, set_processing_status-Moves}
use gophprofile.Postgres
use gophprofile.Postgres.Queries.{set_processing_status_query, update_rows}
use gophprofile.Postgres.Evolution.{AtMostOne, Evolution, find_row}
use gophprofile.S3.{delete_many, delete_batch, answer}
use gophprofile.S3.Laws.{IsGone}
use gophprofile.Worker.Handler.{handle, failure}
use gophprofile.Worker.Handler.Safety.{handle-Evolution}
use gophprofile.Worker.Handler.Settled.{IsSettled, failure-IsSettled}
use gophprofile.Worker.Reconciler.{Config, reconcile}
use gophprofile.Worker.Reconciler.Safety.{reconcile-Evolution}
use gophprofile.S3
use gophprofile.Worker.Handler.{Message, AvatarDeleteEvent, deleted}
use gophprofile.Worker.Handler.{done, uploaded}
use gophprofile.Worker.Handler.Calm.{calm}
use gophprofile.Worker.Handler.Completed.{Finished, uploaded-Stored}
use gophprofile.Worker.Handler.Cleaned.{deleted-IsGone}
use gophprofile.Tests.Data.{
  line, original, shared_one, world_one, world_refused, Rely_refused, test_handler, test_message,
}

handle-Evolution_example :
    Evolution world_refused.shared (handle test_handler test_message world_refused).1.shared
handle-Evolution_example = handle-Evolution test_handler test_message world_refused Rely_refused

abbrev config : Config
config = record { stuck_after = 10; batch = 2 }

reconcile-Evolution_example :
    Evolution world_refused.shared (reconcile config world_refused).1.shared
reconcile-Evolution_example = reconcile-Evolution config world_refused Rely_refused

abbrev broken : Error
broken = both (sentinel non_retryable) (foreign 3)

world_one-find_row : find_row "a" world_one.table ≡ some line
unfolding find_row
world_one-find_row = refl

failure-dropped : is (failure "a" test_message broken world_one).0 non_retryable ≡ true
unfolding is failure Postgres.set_processing_status Postgres.exec_transition Postgres.exec ◌>>=◌
    pure perform served meet turn rest on_result on_error set_processing_status_query update_rows
    allowed_from
failure-dropped = refl

failure-IsSettled_example :
    IsSettled (find_row "a" (failure "a" test_message broken world_one).1.table)
failure-IsSettled_example =
    failure-IsSettled "a" test_message broken world_one line tt tt world_one-find_row refl
      failure-dropped

delete_one : (delete_many ("originals/a" ∷ []) world_one).0 ≡ none
unfolding delete_many delete_batch answer meet turn rest
delete_one = refl

abbrev delete_message : Message
delete_message = record test_message { type = "avatar.deleted" }

abbrev delete_decoded : AvatarDeleteEvent
delete_decoded = record { message_id = "m"; avatar_id = "a"; s3_keys = "originals/a" ∷ [] }

delete_handled : (deleted test_handler delete_message world_one).0 ≡ none
unfolding deleted S3.delete_many S3.delete_batch S3.answer Postgres.mark_files_removed Postgres.exec
    update_rows perform served meet turn rest on_result on_error pure ◌>>=◌
delete_handled = refl

deleted-IsGone_example :
    All (IsGone (deleted test_handler delete_message world_one).1.objects) delete_decoded.s3_keys
deleted-IsGone_example =
    deleted-IsGone test_handler delete_message delete_decoded world_one refl tt delete_handled

one_line : AtMostOne "a" (meet world_one).table
unfolding meet turn rest
one_line = omega arith

marked_failed : (Postgres.set_processing_status "a" ProcessingStatus.failed world_one).0 ≡ none
unfolding Postgres.set_processing_status Postgres.exec_transition Postgres.exec
    set_processing_status_query allowed_from update_rows perform served meet turn rest on_result
    on_error pure ◌>>=◌
marked_failed = refl

set_processing_status-Moves_example :
    Moves "a" ProcessingStatus.failed
      (status_in (meet world_one).table)
      (status_in (Postgres.set_processing_status "a" ProcessingStatus.failed world_one).1.table)
set_processing_status-Moves_example =
    set_processing_status-Moves "a" ProcessingStatus.failed world_one one_line marked_failed

single_line : AtMostOne "a" shared_one.table
single_line = omega arith

line_at_work : done line.processing_status ≡ false
unfolding done
line_at_work = refl

shared_one-find_row : find_row "a" shared_one.table ≡ some line
unfolding find_row
shared_one-find_row = refl

uploaded-Stored_example :
    let (e, v) = uploaded test_handler test_message (calm shared_one 100 world_one) in
    (e ≡ none) × Finished "a" (1 ∷ []) (2 ∷ []) v.shared
unfolding lookup
uploaded-Stored_example =
    uploaded-Stored test_handler test_message
      (record { message_id = "m"; avatar_id = "a"; user_id = "ann"; s3_key = "originals/a" }) "a"
      line original (("100x100", 1 ∷ []) ∷ ("300x300", 2 ∷ []) ∷ []) (1 ∷ []) (2 ∷ []) shared_one
      100 world_one single_line shared_one-find_row refl line_at_work refl refl refl refl refl refl
      refl
