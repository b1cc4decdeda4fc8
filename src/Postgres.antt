-- ===== src/Postgres.antt =====
-- internal/repository/postgres: the queries on the table avatars, each as what the database does
-- with it, and the methods of Repository around them. A statement is atomic; a method that makes two
-- lets others in between. Contexts, deadlines and the pool are the script's refusals (World).
pub mod Queries
pub mod Evolution
pub mod Changes
pub mod Methods
pub mod Outcomes
pub mod Lookup
pub mod Refinement
pub mod Startup
use gophprofile.Base.{
  ℕ, ◌+◌, String, ◌&&◌, ◌||◌, Bool, true, false, Option, none, some, List, [], ◌∷◌, ◌++◌, map, any,
  keep_if, count_if, take, ltb, ◌==◌, str_eq, sort, ascending, descending, if◌then◌else◌, is_some,
  not, StringMap,
}
use gophprofile.Fault.{
  Error, Result, ok, err, sentinel, foreign, wrap, is, not_found, invalid_transition, no_rows,
}
use gophprofile.Domain.UploadStatus as Upload
use gophprofile.Domain.UploadStatus.{UploadStatus}
use gophprofile.Domain.ProcessingStatus as Processing
use gophprofile.Domain.ProcessingStatus.{ProcessingStatus}
use gophprofile.Domain.Keys.{Uuid}
use gophprofile.Domain.Avatar.{Avatar, NewAvatar}
use gophprofile.World.{
  Row, Shared, World, Turn, St, Op, in_order, pure, ◌>>=◌, ◌>>◌, on_result, on_error, perform, turn,
  meet,
}
use Queries.{
  Table, has_id, is_live, update_rows, scan_avatar, new_row, get_avatar_query,
  list_user_avatars_query, select_stuck_query, select_uncleaned_query, fail_stale_uploads_query,
  set_upload_status_query, set_processing_status_query,
}

-- pool.Exec: how many lines the statement touched
abbrev pub statement : (Row → Bool) → (ℕ → Row → Row) → Op ℕ
statement p f n s = (ok (count_if p s.table), record s { table = update_rows p (f n) s.table })

abbrev pub none_touched : ℕ → Option Error
none_touched n = if n == 0 then some (sentinel not_found) else none

unfoldable pub exec : (Row → Bool) → (ℕ → Row → Row) → St (Option Error)
exec p f = do
  r ← perform (statement p f)
  on_result r (λ e. pure (some e)) (λ n. pure (none_touched n))

-- avatarExistsQuery
abbrev exists_query : Uuid → Op (Unit {0})
exists_query id n s =
    (if any (get_avatar_query id) s.table then ok tt else err (sentinel no_rows), s)

unfoldable pub transition_error : Uuid → St (Option Error)
transition_error id = do
  r ← perform (exists_query id)
  on_result r (λ e. pure (some (if is e no_rows then sentinel not_found else e)))
      (λ _. pure (some (sentinel invalid_transition)))

unfoldable pub exec_transition : Uuid → (Row → Bool) → (ℕ → Row → Row) → St (Option Error)
exec_transition id p f = do
  o ← exec p f
  on_error o (λ e. if is e not_found then transition_error id else pure (some e)) (pure none)

abbrev pub first_row : List Row → Result Avatar
first_row [] = err (sentinel no_rows)
first_row (r ∷ rs) = ok (scan_avatar r)

abbrev pub scanned : Result Avatar → St (Result Avatar)
scanned r =
    on_result r (λ e. pure (err (if is e no_rows then sentinel not_found else wrap e)))
      (λ a. pure (ok a))

unfoldable pub query_one : (Table → List Row) → St (Result Avatar)
query_one q = do r ← perform (λ n s. (first_row (q s.table), s)); scanned r

-- What a consumer of the sequence sees: the rows read, and the error that ended the reading.
abbrev pub Rows : Type 0
Rows = List (Result Avatar)

abbrev pub ended : Option Error → ℕ → List Row → Rows
ended none reach rs = map (λ r. ok (scan_avatar r)) rs
ended (some e) reach rs = map (λ r. ok (scan_avatar r)) (take reach rs) ++ err (wrap e) ∷ []

abbrev pub rows_of : Result (List Row) → St Rows
rows_of r =
    on_result r (λ e. pure (err (wrap e) ∷ []))
      (λ rs w. (ended (turn w.script).fault (turn w.script).reach rs, meet w))

-- The statement is one call, the reading of its rows a second.
unfoldable pub query_many : (Table → List Row) → St Rows
query_many q = do r ← perform (λ n s. (ok (q s.table), s)); rows_of r

unfoldable pub failed_seq : Error → St Rows
failed_seq e = pure (err e ∷ [])

abbrev pub wrapped : Option Error → Option Error
wrapped none = none
wrapped (some e) = some (wrap e)

abbrev pub wrapped_result : {A : Type 0} → Result A → Result A
wrapped_result (ok a) = ok a
wrapped_result (err e) = err (wrap e)

-- The primary key refuses a second line with the same id.
abbrev insert_row : NewAvatar → Op Avatar
insert_row a n s =
    if any (has_id a.id) s.table
    then (err (foreign 23505), s)
    else (ok (scan_avatar (new_row n a)), record s { table = s.table ++ new_row n a ∷ [] })

unfoldable pub create : NewAvatar → St (Result Avatar)
create a = do r ← perform (insert_row a); pure (wrapped_result (wrapped_result r))

unfoldable pub get : Uuid → St (Result Avatar)
get id = do r ← query_one (keep_if (get_avatar_query id)); pure (wrapped_result r)

-- `ORDER BY created_at DESC`; lines of equal times come as `ties` says.
abbrev pub newest_first : (ties : Row → ℕ) → String → Table → List Row
newest_first ties user t =
    sort (descending (λ (r : Row). r.created_at))
      (sort (ascending ties) (keep_if (list_user_avatars_query user) t))

unfoldable pub get_current : String → St (Result Avatar)
get_current user = do
  r ← in_order (λ ties. query_one (λ t. take 1 (newest_first ties user t)))
  pure (wrapped_result r)

unfoldable pub list_by_user : String → St Rows
list_by_user user = in_order (λ ties. query_many (newest_first ties user))

-- `ORDER BY updated_at LIMIT …`
abbrev pub oldest : (ties : Row → ℕ) → (Row → Bool) → ℕ → Table → List Row
oldest ties p limit t =
    take limit (sort (ascending (λ (r : Row). r.updated_at)) (sort (ascending ties) (keep_if p t)))

unfoldable pub select_stuck : ℕ → ℕ → St Rows
select_stuck before limit =
    if limit == 0
    then failed_seq (foreign 0)
    else in_order (λ ties. query_many (oldest ties (select_stuck_query before) limit))

unfoldable pub select_uncleaned : ℕ → ℕ → St Rows
select_uncleaned before limit =
    if limit == 0
    then failed_seq (foreign 0)
    else in_order (λ ties. query_many (oldest ties (select_uncleaned_query before) limit))

abbrev pub set_failed : ℕ → Row → Row
set_failed n r = record r { upload_status = UploadStatus.failed; updated_at = n }

unfoldable pub fail_stale_uploads : ℕ → St (Result ℕ)
fail_stale_uploads before = do
  r ← perform (statement (fail_stale_uploads_query before) set_failed)
  pure (wrapped_result r)

abbrev pub coalesce : Option ℕ → ℕ → ℕ
coalesce none n = n
coalesce (some m) n = m

unfoldable pub mark_files_removed : Uuid → St (Option Error)
mark_files_removed id = do
  o ← exec (has_id id) (λ n r. record r { files_removed_at = some (coalesce r.files_removed_at n) })
  pure (wrapped o)

unfoldable pub set_upload_status : Uuid → UploadStatus → St (Option Error)
set_upload_status id s = do
  o ←
      exec_transition id (set_upload_status_query id s)
        (λ n r. record r { upload_status = s; updated_at = n })
  pure (wrapped o)

unfoldable pub set_processing_status : Uuid → ProcessingStatus → St (Option Error)
set_processing_status id s = do
  o ←
      exec_transition id (set_processing_status_query id s)
        (λ n r. record r { processing_status = s; updated_at = n })
  pure (wrapped o)

unfoldable pub complete_processing : Uuid → StringMap String → St (Option Error)
complete_processing id thumbnails = do
  o ← exec_transition id (set_processing_status_query id ProcessingStatus.completed) (λ n r.
      record r {
        thumbnail_s3_keys = thumbnails;
        processing_status = ProcessingStatus.completed;
        updated_at = n;
      })
  pure (wrapped o)

unfoldable pub increment_retry : Uuid → St (Option Error)
increment_retry id = do
  o ←
      exec (get_avatar_query id)
        (λ n r. record r { retry_count = r.retry_count + 1; updated_at = n })
  pure (wrapped o)

unfoldable pub soft_delete : Uuid → St (Option Error)
soft_delete id = do
  o ← exec (get_avatar_query id) (λ n r. record r { deleted_at = some n; updated_at = n })
  pure (wrapped o)

sum_bytes : Table → ℕ
sum_bytes [] = 0
sum_bytes (r ∷ rs) = (if is_live r then r.size_bytes else 0) + sum_bytes rs

unfoldable pub storage_bytes : St (Result ℕ)
unfolding sum_bytes
storage_bytes = do r ← perform (λ n s. (ok (sum_bytes s.table), s)); pure (wrapped_result r)
