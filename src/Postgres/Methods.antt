-- ===== src/Postgres/Methods.antt =====
-- Every method of Repository takes the table along an evolution, if others do.
use gophprofile.Base.{ℕ, String, ◌≡◌, Bool, true, List, StringMap, any, Bool-cases, inl, inr}
use gophprofile.Fault.{Result}
use gophprofile.Domain.UploadStatus.{UploadStatus}
use gophprofile.Domain.ProcessingStatus.{ProcessingStatus}
use gophprofile.Domain.Keys.{Uuid}
use gophprofile.Domain.Avatar.{NewAvatar}
use gophprofile.World.{Row, Shared, St, in_order, perform, turn, meet}
use gophprofile.World.Keeps.{Keeps, Keeps-bind, Keeps-perform, keeps_rules, Rely-turn, Rely-rest}
use gophprofile.Postgres.{
  exec, transition_error, exec_transition, create, get, get_current, list_by_user, select_stuck,
  select_uncleaned, fail_stale_uploads, mark_files_removed, set_upload_status,
  set_processing_status, complete_processing, increment_retry, soft_delete, query_one, query_many,
  failed_seq, insert_row, ended,
}
use gophprofile.Postgres.Queries.{Table, has_id, new_row}
use gophprofile.Postgres.Evolution.{
  Evolves, Evolution, Evolution-preorder, update_rows-Evolution, append-Evolution,
}
use gophprofile.Postgres.Changes.{
  set_upload_status_Evolves, set_processing_status_Evolves, complete_Evolves, fail_stale_Evolves,
  retry_Evolves, delete_Evolves, removed_Evolves,
}

pub exec-Keeps :
    (p : Row → Bool) (f : ℕ → Row → Row)
    → ((n : ℕ) (r : Row) → p r ≡ true → Evolves r (f n r))
    → Keeps Evolution (exec p f)
unfolding exec
exec-Keeps p f h =
    Keeps-bind _ _ (Keeps-perform _ (λ n s. update_rows-Evolution p (f n) s (h n)))
      (search keeps_rules)

-- A call that only reads.
pub read-Keeps :
    {A : Type 0} (f : ℕ → Shared → Result A) → Keeps Evolution (perform (λ n s. (f n s, s)))
read-Keeps f = Keeps-perform _ (λ n s. Evolution-preorder.rfl s)

pub transition_error-Keeps : (id : Uuid) → Keeps Evolution (transition_error id)
unfolding transition_error
transition_error-Keeps id = search (keeps_rules, read-Keeps)

exec_transition-Keeps :
    (id : Uuid) (p : Row → Bool) (f : ℕ → Row → Row)
    → ((n : ℕ) (r : Row) → p r ≡ true → Evolves r (f n r))
    → Keeps Evolution (exec_transition id p f)
unfolding exec_transition
exec_transition-Keeps id p f h =
    Keeps-bind _ _ (exec-Keeps p f h) (search (keeps_rules, transition_error-Keeps))

pub set_upload_status-Keeps :
    (id : Uuid) (s : UploadStatus) → Keeps Evolution (set_upload_status id s)
unfolding set_upload_status
set_upload_status-Keeps id s =
    Keeps-bind _ _ (exec_transition-Keeps _ _ _ (set_upload_status_Evolves id s))
      (search keeps_rules)

pub set_processing_status-Keeps :
    (id : Uuid) (s : ProcessingStatus) → Keeps Evolution (set_processing_status id s)
unfolding set_processing_status
set_processing_status-Keeps id s =
    Keeps-bind _ _ (exec_transition-Keeps _ _ _ (set_processing_status_Evolves id s))
      (search keeps_rules)

pub complete_processing-Keeps :
    (id : Uuid) (keys : StringMap String) → Keeps Evolution (complete_processing id keys)
unfolding complete_processing
complete_processing-Keeps id keys =
    Keeps-bind _ _ (exec_transition-Keeps _ _ _ (complete_Evolves id keys)) (search keeps_rules)

pub increment_retry-Keeps : (id : Uuid) → Keeps Evolution (increment_retry id)
unfolding increment_retry
increment_retry-Keeps id =
    Keeps-bind _ _ (exec-Keeps _ _ (λ n r _. retry_Evolves n r)) (search keeps_rules)

pub soft_delete-Keeps : (id : Uuid) → Keeps Evolution (soft_delete id)
unfolding soft_delete
soft_delete-Keeps id = Keeps-bind _ _ (exec-Keeps _ _ (delete_Evolves id)) (search keeps_rules)

pub mark_files_removed-Keeps : (id : Uuid) → Keeps Evolution (mark_files_removed id)
unfolding mark_files_removed
mark_files_removed-Keeps id =
    Keeps-bind _ _ (exec-Keeps _ _ (λ n r _. removed_Evolves n r)) (search keeps_rules)

pub fail_stale_uploads-Keeps : (before : ℕ) → Keeps Evolution (fail_stale_uploads before)
unfolding fail_stale_uploads
fail_stale_uploads-Keeps before =
    Keeps-bind _ _
      (Keeps-perform _ (λ n s. update_rows-Evolution _ _ s (fail_stale_Evolves before n)))
      (search keeps_rules)

insert_row-Evolution : (a : NewAvatar) (n : ℕ) (s : Shared) → Evolution s (insert_row a n s).1
unfolding new_row
insert_row-Evolution a n s = elim (Bool-cases (any (has_id a.id) s.table)) [
  | inl e ↦ rw e (Evolution-preorder.rfl s)
  | inr e ↦ rw e (append-Evolution (new_row n a) s e)
]

pub create-Keeps : (a : NewAvatar) → Keeps Evolution (create a)
unfolding create
create-Keeps a = Keeps-bind _ _ (Keeps-perform _ (insert_row-Evolution a)) (search keeps_rules)

query_one-Keeps : (q : Table → List Row) → Keeps Evolution (query_one q)
unfolding query_one
query_one-Keeps q = search (keeps_rules, read-Keeps)

pub get-Keeps : (id : Uuid) → Keeps Evolution (get id)
unfolding get
get-Keeps id = search (keeps_rules, query_one-Keeps)

in_order-Keeps :
    {A : Type 0} (m : (Row → ℕ) → St A)
    → ((ties : Row → ℕ) → Keeps Evolution (m ties))
    → Keeps Evolution (in_order m)
unfolding in_order
in_order-Keeps m k = record { at = λ w h. (k (w.ties w.now)).at w h }

pub get_current-Keeps : (user : String) → Keeps Evolution (get_current user)
unfolding get_current
get_current-Keeps user = search (keeps_rules, in_order-Keeps, query_one-Keeps)

reading-Keeps :
    (rs : List Row)
    → Keeps Evolution (λ w. (ended (turn w.script).fault (turn w.script).reach rs, meet w))
unfolding meet
reading-Keeps rs = record {
  at = λ w h.
      (Rely-turn Evolution Evolution-preorder w.script h w.shared, Rely-rest Evolution w.script h);
}

query_many-Keeps : (q : Table → List Row) → Keeps Evolution (query_many q)
unfolding query_many
query_many-Keeps q = search (keeps_rules, read-Keeps, reading-Keeps)

pub list_by_user-Keeps : (user : String) → Keeps Evolution (list_by_user user)
unfolding list_by_user
list_by_user-Keeps user = in_order-Keeps _ (λ ties. query_many-Keeps _)

pub select_stuck-Keeps : (before limit : ℕ) → Keeps Evolution (select_stuck before limit)
unfolding select_stuck failed_seq
select_stuck-Keeps before limit = search (keeps_rules, in_order-Keeps, query_many-Keeps)

pub select_uncleaned-Keeps : (before limit : ℕ) → Keeps Evolution (select_uncleaned before limit)
unfolding select_uncleaned failed_seq
select_uncleaned-Keeps before limit = search (keeps_rules, in_order-Keeps, query_many-Keeps)

pub ruleset repository_rules = (
  set_upload_status-Keeps, set_processing_status-Keeps, complete_processing-Keeps,
  increment_retry-Keeps, soft_delete-Keeps, mark_files_removed-Keeps, fail_stale_uploads-Keeps,
  create-Keeps, get-Keeps, get_current-Keeps, list_by_user-Keeps, select_stuck-Keeps,
  select_uncleaned-Keeps,
)
