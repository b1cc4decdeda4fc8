-- ===== src/Server/Service/Listing.antt =====
-- What the list of a user's avatars holds.
use gophprofile.Base.{
  ℕ, String, str_eq, ◌≡◌, refl, ap, ◌∙◌, ◌&&◌, not, is_some, Bool, true, false, Option, none, some,
  List, [], ◌∷◌, ◌++◌, map, take, keep_if, arith, IsDescending, sort-IsDescending, sort, ascending,
  sort-count_if, keep_if-count_if, count_if, count_if-same,
}
use gophprofile.Fault.{Error, Result, ok, err, wrap}
use gophprofile.Domain.UploadStatus as Upload
use gophprofile.Domain.UploadStatus.{UploadStatus}
use gophprofile.Domain.Avatar.{Avatar}
use gophprofile.World.{Row, World, in_order, turn, meet, pure, ◌>>=◌, on_result, perform}
use gophprofile.World.Calls.{read-cases}
use gophprofile.Postgres
use gophprofile.Postgres.{ended, rows_of, newest_first, query_many}
use gophprofile.Postgres.Queries.{scan_avatar, list_user_avatars_query, Table}
use gophprofile.Server.Service.{collect, list_by_user}

collect-map : (rs : List Row) → collect (map (λ r. ok (scan_avatar r)) rs) ≡ ok (map scan_avatar rs)
unfolding collect
collect-map [] = refl
collect-map (r ∷ rs) = rw (collect-map rs) refl

collect-broken :
    (rs : List Row) (e : Error)
    → (d : Error) × (collect (map (λ r. ok (scan_avatar r)) rs ++ err e ∷ []) ≡ err d)
unfolding collect
collect-broken [] e = (wrap e, refl)
collect-broken (r ∷ rs) e = let (d, k) = collect-broken rs e in (d, rw k refl)

collect-ended :
    (o : Option Error) (reach : ℕ) (rs : List Row) (l : List Avatar)
    → collect (ended o reach rs) ≡ ok l
    → l ≡ map scan_avatar rs
collect-ended none reach rs l h = ground (arith, collect-map rs)
collect-ended (some e) reach rs l h = ground (arith, collect-broken (take reach rs) (wrap e))

collect-rows_of :
    (r : Result (List Row)) (w : World) (l : List Avatar)
    → collect (rows_of r w).0 ≡ ok l
    → (rs : List Row) × (r ≡ ok rs) × (l ≡ map scan_avatar rs)
unfolding on_result pure collect
collect-rows_of (err e) w l h = cc
collect-rows_of (ok rs) w l h =
    (rs, refl, collect-ended (turn w.script).fault (turn w.script).reach rs l h)

same_rows : (q rs : List Row) → ok q ≡ ok rs → rs ≡ q
same_rows q rs h = ground arith

-- A line that is not deleted, and whose original is uploaded.
abbrev is_present : (deleted_at : Option ℕ) → UploadStatus → Bool
is_present none UploadStatus.uploaded = true
is_present none UploadStatus.uploading = false
is_present none UploadStatus.failed = false
is_present (some n) s = false

abbrev pub is_listed : (user : String) → Row → Bool
is_listed user r = str_eq r.user_id user && is_present r.deleted_at r.upload_status

listed_present :
    (b : Bool) (d : Option ℕ) (s : UploadStatus)
    → b && not (is_some d) && Upload.same s UploadStatus.uploaded ≡ b && is_present d s
listed_present b none UploadStatus.uploaded = ground arith
listed_present b none UploadStatus.uploading = ground arith
listed_present b none UploadStatus.failed = ground arith
listed_present b (some n) s = ground arith

pub query_listed : (user : String) (r : Row) → list_user_avatars_query user r ≡ is_listed user r
unfolding list_user_avatars_query
query_listed user r = listed_present (str_eq r.user_id user) r.deleted_at r.upload_status

-- The lines are those of the table that belong to the user, are not deleted and have their original
-- uploaded, each as often as it is there, from the newest to the oldest.
pub record Shows (user : String) (t : Table) (rs : List Row) : Type 0 where
  pub descending : IsDescending (λ r. r.created_at) rs
  pub counted : (p : Row → Bool) → count_if p rs ≡ count_if (λ r. p r && is_listed user r) t

pub newest_first-Shows :
    (ties : Row → ℕ) (user : String) (t : Table) → Shows user t (newest_first ties user t)
newest_first-Shows ties user t =
    let found = keep_if (list_user_avatars_query user) t in
    record {
      descending = sort-IsDescending _ (sort (ascending ties) found);
      counted = λ p.
          sort-count_if _ p (sort (ascending ties) found)
          ∙ sort-count_if (ascending ties) p found
          ∙ keep_if-count_if p (list_user_avatars_query user) t
          ∙ count_if-same _ _ t (λ r. ap (λ b. p r && b) (query_listed user r));
    }

pub list_by_user-found :
    (user : String) (w : World) (l : List Avatar)
    → (list_by_user user w).0 ≡ ok l
    → l ≡ map scan_avatar (newest_first (w.ties w.now) user (meet w).table)
unfolding list_by_user Postgres.list_by_user query_many in_order pure ◌>>=◌
list_by_user-found user w l h =
    let ties = w.ties w.now in
    let (r, v) = perform (λ n s. (ok (newest_first ties user s.table), s)) w in
    let (rs, k, e) = collect-rows_of r v l h in
    let found = (read-cases (λ n s. ok (newest_first ties user s.table)) w).1 rs k in
    e ∙ ap (map scan_avatar) (same_rows _ rs found)

-- A list that is returned is read to its end: it has the avatars of all lines of the table, as others had
-- left it, that belong to the user, are not deleted and have their original uploaded, each as often
-- as it is there and no other, from the newest to the oldest.
pub list_by_user-newest_first :
    (user : String) (w : World) (l : List Avatar)
    → (list_by_user user w).0 ≡ ok l
    → (rs : List Row) × (l ≡ map scan_avatar rs) × Shows user (meet w).table rs
list_by_user-newest_first user w l h = (
  newest_first (w.ties w.now) user (meet w).table,
  list_by_user-found user w l h,
  newest_first-Shows (w.ties w.now) user (meet w).table,
)
