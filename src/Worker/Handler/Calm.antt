-- ===== src/Worker/Handler/Calm.antt =====
-- What the calls of the table and of the storage return in a world where none is refused and nobody
-- interferes.
use gophprofile.Base.{
  ℕ, ◌+◌, ◌≤◌, String, ◌≡◌, refl, sym, subst, Bool, true, false, none, some, List, [], ◌∷◌, arith,
  eq_iff, ◌==◌, count_if, lookup, insert, keep_if,
}
use gophprofile.Fault.{ok}
use gophprofile.Domain.ProcessingStatus as Processing
use gophprofile.Domain.ProcessingStatus.{ProcessingStatus}
use gophprofile.Domain.Keys.{Uuid}
use gophprofile.Domain.Avatar.{Avatar}
use gophprofile.World.{
  Row, Shared, StoredObject, World, turn, rest, meet, served, perform, pure, ◌>>=◌, on_result,
  on_error,
}
use gophprofile.Postgres
use gophprofile.Postgres.Queries.{
  Table, has_id, is_live, update_rows, scan_avatar, get_avatar_query, set_processing_status_query,
}
use gophprofile.Postgres.Evolution.{find_row, AtMostOne}
use gophprofile.Postgres.Refinement.{Sets, update_rows-Moves, status_in}
use gophprofile.S3
use gophprofile.Worker.Handler.{done}

-- A world without interference, at a time.
abbrev pub calm : Shared → ℕ → World → World
calm s n w = record w { shared = s; now = n; script = [] }

pub first_row-find_row :
    (id : Uuid) (r : Row) (t : Table)
    → find_row id t ≡ some r
    → is_live r ≡ true
    → Postgres.first_row (keep_if (get_avatar_query id) t) ≡ ok (scan_avatar r)
unfolding find_row get_avatar_query
first_row-find_row id r [] f l = ground arith
first_row-find_row id r (x ∷ t) f l = ground (arith, first_row-find_row id r t)

pub get-calm :
    (id : Uuid) (a : Avatar) (s : Shared) (n : ℕ) (w : World)
    → Postgres.first_row (keep_if (get_avatar_query id) s.table) ≡ ok a
    → Postgres.get id (calm s n w) ≡ (ok a, calm s (n + 0) w)
unfolding Postgres.get Postgres.query_one perform served meet turn rest pure ◌>>=◌ on_result
get-calm id a s n w h = rw h refl

pub transition-calm :
    (id : Uuid) (p : Row → Bool) (f : ℕ → Row → Row) (s : Shared) (n : ℕ) (w : World)
    → (count_if p s.table == 0) ≡ false
    → Postgres.exec_transition id p f (calm s n w)
      ≡ (none, calm (record s { table = update_rows p (f (n + 0)) s.table }) (n + 0) w)
unfolding Postgres.exec_transition Postgres.exec perform served meet turn rest pure ◌>>=◌ on_result
    on_error
transition-calm id p f s n w h = rw h refl

pub s3_get-calm :
    (key : String) (o : StoredObject) (s : Shared) (n : ℕ) (w : World)
    → lookup key s.objects ≡ some o
    → S3.get key (calm s n w) ≡ (ok o, calm s (n + 0 + 0) w)
unfolding S3.get perform served meet turn rest pure ◌>>=◌ on_result
s3_get-calm key o s n w h = rw h refl

touchable :
    (id : Uuid) (p s : ProcessingStatus) (t : Table)
    → status_in t id ≡ some p
    → Processing.is_any p (Processing.allowed_from s) ≡ true
    → (count_if (set_processing_status_query id s) t == 0) ≡ false
unfolding find_row set_processing_status_query
touchable id p s [] h a = ground arith
touchable id p s (r ∷ t) h a = ground (arith, touchable id p s t)

pub put-calm :
    (etag_of : List ℕ → String) (key : String) (body : List ℕ) (size : ℕ) (content_type : String)
    (s : Shared) (n : ℕ) (w : World)
    → (x : StoredObject) × (x.body ≡ body)
      × (x.size ≡ size)
      × (S3.put etag_of key body size content_type (calm s n w)
          ≡ (none, calm (record s { objects = insert key x s.objects }) (n + 0) w))
unfolding S3.put perform served meet turn rest pure ◌>>=◌ on_result
put-calm etag_of key body size content_type s n w = (_, refl, refl, refl)

same_ids :
    (id : Uuid) (p : Row → Bool) (f : Row → Row) (t : Table)
    → ((r : Row) → (f r).id ≡ r.id)
    → count_if (has_id id) (update_rows p f t) ≡ count_if (has_id id) t
unfolding update_rows
same_ids id p f [] e = refl
same_ids id p f (r ∷ t) e = ground (arith, same_ids id p f t e, e r)

pub unfinished :
    (p : ProcessingStatus)
    → done p ≡ false
    → Processing.is_any p (Processing.allowed_from ProcessingStatus.processing) ≡ true
unfolding done Processing.allowed_from
unfinished ProcessingStatus.pending h = refl
unfinished ProcessingStatus.processing h = refl
unfinished ProcessingStatus.completed h = ground arith
unfinished ProcessingStatus.failed h = ground arith

pub live-status_in :
    (id : Uuid) (r : Row) (t : Table)
    → find_row id t ≡ some r
    → is_live r ≡ true
    → status_in t id ≡ some r.processing_status
live-status_in id r t f l = rw (f, l) refl

pub find_row-id : (id : Uuid) (r : Row) (t : Table) → find_row id t ≡ some r → r.id ≡ id
unfolding find_row
find_row-id id r [] f = ground arith
find_row-id id r (x ∷ t) f = ground (arith, find_row-id id r t, eq_iff x.id id)

-- One transition of a live line, on a calm world.
pub moved :
    (id : Uuid) (p s : ProcessingStatus) (f : ℕ → Row → Row) (x : Shared) (n : ℕ) (w : World)
    → ((k : ℕ) → Sets s (f k))
    → AtMostOne id x.table
    → status_in x.table id ≡ some p
    → Processing.is_any p (Processing.allowed_from s) ≡ true
    → (t : Table) × (k : ℕ) × (Postgres.exec_transition id
          (set_processing_status_query id s)
          f
          (calm x n w)
        ≡ (none, calm (record x { table = t }) k w))
      × AtMostOne id t
      × (status_in t id ≡ some s)
moved id p s f x n w sets u h a =
    let q = set_processing_status_query id s in
    let some_line = touchable id p s x.table h a in
    let moves = update_rows-Moves id s (f (n + 0)) (sets (n + 0)) x.table u some_line in
    (
      update_rows q (f (n + 0)) x.table,
      n + 0,
      transition-calm id q f x n w some_line,
      subst (λ c. c ≤ 1) (sym (same_ids id q (f (n + 0)) x.table (sets (n + 0)).same_id)) u,
      moves.becomes,
    )
