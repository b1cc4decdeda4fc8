-- ===== src/Worker/Reconciler/Batch.antt =====
-- A pass publishes no more than a batch of events of each kind.
use gophprofile.Base.{
  ℕ, ◌+◌, ◌≤◌, ◌≡◌, refl, if◌then◌else◌, zero, suc, none, some, Option, List, [], ◌∷◌, ◌++◌, arith,
  length, count_if, Bool, true, false, map, take, ◌==◌, length-take-le,
}
use gophprofile.Fault.{Error, Result, ok, err, wrap, foreign}
use gophprofile.Domain.Avatar.{Avatar}
use gophprofile.World.{
  Row, Event, World, St, in_order, pure, ◌>>=◌, on_result, on_error, turn, meet, perform,
}
use gophprofile.World.Calls.{read-cases}
use gophprofile.Broker.Events.{publish}
use gophprofile.Postgres
use gophprofile.Postgres.{
  rows_of, ended, query_many, failed_seq, oldest, select_stuck, select_uncleaned,
}
use gophprofile.Postgres.Queries.{Table, scan_avatar}
use gophprofile.Worker.Reconciler.{
  upload_event_of, cleanup_event_of, republish, republish_uploads, republish_cleanups,
}

-- The rows that were read.
abbrev succeeded : Result Avatar → Bool
succeeded (ok a) = true
succeeded (err e) = false

abbrev read : Postgres.Rows → ℕ
read rows = count_if succeeded rows

abbrev Counts : ℕ → Postgres.Rows → ℕ × Option Error → Type 0
Counts n rows (published, o) =
    (published ≤ n + read rows) × (o ≡ none → published ≡ n + length rows)

-- One publication, and the rest of the loop.
abbrev next : (Avatar → St Event) → Postgres.Rows → ℕ → Option Error → St (ℕ × Option Error)
next event_of rows n o = on_error o (λ e. pure (n, some (wrap e))) (republish event_of rows (n + 1))

next-Counts :
    (event_of : Avatar → St Event) (a : Avatar) (rows : Postgres.Rows) (n : ℕ) (o : Option Error)
    (v : World)
    → Counts (n + 1) rows (republish event_of rows (n + 1) v).0
    → Counts n (ok a ∷ rows) (next event_of rows n o v).0
unfolding on_error pure
next-Counts event_of a rows n (some e) v more = (omega arith, λ h. cc)
next-Counts event_of a rows n none v more = (omega (arith, more.0), λ h. omega (arith, more.1 h))

-- The loop counts the rows it went through, and ends with no error only after the last of them.
republish-Counts :
    (event_of : Avatar → St Event) (rows : Postgres.Rows) (n : ℕ) (w : World)
    → Counts n rows (republish event_of rows n w).0
unfolding republish pure on_result on_error ◌>>=◌
republish-Counts event_of [] n w = (omega arith, λ h. omega arith)
republish-Counts event_of (err e ∷ rows) n w = (omega arith, λ h. cc)
republish-Counts event_of (ok a ∷ rows) n w =
    let (event, w1) = event_of a w in
    let (o, w2) = publish event w1 in
    next-Counts event_of a rows n o w2 (republish-Counts event_of rows (n + 1) w2)

read-map : (rs : List Row) → read (map (λ r. ok (scan_avatar r)) rs) ≡ length rs
read-map [] = refl
read-map (r ∷ rs) = omega (arith, read-map rs)

read-append : (xs ys : Postgres.Rows) → read (xs ++ ys) ≡ read xs + read ys
read-append [] ys = omega arith
read-append (x ∷ xs) ys = omega (arith, read-append xs ys)

length-take : (n : ℕ) (rs : List Row) → length (take n rs) ≤ length rs
length-take zero rs = omega arith
length-take (suc n) [] = omega arith
length-take (suc n) (r ∷ rs) = omega (arith, length-take n rs)

read-ended : (o : Option Error) (reach : ℕ) (rs : List Row) → read (ended o reach rs) ≤ length rs
read-ended none reach rs = omega (arith, read-map rs)
read-ended (some e) reach rs = omega (
  arith,
  read-append (map (λ r. ok (scan_avatar r)) (take reach rs)) (err (wrap e) ∷ []),
  read-map (take reach rs),
  length-take reach rs,
)

bounded :
    (q : Table → List Row) (n : ℕ) (t : Table) (rs : List Row)
    → length (q t) ≤ n
    → ok (q t) ≡ ok rs
    → length rs ≤ n
bounded q n t rs h k = ground arith

read-rows_of :
    (r : Result (List Row)) (n : ℕ) (w : World)
    → ((rs : List Row) → r ≡ ok rs → length rs ≤ n)
    → read (rows_of r w).0 ≤ n
unfolding on_result pure
read-rows_of (err e) n w h = omega arith
read-rows_of (ok rs) n w h =
    omega (arith, read-ended (turn w.script).fault (turn w.script).reach rs, h rs refl)

read-query_many :
    (q : Table → List Row) (n : ℕ) (w : World)
    → ((t : Table) → length (q t) ≤ n)
    → read (query_many q w).0 ≤ n
unfolding query_many ◌>>=◌
read-query_many q n w h =
    let (r, v) = perform (λ m s. (ok (q s.table), s)) w in
    read-rows_of r n v
      λ rs k. bounded q n _ rs (h (meet w).table) ((read-cases (λ m s. ok (q s.table)) w).1 rs k)

read-oldest :
    (p : Row → Bool) (limit : ℕ) (w : World)
    → read (in_order (λ ties. query_many (oldest ties p limit)) w).0 ≤ limit
unfolding in_order
read-oldest p limit w = read-query_many _ limit w (λ t. length-take-le limit _)

read-selected :
    (b : Bool) (p : Row → Bool) (limit : ℕ) (w : World)
    → read
        ((if b then failed_seq (foreign 0) else in_order (λ ties. query_many (oldest ties p limit)))
          w).0
      ≤ limit
unfolding failed_seq pure
read-selected true p limit w = omega arith
read-selected false p limit w = read-oldest p limit w

published-read :
    (event_of : Avatar → St Event) (rows : Postgres.Rows) (limit : ℕ) (w : World)
    → read rows ≤ limit
    → (republish event_of rows 0 w).0.0 ≤ limit
published-read event_of rows limit w h = omega (arith, h, (republish-Counts event_of rows 0 w).0)

-- One pass publishes at most a batch of upload events again, whatever the database answers.
pub republish_uploads-batch :
    (batch before : ℕ) (w : World) → (republish_uploads batch before w).0.0 ≤ batch
unfolding republish_uploads select_stuck ◌>>=◌
republish_uploads-batch batch before w =
    published-read upload_event_of _ batch _ (read-selected (batch == 0) _ batch w)

-- One pass publishes at most a batch of events for files that were left over.
pub republish_cleanups-batch :
    (batch before : ℕ) (w : World) → (republish_cleanups batch before w).0.0 ≤ batch
unfolding republish_cleanups select_uncleaned ◌>>=◌
republish_cleanups-batch batch before w =
    published-read cleanup_event_of _ batch _ (read-selected (batch == 0) _ batch w)
