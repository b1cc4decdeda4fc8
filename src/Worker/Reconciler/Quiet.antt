-- ===== src/Worker/Reconciler/Quiet.antt =====
-- internal/worker/reconciler: a pass in a world where no call is refused and nobody interferes.
use mathlib.Core.List.{append_assoc, append-nil, map-append}
use gophprofile.Base.{
  ℕ, ◌+◌, ◌-◌, ◌==◌, ◌≡◌, refl, sym, ◌∙◌, ap, Bool, false, Option, none, List, [], ◌∷◌, ◌++◌, map,
  if◌then◌else◌,
}
use gophprofile.Fault.{Error, ok, join}
use gophprofile.Domain.Avatar.{Avatar, storage_keys}
use gophprofile.World.{
  Row, Shared, World, Event, upload_event, delete_event, St, in_order, turn, rest, meet, served,
  perform, others_of, new_uuid, pure, ◌>>=◌, on_result, on_error,
}
use gophprofile.Broker.Events.{new_upload_event, new_delete_event, publish}
use gophprofile.Postgres
use gophprofile.Postgres.Queries.{
  Table, update_rows, scan_avatar, fail_stale_uploads_query, select_stuck_query,
  select_uncleaned_query,
}
use gophprofile.Worker.Reconciler.Due.{
  Oldest, oldest-Oldest, is_stuck, is_uncleaned, is_stale, failed_at, query_stuck, query_uncleaned,
  updated_stale,
}
use gophprofile.Worker.Handler.Calm.{calm}
use gophprofile.Worker.Reconciler.{
  Config, reconcile, republish, republish_uploads, republish_cleanups, upload_event_of,
  cleanup_event_of,
}

-- An event but for the identifier of its message.
abbrev pub anonymous : Event → Event
anonymous (upload_event m a u k) = upload_event "" a u k
anonymous (delete_event m a ks) = delete_event "" a ks

-- The events that ask for the processing and for the removal of an avatar.
abbrev pub processing_of : Avatar → Event
processing_of a = upload_event "" a.id a.user_id a.s3_key

abbrev pub removal_of : Avatar → Event
removal_of a = delete_event "" a.id (storage_keys a)

-- Making an event takes an identifier and nothing else.
abbrev Makes : (Avatar → St Event) → (Avatar → Event) → Type 0
Makes event_of spec =
    (a : Avatar) (x : Shared) (n : ℕ) (w : World)
    → (e : Event) × (u : World) × (event_of a (calm x n w) ≡ (e, calm x n u))
      × (anonymous e ≡ spec a)

upload_event_of-Makes : Makes upload_event_of processing_of
unfolding new_upload_event new_uuid pure ◌>>=◌
upload_event_of-Makes a x n w = (_, record w { uuids = others_of w.uuids }, refl, refl)

cleanup_event_of-Makes : Makes cleanup_event_of removal_of
unfolding new_delete_event new_uuid pure ◌>>=◌
cleanup_event_of-Makes a x n w = (_, record w { uuids = others_of w.uuids }, refl, refl)

publish-calm :
    (e : Event) (x : Shared) (n : ℕ) (w : World)
    → publish e (calm x n w) ≡ (none, calm (record x { events = x.events ++ e ∷ [] }) (n + 0) w)
unfolding publish perform served meet turn rest pure ◌>>=◌ on_result
publish-calm e x n w = refl

abbrev rows_read : List Row → Postgres.Rows
rows_read rs = map (λ r. ok (scan_avatar r)) rs

republish-calm :
    (event_of : Avatar → St Event) (spec : Avatar → Event)
    → Makes event_of spec
    → (rs : List Row) (p : ℕ) (x : Shared) (n : ℕ) (w : World)
    → (q : ℕ) × (more : List Event) × (k : ℕ) × (u : World) × (republish event_of
          (rows_read rs)
          p
          (calm x n w)
        ≡ ((q, none), calm (record x { events = x.events ++ more }) k u))
      × (map anonymous more ≡ map (λ r. spec (scan_avatar r)) rs)
unfolding republish pure ◌>>=◌ on_result on_error
republish-calm event_of spec makes [] p x n w = (
  p,
  [],
  n,
  w,
  ap (λ es. ((p, none), calm (record x { events = es }) n w)) (sym (append-nil x.events)),
  refl,
)
republish-calm event_of spec makes (r ∷ rs) p x n w =
    let (e, u, made, same) = makes (scan_avatar r) x n w in
    let y = record x { events = x.events ++ e ∷ [] } in
    let (q, more, k, v, rest_of, sames) =
      republish-calm event_of spec makes rs (p + 1) y (n + 0) u in
    (
      q,
      e ∷ more,
      k,
      v,
      rw (made, publish-calm e x n u, rest_of)
          (ap (λ es. ((q, none), calm (record x { events = es }) k v))
            (append_assoc x.events (e ∷ []) more)),
      rw (same, sames) refl,
    )

query_many-calm :
    (q : Table → List Row) (x : Shared) (n : ℕ) (w : World)
    → Postgres.query_many q (calm x n w) ≡ (rows_read (q x.table), calm x (n + 0 + 0) w)
unfolding Postgres.query_many perform served meet turn rest pure ◌>>=◌ on_result
query_many-calm q x n w = refl

fail_stale-calm :
    (before : ℕ) (x : Shared) (n : ℕ) (w : World)
    → (k : ℕ) × (Postgres.fail_stale_uploads before (calm x n w) ≡ (
      ok k,
      calm
          (record x {
            table =
                update_rows (fail_stale_uploads_query before) (Postgres.set_failed (n + 0)) x.table;
          })
          (n + 0)
          w,
    ))
unfolding Postgres.fail_stale_uploads perform served meet turn rest pure ◌>>=◌
fail_stale-calm before x n w = (_, refl)

-- A pass returns no error and publishes what `spec` says of the oldest lines that are due, in their order.
abbrev Republishes : St (ℕ × Option Error) → (Avatar → Event) → (Row → Bool) → ℕ → Type 0
Republishes action spec due batch =
    (x : Shared) (n : ℕ) (w : World)
    → (q : ℕ) × (more : List Event) × (k : ℕ) × (u : World) × (action (calm x n w)
        ≡ ((q, none), calm (record x { events = x.events ++ more }) k u))
      × (picked : List Row) × (map anonymous more ≡ map (λ r. spec (scan_avatar r)) picked)
      × Oldest due batch x.table picked

uploads-calm :
    (batch before : ℕ)
    → (batch == 0) ≡ false
    → Republishes (republish_uploads batch before) processing_of (is_stuck before) batch
unfolding republish_uploads Postgres.select_stuck in_order ◌>>=◌
uploads-calm batch before h x n w =
    let due = Postgres.oldest (w.ties n) (select_stuck_query before) batch in
    let (q, more, k, u, e, same) =
      republish-calm upload_event_of processing_of upload_event_of-Makes (due x.table) 0 x
        (n + 0 + 0) w in
    (
      q,
      more,
      k,
      u,
      rw (h, query_many-calm due x n w) e,
      due x.table,
      same,
      oldest-Oldest (w.ties n) _ _ (query_stuck before) batch x.table,
    )

cleanups-calm :
    (batch before : ℕ)
    → (batch == 0) ≡ false
    → Republishes (republish_cleanups batch before) removal_of (is_uncleaned before) batch
unfolding republish_cleanups Postgres.select_uncleaned in_order ◌>>=◌
cleanups-calm batch before h x n w =
    let due = Postgres.oldest (w.ties n) (select_uncleaned_query before) batch in
    let (q, more, k, u, e, same) =
      republish-calm cleanup_event_of removal_of cleanup_event_of-Makes (due x.table) 0 x
        (n + 0 + 0) w in
    (
      q,
      more,
      k,
      u,
      rw (h, query_many-calm due x n w) e,
      due x.table,
      same,
      oldest-Oldest (w.ties n) _ _ (query_uncleaned before) batch x.table,
    )

-- A pass where no call is refused and nobody interferes, with a batch that is not empty: it returns no
-- error. The uploads that are under way for too long have failed, and the other lines and the objects
-- stay as they are. The events that it publishes ask for the processing of the oldest stuck avatars, a
-- batch of them or all where there are fewer, and then for the removal of the files of the oldest that
-- are not cleaned, likewise, each in the order of age.
pub reconcile-Due :
    (cfg : Config) (x : Shared) (n : ℕ) (w : World)
    → (cfg.batch == 0) ≡ false
    → let (e, v) = reconcile cfg (calm x n w) in
      let before = n - cfg.stuck_after in
      (e ≡ none)
      × (v.table ≡ map (λ r. if is_stale before r then failed_at n r else r) x.table)
      × (v.objects ≡ x.objects)
      × (more : List Event) × (v.events ≡ x.events ++ more)
      × (stuck uncleaned : List Row) × (map anonymous more
          ≡ map (λ r. processing_of (scan_avatar r)) stuck
            ++ map (λ r. removal_of (scan_avatar r)) uncleaned)
      × Oldest (is_stuck before) cfg.batch v.table stuck
      × Oldest (is_uncleaned before) cfg.batch v.table uncleaned
unfolding reconcile join pure ◌>>=◌
reconcile-Due cfg x n w h =
    let before = n - cfg.stuck_after in
    let (f, failed) = fail_stale-calm before x n w in
    let t = update_rows (fail_stale_uploads_query before) (Postgres.set_failed (n + 0)) x.table in
    let (p, ups, k, u, first_loop, stuck, same_ups, due_ups) =
      uploads-calm cfg.batch before h (record x { table = t }) (n + 0) w in
    let (q, downs, m, v, second_loop, uncleaned, same_downs, due_downs) =
      cleanups-calm cfg.batch before h (record x { table = t; events = x.events ++ ups }) k u in
    rw (failed, first_loop, second_loop)
      (
        refl,
        updated_stale before n x.table,
        refl,
        ups ++ downs,
        append_assoc x.events ups downs,
        stuck,
        uncleaned,
        map-append anonymous ups downs ∙ rw (same_ups, same_downs) refl,
        due_ups,
        due_downs,
      )
