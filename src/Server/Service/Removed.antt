-- ===== src/Server/Service/Removed.antt =====
-- internal/server/service/delete.go with internal/worker/handler/deleted.go: a deletion and the handling
-- of its event, in a world where no call is refused and nobody interferes.
use gophprofile.Base.{
  ℕ, ◌+◌, ◌==◌, String, ◌≡◌, refl, ap, Bool, true, false, none, some, List, [], ◌∷◌, ◌++◌, arith,
  eq_iff, count_if, All, is_some,
}
use gophprofile.Fault.{ok}
use gophprofile.Domain.Keys.{Uuid}
use gophprofile.Domain.Avatar.{storage_keys}
use gophprofile.World.{
  Row, Shared, World, Event, delete_event, delete_counted, turn, rest, meet, served, perform,
  observe, first, others_of, new_uuid, pure, ◌>>=◌, on_result, on_error,
}
use gophprofile.Broker.Events.{new_delete_event, publish}
use gophprofile.Postgres
use gophprofile.Postgres.Queries.{
  Table, has_id, is_live, update_rows, scan_avatar, get_avatar_query,
}
use gophprofile.Postgres.Evolution.{find_row}
use gophprofile.S3
use gophprofile.S3.{remove_keys}
use gophprofile.S3.Laws.{IsGone, remove_keys-IsGone}
use gophprofile.Server.Service.{delete, remove}
use gophprofile.Worker.Handler.{Handler, Message, AvatarDeleteEvent, deleted, handle}
use gophprofile.Worker.Handler.Delivered.{message_of, Reads}
use gophprofile.Worker.Handler.Calm.{calm, get-calm, first_row-find_row, find_row-id}

update_rows-found :
    (id : Uuid) (p : Row → Bool) (f : Row → Row) (r : Row) (t : Table)
    → ((q : Row) → (f q).id ≡ q.id)
    → find_row id t ≡ some r
    → p r ≡ true
    → find_row id (update_rows p f t) ≡ some (f r)
unfolding find_row update_rows
update_rows-found id p f r [] e h g = ground arith
update_rows-found id p f r (x ∷ t) e h g = ground (arith, update_rows-found id p f r t e, e x)

count_if-found :
    (id : Uuid) (p : Row → Bool) (r : Row) (t : Table)
    → find_row id t ≡ some r
    → p r ≡ true
    → (count_if p t == 0) ≡ false
unfolding find_row
count_if-found id p r [] h g = ground arith
count_if-found id p r (x ∷ t) h g = ground (arith, count_if-found id p r t)

exec-calm :
    (id : Uuid) (p : Row → Bool) (f : ℕ → Row → Row) (r : Row) (s : Shared) (n : ℕ) (w : World)
    → find_row id s.table ≡ some r
    → p r ≡ true
    → Postgres.exec p f (calm s n w)
      ≡ (none, calm (record s { table = update_rows p (f (n + 0)) s.table }) (n + 0) w)
unfolding Postgres.exec perform served meet turn rest pure ◌>>=◌ on_result
exec-calm id p f r s n w h g = rw (count_if-found id p r s.table h g) refl

abbrev deleted_at : ℕ → Row → Row
deleted_at n r = record r { deleted_at = some n; updated_at = n }

abbrev removed_at : ℕ → Row → Row
removed_at n r = record r { files_removed_at = some (Postgres.coalesce r.files_removed_at n) }

queried : (r : Row) → is_live r ≡ true → get_avatar_query r.id r ≡ true
unfolding get_avatar_query
queried r l = ground (arith, eq_iff r.id r.id)

soft_delete-calm :
    (r : Row) (s : Shared) (n : ℕ) (w : World)
    → find_row r.id s.table ≡ some r
    → is_live r ≡ true
    → Postgres.soft_delete r.id (calm s n w) ≡ (
      none,
      calm
          (record s { table = update_rows (get_avatar_query r.id) (deleted_at (n + 0)) s.table })
          (n + 0)
          w,
    )
unfolding Postgres.soft_delete pure ◌>>=◌
soft_delete-calm r s n w h l =
    rw (exec-calm r.id (get_avatar_query r.id) deleted_at r s n w h (queried r l)) refl

mark-calm :
    (id : Uuid) (r : Row) (s : Shared) (n : ℕ) (w : World)
    → find_row id s.table ≡ some r
    → Postgres.mark_files_removed id (calm s n w) ≡ (
      none,
      calm (record s { table = update_rows (has_id id) (removed_at (n + 0)) s.table }) (n + 0) w,
    )
unfolding Postgres.mark_files_removed pure ◌>>=◌
mark-calm id r s n w h =
    rw
      (exec-calm id (has_id id) removed_at r s n w h
        ((eq_iff r.id id).1 (find_row-id id r s.table h)))
      refl

delete_many-calm :
    (k : String) (ks : List String) (s : Shared) (n : ℕ) (w : World)
    → S3.delete_many (k ∷ ks) (calm s n w)
      ≡ (none, calm (record s { objects = remove_keys (k ∷ ks) s.objects }) (n + 0) w)
unfolding S3.delete_many S3.delete_batch S3.answer meet turn rest
delete_many-calm k ks s n w = refl

-- What a deletion leaves: the line is deleted, and an event asks for the removal of its files.
delete-calm :
    (r : Row) (s : Shared) (n : ℕ) (w : World)
    → find_row r.id s.table ≡ some r
    → is_live r ≡ true
    → (d k : ℕ) × (u : World) × (delete r.id r.user_id (calm s n w) ≡ (
      none,
      calm
          (record s {
            table = update_rows (get_avatar_query r.id) (deleted_at d) s.table;
            events =
                s.events
                ++ delete_event (first w.uuids w.spare_uuid) r.id (storage_keys (scan_avatar r))
                  ∷ [];
          })
          k
          u,
    ))
unfolding delete remove new_delete_event new_uuid publish perform served meet turn rest observe pure
    ◌>>=◌ on_result on_error scan_avatar
delete-calm r s n w h l = (
  n + 0 + 0,
  n + 0 + 0 + 0,
  record w { uuids = others_of w.uuids; metrics = w.metrics ++ delete_counted true ∷ [] },
  rw
      (
        get-calm r.id (scan_avatar r) s n w (first_row-find_row r.id r s.table h l),
        (eq_iff r.user_id r.user_id).1 refl,
        soft_delete-calm r s (n + 0) w h l,
      )
      refl,
)

-- The event on the deletion of an avatar.
abbrev pub event_of : (message_id : String) → Row → Event
event_of message_id r = delete_event message_id r.id (storage_keys (scan_avatar r))

abbrev read_event : (message_id : String) → Row → AvatarDeleteEvent
read_event message_id r = record {
  message_id = message_id;
  avatar_id = r.id;
  s3_keys = storage_keys (scan_avatar r);
}

-- The line is deleted and marked, and none of the files is there.
pub record Removed (r : Row) (s : Shared) : Type 0 where
  pub line : Row
  pub found : find_row r.id s.table ≡ some line
  pub dead : is_live line ≡ false
  pub marked : is_some line.files_removed_at ≡ true
  pub gone : All (IsGone s.objects) (storage_keys (scan_avatar r))

module _ (h : Handler) where
  deleted-calm :
      (message_id : String) (msg : Message) (r q : Row) (s : Shared) (n : ℕ) (w : World)
      → find_row r.id s.table ≡ some q
      → is_live q ≡ false
      → h.decode_delete msg.body ≡ ok (read_event message_id r)
      → h.parse_uuid r.id ≡ ok r.id
      → let (f, z) = deleted h msg (calm s n w) in (f ≡ none) × Removed r z.shared
  unfolding deleted storage_keys pure ◌>>=◌ on_result on_error
  deleted-calm message_id msg r q s n w found dead de pu =
      let y = record s { objects = remove_keys (storage_keys (scan_avatar r)) s.objects } in
      rw (de, pu, delete_many-calm _ _ s n w, mark-calm r.id q y (n + 0) w found)
        (
          refl,
          record {
            line = removed_at (n + 0 + 0) q;
            found =
                update_rows-found r.id (has_id r.id) (removed_at (n + 0 + 0)) q s.table (λ x. refl)
                  found ((eq_iff q.id r.id).1 (find_row-id r.id q s.table found));
            dead = dead;
            marked = refl;
            gone = remove_keys-IsGone (storage_keys (scan_avatar r)) s.objects;
          },
        )

  -- From a request to the last file, where no call is refused and nobody interferes: the line is live, its
  -- owner asks for the deletion, and the worker decodes the event on the deletion as it was encoded. Then
  -- the deletion returns no error and publishes one event, and when the worker handles the message that
  -- carries this event, at any attempt, there is no error, the line is deleted and marked as cleaned, and
  -- neither the original nor a thumbnail is stored. The two processes run at any times.
  pub delete-Removed :
      (encode : Event → List ℕ) (attempt : ℕ) (final : Bool) (r : Row) (s : Shared) (n m : ℕ)
      (w u : World)
      → find_row r.id s.table ≡ some r
      → is_live r ≡ true
      → Reads h encode (event_of (first w.uuids w.spare_uuid) r)
      → h.parse_uuid r.id ≡ ok r.id
      → let (e, v) = delete r.id r.user_id (calm s n w) in
        (e ≡ none)
        × (event : Event) × (v.shared.events ≡ s.events ++ event ∷ [])
        × (let (f, z) = handle h (message_of encode attempt final event) (calm v.shared m u) in
            (f ≡ none) × Removed r z.shared)
  unfolding handle message_of
  delete-Removed encode attempt final r s n m w u found alive reads pu =
      let (d, k, x, e) = delete-calm r s n w found alive in
      let after = (delete r.id r.user_id (calm s n w)).1.shared in
      let event = event_of (first w.uuids w.spare_uuid) r in
      (
        ap (λ y. y.0) e,
        event,
        ap (λ y. y.1.shared.events) e,
        deleted-calm (first w.uuids w.spare_uuid) (message_of encode attempt final event) r
            (deleted_at d r) after m u
            (rw e (
              update_rows-found r.id (get_avatar_query r.id) (deleted_at d) r s.table (λ q. refl)
                found (queried r alive)))
            refl reads pu,
      )
