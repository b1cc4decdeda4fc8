-- ===== src/Worker/Handler/Completed.antt =====
-- internal/worker/handler: a message on an upload, processed to its end where every call is served.
use gophprofile.Base.{
  ℕ, ◌+◌, String, ◌≡◌, refl, sym, ◌∙◌, subst, true, false, none, some, List, [], arith, eq_iff,
  str_eq, Bool-cases, inl, inr, lookup, insert, insert-here, insert-elsewhere, StringMap, take, ltb,
  length,
}
use gophprofile.Fault.{ok}
use gophprofile.Domain.ProcessingStatus as Processing
use gophprofile.Domain.ProcessingStatus.{ProcessingStatus}
use gophprofile.Domain.Keys.{Uuid, thumbnail_key, thumbnail_key-injective}
use gophprofile.Domain.Avatar.{Avatar}
use gophprofile.World.{
  Row, Shared, StoredObject, World, turn, rest, meet, served, perform, observe, pure, ◌>>=◌,
  on_result, on_error, on_option,
}
use gophprofile.Postgres
use gophprofile.Postgres.Queries.{Table, is_live, scan_avatar}
use gophprofile.Postgres.Evolution.{find_row, AtMostOne}
use gophprofile.Postgres.Refinement.{status_in}
use gophprofile.Domain.Thumbnail.{thumbnail_sizes, thumbnail_small, thumbnail_medium}
use gophprofile.Worker.Handler.{
  Handler, Message, AvatarUploadEvent, uploaded, process, done, start, render, read_original,
  store_thumbnails, thumbnail_mime_type,
}
use gophprofile.Worker.Handler.Calm.{
  calm, get-calm, s3_get-calm, first_row-find_row, put-calm, moved, find_row-id, live-status_in,
  unfinished,
}

start-calm :
    (id : Uuid) (r : Row) (s : Shared) (n : ℕ) (w : World)
    → AtMostOne id s.table
    → find_row id s.table ≡ some r
    → is_live r ≡ true
    → done r.processing_status ≡ false
    → (t : Table) × (k : ℕ) × (start id (calm s n w)
        ≡ (ok (some (scan_avatar r)), calm (record s { table = t }) k w))
      × AtMostOne id t
      × (status_in t id ≡ some ProcessingStatus.processing)
unfolding start Postgres.set_processing_status pure ◌>>=◌ on_result on_error scan_avatar
start-calm id r s n w u f l d =
    let (t, k, e, v, q) =
      moved id r.processing_status ProcessingStatus.processing
        (λ m q. record q { processing_status = ProcessingStatus.processing; updated_at = m }) s
        (n + 0) w (λ n. record { same_id = λ r. refl; same_life = λ r. refl; status = λ r. refl }) u
        (live-status_in id r s.table f l) (unfinished r.processing_status d) in
    (
      t,
      k,
      rw (get-calm id (scan_avatar r) s n w (first_row-find_row id r s.table f l), d, e) refl,
      v,
      q,
    )

sizes_apart :
    (id : Uuid)
    → str_eq (thumbnail_key id thumbnail_medium) (thumbnail_key id thumbnail_small) ≡ false
sizes_apart id =
    elim (Bool-cases
      (str_eq (thumbnail_key id thumbnail_medium) (thumbnail_key id thumbnail_small))) [
        | inl same ↦
            let e =
              (thumbnail_key-injective id id thumbnail_medium thumbnail_small refl
                ((eq_iff _ _).0 same)).1 in
            ground (arith, eq_iff thumbnail_medium thumbnail_small)
        | inr apart ↦ apart
      ]

-- An object with these contents is stored under the key.
abbrev pub Stored : String → List ℕ → StringMap StoredObject → Type 0
Stored key body objects = (x : StoredObject) × (lookup key objects ≡ some x) × (x.body ≡ body)

-- The avatar is live and completed, and its thumbnails are stored with these contents.
abbrev pub Finished : Uuid → (small medium : List ℕ) → Shared → Type 0
Finished id small medium s =
    (status_in s.table id ≡ some ProcessingStatus.completed)
    × Stored (thumbnail_key id thumbnail_small) small s.objects
    × Stored (thumbnail_key id thumbnail_medium) medium s.objects

module _ (h : Handler) where
  render-calm :
      (a : Avatar) (o : StoredObject) (thumbs : StringMap (List ℕ)) (s : Shared) (n : ℕ) (w : World)
      → lookup a.s3_key s.objects ≡ some o
      → ltb h.max_original_bytes o.size ≡ false
      → h.thumbnails (take h.max_original_bytes o.body) thumbnail_sizes ≡ ok thumbs
      → (k : ℕ) × (render h a (calm s n w) ≡ (ok thumbs, calm s k w))
  unfolding render read_original perform served meet turn rest pure ◌>>=◌ on_result
  render-calm a o thumbs s n w f z t =
      (n + 0 + 0 + 0 + 0, rw (s3_get-calm a.s3_key o s (n + 0) w f, z, t) refl)

  -- Both thumbnails are stored.
  store-calm :
      (id : Uuid) (thumbs : StringMap (List ℕ)) (small medium : List ℕ) (s : Shared) (n : ℕ)
      (w : World)
      → lookup thumbnail_small thumbs ≡ some small
      → lookup thumbnail_medium thumbs ≡ some medium
      → (objects : StringMap StoredObject) × (keys : StringMap String) × (k : ℕ) × (store_thumbnails
            h id thumbs thumbnail_sizes []
            (calm s n w)
          ≡ (ok keys, calm (record s { objects = objects }) k w))
        × Stored (thumbnail_key id thumbnail_small) small objects
        × Stored (thumbnail_key id thumbnail_medium) medium objects
  unfolding store_thumbnails pure ◌>>=◌ on_option on_error
  store-calm id thumbs small medium s n w a b =
      let (x, bx, _, px) =
        put-calm h.etag_of (thumbnail_key id thumbnail_small) small (length small)
          thumbnail_mime_type s n w in
      let s' = record s { objects = insert (thumbnail_key id thumbnail_small) x s.objects } in
      let (y, by, _, py) =
        put-calm h.etag_of (thumbnail_key id thumbnail_medium) medium (length medium)
          thumbnail_mime_type s' (n + 0) w in
      (
        insert (thumbnail_key id thumbnail_medium) y s'.objects,
        insert thumbnail_medium (thumbnail_key id thumbnail_medium)
            (insert thumbnail_small (thumbnail_key id thumbnail_small) []),
        n + 0 + 0,
        rw (a, px, b, py) refl,
        (
          x,
          insert-elsewhere s'.objects _ _ y (sizes_apart id)
              ∙ insert-here s.objects (thumbnail_key id thumbnail_small) x,
          bx,
        ),
        (y, insert-here s'.objects (thumbnail_key id thumbnail_medium) y, by),
      )

  process-calm :
      (a : Avatar) (o : StoredObject) (thumbs : StringMap (List ℕ)) (small medium : List ℕ)
      (s : Shared) (n : ℕ) (w : World)
      → AtMostOne a.id s.table
      → status_in s.table a.id ≡ some ProcessingStatus.processing
      → lookup a.s3_key s.objects ≡ some o
      → ltb h.max_original_bytes o.size ≡ false
      → h.thumbnails (take h.max_original_bytes o.body) thumbnail_sizes ≡ ok thumbs
      → lookup thumbnail_small thumbs ≡ some small
      → lookup thumbnail_medium thumbs ≡ some medium
      → (s' : Shared) × (k : ℕ) × (process h a (calm s n w) ≡ (ok true, calm s' k w))
        × Finished a.id small medium s'
  unfolding process Postgres.complete_processing Processing.allowed_from pure ◌>>=◌ on_result
  process-calm a o thumbs small medium s n w u q fo z ht ls lm =
      let (k, e) = render-calm a o thumbs s n w fo z ht in
      let (objects, keys, m, e', x, y) = store-calm a.id thumbs small medium s k w ls lm in
      let (t, j, e'', v, done_now) =
        moved a.id ProcessingStatus.processing ProcessingStatus.completed
          (λ now r. record r {
            thumbnail_s3_keys = keys;
            processing_status = ProcessingStatus.completed;
            updated_at = now;
          })
          (record s { objects = objects }) m w
          (λ k. record { same_id = λ r. refl; same_life = λ r. refl; status = λ r. refl }) u q
          refl in
      (record s { table = t; objects = objects }, j, rw (e, e', e'') refl, (done_now, x, y))

  -- A message on an upload is processed to its end where no call is refused and nobody interferes: the
  -- line is live and its processing has not ended, its original is stored and within the limit, and
  -- thumbnails of both sizes are made of it. Then there is no error, the avatar is live and completed,
  -- and both thumbnails are stored under their keys. Ids are unique in the table.
  pub uploaded-Stored :
      (msg : Message) (event : AvatarUploadEvent) (id : Uuid) (r : Row) (o : StoredObject)
      (thumbs : StringMap (List ℕ)) (small medium : List ℕ) (s : Shared) (n : ℕ) (w : World)
      → AtMostOne id s.table
      → find_row id s.table ≡ some r
      → is_live r ≡ true
      → done r.processing_status ≡ false
      → lookup r.s3_key s.objects ≡ some o
      → ltb h.max_original_bytes o.size ≡ false
      → h.decode_upload msg.body ≡ ok event
      → h.parse_uuid event.avatar_id ≡ ok id
      → h.thumbnails (take h.max_original_bytes o.body) thumbnail_sizes ≡ ok thumbs
      → lookup thumbnail_small thumbs ≡ some small
      → lookup thumbnail_medium thumbs ≡ some medium
      → let (e, v) = uploaded h msg (calm s n w) in (e ≡ none) × Finished id small medium v.shared
  unfolding uploaded scan_avatar observe pure ◌>>=◌ on_result on_option
  uploaded-Stored msg event id r o thumbs small medium s n w u f l d fo z de pu ht ls lm =
      let same = find_row-id id r s.table f in
      let (t, k, e, v, q) = start-calm id r s n w u f l d in
      let (s', j, e', fin) =
        process-calm (scan_avatar r) o thumbs small medium (record s { table = t }) k w
          (subst (λ i. AtMostOne i t) (sym same) v)
          (subst (λ i. status_in t i ≡ some ProcessingStatus.processing) (sym same) q) fo z ht ls
          lm in
      let done_now = subst (λ i. Finished i small medium s') same fin in
      rw (de, pu, e, e') (refl, done_now)
