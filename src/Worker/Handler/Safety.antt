-- ===== src/Worker/Handler/Safety.antt =====
-- The handler takes the table along an evolution, whatever is delivered to it and whatever fails.
use gophprofile.Base.{ℕ, String, Option, none, some, List, [], ◌∷◌, StringMap}
use gophprofile.Fault.{Error}
use gophprofile.Domain.Thumbnail.{ThumbnailSize}
use gophprofile.Domain.Keys.{Uuid}
use gophprofile.Domain.Avatar.{Avatar}
use gophprofile.World.{World}
use gophprofile.World.Keeps.{Keeps, keeps_rules, Rely}
use gophprofile.S3.Evolution.{storage_rules}
use gophprofile.Postgres.Evolution.{Evolution, Evolution-preorder}
use gophprofile.Postgres.Methods.{repository_rules, read-Keeps}
use gophprofile.Worker.Handler.{
  Handler, Message, count_retry, failure, start, remove_thumbnails, read_original, render,
  store_thumbnails, finish, process, failed, uploaded, remove_files, deleted, handle,
}

ruleset call_rules = (keeps_rules, repository_rules, storage_rules, read-Keeps)

failure-Keeps : (id : Uuid) (msg : Message) (e : Error) → Keeps Evolution (failure id msg e)
unfolding failure count_retry
failure-Keeps id msg e = search call_rules

start-Keeps : (id : Uuid) → Keeps Evolution (start id)
unfolding start
start-Keeps id = search call_rules depth 7

remove_thumbnails-Keeps : (keys : StringMap String) → Keeps Evolution (remove_thumbnails keys)
unfolding remove_thumbnails
remove_thumbnails-Keeps [] = search call_rules
remove_thumbnails-Keeps (k ∷ keys) = search call_rules

module _ (h : Handler) where
  read_original-Keeps : (a : Avatar) → Keeps Evolution (read_original h a)
  unfolding read_original
  read_original-Keeps a = search call_rules depth 7

  render-Keeps : (a : Avatar) → Keeps Evolution (render h a)
  unfolding render
  render-Keeps a = search (call_rules, read_original-Keeps) depth 7

  store_thumbnails-Keeps :
      (id : Uuid) (thumbs : StringMap (List ℕ)) (sizes : List ThumbnailSize)
      (keys : StringMap String)
      → Keeps Evolution (store_thumbnails h id thumbs sizes keys)
  unfolding store_thumbnails
  store_thumbnails-Keeps id thumbs [] keys = search call_rules
  store_thumbnails-Keeps id thumbs (s ∷ ss) keys =
      let skip = store_thumbnails-Keeps id thumbs ss in search (call_rules, skip) depth 7

  finish-Keeps :
      (id : Uuid) (keys : StringMap String) (o : Option Error)
      → Keeps Evolution (finish h id keys o)
  finish-Keeps id keys none = search call_rules
  finish-Keeps id keys (some e) = search (call_rules, remove_thumbnails-Keeps)

  process-Keeps : (a : Avatar) → Keeps Evolution (process h a)
  unfolding process
  process-Keeps a = search (call_rules, render-Keeps, store_thumbnails-Keeps, finish-Keeps) depth 8

  failed-Keeps : (id : Uuid) (msg : Message) (e : Error) → Keeps Evolution (failed h id msg e)
  unfolding failed
  failed-Keeps id msg e = search (call_rules, failure-Keeps)

  uploaded-Keeps : (msg : Message) → Keeps Evolution (uploaded h msg)
  unfolding uploaded
  uploaded-Keeps msg = search (call_rules, start-Keeps, process-Keeps, failed-Keeps) depth 10

  remove_files-Keeps : (id : Uuid) (keys : List String) → Keeps Evolution (remove_files h id keys)
  remove_files-Keeps id [] = search call_rules
  remove_files-Keeps id (k ∷ ks) = search call_rules depth 7

  deleted-Keeps : (msg : Message) → Keeps Evolution (deleted h msg)
  unfolding deleted
  deleted-Keeps msg = search (call_rules, remove_files-Keeps)

  handle-Keeps : (msg : Message) → Keeps Evolution (handle h msg)
  unfolding handle
  handle-Keeps msg = search (call_rules, uploaded-Keeps, deleted-Keeps)

  -- Whatever is delivered, whatever calls fail and whatever other processes do along an evolution in
  -- between, handling a message takes what is shared along an evolution: no line of the table is lost,
  -- its statuses only move by allowed transitions, a deletion and a removal stay, the thumbnails of a
  -- completed line stay, a unique id stays unique, and the history of events only grows.
  pub handle-Evolution :
      (msg : Message) (w : World)
      → Rely Evolution w.script
      → Evolution w.shared (handle h msg w).1.shared
  handle-Evolution msg w rely = ((handle-Keeps msg).at w rely).0
