-- ===== src/Server/Service/Safety.antt =====
-- The service takes the table along an evolution, whatever calls fail.
use gophprofile.Base.{String, List, Option}
use gophprofile.Fault.{Error, Result}
use gophprofile.Domain.Keys.{Uuid}
use gophprofile.Domain.Avatar.{Avatar}
use gophprofile.World.{World, St, ◌>>=◌, observe}
use gophprofile.World.Keeps.{Rely, Keeps, keeps_rules}
use gophprofile.Postgres.Evolution.{Evolution, Evolution-preorder}
use gophprofile.Postgres.Methods.{repository_rules}
use gophprofile.S3.Evolution.{storage_rules}
use gophprofile.Broker.Evolution.{publication_rules}
use gophprofile.Imageproc.{Info}
use gophprofile.Server.Service.{
  Service, UploadInput, mark_failed, undo, remove_files, order_removal, remove, counted,
  delete_found, delete, delete_current, store, create_and_store, upload,
}

ruleset call_rules = (keeps_rules, repository_rules, storage_rules, publication_rules)

mark_failed-Keeps : (id : Uuid) → Keeps Evolution (mark_failed id)
unfolding mark_failed
mark_failed-Keeps id = search call_rules

pub remove_files-Keeps : (id : Uuid) (keys : List String) → Keeps Evolution (remove_files id keys)
unfolding remove_files
remove_files-Keeps id keys = search call_rules depth 7

pub order_removal-Keeps : (id : Uuid) (keys : List String) → Keeps Evolution (order_removal id keys)
order_removal-Keeps id keys = search (call_rules, remove_files-Keeps) depth 7

pub remove-Keeps : (a : Avatar) (requester : String) → Keeps Evolution (remove a requester)
unfolding remove
remove-Keeps a requester = search (call_rules, order_removal-Keeps) depth 7

pub delete_found-Keeps :
    (requester : String) (r : Result Avatar) → Keeps Evolution (delete_found requester r)
delete_found-Keeps requester r = search (call_rules, remove-Keeps)

counted-Keeps : (m : St (Option Error)) → Keeps Evolution m → Keeps Evolution (counted m)
unfolding counted ◌>>=◌ observe
counted-Keeps m h = search (call_rules, h)

pub delete-Keeps : (id : Uuid) (requester : String) → Keeps Evolution (delete id requester)
unfolding delete
delete-Keeps id requester = counted-Keeps _ (search (call_rules, delete_found-Keeps))

pub delete_current-Keeps :
    (user requester : String) → Keeps Evolution (delete_current user requester)
unfolding delete_current
delete_current-Keeps user requester = counted-Keeps _ (search (call_rules, delete_found-Keeps))

undo-Keeps : (id : Uuid) (e : Error) → Keeps Evolution (undo {A = Avatar} id e)
undo-Keeps id e = search (call_rules, mark_failed-Keeps)

module _ (s : Service) where
  store-Keeps :
      (input : UploadInput) (info : Info) (id : Uuid) (a : Avatar)
      → Keeps Evolution (store s input info id a)
  unfolding store
  store-Keeps input info id a = search (call_rules, undo-Keeps) depth 10

  create_and_store-Keeps : (input : UploadInput) → Keeps Evolution (create_and_store s input)
  unfolding create_and_store
  create_and_store-Keeps input = search (call_rules, store-Keeps) depth 8

  upload-Keeps : (input : UploadInput) → Keeps Evolution (upload s input)
  unfolding upload
  upload-Keeps input = search (call_rules, create_and_store-Keeps)

  -- Whatever calls fail and whatever other processes do along an evolution, an upload takes what is
  -- shared along an evolution: no line of the table is lost or gets another user or key, no status that
  -- has ended changes, a unique id stays unique, and the history of events only grows.
  pub upload-Evolution :
      (input : UploadInput) (w : World)
      → Rely Evolution w.script
      → Evolution w.shared (upload s input w).1.shared
  upload-Evolution input w rely = ((upload-Keeps input).at w rely).0
