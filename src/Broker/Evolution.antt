-- ===== src/Broker/Evolution.antt =====
-- A publication only lengthens the history of events.
use gophprofile.Base.{ℕ, refl, List, [], ◌∷◌, String}
use gophprofile.Domain.Keys.{Uuid}
use gophprofile.World.{Event, Shared}
use gophprofile.World.Keeps.{Keeps, Keeps-bind, Keeps-perform, keeps_rules}
use gophprofile.Postgres.Evolution.{Evolution, Evolution-preorder}
use gophprofile.Broker.Events.{publish, route, new_upload_event, new_delete_event}

route-Evolution : (e : Event) (n : ℕ) (s : Shared) → Evolution s (route e n s).1
route-Evolution e n s = record {
  goes = λ id. (Evolution-preorder.rfl s).goes id;
  unique = λ id h. h;
  history = (e ∷ [], refl);
}

pub publish-Keeps : (e : Event) → Keeps Evolution (publish e)
unfolding publish
publish-Keeps e = Keeps-bind _ _ (Keeps-perform _ (route-Evolution e)) (search keeps_rules)

pub new_upload_event-Keeps :
    (id : Uuid) (user key : String) → Keeps Evolution (new_upload_event id user key)
unfolding new_upload_event
new_upload_event-Keeps id user key = search keeps_rules

pub new_delete_event-Keeps :
    (id : Uuid) (keys : List String) → Keeps Evolution (new_delete_event id keys)
unfolding new_delete_event
new_delete_event-Keeps id keys = search keeps_rules

pub ruleset publication_rules = (publish-Keeps, new_upload_event-Keeps, new_delete_event-Keeps)
