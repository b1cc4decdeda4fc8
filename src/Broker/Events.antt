-- ===== src/Broker/Events.antt =====
-- internal/broker/events.go, the routing keys of topology.go, and Publisher.Publish as its callers see
-- it: an event is published when the broker has confirmed it, and a publication that failed may have
-- reached a queue all the same.
use gophprofile.Base.{String, Option, none, some, List, [], ◌∷◌, ◌++◌}
use gophprofile.Fault.{Error, ok, wrap}
use gophprofile.Domain.Keys.{Uuid}
use gophprofile.World.{
  Event, upload_event, delete_event, St, Op, pure, ◌>>=◌, on_result, perform, new_uuid,
}

abbrev pub routing_key_uploaded : String
routing_key_uploaded = "avatar.uploaded"

abbrev pub routing_key_deleted : String
routing_key_deleted = "avatar.deleted"

unfoldable pub routing_key : Event → String
routing_key (upload_event m a u k) = routing_key_uploaded
routing_key (delete_event m a ks) = routing_key_deleted

unfoldable pub new_upload_event : Uuid → String → String → St Event
new_upload_event avatar_id user_id s3_key = do
  message_id ← new_uuid
  pure (upload_event message_id avatar_id user_id s3_key)

unfoldable pub new_delete_event : Uuid → List String → St Event
new_delete_event avatar_id s3_keys = do
  message_id ← new_uuid
  pure (delete_event message_id avatar_id s3_keys)

abbrev pub route : Event → Op (Unit {0})
route event n s = (ok tt, record s { events = s.events ++ event ∷ [] })

unfoldable pub publish : Event → St (Option Error)
publish event = do
  r ← perform (route event)
  on_result r (λ e. pure (some (wrap e))) (λ _. pure none)
