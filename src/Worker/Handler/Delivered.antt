-- ===== src/Worker/Handler/Delivered.antt =====
-- internal/broker/publisher.go and consumer.go with internal/worker/handler: an event that is published
-- as the worker gets it. `encode` is json.Marshal.
use gophprofile.Base.{ℕ, String, ◌≡◌, Bool, List}
use gophprofile.Fault.{ok}
use gophprofile.World.{Event, upload_event, delete_event}
use gophprofile.Broker.Events.{routing_key}
use gophprofile.Worker.Handler.{Handler, Message}

abbrev pub event_id : Event → String
event_id (upload_event m a u k) = m
event_id (delete_event m a ks) = m

-- The message that carries an event, at an attempt.
unfoldable pub message_of :
    (encode : Event → List ℕ) → (attempt : ℕ) → (final : Bool) → Event → Message
unfolding routing_key
message_of encode attempt final e = record {
  type = routing_key e;
  message_id = event_id e;
  body = encode e;
  attempt = attempt;
  final = final;
}

-- The worker decodes what json.Marshal has made of the event into its fields again.
abbrev pub Reads : Handler → (encode : Event → List ℕ) → Event → Type 0
Reads h encode (upload_event m a u k) =
    h.decode_upload (encode (upload_event m a u k))
    ≡ ok (record { message_id = m; avatar_id = a; user_id = u; s3_key = k })
Reads h encode (delete_event m a ks) =
    h.decode_delete (encode (delete_event m a ks))
    ≡ ok (record { message_id = m; avatar_id = a; s3_keys = ks })
