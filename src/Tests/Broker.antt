-- ===== src/Tests/Broker.antt =====
-- The theorems on internal/broker at one input each.
use gophprofile.Base.{◌≡◌, refl, ◌⊎◌, [], ◌∷◌, none, some, false, true, arith}
use gophprofile.Fault.{is, foreign}
use gophprofile.Worker.Handler.{Message}
use gophprofile.Broker.Headers.{at, empty, RetryLevel, attempt_number, death_count}
use gophprofile.Broker.Publisher.{Publisher, Post, Answer, publish}
use gophprofile.Broker.Consumer.{
  Delivery, Handled, returned, Conditions, posted, acked, rejected, handle, process,
}
use gophprofile.Broker.Consumer.Fate.{IsCopy, IsConfirmed, process_keeps_message}
use gophprofile.Broker.Consumer.Ladder.{IsHealthy, runs, runs-attempts}

abbrev pub delivery : Delivery
delivery = record {
  headers = empty;
  content_type = "application/json";
  message_id = "m";
  correlation_id = "c";
  type = "avatar.uploaded";
  timestamp = 1;
  body = [];
}

abbrev healthy_answer : Answer
healthy_answer = record {
  channel = none;
  confirm_mode = none;
  send = none;
  arrived = false;
  in_time = true;
  acked = true;
  returned = false;
}

abbrev ready : Publisher
ready = record { ready = true }

abbrev level : RetryLevel
level = record { queue = "q1"; key = "k1"; ttl = 5 }

abbrev pub conditions : Conditions
conditions = record {
  levels = level ∷ [];
  publisher = ready;
  answer = healthy_answer;
  expired = false;
}

abbrev late : Conditions
late = record conditions { expired = true }

abbrev pub failing_handler : Message → Handled
failing_handler m = returned (some (foreign 0))

abbrev post : Post
post = record { exchange = "x"; key = "k"; message = delivery }

process_keeps_message_example :
    (p : Post) × IsCopy delivery p
    × (((process conditions failing_handler delivery ≡ posted p ∷ acked ∷ [])
          × IsConfirmed conditions)
        ⊎ (process conditions failing_handler delivery ≡ posted p ∷ rejected ∷ [])
        ⊎ (process conditions failing_handler delivery ≡ rejected ∷ []))
unfolding handle is
process_keeps_message_example =
    process_keeps_message conditions failing_handler delivery (foreign 0) (omega arith) refl refl

published : (publish false ready healthy_answer post).error ≡ none
unfolding publish
published = refl

conditions-IsHealthy : IsHealthy conditions
conditions-IsHealthy = record {
  ladder = omega arith;
  unexpired = refl;
  ready = refl;
  sent = refl;
  in_time = refl;
  acked = refl;
  routed = refl;
}

first_attempt : attempt_number delivery.headers ≡ 1
unfolding attempt_number death_count at
first_attempt = refl

runs-attempts_example : runs (λ t. t) conditions failing_handler 5 delivery ≡ some 5
unfolding handle is
runs-attempts_example =
    runs-attempts (λ t. t) conditions failing_handler (λ t. refl) (λ m. (foreign 0, refl, refl))
      conditions-IsHealthy 5 1 delivery first_attempt (omega arith) (omega arith) (omega arith)
