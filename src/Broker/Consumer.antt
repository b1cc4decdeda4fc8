-- ===== src/Broker/Consumer.antt =====
-- internal/broker/consumer.go: what happens to one delivery. The pump, the goroutines and the spans are
-- left out; a handler's panic is one of its results.
pub mod Fate
pub mod Ladder
use gophprofile.Base.{
  ℤ, pos, ℕ, String, Bool, true, false, Option, none, some, List, [], ◌∷◌, ◌++◌, if◌then◌else◌,
}
use gophprofile.Fault.{Error, foreign, is, non_retryable}
use gophprofile.Worker.Handler.{Message}
use gophprofile.Broker.Headers.{
  Value, int64, Table, RetryLevel, header_attempts, assign, attempt_number, is_final_attempt,
  retry_level_for,
}
use gophprofile.Broker.Publisher.{Publishing, Post, Answer, Publisher, Sent, publish}

abbrev pub exchange_retry : String
exchange_retry = "avatars.retry"

abbrev pub exchange_dead : String
exchange_dead = "avatars.dlq"

abbrev pub routing_key_dead : String
routing_key_dead = "avatar.dead"

abbrev pub Delivery : Type 0
Delivery = Publishing

pub data Handled : Type 0 where
  returned : Option Error → Handled
  panicked : Handled

-- What the consumer does with the channel. `stuck` is a panic of its own, on an empty ladder.
pub data Action : Type 0 where
  posted : Post → Action
  acked : Action
  rejected : Action
  stuck : Action

-- One delivery: the answers of the broker to a publication, and whether the limit on the processing
-- of a message had passed when the handler returned.
pub record Conditions : Type 0 where
  pub levels : List RetryLevel
  pub publisher : Publisher
  pub answer : Answer
  pub expired : Bool

unfoldable pub message_of : Delivery → Message
message_of d =
    let attempt = attempt_number d.headers in
    record {
      type = d.type;
      message_id = d.message_id;
      body = d.body;
      attempt = attempt;
      final = is_final_attempt attempt;
    }

-- handle, with the deferred recovery
unfoldable pub handle : (Message → Handled) → Message → Option Error
handle handler msg = elim (handler msg) [ returned e ↦ e | panicked ↦ some (foreign 0) ]

unfoldable pub forwarded : Delivery → ℕ → Publishing
forwarded d attempt = record d { headers = assign header_attempts (int64 (pos attempt)) d.headers }

abbrev posted_all : List Post → List Action
posted_all [] = []
posted_all (p ∷ ps) = posted p ∷ posted_all ps

abbrev settle : Sent → List Action
settle sent = posted_all sent.posts ++ (elim sent.error [ none ↦ acked | some e ↦ rejected ]) ∷ []

-- reroute and forward
unfoldable pub reroute : Conditions → String → String → Delivery → ℕ → List Action
reroute c exchange key d attempt = settle (
    publish c.expired c.publisher c.answer
      (record { exchange = exchange; key = key; message = forwarded d attempt }))

abbrev retry_on : Conditions → Delivery → ℕ → Option RetryLevel → List Action
retry_on c d attempt none = stuck ∷ []
retry_on c d attempt (some level) = reroute c exchange_retry level.key d attempt

-- the switch of process
abbrev decide : Conditions → Delivery → Message → Option Error → List Action
decide c d msg none = acked ∷ []
decide c d msg (some e) =
    if is e non_retryable
    then acked ∷ []
    else if msg.final
    then reroute c exchange_dead routing_key_dead d msg.attempt
    else retry_on c d msg.attempt (retry_level_for c.levels msg.attempt)

unfoldable pub process : Conditions → (Message → Handled) → Delivery → List Action
unfolding reroute
process c handler d = decide c d (message_of d) (handle handler (message_of d))
