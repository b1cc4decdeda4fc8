-- ===== src/Broker/Publisher.antt =====
-- Publisher.publish of internal/broker/publisher.go, on the channel of amqp091-go.
use gophprofile.Base.{
  ℕ, String, ◌≡◌, ◌≢◌, Bool, true, false, not, Option, none, some, List, [], ◌∷◌, arith,
  if◌then◌else◌,
}
use gophprofile.Fault.{Error, sentinel, foreign, wrap, deadline_exceeded}
use gophprofile.Broker.Headers.{Table}

-- amqp.Publishing, and the exchange and key that it is sent to
pub record Publishing : Type 0 where
  pub headers : Table
  pub content_type : String
  pub message_id : String
  pub correlation_id : String
  pub type : String
  pub timestamp : ℕ
  pub body : List ℕ

pub record Post : Type 0 where
  pub exchange : String
  pub key : String
  pub message : Publishing

-- What the connection and the broker do in one publication. `send` is the error of handing the
-- message to the connection. `in_time` says that the confirmation comes before the deadline of the
-- context, and `arrived` that the wait for it finds it although the context has ended before.
pub record Answer : Type 0 where
  pub channel : Option Error
  pub confirm_mode : Option Error
  pub send : Option Error
  pub arrived : Bool
  pub in_time : Bool
  pub acked : Bool
  pub returned : Bool

-- `ready` is a channel that is there and not closed.
pub record Publisher : Type 0 where
  pub ready : Bool

pub record Sent : Type 0 where
  pub publisher : Publisher
  pub error : Option Error
  pub posts : List Post

abbrev ready_after : Bool → Publisher
ready_after b = record { ready = b }

open_new : Answer → Publisher × Option Error
open_new a = elim a.channel [
  | some e ↦ (ready_after false, some (wrap e))
  | none ↦ elim a.confirm_mode [
    | some e ↦ (ready_after false, some (wrap e))
    | none ↦ (ready_after true, none)
  ]
]

-- openLocked
unfoldable pub open_locked : Publisher → Answer → Publisher × Option Error
unfolding open_new
open_locked p a = if p.ready then (p, none) else open_new a

-- WaitContext gives up when the context ends first.
confirmed : Bool → Answer → Option Error
confirmed expired a =
    if not (if expired then a.arrived else a.in_time)
    then some (wrap (sentinel deadline_exceeded))
    else if not a.acked
    then some (foreign 0)
    else if a.returned
    then some (foreign 1)
    else none

-- `expired` says that the context had ended before the call; sending does not look at it.
send : Bool → Publisher → Answer → Post → Sent
unfolding confirmed
send expired p a post = elim a.send [
  | some e ↦ record { publisher = ready_after false; error = some (wrap e); posts = [] }
  | none ↦ record { publisher = p; error = confirmed expired a; posts = post ∷ [] }
]

abbrev opened : Bool → Answer → Post → Publisher × Option Error → Sent
unfolding send
opened expired a post (p, some e) = record { publisher = p; error = some e; posts = [] }
opened expired a post (p, none) = send expired p a post

unfoldable pub publish : Bool → Publisher → Answer → Post → Sent
unfolding open_locked send
publish expired p a post = opened expired a post (open_locked p a)

-- Publishing succeeds only if the message was sent, confirmed by the broker and not returned as
-- unroutable.
pub publish_confirmed :
    (expired : Bool) (p : Publisher) (a : Answer) (post : Post)
    → (publish expired p a post).error ≡ none
    → ((publish expired p a post).posts ≡ post ∷ []) × (a.acked ≡ true) × (a.returned ≡ false)
unfolding publish
publish_confirmed expired p a post h = ground arith

-- With a context that has ended, publishing fails unless the wait finds the confirmation all the same.
pub publish_expired :
    (p : Publisher) (a : Answer) (post : Post)
    → a.arrived ≡ false
    → (publish true p a post).error ≢ none
unfolding publish
publish_expired p a post h = ground arith
