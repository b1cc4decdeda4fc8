-- ===== src/Broker/Connection.antt =====
-- internal/broker/broker.go, and the opening and closing of the publisher and the consumer, over the
-- answers of amqp091-go.
pub mod Ready
use gophprofile.Base.{
  ℕ, ◌*◌, ◌<◌, ◌≡◌, Bool, true, false, not, ◌&&◌, Option, none, some, List, [], ◌∷◌, ◌++◌, ℤ, pos,
  leq, length, arith, if◌then◌else◌, refl,
}
use gophprofile.Fault.{
  Error, Result, ok, err, wrap, foreign, is, amqp_closed, join, sentinel, deadline_exceeded, both,
}
use gophprofile.Config.{Amqp}
use gophprofile.Config.Defaults.{Duration, second}
use gophprofile.Lifecycle.{Act, opened, closed, connection, channel, Life, unless, after}
use gophprofile.Broker.Headers.{RetryLevel}
use gophprofile.Broker.Topology.{Declaration, Channel, declare_topology}
use gophprofile.Broker.Topology.Delays.{default_retry_delays, new_retry_levels}

abbrev pub dial_timeout : ℕ
dial_timeout = 5 * second

abbrev pub heartbeat : ℕ
heartbeat = 10 * second

pub record Conn : Type 0 where
  pub levels : List RetryLevel
  pub prefetch : ℤ
  pub timeout : Duration
  pub process_timeout : Duration

-- An option is `func(*Conn)`; outside of the package these two can be made.
pub data ConnOption : Type 0 where
  with_retry_delays : List ℕ → ConnOption
  with_process_timeout : Duration → ConnOption

unfoldable pub apply : ConnOption → Conn → Conn
apply (with_retry_delays []) c = c
apply (with_retry_delays (delay ∷ delays)) c = record c {
  levels = new_retry_levels (delay ∷ delays);
}
apply (with_process_timeout timeout) c =
    if leq timeout (pos 0) then c else record c { process_timeout = timeout }

-- What the library answers during New: to the handshake, to the opening of a channel, to the
-- declarations, and to the closing of the channel and of the connection.
pub record Library : Type 0 where
  pub dialled : Option Error
  pub channel_opened : Option Error
  pub declarations : List (Option Error)
  pub channel_closed : Option Error
  pub connection_closed : Option Error

-- An end that has come already is no error.
unfoldable pub close_channel : Option Error → Option Error
close_channel none = none
close_channel (some e) = if is e amqp_closed then none else some (wrap e)

unfoldable pub close : Option Error → Option Error
close none = none
close (some e) = if is e amqp_closed then none else some (wrap e)

-- The deferred closing of a channel: its error counts where there is no other.
abbrev first_error : Option Error → Option Error → Option Error
first_error none second_one = second_one
first_error (some e) second_one = some e

-- What is declared, the error, and what is opened and closed.
pub record Declared : Type 0 where
  pub error : Option Error
  pub declarations : List Declaration
  pub acts : List Act

abbrev fresh : List (Option Error) → Channel
fresh answers = record { declared = []; answers = answers }

unfoldable pub declare : List RetryLevel → Library → Declared
unfolding close_channel
declare levels a = elim a.channel_opened [
  | some e ↦ record { error = some (wrap e); declarations = []; acts = [] }
  | none ↦
      let (error, ch) = declare_topology levels (fresh a.declarations) in
      record {
        error = first_error error (close_channel a.channel_closed);
        declarations = ch.declared;
        acts = opened channel ∷ closed channel ∷ [];
      }
]

abbrev defaults : Amqp → Conn
defaults cfg = record {
  levels = new_retry_levels default_retry_delays;
  prefetch = cfg.prefetch;
  timeout = cfg.timeout;
  process_timeout = cfg.timeout;
}

unfoldable pub with_options : List ConnOption → Conn → Conn
unfolding apply
with_options [] c = c
with_options (option ∷ options) c = with_options options (apply option c)

-- New after the handshake. The error of a closing that follows another error is dropped.
abbrev pub ended : Conn → List Act → Option Error → Life Conn
ended c acts (some e) = (err e, acts ++ closed connection ∷ [])
ended c acts none = (ok c, acts)

abbrev pub connected : Conn → Declared → Life Conn
connected c d = ended c d.acts d.error

unfoldable pub new : Amqp → List ConnOption → Library → Life Conn
unfolding with_options
new cfg options a = unless a.dialled [] (
    after (opened connection ∷ [])
      (let c = with_options options (defaults cfg) in connected c (declare c.levels a)))

-- What Ping meets: whether the connection is closed, whether the check of the queue ends within the
-- limit of time, and the answers of the library to it.
pub record Pinged : Type 0 where
  pub is_closed : Bool
  pub in_time : Bool
  pub channel_opened : Option Error
  pub declared : Option Error
  pub channel_closed : Option Error

unfoldable pub check_queue : Pinged → Option Error
unfolding close_channel
check_queue p = elim p.channel_opened [
  | some e ↦ some (wrap e)
  | none ↦ elim p.declared [ some e ↦ some (wrap e) | none ↦ close_channel p.channel_closed ]
]

unfoldable pub ping : Pinged → Option Error
unfolding check_queue
ping p =
    if p.is_closed
    then some (foreign 0)
    else if p.in_time
    then check_queue p
    else some (wrap (sentinel deadline_exceeded))

-- The consumer of a connection, over the answer to the opening of its channel.
pub record ConsumerOf : Type 0 where
  pub levels : List RetryLevel
  pub prefetch : ℤ
  pub timeout : Duration

unfoldable pub consumer : Conn → Option Error → Result ConsumerOf
consumer c (some e) = err (wrap e)
consumer c none =
    ok (record { levels = c.levels; prefetch = c.prefetch; timeout = c.process_timeout })

-- Publisher.Close: whether there is a channel, and the answer to its closing.
unfoldable pub close_publisher : Bool → Option Error → Option Error
unfolding close_channel
close_publisher has_channel answer = if has_channel then close_channel answer else none

-- Consumer.Close, with the closing of its publisher
unfoldable pub close_consumer : Bool → (published consumed : Option Error) → Option Error
unfolding close_publisher close_channel
close_consumer has_channel published consumed = elim (close_publisher has_channel published) [
  | none ↦ close_channel consumed
  | some e ↦ elim (close_channel consumed) [ none ↦ some e | some d ↦ some (both e d) ]
]
