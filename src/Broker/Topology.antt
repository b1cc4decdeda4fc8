-- ===== src/Broker/Topology.antt =====
-- internal/broker/topology.go: the levels of the retry ladder, and the declaration of the exchanges,
-- queues and bindings on a channel. What a channel has declared is the list of its declarations.
pub mod Delays
pub mod Laws
pub mod Parts
pub mod Routes
use gophprofile.Base.{ℕ, zero, suc, ◌/◌, String, ◌≡◌, refl, Option, none, some, List, [], ◌∷◌, ◌++◌}
use gophprofile.Fault.{Error, wrap}
use gophprofile.Broker.Headers.{RetryLevel}
use gophprofile.Broker.Events.{routing_key_uploaded, routing_key_deleted}
use gophprofile.Broker.Consumer.{exchange_retry, exchange_dead, routing_key_dead}

abbrev pub exchange_events : String
exchange_events = "avatars.exchange"

abbrev pub queue_process : String
queue_process = "avatars.process"

abbrev pub queue_dead : String
queue_dead = "avatars.dead"

abbrev pub routing_key_retried : String
routing_key_retried = "avatar.retried"

abbrev pub binding_events : String
binding_events = "avatar.*"

-- Kinds of exchanges: amqp.ExchangeTopic and amqp.ExchangeDirect
pub data Kind : Type 0 where
  topic direct : Kind

-- The table of a queue's arguments; `message_ttl` is in milliseconds.
pub record Arguments : Type 0 where
  pub dead_letter_exchange : Option String
  pub dead_letter_routing_key : Option String
  pub message_ttl : Option ℕ

pub data Declaration : Type 0 where
  exchange : String → Kind → Declaration
  queue : String → Arguments → Declaration
  binding : (queue key exchange : String) → Declaration

-- `answers` is what the next declarations return; after them, all succeed.
pub record Channel : Type 0 where
  pub declared : List Declaration
  pub answers : List (Option Error)

abbrev pub Step : Type 0
Step = Channel → Option Error × Channel

-- ExchangeDeclare, QueueDeclare and QueueBind of the AMQP library
answered : Declaration → List (Option Error) → List Declaration → Option Error × Channel
answered d [] ds = (none, record { declared = ds ++ d ∷ []; answers = [] })
answered d (none ∷ rest) ds = (none, record { declared = ds ++ d ∷ []; answers = rest })
answered d (some e ∷ rest) ds = (some (wrap e), record { declared = ds; answers = rest })

unfoldable pub declare : Declaration → Step
unfolding answered
declare d ch = answered d ch.answers ch.declared

abbrev continue : Step → Option Error × Channel → Option Error × Channel
continue m (none, ch) = m ch
continue m (some e, ch) = (some e, ch)

-- `if err := …; err != nil { return err }` before the next call
infixr 10 ◌then◌
unfoldable pub ◌then◌ : Step → Step → Step
◌then◌ m n ch = continue n (m ch)

unfoldable pub done : Step
done ch = (none, ch)

unfoldable pub declare_queue : String → Arguments → Step
unfolding declare
declare_queue name args = declare (queue name args)

-- QueueBind, with the error of bindQueue
unfoldable pub bind_queue : (queue exchange key : String) → Step
unfolding declare
bind_queue q x key = declare (binding q key x)

abbrev pub no_arguments : Arguments
no_arguments = record {
  dead_letter_exchange = none;
  dead_letter_routing_key = none;
  message_ttl = none;
}

abbrev pub process_arguments : Arguments
process_arguments = record {
  dead_letter_exchange = some exchange_retry;
  dead_letter_routing_key = none;
  message_ttl = none;
}

-- Time is in nanoseconds, and Milliseconds rounds down.
abbrev pub level_arguments : RetryLevel → Arguments
level_arguments level = record {
  dead_letter_exchange = some exchange_events;
  dead_letter_routing_key = some routing_key_retried;
  message_ttl = some (level.ttl / 1000000);
}

abbrev pub rejected_keys : List String
rejected_keys = routing_key_uploaded ∷ routing_key_deleted ∷ routing_key_retried ∷ []

-- The keys of the level at an index.
abbrev pub level_keys : ℕ → RetryLevel → List String
level_keys zero level = level.key ∷ rejected_keys
level_keys (suc i) level = level.key ∷ []

unfoldable pub bind_keys : String → List String → Step
unfolding bind_queue ◌then◌ done
bind_keys q [] = done
bind_keys q (key ∷ keys) = bind_queue q exchange_retry key then bind_keys q keys

unfoldable pub declare_level : ℕ → RetryLevel → Step
unfolding declare_queue bind_keys ◌then◌
declare_level i level =
    declare_queue level.queue (level_arguments level)
    then bind_keys level.queue (level_keys i level)

-- The loop, from an index on.
unfoldable pub declare_retry_levels : ℕ → List RetryLevel → Step
unfolding declare_level ◌then◌ done
declare_retry_levels i [] = done
declare_retry_levels i (level ∷ levels) =
    declare_level i level then declare_retry_levels (suc i) levels

abbrev pub exchanges : List (String × Kind)
exchanges = (exchange_events, topic) ∷ (exchange_retry, direct) ∷ (exchange_dead, direct) ∷ []

unfoldable pub declare_exchanges : List (String × Kind) → Step
unfolding declare ◌then◌ done
declare_exchanges [] = done
declare_exchanges ((name, kind) ∷ es) = declare (exchange name kind) then declare_exchanges es

unfoldable pub declare_topology : List RetryLevel → Step
unfolding declare_exchanges declare_queue bind_queue declare_retry_levels ◌then◌
declare_topology levels =
    declare_exchanges exchanges
    then declare_queue queue_process process_arguments
    then bind_queue queue_process exchange_events binding_events
    then declare_retry_levels 0 levels
    then declare_queue queue_dead no_arguments
    then bind_queue queue_dead exchange_dead routing_key_dead
