-- ===== src/Broker/Topology/Parts.antt =====
-- internal/broker/topology.go: every part of the topology is declared once declareTopology succeeds.
use mathlib.Core.Option.{some-injective}
use gophprofile.Base.{ℕ, zero, suc, String, ◌≡◌, some, List, [], ◌∷◌, arith, subst, get_elem?}
use gophprofile.Broker.Headers.{RetryLevel}
use gophprofile.Broker.Consumer.{exchange_dead, routing_key_dead}
use gophprofile.Broker.Topology.{
  Kind, Declaration, exchange, queue, binding, Step, ◌then◌, exchange_events, queue_process,
  queue_dead, binding_events, process_arguments, no_arguments, exchanges, declare_exchanges,
  declare_queue, bind_queue, declare_retry_levels, declare_topology,
}
use gophprofile.Broker.Topology.Laws.{
  Ensures, Keeps, declare-Ensures, declare-Keeps, then-Ensures_left, then-Ensures_right, then-Keeps,
  done-Keeps, declare_retry_levels-Keeps,
}

declare_exchanges-Keeps : (es : List (String × Kind)) → Keeps (declare_exchanges es)
unfolding declare_exchanges
declare_exchanges-Keeps [] = done-Keeps
declare_exchanges-Keeps ((name, kind) ∷ es) =
    then-Keeps _ (declare_exchanges es) (declare-Keeps _) (declare_exchanges-Keeps es)

declare_exchanges-Ensures :
    (es : List (String × Kind)) (n : ℕ) (e : String × Kind)
    → get_elem? es n ≡ some e
    → Ensures (declare_exchanges es) (exchange e.0 e.1)
unfolding declare_exchanges
declare_exchanges-Ensures [] n e h = ground arith
declare_exchanges-Ensures ((x, k) ∷ es) zero e h =
    subst (λ y. Ensures (declare_exchanges ((x, k) ∷ es)) (exchange y.0 y.1))
      (some-injective (x, k) e h)
      (then-Ensures_left _ (declare_exchanges es) _ (declare-Ensures _)
        (declare_exchanges-Keeps es))
declare_exchanges-Ensures ((x, k) ∷ es) (suc n) e h =
    then-Ensures_right _ (declare_exchanges es) _ (declare_exchanges-Ensures es n e h)

dead : Step
dead =
    declare_queue queue_dead no_arguments then bind_queue queue_dead exchange_dead routing_key_dead

dead-Keeps : Keeps dead
unfolding dead declare_queue bind_queue
dead-Keeps = then-Keeps _ _ (declare-Keeps _) (declare-Keeps _)

module _ (levels : List RetryLevel) where
  ladder : Step
  unfolding dead
  ladder = declare_retry_levels 0 levels then dead

  ladder-Keeps : Keeps ladder
  unfolding ladder
  ladder-Keeps =
      then-Keeps (declare_retry_levels 0 levels) dead (declare_retry_levels-Keeps 0 levels)
        dead-Keeps

  events : Step
  unfolding ladder
  events = bind_queue queue_process exchange_events binding_events then ladder

  events-Keeps : Keeps events
  unfolding events bind_queue
  events-Keeps = then-Keeps _ ladder (declare-Keeps _) ladder-Keeps

  queues : Step
  unfolding events
  queues = declare_queue queue_process process_arguments then events

  queues-Keeps : Keeps queues
  unfolding queues declare_queue
  queues-Keeps = then-Keeps _ events (declare-Keeps _) events-Keeps

  pub topology-exchange :
      (n : ℕ) (e : String × Kind)
      → get_elem? exchanges n ≡ some e
      → Ensures (declare_topology levels) (exchange e.0 e.1)
  unfolding declare_topology queues
  topology-exchange n e h =
      then-Ensures_left (declare_exchanges exchanges) queues _
        (declare_exchanges-Ensures exchanges n e h) queues-Keeps

  -- What comes after the exchanges.
  from_queues : (d : Declaration) → Ensures queues d → Ensures (declare_topology levels) d
  unfolding declare_topology queues
  from_queues d = then-Ensures_right (declare_exchanges exchanges) queues d

  pub topology-process_queue :
      Ensures (declare_topology levels) (queue queue_process process_arguments)
  unfolding queues declare_queue
  topology-process_queue =
      from_queues _ (then-Ensures_left _ events _ (declare-Ensures _) events-Keeps)

  from_events : (d : Declaration) → Ensures events d → Ensures (declare_topology levels) d
  unfolding queues
  from_events d f = from_queues d (then-Ensures_right _ events d f)

  pub topology-process_binding :
      Ensures (declare_topology levels) (binding queue_process binding_events exchange_events)
  unfolding events bind_queue
  topology-process_binding =
      from_events _ (then-Ensures_left _ ladder _ (declare-Ensures _) ladder-Keeps)

  from_ladder : (d : Declaration) → Ensures ladder d → Ensures (declare_topology levels) d
  unfolding events
  from_ladder d f = from_events d (then-Ensures_right _ ladder d f)

  pub topology-levels :
      (d : Declaration)
      → Ensures (declare_retry_levels 0 levels) d
      → Ensures (declare_topology levels) d
  unfolding ladder
  topology-levels d f =
      from_ladder d (then-Ensures_left (declare_retry_levels 0 levels) dead d f dead-Keeps)

  pub topology-dead_binding :
      Ensures (declare_topology levels) (binding queue_dead routing_key_dead exchange_dead)
  unfolding ladder dead bind_queue
  topology-dead_binding = from_ladder _ (
      then-Ensures_right (declare_retry_levels 0 levels) dead _
        (then-Ensures_right _ _ _ (declare-Ensures _)))
