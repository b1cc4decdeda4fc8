-- ===== src/Broker/Topology/Routes.antt =====
-- internal/broker/topology.go: where the messages of the consumer and of the publisher go, and that
-- they come back.
use mathlib.Core.List.{Mem}
use gophprofile.Base.{
  ◌/◌, ℕ, ◌<◌, String, ◌≡◌, refl, ◌⊎◌, inl, inr, Bool, true, none, some, List, ◌∷◌, All, subst, sym,
  length, get_elem?, Bool-cases, Option-cases,
}
use gophprofile.Fault.{is, non_retryable}
use gophprofile.Worker.Handler.{Message}
use gophprofile.Broker.Headers.{RetryLevel, retry_level_for, retry_level_for_total}
use gophprofile.Broker.Consumer.Fate.{reroute_cases}
use gophprofile.Broker.Consumer.{
  exchange_retry, exchange_dead, routing_key_dead, Delivery, Handled, Action, posted, stuck,
  Conditions, reroute, message_of, handle, process,
}
use gophprofile.Broker.Topology.{
  Arguments, Kind, topic, direct, Declaration, exchange, queue, binding, Channel, exchange_events,
  queue_process, queue_dead, routing_key_retried, binding_events, rejected_keys, process_arguments,
  level_arguments, declare_topology,
}
use gophprofile.Broker.Topology.Laws.{levels-queue, levels-binding, rejected-binding}
use gophprofile.Broker.Topology.Parts.{
  topology-exchange, topology-process_queue, topology-process_binding, topology-levels,
  topology-dead_binding,
}

-- Whether an exchange of a kind passes a message with a key on along a binding with a key.
abbrev pub Accepts : Type 0
Accepts = Kind → String → String → Bool

-- What RabbitMQ documents of direct and topic exchanges, at the keys that the program uses.
pub record IsRabbit (accepts : Accepts) : Type 0 where
  pub same_key : (key : String) → accepts direct key key ≡ true
  pub one_word : All (λ key. accepts topic binding_events key ≡ true) rejected_keys

-- A message that is published to an exchange with a key reaches a queue.
pub record IsRouted (accepts : Accepts) (ds : List Declaration) (x key q : String) : Type 0 where
  pub kind : Kind
  pub bound : String
  pub exchange_declared : Mem (exchange x kind) ds
  pub queue_bound : Mem (binding q bound x) ds
  pub accepted : accepts kind bound key ≡ true

-- What the queue gives up by time goes back to the processing queue.
pub record IsReturning (accepts : Accepts) (ds : List Declaration) (q : String) : Type 0 where
  pub arguments : Arguments
  pub x : String
  pub key : String
  pub ttl : ℕ
  pub queue_declared : Mem (queue q arguments) ds
  pub expires : arguments.message_ttl ≡ some ttl
  pub dead_letter_exchange : arguments.dead_letter_exchange ≡ some x
  pub dead_letter_routing_key : arguments.dead_letter_routing_key ≡ some key
  pub back : IsRouted accepts ds x key queue_process

-- What the queue rejects goes to an exchange with its key kept.
pub record IsRejecting (ds : List Declaration) (q x : String) : Type 0 where
  pub arguments : Arguments
  pub queue_declared : Mem (queue q arguments) ds
  pub dead_letter_exchange : arguments.dead_letter_exchange ≡ some x
  pub dead_letter_routing_key : arguments.dead_letter_routing_key ≡ none

module _ (accepts : Accepts) (ds : List Declaration) where
  -- Where a message lands: with the dead letters, or in a queue that gives it back.
  abbrev pub Lands : String → String → Type 0
  Lands x key =
      (q : String) × IsRouted accepts ds x key q × ((q ≡ queue_dead) ⊎ IsReturning accepts ds q)

  -- Everything that is published lands, and the consumer does not get stuck.
  abbrev pub LandsAll : List Action → Type 0
  LandsAll = All (λ a. elim a [ posted p ↦ Lands p.exchange p.key | stuck ↦ ⊥ | _ ↦ Unit ])

module _ (accepts : Accepts) (rabbit : IsRabbit accepts) (levels : List RetryLevel) (ch : Channel)
    (success : (declare_topology levels ch).0 ≡ none) where
  abbrev declared : List Declaration
  declared = (declare_topology levels ch).1.declared

  to_process :
      (key : String)
      → accepts topic binding_events key ≡ true
      → IsRouted accepts declared exchange_events key queue_process
  to_process key h = record {
    kind = topic;
    bound = binding_events;
    exchange_declared = topology-exchange levels 0 _ refl ch success;
    queue_bound = topology-process_binding levels ch success;
    accepted = h;
  }

  to_dead : IsRouted accepts declared exchange_dead routing_key_dead queue_dead
  to_dead = record {
    kind = direct;
    bound = routing_key_dead;
    exchange_declared = topology-exchange levels 2 _ refl ch success;
    queue_bound = topology-dead_binding levels ch success;
    accepted = rabbit.same_key routing_key_dead;
  }

  to_level :
      (n : ℕ) (l : RetryLevel)
      → get_elem? levels n ≡ some l
      → IsRouted accepts declared exchange_retry l.key l.queue
  to_level n l h = record {
    kind = direct;
    bound = l.key;
    exchange_declared = topology-exchange levels 1 _ refl ch success;
    queue_bound = topology-levels levels _ (levels-binding levels n l h) ch success;
    accepted = rabbit.same_key l.key;
  }

  level-IsReturning :
      (n : ℕ) (l : RetryLevel) → get_elem? levels n ≡ some l → IsReturning accepts declared l.queue
  level-IsReturning n l h = record {
    arguments = level_arguments l;
    x = exchange_events;
    key = routing_key_retried;
    ttl = l.ttl / 1000000;
    queue_declared = topology-levels levels _ (levels-queue levels n l h) ch success;
    expires = refl;
    dead_letter_exchange = refl;
    dead_letter_routing_key = refl;
    back = to_process routing_key_retried rabbit.one_word.1.1.0;
  }

  reroute-Lands :
      (c : Conditions) (x key : String) (d : Delivery) (n : ℕ)
      → Lands accepts declared x key
      → LandsAll accepts declared (reroute c x key d n)
  reroute-Lands c x key d n h = elim (reroute_cases c x key d n) [
    | inl (e, _) ↦ subst (LandsAll accepts declared) (sym e) (h, (tt, tt))
    | inr (inl e) ↦ subst (LandsAll accepts declared) (sym e) (h, (tt, tt))
    | inr (inr e) ↦ subst (LandsAll accepts declared) (sym e) (tt, tt)
  ]

  dead-Lands : Lands accepts declared exchange_dead routing_key_dead
  dead-Lands = (queue_dead, to_dead, inl refl)

  level-Lands :
      (attempt : ℕ) (l : RetryLevel)
      → retry_level_for levels attempt ≡ some l
      → Lands accepts declared exchange_retry l.key
  unfolding retry_level_for
  level-Lands attempt l h = (l.queue, to_level _ l h, inr (level-IsReturning _ l h))

-- Once the topology is declared with a ladder that is not empty, every copy that the consumer
-- publishes lands: with the dead letters, or in a queue of the ladder that, when the time of its
-- level is over, gives it back to the processing queue. RabbitMQ is taken to route as it documents.
pub process-Lands :
    (accepts : Accepts) (ch : Channel) (c : Conditions) (handler : Message → Handled) (d : Delivery)
    → (rabbit : IsRabbit accepts) → 0 < length c.levels
    → (success : (declare_topology c.levels ch).0 ≡ none)
    → LandsAll accepts (declare_topology c.levels ch).1.declared (process c handler d)
unfolding process
process-Lands accepts ch c handler d rabbit h success =
    let msg = message_of d in
    let (l, q) = retry_level_for_total c.levels msg.attempt h in
    elim (Option-cases (handle handler msg)) [
      | inl none_left ↦ rw none_left (tt, tt)
      | inr (e, f) ↦ elim (Bool-cases (is e non_retryable)) [
        | inl never ↦ rw (f, never) (tt, tt)
        | inr again ↦ elim (Bool-cases msg.final) [
          | inl last ↦
              rw (f, again, last)
                (reroute-Lands accepts rabbit c.levels ch success c exchange_dead routing_key_dead d
                  msg.attempt (dead-Lands accepts rabbit c.levels ch success))
          | inr more ↦
              rw (f, again, more, q)
                (reroute-Lands accepts rabbit c.levels ch success c exchange_retry l.key d
                  msg.attempt (level-Lands accepts rabbit c.levels ch success msg.attempt l q))
        ]
      ]
    ]

module _ (accepts : Accepts) (rabbit : IsRabbit accepts) (l : RetryLevel) (ls : List RetryLevel)
    (ch : Channel) (success : (declare_topology (l ∷ ls) ch).0 ≡ none) where
  abbrev Circle : String → Type 0
  Circle key =
      let ds = (declare_topology (l ∷ ls) ch).1.declared in
      IsRouted accepts ds exchange_events key queue_process
      × IsRejecting ds queue_process exchange_retry
      × IsRouted accepts ds exchange_retry key l.queue
      × IsReturning accepts ds l.queue

  circle :
      (n : ℕ) (key : String)
      → get_elem? rejected_keys n ≡ some key
      → accepts topic binding_events key ≡ true
      → Circle key
  circle n key h e = (
    to_process accepts rabbit (l ∷ ls) ch success key e,
    record {
      arguments = process_arguments;
      queue_declared = topology-process_queue (l ∷ ls) ch success;
      dead_letter_exchange = refl;
      dead_letter_routing_key = refl;
    },
    record {
      kind = direct;
      bound = key;
      exchange_declared = topology-exchange (l ∷ ls) 1 _ refl ch success;
      queue_bound = topology-levels (l ∷ ls) _ (rejected-binding l ls n key h) ch success;
      accepted = rabbit.same_key key;
    },
    level-IsReturning accepts rabbit (l ∷ ls) ch success 0 l refl,
  )

-- Once the topology is declared, the events and what comes back from the ladder reach the processing
-- queue; what that queue rejects goes to the exchange of the ladder with its key kept, and from there
-- to the queue of the first level, which gives it back in its time. RabbitMQ is taken to route as it
-- documents.
pub rejected-IsReturning :
    (accepts : Accepts) (ch : Channel) (l : RetryLevel) (ls : List RetryLevel)
    → (rabbit : IsRabbit accepts) → (success : (declare_topology (l ∷ ls) ch).0 ≡ none)
    → let ds = (declare_topology (l ∷ ls) ch).1.declared in
      All
        (λ key.
          IsRouted accepts ds exchange_events key queue_process
          × IsRejecting ds queue_process exchange_retry
          × IsRouted accepts ds exchange_retry key l.queue
          × IsReturning accepts ds l.queue)
        rejected_keys
rejected-IsReturning accepts ch l ls rabbit success =
    let round = circle accepts rabbit l ls ch success in
    let keys = rabbit.one_word in
    (round 0 _ refl keys.0, (round 1 _ refl keys.1.0, (round 2 _ refl keys.1.1.0, tt)))
