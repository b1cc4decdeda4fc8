-- ===== src/Broker/Connection/Ready.antt =====
-- internal/broker/broker.go: a connection that New returns, with its ladder and its topology.
use gophprofile.Base.{◌<◌, ◌≡◌, none, List, [], ◌∷◌, length, arith, sym, subst, count_if}
use gophprofile.Fault.{ok}
use gophprofile.Config.{Amqp}
use gophprofile.Worker.Handler.{Message}
use gophprofile.Broker.Headers.{RetryLevel}
use gophprofile.Broker.Consumer.{Delivery, Handled, Conditions, process}
use gophprofile.Broker.Consumer.Fate.{settles, process-settles_once}
use gophprofile.Broker.Topology.{declare_topology}
use gophprofile.Broker.Topology.Delays.{new_retry_levels}
use gophprofile.Broker.Topology.Routes.{Accepts, IsRabbit, LandsAll, process-Lands}
use gophprofile.Broker.Connection.{
  Conn, ConnOption, with_retry_delays, with_process_timeout, apply, with_options, Library, Declared,
  declare, defaults, connected, new, ConsumerOf, consumer, fresh,
}

apply-levels : (o : ConnOption) (c : Conn) → 0 < length c.levels → 0 < length (apply o c).levels
unfolding apply new_retry_levels
apply-levels (with_retry_delays []) c h = h
apply-levels (with_retry_delays (delay ∷ delays)) c h = omega arith
apply-levels (with_process_timeout timeout) c h = ground arith

with_options-levels :
    (os : List ConnOption) (c : Conn) → 0 < length c.levels → 0 < length (with_options os c).levels
unfolding with_options
with_options-levels [] c h = h
with_options-levels (o ∷ os) c h = with_options-levels os (apply o c) (apply-levels o c h)

defaults-levels : (cfg : Amqp) → 0 < length (defaults cfg).levels
unfolding new_retry_levels
defaults-levels cfg = omega arith

-- A connection comes with every declaration made.
declare-success :
    (levels : List RetryLevel) (a : Library)
    → (declare levels a).error ≡ none
    → ((declare_topology levels (fresh a.declarations)).0 ≡ none)
      × ((declare levels a).declarations
          ≡ (declare_topology levels (fresh a.declarations)).1.declared)
unfolding declare
declare-success levels a h = ground arith

connected-ok :
    (c : Conn) (d : Declared) (x : Conn) → (connected c d).0 ≡ ok x → (c ≡ x) × (d.error ≡ none)
connected-ok c d x h = ground arith

after-ok :
    (cfg : Amqp) (options : List ConnOption) (a : Library) (c : Conn)
    → a.dialled ≡ none
    → (new cfg options a).0 ≡ ok c
    → (with_options options (defaults cfg) ≡ c)
      × ((declare (with_options options (defaults cfg)).levels a).error ≡ none)
unfolding new declare
after-ok cfg options a c e h =
    let c' = with_options options (defaults cfg) in
    connected-ok c' (declare c'.levels a) c (rw e at h)

new-dialled :
    (cfg : Amqp) (options : List ConnOption) (a : Library) (c : Conn)
    → (new cfg options a).0 ≡ ok c
    → a.dialled ≡ none
unfolding new
new-dialled cfg options a c h = ground arith

new-ok :
    (cfg : Amqp) (options : List ConnOption) (a : Library) (c : Conn)
    → (new cfg options a).0 ≡ ok c
    → (c ≡ with_options options (defaults cfg)) × ((declare c.levels a).error ≡ none)
new-ok cfg options a c h =
    let (x, y) = after-ok cfg options a c (new-dialled cfg options a c h) h in
    (sym x, subst (λ z. (declare z.levels a).error ≡ none) x y)

module _ (accepts : Accepts) (rabbit : IsRabbit accepts) where
  -- The consumer of a connection that New has returned settles every delivery once, and every copy that
  -- it publishes lands in what New has declared, whatever the options, the handler and the broker's
  -- answers are: with the dead letters, or in a queue of the ladder that gives it back to the
  -- processing queue. RabbitMQ is taken to route as it documents.
  pub new-Lands :
      (cfg : Amqp) (options : List ConnOption) (a : Library) (conn : Conn) (k : ConsumerOf)
      (c : Conditions) (handler : Message → Handled) (d : Delivery)
      → (new cfg options a).0 ≡ ok conn
      → consumer conn none ≡ ok k
      → c.levels ≡ k.levels
      → LandsAll accepts (declare conn.levels a).declarations (process c handler d)
        × (count_if settles (process c handler d) ≡ 1)
  unfolding consumer
  new-Lands cfg options a conn k c handler d h g e =
      let (made, success) = new-ok cfg options a conn h in
      let (x, y) = declare-success conn.levels a success in
      let same : c.levels ≡ conn.levels = cc in
      let some_level : 0 < length c.levels =
        subst (λ l. 0 < length l) (sym same)
          (subst (λ z. 0 < length z.levels) (sym made)
            (with_options-levels options (defaults cfg) (defaults-levels cfg))) in
      (
        subst (λ ds. LandsAll accepts ds (process c handler d)) (sym y)
            (subst
              (λ l.
                LandsAll accepts (declare_topology l (fresh a.declarations)).1.declared
                  (process c handler d))
              same
              (process-Lands accepts (fresh a.declarations) c handler d rabbit some_level
                (subst (λ l. (declare_topology l (fresh a.declarations)).0 ≡ none) (sym same) x))),
        process-settles_once c handler d some_level,
      )
