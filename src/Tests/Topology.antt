-- ===== src/Tests/Topology.antt =====
-- Runs of the topology of internal/broker.
use text.Mathlib.Text.{starts_with}
use text.Mathlib.TextPositions.{eq_refl}
use gophprofile.Base.{◌≡◌, refl, none, List, [], ◌∷◌, str_eq, pos, count_if}
use gophprofile.Fault.{ok}
use gophprofile.Broker.Headers.{RetryLevel}
use gophprofile.Broker.Consumer.{process}
use gophprofile.Tests.Broker.{delivery, conditions, failing_handler}
use gophprofile.Broker.Consumer.{Conditions}
use gophprofile.Broker.Topology.{topic, direct, Channel, declare_topology}
use gophprofile.Broker.Consumer.Fate.{settles}
use gophprofile.Config.{Amqp}
use gophprofile.Config.Defaults.{second}
use gophprofile.Broker.Connection.{
  Library, Conn, ConnOption, with_retry_delays, new, declare, consumer, close_channel,
}
use gophprofile.Broker.Connection.Ready.{new-Lands}
use gophprofile.Broker.Topology.Delays.{delay_name, default_retry_delays, new_retry_levels}
use gophprofile.Broker.Topology.Routes.{Accepts, IsRabbit, LandsAll}

abbrev accepts : Accepts
accepts kind bound key = elim kind [ direct ↦ str_eq bound key | topic ↦ starts_with key "avatar." ]

accepts-IsRabbit : IsRabbit accepts
accepts-IsRabbit = record { same_key = eq_refl; one_word = (refl, (refl, (refl, tt))) }

abbrev fresh : Channel
fresh = record { declared = []; answers = [] }

default_ladder :
    new_retry_levels default_retry_delays
    ≡ record { queue = "avatars.retry.5s"; key = "retry.5s"; ttl = 5000000000 }
      ∷ record { queue = "avatars.retry.30s"; key = "retry.30s"; ttl = 30000000000 }
      ∷ record { queue = "avatars.retry.5m"; key = "retry.5m"; ttl = 300000000000 }
      ∷ []
unfolding new_retry_levels
default_ladder = refl

names_of_delays :
    (delay_name 1500000 ≡ "1.5ms")
    × (delay_name 90000000000 ≡ "1m30s")
    × (delay_name 0 ≡ "0s")
    × (delay_name 3600000000000 ≡ "1h0m")
unfolding delay_name
names_of_delays = (refl, refl, refl, refl)

abbrev ladder : List RetryLevel
ladder =
    record { queue = "avatars.retry.5s"; key = "retry.5s"; ttl = 5000000000 }
    ∷ record { queue = "avatars.retry.30s"; key = "retry.30s"; ttl = 30000000000 }
    ∷ []

ladder_declared : (declare_topology ladder fresh).0 ≡ none
unfolding declare_topology
ladder_declared = refl

abbrev on_ladder : Conditions
on_ladder = record conditions { levels = ladder }

abbrev pub healthy : Library
healthy = record {
  dialled = none;
  channel_opened = none;
  declarations = [];
  channel_closed = none;
  connection_closed = none;
}

abbrev amqp : Amqp
amqp = record { url = "amqp://broker"; prefetch = pos 4; timeout = pos second }

abbrev options : List ConnOption
options = with_retry_delays (5000000000 ∷ 30000000000 ∷ []) ∷ []

abbrev conn : Conn
conn = record {
  levels = ladder;
  prefetch = pos 4;
  timeout = pos second;
  process_timeout = pos second;
}

made : (new amqp options healthy).0 ≡ ok conn
unfolding new declare close_channel declare_topology new_retry_levels
made = refl

new-Lands_example :
    LandsAll accepts
      (declare ladder healthy).declarations
      (process on_ladder failing_handler delivery)
    × (count_if settles (process on_ladder failing_handler delivery) ≡ 1)
unfolding consumer
new-Lands_example =
    new-Lands accepts accepts-IsRabbit amqp options healthy conn
      (record { levels = ladder; prefetch = pos 4; timeout = pos second }) on_ladder failing_handler
      delivery made refl refl
