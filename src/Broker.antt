-- ===== src/Broker.antt =====
-- internal/broker: the events, their publication, the retry ladder and the consumer.
pub mod Events
pub mod Headers
pub mod Publisher
pub mod Consumer
pub mod Topology
pub mod Pump
pub mod Connection
pub mod Evolution
