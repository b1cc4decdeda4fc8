-- ===== src/Cmd/Worker.antt =====
-- cmd/worker/main.go, over the answers of the dependencies. Logs are left out. A goroutine is open from
-- its start until its end has been waited for.
pub mod Stopped
use gophprofile.Base.{Bool, ℕ, ◌*◌, Option, none, some, List, [], ◌∷◌, ◌++◌}
use gophprofile.Fault.{Error, Result, ok, err, wrap, foreign}
use gophprofile.Config.{Config}
use gophprofile.Config.Defaults.{second, minute}
use gophprofile.Lifecycle.{
  Act, opened, closed, signals, connection, tracing, metrics_server, reconciler, consumer, Life,
  unless, after, deferred, started, passing,
}
use gophprofile.Postgres.Startup.{Pgx, Repository}
use gophprofile.Postgres.Startup as Postgres
use gophprofile.S3.Startup.{Minio, Bucket}
use gophprofile.S3.Startup as S3
use gophprofile.Broker.Connection.{Library, Conn, ConsumerOf, ConnOption, with_process_timeout}
use gophprofile.Broker.Connection as Broker

abbrev pub otel_shutdown_timeout : ℕ
otel_shutdown_timeout = 5 * second

-- http.Server of the metrics
pub record MetricsServer : Type 0 where
  pub read_header_timeout : ℕ
  pub read_timeout : ℕ
  pub write_timeout : ℕ
  pub idle_timeout : ℕ

abbrev pub metrics_server_settings : MetricsServer
metrics_server_settings = record {
  read_header_timeout = 5 * second;
  read_timeout = 10 * second;
  write_timeout = 10 * second;
  idle_timeout = minute;
}

-- Which comes first: the end of Consume, an error of the metrics server, after which Consume is
-- cancelled and ends, or a signal. After that Consume ends in time, or the time is over.
pub data Ending : Type 0 where
  consumed : Option Error → Ending
  metrics_failed : Error → (consumed : Option Error) → Ending
  drained : Option Error → Ending
  timed_out : Ending

pub record Answers : Type 0 where
  pub loaded : Result Config
  pub pgx : Pgx
  pub minio : Minio
  pub library : Library
  pub consumer_opened : Option Error
  pub tracing : Option Error
  pub ending : Ending
  pub metrics_shutdown : Option Error

pub record Deps : Type 0 where
  pub repo : Option Repository
  pub storage : Option Bucket
  pub broker : Option Conn
  pub consumer : Option ConsumerOf

abbrev no_deps : Deps
no_deps = record { repo = none; storage = none; broker = none; consumer = none }

module _ {A : Type 0} where
  abbrev where_set : Option A → List Act → List Act
  where_set none acts = []
  where_set (some a) acts = acts

-- An error of closing the connection is logged.
unfoldable pub close : Deps → List Act
close d =
    where_set d.broker (closed connection ∷ [])
    ++ (where_set d.storage S3.close ++ where_set d.repo Postgres.close)

abbrev pub options : Config → List ConnOption
options cfg = with_process_timeout cfg.worker.process_timeout ∷ []

-- The channel of the consumer ends with the connection.
unfoldable pub setup : Config → Answers → Life Deps
setup cfg a = started (Postgres.new cfg.db a.pgx) [] λ repo.
    let d = record no_deps { repo = some repo } in
    started (S3.new cfg.storage a.minio) (close d) λ storage.
      let d = record d { storage = some storage } in
      started (Broker.new cfg.amqp (options cfg) a.library) (close d) λ conn.
        let d = record d { broker = some conn } in
        started (Broker.consumer conn a.consumer_opened, []) (close d)
          λ consumer. (ok (record d { consumer = some consumer }), [])

abbrev ended : Option Error → Result (Unit {0})
ended none = ok tt
ended (some e) = err (wrap e)

-- The outer and the inner `select`: the error of run, and whether Consume has ended.
unfoldable pub wait : Ending → Life (Unit {0})
wait (consumed o) = (ended o, closed consumer ∷ [])
wait (metrics_failed e o) = (err (wrap e), closed consumer ∷ [])
wait (drained o) = (ended o, closed consumer ∷ [])
wait timed_out = (err (foreign 0), [])

-- Shutdown waits for the handlers of requests; its error, after which they may be at work, is logged.
abbrev shut_down : Option Error → List Act
shut_down none = closed metrics_server ∷ []
shut_down (some e) = []

-- run with its deferred calls.
unfoldable pub run : Answers → Life (Unit {0})
unfolding setup close wait
run a =
    passing (a.loaded, [])
      λ cfg. after (opened signals ∷ []) (
        deferred (closed signals ∷ []) (
          passing (setup cfg a) λ d. deferred (close d) (
            unless a.tracing [] (
              after (opened tracing ∷ []) (
                deferred (closed tracing ∷ []) (
                  after (opened reconciler ∷ opened metrics_server ∷ opened consumer ∷ []) (
                    deferred (closed reconciler ∷ shut_down a.metrics_shutdown)
                      (wait a.ending))))))))
