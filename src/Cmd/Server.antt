-- ===== src/Cmd/Server.antt =====
-- cmd/server/main.go, over the answers of the dependencies. Logs are left out. A goroutine is open from
-- its start until its end has been waited for.
pub mod Stopped
use gophprofile.Base.{
  ◌≡◌, true, Bool, ℕ, ◌*◌, Option, none, some, List, [], ◌∷◌, ◌++◌, if◌then◌else◌,
}
use gophprofile.Fault.{Error, Result, ok, err, wrap, is, server_closed}
use gophprofile.Config.{Config}
use gophprofile.Config.Defaults.{second}
use gophprofile.Lifecycle.{
  Act, opened, closed, signals, connection, tracing, server, Life, unless, after, deferred, started,
  passing,
}
use gophprofile.Postgres.Startup.{Pgx, Repository}
use gophprofile.Postgres.Startup as Postgres
use gophprofile.S3.Startup.{Minio, Bucket}
use gophprofile.S3.Startup as S3
use gophprofile.Broker.Connection.{Library, Conn}
use gophprofile.Broker.Connection as Broker

abbrev pub otel_shutdown_timeout : ℕ
otel_shutdown_timeout = 5 * second

-- Which comes first: the end of ListenAndServe, or a signal, after which Shutdown answers. Shutdown waits
-- for the handlers of requests; where it fails, and where the listener ends by itself, nothing does, and
-- `idle` says whether they have ended all the same.
pub data Ending : Type 0 where
  listened : Option Error → (idle : Bool) → Ending
  signalled : Ending
  overdue : (shutdown : Error) → (idle : Bool) → Ending

-- The configuration as it was read, and the answers of what the process starts.
pub record Answers : Type 0 where
  pub loaded : Result Config
  pub pgx : Pgx
  pub minio : Minio
  pub library : Library
  pub tracing : Option Error
  pub pages : Option Error
  pub ending : Ending

pub record Deps : Type 0 where
  pub repo : Option Repository
  pub storage : Option Bucket
  pub broker : Option Conn

abbrev no_deps : Deps
no_deps = record { repo = none; storage = none; broker = none }

module _ {A : Type 0} where
  abbrev where_set : Option A → List Act → List Act
  where_set none acts = []
  where_set (some a) acts = acts

-- An error of closing the connection is logged.
unfoldable pub close : Deps → List Act
close d =
    where_set d.broker (closed connection ∷ [])
    ++ (where_set d.storage S3.close ++ where_set d.repo Postgres.close)

unfoldable pub setup : Config → Answers → Life Deps
setup cfg a = started (Postgres.new cfg.db a.pgx) [] λ repo.
    let d = record no_deps { repo = some repo } in
    started (S3.new cfg.storage a.minio) (close d) λ storage.
      let d = record d { storage = some storage } in
      started (Broker.new cfg.amqp [] a.library) (close d)
        λ conn. (ok (record d { broker = some conn }), [])

-- The server is closed when no handler of a request is left.
abbrev ended : Bool → List Act
ended idle = if idle then closed server ∷ [] else []

-- From ListenAndServe on. Where Shutdown fails, Close ends the connections and not the handlers.
unfoldable pub serve : Ending → Life (Unit {0})
serve (listened none idle) = (ok tt, ended idle)
serve (listened (some e) idle) = (if is e server_closed then ok tt else err (wrap e), ended idle)
serve signalled = (ok tt, ended true)
serve (overdue e idle) = (err (wrap e), ended idle)

-- No handler of a request outlives `serve`.
abbrev pub IsDrained : Ending → Type 0
IsDrained (listened o idle) = idle ≡ true
IsDrained signalled = Unit
IsDrained (overdue e idle) = idle ≡ true

-- run with its deferred calls; the error of the router is wrapped by `router`.
unfoldable pub run : Answers → Life (Unit {0})
unfolding setup close serve
run a =
    passing (a.loaded, [])
      λ cfg. after (opened signals ∷ []) (
        deferred (closed signals ∷ []) (
          passing (setup cfg a) λ d. deferred (close d) (
            unless a.tracing [] (
              after (opened tracing ∷ []) (
                deferred (closed tracing ∷ [])
                  (unless a.pages [] (after (opened server ∷ []) (serve a.ending))))))))
