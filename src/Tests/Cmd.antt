-- ===== src/Tests/Cmd.antt =====
-- The theorems on cmd at one start of each process.
use gophprofile.Base.{◌≡◌, refl, none, some, [], ◌∷◌, true, false}
use gophprofile.Fault.{ok, err, wrap, foreign}
use gophprofile.Config.Load.{read}
use gophprofile.Lifecycle.{open_after, opened, closed, signals, pool, transport}
use gophprofile.Broker.Topology.{declare_topology}
use gophprofile.Broker.Topology.Delays.{new_retry_levels}
use gophprofile.Postgres.Startup as Postgres
use gophprofile.Postgres.Startup.{Pgx}
use gophprofile.S3.Startup as S3
use gophprofile.S3.Startup.{Minio}
use gophprofile.Broker.Connection as Broker
use gophprofile.Broker.Connection.{Library}
use gophprofile.Cmd.Server as Server
use gophprofile.Cmd.Server.Stopped.{server_run-closed}
use gophprofile.Cmd.Worker as Worker
use gophprofile.Cmd.Worker.Stopped.{worker_run-closed}
use gophprofile.Cmd.Migrator as Migrator
use gophprofile.Cmd.Migrator.Stopped.{first_error, steps, migrator_run-first_error}
use gophprofile.Tests.Topology.{healthy}
use gophprofile.Tests.Config.{defaults}

abbrev pgx : Pgx
pgx = record { parsed = none; connected = none; pinged = none }

abbrev minio : Minio
minio = record { made = none; exists = ok true }

abbrev server : Server.Answers
server = record {
  loaded = ok defaults;
  pgx = pgx;
  minio = minio;
  library = healthy;
  tracing = none;
  pages = none;
  ending = Server.overdue (foreign 3) true;
}

server_run-closed_example : open_after (Server.run server).1 [] ≡ some []
server_run-closed_example = server_run-closed server refl

-- The bucket is not there: the pool is closed again.
without_bucket :
    (Server.run (record server { minio = record minio { exists = ok false } })).1
    ≡ opened signals
      ∷ opened pool
      ∷ opened transport
      ∷ closed transport
      ∷ closed pool
      ∷ closed signals
      ∷ []
unfolding Server.run Postgres.new S3.new S3.check_bucket read
without_bucket = refl

abbrev worker : Worker.Answers
worker = record {
  loaded = ok defaults;
  pgx = pgx;
  minio = minio;
  library = healthy;
  consumer_opened = none;
  tracing = none;
  ending = Worker.drained none;
  metrics_shutdown = none;
}

worker_run-closed_example : open_after (Worker.run worker).1 [] ≡ some []
worker_run-closed_example = worker_run-closed worker (λ e. cc) refl

worker_ends : (Worker.run worker).0 ≡ ok tt
unfolding Worker.run Worker.setup Worker.wait Postgres.new S3.new S3.check_bucket Broker.new
    Broker.declare Broker.close_channel Broker.consumer declare_topology new_retry_levels read
worker_ends = refl

-- The database cannot be closed after a migration has failed.
abbrev migrator : Migrator.Answers
migrator = record {
  loaded = ok defaults;
  sql_opened = none;
  ping = none;
  goose = record { provider = none; applied = err (foreign 1) };
  db_closed = some (foreign 2);
}

migrator_run-first_error_example :
    (open_after (Migrator.run migrator).1 [] ≡ some [])
    × ((Migrator.run migrator).0 ≡ first_error (steps migrator))
migrator_run-first_error_example = migrator_run-first_error migrator

migration_fails : (Migrator.run migrator).0 ≡ err (wrap (foreign 1))
unfolding Migrator.run Migrator.up read
migration_fails = refl

-- Handlers that are still at work have the connection, the storage and the pool closed under them.
abandoned :
    open_after (Server.run (record server { ending = Server.overdue (foreign 3) false })).1 []
    ≡ none
unfolding Server.run Server.setup Server.close Server.serve Postgres.new S3.new S3.check_bucket
    Broker.new Broker.declare Broker.close_channel declare_topology new_retry_levels read open_after
abandoned = refl
