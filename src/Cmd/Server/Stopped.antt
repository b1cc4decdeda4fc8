-- ===== src/Cmd/Server/Stopped.antt =====
-- cmd/server/main.go: what is open when the process ends.
use gophprofile.Base.{◌≡◌, refl, Option, none, some, List, [], ◌∷◌, arith, inl, inr, Option-cases}
use gophprofile.Fault.{Error, ok}
use gophprofile.Config.{Config, Db, Storage, Amqp}
use gophprofile.Lifecycle.{
  Resource, Act, signals, pool, transport, connection, tracing, server, opened, closed, open_after,
}
use gophprofile.Lifecycle.Balanced.{
  Leaves, Leaves-closed, same-Leaves, started-ok, if-Leaves, open_after-append, error-Leaves,
  result-Leaves, after-Leaves, unless-Leaves, deferred-Leaves, started-Leaves, passing-Leaves,
}
use gophprofile.Broker.Headers.{RetryLevel}
use gophprofile.Postgres.Startup.{Pgx, Repository}
use gophprofile.Postgres.Startup as Postgres
use gophprofile.S3.Startup.{Minio, Bucket}
use gophprofile.S3.Startup as S3
use gophprofile.Broker.Connection.{Library, Conn, ConnOption}
use gophprofile.Broker.Connection as Broker
use gophprofile.Cmd.Server.{
  Answers, Ending, IsDrained, listened, signalled, overdue, Deps, close, setup, serve, run,
}

abbrev pub with_pool : List Resource
with_pool = pool ∷ signals ∷ []

abbrev pub with_storage : List Resource
with_storage = transport ∷ with_pool

abbrev pub with_broker : List Resource
with_broker = connection ∷ with_storage

pub repository-Leaves :
    (cfg : Db) (pgx : Pgx) → Leaves (signals ∷ []) (signals ∷ []) with_pool (Postgres.new cfg pgx)
unfolding Postgres.new open_after
repository-Leaves cfg pgx = unless-Leaves pgx.parsed [] _ refl (
    if-Leaves _ _ _ (error-Leaves refl) (
      unless-Leaves pgx.connected [] _ refl (
        after-Leaves (opened pool ∷ []) _ refl
          (unless-Leaves pgx.pinged Postgres.close _ refl (result-Leaves refl)))))

checked-Leaves :
    (cfg : Storage) (o : Option Error)
    → Leaves with_storage with_pool with_storage (S3.checked cfg o)
unfolding open_after
checked-Leaves cfg none = result-Leaves refl
checked-Leaves cfg (some e) = error-Leaves refl

pub storage-Leaves :
    (cfg : Storage) (minio : Minio) → Leaves with_pool with_pool with_storage (S3.new cfg minio)
unfolding S3.new open_after
storage-Leaves cfg minio = unless-Leaves minio.made [] _ refl (
    after-Leaves (opened transport ∷ []) _ refl (checked-Leaves cfg (S3.check_bucket minio.exists)))

declare-acts :
    (levels : List RetryLevel) (a : Library)
    → open_after (Broker.declare levels a).acts with_broker ≡ some with_broker
unfolding Broker.declare open_after
declare-acts levels a = elim (Option-cases a.channel_opened) [
  | inl e ↦ rw e refl
  | inr (x, e) ↦ rw e refl
]

ended-Leaves :
    (c : Conn) (acts : List Act) (o : Option Error)
    → open_after acts with_broker ≡ some with_broker
    → Leaves with_broker with_storage with_broker (Broker.ended c acts o)
unfolding open_after
ended-Leaves c acts none h = result-Leaves h
ended-Leaves c acts (some e) h =
    error-Leaves (open_after-append acts (closed connection ∷ []) with_broker with_broker h)

pub broker-Leaves :
    (cfg : Amqp) (options : List ConnOption) (a : Library)
    → Leaves with_storage with_storage with_broker (Broker.new cfg options a)
unfolding Broker.new open_after
broker-Leaves cfg options a =
    unless-Leaves a.dialled [] _ refl
      (after-Leaves (opened connection ∷ []) _ refl (ended-Leaves _ _ _ (declare-acts _ a)))

setup-Leaves :
    (cfg : Config) (a : Answers) → Leaves (signals ∷ []) (signals ∷ []) with_broker (setup cfg a)
unfolding setup close open_after
setup-Leaves cfg a =
    started-Leaves _ _ _ (signals ∷ []) with_pool (repository-Leaves cfg.db a.pgx) refl λ repo.
      started-Leaves _ _ _ with_pool with_storage (storage-Leaves cfg.storage a.minio) refl
        λ storage.
          started-Leaves _ _ _ with_storage with_broker (broker-Leaves cfg.amqp [] a.library) refl
            λ conn. result-Leaves refl

serve-Leaves :
    (e : Ending)
    → IsDrained e
    → Leaves
        (server ∷ tracing ∷ with_broker)
        (tracing ∷ with_broker)
        (tracing ∷ with_broker)
        (serve e)
unfolding serve open_after
serve-Leaves (listened none idle) h = rw h (result-Leaves refl)
serve-Leaves (listened (some e) idle) h = rw h (same-Leaves _ refl)
serve-Leaves signalled h = result-Leaves refl
serve-Leaves (overdue e idle) h = rw h (error-Leaves refl)

setup-close :
    (cfg : Config) (a : Answers) (d : Deps)
    → (setup cfg a).0 ≡ ok d
    → close d ≡ closed connection ∷ closed transport ∷ closed pool ∷ []
unfolding setup close
setup-close cfg a d h =
    let (repo, h1) = started-ok (Postgres.new cfg.db a.pgx) _ _ d h in
    let (storage, h2) = started-ok (S3.new cfg.storage a.minio) _ _ d h1 in
    let (conn, h3) = started-ok (Broker.new cfg.amqp [] a.library) _ _ d h2 in ground arith

close-all :
    (cfg : Config) (a : Answers) (d : Deps)
    → (setup cfg a).0 ≡ ok d
    → open_after (close d) with_broker ≡ some (signals ∷ [])
unfolding open_after
close-all cfg a d h = rw (setup-close cfg a d h) refl

run-Leaves : (a : Answers) → IsDrained a.ending → Leaves [] [] [] (run a)
unfolding run open_after
run-Leaves a n =
    passing-Leaves (a.loaded, []) _ [] (same-Leaves _ refl)
      λ cfg h. after-Leaves (opened signals ∷ []) _ refl (
        deferred-Leaves (closed signals ∷ []) _ (signals ∷ []) (signals ∷ [])
          (passing-Leaves (setup cfg a) _ with_broker (setup-Leaves cfg a) λ d g.
            deferred-Leaves (close d) _ with_broker with_broker
              (unless-Leaves a.tracing [] _ refl (
                after-Leaves (opened tracing ∷ []) _ refl (
                  deferred-Leaves (closed tracing ∷ []) _ (tracing ∷ with_broker)
                    (tracing ∷ with_broker)
                    (unless-Leaves a.pages [] _ refl
                      (after-Leaves (opened server ∷ []) _ refl (serve-Leaves a.ending n)))
                    refl refl)))
              (close-all cfg a d g) (close-all cfg a d g))
          refl refl)

-- However the server ends, with an error at any point of its start, with one of the listener or after a
-- signal, whatever it has opened is closed, each once, and nothing is closed while something open works
-- with it: unless handlers of requests are still at work after the listener has ended by itself or
-- after Shutdown has run out of time.
pub server_run-closed : (a : Answers) → IsDrained a.ending → open_after (run a).1 [] ≡ some []
server_run-closed a n = Leaves-closed (run a) (run-Leaves a n)
