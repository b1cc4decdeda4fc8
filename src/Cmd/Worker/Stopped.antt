-- ===== src/Cmd/Worker/Stopped.antt =====
-- cmd/worker/main.go: what is open when the process ends.
use gophprofile.Base.{◌≡◌, ◌≢◌, ◌⊎◌, inl, inr, refl, none, some, List, [], ◌∷◌, arith}
use gophprofile.Fault.{ok}
use gophprofile.Config.{Config}
use gophprofile.Lifecycle.{
  Resource, signals, pool, transport, connection, tracing, metrics_server, reconciler, consumer,
  opened, closed, open_after,
}
use gophprofile.Lifecycle.Balanced.{
  Leaves, Leaves-closed, passing-ok, unless-ok, same-Leaves, result-Leaves, started-ok,
  after-Leaves, unless-Leaves, deferred-Leaves, started-Leaves, passing-Leaves,
}
use gophprofile.Postgres.Startup as Postgres
use gophprofile.S3.Startup as S3
use gophprofile.Broker.Connection as Broker
use gophprofile.Cmd.Server.Stopped.{
  with_pool, with_storage, with_broker, repository-Leaves, storage-Leaves, broker-Leaves,
}
use gophprofile.Cmd.Worker.{
  Answers, Ending, consumed, metrics_failed, drained, timed_out, Deps, close, setup, wait,
  shut_down, run, options,
}

setup-Leaves :
    (cfg : Config) (a : Answers) → Leaves (signals ∷ []) (signals ∷ []) with_broker (setup cfg a)
unfolding setup close open_after
setup-Leaves cfg a =
    started-Leaves _ _ _ (signals ∷ []) with_pool (repository-Leaves cfg.db a.pgx) refl λ repo.
      started-Leaves _ _ _ with_pool with_storage (storage-Leaves cfg.storage a.minio) refl
        λ storage.
          started-Leaves _ _ _ with_storage with_broker
            (broker-Leaves cfg.amqp (options cfg) a.library) refl
            λ conn.
              started-Leaves (Broker.consumer conn a.consumer_opened, []) _ _ with_broker
                with_broker (same-Leaves _ refl) refl λ c. result-Leaves refl

setup-close :
    (cfg : Config) (a : Answers) (d : Deps)
    → (setup cfg a).0 ≡ ok d
    → close d ≡ closed connection ∷ closed transport ∷ closed pool ∷ []
unfolding setup close
setup-close cfg a d h =
    let (repo, h1) = started-ok (Postgres.new cfg.db a.pgx) _ _ d h in
    let (storage, h2) = started-ok (S3.new cfg.storage a.minio) _ _ d h1 in
    let (conn, h3) = started-ok (Broker.new cfg.amqp (options cfg) a.library) _ _ d h2 in
    let (c, h4) = started-ok (Broker.consumer conn a.consumer_opened, []) _ _ d h3 in ground arith

close-all :
    (cfg : Config) (a : Answers) (d : Deps)
    → (setup cfg a).0 ≡ ok d
    → open_after (close d) with_broker ≡ some (signals ∷ [])
unfolding open_after
close-all cfg a d h = rw (setup-close cfg a d h) refl

abbrev at_work : List Resource
at_work = metrics_server ∷ reconciler ∷ tracing ∷ with_broker

wait-Leaves : (e : Ending) → e ≢ timed_out → Leaves (consumer ∷ at_work) at_work at_work (wait e)
unfolding wait open_after
wait-Leaves (consumed o) h = same-Leaves _ refl
wait-Leaves (metrics_failed e o) h = same-Leaves _ refl
wait-Leaves (drained o) h = same-Leaves _ refl
wait-Leaves timed_out h = absurd (h refl)

run-Leaves :
    (a : Answers) → a.ending ≢ timed_out → a.metrics_shutdown ≡ none → Leaves [] [] [] (run a)
unfolding run open_after
run-Leaves a n m =
    passing-Leaves (a.loaded, []) _ [] (same-Leaves _ refl)
      λ cfg h. after-Leaves (opened signals ∷ []) _ refl (
        deferred-Leaves (closed signals ∷ []) _ (signals ∷ []) (signals ∷ [])
          (passing-Leaves (setup cfg a) _ with_broker (setup-Leaves cfg a) λ d g.
            deferred-Leaves (close d) _ with_broker with_broker
              (unless-Leaves a.tracing [] _ refl (
                after-Leaves (opened tracing ∷ []) _ refl (
                  deferred-Leaves (closed tracing ∷ []) _ (tracing ∷ with_broker)
                    (tracing ∷ with_broker)
                    (after-Leaves (opened reconciler ∷ opened metrics_server ∷ opened consumer ∷ [])
                      _ refl
                      (deferred-Leaves (closed reconciler ∷ shut_down a.metrics_shutdown) _ at_work
                        at_work (wait-Leaves a.ending n) (rw m refl) (rw m refl)))
                    refl refl)))
              (close-all cfg a d g) (close-all cfg a d g))
          refl refl)

-- However the worker ends, with an error at any point of its start or after it, or after a signal,
-- whatever it has opened is closed, each once, and nothing is closed while something open works with
-- it: unless the time for the messages at work has run out, or that for the handlers of the metrics
-- server.
pub worker_run-closed :
    (a : Answers)
    → a.ending ≢ timed_out
    → a.metrics_shutdown ≡ none
    → open_after (run a).1 [] ≡ some []
worker_run-closed a n m = Leaves-closed (run a) (run-Leaves a n m)

wait-ok : (e : Ending) → (wait e).0 ≡ ok tt → (e ≡ consumed none) ⊎ (e ≡ drained none)
unfolding wait
wait-ok (consumed none) h = inl refl
wait-ok (consumed (some e)) h = ground arith
wait-ok (metrics_failed e o) h = ground arith
wait-ok (drained none) h = inr refl
wait-ok (drained (some e)) h = ground arith
wait-ok timed_out h = ground arith

-- The worker ends without an error only if Consume has ended without one, before a signal or in time
-- after it.
pub run-consumed :
    (a : Answers) → (run a).0 ≡ ok tt → (a.ending ≡ consumed none) ⊎ (a.ending ≡ drained none)
unfolding run
run-consumed a h =
    let (cfg, h1) = passing-ok (a.loaded, []) _ tt h in
    let (d, h2) = passing-ok (setup cfg a) _ tt h1 in
    wait-ok a.ending (unless-ok a.tracing [] _ tt h2)
