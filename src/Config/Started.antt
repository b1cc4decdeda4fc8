-- ===== src/Config/Started.antt =====
-- internal/config/config.go: what a binary may rely on in the configuration that it has loaded.
use gophprofile.Base.{Option, none, some, String, ◌≡◌, refl, ap, ◌≢◌, ◌↔◌, List, [], ◌∷◌, arith}
use gophprofile.Config.{Config, Problem}
use gophprofile.Config.Names.{
  env_database_dsn, env_s3_endpoint, env_s3_access_key, env_s3_secret_key, env_amqp_url,
}
use gophprofile.Config.Reader.{or_default, str, Env, Parsers}
use gophprofile.Config.Ready.{
  join_iff, IsReadyApp, IsReadyHttp, IsReadyRateLimit, IsReadyDb, IsReadyShared, IsReadyWorker,
  join-nil_iff, validate_app_iff, validate_http_iff, validate_rate_limit_iff, validate_db_iff,
  validate_storage_iff, validate_amqp_iff, validate_otel_iff, validate_image_iff,
  validate_worker_iff,
}
use gophprofile.Config.Validation.{validate_app, validate_db}
use gophprofile.Config.Load.{
  read, Loaded, loaded, refused, load, load_server, load_worker, load_migrator, checked, unless,
  validate_server, validate_worker_config, validate_migrator,
}

loaded-inj : (c d : Config) → loaded c ≡ loaded d → c ≡ d
loaded-inj c d h = cc h

unless_iff : (ps : List Problem) (c d : Config) → (unless ps c ≡ loaded d) ↔ ((ps ≡ []) × (c ≡ d))
unfolding unless
unless_iff [] c d = (λ h. (refl, loaded-inj c d h), λ h. ap loaded h.1)
unless_iff (p ∷ ps) c d = ground arith

checked_iff :
    (validate : Config → List Problem) (l : Loaded) (c : Config)
    → (checked validate l ≡ loaded c) ↔ ((l ≡ loaded c) × (validate c ≡ []))
unfolding checked
checked_iff validate (loaded d) c = ground (arith, unless_iff (validate d) d c)
checked_iff validate (refused ps) c = ground arith

validate_server_iff :
    (c : Config)
    → (validate_server c ≡ [])
      ↔ (IsReadyApp c.app × IsReadyHttp c.http × IsReadyRateLimit c.rate_limit × IsReadyShared c)
unfolding validate_server
validate_server_iff c = join_iff _ (
    ground (
      arith,
      validate_app_iff c.app,
      validate_http_iff c.http,
      validate_rate_limit_iff c.rate_limit,
      validate_db_iff c.db,
      validate_storage_iff c.storage,
      validate_amqp_iff c.amqp,
      validate_otel_iff c.otel,
      validate_image_iff c.image,
    ))

validate_worker_config_iff :
    (c : Config)
    → (validate_worker_config c ≡ [])
      ↔ (IsReadyApp c.app × IsReadyShared c × IsReadyWorker c.worker)
unfolding validate_worker_config
validate_worker_config_iff c = join_iff _ (
    ground (
      arith,
      validate_app_iff c.app,
      validate_db_iff c.db,
      validate_storage_iff c.storage,
      validate_amqp_iff c.amqp,
      validate_otel_iff c.otel,
      validate_image_iff c.image,
      validate_worker_iff c.worker,
    ))

-- The server starts with a configuration exactly when the environment can be read and every section
-- that it uses is ready: the address, the secrets, the bucket and the region are not empty, timeouts
-- and limits are positive, the quality of JPEG is at most 100, the rate is a number that is not
-- negative and the ratio of samples is one from 0 to 1.
pub load_server_iff :
    (parsers : Parsers) (env : Env) (c : Config)
    → (load_server parsers env ≡ loaded c) ↔ (
        (load parsers env ≡ loaded c)
        × IsReadyApp c.app
        × IsReadyHttp c.http
        × IsReadyRateLimit c.rate_limit
        × IsReadyShared c)
unfolding load_server
load_server_iff parsers env c =
    ground (arith, checked_iff validate_server (load parsers env) c, validate_server_iff c)

load_worker_iff :
    (parsers : Parsers) (env : Env) (c : Config)
    → (load_worker parsers env ≡ loaded c) ↔ (
        (load parsers env ≡ loaded c) × IsReadyApp c.app × IsReadyShared c × IsReadyWorker c.worker)
unfolding load_worker
load_worker_iff parsers env c =
    ground
      (arith, checked_iff validate_worker_config (load parsers env) c, validate_worker_config_iff c)

load_migrator_iff :
    (parsers : Parsers) (env : Env) (c : Config)
    → (load_migrator parsers env ≡ loaded c)
      ↔ ((load parsers env ≡ loaded c) × IsReadyApp c.app × IsReadyDb c.db)
unfolding load_migrator validate_migrator
load_migrator_iff parsers env c = ground (
  arith,
  checked_iff validate_migrator (load parsers env) c,
  join-nil_iff (validate_app c.app ∷ validate_db c.db ∷ []),
  validate_app_iff c.app,
  validate_db_iff c.db,
)

load-read :
    (parsers : Parsers) (env : Env) (c : Config)
    → load parsers env ≡ loaded c
    → (read parsers env []).0 ≡ c
unfolding load
load-read parsers env c h = ((unless_iff _ _ c).0 h).1

secret : (o : Option String) (s : String) → or_default "" o ≡ s → s ≢ "" → o ≡ some s
unfolding or_default
secret none s h g = ground arith
secret (some v) s h g = ap some h

-- What a started server takes for the secrets are the values of its environment, and none is empty:
-- the DSN of the database, the endpoint and both keys of the storage, and the URL of the broker.
pub load_server-secrets :
    (parsers : Parsers) (env : Env) (c : Config)
    → load_server parsers env ≡ loaded c
    → ((env env_database_dsn ≡ some c.db.dsn) × (c.db.dsn ≢ ""))
      × ((env env_s3_endpoint ≡ some c.storage.endpoint) × (c.storage.endpoint ≢ ""))
      × ((env env_s3_access_key ≡ some c.storage.access_key) × (c.storage.access_key ≢ ""))
      × ((env env_s3_secret_key ≡ some c.storage.secret_key) × (c.storage.secret_key ≢ ""))
      × ((env env_amqp_url ≡ some c.amqp.url) × (c.amqp.url ≢ ""))
unfolding read str
load_server-secrets parsers env c h =
    let r = (load_server_iff parsers env c).0 h in
    let e = load-read parsers env c r.0 in
    let (db, storage, amqp, otel, image) = r.4 in
    (
      (secret _ _ (ap (λ c. c.db.dsn) e) db.0, db.0),
      (secret _ _ (ap (λ c. c.storage.endpoint) e) storage.0, storage.0),
      (secret _ _ (ap (λ c. c.storage.access_key) e) storage.1, storage.1),
      (secret _ _ (ap (λ c. c.storage.secret_key) e) storage.2, storage.2),
      (secret _ _ (ap (λ c. c.amqp.url) e) amqp.0, amqp.0),
    )
