-- ===== src/Config/Load.antt =====
-- internal/config/config.go: load, and what each binary loads and validates.
use gophprofile.Base.{String, false, List, [], ◌∷◌, ℤ, pos, str_eq, if◌then◌else◌}
use gophprofile.Config.{
  Format, format_json, format_text, App, Http, RateLimit, Db, Storage, Amqp, Otel, Image, Worker,
  Config, Problem,
}
use gophprofile.Config.Names.{
  env_app_env, env_log_level, env_log_format, env_http_addr, env_http_read_header_timeout,
  env_http_read_timeout, env_http_write_timeout, env_http_idle_timeout, env_http_shutdown_timeout,
  env_http_request_timeout, env_rate_limit_rps, env_rate_limit_burst, env_database_dsn,
  env_db_max_conns, env_db_query_timeout, env_s3_endpoint, env_s3_access_key, env_s3_secret_key,
  env_s3_bucket, env_s3_region, env_s3_use_ssl, env_s3_timeout, env_amqp_url, env_amqp_prefetch,
  env_amqp_timeout, env_otel_endpoint, env_otel_insecure, env_otel_sample_ratio,
  env_image_max_upload_bytes, env_image_max_pixels, env_image_jpeg_quality,
  env_worker_process_timeout, env_worker_reconcile_interval, env_worker_stuck_after,
  env_worker_reconcile_batch, env_worker_decode_concurrency, env_worker_metrics_addr,
  env_worker_shutdown_timeout,
}
use gophprofile.Config.Defaults.{
  env_local, default_http_addr, default_http_read_timeout, default_http_read_header_timeout,
  default_http_write_timeout, default_http_idle_timeout, default_http_shutdown_timeout,
  default_http_request_timeout, default_db_max_conns, default_db_query_timeout, default_s3_bucket,
  default_s3_region, default_s3_use_ssl, default_s3_timeout, default_amqp_prefetch,
  default_amqp_timeout, default_otel_sample_ratio, default_image_max_upload_bytes,
  default_image_max_pixels, default_image_jpeg_quality, default_worker_process_timeout,
  default_worker_reconcile_interval, default_worker_stuck_after, default_worker_reconcile_batch,
  default_worker_decode_concurrency, default_worker_metrics_addr, default_worker_shutdown_timeout,
  default_rate_limit_rps, default_rate_limit_burst,
}
use gophprofile.Config.Reader.{
  Env, Parsers, Reader, done, ◌>>=◌, str, integer, integer64, boolean, format, float, duration,
  level,
}
use gophprofile.Config.Validation.{
  join, validate_app, validate_http, validate_rate_limit, validate_db, validate_storage,
  validate_amqp, validate_otel, validate_image, validate_worker,
}

-- A configuration, or the problems that the error joins.
pub data Loaded : Type 0 where
  loaded : Config → Loaded
  refused : List Problem → Loaded

-- slog.LevelInfo
abbrev level_info : ℤ
level_info = pos 0

unfoldable pub default_log_format : String → Format
default_log_format app_env = if str_eq app_env env_local then format_text else format_json

module _ (parsers : Parsers) (env : Env) where
  abbrev read_app : Reader App
  read_app = do
    app_env ← str env env_app_env env_local
    log_level ← level parsers env env_log_level level_info
    log_format ← format env env_log_format (default_log_format app_env)
    done record { env = app_env; log_level = log_level; log_format = log_format }

  abbrev read_http : Reader Http
  read_http = do
    addr ← str env env_http_addr default_http_addr
    read_header_timeout ←
        duration parsers env env_http_read_header_timeout default_http_read_header_timeout
    read_timeout ← duration parsers env env_http_read_timeout default_http_read_timeout
    write_timeout ← duration parsers env env_http_write_timeout default_http_write_timeout
    idle_timeout ← duration parsers env env_http_idle_timeout default_http_idle_timeout
    shutdown_timeout ← duration parsers env env_http_shutdown_timeout default_http_shutdown_timeout
    request_timeout ← duration parsers env env_http_request_timeout default_http_request_timeout
    done record {
      addr = addr;
      read_header_timeout = read_header_timeout;
      read_timeout = read_timeout;
      write_timeout = write_timeout;
      idle_timeout = idle_timeout;
      shutdown_timeout = shutdown_timeout;
      request_timeout = request_timeout;
    }

  abbrev read_rate_limit : Reader RateLimit
  read_rate_limit = do
    rps ← float parsers env env_rate_limit_rps default_rate_limit_rps
    burst ← integer env env_rate_limit_burst default_rate_limit_burst
    done record { rps = rps; burst = burst }

  abbrev read_db : Reader Db
  read_db = do
    dsn ← str env env_database_dsn ""
    max_conns ← integer env env_db_max_conns default_db_max_conns
    query_timeout ← duration parsers env env_db_query_timeout default_db_query_timeout
    done record { dsn = dsn; max_conns = max_conns; query_timeout = query_timeout }

  abbrev read_storage : Reader Storage
  read_storage = do
    endpoint ← str env env_s3_endpoint ""
    access_key ← str env env_s3_access_key ""
    secret_key ← str env env_s3_secret_key ""
    bucket ← str env env_s3_bucket default_s3_bucket
    region ← str env env_s3_region default_s3_region
    use_ssl ← boolean env env_s3_use_ssl default_s3_use_ssl
    timeout ← duration parsers env env_s3_timeout default_s3_timeout
    done record {
      endpoint = endpoint;
      access_key = access_key;
      secret_key = secret_key;
      bucket = bucket;
      region = region;
      use_ssl = use_ssl;
      timeout = timeout;
    }

  abbrev read_amqp : Reader Amqp
  read_amqp = do
    url ← str env env_amqp_url ""
    prefetch ← integer env env_amqp_prefetch default_amqp_prefetch
    timeout ← duration parsers env env_amqp_timeout default_amqp_timeout
    done record { url = url; prefetch = prefetch; timeout = timeout }

  abbrev read_otel : Reader Otel
  read_otel = do
    endpoint ← str env env_otel_endpoint ""
    insecure ← boolean env env_otel_insecure false
    sample_ratio ← float parsers env env_otel_sample_ratio default_otel_sample_ratio
    done record { endpoint = endpoint; insecure = insecure; sample_ratio = sample_ratio }

  abbrev read_image : Reader Image
  read_image = do
    max_upload_bytes ← integer64 env env_image_max_upload_bytes default_image_max_upload_bytes
    max_pixels ← integer64 env env_image_max_pixels default_image_max_pixels
    jpeg_quality ← integer env env_image_jpeg_quality default_image_jpeg_quality
    done record {
      max_upload_bytes = max_upload_bytes;
      max_pixels = max_pixels;
      jpeg_quality = jpeg_quality;
    }

  abbrev read_worker : Reader Worker
  read_worker = do
    process_timeout ← duration parsers env env_worker_process_timeout default_worker_process_timeout
    reconcile_interval ←
        duration parsers env env_worker_reconcile_interval default_worker_reconcile_interval
    stuck_after ← duration parsers env env_worker_stuck_after default_worker_stuck_after
    reconcile_batch ← integer env env_worker_reconcile_batch default_worker_reconcile_batch
    decode_concurrency ← integer env env_worker_decode_concurrency default_worker_decode_concurrency
    metrics_addr ← str env env_worker_metrics_addr default_worker_metrics_addr
    shutdown_timeout ←
        duration parsers env env_worker_shutdown_timeout default_worker_shutdown_timeout
    done record {
      process_timeout = process_timeout;
      reconcile_interval = reconcile_interval;
      stuck_after = stuck_after;
      reconcile_batch = reconcile_batch;
      decode_concurrency = decode_concurrency;
      metrics_addr = metrics_addr;
      shutdown_timeout = shutdown_timeout;
    }

  unfoldable pub read : Reader Config
  unfolding default_log_format str integer integer64 boolean format float duration level
  read = do
    app ← read_app
    http ← read_http
    rate_limit ← read_rate_limit
    db ← read_db
    storage ← read_storage
    amqp ← read_amqp
    otel ← read_otel
    image ← read_image
    worker ← read_worker
    done record {
      app = app;
      http = http;
      rate_limit = rate_limit;
      db = db;
      storage = storage;
      amqp = amqp;
      otel = otel;
      image = image;
      worker = worker;
    }

-- `if err := errors.Join(…); err != nil { return nil, err }; return cfg, nil`
unfoldable pub unless : List Problem → Config → Loaded
unless [] cfg = loaded cfg
unless (p ∷ ps) cfg = refused (p ∷ ps)

-- `cfg, err := load(env)` and what follows where it did not fail
unfoldable pub checked : (Config → List Problem) → Loaded → Loaded
unfolding unless
checked validate (loaded cfg) = unless (validate cfg) cfg
checked validate (refused ps) = refused ps

unfoldable pub validate_server : Config → List Problem
validate_server cfg = join (
    validate_app cfg.app
    ∷ validate_http cfg.http
    ∷ validate_rate_limit cfg.rate_limit
    ∷ validate_db cfg.db
    ∷ validate_storage cfg.storage
    ∷ validate_amqp cfg.amqp
    ∷ validate_otel cfg.otel
    ∷ validate_image cfg.image
    ∷ [])

unfoldable pub validate_worker_config : Config → List Problem
validate_worker_config cfg = join (
    validate_app cfg.app
    ∷ validate_db cfg.db
    ∷ validate_storage cfg.storage
    ∷ validate_amqp cfg.amqp
    ∷ validate_otel cfg.otel
    ∷ validate_image cfg.image
    ∷ validate_worker cfg.worker
    ∷ [])

unfoldable pub validate_migrator : Config → List Problem
validate_migrator cfg = join (validate_app cfg.app ∷ validate_db cfg.db ∷ [])

module _ (parsers : Parsers) (env : Env) where
  unfoldable pub load : Loaded
  unfolding read unless
  load = let (cfg, errs) = read parsers env [] in unless errs cfg

  unfoldable pub load_server : Loaded
  unfolding load checked validate_server
  load_server = checked validate_server load

  unfoldable pub load_worker : Loaded
  unfolding load checked validate_worker_config
  load_worker = checked validate_worker_config load

  unfoldable pub load_migrator : Loaded
  unfolding load checked validate_migrator
  load_migrator = checked validate_migrator load
