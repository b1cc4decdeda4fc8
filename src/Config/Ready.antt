-- ===== src/Config/Ready.antt =====
-- internal/config/config.go: what the validation of each section asks for.
use gophprofile.Base.{
  ℕ, ◌≤◌, String, ◌≡◌, ◌≢◌, ◌↔◌, ◌⊎◌, true, List, [], All, ◌∷◌, arith, ℤ, pos, negsuc, IsBetween,
  IsPositive, at_most, eq_iff,
}
use gophprofile.Config.{
  App, Http, RateLimit, Db, Storage, Amqp, Otel, Image, Worker, Config, Problem,
}
use gophprofile.Config.Defaults.{one, env_local, env_production, max_jpeg_quality}
use gophprofile.Config.Names.{
  env_http_addr, env_http_read_header_timeout, env_http_read_timeout, env_http_write_timeout,
  env_http_idle_timeout, env_http_shutdown_timeout, env_http_request_timeout, env_database_dsn,
  env_db_max_conns, env_db_query_timeout, env_s3_endpoint, env_s3_access_key, env_s3_secret_key,
  env_s3_bucket, env_s3_region, env_s3_timeout, env_amqp_url, env_amqp_prefetch, env_amqp_timeout,
  env_image_max_upload_bytes, env_image_max_pixels, env_image_jpeg_quality,
  env_worker_process_timeout, env_worker_reconcile_interval, env_worker_stuck_after,
  env_worker_reconcile_batch, env_worker_decode_concurrency, env_worker_metrics_addr,
  env_worker_shutdown_timeout,
}
use gophprofile.Config.Numbers.{magnitude, infinity, is_nan, below_zero, above_one}
use gophprofile.Config.Validation.{
  required, positive, positive_duration, validate_app, validate_http, validate_rate_limit, join,
  validate_db, validate_storage, validate_amqp, validate_otel, validate_image, validate_worker,
}

abbrev pub IsReadyApp : App → Type 0
IsReadyApp c = (c.env ≡ env_local) ⊎ (c.env ≡ env_production)

abbrev pub IsReadyHttp : Http → Type 0
IsReadyHttp c =
    (c.addr ≢ "")
    × IsPositive c.read_header_timeout
    × IsPositive c.read_timeout
    × IsPositive c.write_timeout
    × IsPositive c.idle_timeout
    × IsPositive c.shutdown_timeout
    × IsPositive c.request_timeout

-- A positive number, infinity, or one of the two zeros.
abbrev pub IsReadyRateLimit : RateLimit → Type 0
IsReadyRateLimit c = ((c.rps ≤ infinity) ⊎ (magnitude c.rps ≡ 0)) × ((n : ℕ) × (c.burst ≡ pos n))

abbrev pub IsReadyDb : Db → Type 0
IsReadyDb c = (c.dsn ≢ "") × IsPositive c.max_conns × IsPositive c.query_timeout

abbrev pub IsReadyStorage : Storage → Type 0
IsReadyStorage c =
    (c.endpoint ≢ "")
    × (c.access_key ≢ "")
    × (c.secret_key ≢ "")
    × (c.bucket ≢ "")
    × (c.region ≢ "")
    × IsPositive c.timeout

abbrev pub IsReadyAmqp : Amqp → Type 0
IsReadyAmqp c = (c.url ≢ "") × IsPositive c.prefetch × IsPositive c.timeout

-- The patterns from 0 to that of 1.0 are the numbers between; a zero may have a sign.
abbrev pub IsReadyOtel : Otel → Type 0
IsReadyOtel c = (c.sample_ratio ≤ one) ⊎ (magnitude c.sample_ratio ≡ 0)

abbrev pub IsReadyImage : Image → Type 0
IsReadyImage c =
    IsPositive c.max_upload_bytes
    × IsPositive c.max_pixels
    × IsBetween 1 max_jpeg_quality c.jpeg_quality

abbrev pub IsReadyWorker : Worker → Type 0
IsReadyWorker c =
    IsPositive c.process_timeout
    × IsPositive c.reconcile_interval
    × IsPositive c.stuck_after
    × IsPositive c.reconcile_batch
    × IsPositive c.decode_concurrency
    × (c.metrics_addr ≢ "")
    × IsPositive c.shutdown_timeout

-- What all binaries but the migrator use.
abbrev pub IsReadyShared : Config → Type 0
IsReadyShared c =
    IsReadyDb c.db
    × IsReadyStorage c.storage
    × IsReadyAmqp c.amqp
    × IsReadyOtel c.otel
    × IsReadyImage c.image

required_iff : (key value : String) → (required key value ≡ []) ↔ (value ≢ "")
unfolding required
required_iff key value = ground (arith, eq_iff value "")

positive_iff : (key : String) (value : ℤ) → (positive key value ≡ []) ↔ IsPositive value
unfolding positive
positive_iff key (pos n) = ground arith
positive_iff key (negsuc n) = ground arith

positive_duration_iff :
    (key : String) (value : ℤ) → (positive_duration key value ≡ []) ↔ IsPositive value
unfolding positive_duration
positive_duration_iff key (pos n) = ground arith
positive_duration_iff key (negsuc n) = ground arith

pub join-nil_iff : (errs : List (List Problem)) → (join errs ≡ []) ↔ All (λ err. err ≡ []) errs
unfolding join
join-nil_iff [] = ground arith
join-nil_iff ([] ∷ errs) = ground (arith, join-nil_iff errs)
join-nil_iff ((p ∷ ps) ∷ errs) = ground arith

pub join_iff {κ} :
    {P : Type κ} (errs : List (List Problem))
    → All (λ err. err ≡ []) errs ↔ P
    → (join errs ≡ []) ↔ P
unfolding join
join_iff errs f = ground (arith, join-nil_iff errs)

pub validate_app_iff : (c : App) → (validate_app c ≡ []) ↔ IsReadyApp c
unfolding validate_app
validate_app_iff c = ground (arith, eq_iff c.env env_local, eq_iff c.env env_production)

pub validate_rate_limit_iff : (c : RateLimit) → (validate_rate_limit c ≡ []) ↔ IsReadyRateLimit c
unfolding validate_rate_limit is_nan below_zero
validate_rate_limit_iff c = ground arith

pub validate_http_iff : (c : Http) → (validate_http c ≡ []) ↔ IsReadyHttp c
unfolding validate_http
validate_http_iff c = join_iff _ (
    ground (
      arith,
      required_iff env_http_addr c.addr,
      positive_duration_iff env_http_read_header_timeout c.read_header_timeout,
      positive_duration_iff env_http_read_timeout c.read_timeout,
      positive_duration_iff env_http_write_timeout c.write_timeout,
      positive_duration_iff env_http_idle_timeout c.idle_timeout,
      positive_duration_iff env_http_shutdown_timeout c.shutdown_timeout,
      positive_duration_iff env_http_request_timeout c.request_timeout,
    ))

pub validate_db_iff : (c : Db) → (validate_db c ≡ []) ↔ IsReadyDb c
unfolding join validate_db
validate_db_iff c = ground (
  arith,
  required_iff env_database_dsn c.dsn,
  positive_iff env_db_max_conns c.max_conns,
  positive_duration_iff env_db_query_timeout c.query_timeout,
)

pub validate_storage_iff : (c : Storage) → (validate_storage c ≡ []) ↔ IsReadyStorage c
unfolding join validate_storage
validate_storage_iff c = ground (
  arith,
  required_iff env_s3_endpoint c.endpoint,
  required_iff env_s3_access_key c.access_key,
  required_iff env_s3_secret_key c.secret_key,
  required_iff env_s3_bucket c.bucket,
  required_iff env_s3_region c.region,
  positive_duration_iff env_s3_timeout c.timeout,
)

pub validate_amqp_iff : (c : Amqp) → (validate_amqp c ≡ []) ↔ IsReadyAmqp c
unfolding join validate_amqp
validate_amqp_iff c = ground (
  arith,
  required_iff env_amqp_url c.url,
  positive_iff env_amqp_prefetch c.prefetch,
  positive_duration_iff env_amqp_timeout c.timeout,
)

pub validate_otel_iff : (c : Otel) → (validate_otel c ≡ []) ↔ IsReadyOtel c
unfolding validate_otel is_nan below_zero above_one
validate_otel_iff c = ground arith

pub validate_worker_iff : (c : Worker) → (validate_worker c ≡ []) ↔ IsReadyWorker c
unfolding join validate_worker
validate_worker_iff c = ground (
  arith,
  positive_duration_iff env_worker_process_timeout c.process_timeout,
  positive_duration_iff env_worker_reconcile_interval c.reconcile_interval,
  positive_duration_iff env_worker_stuck_after c.stuck_after,
  positive_iff env_worker_reconcile_batch c.reconcile_batch,
  positive_iff env_worker_decode_concurrency c.decode_concurrency,
  required_iff env_worker_metrics_addr c.metrics_addr,
  positive_duration_iff env_worker_shutdown_timeout c.shutdown_timeout,
)

positive-at_most_iff :
    (key : String) (value : ℤ) (bound : ℕ)
    → ((positive key value ≡ []) × (at_most value bound ≡ true)) ↔ IsBetween 1 bound value
unfolding positive
positive-at_most_iff key (pos n) bound = ground arith
positive-at_most_iff key (negsuc n) bound = ground arith

pub validate_image_iff : (c : Image) → (validate_image c ≡ []) ↔ IsReadyImage c
unfolding join validate_image
validate_image_iff c = ground (
  arith,
  positive_iff env_image_max_upload_bytes c.max_upload_bytes,
  positive_iff env_image_max_pixels c.max_pixels,
  positive-at_most_iff env_image_jpeg_quality c.jpeg_quality max_jpeg_quality,
)
