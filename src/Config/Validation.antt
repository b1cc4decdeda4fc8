-- ===== src/Config/Validation.antt =====
-- internal/config/config.go: the validation of the sections. An error is the list of its problems,
-- `[]` for nil.
use gophprofile.Base.{
  String, ◌||◌, not, List, [], ◌∷◌, ◌++◌, ℤ, at_most, is_negative, str_eq, if◌then◌else◌,
}
use gophprofile.Config.{
  App, Http, RateLimit, Db, Storage, Amqp, Otel, Image, Worker, Problem, not_one_of, is_required,
  must_be_positive, must_be_zero_or_positive, must_be_between_0_and_1, must_be_at_most,
}
use gophprofile.Config.Names.{
  env_app_env, env_http_addr, env_http_read_header_timeout, env_http_read_timeout,
  env_http_write_timeout, env_http_idle_timeout, env_http_shutdown_timeout,
  env_http_request_timeout, env_rate_limit_rps, env_rate_limit_burst, env_database_dsn,
  env_db_max_conns, env_db_query_timeout, env_s3_endpoint, env_s3_access_key, env_s3_secret_key,
  env_s3_bucket, env_s3_region, env_s3_timeout, env_amqp_url, env_amqp_prefetch, env_amqp_timeout,
  env_otel_sample_ratio, env_image_max_upload_bytes, env_image_max_pixels, env_image_jpeg_quality,
  env_worker_process_timeout, env_worker_reconcile_interval, env_worker_stuck_after,
  env_worker_reconcile_batch, env_worker_decode_concurrency, env_worker_metrics_addr,
  env_worker_shutdown_timeout,
}
use gophprofile.Config.Defaults.{Duration, env_local, env_production, max_jpeg_quality}
use gophprofile.Config.Numbers.{is_nan, below_zero, above_one}

-- errors.Join
unfoldable pub join : List (List Problem) → List Problem
join [] = []
join (err ∷ errs) = err ++ join errs

unfoldable pub required : String → String → List Problem
required key value = if str_eq value "" then is_required key ∷ [] else []

unfoldable pub positive : String → ℤ → List Problem
positive key value = if at_most value 0 then must_be_positive key ∷ [] else []

unfoldable pub positive_duration : String → Duration → List Problem
positive_duration key value = if at_most value 0 then must_be_positive key ∷ [] else []

unfoldable pub validate_app : App → List Problem
validate_app c =
    if str_eq c.env env_local || str_eq c.env env_production
    then []
    else not_one_of env_app_env ∷ []

unfoldable pub validate_http : Http → List Problem
validate_http c = join (
    required env_http_addr c.addr
    ∷ positive_duration env_http_read_header_timeout c.read_header_timeout
    ∷ positive_duration env_http_read_timeout c.read_timeout
    ∷ positive_duration env_http_write_timeout c.write_timeout
    ∷ positive_duration env_http_idle_timeout c.idle_timeout
    ∷ positive_duration env_http_shutdown_timeout c.shutdown_timeout
    ∷ positive_duration env_http_request_timeout c.request_timeout
    ∷ [])

unfoldable pub validate_rate_limit : RateLimit → List Problem
validate_rate_limit c =
    if is_nan c.rps || below_zero c.rps
    then must_be_zero_or_positive env_rate_limit_rps ∷ []
    else if is_negative c.burst
    then must_be_zero_or_positive env_rate_limit_burst ∷ []
    else []

unfoldable pub validate_db : Db → List Problem
validate_db c = join (
    required env_database_dsn c.dsn
    ∷ positive env_db_max_conns c.max_conns
    ∷ positive_duration env_db_query_timeout c.query_timeout
    ∷ [])

unfoldable pub validate_storage : Storage → List Problem
validate_storage c = join (
    required env_s3_endpoint c.endpoint
    ∷ required env_s3_access_key c.access_key
    ∷ required env_s3_secret_key c.secret_key
    ∷ required env_s3_bucket c.bucket
    ∷ required env_s3_region c.region
    ∷ positive_duration env_s3_timeout c.timeout
    ∷ [])

unfoldable pub validate_amqp : Amqp → List Problem
validate_amqp c = join (
    required env_amqp_url c.url
    ∷ positive env_amqp_prefetch c.prefetch
    ∷ positive_duration env_amqp_timeout c.timeout
    ∷ [])

unfoldable pub validate_otel : Otel → List Problem
validate_otel c =
    if is_nan c.sample_ratio || below_zero c.sample_ratio || above_one c.sample_ratio
    then must_be_between_0_and_1 env_otel_sample_ratio ∷ []
    else []

unfoldable pub validate_image : Image → List Problem
validate_image c =
    let err = join (
      positive env_image_max_upload_bytes c.max_upload_bytes
      ∷ positive env_image_max_pixels c.max_pixels
      ∷ positive env_image_jpeg_quality c.jpeg_quality
      ∷ []) in
    if not (at_most c.jpeg_quality max_jpeg_quality)
    then join (err ∷ (must_be_at_most env_image_jpeg_quality ∷ []) ∷ [])
    else err

unfoldable pub validate_worker : Worker → List Problem
validate_worker c = join (
    positive_duration env_worker_process_timeout c.process_timeout
    ∷ positive_duration env_worker_reconcile_interval c.reconcile_interval
    ∷ positive_duration env_worker_stuck_after c.stuck_after
    ∷ positive env_worker_reconcile_batch c.reconcile_batch
    ∷ positive env_worker_decode_concurrency c.decode_concurrency
    ∷ required env_worker_metrics_addr c.metrics_addr
    ∷ positive_duration env_worker_shutdown_timeout c.shutdown_timeout
    ∷ [])
