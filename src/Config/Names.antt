-- ===== src/Config/Names.antt =====
-- internal/config/config.go: the names of the variables of the environment.
use gophprofile.Base.{String}

abbrev pub env_app_env : String
env_app_env = "APP_ENV"

abbrev pub env_log_level : String
env_log_level = "LOG_LEVEL"

abbrev pub env_log_format : String
env_log_format = "LOG_FORMAT"

abbrev pub env_http_addr : String
env_http_addr = "HTTP_ADDR"

abbrev pub env_http_read_header_timeout : String
env_http_read_header_timeout = "HTTP_READ_HEADER_TIMEOUT"

abbrev pub env_http_read_timeout : String
env_http_read_timeout = "HTTP_READ_TIMEOUT"

abbrev pub env_http_write_timeout : String
env_http_write_timeout = "HTTP_WRITE_TIMEOUT"

abbrev pub env_http_idle_timeout : String
env_http_idle_timeout = "HTTP_IDLE_TIMEOUT"

abbrev pub env_http_shutdown_timeout : String
env_http_shutdown_timeout = "HTTP_SHUTDOWN_TIMEOUT"

abbrev pub env_http_request_timeout : String
env_http_request_timeout = "HTTP_REQUEST_TIMEOUT"

abbrev pub env_rate_limit_rps : String
env_rate_limit_rps = "RATE_LIMIT_RPS"

abbrev pub env_rate_limit_burst : String
env_rate_limit_burst = "RATE_LIMIT_BURST"

abbrev pub env_database_dsn : String
env_database_dsn = "DATABASE_DSN"

abbrev pub env_db_max_conns : String
env_db_max_conns = "DB_MAX_CONNS"

abbrev pub env_db_query_timeout : String
env_db_query_timeout = "DB_QUERY_TIMEOUT"

abbrev pub env_s3_endpoint : String
env_s3_endpoint = "S3_ENDPOINT"

abbrev pub env_s3_access_key : String
env_s3_access_key = "S3_ACCESS_KEY"

abbrev pub env_s3_secret_key : String
env_s3_secret_key = "S3_SECRET_KEY"

abbrev pub env_s3_bucket : String
env_s3_bucket = "S3_BUCKET"

abbrev pub env_s3_region : String
env_s3_region = "S3_REGION"

abbrev pub env_s3_use_ssl : String
env_s3_use_ssl = "S3_USE_SSL"

abbrev pub env_s3_timeout : String
env_s3_timeout = "S3_TIMEOUT"

abbrev pub env_amqp_url : String
env_amqp_url = "AMQP_URL"

abbrev pub env_amqp_prefetch : String
env_amqp_prefetch = "AMQP_PREFETCH"

abbrev pub env_amqp_timeout : String
env_amqp_timeout = "AMQP_TIMEOUT"

abbrev pub env_otel_endpoint : String
env_otel_endpoint = "OTEL_EXPORTER_OTLP_ENDPOINT"

abbrev pub env_otel_insecure : String
env_otel_insecure = "OTEL_EXPORTER_OTLP_INSECURE"

abbrev pub env_otel_sample_ratio : String
env_otel_sample_ratio = "OTEL_TRACES_SAMPLE_RATIO"

abbrev pub env_image_max_upload_bytes : String
env_image_max_upload_bytes = "IMAGE_MAX_UPLOAD_BYTES"

abbrev pub env_image_max_pixels : String
env_image_max_pixels = "IMAGE_MAX_PIXELS"

abbrev pub env_image_jpeg_quality : String
env_image_jpeg_quality = "IMAGE_JPEG_QUALITY"

abbrev pub env_worker_process_timeout : String
env_worker_process_timeout = "WORKER_PROCESS_TIMEOUT"

abbrev pub env_worker_reconcile_interval : String
env_worker_reconcile_interval = "WORKER_RECONCILE_INTERVAL"

abbrev pub env_worker_stuck_after : String
env_worker_stuck_after = "WORKER_STUCK_AFTER"

abbrev pub env_worker_reconcile_batch : String
env_worker_reconcile_batch = "WORKER_RECONCILE_BATCH"

abbrev pub env_worker_decode_concurrency : String
env_worker_decode_concurrency = "WORKER_DECODE_CONCURRENCY"

abbrev pub env_worker_metrics_addr : String
env_worker_metrics_addr = "WORKER_METRICS_ADDR"

abbrev pub env_worker_shutdown_timeout : String
env_worker_shutdown_timeout = "WORKER_SHUTDOWN_TIMEOUT"
