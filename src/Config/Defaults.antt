-- ===== src/Config/Defaults.antt =====
-- internal/config/config.go: the environments and the default values. Durations are in nanoseconds;
-- a float64 is the number of its 64 bits.
use gophprofile.Base.{ℕ, ◌*◌, ◌^◌, String, Bool, false, ℤ, pos}

abbrev pub Duration : Type 0
Duration = ℤ

abbrev pub second : ℕ
second = 1000000000

abbrev pub minute : ℕ
minute = 60000000000

abbrev pub env_local : String
env_local = "local"

abbrev pub env_production : String
env_production = "production"

-- The IEEE 754 number of a 64-bit pattern: the sign is the top bit, then 11 bits of the exponent.
abbrev pub Float : Type 0
Float = ℕ

abbrev pub zero_float : Float
zero_float = 0

abbrev pub one : Float
one = 4607182418800017408

abbrev pub default_http_addr : String
default_http_addr = ":8080"

abbrev pub default_http_read_timeout : Duration
default_http_read_timeout = pos (3 * minute)

abbrev pub default_http_read_header_timeout : Duration
default_http_read_header_timeout = pos (5 * second)

abbrev pub default_http_write_timeout : Duration
default_http_write_timeout = pos (60 * second)

abbrev pub default_http_idle_timeout : Duration
default_http_idle_timeout = pos (2 * minute)

abbrev pub default_http_shutdown_timeout : Duration
default_http_shutdown_timeout = pos (15 * second)

abbrev pub default_http_request_timeout : Duration
default_http_request_timeout = pos (30 * second)

abbrev pub default_db_max_conns : ℤ
default_db_max_conns = pos 10

abbrev pub default_db_query_timeout : Duration
default_db_query_timeout = pos (5 * second)

abbrev pub default_s3_bucket : String
default_s3_bucket = "avatars"

abbrev pub default_s3_region : String
default_s3_region = "us-east-1"

abbrev pub default_s3_use_ssl : Bool
default_s3_use_ssl = false

abbrev pub default_s3_timeout : Duration
default_s3_timeout = pos (15 * second)

abbrev pub default_amqp_prefetch : ℤ
default_amqp_prefetch = pos 8

abbrev pub default_amqp_timeout : Duration
default_amqp_timeout = pos (10 * second)

abbrev pub default_otel_sample_ratio : Float
default_otel_sample_ratio = one

abbrev pub default_image_max_upload_bytes : ℤ
default_image_max_upload_bytes = pos (10 * 2 ^ 20)

abbrev pub default_image_max_pixels : ℤ
default_image_max_pixels = pos 50000000

abbrev pub default_image_jpeg_quality : ℤ
default_image_jpeg_quality = pos 85

abbrev pub default_worker_process_timeout : Duration
default_worker_process_timeout = pos (60 * second)

abbrev pub default_worker_reconcile_interval : Duration
default_worker_reconcile_interval = pos minute

abbrev pub default_worker_stuck_after : Duration
default_worker_stuck_after = pos (5 * minute)

abbrev pub default_worker_reconcile_batch : ℤ
default_worker_reconcile_batch = pos 100

abbrev pub default_worker_decode_concurrency : ℤ
default_worker_decode_concurrency = pos 2

abbrev pub default_worker_metrics_addr : String
default_worker_metrics_addr = ":9090"

abbrev pub default_worker_shutdown_timeout : Duration
default_worker_shutdown_timeout = pos (75 * second)

abbrev pub default_rate_limit_rps : Float
default_rate_limit_rps = zero_float

abbrev pub default_rate_limit_burst : ℤ
default_rate_limit_burst = pos 0

abbrev pub max_jpeg_quality : ℕ
max_jpeg_quality = 100
