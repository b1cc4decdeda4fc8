-- ===== src/Config.antt =====
-- internal/config/config.go and the formats of internal/logger/logger.go: the configuration that the
-- binaries read from the environment. An int has 64 bits, as on the platforms of the images.
pub mod Names
pub mod Defaults
pub mod Numbers
pub mod Reader
pub mod Load
pub mod Validation
pub mod Ready
pub mod Started
use gophprofile.Base.{String, Bool, ℤ}
use Defaults.{Duration, Float}

pub data Format : Type 0 where
  format_json format_text : Format

pub record App : Type 0 where
  pub env : String
  pub log_level : ℤ
  pub log_format : Format

pub record Http : Type 0 where
  pub addr : String
  pub read_header_timeout : Duration
  pub read_timeout : Duration
  pub write_timeout : Duration
  pub idle_timeout : Duration
  pub shutdown_timeout : Duration
  pub request_timeout : Duration

pub record RateLimit : Type 0 where
  pub rps : Float
  pub burst : ℤ

pub record Db : Type 0 where
  pub dsn : String
  pub max_conns : ℤ
  pub query_timeout : Duration

pub record Storage : Type 0 where
  pub endpoint : String
  pub access_key : String
  pub secret_key : String
  pub bucket : String
  pub region : String
  pub use_ssl : Bool
  pub timeout : Duration

pub record Amqp : Type 0 where
  pub url : String
  pub prefetch : ℤ
  pub timeout : Duration

pub record Otel : Type 0 where
  pub endpoint : String
  pub insecure : Bool
  pub sample_ratio : Float

pub record Image : Type 0 where
  pub max_upload_bytes : ℤ
  pub max_pixels : ℤ
  pub jpeg_quality : ℤ

pub record Worker : Type 0 where
  pub process_timeout : Duration
  pub reconcile_interval : Duration
  pub stuck_after : Duration
  pub reconcile_batch : ℤ
  pub decode_concurrency : ℤ
  pub metrics_addr : String
  pub shutdown_timeout : Duration

pub record Config : Type 0 where
  pub app : App
  pub http : Http
  pub rate_limit : RateLimit
  pub db : Db
  pub storage : Storage
  pub amqp : Amqp
  pub otel : Otel
  pub image : Image
  pub worker : Worker

-- The errors, by the variable that they name. `malformed` wraps the error of the parser.
pub data Problem : Type 0 where
  malformed : String → Problem
  unknown_format : String → Problem
  not_one_of : String → Problem
  is_required : String → Problem
  must_be_positive : String → Problem
  must_be_zero_or_positive : String → Problem
  must_be_between_0_and_1 : String → Problem
  must_be_at_most : String → Problem
