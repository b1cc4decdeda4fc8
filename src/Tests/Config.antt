-- ===== src/Tests/Config.antt =====
-- Runs of internal/config on small environments.
use gophprofile.Base.{
  String, ◌≡◌, refl, ◌↔◌, none, some, List, [], ◌∷◌, pos, negsuc, str_eq, if◌then◌else◌,
}
use gophprofile.Config.{Config, malformed, must_be_at_most, must_be_positive, is_required}
use gophprofile.Config.Names.{
  env_database_dsn, env_s3_endpoint, env_s3_access_key, env_s3_secret_key, env_amqp_url,
  env_http_addr, env_image_jpeg_quality, env_db_max_conns,
}
use gophprofile.Config.Numbers.{atoi, is_nan, below_zero, above_one}
use gophprofile.Config.Validation.{
  join, required, positive, positive_duration, validate_app, validate_http, validate_rate_limit,
  validate_db, validate_storage, validate_amqp, validate_otel, validate_image,
}
use gophprofile.Config.Reader.{Env, Parsers}
use gophprofile.Config.Load.{loaded, refused, load, read, load_server}
use gophprofile.Config.Ready.{IsReadyApp, IsReadyHttp, IsReadyRateLimit, IsReadyShared}
use gophprofile.Config.Started.{load_server_iff}

abbrev parsers : Parsers
parsers = record {
  parse_float = λ s. none;
  parse_duration = λ s. if str_eq s "1s" then some (pos 1000000000) else none;
  unmarshal_text = λ s. none;
}

abbrev from : List (String × String) → Env
from [] key = none
from ((k, v) ∷ kvs) key = if str_eq k key then some v else from kvs key

abbrev secrets : List (String × String)
secrets =
    (env_database_dsn, "postgres://db")
    ∷ (env_s3_endpoint, "minio:9000")
    ∷ (env_s3_access_key, "key")
    ∷ (env_s3_secret_key, "hush")
    ∷ (env_amqp_url, "amqp://mq")
    ∷ []

abbrev pub defaults : Config
defaults = (read parsers (from secrets) []).0

atoi_negative : atoi "-12" ≡ some (negsuc 11)
unfolding atoi
atoi_negative = refl

atoi_overflow : atoi "9223372036854775808" ≡ none
unfolding atoi
atoi_overflow = refl

atoi_lowest : atoi "-9223372036854775808" ≡ some (negsuc 9223372036854775807)
unfolding atoi
atoi_lowest = refl

atoi_blank : (atoi "" ≡ none) × (atoi "+" ≡ none) × (atoi " 1" ≡ none)
unfolding atoi
atoi_blank = (refl, refl, refl)

-- With the secrets alone; with a quality that is too high; with an address that is declared empty,
-- which is not the same as not declared.
runs :
    (load_server parsers (from secrets) ≡ loaded defaults)
    × (load_server parsers (from ((env_image_jpeg_quality, "101") ∷ secrets))
        ≡ refused (must_be_at_most env_image_jpeg_quality ∷ []))
    × (load_server parsers (from ((env_http_addr, "") ∷ (env_db_max_conns, "0") ∷ secrets))
        ≡ refused (is_required env_http_addr ∷ must_be_positive env_db_max_conns ∷ []))
    × (load_server parsers (from ((env_db_max_conns, "ten") ∷ []))
        ≡ refused (malformed env_db_max_conns ∷ []))
unfolding load_server atoi join required positive positive_duration validate_app validate_http
    validate_rate_limit validate_db validate_storage validate_amqp validate_otel validate_image
    is_nan below_zero above_one
runs = (refl, refl, refl, refl)

load_server_iff_example : (load_server parsers (from secrets) ≡ loaded defaults) ↔ (
    (load parsers (from secrets) ≡ loaded defaults)
    × IsReadyApp defaults.app
    × IsReadyHttp defaults.http
    × IsReadyRateLimit defaults.rate_limit
    × IsReadyShared defaults)
load_server_iff_example = load_server_iff parsers (from secrets) defaults
