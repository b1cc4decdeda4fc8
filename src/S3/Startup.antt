-- ===== src/S3/Startup.antt =====
-- New, Close and Ping of internal/storage/s3/s3.go, over the answers of the client of MinIO: to its
-- making, and to BucketExists. The deadlines of the transport are settings of net/http.
use gophprofile.Base.{ℕ, ◌*◌, String, Bool, true, false, Option, none, some, List, [], ◌∷◌}
use gophprofile.Fault.{Error, Result, ok, err, wrap, foreign}
use gophprofile.Config.{Storage}
use gophprofile.Config.Defaults.{Duration, second}
use gophprofile.Lifecycle.{Act, opened, closed, transport, Life, unless, after}

pub record Minio : Type 0 where
  pub made : Option Error
  pub exists : Result Bool

-- The fields of a Storage that the configuration gives.
pub record Bucket : Type 0 where
  pub bucket : String
  pub timeout : Duration

pub record Transport : Type 0 where
  pub dial_timeout : ℕ
  pub tls_handshake_timeout : ℕ
  pub response_header_timeout : ℕ
  pub idle_conn_timeout : ℕ
  pub max_idle_conns_per_host : ℕ

abbrev pub max_retries : ℕ
max_retries = 3

abbrev pub new_transport : Transport
new_transport = record {
  dial_timeout = 5 * second;
  tls_handshake_timeout = 5 * second;
  response_header_timeout = 10 * second;
  idle_conn_timeout = 90 * second;
  max_idle_conns_per_host = 16;
}

unfoldable pub check_bucket : Result Bool → Option Error
check_bucket (err e) = some (wrap e)
check_bucket (ok true) = none
check_bucket (ok false) = some (foreign 0)

-- CloseIdleConnections
abbrev pub close : List Act
close = closed transport ∷ []

abbrev pub checked : Storage → Option Error → Life Bucket
checked cfg (some e) = (err e, close)
checked cfg none = (ok (record { bucket = cfg.bucket; timeout = cfg.timeout }), [])

-- The transport has connections from the first request on.
unfoldable pub new : Storage → Minio → Life Bucket
unfolding check_bucket
new cfg minio =
    unless minio.made [] (after (opened transport ∷ []) (checked cfg (check_bucket minio.exists)))

unfoldable pub ping : Result Bool → Option Error
unfolding check_bucket
ping exists = elim (check_bucket exists) [ none ↦ none | some e ↦ some (wrap e) ]
