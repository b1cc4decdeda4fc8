-- ===== src/Fault.antt =====
-- Go's `error` values, as far as `errors.Is` can tell them apart: internal/domain/errors.go, the
-- sentinels of the packages broker, http and web, and those of the standard library and the drivers
-- that the code compares with. Texts of errors are not modelled.
use gophprofile.Base.{ℕ, ◌==◌, ◌||◌, Bool, false, Option, none, some, String, List, [], ◌∷◌}

pub data Sentinel : Type 0 where
  -- internal/domain/errors.go
  not_found forbidden invalid_transition unsupported_format too_large image_too_big unsupported_size
        unavailable :
      Sentinel
  -- internal/broker/consumer.go
  non_retryable : Sentinel
  -- internal/server/http/response.go
  missing_user_id invalid_avatar_id missing_file malformed_body user_id_too_long
        file_name_too_long :
      Sentinel
  -- internal/server/web/upload.go
  form_user_id_missing form_user_id_too_long form_file_missing form_file_name_too_long
        form_malformed :
      Sentinel
  -- context, pgx, gobreaker, amqp091-go and net/http
  deadline_exceeded canceled no_rows open_state too_many_requests amqp_closed server_closed :
      Sentinel

abbrev tag : Sentinel → ℕ
tag not_found = 0
tag forbidden = 1
tag invalid_transition = 2
tag unsupported_format = 3
tag too_large = 4
tag image_too_big = 5
tag unsupported_size = 6
tag unavailable = 7
tag non_retryable = 8
tag missing_user_id = 9
tag invalid_avatar_id = 10
tag missing_file = 11
tag malformed_body = 12
tag user_id_too_long = 13
tag file_name_too_long = 14
tag deadline_exceeded = 15
tag canceled = 16
tag no_rows = 17
tag open_state = 18
tag too_many_requests = 19
tag form_user_id_missing = 20
tag form_user_id_too_long = 21
tag form_file_missing = 22
tag form_file_name_too_long = 23
tag form_malformed = 24
tag amqp_closed = 25
tag server_closed = 26

-- `wrap` is `fmt.Errorf("…: %w", err)`, `both` is two `%w` or `errors.Join`, `response` is
-- minio.ErrorResponse with its code and its HTTP status, and `foreign` an error of any other kind.
pub data Error : Type 0 where
  sentinel : Sentinel → Error
  foreign : ℕ → Error
  response : String → ℕ → Error
  wrap : Error → Error
  both : Error → Error → Error

-- errors.Is
unfoldable pub is : Error → Sentinel → Bool
is (sentinel s) t = tag s == tag t
is (foreign n) t = false
is (response code status) t = false
is (wrap e) t = is e t
is (both d e) t = is d t || is e t

pub data Result (A : Type 0) : Type 0 where
  ok : A → Result A
  err : Error → Result A

-- A function that returns only `error`.
abbrev pub error_of : {A : Type 0} → Result A → Option Error
error_of (ok a) = none
error_of (err e) = some e

-- errors.Join
unfoldable pub join : List Error → Option Error
join [] = none
join (e ∷ es) = elim (join es) [ none ↦ some e | some d ↦ some (both e d) ]
